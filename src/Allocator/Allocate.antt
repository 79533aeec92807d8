-- ===== src/Allocator/Allocate.antt =====
-- `Allocator::Allocate` of SmMalloc/smmalloc.h.
use smmalloc.Prelude.{
  ℕ, zero, suc, ◌+◌, Bool, true, false, Option, none, some, ltb, ◌==◌, if◌then◌else◌, u64, ◌>>=◌,
}
use smmalloc.Memory.{update}
use smmalloc.Align.{align, is_aligned, min_size_t}
use smmalloc.Pool
use smmalloc.Pool.{null, PoolBucket, BucketStats}
use smmalloc.Cache.{alloc_from_cache}
use smmalloc.Generic.{Libc}
use smmalloc.Generic
use smmalloc.Sizes.{Partition}
use smmalloc.Allocator.Defs.{World, GlobalStats, machine, with_machine}

-- `counter.fetch_add(1)` on a `size_t`, if the statistics are to be kept
abbrev pub bump : Bool → ℕ → ℕ
bump enable n = if enable then u64 (n + 1) else n

module _ (part : Partition) where
  -- The inner loop: the next bucket whose elements have the alignment.
  unfoldable pub next_bucket : ℕ → ℕ → ℕ → Option ℕ
  next_bucket zero i alignment = none
  next_bucket (suc fuel) i alignment =
      let next = u64 (i + 1) in
      let further = next_bucket fuel next alignment in
      if is_aligned (part.size_by_index next) alignment then some next else further

-- Every scheme has elements of a multiple of 4096 bytes within as many buckets.
abbrev pub next_bucket_rounds : ℕ
next_bucket_rounds = 256

module _ {H : Type 0} where
  abbrev pub on_stats : (GlobalStats → GlobalStats) → World H → World H
  on_stats f w = record w { global_stats = f w.global_stats }

  abbrev pub on_bucket_stats : (BucketStats → BucketStats) → ℕ → World H → World H
  on_bucket_stats f i w =
      let b = w.buckets i in
      record w { buckets = update w.buckets i (record b { bucket_stats = f b.bucket_stats }) }

  abbrev pub count_attempt : Bool → World H → World H
  count_attempt e =
      on_stats
        λ g. record g { total_num_allocation_attempts = bump e g.total_num_allocation_attempts }

  abbrev pub count_served : Bool → World H → World H
  count_served e =
      on_stats λ g. record g { total_allocations_served = bump e g.total_allocations_served }

  abbrev pub count_cache_hit : Bool → ℕ → World H → World H
  count_cache_hit e = on_bucket_stats λ b. record b { cache_hit_count = bump e b.cache_hit_count }

  abbrev pub count_hit : Bool → ℕ → World H → World H
  count_hit e = on_bucket_stats λ b. record b { hit_count = bump e b.hit_count }

  abbrev pub count_miss : Bool → ℕ → World H → World H
  count_miss e = on_bucket_stats λ b. record b { miss_count = bump e b.miss_count }

  abbrev pub count_routed : Bool → Bool → World H → World H
  count_routed e is_valid_bucket = on_stats λ g. record g {
    routing_reason_saturation =
        if is_valid_bucket then bump e g.routing_reason_saturation else g.routing_reason_saturation;
    routing_reason_by_size =
        if is_valid_bucket then g.routing_reason_by_size else bump e g.routing_reason_by_size;
    total_allocations_routed_to_default_allocator =
        bump e g.total_allocations_routed_to_default_allocator;
  }

  module _ (part : Partition) where
    -- The outer loop: `some (null, w)` if none of the buckets up to `max_index` has a block.
    unfoldable pub alloc_from_buckets : ℕ → Bool → World H → ℕ → ℕ → ℕ → Option (ℕ × World H)
    unfolding next_bucket
    alloc_from_buckets zero e w i max_index alignment = none
    alloc_from_buckets (suc fuel) e w i max_index alignment =
        if ltb i max_index
        then (Pool.alloc w.mem (w.buckets i) >>= λ (p, b).
            let w' = record w { buckets = update w.buckets i b } in
            let missed = next_bucket part next_bucket_rounds i alignment >>= λ next.
            alloc_from_buckets fuel e (count_miss e i w') next max_index alignment in
            if p == null then missed else some (p, count_hit e i (count_served e w')))
        else some (null, w)

    module _ (libc : Libc H) where
      -- the part behind the cache: four buckets at most, then the generic allocator
      unfoldable pub alloc_uncached : Bool → World H → ℕ → ℕ → ℕ → Bool → Option (ℕ × World H)
      unfolding alloc_from_buckets
      alloc_uncached e w bytes_count alignment bucket_index is_valid_bucket =
          let max_bucket_index = min_size_t w.buckets_count (u64 (bucket_index + 4)) in
          alloc_from_buckets 5 e w bucket_index max_bucket_index alignment >>= λ (p, w').
          if p == null
          then (let w'' = count_routed e is_valid_bucket w' in
              let (q, s) = Generic.alloc libc (machine w'') bytes_count alignment in
              some (q, with_machine w'' s))
          else some (p, w')

      -- `Allocate<enableStatistic>`
      unfoldable pub allocate : Bool → World H → ℕ → ℕ → Option (ℕ × World H)
      unfolding alloc_uncached
      allocate e w bytes_count alignment =
          if bytes_count == 0
          then some (alignment, w)
          else let w1 = count_attempt e w in
            let bucket_index = part.index_by_size (align bytes_count alignment) in
            if ltb bucket_index w1.buckets_count
            then (alloc_from_cache (w1.tls bucket_index) >>= λ (p, t).
                let w2 = record w1 { tls = update w1.tls bucket_index t } in
                if p == null
                then alloc_uncached e w2 bytes_count alignment bucket_index true
                else some (p, count_cache_hit e bucket_index (count_served e w2)))
            else alloc_uncached e w1 bytes_count alignment bucket_index false
