-- ===== src/Allocator/Defs.antt =====
-- The state of `sm::Allocator` of SmMalloc/smmalloc.h, with the memory, the heap and the thread's
-- caches that it works on, and the operations that only look at it.
use smmalloc.Prelude.{
  ℕ, ◌/◌, Bool, ◌&&◌, Option, none, some, ltb, leb, ◌==◌, if◌then◌else◌, sub64, ◌>>=◌, u32,
}
use smmalloc.Memory.{Mem}
use smmalloc.Pool.{null, PoolBucket, BucketStats, new_bucket}
use smmalloc.Cache.{TlsPoolBucket, zero_bucket, Store}
use smmalloc.Generic.{Machine, Libc}
use smmalloc.Generic
use smmalloc.Sizes.{Partition}

-- Allocator::kMaxValidAlignment
abbrev pub max_valid_alignment : ℕ
max_valid_alignment = 4096

-- `GlobalStats`, kept if SMMALLOC_STATS_SUPPORT is defined
pub record GlobalStats : Type 0 where
  pub total_num_allocation_attempts : ℕ
  pub total_allocations_served : ℕ
  pub total_allocations_routed_to_default_allocator : ℕ
  pub routing_reason_by_size : ℕ
  pub routing_reason_saturation : ℕ

abbrev pub new_global_stats : GlobalStats
new_global_stats = record {
  total_num_allocation_attempts = 0;
  total_allocations_served = 0;
  total_allocations_routed_to_default_allocator = 0;
  routing_reason_by_size = 0;
  routing_reason_saturation = 0;
}

-- One allocator, the thread that calls it, and what both work on. `tls` is `tlsCacheBuckets`.
pub record World (H : Type 0) : Type 0 where
  pub heap : H
  pub mem : Mem
  pub tls : ℕ → TlsPoolBucket
  pub buckets_count : ℕ
  pub bucket_size_in_bytes : ℕ
  pub buffer_end : ℕ
  pub buckets_data_begin : ℕ → ℕ
  pub buckets : ℕ → PoolBucket
  pub buffer : ℕ
  pub global_stats : GlobalStats

-- The address that stands for an empty allocation is its alignment, and is no block's.
unfoldable pub is_readable : ℕ → Bool
is_readable p = ltb max_valid_alignment p

module _ {H : Type 0} where
  -- the parts that the caches and the generic allocator see
  abbrev pub store : World H → Store
  store w = record { mem = w.mem; buckets = w.buckets }

  abbrev pub with_store : World H → Store → World H
  with_store w s = record w { mem = s.mem; buckets = s.buckets }

  abbrev pub machine : World H → Machine H
  machine w = record { heap = w.heap; mem = w.mem }

  abbrev pub with_machine : World H → Machine H → World H
  with_machine w s = record w { heap = s.heap; mem = s.mem }

  -- the constructor `Allocator(instance)`, in a thread that has no cache
  unfoldable pub construct : H → Mem → World H
  construct heap mem = record {
    heap = heap;
    mem = mem;
    tls = λ _. zero_bucket;
    buckets_count = 0;
    bucket_size_in_bytes = 0;
    buffer_end = null;
    buckets_data_begin = λ _. null;
    buckets = λ _. new_bucket;
    buffer = null;
    global_stats = new_global_stats;
  }

  -- The division is undefined in an allocator that `Init` has not set up.
  unfoldable pub find_bucket : World H → ℕ → Option ℕ
  find_bucket w p =
      let index = sub64 p (w.buckets_data_begin 0) in
      if w.bucket_size_in_bytes == 0 then none else some (index / w.bucket_size_in_bytes)

  unfoldable pub get_bucket_by_index : World H → ℕ → Option PoolBucket
  get_bucket_by_index w i = if leb w.buckets_count i then none else some (w.buckets i)

  unfoldable pub is_my_alloc : World H → ℕ → Bool
  is_my_alloc w p = leb w.buffer p && ltb p w.buffer_end

  -- `some none` is the result -1.
  unfoldable pub get_bucket_index : World H → ℕ → Option (Option ℕ)
  unfolding is_my_alloc find_bucket
  get_bucket_index w p =
      if is_my_alloc w p
      then (do
        i ← find_bucket w p
        if leb w.buckets_count i then some none else some (some (u32 i)))
      else some none

  unfoldable pub get_buckets_count : World H → ℕ
  get_buckets_count w = w.buckets_count

  unfoldable pub get_bucket_stats : World H → ℕ → Option BucketStats
  unfolding get_bucket_by_index
  get_bucket_stats w i = elim (get_bucket_by_index w i) [
    | none ↦ none
    | some b ↦ some b.bucket_stats
  ]

  module _ (part : Partition) where
    unfoldable pub get_bucket_elements_count : World H → ℕ → Option ℕ
    get_bucket_elements_count w i =
        if leb w.buckets_count i
        then some 0
        else let one_element_size = part.size_by_index i in
          if one_element_size == 0
          then none
          else some (u32 (w.bucket_size_in_bytes / one_element_size))

    unfoldable pub get_usable_size : Libc H → World H → ℕ → Option ℕ
    unfolding is_readable find_bucket
    get_usable_size libc w p =
        let found = find_bucket w p >>= λ i.
        if ltb i w.buckets_count
        then some (part.size_by_index i)
        else some (Generic.get_usable_space libc (machine w) p) in
        if is_readable p then found else some 0
