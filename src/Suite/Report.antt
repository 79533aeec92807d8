-- ===== src/Suite/Report.antt =====
-- The statistics that the tests and benchmarks print at their end, as values.
use smmalloc.Prelude.{
  ℕ, zero, suc, ◌+◌, ◌*◌, List, [], ◌∷◌, Option, none, some, ◌==◌, if◌then◌else◌, ◌>>=◌, u64,
}
use smmalloc.Pool.{BucketStats}
use smmalloc.Sizes.{Partition}
use smmalloc.Allocator.{World, get_buckets_count, get_bucket_elements_count, get_bucket_stats}

-- a percentage, as a numerator and a denominator
abbrev pub percentage : ℕ → ℕ → ℕ × ℕ
percentage part_of whole = if whole == 0 then (0, 1) else (part_of * 100, whole)

-- one `Bucket[...]` section; no hits or misses without statistics
pub record BucketReport : Type 0 where
  pub index : ℕ
  pub elements_count : ℕ
  pub elements_size : ℕ
  pub stats : Option BucketStats
  pub operations : ℕ

pub record HeapReport : Type 0 where
  pub attempts : ℕ
  pub served : ℕ
  pub served_percentage : ℕ × ℕ
  pub routed : ℕ
  pub routed_percentage : ℕ × ℕ
  pub because_of_size : ℕ
  pub because_of_saturation : ℕ
  pub buckets : List BucketReport

abbrev pub operations_of : Option BucketStats → ℕ
operations_of none = 0
operations_of (some s) = u64 (u64 (s.cache_hit_count + s.hit_count) + s.miss_count)

module _ {H : Type 0} (part : Partition) (w : World H) where
  abbrev pub bucket_report : ℕ → ℕ → BucketReport
  bucket_report i elements_count = record {
    index = i;
    elements_count = elements_count;
    elements_size = part.size_by_index i;
    stats = get_bucket_stats w i;
    operations = operations_of (get_bucket_stats w i);
  }

  -- the loop over the buckets, with `n` of them to go
  unfoldable pub bucket_reports : ℕ → ℕ → Option (List BucketReport)
  bucket_reports zero i = some []
  bucket_reports (suc n) i = get_bucket_elements_count part w i >>= λ elements_count.
      bucket_reports n (i + 1) >>= λ rest. some (bucket_report i elements_count ∷ rest)

  unfoldable pub heap_report : Option HeapReport
  unfolding bucket_reports
  heap_report =
      let g = w.global_stats in
      bucket_reports (get_buckets_count w) 0 >>= λ buckets. some (record {
        attempts = g.total_num_allocation_attempts;
        served = g.total_allocations_served;
        served_percentage = percentage g.total_allocations_served g.total_num_allocation_attempts;
        routed = g.total_allocations_routed_to_default_allocator;
        routed_percentage =
            percentage g.total_allocations_routed_to_default_allocator
              g.total_num_allocation_attempts;
        because_of_size = g.routing_reason_by_size;
        because_of_saturation = g.routing_reason_saturation;
        buckets = buckets;
      })
