-- ===== src/Sizes/Defs.antt =====
-- The interface between `GetBucketIndexBySize`, `GetBucketSizeInBytesByIndex` and their callers.
use smmalloc.Prelude.{ℕ, ◌%◌, ◌^◌, ◌≤◌, ◌<◌, ◌≡◌}

-- SMM_MAX_BUCKET_COUNT
abbrev pub max_bucket_count : ℕ
max_bucket_count = 62

-- A scheme: the bucket of a size, the element size of a bucket, and the sizes below which the
-- scheme's arithmetic is exact. `stop` is a bucket behind all others with elements of every alignment
-- that the allocator accepts.
pub record Partition : Type 0 where
  pub index_by_size : ℕ → ℕ
  pub size_by_index : ℕ → ℕ
  pub limit : ℕ
  pub covers : (n : ℕ) → 0 < n → n < limit → n ≤ size_by_index (index_by_size n)
  pub keeps_aligned :
      (k n : ℕ)
      → k ≤ 12
      → 0 < n
      → n < limit
      → n % 2 ^ k ≡ 0
      → size_by_index (index_by_size n) % 2 ^ k ≡ 0
  pub grows : (i j : ℕ) → i < j → j < max_bucket_count → size_by_index i < size_by_index j
  pub at_least_16 : (i : ℕ) → i < max_bucket_count → 16 ≤ size_by_index i
  pub at_most_1M : (i : ℕ) → i < max_bucket_count → size_by_index i < 2 ^ 20
  pub stop : ℕ
  pub stop_bounds : (max_bucket_count ≤ stop) × (stop ≤ 256)
  pub stop_aligned : size_by_index stop % 4096 ≡ 0
  pub limit_fits : limit ≤ 2 ^ 64
