-- ===== src/Sizes/Linear.antt =====
-- SMM_LINEAR_PARTITIONING of SmMalloc/smmalloc.h: every bucket 16 bytes larger than the last.
use smmalloc.Prelude.{
  ℕ, ◌+◌, ◌-◌, ◌*◌, ◌%◌, ◌^◌, ◌≤◌, ◌<◌, ◌≡◌, refl, arith, u64, sub64, of_below, ◌>>>◌,
}
use smmalloc.Sizes.Defs.{Partition, max_bucket_count}

unfoldable pub index_by_size : ℕ → ℕ
index_by_size bytes_count = sub64 bytes_count 1 >>> 4

unfoldable pub size_by_index : ℕ → ℕ
size_by_index bucket_index = u64 (16 + u64 (bucket_index * 16))

module _ (n : ℕ) (pos : 0 < n) (fits : n < 2 ^ 64 - 15) where
  -- Linear scheme: the bucket of a size from 1 up to `2 ^ 64 - 16` has elements of that many bytes
  -- or more.
  pub linear_covers : n ≤ size_by_index (index_by_size n)
  unfolding index_by_size size_by_index
  linear_covers = omega arith

  -- Linear scheme: every bucket below the bucket of a size from 1 up to `2 ^ 64 - 16` has elements
  -- of fewer bytes than the size.
  pub linear_tight : (i : ℕ) → i < index_by_size n → size_by_index i < n
  unfolding index_by_size size_by_index
  linear_tight i less = omega arith

-- Linear scheme: the bucket of the element size of the `i`-th bucket is the `i`-th, for `i` below
-- `2 ^ 60 - 1`.
pub linear_index-size : (i : ℕ) → i < 2 ^ 60 - 1 → index_by_size (size_by_index i) ≡ i
unfolding index_by_size size_by_index
linear_index-size i h = omega arith

pub grows : (i j : ℕ) → i < j → j < max_bucket_count → size_by_index i < size_by_index j
unfolding size_by_index
grows i j less h = ground arith

pub at_least_16 : (i : ℕ) → i < max_bucket_count → 16 ≤ size_by_index i
unfolding size_by_index
at_least_16 i h = ground arith

pub at_most_1M : (i : ℕ) → i < max_bucket_count → size_by_index i < 2 ^ 20
unfolding size_by_index
at_most_1M i h = ground arith

abbrev KeepsAligned : ℕ → Type 0
KeepsAligned k =
    (n : ℕ) → 0 < n → n < 2 ^ 64 - 15 → n % 2 ^ k ≡ 0 → size_by_index (index_by_size n) % 2 ^ k ≡ 0

keeps_0 : KeepsAligned 0
unfolding index_by_size size_by_index
keeps_0 n pos fits e = ground arith

keeps_1 : KeepsAligned 1
unfolding index_by_size size_by_index
keeps_1 n pos fits e = ground arith

keeps_2 : KeepsAligned 2
unfolding index_by_size size_by_index
keeps_2 n pos fits e = ground arith

keeps_3 : KeepsAligned 3
unfolding index_by_size size_by_index
keeps_3 n pos fits e = ground arith

keeps_4 : KeepsAligned 4
unfolding index_by_size size_by_index
keeps_4 n pos fits e = ground arith

keeps_5 : KeepsAligned 5
unfolding index_by_size size_by_index
keeps_5 n pos fits e = ground arith

keeps_6 : KeepsAligned 6
unfolding index_by_size size_by_index
keeps_6 n pos fits e = ground arith

keeps_7 : KeepsAligned 7
unfolding index_by_size size_by_index
keeps_7 n pos fits e = ground arith

keeps_8 : KeepsAligned 8
unfolding index_by_size size_by_index
keeps_8 n pos fits e = ground arith

keeps_9 : KeepsAligned 9
unfolding index_by_size size_by_index
keeps_9 n pos fits e = ground arith

keeps_10 : KeepsAligned 10
unfolding index_by_size size_by_index
keeps_10 n pos fits e = ground arith

keeps_11 : KeepsAligned 11
unfolding index_by_size size_by_index
keeps_11 n pos fits e = ground arith

keeps_12 : KeepsAligned 12
unfolding index_by_size size_by_index
keeps_12 n pos fits e = ground arith

-- Linear scheme: a multiple of a power of two up to 4096, from 1 up to `2 ^ 64 - 16`, gets a
-- bucket whose element size is one too.
pub linear_keeps_aligned :
    (k n : ℕ)
    → k ≤ 12
    → 0 < n
    → n < 2 ^ 64 - 15
    → n % 2 ^ k ≡ 0
    → size_by_index (index_by_size n) % 2 ^ k ≡ 0
linear_keeps_aligned k n small =
    of_below KeepsAligned 13
      (
        (
          (
            (
              (
                (
                  (((((((tt, keeps_0), keeps_1), keeps_2), keeps_3), keeps_4), keeps_5), keeps_6),
                  keeps_7,
                ),
                keeps_8,
              ),
              keeps_9,
            ),
            keeps_10,
          ),
          keeps_11,
        ),
        keeps_12,
      )
      k (omega arith) n

pub stop_aligned : size_by_index 255 % 4096 ≡ 0
unfolding size_by_index
stop_aligned = refl

abbrev pub partition : Partition
partition = record {
  index_by_size = index_by_size;
  size_by_index = size_by_index;
  limit = 2 ^ 64 - 15;
  covers = linear_covers;
  keeps_aligned = linear_keeps_aligned;
  grows = grows;
  at_least_16 = at_least_16;
  at_most_1M = at_most_1M;
  stop = 255;
  stop_bounds = (omega arith, omega arith);
  stop_aligned = stop_aligned;
  limit_fits = omega arith;
}
