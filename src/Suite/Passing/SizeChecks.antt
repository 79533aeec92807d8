-- ===== src/Suite/Passing/SizeChecks.antt =====
-- BucketSizeTest and BucketSizeAlignment pass.
use smmalloc.Prelude.{ℕ, zero, suc, ◌<◌, ◌≤◌, ◌≡◌, ◌^◌, refl, Bool, true, ◌&&◌, arith, leb, le→leb}
use smmalloc.Sizes.{Partition}
use smmalloc.Sizes.Linear
use smmalloc.Sizes.Piecewise
use smmalloc.Sizes.Float
use smmalloc.Sizes.Float.Scheme
use smmalloc.Suite.Triples.{Returns, Returns-assert, for_range-Returns}
use smmalloc.Suite.Process.{is_aligned_to}
use smmalloc.Suite.Simple.Sizes.{
  bucket_size_check, bucket_size_test, bucket_alignment_check, bucket_size_alignment,
}

abbrev Nothing : {W : Type 0} → ℕ → W → Type 0
Nothing i w = Unit {0}

covered :
    (part : Partition) {W : Type 0} (w : W)
    → 2 ^ 20 ≤ part.limit
    → (v : W) × Returns (bucket_size_test part) w tt v
unfolding bucket_size_test
covered part w big =
    let (v, returns, done) =
      for_range-Returns (bucket_size_check part) (λ i u. 0 < i) 1048576
        (λ i u lt pos. (
          u,
          Returns-assert (leb i (part.size_by_index (part.index_by_size i))) u (
              le→leb i (part.size_by_index (part.index_by_size i))
                (part.covers i pos (omega (arith, lt, big)))),
          omega arith,
        ))
        1048575 1 w (omega arith) (omega arith) in
    (v, returns)

-- The test `BucketSizeTest` ends without a failed check in each of the three schemes: the bucket
-- of each size below a megabyte has elements of that many bytes or more.
pub bucket_size_test_passes :
    {W : Type 0} (w : W)
    → ((v : W) × Returns (bucket_size_test Linear.partition) w tt v)
      × ((v : W) × Returns (bucket_size_test Piecewise.partition) w tt v)
      × ((v : W) × Returns (bucket_size_test Scheme.partition) w tt v)
bucket_size_test_passes w = (
  covered Linear.partition w (omega arith),
  covered Piecewise.partition w (omega arith),
  covered Scheme.partition w (omega arith),
)

abbrev aligned_below : (ℕ → ℕ) → ℕ → Bool
aligned_below f zero = true
aligned_below f (suc n) = aligned_below f n && is_aligned_to (f n) 4

aligned_below_lem :
    (f : ℕ → ℕ) (n i : ℕ) → aligned_below f n ≡ true → i < n → is_aligned_to (f i) 4 ≡ true
aligned_below_lem f zero i all lt = absurd (omega arith)
aligned_below_lem f (suc n) i all lt = ground (arith, aligned_below_lem f n i)

linear_aligned : aligned_below Linear.size_by_index 62 ≡ true
unfolding Linear.size_by_index is_aligned_to
linear_aligned = refl

piecewise_aligned : aligned_below Piecewise.size_by_index 62 ≡ true
unfolding Piecewise.size_by_index is_aligned_to
piecewise_aligned = refl

float_aligned : aligned_below Float.size_by_index 62 ≡ true
unfolding Float.size_by_index Float.float_to_uint is_aligned_to
float_aligned = refl

passes :
    (part : Partition) {W : Type 0} (w : W)
    → aligned_below part.size_by_index 62 ≡ true
    → (v : W) × Returns (bucket_size_alignment part) w tt v
unfolding bucket_size_alignment
passes part w all =
    let (v, returns, done) =
      for_range-Returns (bucket_alignment_check part) Nothing 62
        (λ i u lt _. (
          u,
          Returns-assert (is_aligned_to (part.size_by_index i) 4) u
              (aligned_below_lem part.size_by_index 62 i all lt),
          tt,
        ))
        62 0 w (omega arith) tt in
    (v, returns)

-- The test `BucketSizeAlignment` ends without a failed check in each of the three schemes: the
-- element size of each of the 62 buckets is a multiple of 4.
pub bucket_size_alignment_passes :
    {W : Type 0} (w : W)
    → ((v : W) × Returns (bucket_size_alignment Linear.partition) w tt v)
      × ((v : W) × Returns (bucket_size_alignment Piecewise.partition) w tt v)
      × ((v : W) × Returns (bucket_size_alignment Scheme.partition) w tt v)
bucket_size_alignment_passes w = (
  passes Linear.partition w linear_aligned,
  passes Piecewise.partition w piecewise_aligned,
  passes Scheme.partition w float_aligned,
)
