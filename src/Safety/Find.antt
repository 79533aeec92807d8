-- ===== src/Safety/Find.antt =====
-- `FindBucket` by division, against the ranges of the buckets.
use native.Mathlib.Nat.{mul-add-div_right, div-eq_of_lt, le-div_iff_mul-le, mul_comm, add-zero}
use smmalloc.Prelude.{
  ℕ, suc, ◌+◌, ◌*◌, ◌/◌, ◌^◌, ◌≤◌, ◌<◌, ◌≡◌, refl, ◌⊎◌, some, arith, sub64, ne→==, ap,
}
use smmalloc.Allocator.{World, find_bucket}
use smmalloc.Safety.Layout.{IsSetUp}

module _ {H : Type 0} {w : World H} (up : IsSetUp w) where
  -- the address range of the buckets up to the `i`-th
  pub mul_mono :
      (i : ℕ)
      → i < w.buckets_count
      → suc i * w.bucket_size_in_bytes ≤ w.bucket_size_in_bytes * w.buckets_count
  mul_mono i h = grind arith

  quotient :
      (i o : ℕ)
      → o < w.bucket_size_in_bytes
      → (i * w.bucket_size_in_bytes + o) / w.bucket_size_in_bytes ≡ i
  quotient i o h = rw (mul-add-div_right up.size_pos i o, div-eq_of_lt h) (add-zero i)

  -- In an allocator that is set up, `FindBucket` of an address in the stretch of the `i`-th bucket
  -- is `i`.
  pub find_bucket-inside :
      (i o : ℕ)
      → i < w.buckets_count
      → o < w.bucket_size_in_bytes
      → find_bucket w (w.buffer + (i * w.bucket_size_in_bytes + o)) ≡ some i
  unfolding find_bucket
  find_bucket-inside i o lt h =
      let diff : sub64 (w.buffer + (i * w.bucket_size_in_bytes + o)) w.buffer
          ≡ i * w.bucket_size_in_bytes + o =
        omega (arith, mul_mono i lt, up) in
      rw (up.begin, diff, ne→== w.bucket_size_in_bytes 0 (omega (arith, up.size_pos)))
        (ap some (quotient i o h))

  -- In an allocator that is set up, `FindBucket` of a 64-bit address below the buffer or behind it
  -- is the index of no bucket.
  pub find_bucket-outside :
      (p : ℕ)
      → p < 2 ^ 64
      → (p < w.buffer) ⊎ (w.buffer + w.bucket_size_in_bytes * w.buckets_count ≤ p)
      → (i : ℕ) × (find_bucket w p ≡ some i) × (w.buckets_count ≤ i)
  unfolding find_bucket
  find_bucket-outside p fits out =
      let far : w.bucket_size_in_bytes * w.buckets_count ≤ sub64 p w.buffer = omega (arith, up) in
      (
        sub64 p w.buffer / w.bucket_size_in_bytes,
        rw (up.begin, ne→== w.bucket_size_in_bytes 0 (omega (arith, up.size_pos))) refl,
        (le-div_iff_mul-le up.size_pos).1
            (rw (mul_comm w.buckets_count w.bucket_size_in_bytes) far),
      )
