-- ===== src/Client/Apart.antt =====
-- The regions that held blocks take up, the header of a block of `malloc` included, do not overlap.
use native.Mathlib.Decide.{ℕ_discrete}
use smmalloc.Prelude.{
  ℕ, ◌+◌, ◌-◌, ◌*◌, ◌^◌, ◌<◌, ◌≤◌, ◌≡◌, ◌≢◌, subst, sym, ◌⊎◌, List, [], ◌∷◌, count, arith,
}
use smmalloc.Memory.{load64}
use smmalloc.Pool.Blocks.{blocks, blocks-lt, blocks-apart, count-blocks-le}
use smmalloc.Sizes.{Partition}
use smmalloc.Allocator.{World}
use smmalloc.Safety.Sound.{
  IsSound, base_of, blocks_in, size_ge_16, blocks_fit, stretch_fits, stretches_apart,
}
use smmalloc.Client.Lists.{Extent, map, Clear, AllClear, All}
use smmalloc.Client.Ghost.{Entry, in_bucket, in_chunk, lent_of, taken}

-- outside the buffer
abbrev pub Away : {H : Type 0} → World H → ℕ → ℕ → Type 0
Away w p n = (p + n ≤ w.buffer) ⊎ (w.buffer + w.bucket_size_in_bytes * w.buckets_count ≤ p)

module _ {H : Type 0} (part : Partition) (w : World H) where
  -- The bytes asked for are within the block, and the header of a block of `malloc` names it.
  abbrev pub Fits : Entry → Type 0
  Fits (in_bucket i o a b) =
      (i < w.buckets_count) × (a ≡ base_of part w i + o) × (b ≤ part.size_by_index i)
  Fits (in_chunk p n a b) =
      (4096 < p)
      × (p + 16 ≤ a)
      × (a + b ≤ p + n)
      × (p + n < 2 ^ 64)
      × (load64 w.mem (a - 16) ≡ p)
      × Away w p n
      × (0 < b)
      × (load64 w.mem (a - 16 + 8) ≡ b)

abbrev pub region : Partition → Entry → Extent
region part (in_bucket i o a b) = (a, part.size_by_index i)
region part (in_chunk p n a b) = (p, n)

module _ {H : Type 0} (part : Partition) {w : World H} {free lent : ℕ → List ℕ}
    (sound : IsSound part w free lent) where
  abbrev blocks_of : ℕ → List ℕ
  blocks_of i = blocks (part.size_by_index i) 0 (blocks_in part w i)

  -- No block is lent twice, and only blocks are.
  abbrev pub Lends : List Entry → Type 0
  Lends es = (j z : ℕ) → j < w.buckets_count → count z (lent_of es j) ≤ count z (blocks_of j)

  pub Lends-tail : (x : Entry) (es : List Entry) → Lends (x ∷ es) → Lends es
  Lends-tail (in_bucket i o a b) es le j z lt = ground (arith, le j z lt)
  Lends-tail (in_chunk p n a b) es le j z lt = le j z lt

  -- A block of a bucket is in the bucket's stretch.
  pub inside :
      (i o : ℕ)
      → i < w.buckets_count
      → 0 < count o (blocks_of i)
      → o + part.size_by_index i ≤ w.bucket_size_in_bytes
  inside i o lt at = omega (
    arith,
    size_ge_16 part sound i lt,
    blocks_fit part sound i lt,
    blocks-lt (part.size_by_index i) (omega (arith, size_ge_16 part sound i lt))
        (blocks_in part w i) o at,
  )

  -- Two blocks of buckets, not both the same, do not overlap.
  pub two_blocks :
      (i o j v : ℕ)
      → i < w.buckets_count
      → j < w.buckets_count
      → 0 < count o (blocks_of i)
      → 0 < count v (blocks_of j)
      → ((i ≡ j) → o ≢ v)
      → (base_of part w i + o + part.size_by_index i ≤ base_of part w j + v)
        ⊎ (base_of part w j + v + part.size_by_index j ≤ base_of part w i + o)
  two_blocks i o j v lt_i lt_j at_i at_j ne = elim (ℕ_discrete i j) [
    | yes e ↦ same j e lt_j at_j (ne e)
    | no other ↦
        ground
          (arith, stretches_apart part sound i j other, inside i o lt_i at_i, inside j v lt_j at_j)
  ]
    where
      same :
          (j : ℕ)
          → i ≡ j
          → j < w.buckets_count
          → 0 < count v (blocks_of j)
          → o ≢ v
          → (base_of part w i + o + part.size_by_index i ≤ base_of part w j + v)
            ⊎ (base_of part w j + v + part.size_by_index j ≤ base_of part w i + o)
      same j e lt at other =
          let apart =
            blocks-apart (part.size_by_index i) (omega (arith, size_ge_16 part sound i lt_i))
              (blocks_in part w i) 0 o v at_i (subst (λ z. 0 < count v (blocks_of z)) (sym e) at)
              other in
          subst
            (λ z.
              (base_of part w i + o + part.size_by_index i ≤ base_of part w z + v)
              ⊎ (base_of part w z + v + part.size_by_index z ≤ base_of part w i + o))
            e (ground (arith, apart))

  pub lent_at :
      (j v c d : ℕ) (es : List Entry)
      → j < w.buckets_count
      → Lends (in_bucket j v c d ∷ es)
      → 0 < count v (blocks_of j)
  lent_at j v c d es lt le = ground (arith, le j v lt)

  block-Clear :
      (i o : ℕ) (es : List Entry)
      → i < w.buckets_count
      → 0 < count o (blocks_of i)
      → count o (lent_of es i) ≡ 0
      → Lends es
      → All (Fits part w) es
      → Clear (base_of part w i + o) (part.size_by_index i) (map (region part) es)
  block-Clear i o [] lt at fresh le fits = tt
  block-Clear i o (in_bucket j v c d ∷ es) lt at fresh le fits = (
    rw (fits.0.1) (
        two_blocks i o j v lt fits.0.0 at (lent_at j v c d es fits.0.0 le)
          (λ e eq. ground (arith, fresh))),
    block-Clear i o es lt at (ground (arith, fresh)) (Lends-tail (in_bucket j v c d) es le) fits.1,
  )
  block-Clear i o (in_chunk p n c d ∷ es) lt at fresh le fits = (
    ground (arith, fits, inside i o lt at, stretch_fits part sound i lt),
    block-Clear i o es lt at fresh (Lends-tail (in_chunk p n c d) es le) fits.1,
  )

  pub chunk-Clear :
      (p n : ℕ) (others : List Extent) (es : List Entry)
      → Away w p n
      → Clear p n (taken others es)
      → Lends es
      → All (Fits part w) es
      → Clear p n (map (region part) es)
  chunk-Clear p n others [] away clear le fits = tt
  chunk-Clear p n others (in_bucket j v c d ∷ es) away clear le fits = (
    ground (
      arith,
      fits.0,
      inside j v fits.0.0 (lent_at j v c d es fits.0.0 le),
      stretch_fits part sound j fits.0.0,
    ),
    chunk-Clear p n others es away clear (Lends-tail (in_bucket j v c d) es le) fits.1,
  )
  chunk-Clear p n others (in_chunk q m c d ∷ es) away clear le fits =
      (clear.0, chunk-Clear p n others es away clear.1 (Lends-tail (in_chunk q m c d) es le) fits.1)

  -- The regions of the held blocks do not overlap.
  pub regions-AllClear :
      (others : List Extent) (es : List Entry)
      → AllClear (taken others es)
      → Lends es
      → All (Fits part w) es
      → AllClear (map (region part) es)
  regions-AllClear others [] clear le fits = tt
  regions-AllClear others (in_bucket i o a b ∷ es) clear le fits =
      let tail = Lends-tail (in_bucket i o a b) es le in
      (
        rw (fits.0.1) (
            block-Clear i o es fits.0.0 (lent_at i o a b es fits.0.0 le)
              (once i o a b es fits.0.0 le) tail fits.1),
        regions-AllClear others es clear tail fits.1,
      )
    where
      once :
          (i o a b : ℕ) (es : List Entry)
          → i < w.buckets_count
          → Lends (in_bucket i o a b ∷ es)
          → count o (lent_of es i) ≡ 0
      once i o a b es lt le = ground (
        arith,
        le i o lt,
        count-blocks-le (part.size_by_index i) (omega (arith, size_ge_16 part sound i lt))
            (blocks_in part w i) 0 o,
      )
  regions-AllClear others (in_chunk p n a b ∷ es) clear le fits =
      let tail = Lends-tail (in_chunk p n a b) es le in
      (
        chunk-Clear p n others es fits.0.5 clear.0 tail fits.1,
        regions-AllClear others es clear.1 tail fits.1,
      )
