-- ===== src/Pool/Blocks.antt =====
-- The blocks of a bucket, as offsets: which they are, how many fit, and that they do not overlap.
use native.Mathlib.Decide.{ℕ_discrete}
use native.Mathlib.Nat.{lt-div-mul-add, div-mul-le_self}
use smmalloc.Prelude.{
  ℕ, zero, suc, ◌+◌, ◌-◌, ◌*◌, ◌/◌, ◌≤◌, ◌<◌, ◌≡◌, ◌≢◌, ◌⊎◌, inl, inr, List, [], ◌∷◌, arith, ltb,
  if◌then◌else◌, count, refl, Bool-cases, ltb→lt, ltb→le, le→ltb,
}
use smmalloc.Pool.Chain.{ApartFrom, AllApart}

-- `n` blocks of `size` bytes from offset `o` on
unfoldable pub blocks : ℕ → ℕ → ℕ → List ℕ
blocks size o zero = []
blocks size o (suc n) = o ∷ blocks size (o + size) n

-- How many blocks `Create` makes in `cap` bytes: it makes the first one without a test.
unfoldable pub block_count : ℕ → ℕ → ℕ
block_count size cap = if ltb cap size then 1 else cap / size

-- Behind the first block of `r` bytes there is room for just `n` more.
abbrev pub Room : ℕ → ℕ → ℕ → Type 0
Room size r zero = r < size + size
Room size r (suc n) = (size + size ≤ r) × Room size (r - size) n

pub Room-le : (size : ℕ) → 8 ≤ size → (n r : ℕ) → Room size r n → n ≤ r
Room-le size big zero r room = omega arith
Room-le size big (suc n) r room = omega (arith, Room-le size big n (r - size) room.1)

Room-of_bounds :
    (size n r : ℕ) → (n ≡ 0) ⊎ (suc n * size ≤ r) → r < suc (suc n) * size → Room size r n
Room-of_bounds size zero r lo hi = omega arith
Room-of_bounds size (suc n) r lo hi =
    (ground arith, Room-of_bounds size n (r - size) (inr (ground arith)) (ground arith))

-- An element fits: the blocks are as many as the bytes give.
pub block_count_lem : (size cap : ℕ) → size ≤ cap → block_count size cap ≡ cap / size
unfolding block_count
block_count_lem size cap le = rw (le→ltb cap size le) refl

pub Room-block_count :
    (size cap : ℕ) → 8 ≤ size → (n : ℕ) × (block_count size cap ≡ suc n) × Room size cap n
unfolding block_count
Room-block_count size cap big = elim (Bool-cases (ltb cap size)) [
  | inl less ↦ (0, rw less, omega (arith, ltb→lt cap size less))
  | inr more ↦ (
    cap / size - 1,
    rw more (quotient_pos (ltb→le cap size more)),
    Room-of_bounds size (cap / size - 1) cap
        (inr (rw (← quotient_pos (ltb→le cap size more)) (div-mul-le_self cap size)))
        (rw (← quotient_pos (ltb→le cap size more))
          (below (cap / size) (lt-div-mul-add (omega arith)))),
  )
]
  where
    quotient_pos : size ≤ cap → cap / size ≡ suc (cap / size - 1)
    quotient_pos le = grind (arith, lt-div-mul-add)

    below : (q : ℕ) → cap < q * size + size → cap < suc q * size
    below q h = omega arith

module _ (size : ℕ) (big : 8 ≤ size) where
  -- A block from `o` on stands at `o`, or a block further on.
  mem-blocks :
      (n o a : ℕ)
      → 0 < count a (blocks size o n)
      → ((a ≡ o) ⊎ (o + size ≤ a)) × (a + size ≤ o + n * size)
  unfolding blocks
  mem-blocks zero o a h = absurd (omega arith)
  mem-blocks (suc n) o a h = ground (arith, mem-blocks n (o + size) a)

  count-blocks-below : (n o a : ℕ) → a < o → count a (blocks size o n) ≡ 0
  unfolding blocks
  count-blocks-below zero o a h = refl
  count-blocks-below (suc n) o a h = ground (arith, count-blocks-below n (o + size) a)

  pub count-blocks-le : (n o a : ℕ) → count a (blocks size o n) ≤ 1
  unfolding blocks
  count-blocks-le zero o a = omega arith
  count-blocks-le (suc n) o a =
      ground (arith, count-blocks-le n (o + size) a, count-blocks-below n (o + size) a)

  -- Two blocks do not overlap.
  pub blocks-apart :
      (n o a b : ℕ)
      → 0 < count a (blocks size o n)
      → 0 < count b (blocks size o n)
      → a ≢ b
      → (a + size ≤ b) ⊎ (b + size ≤ a)
  unfolding blocks
  blocks-apart zero o a b ha hb ne = absurd (omega arith)
  blocks-apart (suc n) o a b ha hb ne =
      ground
        (arith, blocks-apart n (o + size) a b, mem-blocks n (o + size) a, mem-blocks n (o + size) b)

  pub blocks-lt : (n a : ℕ) → 0 < count a (blocks size 0 n) → a + size ≤ n * size
  blocks-lt n a h = omega (arith, mem-blocks n 0 a h)

  pub ApartFrom-of :
      (n z : ℕ) (xs : List ℕ)
      → 0 < count z (blocks size 0 n)
      → ((a : ℕ) → 0 < count a xs → (a ≢ z) × (0 < count a (blocks size 0 n)))
      → ApartFrom z xs
  ApartFrom-of n z [] h all = tt
  ApartFrom-of n z (x ∷ xs) h all = (
    ground (arith, all x, blocks-apart n 0 z x),
    ApartFrom-of n z xs h (λ a m. all a (ground arith)),
  )

  -- Blocks that stand in a list at most as often as in the bucket do not overlap.
  pub AllApart-of_count :
      (n : ℕ) (xs : List ℕ) → ((a : ℕ) → count a xs ≤ count a (blocks size 0 n)) → AllApart xs
  AllApart-of_count n [] le = tt
  AllApart-of_count n (x ∷ xs) le = (
    ApartFrom-of n x xs (ground (arith, le x))
        (λ a m. (ground (arith, le a, count-blocks-le n 0 a), ground (arith, le a))),
    AllApart-of_count n xs (λ a. ground (arith, le a)),
  )

  -- A block stands at a multiple of the size behind the first.
  pub blocks-multiple : (n o a : ℕ) → 0 < count a (blocks size o n) → (q : ℕ) × (a ≡ o + q * size)
  unfolding blocks
  blocks-multiple zero o a h = absurd (omega arith)
  blocks-multiple (suc n) o a h = elim (ℕ_discrete o a) [
    | yes e ↦ (0, omega (arith, e))
    | no ne ↦
        let (q, e) = blocks-multiple n (o + size) a (ground (arith, ne)) in
        (suc q, omega (arith, e))
  ]
