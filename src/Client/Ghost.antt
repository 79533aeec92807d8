-- ===== src/Client/Ghost.antt =====
-- Where the blocks that a program holds stand: in a bucket, or in a block of `malloc`.
use native.Mathlib.Decide.{ℕ_discrete}
use mathlib.Core.Option.{some-injective}
use smmalloc.Prelude.{
  eq→==, ne→==, subst, ℕ, zero, suc, ◌+◌, ◌<◌, ◌≡◌, ◌≢◌, refl, ap, some, List, [], ◌∷◌, get_elem?,
  count, arith, ◌==◌, if◌then◌else◌,
}
use smmalloc.Memory.{update}
use smmalloc.Client.Lists.{Extent, remove_at}

-- A held block: one of bucket `index`, or one at `address` in the block at `p` of `n` bytes that
-- `malloc` returned; with the bytes asked for.
pub data Entry : Type 0 where
  in_bucket : (index offset address bytes : ℕ) → Entry
  in_chunk : (p n address bytes : ℕ) → Entry

abbrev pub extent : Entry → Extent
extent (in_bucket i o a b) = (a, b)
extent (in_chunk p n a b) = (a, b)

-- the offsets of the blocks that bucket `j` lent
abbrev pub lent_of : List Entry → ℕ → List ℕ
lent_of [] j = []
lent_of (in_bucket i o a b ∷ es) j = if i == j then o ∷ lent_of es j else lent_of es j
lent_of (in_chunk p n a b ∷ es) j = lent_of es j

-- the blocks of `malloc`, those of `others` included
abbrev pub taken : List Extent → List Entry → List Extent
taken others [] = others
taken others (in_bucket i o a b ∷ es) = taken others es
taken others (in_chunk p n a b ∷ es) = (p, n) ∷ taken others es

-- One more block is lent.
pub lent_of-update :
    (i o a b : ℕ) (es : List Entry) (j : ℕ)
    → update (lent_of es) i (o ∷ lent_of es i) j ≡ lent_of (in_bucket i o a b ∷ es) j
lent_of-update i o a b es j = elim (ℕ_discrete i j) [
  | yes e ↦
      subst (λ v. update (lent_of es) i (o ∷ lent_of es i) v ≡ lent_of (in_bucket i o a b ∷ es) v) e
        (rw (eq→== i i refl) refl)
  | no ne ↦ rw (ne→== i j ne) refl
]

-- what is still lent when the `k`-th is back
pub lent_of-remove_at :
    (k : ℕ) (es : List Entry) (i o a b z : ℕ)
    → get_elem? es k ≡ some (in_bucket i o a b)
    → count z (lent_of es i) ≡ count z (o ∷ lent_of (remove_at k es) i)
lent_of-remove_at k [] i o a b z e = ground arith
lent_of-remove_at zero (x ∷ es) i o a b z e = rw (some-injective _ _ e, eq→== i i refl) refl
lent_of-remove_at (suc k) (in_bucket j v c d ∷ es) i o a b z e =
    ground (arith, lent_of-remove_at k es i o a b z e)
lent_of-remove_at (suc k) (in_chunk p n c d ∷ es) i o a b z e = lent_of-remove_at k es i o a b z e

pub lent_of-remove_at_other :
    (k : ℕ) (es : List Entry) (i o a b j z : ℕ)
    → get_elem? es k ≡ some (in_bucket i o a b)
    → i ≢ j
    → count z (lent_of es j) ≡ count z (lent_of (remove_at k es) j)
lent_of-remove_at_other k [] i o a b j z e ne = refl
lent_of-remove_at_other zero (x ∷ es) i o a b j z e ne =
    rw (some-injective _ _ e, ne→== i j ne) refl
lent_of-remove_at_other (suc k) (in_bucket u v c d ∷ es) i o a b j z e ne =
    ground (arith, lent_of-remove_at_other k es i o a b j z e ne)
lent_of-remove_at_other (suc k) (in_chunk p n c d ∷ es) i o a b j z e ne =
    lent_of-remove_at_other k es i o a b j z e ne

pub lent_of-remove_at_chunk :
    (k : ℕ) (es : List Entry) (p n a b j : ℕ)
    → get_elem? es k ≡ some (in_chunk p n a b)
    → lent_of es j ≡ lent_of (remove_at k es) j
lent_of-remove_at_chunk k [] p n a b j e = refl
lent_of-remove_at_chunk zero (x ∷ es) p n a b j e = rw (some-injective _ _ e) refl
lent_of-remove_at_chunk (suc k) (in_bucket u v c d ∷ es) p n a b j e =
    ap (λ vs. if u == j then v ∷ vs else vs) (lent_of-remove_at_chunk k es p n a b j e)
lent_of-remove_at_chunk (suc k) (in_chunk q m c d ∷ es) p n a b j e =
    lent_of-remove_at_chunk k es p n a b j e

-- A held block of a bucket is lent.
pub lent_of-get_elem? :
    (k : ℕ) (es : List Entry) (i o a b : ℕ)
    → get_elem? es k ≡ some (in_bucket i o a b)
    → 0 < count o (lent_of es i)
lent_of-get_elem? k es i o a b e = omega (arith, lent_of-remove_at k es i o a b o e, own)
  where
    own : count o (o ∷ lent_of (remove_at k es) i) ≡ 1 + count o (lent_of (remove_at k es) i)
    own = rw (eq→== o o refl) refl

module _ (others : List Extent) where
  pub taken-remove_at_bucket :
      (k : ℕ) (es : List Entry) (i o a b : ℕ)
      → get_elem? es k ≡ some (in_bucket i o a b)
      → taken others (remove_at k es) ≡ taken others es
  taken-remove_at_bucket k [] i o a b e = refl
  taken-remove_at_bucket zero (x ∷ es) i o a b e = rw (some-injective _ _ e) refl
  taken-remove_at_bucket (suc k) (in_bucket u v c d ∷ es) i o a b e =
      taken-remove_at_bucket k es i o a b e
  taken-remove_at_bucket (suc k) (in_chunk q m c d ∷ es) i o a b e =
      ap (λ xs. (q, m) ∷ xs) (taken-remove_at_bucket k es i o a b e)

  pub taken-remove_at_chunk :
      (k : ℕ) (es : List Entry) (p n a b : ℕ)
      → get_elem? es k ≡ some (in_chunk p n a b)
      → (l : ℕ) × (get_elem? (taken others es) l ≡ some (p, n))
        × (taken others (remove_at k es) ≡ remove_at l (taken others es))
  taken-remove_at_chunk k [] p n a b e = ground arith
  taken-remove_at_chunk zero (x ∷ es) p n a b e = rw (some-injective _ _ e) (0, refl, refl)
  taken-remove_at_chunk (suc k) (in_bucket u v c d ∷ es) p n a b e =
      taken-remove_at_chunk k es p n a b e
  taken-remove_at_chunk (suc k) (in_chunk q m c d ∷ es) p n a b e =
      let (l, at, eq) = taken-remove_at_chunk k es p n a b e in
      (suc l, at, ap (λ xs. (q, m) ∷ xs) eq)
