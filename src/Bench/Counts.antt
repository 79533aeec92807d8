-- ===== src/Bench/Counts.antt =====
-- How the pointers that are lent stand in the array of the benchmark.
use smmalloc.Prelude.{
  ℕ, zero, suc, ◌<◌, ◌≡◌, refl, ap, List, [], ◌∷◌, some, count, get_elem?, set, drop, take, length,
  arith, take-suc, take-set, count-append, get_elem?-set_self,
}
use mathlib.Core.Option.{some-injective}
use smmalloc.Client.Lists.{remove_at}

-- An array whose `i`-th entry is replaced.
pub count-set :
    (xs : List ℕ) (i p z : ℕ) → i < length xs → count z (p ∷ remove_at i xs) ≡ count z (set xs i p)
count-set [] i p z lt = absurd (omega arith)
count-set (x ∷ xs) zero p z lt = refl
count-set (x ∷ xs) (suc i) p z lt =
    let tail = count-set xs i p z (omega arith) in omega (arith, tail)

-- One entry more is in use.
pub count-take-set :
    (xs : List ℕ) (i p z : ℕ)
    → i < length xs
    → count z (p ∷ take i xs) ≡ count z (take (suc i) (set xs i p))
count-take-set xs i p z lt =
    rw (take-suc i (set xs i p) p (get_elem?-set_self xs i p lt), take-set i xs p)
      (omega (arith, count-append z (take i xs) (p ∷ [])))

-- An entry and the rest hold what the array holds.
pub count-remove_at :
    (k p z : ℕ) (xs : List ℕ) → get_elem? xs k ≡ some p → count z xs ≡ count z (p ∷ remove_at k xs)
count-remove_at k p z [] e = ground arith
count-remove_at zero p z (x ∷ xs) e = rw (some-injective x p e) refl
count-remove_at (suc k) p z (x ∷ xs) e =
    let tail = count-remove_at k p z xs e in omega (arith, tail)

pub length-remove_at {ℓ} :
    {A : Type ℓ} (k : ℕ) (p : A) (xs : List A)
    → get_elem? xs k ≡ some p
    → length xs ≡ suc (length (remove_at k xs))
length-remove_at k p [] e = ground arith
length-remove_at zero p (x ∷ xs) e = refl
length-remove_at (suc k) p (x ∷ xs) e = ap suc (length-remove_at k p xs e)

pub drop-get_elem? :
    (xs : List ℕ) (i p : ℕ) → get_elem? xs i ≡ some p → drop i xs ≡ p ∷ drop (suc i) xs
drop-get_elem? [] i p e = ground arith
drop-get_elem? (x ∷ xs) zero p e = ap (λ v. v ∷ xs) (some-injective x p e)
drop-get_elem? (x ∷ xs) (suc i) p e = drop-get_elem? xs i p e

pub take-all : (xs : List ℕ) (n : ℕ) → length xs ≡ n → take n xs ≡ xs
take-all [] zero e = refl
take-all [] (suc n) e = refl
take-all (x ∷ xs) zero e = absurd (omega (arith, e))
take-all (x ∷ xs) (suc n) e = ap (λ ys. x ∷ ys) (take-all xs n (omega (arith, e)))

pub drop-all : (xs : List ℕ) (n : ℕ) → length xs ≡ n → drop n xs ≡ []
drop-all [] zero e = refl
drop-all [] (suc n) e = refl
drop-all (x ∷ xs) zero e = absurd (omega (arith, e))
drop-all (x ∷ xs) (suc n) e = drop-all xs n (omega (arith, e))
