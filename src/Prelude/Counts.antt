-- ===== src/Prelude/Counts.antt =====
-- Lists that hold the same numbers equally often.
use Prim.Native.Nat.{ℕ, suc, ◌+◌, ◌<◌, ◌≤◌}
use mathlib.Core.Path.{◌≡◌, refl, sym, ◌∙◌}
use mathlib.Core.List.{List, [], ◌∷◌, ◌++◌}
use native.Mathlib.Omega.{arith}
use smmalloc.Prelude.Tests.{◌==◌, if◌then◌else◌}
use smmalloc.Prelude.Lists.{count, count-append, length, length-append}

abbrev erase : ℕ → List ℕ → List ℕ
erase z [] = []
erase z (x ∷ xs) = if x == z then xs else x ∷ erase z xs

count-erase : (z a : ℕ) (xs : List ℕ) → 0 < count z xs → count a xs ≡ count a (z ∷ erase z xs)
count-erase z a [] h = absurd (omega arith)
count-erase z a (x ∷ xs) h = ground (arith, count-erase z a xs)

length-erase : (z : ℕ) (xs : List ℕ) → 0 < count z xs → length xs ≡ suc (length (erase z xs))
length-erase z [] h = absurd (omega arith)
length-erase z (x ∷ xs) h = ground (arith, length-erase z xs)

length-cong : (xs ys : List ℕ) → ((z : ℕ) → count z xs ≡ count z ys) → length xs ≡ length ys
length-cong [] [] same = refl
length-cong [] (y ∷ ys) same = absurd (ground (arith, same y))
length-cong (x ∷ xs) ys same =
    let there : 0 < count x ys = ground (arith, same x) in
    let rest = length-cong xs (erase x ys) (λ z. omega (arith, same z, count-erase x z ys there)) in
    omega (arith, rest, length-erase x ys there)

-- If each number stands in two lists together as often as in a third, so do their lengths add up.
pub length-of_counts :
    (xs ys zs : List ℕ)
    → ((z : ℕ) → count z xs + count z ys ≡ count z zs)
    → length xs + length ys ≡ length zs
length-of_counts xs ys zs same =
    sym (length-append xs ys) ∙ length-cong (xs ++ ys) zs (λ z. count-append z xs ys ∙ same z)

pub length-le_of_counts :
    (xs zs : List ℕ) → ((z : ℕ) → count z xs ≤ count z zs) → length xs ≤ length zs
length-le_of_counts [] zs le = omega arith
length-le_of_counts (x ∷ xs) zs le =
    let there : 0 < count x zs = ground (arith, le x) in
    let rest =
      length-le_of_counts xs (erase x zs) (λ z. omega (arith, le z, count-erase x z zs there)) in
    omega (arith, rest, length-erase x zs there)
