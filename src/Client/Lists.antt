-- ===== src/Client/Lists.antt =====
-- Stretches of addresses, and lists from which an entry is taken.
use mathlib.Core.Option.{some-injective}
use smmalloc.Prelude.{
  subst, ℕ, zero, suc, ◌+◌, ◌≤◌, ◌≡◌, refl, ap, ◌⊎◌, some, List, [], ◌∷◌, get_elem?, arith,
}

-- where it begins, and how many bytes it has
abbrev pub Extent : Type 0
Extent = ℕ × ℕ

abbrev pub remove_at {ℓ} : {A : Type ℓ} → ℕ → List A → List A
remove_at n [] = []
remove_at zero (x ∷ xs) = xs
remove_at (suc n) (x ∷ xs) = x ∷ remove_at n xs

abbrev pub map {ℓ κ} : {A : Type ℓ} {B : Type κ} → (A → B) → List A → List B
map f [] = []
map f (x ∷ xs) = f x ∷ map f xs

-- The stretch at `p` of `n` bytes overlaps none of the list.
abbrev pub Clear : ℕ → ℕ → List Extent → Type 0
Clear p n [] = Unit {0}
Clear p n ((q, m) ∷ xs) = ((p + n ≤ q) ⊎ (q + m ≤ p)) × Clear p n xs

-- No two stretches of the list overlap.
abbrev pub AllClear : List Extent → Type 0
AllClear [] = Unit {0}
AllClear ((p, n) ∷ xs) = Clear p n xs × AllClear xs

pub Clear-remove_at : (k p n : ℕ) (xs : List Extent) → Clear p n xs → Clear p n (remove_at k xs)
Clear-remove_at k p n [] c = tt
Clear-remove_at zero p n ((q, m) ∷ xs) c = c.1
Clear-remove_at (suc k) p n ((q, m) ∷ xs) c = (c.0, Clear-remove_at k p n xs c.1)

pub AllClear-remove_at : (k : ℕ) (xs : List Extent) → AllClear xs → AllClear (remove_at k xs)
AllClear-remove_at k [] c = tt
AllClear-remove_at zero ((q, m) ∷ xs) c = c.1
AllClear-remove_at (suc k) ((q, m) ∷ xs) c =
    (Clear-remove_at k q m xs c.0, AllClear-remove_at k xs c.1)

-- A stretch that is clear of the list is clear of each of its entries.
pub Clear-get_elem? :
    (k p n q m : ℕ) (xs : List Extent)
    → Clear p n xs
    → get_elem? xs k ≡ some (q, m)
    → (p + n ≤ q) ⊎ (q + m ≤ p)
Clear-get_elem? k p n q m [] c e = ground arith
Clear-get_elem? zero p n q m ((q', m') ∷ xs) c e = ground arith
Clear-get_elem? (suc k) p n q m ((q', m') ∷ xs) c e = Clear-get_elem? k p n q m xs c.1 e

module _ {ℓ κ} {A : Type ℓ} {B : Type κ} (f : A → B) where
  pub map-remove_at : (n : ℕ) (xs : List A) → map f (remove_at n xs) ≡ remove_at n (map f xs)
  map-remove_at n [] = refl
  map-remove_at zero (x ∷ xs) = refl
  map-remove_at (suc n) (x ∷ xs) = ap (λ ys. f x ∷ ys) (map-remove_at n xs)

  pub get_elem?-of_map :
      (n : ℕ) (xs : List A) (x : A) → get_elem? xs n ≡ some x → get_elem? (map f xs) n ≡ some (f x)
  get_elem?-of_map n [] x e = ground arith
  get_elem?-of_map zero (y ∷ xs) x e = rw (some-injective y x e) refl
  get_elem?-of_map (suc n) (y ∷ xs) x e = get_elem?-of_map n xs x e

  pub get_elem?-map :
      (n : ℕ) (xs : List A) (y : B)
      → get_elem? (map f xs) n ≡ some y
      → (x : A) × (get_elem? xs n ≡ some x) × (f x ≡ y)
  get_elem?-map n [] y e = ground arith
  get_elem?-map zero (x ∷ xs) y e = (x, refl, ground arith)
  get_elem?-map (suc n) (x ∷ xs) y e = get_elem?-map n xs y e

abbrev pub All {ℓ κ} : {A : Type ℓ} → (A → Type κ) → List A → Type κ
All P [] = Unit
All P (x ∷ xs) = P x × All P xs

module _ {ℓ κ} {A : Type ℓ} (P : A → Type κ) where
  pub All-get_elem? : (n : ℕ) (xs : List A) (x : A) → All P xs → get_elem? xs n ≡ some x → P x
  All-get_elem? n [] x all e = ground arith
  All-get_elem? zero (y ∷ xs) x all e = subst P (some-injective y x e) all.0
  All-get_elem? (suc n) (y ∷ xs) x all e = All-get_elem? n xs x all.1 e

  pub All-remove_at : (n : ℕ) (xs : List A) → All P xs → All P (remove_at n xs)
  All-remove_at n [] all = all
  All-remove_at zero (x ∷ xs) all = all.1
  All-remove_at (suc n) (x ∷ xs) all = (all.0, All-remove_at n xs all.1)

  pub All-of : (xs : List A) → ((n : ℕ) (x : A) → get_elem? xs n ≡ some x → P x) → All P xs
  All-of [] f = tt
  All-of (x ∷ xs) f = (f 0 x refl, All-of xs (λ n y e. f (suc n) y e))

-- An entry that is left was there.
pub get_elem?-remove_at {ℓ} :
    {A : Type ℓ} (n l : ℕ) (xs : List A) (x : A)
    → get_elem? (remove_at n xs) l ≡ some x
    → (j : ℕ) × (get_elem? xs j ≡ some x)
get_elem?-remove_at n l [] x e = ground arith
get_elem?-remove_at zero l (y ∷ xs) x e = (suc l, e)
get_elem?-remove_at (suc n) zero (y ∷ xs) x e = (0, e)
get_elem?-remove_at (suc n) (suc l) (y ∷ xs) x e =
    let (j, at) = get_elem?-remove_at n l xs x e in (suc j, at)
