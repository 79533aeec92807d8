-- ===== src/Pool/Chain.antt =====
-- The list of free blocks that a head word stands for.
use smmalloc.Prelude.{ℕ, ◌+◌, ◌^◌, ◌≤◌, ◌<◌, ◌≡◌, ◌⊎◌, List, [], ◌∷◌, ◌++◌, arith}
use smmalloc.Memory.{Mem, load64, store64, load64-store64, load64-store64_apart}
use smmalloc.Pool.Tagged.{offset_of, invalid}

-- From the word `u` the links lead through the blocks at the offsets `xs` to the end of the list.
abbrev pub Chain : Mem → ℕ → ℕ → List ℕ → Type 0
Chain m base u [] = u ≡ invalid
Chain m base u (o ∷ xs) = (u < invalid) × (offset_of u ≡ o) × Chain m base (load64 m (base + o)) xs

-- From the block at `o` the links lead on through `ys`, wherever the last of them points.
abbrev pub Links : Mem → ℕ → ℕ → List ℕ → Type 0
Links m base o [] = Unit {0}
Links m base o (y ∷ ys) =
    (load64 m (base + o) < invalid) × (offset_of (load64 m (base + o)) ≡ y) × Links m base y ys

-- the last block of such a sequence
abbrev pub last : ℕ → List ℕ → ℕ
last o [] = o
last o (y ∷ ys) = last y ys

-- The words at two offsets do not overlap.
abbrev pub Apart : ℕ → ℕ → Type 0
Apart o p = (o + 8 ≤ p) ⊎ (p + 8 ≤ o)

abbrev pub ApartFrom : ℕ → List ℕ → Type 0
ApartFrom o [] = Unit {0}
ApartFrom o (x ∷ xs) = Apart o x × ApartFrom o xs

abbrev pub AllApart : List ℕ → Type 0
AllApart [] = Unit {0}
AllApart (x ∷ xs) = ApartFrom x xs × AllApart xs

-- The words of the blocks in `xs` are the same in both memories.
abbrev pub SameWords : Mem → Mem → ℕ → List ℕ → Type 0
SameWords m m' base [] = Unit {0}
SameWords m m' base (x ∷ xs) = (load64 m' (base + x) ≡ load64 m (base + x)) × SameWords m m' base xs

pub Chain-cong :
    (m m' : Mem) (base u : ℕ) (xs : List ℕ)
    → SameWords m m' base xs
    → Chain m base u xs
    → Chain m' base u xs
Chain-cong m m' base u [] same c = c
Chain-cong m m' base u (x ∷ xs) same c =
    (c.0, c.1, rw (same.0) (Chain-cong m m' base (load64 m (base + x)) xs same.1 c.2))

pub SameWords-store64 :
    (m : Mem) (base o v : ℕ) (xs : List ℕ)
    → ApartFrom o xs
    → SameWords m (store64 m (base + o) v) base xs
SameWords-store64 m base o v [] apart = tt
SameWords-store64 m base o v (x ∷ xs) apart = (
  load64-store64_apart m (base + o) v (base + x) (ground arith),
  SameWords-store64 m base o v xs apart.1,
)

-- A sequence of linked blocks, put in front of a list.
pub Chain-append :
    (m : Mem) (base u o : ℕ) (ys xs : List ℕ)
    → u < invalid
    → offset_of u ≡ o
    → Links m base o ys
    → Chain m base (load64 m (base + last o ys)) xs
    → Chain m base u (o ∷ ys ++ xs)
Chain-append m base u o [] xs lt at links c = (lt, at, c)
Chain-append m base u o (y ∷ ys) xs lt at links c =
    (lt, at, Chain-append m base (load64 m (base + o)) y ys xs links.0 links.1 links.2 c)

last-ApartFrom : (o : ℕ) (ys xs : List ℕ) → AllApart (o ∷ ys ++ xs) → ApartFrom (last o ys) xs
last-ApartFrom o [] xs apart = apart.0
last-ApartFrom o (y ∷ ys) xs apart = last-ApartFrom y ys xs apart.1

Apart-last : (p o : ℕ) (ys xs : List ℕ) → ApartFrom p (o ∷ ys ++ xs) → Apart p (last o ys)
Apart-last p o [] xs apart = apart.0
Apart-last p o (y ∷ ys) xs apart = Apart-last p y ys xs apart.1

Links-store64 :
    (m : Mem) (base o v : ℕ) (ys xs : List ℕ)
    → AllApart (o ∷ ys ++ xs)
    → Links m base o ys
    → Links (store64 m (base + last o ys) v) base o ys
Links-store64 m base o v [] xs apart links = tt
Links-store64 m base o v (y ∷ ys) xs apart links =
    let same : load64 (store64 m (base + last y ys) v) (base + o) ≡ load64 m (base + o) =
      load64-store64_apart m (base + last y ys) v (base + o)
        (ground (arith, Apart-last o y ys xs apart.0)) in
    (rw same links.0, rw same links.1, Links-store64 m base y v ys xs apart.1 links.2)

-- Linking the last of a sequence of blocks to the head of a list joins the two.
pub Chain-join :
    (m : Mem) (base u v o : ℕ) (ys xs : List ℕ)
    → AllApart (o ∷ ys ++ xs)
    → u < invalid
    → offset_of u ≡ o
    → v < 2 ^ 64
    → Links m base o ys
    → Chain m base v xs
    → Chain (store64 m (base + last o ys) v) base u (o ∷ ys ++ xs)
Chain-join m base u v o ys xs apart lt at fits links c =
    let m' : Mem = store64 m (base + last o ys) v in
    let c' : Chain m' base v xs =
      Chain-cong m m' base v xs
        (SameWords-store64 m base (last o ys) v xs (last-ApartFrom o ys xs apart)) c in
    Chain-append m' base u o ys xs lt at (Links-store64 m base o v ys xs apart links)
      (rw (load64-store64 m (base + last o ys) v fits) c')

pub Chain-lt : (m : Mem) (base u : ℕ) (xs : List ℕ) → Chain m base u xs → u < 2 ^ 64
Chain-lt m base u [] c = omega arith
Chain-lt m base u (x ∷ xs) c = omega arith
