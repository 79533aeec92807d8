-- ===== src/Memory.antt =====
-- Memory as bytes by address, with the little-endian words that the code reads and writes through
-- `TaggedIndex*`, `CacheWarmupLink*` and `Header*`, and `memmove`.
use std.Path.{fun_ext}
use native.Mathlib.Nat.{pow-suc}
use native.Mathlib.Decide.{ℕ_discrete}
use smmalloc.Prelude.{
  ℕ, zero, suc, ◌+◌, ◌-◌, ◌*◌, ◌/◌, ◌%◌, ◌^◌, ◌≤◌, ◌<◌, ◌≡◌, refl, ◌⊎◌, ◌&&◌, arith, ltb, leb, ◌==◌,
  if◌then◌else◌, ◌≢◌, eq→==, ne→==, le→leb, lt→ltb, subst,
}

abbrev pub Mem : Type 0
Mem = ℕ → ℕ

abbrev pub update {ℓ} : {A : Type ℓ} → (ℕ → A) → ℕ → A → ℕ → A
update f i a j = if i == j then a else f j

pub update_self {ℓ} : {A : Type ℓ} (f : ℕ → A) (i : ℕ) (a : A) → update f i a i ≡ a
update_self f i a = rw (eq→== i i refl)

pub update_same {ℓ} : {A : Type ℓ} (f : ℕ → A) (i : ℕ) → update f i (f i) ≡ f
update_same f i = fun_ext λ j. elim (ℕ_discrete i j) [
  | yes e ↦ subst (λ z. update f i (f i) z ≡ f z) e (update_self f i (f i))
  | no ne ↦ rw (ne→== i j ne) refl
]

pub update_ne {ℓ} : {A : Type ℓ} (f : ℕ → A) (i : ℕ) (a : A) (j : ℕ) → i ≢ j → update f i a j ≡ f j
update_ne f i a j ne = rw (ne→== i j ne)

pub load_bytes : ℕ → Mem → ℕ → ℕ
load_bytes zero m a = 0
load_bytes (suc n) m a = m a + 256 * load_bytes n m (a + 1)

pub store_bytes : ℕ → Mem → ℕ → ℕ → Mem
store_bytes zero m a v = m
store_bytes (suc n) m a v = store_bytes n (update m a (v % 256)) (a + 1) (v / 256)

unfoldable pub load64 : Mem → ℕ → ℕ
unfolding load_bytes
load64 m a = load_bytes 8 m a

unfoldable pub store64 : Mem → ℕ → ℕ → Mem
unfolding store_bytes
store64 m a v = store_bytes 8 m a v

-- `std::memmove(to, from, n)`: all bytes are read before any is written
pub memmove : Mem → ℕ → ℕ → ℕ → Mem
memmove m to from n b = if leb to b && ltb b (to + n) then m (from + (b - to)) else m b

store_bytes-out :
    (n : ℕ) (m : Mem) (a v b : ℕ) → (b < a) ⊎ (a + n ≤ b) → store_bytes n m a v b ≡ m b
unfolding store_bytes
store_bytes-out zero m a v b h = refl
store_bytes-out (suc n) m a v b h =
    ground (arith, store_bytes-out n (update m a (v % 256)) (a + 1) (v / 256) b)

load_bytes-cong :
    (n : ℕ) (m m' : Mem) (a : ℕ)
    → ((b : ℕ) → a ≤ b → b < a + n → m' b ≡ m b)
    → load_bytes n m' a ≡ load_bytes n m a
unfolding load_bytes
load_bytes-cong zero m m' a same = refl
load_bytes-cong (suc n) m m' a same = ground (
  arith,
  same a (omega arith) (omega arith),
  load_bytes-cong n m m' (a + 1) (λ b le lt. same b (omega arith) (omega arith)),
)

load_bytes-store_bytes :
    (n : ℕ) (m : Mem) (a v : ℕ) → v < 256 ^ n → load_bytes n (store_bytes n m a v) a ≡ v
unfolding load_bytes store_bytes
load_bytes-store_bytes zero m a v h = omega arith
load_bytes-store_bytes (suc n) m a v h = ground (
  arith,
  pow-suc 256 n,
  store_bytes-out n (update m a (v % 256)) (a + 1) (v / 256) a,
  load_bytes-store_bytes n (update m a (v % 256)) (a + 1) (v / 256) (omega (arith, pow-suc 256 n)),
)

-- A word that is stored is read back.
pub load64-store64 : (m : Mem) (a v : ℕ) → v < 2 ^ 64 → load64 (store64 m a v) a ≡ v
unfolding load64 store64
load64-store64 m a v h = load_bytes-store_bytes 8 m a v h

-- A store leaves the other bytes alone.
pub store64-out : (m : Mem) (a v b : ℕ) → (b < a) ⊎ (a + 8 ≤ b) → store64 m a v b ≡ m b
unfolding store64
store64-out m a v b h = store_bytes-out 8 m a v b h

-- A word is determined by its eight bytes.
pub load64-cong :
    (m m' : Mem) (a : ℕ) → ((b : ℕ) → a ≤ b → b < a + 8 → m' b ≡ m b) → load64 m' a ≡ load64 m a
unfolding load64
load64-cong m m' a same = load_bytes-cong 8 m m' a same

-- A store leaves the words that do not overlap it alone.
pub load64-store64_apart :
    (m : Mem) (a v b : ℕ) → (b + 8 ≤ a) ⊎ (a + 8 ≤ b) → load64 (store64 m a v) b ≡ load64 m b
load64-store64_apart m a v b h =
    load64-cong m (store64 m a v) b (λ c le lt. store64-out m a v c (ground arith))

-- `memmove` copies, and writes nowhere else.
pub memmove-copy : (m : Mem) (to from n i : ℕ) → i < n → memmove m to from n (to + i) ≡ m (from + i)
unfolding memmove
memmove-copy m to from n i h =
    let back : to + i - to ≡ i = omega arith in
    rw (le→leb to (to + i) (omega arith), lt→ltb (to + i) (to + n) (omega arith), back) refl

pub memmove-out :
    (m : Mem) (to from n b : ℕ) → (b < to) ⊎ (to + n ≤ b) → memmove m to from n b ≡ m b
unfolding memmove
memmove-out m to from n b out = ground arith

-- `memset(to, value, n)`
abbrev pub memset : Mem → ℕ → ℕ → ℕ → Mem
memset m to value n b = if leb to b && ltb b (to + n) then value % 256 else m b
