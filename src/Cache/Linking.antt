-- ===== src/Cache/Linking.antt =====
-- The loop of `ReturnL1CacheToMaster` links the blocks of a stretch of the L1 stack to one another.
use smmalloc.Prelude.{
  ℕ, zero, suc, ◌+◌, ◌^◌, ◌≤◌, ◌<◌, ◌≡◌, refl, ◌⊎◌, ◌∙◌, ap, Option, some, List, [], ◌∷◌, ◌++◌,
  arith, length, take, get_elem?, get_elem?-some, take-suc, u32,
}
use mathlib.Core.List.{append_assoc, append-nil}
use smmalloc.Memory.{Mem, load64, store64, load64-store64, load64-store64_apart, store64-out}
use smmalloc.Pool.{pack}
use smmalloc.Pool.Chain.{Links, last, ApartFrom, AllApart}
use smmalloc.Cache.{link_blocks}

-- The entries of an array from the `i`-th on are `ys`.
abbrev pub Slice : List ℕ → ℕ → List ℕ → Type 0
Slice cells i [] = Unit {0}
Slice cells i (y ∷ ys) = (get_elem? cells i ≡ some y) × Slice cells (i + 1) ys

-- All blocks lie below `bound`.
abbrev pub AllBelow : ℕ → List ℕ → Type 0
AllBelow bound [] = Unit {0}
AllBelow bound (x ∷ xs) = (x + 8 ≤ bound) × AllBelow bound xs

-- The byte at `a` is not in the first word of a block of the list.
abbrev pub Away : ℕ → List ℕ → ℕ → Type 0
Away base [] a = Unit {0}
Away base (x ∷ xs) a = ((a < base + x) ⊎ (base + x + 8 ≤ a)) × Away base xs a

-- A stretch of `k` entries, with what the array holds up to its end.
pub record Stretch (cells : List ℕ) (i k : ℕ) : Type 0 where
  pub entries : List ℕ
  pub count_entries : length entries ≡ k
  pub slice : Slice cells i entries
  pub split : take (i + k) cells ≡ take i cells ++ entries

pub stretch : (k i : ℕ) (cells : List ℕ) → i + k ≤ length cells → Stretch cells i k
stretch zero i cells fits = record {
  entries = [];
  count_entries = refl;
  slice = tt;
  split = rw (append-nil) (ap (λ (z : ℕ). take z cells) (omega arith));
}
stretch (suc k) i cells fits =
    let (x, e) = get_elem?-some cells i (omega arith) in
    let rest : Stretch cells (i + 1) k = stretch k (i + 1) cells (omega arith) in
    let one_more : i + 1 ≡ suc i = omega arith in
    let far : i + suc k ≡ i + 1 + k = omega arith in
    record {
      entries = x ∷ rest.entries;
      count_entries = ap suc rest.count_entries;
      slice = (e, rest.slice);
      split = rw far (rest.split ∙ rw (one_more, take-suc i cells x e, append_assoc) refl);
    }

-- What the loop returns, started at the block `o` with the entries `ys` to follow.
pub record Linked (base bound o : ℕ) (ys : List ℕ) (m : Mem) (out : Option (Mem × ℕ)) : Type 0 where
  pub mem : Mem
  pub returns : out ≡ some (mem, base + last o ys)
  pub links : Links mem base o ys
  pub words : (p : ℕ) → ApartFrom p (o ∷ ys) → load64 mem (base + p) ≡ load64 m (base + p)
  pub bytes : (a : ℕ) → (a < base) ⊎ (base + bound ≤ a) → mem a ≡ m a
  pub kept : (a : ℕ) → Away base (o ∷ ys) a → mem a ≡ m a

module _ (cells : List ℕ) (base bound : ℕ) (small : bound < 2 ^ 32) where
  pub link_blocks-Linked :
      (k i o tag : ℕ) (ys : List ℕ) (m : Mem)
      → length ys ≡ k
      → tag < 2 ^ 32
      → Slice cells i ys
      → AllApart (o ∷ ys)
      → AllBelow bound (o ∷ ys)
      → Linked base bound o ys m (link_blocks k cells base i tag m (base + o))
  unfolding link_blocks
  link_blocks-Linked zero i o tag [] m len fits slice apart below = record {
    mem = m;
    returns = refl;
    links = tt;
    words = λ p a. refl;
    bytes = λ a out. refl;
    kept = λ a away. refl;
  }
  link_blocks-Linked zero i o tag (y ∷ ys) m len fits slice apart below = absurd (omega arith)
  link_blocks-Linked (suc k) i o tag [] m len fits slice apart below = absurd (omega arith)
  link_blocks-Linked (suc k) i o tag (y ∷ ys) m len fits slice apart below =
      let rest =
        link_blocks-Linked k (i + 1) y (u32 (tag + 1)) ys (store64 m (base + o) (pack tag y))
          (omega arith) (omega arith) slice.1 apart.1 below.1 in
      let stored : load64 rest.mem (base + o) ≡ pack tag y =
        rest.words o apart.0 ∙ load64-store64 m (base + o) (pack tag y) (omega arith) in
      rw (slice.0) (record {
        mem = rest.mem;
        returns = rest.returns;
        links = (rw stored (omega arith), rw stored (omega arith), rest.links);
        words = λ p away.
            rest.words p away.1
            ∙ load64-store64_apart m (base + o) (pack tag y) (base + p) (ground arith);
        bytes = λ a out. rest.bytes a out ∙ store64-out m (base + o) (pack tag y) a (ground arith);
        kept = λ a away. rest.kept a away.1 ∙ store64-out m (base + o) (pack tag y) a away.0;
      })
