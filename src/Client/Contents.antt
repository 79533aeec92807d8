-- ===== src/Client/Contents.antt =====
-- What a program wrote into a block stays there until it writes into it again or frees it.
use mathlib.Core.Option.{some-injective, none-ne-some}
use smmalloc.Prelude.{
  ℕ, zero, suc, ◌+◌, ◌^◌, ◌<◌, ◌≤◌, ◌≡◌, ◌≢◌, refl, sym, ap, ◌∙◌, true, Option, some, List, [], ◌∷◌,
  get_elem?, arith,
}
use smmalloc.Pool.{null}
use smmalloc.Generic.{Libc}
use smmalloc.Sizes.{Partition}
use smmalloc.Allocator.{World, allocate, realloc}
use smmalloc.Client.Lists.{Extent, remove_at}
use smmalloc.Client.Heap.{LibcSpec}
use smmalloc.Client.Runs.{Client, Step, allocates, fails, frees, resizes, keeps_old, writes}
use smmalloc.Client.Invariant.{Inv}
use smmalloc.Client.Frees.{free-Gone}
use smmalloc.Client.Allocates.{Answer, served, refused, allocate-Answer}
use smmalloc.Client.Resizes.{Reallocated, resized, unchanged, lost}
use smmalloc.Client.Resizes.Answers.{realloc-Reallocated}
use smmalloc.Client.Usage.{step-Inv}

-- An entry stays in the list when another is taken.
remains :
    (n k : ℕ) (xs : List Extent) (x : Extent)
    → n ≢ k
    → get_elem? xs k ≡ some x
    → (l : ℕ) × (get_elem? (remove_at n xs) l ≡ some x)
remains n k [] x ne e = ground arith
remains zero zero (y ∷ xs) x ne e = absurd (ne refl)
remains zero (suc k) (y ∷ xs) x ne e = (k, e)
remains (suc n) zero (y ∷ xs) x ne e = (0, e)
remains (suc n) (suc k) (y ∷ xs) x ne e =
    let (l, at) = remains n k xs x (λ eq. ne (ap suc eq)) e in (suc l, at)

module _ {H : Type 0} (part : Partition) (libc : Libc H) (q m : ℕ) where
  -- The step neither frees nor resizes the block at `q`, nor writes into its `m` bytes.
  abbrev pub Spares : {c d : Client H} → Step part libc c d → Type 0
  Spares (allocates bytes k p world request returns some_p) = Unit {0}
  Spares (fails bytes k world request returns) = Unit {0}
  Spares (frees n p bytes world at returns) = p ≢ q
  Spares (resizes n p b bytes k r world at request returns some_r) = p ≢ q
  Spares (keeps_old n p b bytes k world at request returns) = Unit {0}
  Spares {c} (writes mem frame) = (a : ℕ) → q ≤ a → a < q + m → mem a ≡ c.world.mem a

  pub data Sparing (start : Client H) : Client H → Type 0 where
    at_start : Sparing start start
    and_then :
        {c d : Client H}
        → Sparing start c
        → (step : Step part libc c d) → Spares step
        → Sparing start d

  -- The block is held in `d`, with the bytes it had in `c`.
  pub record Intact (c d : Client H) : Type 0 where
    pub place : ℕ
    pub held : get_elem? d.held place ≡ some (q, m)
    pub same : (a : ℕ) → q ≤ a → a < q + m → d.world.mem a ≡ c.world.mem a

module _ {H : Type 0} (part : Partition) {libc : Libc H} (spec : LibcSpec libc)
    (others : List Extent) (q m : ℕ) where
  answered :
      (c : Client H) (n bytes k p : ℕ) (world : World H) (out : Option (ℕ × World H))
      → get_elem? c.held n ≡ some (q, m)
      → out ≡ some (p, world)
      → Answer part spec others c bytes k out
      → (a : ℕ) → q ≤ a
      → a < q + m
      → world.mem a ≡ c.world.mem a
  answered c n bytes k p world out at returns (served p' w got some_p aligned inv keeps layout) a lo
        hi =
      ap (λ v. v.1.mem a) (some-injective (p, world) (p', w) (sym returns ∙ got))
      ∙ keeps n q m a at lo hi
  answered c n bytes k p world out at returns (refused w got inv keeps layout) a lo hi =
      ap (λ v. v.1.mem a) (some-injective (p, world) (null, w) (sym returns ∙ got))
      ∙ keeps n q m a at lo hi

  -- Another block is resized, or `Realloc` has failed.
  resized_other :
      (c : Client H) (n l p b bytes k r : ℕ) (world : World H) (out : Option (ℕ × World H))
      → get_elem? c.held n ≡ some (q, m)
      → l ≢ n
      → out ≡ some (r, world)
      → Reallocated part spec others c l p b bytes k out
      → (a : ℕ) → q ≤ a
      → a < q + m
      → world.mem a ≡ c.world.mem a
  resized_other c n l p b bytes k r world out at other returns
        (resized r' w got some_r aligned inv keeps copied) a lo hi =
      let (j, there) = remains l n c.held (q, m) other at in
      ap (λ v. v.1.mem a) (some-injective (r, world) (r', w) (sym returns ∙ got))
      ∙ keeps j q m a there lo hi
  resized_other c n l p b bytes k r world out at other returns (unchanged w got inv keeps) a lo hi =
      ap (λ v. v.1.mem a) (some-injective (r, world) (null, w) (sym returns ∙ got))
      ∙ keeps n q m a at lo hi
  resized_other c n l p b bytes k r world out at other returns (lost w no_room lt stuck) a lo hi =
      absurd (none-ne-some (r, world) (sym stuck ∙ returns))

  kept_old :
      (c : Client H) (n l p b bytes k : ℕ) (world : World H) (out : Option (ℕ × World H))
      → get_elem? c.held n ≡ some (q, m)
      → out ≡ some (null, world)
      → Reallocated part spec others c l p b bytes k out
      → (a : ℕ) → q ≤ a
      → a < q + m
      → world.mem a ≡ c.world.mem a
  kept_old c n l p b bytes k world out at returns (resized r w got some_r aligned inv keeps copied)
        a lo hi =
      absurd (some_r (ap (λ v. v.0) (some-injective (r, w) (null, world) (sym got ∙ returns))))
  kept_old c n l p b bytes k world out at returns (unchanged w got inv keeps) a lo hi =
      ap (λ v. v.1.mem a) (some-injective (null, world) (null, w) (sym returns ∙ got))
      ∙ keeps n q m a at lo hi
  kept_old c n l p b bytes k world out at returns (lost w no_room lt stuck) a lo hi =
      absurd (none-ne-some (null, world) (sym stuck ∙ returns))

  -- A block at another address is another entry.
  other_entry :
      (c : Client H) (n l p b : ℕ)
      → get_elem? c.held l ≡ some (p, b)
      → get_elem? c.held n ≡ some (q, m)
      → p ≢ q
      → l ≢ n
  other_entry c n l p b found at ne eq =
      ne (ap (λ v. v.0) (some-injective (p, b) (q, m) (sym found ∙ ap (get_elem? c.held) eq ∙ at)))

  step-Intact :
      (c d : Client H) (step : Step part libc c d)
      → Spares part libc q m step
      → Inv part spec others c
      → (n : ℕ) → get_elem? c.held n ≡ some (q, m)
      → Intact part libc q m c d
  step-Intact c d (allocates bytes k p world request returns some_p) spares inv n at = record {
    place = suc n;
    held = at;
    same =
        answered c n bytes k p world (allocate part libc true c.world bytes (2 ^ k)) at returns
          (allocate-Answer part spec others c inv bytes k request);
  }
  step-Intact c d (fails bytes k world request returns) spares inv n at = record {
    place = n;
    held = at;
    same =
        answered c n bytes k null world (allocate part libc true c.world bytes (2 ^ k)) at returns
          (allocate-Answer part spec others c inv bytes k request);
  }
  step-Intact c d (frees l p bytes world found returns) spares inv n at =
      let gone = free-Gone part spec others c inv l p bytes found in
      let (place, e) = remains l n c.held (q, m) (other_entry c n l p bytes found at spares) at in
      record {
        place = place;
        held = e;
        same = λ a lo hi.
            ap (λ v. v.mem a) (some-injective world gone.world (sym returns ∙ gone.returns))
            ∙ gone.keeps place q m a e lo hi;
      }
  step-Intact c d (resizes l p b bytes k r world found request returns some_r) spares inv n at =
      let other = other_entry c n l p b found at spares in
      let (place, e) = remains l n c.held (q, m) other at in
      record {
        place = suc place;
        held = e;
        same =
            resized_other c n l p b bytes k r world (realloc libc part c.world p bytes (2 ^ k)) at
              other returns
              (realloc-Reallocated part spec others c inv l bytes k request p b found);
      }
  step-Intact c d (keeps_old l p b bytes k world found request returns) spares inv n at = record {
    place = n;
    held = at;
    same =
        kept_old c n l p b bytes k world (realloc libc part c.world p bytes (2 ^ k)) at returns
          (realloc-Reallocated part spec others c inv l bytes k request p b found);
  }
  step-Intact c d (writes mem frame) spares inv n at = record {
    place = n;
    held = at;
    same = spares;
  }

  module _ (start : Client H) (inv : Inv part spec others start) (n : ℕ)
      (at : get_elem? start.held n ≡ some (q, m)) where
    by_steps :
        (d : Client H)
        → Sparing part libc q m start d
        → Inv part spec others d × Intact part libc q m start d
    by_steps d at_start = (inv, record { place = n; held = at; same = λ a lo hi. refl })
    by_steps d (and_then {c} before step spares) =
        let (inv_c, so_far) = by_steps c before in
        let next = step-Intact c d step spares inv_c so_far.place so_far.held in
        (
          step-Inv part spec others c d step inv_c,
          record {
            place = next.place;
            held = next.held;
            same = λ a lo hi. next.same a lo hi ∙ so_far.same a lo hi;
          },
        )

    -- In a run from a state where the invariant holds, in which the program neither frees nor
    -- resizes a block that it holds, nor writes into its bytes, the block stays held and its bytes
    -- stay what they were, whatever else the program allocates, frees, resizes and writes as
    -- follows. The program calls `Allocate` and `Realloc` only for requests, that is for one byte
    -- or more, at an alignment up to 4096 that is a power of two, at sizes that neither the scheme
    -- nor the added header overflows; it frees and resizes only blocks that it holds, and writes
    -- only into bytes that it holds. `malloc` returns null or a block above the first page and
    -- within the address space that overlaps none that is allocated.
    pub sparing-Intact :
        (d : Client H) → Sparing part libc q m start d → Intact part libc q m start d
    sparing-Intact d run = (by_steps d run).1
