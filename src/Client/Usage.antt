-- ===== src/Client/Usage.antt =====
-- What holds in every run of a program: the invariant, held blocks that do not overlap and are as
-- large as asked for, and that the program can always go on.
use mathlib.Core.Option.{some-injective, none-ne-some}
use smmalloc.Prelude.{
  ℕ, ◌%◌, ◌^◌, ◌≡◌, ◌≢◌, refl, subst, sym, ap, ◌∙◌, ◌⊎◌, inl, inr, true, Option, some, List, ◌∷◌,
  get_elem?,
}
use smmalloc.Pool.{null}
use smmalloc.Generic.{Libc}
use smmalloc.Sizes.{Partition}
use smmalloc.Allocator.{World, allocate, realloc}
use smmalloc.Client.Lists.{Extent, remove_at, AllClear}
use smmalloc.Client.Heap.{LibcSpec}
use smmalloc.Client.Written.{Inv-AllClear, written-Inv}
use smmalloc.Client.Resizes.{Reallocated, resized, unchanged, lost}
use smmalloc.Client.Resizes.Answers.{realloc-Reallocated}
use smmalloc.Client.Runs.{
  resizes, keeps_old, Client, Step, Reach, IsRequest, allocates, fails, frees, writes, begins,
  goes_on,
}
use smmalloc.Client.Invariant.{Inv}
use smmalloc.Client.Frees.{free-Gone}
use smmalloc.Client.Allocates.{Answer, served, refused, allocate-Answer}

module _ {H : Type 0} (part : Partition) {libc : Libc H} (spec : LibcSpec libc)
    (others : List Extent) where
  answered-Inv :
      (c : Client H) (bytes k p : ℕ) (world : World H) (out : Option (ℕ × World H))
      → out ≡ some (p, world)
      → p ≢ null
      → Answer part spec others c bytes k out
      → Inv part spec others (record { world = world; held = (p, bytes) ∷ c.held })
  answered-Inv c bytes k p world out returns some_p
        (served q w got some_q aligned inv keeps layout) =
      subst (λ v. Inv part spec others (record { world = v.1; held = (v.0, bytes) ∷ c.held }))
        (some-injective (q, w) (p, world) (sym got ∙ returns)) inv
  answered-Inv c bytes k p world out returns some_p (refused w got inv keeps layout) =
      absurd
        (some_p (sym (ap (λ v. v.0) (some-injective (null, w) (p, world) (sym got ∙ returns)))))

  failed-Inv :
      (c : Client H) (bytes k : ℕ) (world : World H) (out : Option (ℕ × World H))
      → out ≡ some (null, world)
      → Answer part spec others c bytes k out
      → Inv part spec others (record { world = world; held = c.held })
  failed-Inv c bytes k world out returns (served q w got some_q aligned inv keeps layout) =
      absurd (some_q (ap (λ v. v.0) (some-injective (q, w) (null, world) (sym got ∙ returns))))
  failed-Inv c bytes k world out returns (refused w got inv keeps layout) =
      subst (λ v. Inv part spec others (record { world = v.1; held = c.held }))
        (some-injective (null, w) (null, world) (sym got ∙ returns)) inv

  resized-Inv :
      (c : Client H) (n p m bytes k q : ℕ) (world : World H) (out : Option (ℕ × World H))
      → out ≡ some (q, world)
      → q ≢ null
      → Reallocated part spec others c n p m bytes k out
      → Inv part spec others (record { world = world; held = (q, bytes) ∷ remove_at n c.held })
  resized-Inv c n p m bytes k q world out returns some_q
        (resized r w got some_r aligned inv keeps copied) =
      subst
        (λ v.
          Inv part spec others (record { world = v.1; held = (v.0, bytes) ∷ remove_at n c.held }))
        (some-injective (r, w) (q, world) (sym got ∙ returns)) inv
  resized-Inv c n p m bytes k q world out returns some_q (unchanged w got inv keeps) =
      absurd
        (some_q (sym (ap (λ v. v.0) (some-injective (null, w) (q, world) (sym got ∙ returns)))))
  resized-Inv c n p m bytes k q world out returns some_q (lost w no_room lt stuck) =
      absurd (none-ne-some (q, world) (sym stuck ∙ returns))

  unchanged-Inv :
      (c : Client H) (n p m bytes k : ℕ) (world : World H) (out : Option (ℕ × World H))
      → out ≡ some (null, world)
      → Reallocated part spec others c n p m bytes k out
      → Inv part spec others (record { world = world; held = c.held })
  unchanged-Inv c n p m bytes k world out returns
        (resized r w got some_r aligned inv keeps copied) =
      absurd (some_r (ap (λ v. v.0) (some-injective (r, w) (null, world) (sym got ∙ returns))))
  unchanged-Inv c n p m bytes k world out returns (unchanged w got inv keeps) =
      subst (λ v. Inv part spec others (record { world = v.1; held = c.held }))
        (some-injective (null, w) (null, world) (sym got ∙ returns)) inv
  unchanged-Inv c n p m bytes k world out returns (lost w no_room lt stuck) =
      absurd (none-ne-some (null, world) (sym stuck ∙ returns))

  -- A step of a program keeps the invariant.
  pub step-Inv :
      (c d : Client H) → Step part libc c d → Inv part spec others c → Inv part spec others d
  step-Inv c d (allocates bytes k p world request returns some_p) inv =
      answered-Inv c bytes k p world (allocate part libc true c.world bytes (2 ^ k)) returns some_p
        (allocate-Answer part spec others c inv bytes k request)
  step-Inv c d (fails bytes k world request returns) inv =
      failed-Inv c bytes k world (allocate part libc true c.world bytes (2 ^ k)) returns
        (allocate-Answer part spec others c inv bytes k request)
  step-Inv c d (frees n p bytes world at returns) inv =
      let gone = free-Gone part spec others c inv n p bytes at in
      subst (λ v. Inv part spec others (record { world = v; held = remove_at n c.held }))
        (some-injective gone.world world (sym gone.returns ∙ returns)) gone.inv
  step-Inv c d (writes m frame) inv = written-Inv part spec others c m frame inv
  step-Inv c d (resizes n p m bytes k q world at request returns some_q) inv =
      resized-Inv c n p m bytes k q world (realloc libc part c.world p bytes (2 ^ k)) returns some_q
        (realloc-Reallocated part spec others c inv n bytes k request p m at)
  step-Inv c d (keeps_old n p m bytes k world at request returns) inv =
      unchanged-Inv c n p m bytes k world (realloc libc part c.world p bytes (2 ^ k)) returns
        (realloc-Reallocated part spec others c inv n bytes k request p m at)

  module _ (start d : Client H) (reach : Reach part libc start d)
      (inv : Inv part spec others start) where
    -- The invariant of a program that uses an allocator holds in every state that the program
    -- reaches from one where it holds, by calls that end, of `Allocate`, whether it succeeds or
    -- not, `Free` of a block that it holds, and `Realloc` of one, with success or not, and by
    -- writes into the bytes that it holds, in any order and number: the allocator is sound with
    -- just the held blocks of its buckets lent, every held block is of the bytes asked for and
    -- keeps its header, and the heap has allocated just the blocks that the generic allocator
    -- asked for and those of others, none of which overlap. Each call of `Allocate` and `Realloc`
    -- is a request, that is for one byte or more, at an alignment up to 4096 that is a power of
    -- two, at sizes that neither the scheme nor the added header overflows. `malloc` returns null
    -- or a block above the first page and within the address space that overlaps none that is
    -- allocated.
    pub reach-Inv : Inv part spec others d
    reach-Inv = by_steps d reach
      where
        by_steps : (d : Client H) → Reach part libc start d → Inv part spec others d
        by_steps d begins = inv
        by_steps d (goes_on {c} reach step) = step-Inv c d step (by_steps c reach)

    -- In every state that a program reaches from one where the invariant holds, no two of the
    -- blocks that it holds overlap, whether they are of one bucket, of different ones, or of the
    -- generic allocator. The program calls `Allocate` and `Realloc` only for requests, that is for
    -- one byte or more, at an alignment up to 4096 that is a power of two, at sizes that neither
    -- the scheme nor the added header overflows; it frees and resizes only blocks that it holds,
    -- and writes only into bytes that it holds. `malloc` returns null or a block above the first
    -- page and within the address space that overlaps none that is allocated.
    pub held-AllClear : AllClear d.held
    held-AllClear = Inv-AllClear part spec others d reach-Inv

    -- No request leaves the program stuck, and neither does `Free` of a block that it holds.
    pub answers :
        (bytes k : ℕ)
        → IsRequest part bytes k
        → (e : Client H) × Step part libc d e
          × ((e.held ≡ d.held) ⊎ ((p : ℕ) × (p % 2 ^ k ≡ 0) × (e.held ≡ (p, bytes) ∷ d.held)))
    answers bytes k request = elim (allocate-Answer part spec others d reach-Inv bytes k request) [
      | served p w got some_p aligned inv' keeps layout ↦ (
        record { world = w; held = (p, bytes) ∷ d.held },
        allocates bytes k p w request got some_p,
        inr (p, aligned, refl),
      )
      | refused w got inv' keeps layout ↦
          (record { world = w; held = d.held }, fails bytes k w request got, inl refl)
    ]

    pub frees_any :
        (n p bytes : ℕ)
        → get_elem? d.held n ≡ some (p, bytes)
        → (e : Client H) × Step part libc d e × (e.held ≡ remove_at n d.held)
    frees_any n p bytes at =
        let gone = free-Gone part spec others d reach-Inv n p bytes at in
        (
          record { world = gone.world; held = remove_at n d.held },
          frees n p bytes gone.world at gone.returns,
          refl,
        )
