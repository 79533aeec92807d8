-- ===== src/Suite/Heaps.antt =====
-- The calls of the tests on a sound allocator.
use smmalloc.Prelude.{ℕ, ◌%◌, ◌^◌, ◌≡◌, some, List, ◌∷◌, arith}
use native.Mathlib.Nat.{zero-mod}
use smmalloc.Generic.{Libc}
use smmalloc.Sizes.{Partition}
use smmalloc.Allocator.{World}
use smmalloc.CApi.{sm_malloc}
use smmalloc.Client.Lists.{Extent}
use smmalloc.Client.Heap.{LibcSpec}
use smmalloc.Client.Runs.{IsRequest}
use smmalloc.Client.Invariant.{Inv}
use smmalloc.Client.Allocates.{Answer, served, refused, allocate-Answer}
use smmalloc.Suite.Gtest.{call, assert_true}
use smmalloc.Suite.Triples.{Returns, Returns-bind, Returns-call, Returns-assert, is_aligned_to-true}
use smmalloc.Suite.Process.{is_aligned_to}
use smmalloc.Suite.Simple.Alignment.{malloc_aligned}

module _ {H : Type 0} (part : Partition) {libc : Libc H} (spec : LibcSpec libc)
    (others : List Extent) where
  -- The invariant holds, whatever the program holds.
  abbrev pub Holds : World H → Type 0
  Holds w = (held : List Extent) × Inv part spec others (record { world = w; held = held })

  -- A call that returns an aligned address, or null, and keeps the invariant.
  pub malloc_aligned-Returns :
      (w : World H) (bytes k : ℕ)
      → IsRequest part bytes k
      → Holds w
      → (v : World H) × Returns (malloc_aligned libc part bytes (2 ^ k)) w tt v × Holds v
  unfolding sm_malloc
  malloc_aligned-Returns w bytes k request (held, inv) =
      by_answer
        (allocate-Answer part spec others (record { world = w; held = held }) inv bytes k request)
    where
      checked :
          (p : ℕ) (v : World H)
          → sm_malloc libc part w bytes (2 ^ k) ≡ some (p, v)
          → p % 2 ^ k ≡ 0
          → Returns (malloc_aligned libc part bytes (2 ^ k)) w tt v
      checked p v got aligned =
          Returns-bind (call (λ (x : World H). sm_malloc libc part x bytes (2 ^ k)))
            (λ p. assert_true (is_aligned_to p (2 ^ k))) w v v p tt
            (Returns-call (λ (x : World H). sm_malloc libc part x bytes (2 ^ k)) w v p got)
            (Returns-assert (is_aligned_to p (2 ^ k)) v
              (is_aligned_to-true k p (omega (arith, request.at_most_4096)) aligned))

      by_answer :
          Answer part spec others
            (record { world = w; held = held })
            bytes
            k
            (sm_malloc libc part w bytes (2 ^ k))
          → (v : World H) × Returns (malloc_aligned libc part bytes (2 ^ k)) w tt v × Holds v
      by_answer (served p v got some_p aligned inv' keeps layout) =
          (v, checked p v got aligned, ((p, bytes) ∷ held, inv'))
      by_answer (refused v got inv' keeps layout) =
          (v, checked 0 v got (zero-mod (2 ^ k)), (held, inv'))
