-- ===== src/Suite/Passing/Alignments.antt =====
-- AlignmentTest01 passes.
use smmalloc.Prelude.{ℕ, ◌*◌, ◌≤◌, ◌^◌, two_pow_mono, arith, List, []}
use smmalloc.Generic.{Libc}
use smmalloc.Generic.Block.{grain, grain_bounds}
use smmalloc.Sizes.{Partition}
use smmalloc.Allocator.{World}
use smmalloc.Client.Lists.{Extent}
use smmalloc.Client.Heap.{LibcSpec}
use smmalloc.Client.Runs.{IsRequest}
use smmalloc.Suite.Gtest.{Body, Unit0, for_range, ◌>>◌}
use smmalloc.Suite.Triples.{Returns, Returns-bind, for_range-Returns}
use smmalloc.Suite.Process.{Process}
use smmalloc.Suite.Heaps.{Holds, malloc_aligned-Returns}
use smmalloc.Suite.Created.{IsReady, others, created, created-Inv, with_heap-Returns}
use smmalloc.Suite.Simple.Alignment.{malloc_aligned, alignment_round, alignment_test01}

module _ {H : Type 0} (part : Partition) {libc : Libc H} (spec : LibcSpec libc)
    (big : 2 ^ 20 ≤ part.limit) where
  twenty : (k : ℕ) → k ≤ 7 → IsRequest part 20 k
  twenty k small =
      let four : 2 ^ k ≤ 128 = two_pow_mono k 7 small in
      let grains = grain_bounds k (omega arith) in
      let few : 2 ^ grain k ≤ 4096 = two_pow_mono (grain k) 12 grains.2 in
      record {
        some_bytes = omega arith;
        at_most_4096 = omega arith;
        exact = omega (arith, four, big);
        fits = omega (arith, few);
      }

  module _ (owners : List Extent) where
    -- a call with the check, and what comes behind it
    then :
        (k : ℕ) (w : World H) (rest : Body (World H) Unit0)
        → k ≤ 7
        → Holds part spec owners w
        → ((v : World H)
            → Holds part spec owners v
            → (u : World H) × Returns rest v tt u × Holds part spec owners u)
        → (u : World H) × Returns (malloc_aligned libc part 20 (2 ^ k) >> rest) w tt u
          × Holds part spec owners u
    then k w rest small holds next =
        let (v, first, holds') =
          malloc_aligned-Returns part spec owners w 20 k (twenty k small) holds in
        let (u, second, holds'') = next v holds' in
        (
          u,
          Returns-bind (malloc_aligned libc part 20 (2 ^ k)) (λ _. rest) w v u tt tt first second,
          holds'',
        )

    round :
        (i : ℕ) (w : World H)
        → Holds part spec owners w
        → (v : World H) × Returns (alignment_round libc part i) w tt v × Holds part spec owners v
    unfolding alignment_round
    round i w holds = then 0 w _ (omega arith) holds λ w holds.
        then 1 w _ (omega arith) holds λ w holds. then 2 w _ (omega arith) holds λ w holds.
          then 3 w _ (omega arith) holds λ w holds. then 4 w _ (omega arith) holds λ w holds.
            then 5 w _ (omega arith) holds λ w holds. then 6 w _ (omega arith) holds λ w holds.
              malloc_aligned-Returns part spec owners w 20 7 (twenty 7 (omega arith)) holds

  module _ (taken : List Extent) (sizeof_allocator : ℕ) (s : Process H)
      (ready : IsReady part spec taken sizeof_allocator 5 (48 * 1024 * 1024) s) where
    -- The test `AlignmentTest01` ends without a failed check: the 80000 addresses that it gets at
    -- alignments from 1 to 128 are all multiples of them, or null. The scheme covers sizes up to a
    -- megabyte; the heap has allocated only blocks that do not overlap, no cache of the thread is
    -- in use, and `malloc` grants the two blocks that the allocator itself needs.
    pub alignment_test01_passes :
        (t : Process H) × Returns (alignment_test01 libc part sizeof_allocator) s tt t
    unfolding alignment_test01
    alignment_test01_passes =
        let owners = others part spec taken sizeof_allocator 5 (48 * 1024 * 1024) s in
        let w =
          created part spec taken sizeof_allocator 5 (48 * 1024 * 1024) s ready (omega arith)
            (omega arith) (omega arith) (omega arith) in
        let inv =
          created-Inv part spec taken sizeof_allocator 5 (48 * 1024 * 1024) s ready (omega arith)
            (omega arith) (omega arith) (omega arith) in
        let (v, runs, holds) =
          for_range-Returns (alignment_round libc part) (λ i u. Holds part spec owners u) 10000
            (λ i u lt holds. round owners i u holds) 10000 0 w (omega arith) ([], inv) in
        let (t, passes, same) =
          with_heap-Returns part spec taken sizeof_allocator 5 (48 * 1024 * 1024) s ready
            (omega arith) (omega arith) (omega arith) (omega arith)
            (λ heap. for_range 10000 0 (alignment_round libc part)) v runs in
        (t, passes)
