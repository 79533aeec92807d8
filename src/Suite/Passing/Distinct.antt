-- ===== src/Suite/Passing/Distinct.antt =====
-- Basic passes.
use native.Mathlib.Nat.{le-div_iff_mul-le}
use smmalloc.Prelude.{
  ℕ, ◌*◌, ◌<◌, ◌≤◌, ◌≢◌, ◌^◌, refl, not, ◌==◌, ne→==, List, [], ◌∷◌, length, arith,
}
use smmalloc.Align.{align}
use smmalloc.Generic.{Libc}
use smmalloc.Sizes.{Partition}
use smmalloc.Allocator.{World}
use smmalloc.CApi.{sm_malloc, sm_free}
use smmalloc.Safety.Sound.{blocks_in, size_ge_16}
use smmalloc.Client.Lists.{Extent}
use smmalloc.Client.Heap.{LibcSpec}
use smmalloc.Client.Runs.{IsRequest}
use smmalloc.Client.Invariant.{Inv}
use smmalloc.Client.Frees.{free-Gone}
use smmalloc.Client.Written.{Inv-AllClear}
use smmalloc.Client.Own.{allocate-OwnBlock}
use smmalloc.Suite.Gtest.{Body, Unit0, call, run, expect_true, ◌>>=◌, ◌>>◌}
use smmalloc.Suite.Triples.{Returns, Returns-bind, Returns-call, Returns-run, Returns-expect}
use smmalloc.Suite.Process.{Process}
use smmalloc.Suite.Created.{
  IsReady, others, created, created-Inv, created-buckets, with_heap-Returns,
}
use smmalloc.Suite.Simple.Blocks.{basic_half, basic}

module _ {H : Type 0} (part : Partition) {libc : Libc H} (spec : LibcSpec libc)
    (big : 2 ^ 20 ≤ part.limit) where
  request : IsRequest part 34 4
  request = record {
    some_bytes = omega arith;
    at_most_4096 = omega arith;
    exact = omega (arith, big);
    fits = omega arith;
  }

  abbrev own : ℕ
  own = part.index_by_size (align 34 (2 ^ 4))

  module _ (owners : List Extent) where
    -- The bucket for the blocks of the test has room for four.
    abbrev Roomy : World H → Type 0
    Roomy w = (own < w.buckets_count) × (4 * 2 ^ 20 ≤ w.bucket_size_in_bytes)

    abbrev Holding : List Extent → World H → Type 0
    Holding held w = Inv part spec owners (record { world = w; held = held }) × Roomy w

    four_blocks : (held : List Extent) (w : World H) → Holding held w → 4 ≤ blocks_in part w own
    four_blocks held w (inv, (lt, room)) =
        let size = part.at_most_1M own (omega (arith, lt, inv.sound.up)) in
        (le-div_iff_mul-le (omega (arith, size_ge_16 part inv.sound own lt))).1
          (omega (arith, size, room))

    -- one block more
    take :
        (held : List Extent) (w : World H) {B : Type 0} (rest : ℕ → Body (World H) B) (b : B)
        (done : World H → Type 0)
        → length held < 4
        → Holding held w
        → ((p : ℕ) (v : World H)
            → Holding ((p, 34) ∷ held) v
            → (u : World H) × Returns (rest p) v b u × done u)
        → (u : World H) × Returns (call (λ w. sm_malloc libc part w 34 16) >>= rest) w b u × done u
    unfolding sm_malloc
    take held w rest b done few (inv, room) next =
        let block =
          allocate-OwnBlock part spec owners (record { world = w; held = held }) inv 34 4 request
            room.0 (omega (arith, few, four_blocks held w (inv, room))) in
        let (u, runs, q) =
          next block.address block.world
            (block.inv, (omega (arith, room, block.layout), omega (arith, room, block.layout))) in
        (
          u,
          Returns-bind (call (λ (w : World H). sm_malloc libc part w 34 16)) rest w block.world u
              block.address b
              (Returns-call (λ (w : World H). sm_malloc libc part w 34 16) w block.world
                block.address block.returns)
              runs,
          q,
        )

    -- the block that was taken last goes back
    give :
        (held : List Extent) (p : ℕ) (w : World H) (rest : Body (World H) Unit0)
        (done : World H → Type 0)
        → Holding ((p, 34) ∷ held) w
        → ((v : World H) → Holding held v → (u : World H) × Returns rest v tt u × done u)
        → (u : World H) × Returns (run (λ w. sm_free libc w p) >> rest) w tt u × done u
    unfolding sm_free
    give held p w rest done (inv, room) next =
        let gone =
          free-Gone part spec owners (record { world = w; held = (p, 34) ∷ held }) inv 0 p 34
            refl in
        let (u, runs, q) =
          next gone.world
            (gone.inv, (omega (arith, room, gone.layout), omega (arith, room, gone.layout))) in
        (
          u,
          Returns-bind (run (λ (w : World H). sm_free libc w p)) (λ _. rest) w gone.world u tt tt
              (Returns-run (λ (w : World H). sm_free libc w p) w gone.world gone.returns) runs,
          q,
        )

    -- two blocks that are held are not at one address
    differ :
        (p q : ℕ) (held : List Extent) (w : World H) → Holding ((q, 34) ∷ (p, 34) ∷ held) w → p ≢ q
    differ p q held w (inv, room) e =
        let clear =
          Inv-AllClear part spec owners (record { world = w; held = (q, 34) ∷ (p, 34) ∷ held })
            inv in
        ground (arith, clear, e)

    expect :
        (p q : ℕ) (w : World H) (rest : Body (World H) Unit0) (done : World H → Type 0)
        → p ≢ q
        → ((u : World H) × Returns rest w tt u × done u)
        → (u : World H) × Returns (expect_true (not (p == q)) >> rest) w tt u × done u
    expect p q w rest done ne (u, runs, holds) = (
      u,
      Returns-bind (expect_true (not (p == q))) (λ _. rest) w w u tt tt
          (Returns-expect (not (p == q)) w (rw (ne→== p q ne) refl)) runs,
      holds,
    )

    last :
        (p : ℕ) (w : World H)
        → Holding ((p, 34) ∷ []) w
        → (u : World H) × Returns (run (λ w. sm_free libc w p)) w tt u × Holding [] u
    unfolding sm_free
    last p w (inv, room) =
        let gone =
          free-Gone part spec owners (record { world = w; held = (p, 34) ∷ [] }) inv 0 p 34 refl in
        (
          gone.world,
          Returns-run (λ (w : World H). sm_free libc w p) w gone.world gone.returns,
          (gone.inv, (omega (arith, room, gone.layout), omega (arith, room, gone.layout))),
        )

    abbrev return_to : ℕ → Body (World H) Unit0
    return_to p = run (λ w. sm_free libc w p)

    abbrev return_all : ℕ → ℕ → ℕ → ℕ → Body (World H) Unit0
    return_all a b c d = return_to d >> (return_to c >> (return_to b >> return_to a))

    return_four :
        (a b c d : ℕ) (w : World H)
        → Holding ((d, 34) ∷ (c, 34) ∷ (b, 34) ∷ (a, 34) ∷ []) w
        → (u : World H) × Returns (return_all a b c d) w tt u × Holding [] u
    return_four a b c d w h =
        give ((c, 34) ∷ (b, 34) ∷ (a, 34) ∷ []) d w (return_to c >> (return_to b >> return_to a))
          (Holding []) h
          λ w5 h5.
            give ((b, 34) ∷ (a, 34) ∷ []) c w5 (return_to b >> return_to a) (Holding []) h5
              λ w6 h6. give ((a, 34) ∷ []) b w6 (return_to a) (Holding []) h6 λ w7 h7. last a w7 h7

    half :
        (w : World H)
        → Holding [] w
        → (v : World H) × Returns (basic_half libc part) w tt v × Holding [] v
    unfolding basic_half
    half w holding = take [] w _ tt (Holding []) (omega arith) holding λ a w1 h1.
        take ((a, 34) ∷ []) w1 _ tt (Holding []) (omega arith) h1 λ b w2 h2.
          take ((b, 34) ∷ (a, 34) ∷ []) w2 _ tt (Holding []) (omega arith) h2 λ c w3 h3.
            take ((c, 34) ∷ (b, 34) ∷ (a, 34) ∷ []) w3 _ tt (Holding []) (omega arith) h3 λ d w4 h4.
              expect a b w4
                (expect_true (not (b == c)) >> (expect_true (not (c == d)) >> return_all a b c d))
                (Holding []) (differ a b [] w2 h2)
                (expect b c w4 (expect_true (not (c == d)) >> return_all a b c d) (Holding [])
                  (differ b c ((a, 34) ∷ []) w3 h3)
                  (expect c d w4 (return_all a b c d) (Holding [])
                    (differ c d ((b, 34) ∷ (a, 34) ∷ []) w4 h4) (return_four a b c d w4 h4)))

  module _ (taken : List Extent) (sizeof_allocator : ℕ) (s : Process H)
      (ready : IsReady part spec taken sizeof_allocator 5 (48 * 1024 * 1024) s)
      (served : own < 5) where
    -- The test `Basic` ends without a failed check: of its four blocks, the first and the second,
    -- the second and the third, and the third and the fourth are at different addresses, and so
    -- are those of the four that it allocates after these were freed. The scheme covers sizes up
    -- to a megabyte and puts 34 bytes at an alignment of 16 into one of the first five buckets;
    -- the heap has allocated only blocks that do not overlap, no cache of the thread is in use,
    -- and `malloc` grants the two blocks that the allocator itself needs.
    pub basic_passes : (t : Process H) × Returns (basic libc part sizeof_allocator) s tt t
    unfolding basic
    basic_passes =
        let owners = others part spec taken sizeof_allocator 5 (48 * 1024 * 1024) s in
        let w =
          created part spec taken sizeof_allocator 5 (48 * 1024 * 1024) s ready (omega arith)
            (omega arith) (omega arith) (omega arith) in
        let inv =
          created-Inv part spec taken sizeof_allocator 5 (48 * 1024 * 1024) s ready (omega arith)
            (omega arith) (omega arith) (omega arith) in
        let sizes =
          created-buckets part spec taken sizeof_allocator 5 (48 * 1024 * 1024) s ready
            (omega arith) (omega arith) (omega arith) (omega arith) in
        let (v, first, holding) =
          half owners w (inv, (omega (arith, sizes, served), omega (arith, sizes))) in
        let (u, second, holding') = half owners v holding in
        let (t, passes, same) =
          with_heap-Returns part spec taken sizeof_allocator 5 (48 * 1024 * 1024) s ready
            (omega arith) (omega arith) (omega arith) (omega arith)
            (λ heap. basic_half libc part >> basic_half libc part) u
            (Returns-bind (basic_half libc part) (λ _. basic_half libc part) w v u tt tt first
              second) in
        (t, passes)
