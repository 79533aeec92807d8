-- ===== src/Suite/Passing/Mega.antt =====
-- The passes of MegaAlloc.
use smmalloc.Prelude.{
  ℕ, zero, suc, ◌+◌, ◌*◌, ◌^◌, ◌<◌, ◌≤◌, ◌≡◌, refl, ap, subst, true, false, ◌==◌, sub64, some, List,
  [], ◌∷◌, length, arith,
}
use smmalloc.Align.{align}
use smmalloc.Generic.{Libc}
use smmalloc.Sizes.{Partition}
use smmalloc.Allocator.{World}
use smmalloc.CApi.{sm_free}
use smmalloc.Safety.Sound.{blocks_in}
use smmalloc.Client.Lists.{Extent}
use smmalloc.Client.Heap.{LibcSpec}
use smmalloc.Client.Runs.{IsRequest}
use smmalloc.Client.Invariant.{Inv}
use smmalloc.Bench.WorkingSet.Smmalloc
use smmalloc.Bench.WorkingSet.Smmalloc.{Owned}
use smmalloc.Suite.Gtest.{pure, run, expect_true, ◌>>◌}
use smmalloc.Suite.Triples.{Returns, Returns-bind, Returns-run, Returns-expect}
use smmalloc.Suite.Simple.Blocks.{take_all, free_all, mega_pass, mega_passes, pool_size}
use smmalloc.Suite.Passing.Exhausted.{Taken, take_all-Returns}

module _ {H : Type 0} (part : Partition) {libc : Libc H} (spec : LibcSpec libc)
    (owners : List Extent) where
  pub free_all-Returns :
      (start w : World H) (ptrs : List ℕ)
      → Owned part spec owners start 0 w ptrs
      → (v : World H) × Returns (free_all libc part ptrs) w tt v
        × Owned part spec owners start 0 v []
  unfolding free_all
  free_all-Returns start w [] owned = (w, refl, owned)
  free_all-Returns start w (p ∷ ptrs) owned =
      let (v, freed, owned') = Smmalloc.frees part spec owners start 0 w ptrs p owned in
      let (u, rest, gone) = free_all-Returns start v ptrs owned' in
      (
        u,
        Returns-bind (run (λ (x : World H). sm_free libc x p)) (λ _. free_all libc part ptrs) w v u
            tt tt (Returns-run (λ (x : World H). sm_free libc x p) w v freed) rest,
        gone,
      )

module _ {H : Type 0} (part : Partition) {libc : Libc H} (spec : LibcSpec libc)
    (owners : List Extent) (big : 2 ^ 20 ≤ part.limit)
    (index : part.index_by_size (align 16 (2 ^ 4)) ≡ 0) where
  request : IsRequest part 16 4
  request = record {
    some_bytes = omega arith;
    at_most_4096 = omega arith;
    exact = omega (arith, big);
    fits = omega arith;
  }

  -- No block is held, and the first bucket has as many blocks as the test expects.
  abbrev pub Unused : World H → Type 0
  Unused w =
      Inv part spec owners (record { world = w; held = [] })
      × (0 < w.buckets_count)
      × (blocks_in part w 0 ≡ pool_size libc part)

  pass :
      (ops : ℕ) (w : World H)
      → Unused w
      → (v : World H) × Returns
          (mega_pass libc part ops)
          w
          (ops + (pool_size libc part + 1) + (pool_size libc part + 1))
          v
        × Unused v
  unfolding mega_pass
  pass ops w (inv, exists, blocks) =
      let start : Taken part spec owners w 0 16 4 request 0 index exists [] [] w = record {
        inv = inv;
        layout = (refl, refl, refl);
        in_own = λ n p b e. ground (arith, e);
        same = λ z. refl;
        no_null = refl;
      } in
      let (v, ptrs, takes, owned) =
        take_all-Returns part spec owners w 0 16 4 request 0 index exists (pool_size libc part + 2)
          [] [] w start (omega arith) (omega (arith, blocks)) in
      let (u, frees, (held, inv', same, nulls, layout)) =
        free_all-Returns part spec owners w v ptrs owned in
      (
        u,
        Returns-bind (take_all libc part (pool_size libc part + 2) 0 16 16 0 [])
            (λ r.
              expect_true (sub64 (pool_size libc part) r.0 == 0)
              >> (free_all libc part r.1 >> pure (ops + (r.0 + 1) + (r.0 + 1))))
            w v u (pool_size libc part, ptrs) _ (rw (← blocks) takes)
            (Returns-bind (expect_true true)
              (λ _.
                free_all libc part ptrs
                >> pure (ops + (pool_size libc part + 1) + (pool_size libc part + 1)))
              v v u tt _ (Returns-expect true v refl)
              (Returns-bind (free_all libc part ptrs)
                (λ _. pure (ops + (pool_size libc part + 1) + (pool_size libc part + 1))) v u u tt _
                frees refl)),
        (
          subst (λ h. Inv part spec owners (record { world = u; held = h })) (none_left held nulls)
              inv',
          omega (arith, exists, layout),
          rw (layout.1) blocks,
        ),
      )
    where
      none_left : (held : List Extent) → 0 + length held ≡ 0 → held ≡ []
      none_left [] e = refl
      none_left (h ∷ held) e = absurd (omega (arith, e))

  -- The passes of the test `MegaAlloc`, any number of them, in a scheme that covers sizes up to a
  -- megabyte and puts 16 bytes at an alignment of 16 into the first bucket, on an allocator with a
  -- bucket or more whose first bucket has 1048576 blocks, where the invariant holds and no block
  -- is held: they end without a failed check, so that each pass gets just that many blocks of the
  -- bucket before the first one that is not of it. They count `2 * 1048577` operations each, and
  -- leave the allocator as it is required here, with no block held.
  pub mega_passes_lem :
      (n ops : ℕ) (w : World H)
      → Unused w
      → (v : World H) × Returns
          (mega_passes libc part n ops)
          w
          (ops + n * (2 * (pool_size libc part + 1)))
          v
        × Unused v
  unfolding mega_passes
  mega_passes_lem zero ops w unused =
      let same : ops ≡ ops + 0 * (2 * (pool_size libc part + 1)) = omega arith in
      (w, ap (λ m. some (some m, record { heap = w; failed = false })) same, unused)
  mega_passes_lem (suc n) ops w unused =
      let (v, first, unused') = pass ops w unused in
      let (u, rest, unused'') =
        mega_passes_lem n (ops + (pool_size libc part + 1) + (pool_size libc part + 1)) v unused' in
      let calls : ops
            + (pool_size libc part + 1)
            + (pool_size libc part + 1)
            + n * (2 * (pool_size libc part + 1))
          ≡ ops + suc n * (2 * (pool_size libc part + 1)) =
        omega arith in
      (
        u,
        Returns-bind (mega_pass libc part ops) (mega_passes libc part n) w v u
            (ops + (pool_size libc part + 1) + (pool_size libc part + 1))
            (ops + suc n * (2 * (pool_size libc part + 1))) first (rw (← calls) rest),
        unused'',
      )
