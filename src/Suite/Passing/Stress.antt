-- ===== src/Suite/Passing/Stress.antt =====
-- StressTest finds all blocks of an allocator that no one uses.
use smmalloc.Prelude.{
  ℕ, ◌+◌, ◌^◌, ◌<◌, ◌≡◌, refl, subst, ◌∙◌, ◌==◌, eq→==, ne→==, lt→leb, u32, some, List, [], ◌∷◌,
  length, arith,
}
use native.Mathlib.Nat.{div-le_self}
use smmalloc.Align.{align}
use smmalloc.Generic.{Libc}
use smmalloc.Sizes.{Partition}
use smmalloc.Allocator.{World, get_bucket_elements_count, get_buckets_count}
use smmalloc.Safety.Sound.{blocks_in, size_ge_16}
use smmalloc.Client.Lists.{Extent}
use smmalloc.Client.Heap.{LibcSpec}
use smmalloc.Client.Runs.{IsRequest}
use smmalloc.Client.Invariant.{Inv}
use smmalloc.Suite.Gtest.{ask, expect_true, for_range, ◌>>=◌, ◌>>◌}
use smmalloc.Suite.Triples.{Returns, Returns-bind, Returns-ask, Returns-expect, for_range-Returns}
use smmalloc.Suite.Simple.Blocks.{take_all, free_all}
use smmalloc.Suite.Threads.{stress_bucket, stress_check}
use smmalloc.Suite.Passing.Exhausted.{Taken, take_all-Returns}
use smmalloc.Suite.Passing.Mega.{free_all-Returns}

module _ {H : Type 0} (part : Partition) {libc : Libc H} (spec : LibcSpec libc)
    (owners : List Extent) (buckets : ℕ)
    (requests : (i : ℕ) → i < buckets → IsRequest part (part.size_by_index i) 0)
    (own : (i : ℕ)
      → i < buckets
      → part.index_by_size (align (part.size_by_index i) (2 ^ 0)) ≡ i) where
  -- No block is held.
  abbrev pub Idle : World H → Type 0
  Idle w = Inv part spec owners (record { world = w; held = [] }) × (w.buckets_count ≡ buckets)

  none_left : (held : List Extent) → 0 + length held ≡ 0 → held ≡ []
  none_left [] e = refl
  none_left (h ∷ held) e = absurd (omega (arith, e))

  elements :
      (w : World H) (i : ℕ)
      → Idle w
      → i < buckets
      → get_bucket_elements_count part w i ≡ some (blocks_in part w i)
  unfolding get_bucket_elements_count
  elements w i (inv, all) lt =
      let size = size_ge_16 part inv.sound i (omega (arith, lt, all)) in
      let whole : u32 (blocks_in part w i) ≡ blocks_in part w i =
        omega (arith, div-le_self w.bucket_size_in_bytes (part.size_by_index i), inv.sound.up) in
      rw
        (
          lt→leb w.buckets_count i (omega (arith, lt, all)),
          ne→== (part.size_by_index i) 0 (omega (arith, size)),
          whole,
        )
        refl

  one_bucket :
      (i : ℕ) (w : World H)
      → i < buckets
      → Idle w
      → (v : World H) × Returns (stress_bucket libc part i) w tt v × Idle v
  unfolding stress_bucket
  one_bucket i w lt (inv, all) =
      let exists : i < w.buckets_count = omega (arith, lt, all) in
      let start : Taken part spec owners w 0 (part.size_by_index i) 0 (requests i lt) i (own i lt)
          exists [] [] w =
        record {
          inv = inv;
          layout = (refl, refl, refl);
          in_own = λ n p b e. ground (arith, e);
          same = λ z. refl;
          no_null = refl;
        } in
      let (v, ptrs, takes, owned) =
        take_all-Returns part spec owners w 0 (part.size_by_index i) 0 (requests i lt) i (own i lt)
          exists (blocks_in part w i + 2) [] [] w start (omega arith) (omega arith) in
      let (u, frees, (held, inv', same, nulls, layout)) =
        free_all-Returns part spec owners w v ptrs owned in
      (
        u,
        Returns-bind (ask (λ (x : World H). get_bucket_elements_count part x i))
            (λ max_count.
              take_all libc part (max_count + 2) i (part.size_by_index i) 1 0 [] >>= λ r.
              expect_true (r.0 == max_count) >> free_all libc part r.1)
            w w u (blocks_in part w i) tt
            (Returns-ask (λ (x : World H). get_bucket_elements_count part x i) w
              (blocks_in part w i) (elements w i (inv, all) lt))
            (Returns-bind
              (take_all libc part (blocks_in part w i + 2) i (part.size_by_index i) 1 0 [])
              (λ r. expect_true (r.0 == blocks_in part w i) >> free_all libc part r.1) w v u
              (blocks_in part w i, ptrs) tt takes
              (Returns-bind (expect_true (blocks_in part w i == blocks_in part w i))
                (λ _. free_all libc part ptrs) v v u tt tt
                (Returns-expect (blocks_in part w i == blocks_in part w i) v
                  (eq→== (blocks_in part w i) (blocks_in part w i) refl))
                frees)),
        (
          subst (λ h. Inv part spec owners (record { world = u; held = h })) (none_left held nulls)
              inv',
          layout.0 ∙ all,
        ),
      )

  -- What `StressTest` checks when its threads have ended, in an allocator of any number of buckets
  -- where the invariant holds and no block is held, in a scheme that gives each bucket for its own
  -- element size at an alignment of 1, that size being one byte or more, and one that overflows
  -- neither the scheme nor the added header: it ends without a failed check, so that each bucket
  -- gives just `GetBucketElementsCount` blocks before the first one that is not of it, and leaves
  -- the allocator as it is required here, with no block held.
  pub stress_check_passes :
      (w : World H) → Idle w → (v : World H) × Returns (stress_check libc part) w tt v × Idle v
  unfolding stress_check get_buckets_count
  stress_check_passes w (inv, all) =
      let (v, runs, idle) =
        for_range-Returns (stress_bucket libc part) (λ i u. Idle u) w.buckets_count
          (λ i u lt idle. one_bucket i u (omega (arith, lt, all)) idle) w.buckets_count 0 w
          (omega arith) (inv, all) in
      (
        v,
        Returns-bind (ask (λ (x : World H). some (get_buckets_count x)))
            (λ n. for_range n 0 (stress_bucket libc part)) w w v w.buckets_count tt
            (Returns-ask (λ (x : World H). some (get_buckets_count x)) w w.buckets_count refl) runs,
        idle,
      )
