-- ===== src/Bench/WorkingSet/Ubench.antt =====
-- The loop of `smmalloc_10m` with the sizes and the numbers of the source.
use native.Mathlib.Nat.{le-div_iff_mul-le}
use smmalloc.Prelude.{
  ℕ, zero, suc, ◌+◌, ◌*◌, ◌^◌, ◌<◌, ◌≤◌, ◌≡◌, refl, subst, List, [], some, Bool, true, ◌&&◌, ltb,
  leb, arith,
}
use smmalloc.Align.{align}
use smmalloc.Generic.{Libc}
use smmalloc.Sizes.Piecewise
use smmalloc.Allocator.{World}
use smmalloc.Client.Lists.{Extent}
use smmalloc.Client.Heap.{LibcSpec}
use smmalloc.Client.Invariant.{Inv}
use smmalloc.Bench.{zeroes}
use smmalloc.Bench.Sequence.{Rand, ubench_sequence, length-ubench_sequence, ubench_sequence-bounds}
use smmalloc.Bench.WorkingSet.{Slots, do_benchmark, new_slots}
use smmalloc.Bench.WorkingSet.Smmalloc.{sm_api, Valid, do_benchmark-sm}
use smmalloc.Bench.WorkingSet.Others.{workingset_size}

-- Sizes below 256 have a bucket among the first 18, with room for 10000 blocks in 48 MB.
abbrev roomy : ℕ → Bool
roomy x =
    let i = Piecewise.index_by_size (align x (2 ^ 0)) in
    ltb i 18
    && leb 1 (Piecewise.size_by_index i)
    && leb (10000 * Piecewise.size_by_index i) (48 * 1024 * 1024)

abbrev roomy_below : ℕ → Bool
roomy_below zero = true
roomy_below (suc n) = roomy_below n && roomy (n + 1)

roomy_below_lem : (n x : ℕ) → roomy_below n ≡ true → x < n → roomy (x + 1) ≡ true
roomy_below_lem zero x all lt = absurd (omega arith)
roomy_below_lem (suc n) x all lt = ground (arith, roomy_below_lem n x)

all_roomy : roomy_below 256 ≡ true
unfolding Piecewise.index_by_size Piecewise.size_by_index align
all_roomy = refl

roomy_lem :
    (x : ℕ)
    → roomy x ≡ true
    → (Piecewise.index_by_size (align x 1) < 18)
      × (1 ≤ Piecewise.size_by_index (Piecewise.index_by_size (align x 1)))
      × (10000 * Piecewise.size_by_index (Piecewise.index_by_size (align x 1)) ≤ 48 * 1024 * 1024)
roomy_lem x e = (ground (arith, e), ground (arith, e), ground (arith, e))

module _ {H : Type 0} {libc : Libc H} (spec : LibcSpec libc) (others : List Extent) (w : World H)
    (inv : Inv Piecewise.partition spec others (record { world = w; held = [] }))
    (buckets : w.buckets_count ≡ 18) (bytes : 48 * 1024 * 1024 ≤ w.bucket_size_in_bytes) where
  roomy-Valid :
      (x : ℕ) → 0 < x → x < 256 → Valid Piecewise.partition spec others w workingset_size x
  roomy-Valid zero pos lt = absurd (omega arith)
  roomy-Valid (suc y) pos lt =
      let one_more : y + 1 ≡ suc y = omega arith in
      let fits = roomy_lem (suc y) (
        subst (λ x. roomy x ≡ true) one_more
          (roomy_below_lem 256 y all_roomy (omega (arith, lt)))) in
      (
        record {
          some_bytes = pos;
          at_most_4096 = omega arith;
          exact = omega (arith, lt);
          fits = omega (arith, lt);
        },
        omega (arith, fits, buckets),
        (le-div_iff_mul-le (omega (arith, fits))).1 (omega (arith, fits, bytes)),
      )

  module _ {S : Type 0} (random : Rand S) (rounds : ℕ) where
    -- The loop of the `smmalloc_10m` benchmark, with its 10000 slots and its 10000000 random
    -- sizes, in the piecewise linear scheme on an allocator of 18 buckets of 48 MB or more, run
    -- any number of times from a state where the invariant holds and the program holds no block:
    -- it ends, without a write through null, with every slot null again, and with the invariant
    -- and no block held, so that each block allocated was freed. `rand` may return anything.
    pub ubench_lem :
        (t : Slots (World H)) × (do_benchmark
            (sm_api libc Piecewise.partition)
            (ubench_sequence random)
            workingset_size
            rounds
            (new_slots workingset_size w)
          ≡ some t)
        × (t.working_set ≡ zeroes workingset_size)
        × Inv Piecewise.partition spec others (record { world = t.world; held = [] })
    ubench_lem =
        do_benchmark-sm Piecewise.partition spec others w inv workingset_size (omega arith)
          (ubench_sequence random)
          (λ j x at.
            let sizes = ubench_sequence-bounds random j x at in
            roomy-Valid x (omega (arith, sizes)) (omega (arith, sizes)))
          (omega (arith, length-ubench_sequence random)) rounds
