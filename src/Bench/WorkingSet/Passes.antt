-- ===== src/Bench/WorkingSet/Passes.antt =====
-- The passes of the loop: each ends with an empty working set and no block left.
use native.Mathlib.Nat.{mod-lt}
use smmalloc.Prelude.{
  ℕ, zero, suc, ◌+◌, ◌-◌, ◌%◌, ◌^◌, ◌<◌, ◌≡◌, refl, sym, subst, ◌∙◌, List, [], some, get_elem?,
  length, sub64, arith, bind_some,
}
use smmalloc.Pool.{null}
use smmalloc.Bench.{zeroes, for_each}
use smmalloc.Bench.Counts.{take-all}
use smmalloc.Bench.Loops.{for_each-ends, length-zeroes}
use smmalloc.Bench.WorkingSet.{
  BenchApi, Slots, replace_slot, clear_slot, pass, do_benchmark, new_slots,
}
use smmalloc.Bench.WorkingSet.Rounds.{BenchSpec, At, Cleared, replace_slot-At, clear_slot-Cleared}

module _ {W : Type 0} (api : BenchApi W) (Valid : ℕ → Type 0) (n : ℕ) (spec : BenchSpec api Valid n)
    (random_sequence : List ℕ) (valid : (j x : ℕ) → get_elem? random_sequence j ≡ some x → Valid x)
    (some_slots : 0 < n) (no_wrap : n + length random_sequence < 2 ^ 64) where
  -- The working set is all null, and the program has no pointer.
  abbrev pub Empty : ℕ → Slots W → Type 0
  Empty i s = (s.working_set ≡ zeroes n) × spec.Owns s.world []

  zeroes-get_elem? : (m i : ℕ) → i < m → get_elem? (zeroes m) i ≡ some null
  zeroes-get_elem? zero i lt = absurd (omega arith)
  zeroes-get_elem? (suc m) zero lt = refl
  zeroes-get_elem? (suc m) (suc i) lt = zeroes-get_elem? m i (omega (arith, lt))

  fill_null : (m : ℕ) (w : W) → spec.Owns w [] → spec.Owns w (zeroes m)
  fill_null zero w owns = owns
  fill_null (suc m) w owns = spec.adds_null w (zeroes m) (fill_null m w owns)

  drain_null : (m : ℕ) (w : W) → spec.Owns w (zeroes m) → spec.Owns w []
  drain_null zero w owns = owns
  drain_null (suc m) w owns = drain_null m w (spec.drops_null w (zeroes m) owns)

  pass-Empty :
      (i : ℕ) (s : Slots W)
      → Empty i s
      → (t : Slots W) × (pass api random_sequence n i s ≡ some t) × Empty (suc i) t
  unfolding pass
  pass-Empty i s (empty, owns) =
      let start : Slots W = record s { free_index = 0; alloc_index = sub64 n 1 } in
      let index : sub64 n 1 ≡ n - 1 = omega (arith, some_slots, no_wrap) in
      let at : At api Valid n spec random_sequence valid 0 start = record {
        holds =
            subst (λ xs. (length xs ≡ n) × spec.Owns s.world xs) (sym empty)
              (length-zeroes n, fill_null n s.world owns);
        freed = refl;
        next = omega (arith, index, some_slots);
        vacant = rw empty (zeroes-get_elem? n (sub64 n 1 % n) (mod-lt (sub64 n 1) some_slots));
      } in
      let (t, replaced, at') =
        for_each-ends (replace_slot api random_sequence n)
          (At api Valid n spec random_sequence valid) (length random_sequence)
          (λ i s lt at.
            replace_slot-At api Valid n spec random_sequence valid i s some_slots no_wrap lt at)
          (length random_sequence) 0 start (omega arith) at in
      let (u, cleared, (holds, all)) =
        for_each-ends (clear_slot api random_sequence n)
          (Cleared api Valid n spec random_sequence valid) n
          (λ i s lt at. clear_slot-Cleared api Valid n spec random_sequence valid i s lt at) n 0 t
          (omega arith) (at'.holds, refl) in
      let none_left : u.working_set ≡ zeroes n = sym (take-all u.working_set n holds.0) ∙ all in
      (
        u,
        bind_some (for_each (replace_slot api random_sequence n) (length random_sequence) 0 start)
              (λ s'. for_each (clear_slot api random_sequence n) n 0 s') t replaced
            ∙ cleared,
        (none_left, drain_null n u.world (subst (λ xs. spec.Owns u.world xs) none_left holds.1)),
      )

  pub do_benchmark-Empty :
      (rounds : ℕ) (w : W)
      → spec.Owns w []
      → (t : Slots W) × (do_benchmark api random_sequence n rounds (new_slots n w) ≡ some t)
        × Empty rounds t
  unfolding do_benchmark
  do_benchmark-Empty rounds w owns =
      for_each-ends (pass api random_sequence n) Empty rounds (λ i s lt e. pass-Empty i s e) rounds
        0 (new_slots n w) (omega arith) (refl, owns)
