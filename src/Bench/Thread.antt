-- ===== src/Bench/Thread.antt =====
-- The benchmark's thread as a whole.
use smmalloc.Prelude.{
  ℕ, suc, ◌+◌, ◌*◌, ◌<◌, ◌≡◌, refl, ap, subst, ◌∙◌, List, [], ◌∷◌, some, u64, get_elem?,
  get_elem?-some, set, length, take, drop, arith, bind_some,
}
use smmalloc.Client.Lists.{remove_at}
use smmalloc.Bench.{
  HeapApi, Worker, zeroes, allocate_at, free_at, replace_at, replace_all, thread_entry,
}
use smmalloc.Bench.Counts.{count-set, count-take-set, drop-get_elem?, take-all, drop-all}
use smmalloc.Bench.Loops.{
  HeapSpec, for_each-ends, length-zeroes, State, allocate_at-ends, free_at-ends,
}

module _ {W : Type 0} (api : HeapApi W) (Valid : ℕ → Type 0) (spec : HeapSpec api Valid)
    (random_sizes : List ℕ) (some_sizes : 0 < length random_sizes)
    (valid : (j x : ℕ) → get_elem? random_sizes j ≡ some x → Valid x) (n : ℕ) where
  abbrev At : List ℕ → ℕ → Worker W → Type 0
  At = State api Valid spec random_sizes some_sizes valid n

  abbrev Filling : ℕ → Worker W → Type 0
  Filling i s = At (take i s.ptrs_storage) i s

  abbrev Replacing : ℕ → ℕ → Worker W → Type 0
  Replacing c i s = At s.ptrs_storage (c + 2 * i) s

  abbrev Emptying : ℕ → ℕ → Worker W → Type 0
  Emptying c i s = At (drop i s.ptrs_storage) (c + i) s

  fill_step :
      (i : ℕ) (s : Worker W)
      → i < n
      → Filling i s
      → (t : Worker W) × (allocate_at api random_sizes i s ≡ some t) × Filling (suc i) t
  fill_step i s lt at =
      let (p, t, returns, array, (len, owns, ops)) =
        allocate_at-ends api Valid spec random_sizes some_sizes valid n (take i s.ptrs_storage) i i
          s lt at in
      (
        t,
        returns,
        (
          len,
          rw array (
              spec.recount t.world (p ∷ take i s.ptrs_storage)
                (take (suc i) (set s.ptrs_storage i p))
                (λ z. count-take-set s.ptrs_storage i p z (omega (arith, at, lt))) owns),
          ops,
        ),
      )

  replace_step :
      (c i : ℕ) (s : Worker W)
      → i < n
      → Replacing c i s
      → (t : Worker W) × (replace_at api random_sizes i s ≡ some t) × Replacing c (suc i) t
  unfolding replace_at
  replace_step c i s lt at =
      let (p, there) = get_elem?-some s.ptrs_storage i (omega (arith, at, lt)) in
      let (t, freed, same, at') =
        free_at-ends api Valid spec random_sizes some_sizes valid n s.ptrs_storage (c + 2 * i) i i p
          s there there at in
      let (q, u, returns, array, (len, owns, ops)) =
        allocate_at-ends api Valid spec random_sizes some_sizes valid n (remove_at i s.ptrs_storage)
          (suc (c + 2 * i)) i t lt at' in
      let array' : u.ptrs_storage ≡ set s.ptrs_storage i q = array ∙ ap (λ xs. set xs i q) same in
      let calls : suc (suc (c + 2 * i)) ≡ c + 2 * suc i = omega arith in
      (
        u,
        bind_some (free_at api random_sizes i s) (λ s'. allocate_at api random_sizes i s') t freed
            ∙ returns,
        (
          len,
          rw array' (
              spec.recount u.world (q ∷ remove_at i s.ptrs_storage) (set s.ptrs_storage i q)
                (λ z. count-set s.ptrs_storage i q z (omega (arith, at, lt))) owns),
          ops ∙ ap u64 calls,
        ),
      )

  empty_step :
      (c i : ℕ) (s : Worker W)
      → i < n
      → Emptying c i s
      → (t : Worker W) × (free_at api random_sizes i s ≡ some t) × Emptying c (suc i) t
  empty_step c i s lt at =
      let (p, there) = get_elem?-some s.ptrs_storage i (omega (arith, at, lt)) in
      let split = drop-get_elem? s.ptrs_storage i p there in
      let first : get_elem? (drop i s.ptrs_storage) 0 ≡ some p = rw split refl in
      let (t, freed, same, (len, owns, ops)) =
        free_at-ends api Valid spec random_sizes some_sizes valid n (drop i s.ptrs_storage) (c + i)
          i 0 p s there first at in
      let calls : suc (c + i) ≡ c + suc i = omega arith in
      (
        t,
        freed,
        (
          len,
          rw same (subst (λ xs. spec.Owns t.world (remove_at 0 xs)) split owns),
          ops ∙ ap u64 calls,
        ),
      )

  abbrev pub Whole : ℕ → W → Type 0
  Whole iterations w =
      (v : W) × (thread_entry api random_sizes n iterations w
        ≡ some (u64 (2 * n * (iterations + 1)), v))
      × spec.Owns v []

  replace_all_step :
      (i : ℕ) (s : Worker W)
      → Replacing (n + 2 * n * i) 0 s
      → (t : Worker W) × (replace_all api random_sizes n i s ≡ some t)
        × Replacing (n + 2 * n * suc i) 0 t
  unfolding replace_all
  replace_all_step i s at =
      let (t, returns, at') =
        for_each-ends (replace_at api random_sizes) (Replacing (n + 2 * n * i)) n
          (replace_step (n + 2 * n * i)) n 0 s (omega arith) at in
      let calls : n + 2 * n * i + 2 * n ≡ n + 2 * n * suc i + 2 * 0 = grind arith in
      (t, returns, subst (λ c. At t.ptrs_storage c t) calls at')

  -- From a state without pointers the thread ends, with `2 * n * (iterations + 1)` calls counted modulo
  -- `2 ^ 64`, and with no pointer left.
  pub thread_entry-ends : (iterations : ℕ) (w : W) → spec.Owns w [] → Whole iterations w
  unfolding thread_entry
  thread_entry-ends iterations w owns =
      let (w1, started, owns1) = spec.starts w owns in
      let (filled, fills, at1) =
        for_each-ends (allocate_at api random_sizes) Filling n fill_step n 0
          (record { world = w1; ptrs_storage = zeroes n; op_count = 0; idx = 0; pattern = 0 })
          (omega arith) (length-zeroes n, owns1, refl) in
      let start : n ≡ n + 2 * n * 0 + 2 * 0 = omega arith in
      let all_filled : Replacing (n + 2 * n * 0) 0 filled = (
        at1.0,
        subst (λ xs. spec.Owns filled.world xs) (take-all filled.ptrs_storage n at1.0) at1.1,
        at1.2 ∙ ap u64 start,
      ) in
      let (used, uses, at2) =
        for_each-ends (replace_all api random_sizes n) (λ i s. Replacing (n + 2 * n * i) 0 s)
          iterations (λ i s lt at. replace_all_step i s at) iterations 0 filled (omega arith)
          all_filled in
      let (done, empties, at3) =
        for_each-ends (free_at api random_sizes) (Emptying (n + 2 * n * iterations)) n
          (empty_step (n + 2 * n * iterations)) n 0 used (omega arith) at2 in
      let none_left : spec.Owns done.world [] =
        subst (λ xs. spec.Owns done.world xs) (drop-all done.ptrs_storage n at3.0) at3.1 in
      let (w2, finished, owns2) = spec.finishes done.world none_left in
      let calls : n + 2 * n * iterations + n ≡ 2 * n * (iterations + 1) = grind arith in
      let ops : done.op_count ≡ u64 (2 * n * (iterations + 1)) = at3.2 ∙ ap u64 calls in
      (w2, rw (started, fills, uses, empties, finished, ops) refl, owns2)
