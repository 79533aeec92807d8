-- ===== src/Bench/WorkingSet/Rounds.antt =====
-- A round over the working set, on an allocator that keeps what a benchmark relies on.
use native.Mathlib.Nat.{mod-lt, add-mod_left}
use smmalloc.Prelude.{
  ℕ, zero, suc, ◌+◌, ◌%◌, ◌^◌, ◌<◌, ◌≡◌, ◌++◌, take, take-suc, take-set, refl, sym, ap, ◌∙◌, List,
  [], ◌∷◌, some, u64, count, get_elem?, get_elem?-some, get_elem?-set_self, set, set?-eq-set,
  length-set, length, arith,
}
use smmalloc.Pool.{null}
use smmalloc.Client.Lists.{remove_at}
use smmalloc.Bench.Counts.{count-set, count-remove_at, length-remove_at}
use smmalloc.Bench.{zeroes}
use smmalloc.Bench.WorkingSet.{BenchApi, Slots, replace_slot, clear_slot}

-- What the loop needs of an allocator. `Owns w ptrs`: the pointers of `ptrs` other than null are
-- those that the program has from `w`. Fewer than `capacity` pointers leave room for one more.
pub record BenchSpec {W : Type 0} (api : BenchApi W) (Valid : ℕ → Type 0) (capacity : ℕ)
    : Type 1 where
  pub Owns : W → List ℕ → Type 0
  pub recount :
      (w : W) (xs ys : List ℕ) → ((z : ℕ) → count z xs ≡ count z ys) → Owns w xs → Owns w ys
  pub adds_null : (w : W) (xs : List ℕ) → Owns w xs → Owns w (null ∷ xs)
  pub drops_null : (w : W) (xs : List ℕ) → Owns w (null ∷ xs) → Owns w xs
  pub allocates :
      (w : W) (xs : List ℕ) (bytes : ℕ)
      → Valid bytes
      → length xs < capacity
      → Owns w xs
      → (p : ℕ) × (u : W) × (v : W) × (api.malloc w bytes ≡ some (p, u))
        × (api.memset u p 33 bytes ≡ some v)
        × Owns v (p ∷ xs)
  pub frees :
      (w : W) (xs : List ℕ) (p : ℕ)
      → Owns w (p ∷ xs)
      → (v : W) × (api.free w p ≡ some v) × Owns v xs

module _ {W : Type 0} (api : BenchApi W) (Valid : ℕ → Type 0) (n : ℕ) (spec : BenchSpec api Valid n)
    (random_sequence : List ℕ)
    (valid : (j x : ℕ) → get_elem? random_sequence j ≡ some x → Valid x) where
  -- The pointers of the working set are those that the program has.
  abbrev pub Holds : List ℕ → W → Type 0
  Holds ws w = (length ws ≡ n) × spec.Owns w ws

  -- An entry that is null takes a new block.
  fills :
      (ws : List ℕ) (w : W) (j bytes : ℕ)
      → get_elem? ws j ≡ some null
      → j < n
      → Valid bytes
      → Holds ws w
      → (p : ℕ) × (u : W) × (v : W) × (api.malloc w bytes ≡ some (p, u))
        × (api.memset u p 33 bytes ≡ some v)
        × Holds (set ws j p) v
  fills ws w j bytes at lt ok (len, owns) =
      let without =
        spec.drops_null w (remove_at j ws)
          (spec.recount w ws (null ∷ remove_at j ws) (λ z. count-remove_at j null z ws at) owns) in
      let (p, u, v, got, filled, owns') =
        spec.allocates w (remove_at j ws) bytes ok
          (omega (arith, len, lt, length-remove_at j null ws at)) without in
      (
        p,
        u,
        v,
        got,
        filled,
        (
          length-set ws j p ∙ len,
          spec.recount v (p ∷ remove_at j ws) (set ws j p)
              (λ z. count-set ws j p z (omega (arith, lt, len))) owns',
        ),
      )

  -- An entry is freed, and null after it.
  pub empties :
      (ws : List ℕ) (w : W) (k q : ℕ)
      → get_elem? ws k ≡ some q
      → k < n
      → Holds ws w
      → (v : W) × (api.free w q ≡ some v) × Holds (set ws k null) v
  empties ws w k q at lt (len, owns) =
      let (v, freed, owns') =
        spec.frees w (remove_at k ws) q
          (spec.recount w ws (q ∷ remove_at k ws) (λ z. count-remove_at k q z ws at) owns) in
      (
        v,
        freed,
        (
          length-set ws k null ∙ len,
          spec.recount v (null ∷ remove_at k ws) (set ws k null)
              (λ z. count-set ws k null z (omega (arith, lt, len)))
              (spec.adds_null v (remove_at k ws) owns'),
        ),
      )

  -- Before round `i`, the entry that the next block goes to is null.
  pub record At (i : ℕ) (s : Slots W) : Type 0 where
    pub holds : Holds s.working_set s.world
    pub freed : s.free_index ≡ i
    pub next : s.alloc_index + 1 ≡ n + i
    pub vacant : get_elem? s.working_set (s.alloc_index % n) ≡ some null

  pub replace_slot-At :
      (i : ℕ) (s : Slots W)
      → 0 < n
      → n + length random_sequence < 2 ^ 64
      → i < length random_sequence
      → At i s
      → (t : Slots W) × (replace_slot api random_sequence n i s ≡ some t) × At (suc i) t
  unfolding replace_slot
  replace_slot-At i s some_slots no_wrap lt at =
      let j = s.alloc_index % n in
      let k = s.free_index % n in
      let j_lt = mod-lt s.alloc_index some_slots in
      let k_lt = mod-lt s.free_index some_slots in
      let (x, there) = get_elem?-some random_sequence i lt in
      let (p, u, v, got, filled, holds) =
        fills s.working_set s.world j x at.vacant j_lt (valid i x there) at.holds in
      let (q, found) = get_elem?-some (set s.working_set j p) k (omega (arith, k_lt, holds)) in
      let (w, freed, holds') = empties (set s.working_set j p) v k q found k_lt holds in
      let free_next : u64 (s.free_index + 1) ≡ suc i = omega (arith, at.freed, lt, no_wrap) in
      let alloc_next : u64 (s.alloc_index + 1) ≡ n + i = omega (arith, at.next, lt, no_wrap) in
      let wraps : u64 (s.alloc_index + 1) % n ≡ k =
        ap (λ a. a % n) alloc_next ∙ add-mod_left n i ∙ ap (λ a. a % n) (sym at.freed) in
      (
        record {
          world = w;
          working_set = set (set s.working_set j p) k null;
          free_index = u64 (s.free_index + 1);
          alloc_index = u64 (s.alloc_index + 1);
        },
        rw
            (
              there,
              got,
              filled,
              set?-eq-set s.working_set j p (omega (arith, j_lt, at.holds)),
              found,
              freed,
              set?-eq-set (set s.working_set j p) k null (omega (arith, k_lt, holds)),
            )
            refl,
        record {
          holds = holds';
          freed = free_next;
          next = omega (arith, alloc_next);
          vacant =
              rw wraps
                (get_elem?-set_self (set s.working_set j p) k null (omega (arith, k_lt, holds)));
        },
      )

  -- The entries below `i` are null.
  abbrev pub Cleared : ℕ → Slots W → Type 0
  Cleared i s = Holds s.working_set s.world × (take i s.working_set ≡ zeroes i)

  zeroes-suc : (i : ℕ) → zeroes i ++ (null ∷ []) ≡ zeroes (suc i)
  zeroes-suc zero = refl
  zeroes-suc (suc i) = ap (λ xs. null ∷ xs) (zeroes-suc i)

  pub clear_slot-Cleared :
      (i : ℕ) (s : Slots W)
      → i < n
      → Cleared i s
      → (t : Slots W) × (clear_slot api random_sequence n i s ≡ some t) × Cleared (suc i) t
  unfolding clear_slot
  clear_slot-Cleared i s lt (holds, below) =
      let (q, found) = get_elem?-some s.working_set i (omega (arith, lt, holds)) in
      let (w, freed, holds') = empties s.working_set s.world i q found lt holds in
      (
        record s { world = w; working_set = set s.working_set i null },
        rw (found, freed, set?-eq-set s.working_set i null (omega (arith, lt, holds))) refl,
        (
          holds',
          take-suc i (set s.working_set i null) null
                (get_elem?-set_self s.working_set i null (omega (arith, lt, holds)))
              ∙ ap (λ xs. xs ++ (null ∷ [])) (take-set i s.working_set null ∙ below)
              ∙ zeroes-suc i,
        ),
      )
