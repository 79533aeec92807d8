-- ===== src/Bench/Loops.antt =====
-- The loops of the benchmark's thread: they end, count their calls, and free what they allocate.
use native.Mathlib.Nat.{mod-lt}
use smmalloc.Prelude.{
  ℕ, zero, suc, ◌+◌, ◌%◌, ◌<◌, ◌≡◌, refl, ap, subst, ◌∙◌, List, [], ◌∷◌, Option, some, u8, u32, u64,
  count, get_elem?, get_elem?-some, set, set?-eq-set, length-set, length, arith, bind_some,
}
use smmalloc.Client.Lists.{remove_at}
use smmalloc.Bench.{HeapApi, Worker, zeroes, for_each, allocate_at, free_at}

-- What the benchmark needs of an allocator. `Owns w ptrs`: the program has the pointers `ptrs`, in
-- any order, from `w`.
pub record HeapSpec {W : Type 0} (api : HeapApi W) (Valid : ℕ → Type 0) : Type 1 where
  pub Owns : W → List ℕ → Type 0
  pub recount :
      (w : W) (xs ys : List ℕ) → ((z : ℕ) → count z xs ≡ count z ys) → Owns w xs → Owns w ys
  pub mallocs :
      (w : W) (xs : List ℕ) (bytes : ℕ)
      → Valid bytes
      → Owns w xs
      → (p : ℕ) × (v : W) × (api.malloc w bytes 16 ≡ some (p, v)) × Owns v (p ∷ xs)
  pub frees :
      (w : W) (xs : List ℕ) (k p : ℕ)
      → get_elem? xs k ≡ some p
      → Owns w xs
      → (v : W) × (api.free w p ≡ some v) × Owns v (remove_at k xs)
  pub starts : (w : W) → Owns w [] → (v : W) × (api.on_thread_start w ≡ some v) × Owns v []
  pub finishes : (w : W) → Owns w [] → (v : W) × (api.on_thread_finished w ≡ some v) × Owns v []

-- A loop whose body keeps `P`, which says how far it is.
pub for_each-ends :
    {S : Type 0} (body : ℕ → S → Option S) (P : ℕ → S → Type 0) (m : ℕ)
    (step : (i : ℕ) (s : S) → i < m → P i s → (t : S) × (body i s ≡ some t) × P (suc i) t) (n i : ℕ)
    (s : S)
    → i + n ≡ m
    → P i s
    → (t : S) × (for_each body n i s ≡ some t) × P m t
unfolding for_each
for_each-ends body P m step zero i s e p =
    (s, refl, subst (λ z. P z s) (let same : i ≡ m = omega (arith, e) in same) p)
for_each-ends body P m step (suc n) i s e p =
    let (t, returns, q) = step i s (omega (arith, e)) p in
    let (u, rest, done) = for_each-ends body P m step n (suc i) t (omega (arith, e)) q in
    (u, bind_some (body i s) (λ s'. for_each body n (suc i) s') t returns ∙ rest, done)

pub length-zeroes : (n : ℕ) → length (zeroes n) ≡ n
length-zeroes zero = refl
length-zeroes (suc n) = ap suc (length-zeroes n)

module _ {W : Type 0} (api : HeapApi W) (Valid : ℕ → Type 0) (spec : HeapSpec api Valid)
    (random_sizes : List ℕ) (some_sizes : 0 < length random_sizes)
    (valid : (j x : ℕ) → get_elem? random_sizes j ≡ some x → Valid x) (n : ℕ) where
  -- The array has `n` entries, the program has the pointers `xs`, and made `c` calls.
  abbrev pub State : List ℕ → ℕ → Worker W → Type 0
  State xs c s = (length s.ptrs_storage ≡ n) × spec.Owns s.world xs × (s.op_count ≡ u64 c)

  abbrev Allocated : List ℕ → ℕ → ℕ → Worker W → Type 0
  Allocated xs c i s =
      (p : ℕ) × (t : Worker W) × (allocate_at api random_sizes i s ≡ some t)
      × (t.ptrs_storage ≡ set s.ptrs_storage i p)
      × State (p ∷ xs) (suc c) t

  pub allocate_at-ends :
      (xs : List ℕ) (c i : ℕ) (s : Worker W) → i < n → State xs c s → Allocated xs c i s
  unfolding allocate_at
  allocate_at-ends xs c i s lt (len, owns, ops) =
      let (x, at) =
        get_elem?-some random_sizes (s.idx % length random_sizes) (mod-lt s.idx some_sizes) in
      let (p, v, returns, owns') = spec.mallocs s.world xs x (valid _ x at) owns in
      (
        p,
        record {
          world = v;
          ptrs_storage = set s.ptrs_storage i p;
          op_count = u64 (s.op_count + 1);
          idx = u32 (s.idx + 1);
          pattern = u8 (s.pattern + 1);
        },
        rw (at, returns, set?-eq-set s.ptrs_storage i p (omega (arith, lt, len))) refl,
        refl,
        (length-set s.ptrs_storage i p ∙ len, owns', omega (arith, ops)),
      )

  pub free_at-ends :
      (xs : List ℕ) (c i k p : ℕ) (s : Worker W)
      → get_elem? s.ptrs_storage i ≡ some p
      → get_elem? xs k ≡ some p
      → State xs c s
      → (t : Worker W) × (free_at api random_sizes i s ≡ some t)
        × (t.ptrs_storage ≡ s.ptrs_storage)
        × State (remove_at k xs) (suc c) t
  unfolding free_at
  free_at-ends xs c i k p s at place (len, owns, ops) =
      let (v, returns, owns') = spec.frees s.world xs k p place owns in
      (
        record s { world = v; op_count = u64 (s.op_count + 1) },
        rw (at, returns) refl,
        refl,
        (len, owns', omega (arith, ops)),
      )
