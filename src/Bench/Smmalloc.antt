-- ===== src/Bench/Smmalloc.antt =====
-- smmalloc without thread caches (`sm_tcd` of smmalloc_perf01.cpp) as an allocator of the benchmark.
use native.Mathlib.Decide.{ℕ_discrete}
use mathlib.Core.Option.{some-injective}
use smmalloc.Prelude.{
  ℕ, zero, suc, ◌+◌, ◌*◌, u64, length, ◌<◌, ◌≡◌, ◌≢◌, refl, sym, ap, subst, ◌∙◌, List, [], ◌∷◌,
  some, count, get_elem?, arith, eq→==, ne→==,
}
use smmalloc.Pool.{null}
use smmalloc.Generic.{Libc}
use smmalloc.Sizes.{Partition}
use smmalloc.Allocator.{max_valid_alignment, World, free, is_readable}
use smmalloc.CApi.{sm_malloc, sm_free}
use smmalloc.Client.Lists.{Extent, remove_at, map, map-remove_at, All}
use smmalloc.Client.Heap.{LibcSpec}
use smmalloc.Client.Runs.{IsRequest}
use smmalloc.Client.Invariant.{Inv}
use smmalloc.Client.Frees.{free-Gone}
use smmalloc.Client.Allocates.{served, refused, allocate-Answer}
use smmalloc.Bench.{HeapApi, thread_entry}
use smmalloc.Bench.Thread.{thread_entry-ends}
use smmalloc.Client.Ghost.{Entry, in_bucket, in_chunk, extent}
use smmalloc.Client.Apart.{Fits}
use smmalloc.Bench.Counts.{count-remove_at}
use smmalloc.Bench.Loops.{HeapSpec}

-- MALLOC, FREE, ON_THREAD_START and ON_THREAD_FINISHED of `sm_tcd`
abbrev pub sm_tcd : {H : Type 0} → Libc H → Partition → HeapApi (World H)
sm_tcd libc part = record {
  malloc = λ w bytes alignment. sm_malloc libc part w bytes alignment;
  free = λ w p. sm_free libc w p;
  on_thread_start = λ w. some w;
  on_thread_finished = λ w. some w;
}

pub count-other : (x z : ℕ) (xs : List ℕ) → x ≢ z → count z (x ∷ xs) ≡ count z xs
count-other x z xs ne = rw (ne→== x z ne) (omega arith)

lonely : (a : ℕ) (xs : List ℕ) → 0 ≢ count a (a ∷ xs)
lonely a xs e =
    let own : count a (a ∷ xs) ≡ 1 + count a xs = rw (eq→== a a refl) refl in omega (arith, e, own)

abbrev pub addresses : List Extent → List ℕ
addresses held = map (λ h. h.0) held

holds :
    (p : ℕ) (held : List Extent)
    → 0 < count p (addresses held)
    → (n : ℕ) × (b : ℕ) × (get_elem? held n ≡ some (p, b))
holds p [] h = absurd (omega arith)
holds p ((q, m) ∷ held) h = elim (ℕ_discrete q p) [
  | yes e ↦ (0, m, ap (λ v. some (v, m)) e)
  | no ne ↦ let (n, b, at) = holds p held (ground (arith, ne)) in (suc n, b, at)
]

addresses-get_elem? :
    (n p b : ℕ) (held : List Extent)
    → get_elem? held n ≡ some (p, b)
    → get_elem? (addresses held) n ≡ some p
addresses-get_elem? n p b [] e = ground arith
addresses-get_elem? zero p b (h ∷ held) e = ap (λ v. some v.0) (some-injective h (p, b) e)
addresses-get_elem? (suc n) p b (h ∷ held) e = addresses-get_elem? n p b held e

module _ {H : Type 0} (part : Partition) {libc : Libc H} (spec : LibcSpec libc)
    (others : List Extent) where
  -- The pointers that are not null are those of the held blocks.
  abbrev pub Same : List ℕ → List Extent → Type 0
  Same ptrs held = (z : ℕ) → z ≢ null → count z ptrs ≡ count z (addresses held)

  abbrev pub Owned : World H → List ℕ → Type 0
  Owned w ptrs =
      (held : List Extent) × Inv part spec others (record { world = w; held = held })
      × Same ptrs held

  pub mallocs :
      (w : World H) (xs : List ℕ) (bytes : ℕ)
      → IsRequest part bytes 4
      → Owned w xs
      → (p : ℕ) × (v : World H) × (sm_malloc libc part w bytes 16 ≡ some (p, v)) × Owned v (p ∷ xs)
  unfolding sm_malloc
  mallocs w xs bytes request (held, inv, same) =
      elim (allocate-Answer part spec others (record { world = w; held = held }) inv bytes 4
        request) [
          | served p v returns some_p aligned inv' keeps layout ↦
              (p, v, returns, ((p, bytes) ∷ held, inv', λ z ne. omega (arith, same z ne)))
          | refused v returns inv' keeps layout ↦ (
            null,
            v,
            returns,
            (held, inv', λ z ne. count-other 0 z xs (λ e. ne (sym e)) ∙ same z ne),
          )
        ]

  -- A pointer other than null that the program has is that of a held block.
  pub held_block :
      (xs : List ℕ) (k p : ℕ) (held : List Extent)
      → get_elem? xs k ≡ some p
      → p ≢ null
      → Same xs held
      → (n : ℕ) × (b : ℕ) × (get_elem? held n ≡ some (p, b))
        × Same (remove_at k xs) (remove_at n held)
  held_block xs k p held at some_p same =
      let own : count p (p ∷ remove_at k xs) ≡ 1 + count p (remove_at k xs) =
        rw (eq→== p p refl) refl in
      let (n, b, found) =
        holds p held (omega (arith, same p some_p, count-remove_at k p p xs at, own)) in
      (
        n,
        b,
        found,
        λ z ne. rw (map-remove_at (λ (h : Extent). h.0) n held) (
            omega (
              arith,
              same z ne,
              count-remove_at k p z xs at,
              count-remove_at n p z (addresses held) (addresses-get_elem? n p b held found),
            )),
      )

  -- A null pointer is that of none.
  pub drop_null :
      (xs : List ℕ) (k : ℕ) (held : List Extent)
      → get_elem? xs k ≡ some null
      → Same xs held
      → Same (remove_at k xs) held
  drop_null xs k held at same z ne = omega (
    arith,
    same z ne,
    count-remove_at k null z xs at,
    count-other null z (remove_at k xs) (λ e. ne (sym e)),
  )

  pub frees :
      (w : World H) (xs : List ℕ) (k p : ℕ)
      → get_elem? xs k ≡ some p
      → Owned w xs
      → (v : World H) × (sm_free libc w p ≡ some v) × Owned v (remove_at k xs)
  unfolding sm_free free is_readable
  frees w xs k p at (held, inv, same) = elim (ℕ_discrete p 0) [
    | yes is_null ↦
        (w, rw is_null refl, (held, inv, drop_null xs k held (at ∙ ap some is_null) same))
    | no some_p ↦
        let (n, b, found, same') = held_block xs k p held at some_p same in
        let gone = free-Gone part spec others (record { world = w; held = held }) inv n p b found in
        (gone.world, gone.returns, (remove_at n held, gone.inv, same'))
  ]

  abbrev pub sm_tcd_spec : HeapSpec (sm_tcd libc part) (λ bytes. IsRequest part bytes 4)
  sm_tcd_spec = record {
    Owns = Owned;
    recount = λ w xs ys same (held, inv, at). (held, inv, λ z ne. sym (same z) ∙ at z ne);
    mallocs = mallocs;
    frees = frees;
    starts = λ w owns. (w, refl, owns);
    finishes = λ w owns. (w, refl, owns);
  }

  pub none_held :
      (w : World H) (es : List Entry)
      → max_valid_alignment < w.buffer
      → All (Fits part w) es
      → Same [] (map extent es)
      → map extent es ≡ []
  none_held w [] high fits same = refl
  none_held w (in_bucket i o a b ∷ es) high fits same =
      let ne : a ≢ 0 = λ e. omega (arith, high, fits.0, e) in
      absurd (lonely a (addresses (map extent es)) (same a ne))
  none_held w (in_chunk p n a b ∷ es) high fits same =
      let ne : a ≢ 0 = λ e. omega (arith, fits.0, e) in
      absurd (lonely a (addresses (map extent es)) (same a ne))

  module _ (random_sizes : List ℕ) (some_sizes : 0 < length random_sizes)
      (valid : (j x : ℕ) → get_elem? random_sizes j ≡ some x → IsRequest part x 4)
      (n iterations : ℕ) (w : World H)
      (inv : Inv part spec others (record { world = w; held = [] })) where
    -- The benchmark's thread, on smmalloc without thread caches, for any number of allocations and
    -- of rounds, with one or more sizes that are all requests at an alignment of 16, started where
    -- the invariant holds and the program holds no block, ends: it makes `2 * n * (iterations +
    -- 1)` calls, as `opCount` says modulo `2 ^ 64`, and after it the invariant holds and the
    -- program holds no block, so that each block allocated was freed.
    pub thread_entry-sm_tcd :
        (v : World H) × (thread_entry (sm_tcd libc part) random_sizes n iterations w
          ≡ some (u64 (2 * n * (iterations + 1)), v))
        × Inv part spec others (record { world = v; held = [] })
    thread_entry-sm_tcd =
        let (v, returns, (held, inv', same)) =
          thread_entry-ends (sm_tcd libc part) (λ bytes. IsRequest part bytes 4) sm_tcd_spec
            random_sizes some_sizes valid n iterations w ([], inv, λ z ne. refl) in
        let empty : held ≡ [] =
          inv'.held
          ∙ none_held v inv'.entries inv'.sound.up.high inv'.fits
              (subst (λ h. Same [] h) inv'.held same) in
        (v, returns, subst (λ h. Inv part spec others (record { world = v; held = h })) empty inv')
