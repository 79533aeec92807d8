-- ===== src/Bench/WorkingSet/Smmalloc.antt =====
-- smmalloc as an allocator of the loop.
use native.Mathlib.Decide.{ℕ_discrete}
use smmalloc.Prelude.{
  ℕ, ◌+◌, ◌^◌, ◌<◌, ◌≤◌, ◌≡◌, refl, sym, ap, subst, ◌∙◌, ◌⊎◌, List, [], ◌∷◌, Option, none, some,
  count, get_elem?, length, length-of_counts, arith, ne→==, ◌==◌, if◌then◌else◌,
}
use smmalloc.Align.{align}
use smmalloc.Memory.{Mem, memset}
use smmalloc.Pool.{null}
use smmalloc.Generic.{Libc}
use smmalloc.Sizes.{Partition}
use smmalloc.Allocator.{World, free, is_readable}
use smmalloc.CApi.{sm_malloc, sm_free}
use smmalloc.Safety.Sound.{blocks_in}
use smmalloc.Client.Lists.{Extent, remove_at}
use smmalloc.Client.Heap.{LibcSpec}
use smmalloc.Client.Runs.{IsRequest}
use smmalloc.Client.Invariant.{Inv}
use smmalloc.Client.Frees.{free-Gone}
use smmalloc.Client.Written.{written-Inv}
use smmalloc.Client.Own.{allocate-OwnBlock}
use smmalloc.Bench.{zeroes}
use smmalloc.Bench.Counts.{length-remove_at}
use smmalloc.Bench.Smmalloc.{Same, held_block, drop_null, count-other}
use smmalloc.Bench.WorkingSet.{BenchApi, Slots, do_benchmark, new_slots}
use smmalloc.Bench.WorkingSet.Rounds.{BenchSpec}
use smmalloc.Bench.WorkingSet.Passes.{do_benchmark-Empty}

-- `memset` through null is undefined behaviour
abbrev pub fill : {H : Type 0} → World H → ℕ → ℕ → ℕ → Option (World H)
fill w p value n = if p == null then none else some (record w { mem = memset w.mem p value n })

-- `_sm_malloc` at an alignment of 1, and `_sm_free`
abbrev pub sm_api : {H : Type 0} → Libc H → Partition → BenchApi (World H)
sm_api libc part = record {
  malloc = λ w bytes. sm_malloc libc part w bytes 1;
  memset = fill;
  free = λ w p. sm_free libc w p;
}

memset-outside : (m : Mem) (p value n a : ℕ) → (a < p) ⊎ (p + n ≤ a) → memset m p value n a ≡ m a
memset-outside m p value n a h = ground (arith, h)

module _ {H : Type 0} (part : Partition) {libc : Libc H} (spec : LibcSpec libc)
    (others : List Extent) where
  -- A program that fills a block that it has just got keeps the invariant.
  fill-Inv :
      (w : World H) (p n value : ℕ) (held : List Extent)
      → Inv part spec others (record { world = w; held = (p, n) ∷ held })
      → Inv part spec others
          (record { world = record w { mem = memset w.mem p value n }; held = (p, n) ∷ held })
  fill-Inv w p n value held inv =
      written-Inv part spec others (record { world = w; held = (p, n) ∷ held })
        (memset w.mem p value n) (λ a out. memset-outside w.mem p value n a out.0) inv

  module _ (start : World H) (capacity : ℕ) where
    -- Sizes whose bucket has room for `capacity` blocks.
    abbrev pub Valid : ℕ → Type 0
    Valid bytes =
        IsRequest part bytes 0
        × (part.index_by_size (align bytes (2 ^ 0)) < start.buckets_count)
        × (capacity ≤ blocks_in part start (part.index_by_size (align bytes (2 ^ 0))))

    abbrev pub SameLayout : World H → Type 0
    SameLayout w =
        (w.buckets_count ≡ start.buckets_count)
        × (w.bucket_size_in_bytes ≡ start.bucket_size_in_bytes)

    -- The pointers other than null are those of the held blocks, each of which stands once.
    abbrev pub Owned : World H → List ℕ → Type 0
    Owned w ptrs =
        (held : List Extent) × Inv part spec others (record { world = w; held = held })
        × Same part spec others ptrs held
        × (count null ptrs + length held ≡ length ptrs)
        × SameLayout w

    pub allocates :
        (w : World H) (xs : List ℕ) (bytes : ℕ)
        → Valid bytes
        → length xs < capacity
        → Owned w xs
        → (p : ℕ) × (u : World H) × (v : World H) × (sm_malloc libc part w bytes 1 ≡ some (p, u))
          × (fill u p 33 bytes ≡ some v)
          × Owned v (p ∷ xs)
    unfolding sm_malloc
    allocates w xs bytes (request, lt, room) few (held, inv, same, nulls, layout) =
        let i = part.index_by_size (align bytes (2 ^ 0)) in
        let blocks : blocks_in part w i ≡ blocks_in part start i = rw (layout.1) refl in
        let block =
          allocate-OwnBlock part spec others (record { world = w; held = held }) inv bytes 0 request
            (omega (arith, lt, layout)) (omega (arith, few, room, nulls, blocks)) in
        let p = block.address in
        let v : World H = record block.world { mem = memset block.world.mem p 33 bytes } in
        let other : count null (p ∷ xs) ≡ count null xs =
          count-other p null xs block.some_address in
        (
          p,
          block.world,
          v,
          block.returns,
          rw (ne→== p null block.some_address) refl,
          (
            (p, bytes) ∷ held,
            fill-Inv block.world p bytes 33 held block.inv,
            λ z ne. omega (arith, same z ne),
            omega (arith, other, nulls),
            (block.layout.0 ∙ layout.0, block.layout.1 ∙ layout.1),
          ),
        )

    pub frees :
        (w : World H) (xs : List ℕ) (p : ℕ)
        → Owned w (p ∷ xs)
        → (v : World H) × (sm_free libc w p ≡ some v) × Owned v xs
    unfolding sm_free free is_readable
    frees w xs p (held, inv, same, nulls, layout) = elim (ℕ_discrete p 0) [
      | yes is_null ↦ (
        w,
        rw is_null refl,
        (
          held,
          inv,
          drop_null part spec others (p ∷ xs) 0 held (ap some is_null) same,
          subst
              (λ q.
                count null (q ∷ xs) + length held ≡ length (q ∷ xs)
                → count null xs + length held ≡ length xs)
              (sym is_null) (λ e. omega (arith, e)) nulls,
          layout,
        ),
      )
      | no some_p ↦
          let (n, b, found, same') =
            held_block part spec others (p ∷ xs) 0 p held refl some_p same in
          let gone =
            free-Gone part spec others (record { world = w; held = held }) inv n p b found in
          let other = count-other p null xs some_p in
          (
            gone.world,
            gone.returns,
            (
              remove_at n held,
              gone.inv,
              same',
              omega (arith, nulls, other, length-remove_at n (p, b) held found),
              (gone.layout.0 ∙ layout.0, gone.layout.1 ∙ layout.1),
            ),
          )
    ]

    abbrev pub sm_spec : BenchSpec (sm_api libc part) Valid capacity
    sm_spec = record {
      Owns = Owned;
      recount = λ w xs ys same (held, inv, at, nulls, layout). (
        held,
        inv,
        λ z ne. sym (same z) ∙ at z ne,
        omega (arith, nulls, same null, length-of_counts xs [] ys (λ z. omega (arith, same z))),
        layout,
      );
      adds_null = λ w xs (held, inv, at, nulls, layout). (
        held,
        inv,
        λ z ne. count-other null z xs (λ e. ne (sym e)) ∙ at z ne,
        omega (arith, nulls),
        layout,
      );
      drops_null = λ w xs (held, inv, at, nulls, layout). (
        held,
        inv,
        drop_null part spec others (null ∷ xs) 0 held refl at,
        omega (arith, nulls),
        layout,
      );
      allocates = allocates;
      frees = frees;
    }

  module _ (w : World H) (inv : Inv part spec others (record { world = w; held = [] })) (n : ℕ)
      (some_slots : 0 < n) (random_sequence : List ℕ)
      (valid : (j x : ℕ) → get_elem? random_sequence j ≡ some x → Valid w n x)
      (no_wrap : n + length random_sequence < 2 ^ 64) (rounds : ℕ) where
    empty : (held : List Extent) → 0 + length held ≡ 0 → held ≡ []
    empty [] e = refl
    empty (h ∷ held) e = absurd (omega (arith, e))

    -- working set
    pub do_benchmark-sm :
        (t : Slots (World H)) × (do_benchmark
            (sm_api libc part)
            random_sequence
            n
            rounds
            (new_slots n w)
          ≡ some t)
        × (t.working_set ≡ zeroes n)
        × Inv part spec others (record { world = t.world; held = [] })
    do_benchmark-sm =
        let (t, returns, (empty_set, (held, inv', same, nulls, layout))) =
          do_benchmark-Empty (sm_api libc part) (Valid w n) n (sm_spec w n) random_sequence valid
            some_slots no_wrap rounds w ([], inv, λ z ne. refl, refl, (refl, refl)) in
        (
          t,
          returns,
          empty_set,
          subst (λ h. Inv part spec others (record { world = t.world; held = h }))
              (empty held nulls) inv',
        )
