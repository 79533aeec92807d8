-- ===== src/Client/Resizes/Answers.antt =====
-- `Realloc` as a whole.
use mathlib.Core.Option.{some-injective}
use smmalloc.Prelude.{
  ℕ, ◌+◌, ◌^◌, ◌<◌, ◌≤◌, ◌≡◌, ◌≢◌, refl, subst, sym, ap, ◌∙◌, inl, inr, true, false, Option, some,
  List, get_elem?, arith, lt→ltb, le→ltb, ne→==, Bool-cases, ltb, ltb→lt, ltb→le,
}
use smmalloc.Align.{align}
use smmalloc.Pool.{null}
use smmalloc.Generic.{Libc, Machine, get_usable_space}
use smmalloc.Generic
use smmalloc.Sizes.{Partition}
use smmalloc.Allocator.{World, realloc, realloc_generic, move_bytes, machine, with_machine}
use smmalloc.Safety.Routing.{routed-Allocated}
use smmalloc.Client.Lists.{Extent, get_elem?-map}
use smmalloc.Generic.Block.{grain}
use smmalloc.Client.Heap.{LibcSpec}
use smmalloc.Client.Runs.{Client, IsRequest}
use smmalloc.Client.Ghost.{Entry, in_bucket, in_chunk, extent, lent_of}
use smmalloc.Client.Invariant.{Inv}
use smmalloc.Client.Allocates.{Answer, served, refused, allocate-Answer, by_place, IsMalloc-of}
use smmalloc.Client.Resizes.{Reallocated, unchanged, lost}
use smmalloc.Client.Resizes.Buckets.{from_bucket}
use smmalloc.Client.Resizes.Chunks.{readable, to_generic, freed-Outcome, after, fits}

module _ {H : Type 0} (part : Partition) {libc : Libc H} (spec : LibcSpec libc)
    (others : List Extent) (c : Client H) (inv : Inv part spec others c) (n bytes k : ℕ)
    (request : IsRequest part bytes k) where
  -- `GenericAllocator::Alloc` on its own
  abbrev made : ℕ × World H
  made =
      let (q, s) = Generic.alloc libc (machine c.world) bytes (2 ^ k) in (q, with_machine c.world s)

  abbrev generic : Option (ℕ × World H)
  generic = some made

  generic-Answer : Answer part spec others c bytes k generic
  generic-Answer = by_place part spec others c inv bytes k request generic (
      routed-Allocated part libc false bytes k request.some_bytes request.at_most_4096 request.exact
        request.fits inv.free (lent_of inv.entries) true c.world c.world inv.sound (refl, refl)
        (refl, refl, refl)
        (IsMalloc-of part spec others c inv bytes k request
          (libc.malloc c.world.heap (bytes + (2 ^ grain k + 15)))
          (spec.mallocs c.world.heap _ (bytes + (2 ^ grain k + 15)) inv.owns)))

  module _ (from l p m : ℕ) (place : get_elem? inv.entries n ≡ some (in_chunk from l p m))
      (at : get_elem? c.held n ≡ some (p, m)) where
    abbrev Outcome : Option (ℕ × World H) → Type 0
    Outcome out = Reallocated part spec others c n p m bytes k out

    -- the new block is for a bucket
    into_bucket :
        part.index_by_size (align bytes (2 ^ k)) < c.world.buckets_count
        → Outcome (realloc_generic libc part c.world p bytes (2 ^ k))
    unfolding realloc_generic move_bytes
    into_bucket lt =
        let chosen = lt→ltb (part.index_by_size (align bytes (2 ^ k))) c.world.buckets_count lt in
        let can_read = readable part spec others c inv n bytes k request from l p m place at in
        elim (allocate-Answer part spec others c inv bytes k request) [
          | served q w got some_q aligned inv' keeps layout ↦
              freed-Outcome part spec others c inv n bytes k request from l p m place at q w inv'
                keeps layout (realloc_generic libc part c.world p bytes (2 ^ k))
                (rw (chosen, got, can_read, ne→== q null some_q) refl) some_q aligned
          | refused w got inv' keeps layout ↦ lost w got lt (rw (chosen, got, can_read) refl)
        ]

    -- the new block is for the generic allocator, too
    stays_generic :
        c.world.buckets_count ≤ part.index_by_size (align bytes (2 ^ k))
        → Outcome (realloc_generic libc part c.world p bytes (2 ^ k))
    unfolding realloc_generic Generic.realloc
    stays_generic le =
        let chosen = le→ltb (part.index_by_size (align bytes (2 ^ k))) c.world.buckets_count le in
        elim generic-Answer [
          | served q w got some_q aligned inv' keeps layout ↦
              let s' =
                after part spec others c inv n bytes k request from l p m place at q w inv' keeps
                  layout in
              let freed = Generic.free libc (machine s') p in
              freed-Outcome part spec others c inv n bytes k request from l p m place at q w inv'
                keeps layout (realloc_generic libc part c.world p bytes (2 ^ k))
                (rw (chosen, alloc-pair q w got, ne→== q null some_q, ne→== p null some_p)
                  (ap (λ v. some (q, with_machine v freed)) (same_world q w got)))
                some_q aligned
          | refused w got inv' keeps layout ↦
              unchanged w
                (rw (chosen, alloc-pair null w got)
                  (ap (λ v. some (null, v)) (same_world null w got)))
                inv' keeps
        ]
      where
        pair : (q : ℕ) (w : World H) → generic ≡ some (q, w) → made ≡ (q, w)
        pair q w got = some-injective made (q, w) got

        alloc-pair :
            (q : ℕ) (w : World H)
            → generic ≡ some (q, w)
            → Generic.alloc libc (machine c.world) bytes (2 ^ k) ≡ (q, machine w)
        alloc-pair q w got = ap (λ v. (v.0, machine v.1)) (pair q w got)

        same_world :
            (q : ℕ) (w : World H) → generic ≡ some (q, w) → with_machine c.world (machine w) ≡ w
        same_world q w got =
            sym (ap (λ v. with_machine c.world (machine v.1)) (pair q w got))
            ∙ ap (λ v. v.1) (pair q w got)

        some_p : p ≢ null
        some_p e =
            omega (arith, e, fits part spec others c inv n bytes k request from l p m place at)

  -- `Realloc` of the `n`-th held block, be it of a bucket or of the generic allocator, for a
  -- request in a state where the invariant holds, ends in one of three ways. It returns an address
  -- other than null, the old one or one of the alignment asked for, which is held for the new size
  -- in place of the old block, with the old bytes, as many as both sizes have; or null, with the
  -- old block held as before. In both cases the invariant holds and the bytes of the other held
  -- blocks have not changed. Or, if the scheme gives a bucket of the allocator for the new size
  -- and `Allocate` returns null, it moves bytes to null, which is undefined behaviour. A request
  -- is for one byte or more, at an alignment up to 4096 that is a power of two, at sizes that
  -- neither the scheme nor the added header overflows.
  pub realloc-Reallocated :
      (p m : ℕ)
      → get_elem? c.held n ≡ some (p, m)
      → Reallocated part spec others c n p m bytes k (realloc libc part c.world p bytes (2 ^ k))
  realloc-Reallocated p m at =
      let (y, place, e) =
        get_elem?-map extent n inv.entries (p, m)
          (subst (λ h. get_elem? h n ≡ some (p, m)) inv.held at) in
      by_entry y place e at
    where
      from_chunk :
          (a l q r : ℕ)
          → get_elem? inv.entries n ≡ some (in_chunk a l q r)
          → get_elem? c.held n ≡ some (q, r)
          → Reallocated part spec others c n q r bytes k (realloc libc part c.world q bytes (2 ^ k))
      from_chunk a l q r place at =
          subst (Reallocated part spec others c n q r bytes k)
            (sym (to_generic part spec others c inv n bytes k request a l q r place at))
            (elim (Bool-cases
              (ltb (part.index_by_size (align bytes (2 ^ k))) c.world.buckets_count)) [
                | inl lt ↦
                    into_bucket a l q r place at
                      (ltb→lt (part.index_by_size (align bytes (2 ^ k))) c.world.buckets_count lt)
                | inr le ↦
                    stays_generic a l q r place at
                      (ltb→le (part.index_by_size (align bytes (2 ^ k))) c.world.buckets_count le)
              ])

      by_entry :
          (y : Entry)
          → get_elem? inv.entries n ≡ some y
          → extent y ≡ (p, m)
          → get_elem? c.held n ≡ some (p, m)
          → Reallocated part spec others c n p m bytes k (realloc libc part c.world p bytes (2 ^ k))
      by_entry (in_bucket i o q r) place e =
          subst
            (λ v.
              get_elem? c.held n ≡ some v
              → Reallocated part spec others c n v.0 v.1 bytes k
                  (realloc libc part c.world v.0 bytes (2 ^ k)))
            e (λ at. from_bucket part spec others c inv n bytes k request i o q r place at)
      by_entry (in_chunk a l q r) place e =
          subst
            (λ v.
              get_elem? c.held n ≡ some v
              → Reallocated part spec others c n v.0 v.1 bytes k
                  (realloc libc part c.world v.0 bytes (2 ^ k)))
            e (λ at. from_chunk a l q r place at)
