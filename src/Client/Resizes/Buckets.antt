-- ===== src/Client/Resizes/Buckets.antt =====
-- `Realloc` of a block of a bucket.
use native.Mathlib.Decide.{ℕ_discrete}
use smmalloc.Prelude.{
  ℕ, ◌^◌, ◌<◌, ◌≤◌, ◌≡◌, refl, subst, sym, ap, ◌∙◌, inl, inr, true, Option, some, List, ◌∷◌,
  get_elem?, count, arith, leb, leb→le, le→leb, lt→leb, lt→ltb, eq→==, ne→==, Bool-cases,
}
use smmalloc.Pool.{null}
use smmalloc.Generic.{Libc}
use smmalloc.Sizes.{Partition}
use smmalloc.Allocator.{World, realloc, realloc_in_bucket, move_bytes, is_readable}
use smmalloc.Client.Lists.{Extent, remove_at, map-remove_at, All-get_elem?, All-remove_at}
use smmalloc.Client.Heap.{LibcSpec}
use smmalloc.Client.Runs.{Client, IsRequest}
use smmalloc.Client.Ghost.{
  Entry, in_bucket, extent, lent_of, lent_of-remove_at, lent_of-remove_at_other,
  taken-remove_at_bucket,
}
use smmalloc.Client.Apart.{Fits}
use smmalloc.Client.Invariant.{Inv, IsSound-recount}
use smmalloc.Client.Allocates.{served, refused, allocate-Answer}
use smmalloc.Client.Covers.{find_bucket-in_bucket}
use smmalloc.Client.Resizes.{Reallocated, resized, unchanged}
use smmalloc.Client.Resizes.Carries.{carried-Gone, carried-Keeps, carried-bytes}

module _ {H : Type 0} (part : Partition) {libc : Libc H} (spec : LibcSpec libc)
    (others : List Extent) (c : Client H) (inv : Inv part spec others c) (n bytes k : ℕ)
    (request : IsRequest part bytes k) where
  abbrev Outcome : ℕ → ℕ → Option (ℕ × World H) → Type 0
  Outcome p m out = Reallocated part spec others c n p m bytes k out

  module _ (i o p m : ℕ) (place : get_elem? inv.entries n ≡ some (in_bucket i o p m))
      (at : get_elem? c.held n ≡ some (p, m)) where
    fits : Fits part c.world (in_bucket i o p m)
    fits = All-get_elem? (Fits part c.world) n inv.entries (in_bucket i o p m) inv.fits place

    readable : is_readable p ≡ true
    unfolding is_readable
    readable = lt→ltb 4096 p (omega (arith, fits, inv.sound.up))

    to_bucket :
        realloc libc part c.world p bytes (2 ^ k)
        ≡ realloc_in_bucket libc part c.world p bytes (2 ^ k) i
    unfolding realloc
    to_bucket =
        rw
          (
            readable,
            ne→== bytes 0 (omega (arith, request.some_bytes)),
            find_bucket-in_bucket part spec others c inv n i o p m place fits,
            lt→ltb i c.world.buckets_count fits.0,
          )
          refl

    -- The block is held for `bytes` bytes instead.
    abbrev entries : List Entry
    entries = in_bucket i o p bytes ∷ remove_at n inv.entries

    lent_same : (j z : ℕ) → count z (lent_of inv.entries j) ≡ count z (lent_of entries j)
    lent_same j z = elim (ℕ_discrete i j) [
      | yes e ↦
          subst (λ v. count z (lent_of inv.entries v) ≡ count z (lent_of entries v)) e
            (rw (eq→== i i refl) (lent_of-remove_at n inv.entries i o p m z place))
      | no ne ↦ rw (ne→== i j ne) (lent_of-remove_at_other n inv.entries i o p m j z place ne)
    ]

    reused :
        bytes ≤ part.size_by_index i
        → Inv part spec others (record { world = c.world; held = (p, bytes) ∷ remove_at n c.held })
    reused small = record {
      free = inv.free;
      entries = entries;
      held =
          ap (λ h. (p, bytes) ∷ h)
            (ap (remove_at n) inv.held ∙ sym (map-remove_at extent n inv.entries));
      sound =
          IsSound-recount part c.world inv.free (lent_of inv.entries) (lent_of entries) lent_same
            inv.sound;
      fits = ((fits.0, fits.1, small), All-remove_at (Fits part c.world) n inv.entries inv.fits);
      owns = rw (taken-remove_at_bucket others n inv.entries i o p m place) inv.owns;
      clear = rw (taken-remove_at_bucket others n inv.entries i o p m place) inv.clear;
      home = inv.home;
    }

    in_place :
        bytes ≤ part.size_by_index i
        → Outcome p m (realloc_in_bucket libc part c.world p bytes (2 ^ k) i)
    unfolding realloc_in_bucket
    in_place small =
        resized p c.world (rw (le→leb bytes (part.size_by_index i) small) refl)
          (omega (arith, fits, inv.sound.up)) (inl refl) (reused small)
          (λ l q b a found lo hi. refl) (λ j within lt. refl)

    elsewhere :
        part.size_by_index i < bytes
        → Outcome p m (realloc_in_bucket libc part c.world p bytes (2 ^ k) i)
    unfolding realloc_in_bucket move_bytes
    elsewhere large = elim (allocate-Answer part spec others c inv bytes k request) [
      | served q w got some_q aligned inv' keeps layout ↦
          let few : part.size_by_index i ≤ bytes = omega (arith, large) in
          let gone =
            carried-Gone part spec others c n p m at bytes q w inv' keeps (part.size_by_index i)
              few in
          resized q gone.world
            (rw
              (
                lt→leb bytes (part.size_by_index i) large,
                got,
                ne→== q null some_q,
                readable,
                gone.returns,
              )
              refl)
            some_q (inr aligned) gone.inv
            (carried-Keeps part spec others c n p m at bytes q w inv' keeps (part.size_by_index i)
              few)
            (λ j within lt.
              carried-bytes part spec others c n p m at bytes q w inv' keeps (part.size_by_index i)
                few j within (omega (arith, within, fits)))
      | refused w got inv' keeps layout ↦
          unchanged w (rw (lt→leb bytes (part.size_by_index i) large, got) refl) inv' keeps
    ]

    pub from_bucket : Outcome p m (realloc libc part c.world p bytes (2 ^ k))
    from_bucket =
        subst (Outcome p m) (sym to_bucket) (elim (Bool-cases (leb bytes (part.size_by_index i))) [
          | inl small ↦ in_place (leb→le bytes (part.size_by_index i) small)
          | inr large ↦ elsewhere (ground (arith, large))
        ])
