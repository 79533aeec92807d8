-- ===== src/Client/Resizes/Chunks.antt =====
-- `Realloc` of a block of the generic allocator.
use mathlib.Core.Option.{some-injective}
use smmalloc.Prelude.{
  ℕ, suc, ◌%◌, ◌^◌, ◌≤◌, ◌≡◌, ◌≢◌, refl, sym, ap, ◌∙◌, inr, true, Option, some, List, ◌∷◌,
  get_elem?, arith, min, lt→ltb, le→ltb, ne→==,
}
use smmalloc.Pool.{null}
use smmalloc.Generic.{Libc, Machine, get_usable_space}
use smmalloc.Generic
use smmalloc.Sizes.{Partition}
use smmalloc.Allocator.{
  World, free, realloc, realloc_generic, is_readable, find_bucket, machine, with_machine,
  get_usable_size,
}
use smmalloc.Safety.Find.{find_bucket-outside}
use smmalloc.Safety.Layout.{IsSetUp}
use smmalloc.Safety.Routing.{SameLayout}
use smmalloc.Client.Lists.{Extent, All-get_elem?}
use smmalloc.Client.Heap.{LibcSpec}
use smmalloc.Client.Runs.{Client, IsRequest}
use smmalloc.Client.Ghost.{in_chunk}
use smmalloc.Client.Apart.{Fits}
use smmalloc.Client.Invariant.{Inv}
use smmalloc.Client.Frees.{Keeps}
use smmalloc.Client.Covers.{Inv-Covers}
use smmalloc.Client.Resizes.{Reallocated, resized}
use smmalloc.Client.Resizes.Carries.{
  carried, carried-Inv, carried-Gone, carried-Keeps, carried-bytes,
}

module _ {H : Type 0} (part : Partition) {libc : Libc H} (spec : LibcSpec libc)
    (others : List Extent) (c : Client H) (inv : Inv part spec others c) (n bytes k : ℕ)
    (request : IsRequest part bytes k) (from l p m : ℕ)
    (place : get_elem? inv.entries n ≡ some (in_chunk from l p m))
    (at : get_elem? c.held n ≡ some (p, m)) where
  abbrev pub Outcome : Option (ℕ × World H) → Type 0
  Outcome out = Reallocated part spec others c n p m bytes k out

  pub fits : Fits part c.world (in_chunk from l p m)
  fits = All-get_elem? (Fits part c.world) n inv.entries (in_chunk from l p m) inv.fits place

  pub readable : is_readable p ≡ true
  unfolding is_readable
  readable = lt→ltb 4096 p (omega (arith, fits))

  -- In every world of the same layout, the block is of no bucket.
  outside :
      (v : World H)
      → IsSetUp v
      → SameLayout c.world v
      → (i : ℕ) × (find_bucket v p ≡ some i) × (v.buckets_count ≤ i)
  outside v up layout =
      find_bucket-outside up p (omega (arith, fits))
        (rw (layout.0, layout.1, layout.2) (ground (arith, fits)))

  pub to_generic :
      realloc libc part c.world p bytes (2 ^ k) ≡ realloc_generic libc part c.world p bytes (2 ^ k)
  unfolding realloc
  to_generic =
      let (i, found, beyond) = outside c.world inv.sound.up (refl, refl, refl) in
      rw
        (
          readable,
          ne→== bytes 0 (omega (arith, request.some_bytes)),
          found,
          le→ltb i c.world.buckets_count beyond,
        )
        refl

  free_generic :
      (v : World H)
      → IsSetUp v
      → SameLayout c.world v
      → free libc v p ≡ some (with_machine v (Generic.free libc (machine v) p))
  unfolding free
  free_generic v up layout =
      let (i, found, beyond) = outside v up layout in
      rw (readable, found, le→ltb i v.buckets_count beyond) refl

  module _ (q : ℕ) (w : World H)
      (inv' : Inv part spec others (record { world = w; held = (q, bytes) ∷ c.held }))
      (keeps : Keeps c.world w c.held) (layout : SameLayout c.world w) where
    usable : m ≤ get_usable_space libc (machine w) p
    unfolding get_usable_size
    usable =
        let (i, found, beyond) = outside w inv'.sound.up layout in
        let (u, at_least, covers) =
          Inv-Covers part spec others (record { world = w; held = (q, bytes) ∷ c.held }) inv'
            (suc n) p m at in
        let same : some (get_usable_space libc (machine w) p) ≡ some u =
          rw (← at_least, readable, found, le→ltb i w.buckets_count beyond) refl in
        let size = some-injective (get_usable_space libc (machine w) p) u same in
        omega (arith, size, covers)

    abbrev pub moved : ℕ
    moved = min (get_usable_space libc (machine w) p) bytes

    pub few : moved ≤ bytes
    few = omega arith

    abbrev pub after : World H
    after = carried part spec others c n p m at bytes q w inv' keeps moved few

    pub freed-Outcome :
        (out : Option (ℕ × World H))
        → out ≡ some (q, with_machine after (Generic.free libc (machine after) p))
        → q ≢ null
        → q % 2 ^ k ≡ 0
        → Outcome out
    freed-Outcome out returns some_q aligned =
        let gone = carried-Gone part spec others c n p m at bytes q w inv' keeps moved few in
        let after_up =
          (carried-Inv part spec others c n p m at bytes q w inv' keeps moved few).sound.up in
        let same : with_machine after (Generic.free libc (machine after) p) ≡ gone.world =
          some-injective (with_machine after (Generic.free libc (machine after) p)) gone.world
            (sym (free_generic after after_up layout) ∙ gone.returns) in
        resized q gone.world (returns ∙ ap (λ v. some (q, v)) same) some_q (inr aligned) gone.inv
          (carried-Keeps part spec others c n p m at bytes q w inv' keeps moved few)
          (λ j within lt.
            carried-bytes part spec others c n p m at bytes q w inv' keeps moved few j within
              (omega (arith, within, lt, usable)))
