-- ===== src/Client/Covers.antt =====
-- `FindBucket` and `GetUsableSize` of a held block.
use smmalloc.Prelude.{
  ℕ, ◌+◌, ◌-◌, ◌*◌, ◌<◌, ◌≤◌, ◌≡◌, refl, subst, ap, ◌∙◌, some, List, get_elem?, arith, lt→ltb,
  le→ltb, ne→==, sub64, u64,
}
use smmalloc.Generic.{Libc, get_usable_space}
use smmalloc.Sizes.{Partition}
use smmalloc.Allocator.{get_usable_size, is_readable, find_bucket, machine}
use smmalloc.Safety.Find.{find_bucket-outside, find_bucket-inside}
use smmalloc.Safety.Sound.{size_ge_16}
use smmalloc.Client.Lists.{Extent, All-get_elem?, get_elem?-map}
use smmalloc.Client.Heap.{LibcSpec}
use smmalloc.Client.Runs.{Client}
use smmalloc.Client.Ghost.{Entry, in_bucket, in_chunk, extent, lent_of-get_elem?}
use smmalloc.Client.Apart.{Fits, inside}
use smmalloc.Client.Invariant.{Inv, Lends-of}

module _ {H : Type 0} (part : Partition) {libc : Libc H} (spec : LibcSpec libc)
    (others : List Extent) (c : Client H) (inv : Inv part spec others c) where
  abbrev Covers : Extent → Type 0
  Covers (a, b) = (m : ℕ) × (get_usable_size part libc c.world a ≡ some m) × (b ≤ m)

  -- `FindBucket` of a held block of a bucket.
  pub find_bucket-in_bucket :
      (n i o a b : ℕ)
      → get_elem? inv.entries n ≡ some (in_bucket i o a b)
      → Fits part c.world (in_bucket i o a b)
      → find_bucket c.world a ≡ some i
  find_bucket-in_bucket n i o a b at fits =
      let lent = lent_of-get_elem? n inv.entries i o a b at in
      let all = Lends-of part c.world inv.free inv.entries inv.sound i o fits.0 in
      let place : a ≡ c.world.buffer + (i * c.world.bucket_size_in_bytes + o) =
        omega (arith, fits) in
      let within : o < c.world.bucket_size_in_bytes = omega (
        arith,
        inside part inv.sound i o fits.0 (omega (arith, lent, all)),
        size_ge_16 part inv.sound i fits.0,
      ) in
      ap (find_bucket c.world) place ∙ find_bucket-inside inv.sound.up i o fits.0 within

  entry-Covers :
      (n : ℕ) (y : Entry)
      → get_elem? inv.entries n ≡ some y
      → Fits part c.world y
      → Covers (extent y)
  unfolding get_usable_size is_readable
  entry-Covers n (in_bucket i o a b) at fits = (
    part.size_by_index i,
    rw
        (
          lt→ltb 4096 a (omega (arith, fits, inv.sound.up)),
          find_bucket-in_bucket n i o a b at fits,
          lt→ltb i c.world.buckets_count fits.0,
        )
        refl,
    fits.2,
  )
  entry-Covers n (in_chunk p m a b) at fits =
      let (i, found, beyond) =
        find_bucket-outside inv.sound.up a (omega (arith, fits)) (ground (arith, fits)) in
      let word : u64 (sub64 a 16 + 8) ≡ a - 16 + 8 = omega (arith, fits) in
      let usable : get_usable_space libc (machine c.world) a ≡ b =
        unfold get_usable_space in rw (ne→== a 0 (omega (arith, fits)), word) fits.7 in
      (
        b,
        rw
            (
              lt→ltb 4096 a (omega (arith, fits)),
              found,
              le→ltb i c.world.buckets_count beyond,
              usable,
            )
            refl,
        omega arith,
      )

  pub Inv-Covers : (n a b : ℕ) → get_elem? c.held n ≡ some (a, b) → Covers (a, b)
  Inv-Covers n a b at =
      let (y, place, e) =
        get_elem?-map extent n inv.entries (a, b)
          (subst (λ h. get_elem? h n ≡ some (a, b)) inv.held at) in
      subst Covers e
        (entry-Covers n y place (All-get_elem? (Fits part c.world) n inv.entries y inv.fits place))
