-- ===== src/Client/Members.antt =====
-- Which bucket a held block is of, and how many held blocks a bucket can have.
use mathlib.Core.Option.{some-injective, none-ne-some}
use smmalloc.Prelude.{
  ℕ, suc, ◌+◌, ◌*◌, ◌<◌, ◌≤◌, ◌≡◌, refl, subst, sym, ap, ◌∙◌, inl, inr, Option, none, some, List,
  [], ◌∷◌, get_elem?, length, length-le_of_counts, arith, le→leb, lt→leb, Bool-cases, eq→==,
}
use smmalloc.Pool.{null}
use smmalloc.Pool.Blocks.{blocks}
use smmalloc.Generic.{Libc}
use smmalloc.Sizes.{Partition}
use smmalloc.Allocator.{get_bucket_index, is_my_alloc}
use smmalloc.Safety.Sound.{blocks_in, size_ge_16}
use smmalloc.Safety.Find.{find_bucket-outside}
use smmalloc.Safety.Own.{length-blocks}
use smmalloc.Client.Lists.{Extent, All, All-of, All-get_elem?, get_elem?-of_map}
use smmalloc.Client.Heap.{LibcSpec}
use smmalloc.Client.Runs.{Client}
use smmalloc.Client.Ghost.{Entry, in_bucket, in_chunk, extent, lent_of, lent_of-get_elem?}
use smmalloc.Client.Apart.{Fits, inside}
use smmalloc.Client.Invariant.{Inv, Lends-of}
use smmalloc.Client.Own.{get_bucket_index-inside, length-map}

abbrev pub bucket_of : Entry → Option ℕ
bucket_of (in_bucket i o a b) = some i
bucket_of (in_chunk p n a b) = none

length-lent_of :
    (i : ℕ) (es : List Entry)
    → All (λ y. bucket_of y ≡ some i) es
    → length (lent_of es i) ≡ length es
length-lent_of i [] all = refl
length-lent_of i (in_bucket j o a b ∷ es) all =
    rw (eq→== j i (some-injective j i all.0)) (ap suc (length-lent_of i es all.1))
length-lent_of i (in_chunk p n a b ∷ es) all = absurd (none-ne-some i all.0)

module _ {H : Type 0} (part : Partition) {libc : Libc H} (spec : LibcSpec libc)
    (others : List Extent) (c : Client H) (inv : Inv part spec others c) where
  -- `GetBucketIndex` of a held block
  pub get_bucket_index-entry :
      (n : ℕ) (y : Entry)
      → get_elem? inv.entries n ≡ some y
      → get_bucket_index c.world (extent y).0 ≡ some (bucket_of y)
  unfolding get_bucket_index
  get_bucket_index-entry n (in_bucket i o a b) at =
      let fits = All-get_elem? (Fits part c.world) n inv.entries (in_bucket i o a b) inv.fits at in
      let lent = lent_of-get_elem? n inv.entries i o a b at in
      let all = Lends-of part c.world inv.free inv.entries inv.sound i o fits.0 in
      let place : a ≡ c.world.buffer + (i * c.world.bucket_size_in_bytes + o) =
        omega (arith, fits) in
      let within : o < c.world.bucket_size_in_bytes = omega (
        arith,
        inside part inv.sound i o fits.0 (omega (arith, lent, all)),
        size_ge_16 part inv.sound i fits.0,
      ) in
      ap (get_bucket_index c.world) place ∙ get_bucket_index-inside inv.sound.up i o fits.0 within
  get_bucket_index-entry n (in_chunk p m a b) at =
      let fits = All-get_elem? (Fits part c.world) n inv.entries (in_chunk p m a b) inv.fits at in
      let (i, found, beyond) =
        find_bucket-outside inv.sound.up a (omega (arith, fits)) (ground (arith, fits)) in
      elim (Bool-cases (is_my_alloc c.world a)) [
        | inl mine ↦ rw (mine, found, le→leb c.world.buckets_count i beyond) refl
        | inr other ↦ rw other refl
      ]

  pub get_bucket_index-null : get_bucket_index c.world null ≡ some none
  unfolding get_bucket_index is_my_alloc
  get_bucket_index-null = rw (lt→leb c.world.buffer 0 (omega (arith, inv.sound.up))) refl

  -- If all held blocks are of one bucket, they are no more than it has.
  pub held-le :
      (i : ℕ)
      → i < c.world.buckets_count
      → ((n p b : ℕ)
          → get_elem? c.held n ≡ some (p, b)
          → get_bucket_index c.world p ≡ some (some i))
      → length c.held ≤ blocks_in part c.world i
  held-le i lt own =
      let all : All (λ y. bucket_of y ≡ some i) inv.entries =
        All-of (λ y. bucket_of y ≡ some i) inv.entries
          (λ n y at. some-injective (bucket_of y) (some i) (
            sym (get_bucket_index-entry n y at)
            ∙ own n (extent y).0 (extent y).1 (
                subst (λ h. get_elem? h n ≡ some (extent y)) (sym inv.held)
                  (get_elem?-of_map extent n inv.entries y at)))) in
      let less =
        length-le_of_counts (lent_of inv.entries i)
          (blocks (part.size_by_index i) 0 (blocks_in part c.world i))
          (λ z. Lends-of part c.world inv.free inv.entries inv.sound i z lt) in
      omega (
        arith,
        less,
        length-lent_of i inv.entries all,
        ap length inv.held,
        length-map inv.entries,
        length-blocks (part.size_by_index i) 0 (blocks_in part c.world i),
      )
