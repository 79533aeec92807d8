-- ===== src/Client/Outside.antt =====
-- What lies in no held block: the headers of the blocks of `malloc`, and the links of the free ones.
use mathlib.Core.Option.{some-injective}
use smmalloc.Prelude.{
  ℕ, zero, suc, ◌+◌, ◌<◌, ◌≤◌, ◌≡◌, subst, sym, inl, some, List, [], ◌∷◌, get_elem?, count, arith,
}
use smmalloc.Pool.Blocks.{blocks}
use smmalloc.Sizes.{Partition}
use smmalloc.Allocator.{World}
use smmalloc.Safety.Sound.{IsSound, base_of, blocks_in, stretch_fits}
use smmalloc.Client.Lists.{
  map, Clear, AllClear, All, All-get_elem?, Clear-get_elem?, get_elem?-of_map,
}
use smmalloc.Client.Runs.{Outside}
use smmalloc.Client.Ghost.{Entry, in_bucket, in_chunk, extent, lent_of}
use smmalloc.Client.Apart.{Fits, region, Lends, inside, two_blocks, lent_at, Lends-tail}

module _ {H : Type 0} (part : Partition) (w : World H) where
  pub extent-region :
      (y : Entry)
      → Fits part w y
      → ((region part y).0 ≤ (extent y).0)
        × ((extent y).0 + (extent y).1 ≤ (region part y).0 + (region part y).1)
  extent-region (in_bucket i o a b) fits = omega (arith, fits)
  extent-region (in_chunk p n a b) fits = omega (arith, fits)

  -- An address in a region that is clear of the other blocks' regions is outside those blocks.
  Outside-Clear :
      (p n x : ℕ) (es : List Entry)
      → p ≤ x
      → x < p + n
      → Clear p n (map (region part) es)
      → All (Fits part w) es
      → Outside x (map extent es)
  Outside-Clear p n x [] lo hi clear fits = tt
  Outside-Clear p n x (in_bucket i o a b ∷ es) lo hi clear fits =
      (ground (arith, clear.0, fits.0), Outside-Clear p n x es lo hi clear.1 fits.1)
  Outside-Clear p n x (in_chunk q m a b ∷ es) lo hi clear fits =
      (ground (arith, clear.0, fits.0), Outside-Clear p n x es lo hi clear.1 fits.1)

  -- The bytes between where a block of `malloc` begins and the held block are in no held block.
  pub header-Outside :
      (k p n a b x : ℕ) (es : List Entry)
      → AllClear (map (region part) es)
      → All (Fits part w) es
      → get_elem? es k ≡ some (in_chunk p n a b)
      → p ≤ x
      → x < a
      → Outside x (map extent es)
  header-Outside k p n a b x [] clear fits e lo hi = tt
  header-Outside zero p n a b x (y ∷ es) clear fits e lo hi =
      subst
        (λ v.
          Fits part w v
          → Clear (region part v).0 (region part v).1 (map (region part) es)
          → Outside x (map extent (v ∷ es)))
        (sym (some-injective y (in_chunk p n a b) e))
        (λ f c. (inl hi, Outside-Clear p n x es lo (omega (arith, f, hi)) c fits.1)) fits.0 clear.0
  header-Outside (suc k) p n a b x (y ∷ es) clear fits e lo hi = (
    let apart =
          Clear-get_elem? k (region part y).0 (region part y).1 p n (map (region part) es) clear.0
            (get_elem?-of_map (region part) k es (in_chunk p n a b) e) in
        let found = All-get_elem? (Fits part w) k es (in_chunk p n a b) fits.1 e in
        ground (arith, apart, found, extent-region y fits.0, lo, hi),
    header-Outside k p n a b x es clear.1 fits.1 e lo hi,
  )

module _ {H : Type 0} (part : Partition) {w : World H} {free lent : ℕ → List ℕ}
    (sound : IsSound part w free lent) where
  abbrev blocks_at : ℕ → List ℕ
  blocks_at i = blocks (part.size_by_index i) 0 (blocks_in part w i)

  -- No byte of a free block is in a held block.
  pub free-Outside :
      (j z x : ℕ) (es : List Entry)
      → j < w.buckets_count
      → 0 < count z (blocks_at j)
      → count z (lent_of es j) ≡ 0
      → base_of part w j + z ≤ x
      → x < base_of part w j + z + part.size_by_index j
      → Lends part sound es
      → All (Fits part w) es
      → Outside x (map extent es)
  free-Outside j z x [] lt at fresh lo hi le fits = tt
  free-Outside j z x (in_bucket i o a b ∷ es) lt at fresh lo hi le fits =
      let apart =
        two_blocks part sound j z i o lt fits.0.0 at (lent_at part sound i o a b es fits.0.0 le)
          (λ e eq. ground (arith, fresh)) in
      (
        ground (arith, apart, fits.0, lo, hi),
        free-Outside j z x es lt at (ground (arith, fresh)) lo hi
            (Lends-tail part sound (in_bucket i o a b) es le) fits.1,
      )
  free-Outside j z x (in_chunk p n a b ∷ es) lt at fresh lo hi le fits = (
    ground (arith, fits.0, lo, hi, inside part sound j z lt at, stretch_fits part sound j lt),
    free-Outside j z x es lt at fresh lo hi (Lends-tail part sound (in_chunk p n a b) es le) fits.1,
  )
