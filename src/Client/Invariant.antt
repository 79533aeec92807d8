-- ===== src/Client/Invariant.antt =====
-- The invariant of a running program and its allocator, and that writes into held blocks keep it.
use smmalloc.Prelude.{
  ℕ, ◌+◌, ◌-◌, ◌*◌, ◌<◌, ◌≤◌, ◌≡◌, refl, some, List, [], ◌∷◌, get_elem?, count, arith,
}
use smmalloc.Memory.{Mem, load64, load64-cong}
use smmalloc.Pool.Chain.{Chain-cong, SameWords}
use smmalloc.Generic.{Libc}
use smmalloc.Sizes.{Partition}
use smmalloc.Allocator.{World}
use smmalloc.Safety.Sound.{IsSound, base_of, blocks_in, size_ge_16}
use smmalloc.Safety.Routing.{SameLayout}
use smmalloc.Pool.Blocks.{count-blocks-le}
use smmalloc.Client.Lists.{Extent, map, AllClear, All, All-get_elem?, All-of}
use smmalloc.Client.Heap.{LibcSpec}
use smmalloc.Client.Runs.{Client, Outside}
use smmalloc.Client.Ghost.{Entry, in_bucket, in_chunk, extent, lent_of, taken}
use smmalloc.Client.Apart.{Fits, Lends, regions-AllClear}
use smmalloc.Client.Outside.{header-Outside, free-Outside}

-- The buffer is in one of the blocks of `malloc` that others own.
pub record IsHome {H : Type 0} (others : List Extent) (w : World H) : Type 0 where
  pub place : ℕ
  pub from : ℕ
  pub bytes : ℕ
  pub at : get_elem? others place ≡ some (from, bytes)
  pub inside :
      (from ≤ w.buffer) × (w.buffer + w.bucket_size_in_bytes * w.buckets_count ≤ from + bytes)

pub moved-IsHome :
    {H : Type 0} (others : List Extent) (w w' : World H)
    → SameLayout w w'
    → IsHome others w
    → IsHome others w'
moved-IsHome others w w' layout home = record {
  place = home.place;
  from = home.from;
  bytes = home.bytes;
  at = home.at;
  inside = rw (layout.0, layout.1, layout.2) home.inside;
}

-- The allocator is sound with just the held blocks of its buckets lent; every held block has the
-- bytes asked for; and the C library's heap has allocated just the blocks of `others` and those
-- that the generic allocator asked for, which do not overlap.
pub record Inv {H : Type 0} (part : Partition) {libc : Libc H} (spec : LibcSpec libc)
    (others : List Extent) (c : Client H) : Type 0 where
  pub free : ℕ → List ℕ
  pub entries : List Entry
  pub held : c.held ≡ map extent entries
  pub sound : IsSound part c.world free (lent_of entries)
  pub fits : All (Fits part c.world) entries
  pub owns : spec.Owns c.world.heap (taken others entries)
  pub clear : AllClear (taken others entries)
  pub home : IsHome others c.world

SameWords-of :
    (m m' : Mem) (base : ℕ) (xs : List ℕ)
    → ((x : ℕ) → 0 < count x xs → load64 m' (base + x) ≡ load64 m (base + x))
    → SameWords m m' base xs
SameWords-of m m' base [] same = tt
SameWords-of m m' base (x ∷ xs) same =
    (same x (ground arith), SameWords-of m m' base xs (λ y h. same y (ground arith)))

-- An allocator stays sound when the lists of lent blocks are put in another order.
pub IsSound-recount :
    {H : Type 0} (part : Partition) (w : World H) (free lent lent' : ℕ → List ℕ)
    → ((j z : ℕ) → count z (lent j) ≡ count z (lent' j))
    → IsSound part w free lent
    → IsSound part w free lent'
IsSound-recount part w free lent lent' same sound = record {
  up = sound.up;
  within = sound.within;
  bucket = λ j lt.
      let st = sound.bucket j lt in
      record {
        at = st.at;
        tag_fits = st.tag_fits;
        chain = st.chain;
        stock = λ z. omega (arith, st.stock z, same j z);
      };
  cache = sound.cache;
}

-- Entries stay what they are while the buffer stands and the headers keep their bytes.
pub moved-Fits :
    {H : Type 0} (part : Partition) (w w' : World H) (es : List Entry)
    → SameLayout w w'
    → All (Fits part w) es
    → ((k p n a b : ℕ)
        → get_elem? es k ≡ some (in_chunk p n a b)
        → Fits part w (in_chunk p n a b)
        → (x : ℕ) → p ≤ x
        → x < a
        → w'.mem x ≡ w.mem x)
    → All (Fits part w') es
moved-Fits part w w' es layout fits same =
    All-of (Fits part w') es (λ k x e. still k x e (All-get_elem? (Fits part w) k es x fits e))
  where
    still : (k : ℕ) (x : Entry) → get_elem? es k ≡ some x → Fits part w x → Fits part w' x
    still k (in_bucket i o a b) e f = rw (layout.0, layout.1, layout.2) f
    still k (in_chunk p n a b) e f =
        let header : load64 w'.mem (a - 16) ≡ load64 w.mem (a - 16) =
          load64-cong w.mem w'.mem (a - 16)
            (λ x lo hi. same k p n a b e f x (omega (arith, f, lo)) (omega (arith, f, hi))) in
        let asked : load64 w'.mem (a - 16 + 8) ≡ load64 w.mem (a - 16 + 8) =
          load64-cong w.mem w'.mem (a - 16 + 8)
            (λ x lo hi. same k p n a b e f x (omega (arith, f, lo)) (omega (arith, f, hi))) in
        rw (header, asked, layout.0, layout.1, layout.2) f

module _ {H : Type 0} (part : Partition) (w : World H) (free : ℕ → List ℕ) (es : List Entry)
    (sound : IsSound part w free (lent_of es)) where
  pub Lends-of : Lends part sound es
  Lends-of j z lt = omega (arith, (sound.bucket j lt).stock z)

  module _ (fits : All (Fits part w) es) (m : Mem)
      (frame : (a : ℕ) → Outside a (map extent es) → m a ≡ w.mem a) where
    none_lent : (j z : ℕ) → j < w.buckets_count → 0 < count z (free j) → count z (lent_of es j) ≡ 0
    none_lent j z lt at = omega (
      arith,
      (sound.bucket j lt).stock z,
      at,
      count-blocks-le (part.size_by_index j) (omega (arith, size_ge_16 part sound j lt))
          (blocks_in part w j) 0 z,
    )

    same_link :
        (j z : ℕ)
        → j < w.buckets_count
        → 0 < count z (free j)
        → load64 m (base_of part w j + z) ≡ load64 w.mem (base_of part w j + z)
    same_link j z lt at = load64-cong w.mem m (base_of part w j + z) (λ x lo hi. frame x (
        free-Outside part sound j z x es lt (omega (arith, (sound.bucket j lt).stock z, at))
          (none_lent j z lt at) lo (omega (arith, hi, size_ge_16 part sound j lt)) Lends-of fits))

    pub written-IsSound : IsSound part (record w { mem = m }) free (lent_of es)
    written-IsSound = record {
      up = omega (arith, sound.up);
      within = sound.within;
      bucket = λ j lt.
          let st = sound.bucket j lt in
          record {
            at = st.at;
            tag_fits = st.tag_fits;
            chain =
                Chain-cong w.mem m (base_of part w j) (w.buckets j).head (free j)
                  (SameWords-of w.mem m (base_of part w j) (free j) (λ z at. same_link j z lt at))
                  st.chain;
            stock = st.stock;
          };
      cache = sound.cache;
    }

    pub written-Fits :
        (others : List Extent)
        → AllClear (taken others es)
        → All (Fits part (record w { mem = m })) es
    written-Fits others clear =
        let apart = regions-AllClear part sound others es clear Lends-of fits in
        moved-Fits part w (record w { mem = m }) es (refl, refl, refl) fits
          (λ k p n a b e f x lo hi.
            frame x (header-Outside part w k p n a b x es apart fits e lo hi))
