-- ===== src/Client/Frees.antt =====
-- Every block that a program holds can be freed, and that keeps the invariant and the other blocks.
use native.Mathlib.Decide.{ℕ_discrete}
use smmalloc.Prelude.{
  ℕ, ◌+◌, ◌<◌, ◌≤◌, ◌≡◌, refl, subst, sym, ap, ◌∙◌, Option, some, List, get_elem?, count, arith,
  lt→ltb, le→ltb,
}
use smmalloc.Memory.{update, update_self, update_ne}
use smmalloc.Generic.{Libc}
use smmalloc.Generic.Block.{free-header}
use smmalloc.Sizes.{Partition}
use smmalloc.Allocator.{World, free, is_readable, machine}
use smmalloc.Safety.Sound.{quiet-IsSound, IsSound}
use smmalloc.Safety.Find.{find_bucket-outside}
use smmalloc.Safety.Release.{Freed, free-Freed}
use smmalloc.Client.Lists.{
  Extent, remove_at, map, AllClear-remove_at, All-get_elem?, All-remove_at, map-remove_at,
  get_elem?-map,
}
use smmalloc.Client.Heap.{LibcSpec}
use smmalloc.Client.Runs.{Client}
use smmalloc.Client.Ghost.{
  Entry, in_bucket, in_chunk, extent, lent_of, taken, lent_of-remove_at, lent_of-remove_at_other,
  lent_of-remove_at_chunk, taken-remove_at_bucket, taken-remove_at_chunk, lent_of-get_elem?,
}
use smmalloc.Client.Apart.{Fits}
use smmalloc.Client.Invariant.{Inv, IsSound-recount, moved-Fits, moved-IsHome}

-- The bytes of all blocks of the list are the same in both worlds.
abbrev pub Keeps : {H : Type 0} → World H → World H → List Extent → Type 0
Keeps w w' held =
    (k q m a : ℕ) → get_elem? held k ≡ some (q, m) → q ≤ a → a < q + m → w'.mem a ≡ w.mem a

pub Keeps-of :
    {H : Type 0} (w w' : World H) (held : List Extent) (es : List Entry)
    → held ≡ map extent es
    → ((k : ℕ) (y : Entry) (x : ℕ)
        → get_elem? es k ≡ some y
        → (extent y).0 ≤ x
        → x < (extent y).0 + (extent y).1
        → w'.mem x ≡ w.mem x)
    → Keeps w w' held
Keeps-of w w' held es same keeps k q m x found lo hi =
    let (y, place, e) =
      get_elem?-map extent k es (q, m) (subst (λ h. get_elem? h k ≡ some (q, m)) same found) in
    keeps k y x place (subst (λ v. v.0 ≤ x) (sym e) lo) (subst (λ v. x < v.0 + v.1) (sym e) hi)

-- `Free` of the `n`-th block that the program holds.
pub record Gone {H : Type 0} (part : Partition) {libc : Libc H} (spec : LibcSpec libc)
    (others : List Extent) (c : Client H) (n : ℕ) (out : Option (World H)) : Type 0 where
  pub world : World H
  pub returns : out ≡ some world
  pub inv : Inv part spec others (record { world = world; held = remove_at n c.held })
  pub keeps : Keeps c.world world (remove_at n c.held)
  pub layout :
      (world.buckets_count ≡ c.world.buckets_count)
      × (world.bucket_size_in_bytes ≡ c.world.bucket_size_in_bytes)

module _ {H : Type 0} (part : Partition) {libc : Libc H} (spec : LibcSpec libc)
    (others : List Extent) (c : Client H) (inv : Inv part spec others c) (n : ℕ) where
  abbrev es' : List Entry
  es' = remove_at n inv.entries

  held_after : remove_at n c.held ≡ map extent es'
  held_after = ap (remove_at n) inv.held ∙ sym (map-remove_at extent n inv.entries)

  fits_after : (k : ℕ) (y : Entry) → get_elem? es' k ≡ some y → Fits part c.world y
  fits_after k y e =
      All-get_elem? (Fits part c.world) k es' y
        (All-remove_at (Fits part c.world) n inv.entries inv.fits) e

  module _ (i o a b : ℕ) (at : get_elem? inv.entries n ≡ some (in_bucket i o a b)) where
    fits : Fits part c.world (in_bucket i o a b)
    fits = All-get_elem? (Fits part c.world) n inv.entries (in_bucket i o a b) inv.fits at

    freed :
        Freed part c.world inv.free (lent_of inv.entries) i (lent_of es' i) (free libc c.world a)
    freed = rw (fits.1) (
        free-Freed part c.world inv.free (lent_of inv.entries) inv.sound i fits.0 o (lent_of es' i)
          (λ z. lent_of-remove_at n inv.entries i o a b z at) libc)

    lent_after :
        (j z : ℕ)
        → count z (update (lent_of inv.entries) i (lent_of es' i) j) ≡ count z (lent_of es' j)
    lent_after j z = elim (ℕ_discrete i j) [
      | yes e ↦
          subst
            (λ v.
              count z (update (lent_of inv.entries) i (lent_of es' i) v) ≡ count z (lent_of es' v))
            e (ap (count z) (update_self (lent_of inv.entries) i (lent_of es' i)))
      | no ne ↦
          ap (count z) (update_ne (lent_of inv.entries) i (lent_of es' i) j ne)
          ∙ lent_of-remove_at_other n inv.entries i o a b j z at ne
    ]

    bucket-Gone : Gone part spec others c n (free libc c.world a)
    bucket-Gone = record {
      world = freed.world;
      returns = freed.returns;
      inv = record {
        free = update inv.free i freed.list;
        entries = es';
        held = held_after;
        sound =
            IsSound-recount part freed.world (update inv.free i freed.list)
              (update (lent_of inv.entries) i (lent_of es' i)) (lent_of es') lent_after freed.sound;
        fits =
            moved-Fits part c.world freed.world es' freed.same_layout
              (All-remove_at (Fits part c.world) n inv.entries inv.fits)
              (λ k p m d e at f x lo hi. freed.outside x (ground (arith, f, hi)));
        owns =
            rw (freed.same_heap, taken-remove_at_bucket others n inv.entries i o a b at) inv.owns;
        clear = rw (taken-remove_at_bucket others n inv.entries i o a b at) inv.clear;
        home = moved-IsHome others c.world freed.world freed.same_layout inv.home;
      };
      keeps = Keeps-of c.world freed.world (remove_at n c.held) es' held_after keeps_entry;
      layout = (freed.same_layout.0, freed.same_layout.1);
    }
      where
        keeps_entry :
            (k : ℕ) (y : Entry) (x : ℕ)
            → get_elem? es' k ≡ some y
            → (extent y).0 ≤ x
            → x < (extent y).0 + (extent y).1
            → freed.world.mem x ≡ c.world.mem x
        keeps_entry k (in_bucket j v d m) x e lo hi =
            let f = fits_after k (in_bucket j v d m) e in
            freed.kept j v x f.0 (omega (arith, lent_after j v, lent_of-get_elem? k es' j v d m e))
              (omega (arith, f, lo)) (omega (arith, f, hi))
        keeps_entry k (in_chunk p l d m) x e lo hi =
            freed.outside x (ground (arith, fits_after k (in_chunk p l d m) e, lo, hi))

  module _ (p m a b : ℕ) (at : get_elem? inv.entries n ≡ some (in_chunk p m a b)) where
    chunk_fits : Fits part c.world (in_chunk p m a b)
    chunk_fits = All-get_elem? (Fits part c.world) n inv.entries (in_chunk p m a b) inv.fits at

    abbrev without : World H
    without = record c.world { heap = libc.free c.world.heap p }

    to_malloc : free libc c.world a ≡ some without
    unfolding free is_readable
    to_malloc =
        let (i, found, beyond) =
          find_bucket-outside inv.sound.up a (omega (arith, chunk_fits))
            (ground (arith, chunk_fits)) in
        rw
          (
            lt→ltb 4096 a (omega (arith, chunk_fits)),
            found,
            le→ltb i c.world.buckets_count beyond,
            free-header libc (machine c.world) a p (omega (arith, chunk_fits))
                (omega (arith, chunk_fits)) chunk_fits.4,
          )
          refl

    chunk-Gone : Gone part spec others c n (free libc c.world a)
    chunk-Gone =
        let (l, place, less) = taken-remove_at_chunk others n inv.entries p m a b at in
        record {
          world = without;
          returns = to_malloc;
          inv = record {
            free = inv.free;
            entries = es';
            held = held_after;
            sound =
                quiet-IsSound part sound_without without.heap without.mem without.buckets
                  without.global_stats (λ x lo hi. refl) (λ j. (refl, refl, refl));
            fits =
                moved-Fits part c.world without es' (refl, refl, refl)
                  (All-remove_at (Fits part c.world) n inv.entries inv.fits)
                  (λ k q s d e at' f x lo hi. refl);
            owns =
                rw less (spec.frees c.world.heap (taken others inv.entries) l p m inv.owns place);
            clear = rw less (AllClear-remove_at l (taken others inv.entries) inv.clear);
            home = moved-IsHome others c.world without (refl, refl, refl) inv.home;
          };
          keeps = λ k q s x found lo hi. refl;
          layout = (refl, refl);
        }
      where
        sound_without : IsSound part c.world inv.free (lent_of es')
        sound_without =
            IsSound-recount part c.world inv.free (lent_of inv.entries) (lent_of es')
              (λ j z. ap (count z) (lent_of-remove_at_chunk n inv.entries p m a b j at)) inv.sound

  -- In a state where the invariant holds, `Free` of the address of the `n`-th held block, be it of
  -- a bucket or of the generic allocator, ends; the invariant holds in the state without that
  -- block, and the bytes of the other held blocks have not changed.
  pub free-Gone :
      (a b : ℕ) → get_elem? c.held n ≡ some (a, b) → Gone part spec others c n (free libc c.world a)
  free-Gone a b at =
      let (y, place, e) =
        get_elem?-map extent n inv.entries (a, b)
          (subst (λ h. get_elem? h n ≡ some (a, b)) inv.held at) in
      by_entry y place e
    where
      by_entry :
          (y : Entry)
          → get_elem? inv.entries n ≡ some y
          → extent y ≡ (a, b)
          → Gone part spec others c n (free libc c.world a)
      by_entry (in_bucket i o d m) place e =
          subst (λ v. Gone part spec others c n (free libc c.world v.0)) e
            (bucket-Gone i o d m place)
      by_entry (in_chunk p m d l) place e =
          subst (λ v. Gone part spec others c n (free libc c.world v.0)) e
            (chunk-Gone p m d l place)
