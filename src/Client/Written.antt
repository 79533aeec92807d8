-- ===== src/Client/Written.antt =====
-- Held blocks do not overlap, and writes into them keep the invariant.
use smmalloc.Memory.{Mem}
use smmalloc.Prelude.{ℕ, ◌+◌, ◌≤◌, ◌≡◌, refl, subst, sym, List, [], ◌∷◌, arith}
use smmalloc.Generic.{Libc}
use smmalloc.Sizes.{Partition}
use smmalloc.Allocator.{World}
use smmalloc.Client.Lists.{Extent, map, Clear, AllClear, All}
use smmalloc.Client.Heap.{LibcSpec}
use smmalloc.Client.Runs.{Client, Outside}
use smmalloc.Client.Ghost.{Entry, extent}
use smmalloc.Client.Apart.{Fits, region, regions-AllClear}
use smmalloc.Client.Outside.{extent-region}
use smmalloc.Client.Invariant.{Inv, Lends-of, written-IsSound, written-Fits, moved-IsHome}

module _ {H : Type 0} (part : Partition) (w : World H) where
  -- Parts of blocks that do not overlap do not overlap.
  shrink-Clear :
      (p n q m : ℕ) (es : List Entry)
      → q ≤ p
      → p + n ≤ q + m
      → All (Fits part w) es
      → Clear q m (map (region part) es)
      → Clear p n (map extent es)
  shrink-Clear p n q m [] lo hi fits clear = tt
  shrink-Clear p n q m (y ∷ es) lo hi fits clear = (
    ground (arith, clear.0, extent-region part w y fits.0, lo, hi),
    shrink-Clear p n q m es lo hi fits.1 clear.1,
  )

  shrink-AllClear :
      (es : List Entry)
      → All (Fits part w) es
      → AllClear (map (region part) es)
      → AllClear (map extent es)
  shrink-AllClear [] fits clear = tt
  shrink-AllClear (y ∷ es) fits clear =
      let sub = extent-region part w y fits.0 in
      (
        shrink-Clear (extent y).0 (extent y).1 (region part y).0 (region part y).1 es sub.0 sub.1
            fits.1 clear.0,
        shrink-AllClear es fits.1 clear.1,
      )

module _ {H : Type 0} (part : Partition) {libc : Libc H} (spec : LibcSpec libc)
    (others : List Extent) where
  -- Where the invariant holds, no two held blocks overlap.
  pub Inv-AllClear : (c : Client H) → Inv part spec others c → AllClear c.held
  Inv-AllClear c inv = subst AllClear (sym inv.held) (
      shrink-AllClear part c.world inv.entries inv.fits (
        regions-AllClear part inv.sound others inv.entries inv.clear
          (Lends-of part c.world inv.free inv.entries inv.sound) inv.fits))

  -- A write into held blocks keeps the invariant.
  pub written-Inv :
      (c : Client H) (m : Mem)
      → ((a : ℕ) → Outside a c.held → m a ≡ c.world.mem a)
      → Inv part spec others c
      → Inv part spec others (record { world = record c.world { mem = m }; held = c.held })
  written-Inv c m frame inv =
      let frame' = subst (λ h. (a : ℕ) → Outside a h → m a ≡ c.world.mem a) inv.held frame in
      record {
        free = inv.free;
        entries = inv.entries;
        held = inv.held;
        sound = written-IsSound part c.world inv.free inv.entries inv.sound inv.fits m frame';
        fits =
            written-Fits part c.world inv.free inv.entries inv.sound inv.fits m frame' others
              inv.clear;
        owns = inv.owns;
        clear = inv.clear;
        home = moved-IsHome others c.world (record c.world { mem = m }) (refl, refl, refl) inv.home;
      }
