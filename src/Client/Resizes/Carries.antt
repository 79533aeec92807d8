-- ===== src/Client/Resizes/Carries.antt =====
-- A new block takes the bytes of an old one, which is then freed.
use smmalloc.Prelude.{ℕ, suc, ◌+◌, ◌<◌, ◌≤◌, ◌≡◌, refl, ◌∙◌, ◌⊎◌, some, List, ◌∷◌, get_elem?, arith}
use smmalloc.Memory.{memmove, memmove-copy, memmove-out}
use smmalloc.Generic.{Libc}
use smmalloc.Sizes.{Partition}
use smmalloc.Allocator.{World, free}
use smmalloc.Client.Lists.{Extent, remove_at, Clear-get_elem?, get_elem?-remove_at}
use smmalloc.Client.Heap.{LibcSpec}
use smmalloc.Client.Runs.{Client}
use smmalloc.Client.Invariant.{Inv}
use smmalloc.Client.Frees.{Keeps, Gone, free-Gone}
use smmalloc.Client.Written.{Inv-AllClear, written-Inv}

module _ {H : Type 0} (part : Partition) {libc : Libc H} (spec : LibcSpec libc)
    (others : List Extent) (c : Client H) (n p m : ℕ) (at : get_elem? c.held n ≡ some (p, m))
    (bytes q : ℕ) (w : World H)
    (inv : Inv part spec others (record { world = w; held = (q, bytes) ∷ c.held }))
    (keeps : Keeps c.world w c.held) (moved : ℕ) (few : moved ≤ bytes) where
  -- the world when the bytes are moved
  abbrev pub carried : World H
  carried = record w { mem = memmove w.mem q p moved }

  moved_out : (a : ℕ) → (a < q) ⊎ (q + bytes ≤ a) → memmove w.mem q p moved a ≡ w.mem a
  moved_out a out = memmove-out w.mem q p moved a (ground (arith, out, few))

  pub carried-Inv : Inv part spec others (record { world = carried; held = (q, bytes) ∷ c.held })
  carried-Inv =
      written-Inv part spec others (record { world = w; held = (q, bytes) ∷ c.held })
        (memmove w.mem q p moved) (λ a out. moved_out a out.0) inv

  pub carried-Gone :
      Gone part spec others
        (record { world = carried; held = (q, bytes) ∷ c.held })
        (suc n)
        (free libc carried p)
  carried-Gone =
      free-Gone part spec others (record { world = carried; held = (q, bytes) ∷ c.held })
        carried-Inv (suc n) p m at

  pub carried-Keeps : Keeps c.world carried-Gone.world (remove_at n c.held)
  carried-Keeps l r b a found lo hi =
      let (j, was) = get_elem?-remove_at n l c.held (r, b) found in
      let clear =
        Inv-AllClear part spec others (record { world = w; held = (q, bytes) ∷ c.held }) inv in
      let apart = Clear-get_elem? j q bytes r b c.held clear.0 was in
      carried-Gone.keeps (suc l) r b a found lo hi
      ∙ moved_out a (ground (arith, apart, lo, hi))
      ∙ keeps j r b a was lo hi

  pub carried-bytes :
      (i : ℕ) → i < m → i < moved → carried-Gone.world.mem (q + i) ≡ c.world.mem (p + i)
  carried-bytes i within lt =
      carried-Gone.keeps 0 q bytes (q + i) refl (omega arith) (omega (arith, lt, few))
      ∙ memmove-copy w.mem q p moved i lt
      ∙ keeps n p m (p + i) at (omega arith) (omega (arith, within))
