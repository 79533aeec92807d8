-- ===== src/Client/Allocates.antt =====
-- Every request of a program is answered, and that keeps the invariant and the held blocks.
use smmalloc.Prelude.{
  ℕ, ◌+◌, ◌%◌, ◌*◌, ◌^◌, ◌<◌, ◌≤◌, ◌≡◌, ◌≢◌, refl, subst, sym, ap, ◌∙◌, ◌⊎◌, inl, inr, true, Option,
  some, List, [], ◌∷◌, get_elem?, count, arith, eq→==,
}
use smmalloc.Memory.{update, update_self}
use smmalloc.Pool.{null}
use smmalloc.Generic.{Libc}
use smmalloc.Generic
use smmalloc.Generic.Block.{Block, grain, mod-grain}
use smmalloc.Client.Outside.{extent-region}
use smmalloc.Sizes.{Partition}
use smmalloc.Allocator.{World, allocate, machine}
use smmalloc.Safety.Routing.{
  IsMalloc, failed, granted, Allocated, in_bucket, on_heap, no_memory, SameLayout,
}
use smmalloc.Safety.Buckets.{Served}
use smmalloc.Safety.Sound.{base_of, blocks_in, size_ge_16, IsSound}
use smmalloc.Client.Aligned.{block-mod}
use smmalloc.Safety.Allocation.{allocate-Allocated}
use smmalloc.Client.Lists.{Extent, map, Clear, All-get_elem?, Clear-get_elem?, get_elem?-of_map}
use smmalloc.Client.Heap.{LibcSpec, Mallocs}
use smmalloc.Client.Runs.{Client, IsRequest}
use smmalloc.Client.Ghost
use smmalloc.Client.Ghost.{Entry, in_chunk, extent, lent_of, taken}
use smmalloc.Client.Apart.{Fits, Away, region, chunk-Clear, inside}
use smmalloc.Client.Invariant.{Inv, IsSound-recount, moved-Fits, moved-IsHome, Lends-of}
use smmalloc.Client.Frees.{Keeps, Keeps-of}

-- What `Allocate` of `bytes` bytes returns: a block that the program holds from then on, or null.
pub data Answer {H : Type 0} (part : Partition) {libc : Libc H} (spec : LibcSpec libc)
    (others : List Extent) (c : Client H) (bytes k : ℕ) (out : Option (ℕ × World H)) : Type 0 where
  served :
      (p : ℕ) (world : World H)
      → out ≡ some (p, world)
      → p ≢ null
      → p % 2 ^ k ≡ 0
      → Inv part spec others (record { world = world; held = (p, bytes) ∷ c.held })
      → Keeps c.world world c.held
      → SameLayout c.world world
      → Answer part spec others c bytes k out
  refused :
      (world : World H)
      → out ≡ some (null, world)
      → Inv part spec others (record { world = world; held = c.held })
      → Keeps c.world world c.held
      → SameLayout c.world world
      → Answer part spec others c bytes k out

Clear-others :
    (p n : ℕ) (others : List Extent) (es : List Entry)
    → Clear p n (taken others es)
    → Clear p n others
Clear-others p n others [] clear = clear
Clear-others p n others (Ghost.in_bucket i o a b ∷ es) clear = Clear-others p n others es clear
Clear-others p n others (in_chunk q m a b ∷ es) clear = Clear-others p n others es clear.1

module _ {H : Type 0} (part : Partition) {libc : Libc H} (spec : LibcSpec libc)
    (others : List Extent) (c : Client H) (inv : Inv part spec others c) (bytes k : ℕ)
    (request : IsRequest part bytes k) where
  abbrev asked : ℕ
  asked = bytes + (2 ^ grain k + 15)

  abbrev owned : List Extent
  owned = taken others inv.entries

  -- A block of `malloc` that is clear of the others is outside the buffer.
  away : (p n : ℕ) → Clear p n owned → Away c.world p n
  away p n clear = ground (
    arith,
    Clear-get_elem? inv.home.place p n inv.home.from inv.home.bytes others
        (Clear-others p n others inv.entries clear) inv.home.at,
    inv.home.inside,
  )

  pub IsMalloc-of :
      (out : ℕ × H)
      → Mallocs spec.Owns owned asked out
      → IsMalloc c.world.buffer
          (c.world.buffer + c.world.bucket_size_in_bytes * c.world.buckets_count)
          asked
          out
  IsMalloc-of (p, heap) (inl (e, owns)) =
      subst
        (λ v.
          IsMalloc c.world.buffer
            (c.world.buffer + c.world.bucket_size_in_bytes * c.world.buckets_count) asked (v, heap))
        (sym e) (failed heap)
  IsMalloc-of (p, heap) (inr (high, fits, clear, owns)) =
      granted p heap (omega (arith, high)) fits (away p asked clear)

  pub aligned :
      {out : Option (ℕ × World H)} (s : Served part c.world (lent_of inv.entries) bytes k out)
      → (base_of part c.world s.index + s.offset) % 2 ^ k ≡ 0
  aligned s =
      let lent = update (lent_of inv.entries) s.index (s.offset ∷ lent_of inv.entries s.index) in
      let own : count s.offset (lent s.index) ≡ 1 + count s.offset (lent_of inv.entries s.index) =
        ap (count s.offset)
          (update_self (lent_of inv.entries) s.index (s.offset ∷ lent_of inv.entries s.index))
        ∙ (rw (eq→== s.offset s.offset refl) refl) in
      rw (← s.same_layout.1, ← s.same_layout.2)
        (block-mod part s.world s.sound.up s.index s.offset (blocks_in part s.world s.index) k
          (omega (arith, size_ge_16 part s.sound s.index (rw (s.same_layout.0) s.in_range)))
          request.at_most_4096 s.aligned
          (omega (
            arith,
            (s.sound.bucket s.index (rw (s.same_layout.0) s.in_range)).stock s.offset,
            own,
          )))

  -- It is in the stretch of the bucket.
  pub within :
      {out : Option (ℕ × World H)} (s : Served part c.world (lent_of inv.entries) bytes k out)
      → s.offset < c.world.bucket_size_in_bytes
  within s =
      let lent = update (lent_of inv.entries) s.index (s.offset ∷ lent_of inv.entries s.index) in
      let own : count s.offset (lent s.index) ≡ 1 + count s.offset (lent_of inv.entries s.index) =
        ap (count s.offset)
          (update_self (lent_of inv.entries) s.index (s.offset ∷ lent_of inv.entries s.index))
        ∙ (rw (eq→== s.offset s.offset refl) refl) in
      let lt : s.index < s.world.buckets_count = rw (s.same_layout.0) s.in_range in
      omega (
        arith,
        s.same_layout.1,
        size_ge_16 part s.sound s.index lt,
        inside part s.sound s.index s.offset lt
            (omega (arith, (s.sound.bucket s.index lt).stock s.offset, own)),
      )

  -- The invariant holds with the block that a bucket served.
  pub Served-Inv :
      {out : Option (ℕ × World H)} (s : Served part c.world (lent_of inv.entries) bytes k out)
      → Inv part spec others (record {
        world = s.world;
        held = (base_of part c.world s.index + s.offset, bytes) ∷ c.held;
      })
  Served-Inv s =
      let p = base_of part c.world s.index + s.offset in
      let es = Ghost.in_bucket s.index s.offset p bytes ∷ inv.entries in
      record {
        free = s.free;
        entries = es;
        held = ap (λ h. (p, bytes) ∷ h) inv.held;
        sound =
            IsSound-recount part s.world s.free
              (update (lent_of inv.entries) s.index (s.offset ∷ lent_of inv.entries s.index))
              (lent_of es)
              (λ j z. ap (count z) (Ghost.lent_of-update s.index s.offset p bytes inv.entries j))
              s.sound;
        fits = (
          rw (s.same_layout.0, s.same_layout.1, s.same_layout.2) (s.in_range, refl, s.enough),
          moved-Fits part c.world s.world inv.entries s.same_layout inv.fits
              (λ l q n a b e f x lo hi. ap (λ m. m x) s.same_machine.1),
        );
        owns = rw (s.same_machine.0) inv.owns;
        clear = inv.clear;
        home = moved-IsHome others c.world s.world s.same_layout inv.home;
      }

  from_bucket :
      {out : Option (ℕ × World H)}
      → Served part c.world (lent_of inv.entries) bytes k out
      → Answer part spec others c bytes k out
  from_bucket s =
      served (base_of part c.world s.index + s.offset) s.world s.returns
        (omega (arith, inv.sound.up)) (aligned s) (Served-Inv s)
        (λ l q m a e lo hi. ap (λ m. m a) s.same_machine.1) s.same_layout

  none_free :
      {out : Option (ℕ × World H)} (heap : H) (world : World H)
      → libc.malloc c.world.heap asked ≡ (null, heap)
      → out ≡ some (null, world)
      → IsSound part world inv.free (lent_of inv.entries)
      → (world.heap ≡ heap) × (world.mem ≡ c.world.mem)
      → SameLayout c.world world
      → Answer part spec others c bytes k out
  none_free heap world got returns sound same layout =
      refused world returns
        record {
          free = inv.free;
          entries = inv.entries;
          held = inv.held;
          sound = sound;
          fits =
              moved-Fits part c.world world inv.entries layout inv.fits
                (λ l q n a b e f x lo hi. ap (λ m. m x) same.1);
          owns = rw (same.0) (
              still_owns (
                subst (λ v. Mallocs spec.Owns owned asked v) got
                  (spec.mallocs c.world.heap owned asked inv.owns)));
          clear = inv.clear;
          home = moved-IsHome others c.world world layout inv.home;
        }
        (λ l q m a e lo hi. ap (λ m. m a) same.1) layout
    where
      still_owns : Mallocs spec.Owns owned asked (null, heap) → spec.Owns heap owned
      still_owns (inl (e, owns)) = owns
      still_owns (inr (high, fits, clear, owns)) = absurd (omega (arith, high))

  -- `malloc` granted the block at `p`.
  module _ {out : Option (ℕ × World H)} (p : ℕ) (heap : H) (world : World H)
      (block : Block libc
        (machine c.world)
        bytes
        (2 ^ grain k)
        p
        heap
        (Generic.alloc libc (machine c.world) bytes (2 ^ grain k)))
      (returns : out ≡ some (block.address, world)) (same : machine world ≡ block.machine)
      (sound : IsSound part world inv.free (lent_of inv.entries))
      (layout : SameLayout c.world world) (high : 4096 < p) (fits : p + asked < 2 ^ 64)
      (clear : Clear p asked owned) (owns : spec.Owns heap ((p, asked) ∷ owned)) where
    abbrev entries : List Entry
    entries = in_chunk p asked block.address bytes ∷ inv.entries

    same_byte : (x : ℕ) → (x < p) ⊎ (p + asked ≤ x) → world.mem x ≡ c.world.mem x
    same_byte x out = ap (λ s. s.mem x) same ∙ block.bytes x (ground (arith, out, block.within))

    apart :
        (l : ℕ) (y : Entry)
        → get_elem? inv.entries l ≡ some y
        → (p + asked ≤ (region part y).0) ⊎ ((region part y).0 + (region part y).1 ≤ p)
    apart l y e =
        Clear-get_elem? l p asked (region part y).0 (region part y).1
          (map (region part) inv.entries)
          (chunk-Clear part inv.sound p asked others inv.entries (away p asked clear) clear
            (Lends-of part c.world inv.free inv.entries inv.sound) inv.fits)
          (get_elem?-of_map (region part) l inv.entries y e)

    kept :
        (l : ℕ) (y : Entry) (x : ℕ)
        → get_elem? inv.entries l ≡ some y
        → (extent y).0 ≤ x
        → x < (extent y).0 + (extent y).1
        → world.mem x ≡ c.world.mem x
    kept l y x e lo hi = same_byte x (
        ground (
          arith,
          apart l y e,
          extent-region part c.world y
              (All-get_elem? (Fits part c.world) l inv.entries y inv.fits e),
          lo,
          hi,
        ))

    from_heap : Answer part spec others c bytes k out
    from_heap =
        served block.address world returns (omega (arith, block.behind_header))
          (mod-grain k block.address block.aligned)
          record {
            free = inv.free;
            entries = entries;
            held = ap (λ h. (block.address, bytes) ∷ h) inv.held;
            sound = sound;
            fits = (
              (
                high,
                block.behind_header,
                block.within,
                fits,
                rw (ap (λ s. s.mem) same) block.header,
                rw (layout.0, layout.1, layout.2) (away p asked clear),
                request.some_bytes,
                rw (ap (λ s. s.mem) same) block.asked,
              ),
              moved-Fits part c.world world inv.entries layout inv.fits (λ l q n a b e f x lo hi.
                  same_byte x (ground (arith, apart l (in_chunk q n a b) e, f, lo, hi))),
            );
            owns = rw (ap (λ s. s.heap) same, block.heap_same) owns;
            clear = (clear, inv.clear);
            home = moved-IsHome others c.world world layout inv.home;
          }
          (Keeps-of c.world world c.held inv.entries inv.held kept) layout

  pub by_place :
      (out : Option (ℕ × World H))
      → Allocated part libc c.world inv.free (lent_of inv.entries) bytes k out
      → Answer part spec others c bytes k out
  by_place out (in_bucket s) = from_bucket s
  by_place out (no_memory heap world got returns sound same layout) =
      none_free heap world got returns sound same layout
  by_place out (on_heap p heap world block pos got returns same sound layout) = granted_by (
      subst (λ v. Mallocs spec.Owns owned asked v) got
        (spec.mallocs c.world.heap owned asked inv.owns))
    where
      granted_by : Mallocs spec.Owns owned asked (p, heap) → Answer part spec others c bytes k out
      granted_by (inr (high, fits, clear, owns)) =
          from_heap p heap world block returns same sound layout high fits clear owns
      granted_by (inl (e, owns)) = absurd (omega (arith, pos, e))

  -- In a state where the invariant holds, `Allocate` for a request ends, with null or with an
  -- address that has the alignment asked for. The invariant holds after it, with the block held if
  -- there is one, and the bytes of all held blocks have not changed. A request is for one byte or
  -- more, at an alignment up to 4096 that is a power of two, at sizes that neither the scheme nor
  -- the added header overflows.
  pub allocate-Answer :
      Answer part spec others c bytes k (allocate part libc true c.world bytes (2 ^ k))
  allocate-Answer = by_place (allocate part libc true c.world bytes (2 ^ k)) (
      allocate-Allocated part libc true bytes k request.some_bytes request.at_most_4096
        request.exact request.fits inv.free (lent_of inv.entries) c.world inv.sound
        (IsMalloc-of (libc.malloc c.world.heap asked)
          (spec.mallocs c.world.heap owned asked inv.owns)))
