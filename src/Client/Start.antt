-- ===== src/Client/Start.antt =====
-- A program that has just created its allocator.
use smmalloc.Prelude.{
  ℕ, ◌+◌, ◌-◌, ◌*◌, ◌^◌, ◌<◌, ◌≤◌, ◌≡◌, ◌≢◌, ◌⊎◌, refl, Option, some, List, [], ◌∷◌, get_elem?,
  arith,
}
use smmalloc.Align.{align}
use smmalloc.Pool.{null}
use smmalloc.Cache.Inventory.{IsClosed}
use smmalloc.Memory.{Mem}
use smmalloc.Pool.Blocks.{blocks}
use smmalloc.Cache.{TlsPoolBucket}
use smmalloc.Generic.{Libc}
use smmalloc.Sizes.{Partition, max_bucket_count}
use smmalloc.Allocator.{World, init}
use smmalloc.Safety.Sound.{blocks_in}
use smmalloc.Safety.Start.{Started, init-Started}
use smmalloc.Client.Lists.{Extent, AllClear, Clear-get_elem?}
use smmalloc.Client.Heap.{LibcSpec, granted}
use smmalloc.Client.Invariant.{Inv}

-- The invariant of a program holds in an allocator that `Init` has set up, while the program holds
-- no block, if the block of `malloc` that the buffer is in is among those that the heap has
-- allocated, and these do not overlap.
Started-Inv :
    {H : Type 0} (part : Partition) {libc : Libc H} (spec : LibcSpec libc) (others : List Extent)
    (count size p : ℕ) (heap : H) (m : Mem) (tls : ℕ → TlsPoolBucket) (out : Option (World H))
    (s : Started part count size p heap m tls out) (place : ℕ)
    → get_elem? others place ≡ some (p, size * count + (2 ^ 12 + 15))
    → spec.Owns s.world.heap others
    → AllClear others
    → Inv part spec others (record { world = s.world; held = [] })
Started-Inv part spec others count size p heap m tls out s place at owns clear = record {
  free = λ i. blocks (part.size_by_index i) 0 (blocks_in part s.world i);
  entries = [];
  held = refl;
  sound = s.sound;
  fits = tt;
  owns = owns;
  clear = clear;
  home = record {
    place = place;
    from = p;
    bytes = size * count + (2 ^ 12 + 15);
    at = at;
    inside = rw (s.buckets, s.bucket_bytes) (omega (arith, s.in_block));
  };
}

-- What `Init` leaves a program with, if `malloc` gave it `p` while `taken` was allocated: the
-- number and the size of the buckets, and the invariant, with no block held.
pub record Begun {H : Type 0} (part : Partition) {libc : Libc H} (spec : LibcSpec libc)
    (taken : List Extent) (w : World H) (count size p : ℕ) (out : Option (World H)) : Type 0 where
  pub world : World H
  pub returns : out ≡ some world
  pub buckets : world.buckets_count ≡ count
  pub bucket_bytes : world.bucket_size_in_bytes ≡ size
  pub same_tls : world.tls ≡ w.tls
  pub inv :
      Inv part spec
        ((p, size * count + (2 ^ 12 + 15)) ∷ taken)
        (record { world = world; held = [] })
  pub kept :
      (n a b c : ℕ) → get_elem? taken n ≡ some (a, b) → a ≤ c → c < a + b → world.mem c ≡ w.mem c

beyond : (p n a b c : ℕ) → (p + n ≤ a) ⊎ (a + b ≤ p) → a ≤ c → c < a + b → (c < p) ⊎ (p + n ≤ c)
beyond p n a b c apart lo hi = ground (arith, apart)

-- `Init` of an allocator without buckets, in a thread whose caches are not in use, for 1 to 62
-- buckets of a positive number of bytes (below 4 GB when rounded up to pages) each of which holds
-- one of its elements or more, if `malloc` grants the one block that it asks for, and the heap has
-- allocated only blocks that do not overlap: it ends with the buckets asked for and with the
-- invariant of a program that holds no block, the block of `malloc` being one more that the heap
-- has allocated; the thread's caches and the bytes of the blocks that were allocated before have
-- not changed. `malloc` returns null or a block above the first page and within the address space
-- that overlaps none that is allocated.
pub init-Begun :
    {H : Type 0} (part : Partition) {libc : Libc H} (spec : LibcSpec libc) (taken : List Extent)
    (w : World H) (fresh : w.buckets_count ≡ 0) (no_buffer : w.buffer ≡ null)
    (closed : (i : ℕ) → IsClosed (w.tls i)) (n bytes : ℕ) (pos : 0 < n)
    (n_max : n ≤ max_bucket_count) (some_bytes : 0 < bytes) (small : bytes + 2 ^ 12 ≤ 2 ^ 32 - 1)
    (within : (i : ℕ) → i < n → part.size_by_index i ≤ bytes) (owns : spec.Owns w.heap taken)
    (clear : AllClear taken)
    (grants : (libc.malloc w.heap (align bytes (2 ^ 12) * n + (2 ^ 12 + 15))).0 ≢ null)
    → Begun part spec taken w n
        (align bytes (2 ^ 12))
        (libc.malloc w.heap (align bytes (2 ^ 12) * n + (2 ^ 12 + 15))).0
        (init part libc w n bytes)
init-Begun part {libc} spec taken w fresh no_buffer closed n bytes pos n_max some_bytes small within
      owns clear grants =
    let whole = align bytes (2 ^ 12) * n + (2 ^ 12 + 15) in
    let got = libc.malloc w.heap whole in
    let (high, fits, apart, owned) =
      granted spec.Owns taken whole got grants (spec.mallocs w.heap taken whole owns) in
    let s =
      init-Started part libc w fresh no_buffer closed n bytes pos n_max some_bytes small within
        got.0 got.1 high fits refl in
    record {
      world = s.world;
      returns = s.returns;
      buckets = s.buckets;
      bucket_bytes = s.bucket_bytes;
      same_tls = s.same_tls;
      inv =
          Started-Inv part spec ((got.0, whole) ∷ taken) n (align bytes (2 ^ 12)) got.0 got.1 w.mem
            w.tls (init part libc w n bytes) s 0 refl (rw (s.heap_same) owned) (apart, clear);
      kept = λ k a b c at lo hi.
          s.outside c
            (beyond got.0 whole a b c (Clear-get_elem? k got.0 whole a b taken apart at) lo hi);
    }
