-- ===== src/Client/Own.antt =====
-- While a program holds fewer blocks than the bucket for a request has, the bucket serves it.
use smmalloc.Prelude.{
  ℕ, suc, ◌+◌, ◌*◌, ◌%◌, ◌^◌, ◌≤◌, ◌<◌, ◌≡◌, ◌≢◌, refl, ap, List, [], ◌∷◌, arith, length, true,
  some, lt→ltb, le→leb, lt→leb, u32,
}
use smmalloc.Align.{align}
use smmalloc.Generic.{Libc}
use smmalloc.Safety.Routing.{SameLayout}
use smmalloc.Sizes.{Partition}
use smmalloc.Allocator.{World, allocate, get_bucket_index, is_my_alloc}
use smmalloc.Safety.Sound.{base_of, blocks_in}
use smmalloc.Safety.Find.{find_bucket-inside, mul_mono}
use smmalloc.Safety.Layout.{IsSetUp}
use smmalloc.Safety.Own.{allocate-Served}
use smmalloc.Client.Lists.{Extent, map}
use smmalloc.Client.Heap.{LibcSpec}
use smmalloc.Client.Runs.{Client, IsRequest}
use smmalloc.Client.Ghost.{Entry, in_bucket, in_chunk, extent, lent_of}
use smmalloc.Client.Invariant.{Inv}
use smmalloc.Client.Allocates.{aligned, within, Served-Inv}

length-lent_of : (es : List Entry) (j : ℕ) → length (lent_of es j) ≤ length es
length-lent_of [] j = omega arith
length-lent_of (in_bucket i o a b ∷ es) j = ground (arith, length-lent_of es j)
length-lent_of (in_chunk p n a b ∷ es) j = omega (arith, length-lent_of es j)

pub length-map : (es : List Entry) → length (map extent es) ≡ length es
length-map [] = refl
length-map (x ∷ es) = ap suc (length-map es)

-- `GetBucketIndex` of an address in the stretch of the `i`-th bucket is `i`.
pub get_bucket_index-inside :
    {H : Type 0} {w : World H} (up : IsSetUp w) (i o : ℕ)
    → i < w.buckets_count
    → o < w.bucket_size_in_bytes
    → get_bucket_index w (w.buffer + (i * w.bucket_size_in_bytes + o)) ≡ some (some i)
unfolding get_bucket_index is_my_alloc
get_bucket_index-inside {w = w} up i o lt small =
    let mono = mul_mono up i lt in
    let p = w.buffer + (i * w.bucket_size_in_bytes + o) in
    let whole : u32 i ≡ i = omega (arith, lt, up) in
    rw
      (
        le→leb w.buffer p (omega arith),
        lt→ltb p w.buffer_end (omega (arith, mono, up, small)),
        find_bucket-inside up i o lt small,
        lt→leb w.buckets_count i lt,
        whole,
      )
      refl

-- An allocation that the bucket for the request serves.
pub record OwnBlock {H : Type 0} (part : Partition) {libc : Libc H} (spec : LibcSpec libc)
    (others : List Extent) (c : Client H) (bytes k : ℕ) : Type 0 where
  pub address : ℕ
  pub world : World H
  pub returns : allocate part libc true c.world bytes (2 ^ k) ≡ some (address, world)
  pub some_address : address ≢ 0
  pub is_aligned : address % 2 ^ k ≡ 0
  pub inv : Inv part spec others (record { world = world; held = (address, bytes) ∷ c.held })
  pub layout : SameLayout c.world world
  pub offset : ℕ
  pub stretch :
      (offset < c.world.bucket_size_in_bytes)
      × (address
          ≡ c.world.buffer
            + (part.index_by_size (align bytes (2 ^ k)) * c.world.bucket_size_in_bytes + offset))
  pub same_memory : world.mem ≡ c.world.mem

module _ {H : Type 0} (part : Partition) {libc : Libc H} (spec : LibcSpec libc)
    (others : List Extent) (c : Client H) (inv : Inv part spec others c) (bytes k : ℕ)
    (request : IsRequest part bytes k) where
  abbrev own : ℕ
  own = part.index_by_size (align bytes (2 ^ k))

  -- In a state where the invariant holds, if the bucket that the scheme gives for a request exists
  -- and has more blocks than the program holds altogether, then `Allocate` ends with an address
  -- other than null that has the alignment asked for, whatever `malloc` does. The invariant holds
  -- after it with that block held, and neither memory nor the number and the size of the buckets
  -- have changed. A request is for one byte or more, at an alignment up to 4096 that is a power of
  -- two, at sizes that neither the scheme nor the added header overflows.
  pub allocate-OwnBlock :
      part.index_by_size (align bytes (2 ^ k)) < c.world.buckets_count
      → length c.held < blocks_in part c.world (part.index_by_size (align bytes (2 ^ k)))
      → OwnBlock part spec others c bytes k
  allocate-OwnBlock lt few =
      let (s, same) =
        allocate-Served part libc true bytes k request.some_bytes request.at_most_4096 request.exact
          request.fits inv.free (lent_of inv.entries) c.world inv.sound lt
          (omega (
            arith,
            few,
            length-lent_of inv.entries own,
            length-map inv.entries,
            ap length inv.held,
          )) in
      record {
        address = base_of part c.world s.index + s.offset;
        world = s.world;
        returns = s.returns;
        some_address = omega (arith, inv.sound.up);
        is_aligned = aligned part spec others c inv bytes k request s;
        inv = Served-Inv part spec others c inv bytes k request s;
        layout = s.same_layout;
        offset = s.offset;
        stretch = (within part spec others c inv bytes k request s, rw same (omega arith));
        same_memory = s.same_machine.1;
      }
