-- ===== src/Cache/Release.antt =====
-- `ReleaseToCache` puts a block that comes back into the cache.
use native.Mathlib.Decide.{dec_lt}
use smmalloc.Prelude.{
  ℕ, ◌+◌, ◌-◌, ◌*◌, ◌^◌, ◌≤◌, ◌<◌, ◌≡◌, ◌≢◌, refl, ◌⊎◌, inl, inr, Option, some, List, ◌∷◌, ◌++◌,
  arith, count, ne→==, u32, sub64, true, false, Bool, ltb, ltb→lt, ◌&&◌, length-set, ◌>>>◌,
  Bool-cases, lt→ltb, le→ltb,
}
use smmalloc.Pool.Blocks.{blocks-lt}
use smmalloc.Cache.{
  TlsPoolBucket, Store, max_cache_items_count, release_to_cache, return_l1_cache_to_master,
}
use smmalloc.Cache.Return.{Returned, return_l1-Returned}
use smmalloc.Cache.Inventory.{l0, IsOpen, IsClosed, HasArray, Stocked}
use smmalloc.Cache.Push.{count-push, with_l1, with_l0, push_l1_lem, push_l0_lem}

-- What it returns for a block `o` that comes back: the block is in the cache, blocks of the cache may
-- have moved to the free blocks, and no byte outside the bucket has changed.
pub record Released (size n j base : ℕ) (lent : List ℕ) (s : Store) (max : ℕ)
    (out : Option (Bool × Store × TlsPoolBucket)) : Type 0 where
  pub store : Store
  pub cache : TlsPoolBucket
  pub free : List ℕ
  pub returns : out ≡ some (true, store, cache)
  pub stocked : Stocked size n j base free lent store cache
  pub is_open : IsOpen j base cache
  pub max_same : cache.max_elements_count ≡ max
  pub bytes : (a : ℕ) → (a < base) ⊎ (base + n * size ≤ a) → store.mem a ≡ s.mem a
  pub kept :
      (z a : ℕ) → 0 < count z lent → base + z ≤ a → a < base + z + size → store.mem a ≡ s.mem a
  pub other_buckets : (i : ℕ) → i ≢ j → store.buckets i ≡ s.buckets i

module _ (size n j base : ℕ) (big : 8 ≤ size) (small : n * size < 2 ^ 32 - 1) (xs : List ℕ) (o : ℕ)
    (lent : List ℕ) (s : Store) (t : TlsPoolBucket) (open_t : IsOpen j base t)
    (st : Stocked size n j base xs (o ∷ lent) s t) where
  in_bucket : o + size ≤ n * size
  in_bucket = blocks-lt size big n o (ground (arith, st.stock o))

  offset_lem : u32 (sub64 (base + o) t.bucket_data) ≡ o
  offset_lem = omega (arith, in_bucket, open_t.at)

  has_array : HasArray j base t
  has_array = record { within = omega arith; at = open_t.at; owner = open_t.owner }

  into_l0 :
      t.num_elements_l0 < max_cache_items_count
      → Released size n j base lent s t.max_elements_count (release_to_cache true s t (base + o))
  unfolding release_to_cache
  into_l0 room = record {
    store = s;
    cache = with_l0 t o;
    free = xs;
    returns =
        rw
          (
            ne→== t.max_elements_count 0 (omega arith),
            offset_lem,
            lt→ltb t.num_elements_l0 max_cache_items_count room,
            push_l0_lem t o open_t.l0_length room,
          )
          refl;
    stocked = record {
      at = st.at;
      tag_fits = st.tag_fits;
      chain = st.chain;
      stock = λ a.
          omega (arith, st.stock a, count-push t.num_elements_l0 t.storage_l0 o a (omega arith));
    };
    is_open = ground (arith, length-set t.storage_l0 t.num_elements_l0 o);
    max_same = refl;
    bytes = λ a out. refl;
    kept = λ z a held lo hi. refl;
    other_buckets = λ i ne. refl;
  }

  into_l1 :
      (use_l0 : Bool)
      → (use_l0 && ltb t.num_elements_l0 max_cache_items_count) ≡ false
      → t.num_elements_l1 < t.max_elements_count
      → Released size n j base lent s t.max_elements_count (release_to_cache use_l0 s t (base + o))
  unfolding release_to_cache
  into_l1 use_l0 not_l0 room = record {
    store = s;
    cache = with_l1 t o;
    free = xs;
    returns =
        rw
          (
            ne→== t.max_elements_count 0 (omega arith),
            offset_lem,
            not_l0,
            lt→ltb t.num_elements_l1 t.max_elements_count room,
            push_l1_lem t o (omega arith) (omega arith),
          )
          refl;
    stocked = record {
      at = st.at;
      tag_fits = st.tag_fits;
      chain = st.chain;
      stock =
          λ a. omega (arith, st.stock a, count-push t.num_elements_l1 t.cells_l1 o a (omega arith));
    };
    is_open = ground (arith, length-set t.cells_l1 t.num_elements_l1 o);
    max_same = refl;
    bytes = λ a out. refl;
    kept = λ z a held lo hi. refl;
    other_buckets = λ i ne. refl;
  }

  half : ℕ
  half = t.num_elements_l1 >>> 1

  returned :
      Returned size n j base xs
        (λ a. count a (l0 t) + count a (o ∷ lent))
        s
        t
        (t.num_elements_l1 - half)
        (return_l1_cache_to_master s t half)
  returned =
      return_l1-Returned size n j base big small xs (λ a. count a (l0 t) + count a (o ∷ lent)) s t
        has_array
        (record {
          at = st.at;
          tag_fits = st.tag_fits;
          chain = st.chain;
          stock = λ a. omega (arith, st.stock a);
        })
        half

  into_emptied :
      (use_l0 : Bool)
      → (use_l0 && ltb t.num_elements_l0 max_cache_items_count) ≡ false
      → t.num_elements_l1 ≡ t.max_elements_count
      → Released size n j base lent s t.max_elements_count (release_to_cache use_l0 s t (base + o))
  unfolding release_to_cache half
  into_emptied use_l0 not_l0 full =
      let less : TlsPoolBucket = record t { num_elements_l1 = t.num_elements_l1 - half } in
      record {
        store = returned.store;
        cache = with_l1 less o;
        free = returned.taken ++ xs;
        returns =
            rw
              (
                ne→== t.max_elements_count 0 (omega arith),
                offset_lem,
                not_l0,
                le→ltb t.num_elements_l1 t.max_elements_count (omega arith),
                returned.returns,
                push_l1_lem less o (omega arith) (omega arith),
              )
              refl;
        stocked = record {
          at = returned.pooled.at;
          tag_fits = returned.pooled.tag_fits;
          chain = returned.pooled.chain;
          stock = λ a. omega (
            arith,
            returned.pooled.stock a,
            count-push (t.num_elements_l1 - half) t.cells_l1 o a (omega arith),
          );
        };
        is_open = ground (arith, length-set t.cells_l1 (t.num_elements_l1 - half) o);
        max_same = refl;
        bytes = returned.bytes;
        kept = λ z a held lo hi. returned.kept z a (ground (arith, held)) lo hi;
        other_buckets = returned.other_buckets;
      }

  -- `ReleaseToCache` of a lent block with a cache in use (its L1 has room for two blocks or more),
  -- with and without its L0 part, always ends and takes the block back: the cache stays within its
  -- bounds, each block of the bucket is still in exactly one place (free, cached, or lent as
  -- before but for this one), and neither the bytes outside the bucket nor those of the blocks
  -- lent have changed. The bucket is smaller than 4 GB and its elements are of 8 bytes or more.
  pub release_to_cache-Released :
      (use_l0 : Bool)
      → Released size n j base lent s t.max_elements_count (release_to_cache use_l0 s t (base + o))
  release_to_cache-Released use_l0 =
      elim (Bool-cases (use_l0 && ltb t.num_elements_l0 max_cache_items_count)) [
        | inl fits ↦ rw (use_lem use_l0 fits) (into_l0 (ltb→lt _ _ (room_lem use_l0 fits)))
        | inr not_l0 ↦ elim (dec_lt t.num_elements_l1 t.max_elements_count) [
          | yes room ↦ into_l1 use_l0 not_l0 room
          | no full ↦ into_emptied use_l0 not_l0 (omega arith)
        ]
      ]
    where
      use_lem : (u : Bool) → (u && ltb t.num_elements_l0 max_cache_items_count) ≡ true → u ≡ true
      use_lem u h = ground arith

      room_lem :
          (u : Bool)
          → (u && ltb t.num_elements_l0 max_cache_items_count) ≡ true
          → ltb t.num_elements_l0 max_cache_items_count ≡ true
      room_lem u h = ground arith

-- A cache that is not in use refuses the block, and nothing changes.
pub release_to_cache-closed :
    (use_l0 : Bool) (s : Store) (t : TlsPoolBucket) (p : ℕ)
    → IsClosed t
    → release_to_cache use_l0 s t p ≡ some (false, s, t)
unfolding release_to_cache
release_to_cache-closed use_l0 s t p c = ground arith
