-- ===== src/Cache/RoundTrip.antt =====
-- `AllocFromCache` after `ReleaseToCache`: the cache is a stack.
use smmalloc.Prelude.{
  ℕ, suc, ◌+◌, ◌-◌, ◌^◌, ◌<◌, ◌≡◌, refl, some, get_elem?, arith, true, lt→ltb, ne→==, u32, sub64,
  get_elem?-set_self, take-set,
}
use smmalloc.Cache.{TlsPoolBucket, Store, max_cache_items_count, alloc_from_cache, release_to_cache}
use smmalloc.Cache.Inventory.{IsOpen, l0, l1}
use smmalloc.Cache.Push.{with_l0, push_l0_lem}

-- A release and the allocation after it.
pub record Returns (s : Store) (t : TlsPoolBucket) (p : ℕ) : Type 0 where
  pub released : TlsPoolBucket
  pub taken : TlsPoolBucket
  pub release : release_to_cache true s t p ≡ some (true, s, released)
  pub alloc : alloc_from_cache released ≡ some (p, taken)
  pub l0_same : l0 taken ≡ l0 t
  pub l1_same : l1 taken ≡ l1 t

module _ (s : Store) (t : TlsPoolBucket) (j base o : ℕ) (open_t : IsOpen j base t)
    (room : t.num_elements_l0 < max_cache_items_count) (fits : base + o < 2 ^ 64)
    (small : o < 2 ^ 32) where
  top : get_elem? (with_l0 t o).storage_l0 t.num_elements_l0 ≡ some o
  top = get_elem?-set_self t.storage_l0 t.num_elements_l0 o (omega (arith, room, open_t.l0_length))

  offset_lem : u32 (sub64 (base + o) t.bucket_data) ≡ o
  offset_lem = omega (arith, open_t.at)

  drop_top :
      alloc_from_cache (with_l0 t o)
      ≡ some (base + o, record (with_l0 t o) { num_elements_l0 = t.num_elements_l0 })
  unfolding alloc_from_cache
  drop_top =
      let back : suc t.num_elements_l0 - 1 ≡ t.num_elements_l0 = omega arith in
      rw (lt→ltb 0 (suc t.num_elements_l0) (omega arith), back, top, open_t.at) refl

  -- If L0 of a cache in use is not full, then `ReleaseToCache` of the address of a block whose
  -- offset has 32 bits, and `AllocFromCache` after it, return that address, change no memory, and
  -- leave in L0 and L1 what was there before.
  pub release-alloc : Returns s t (base + o)
  unfolding release_to_cache alloc_from_cache
  release-alloc = record {
    released = with_l0 t o;
    taken = record (with_l0 t o) { num_elements_l0 = t.num_elements_l0 };
    release =
        rw
          (
            ne→== t.max_elements_count 0 (omega (arith, open_t.room)),
            offset_lem,
            lt→ltb t.num_elements_l0 max_cache_items_count room,
            push_l0_lem t o open_t.l0_length room,
          )
          refl;
    alloc = drop_top;
    l0_same = take-set t.num_elements_l0 t.storage_l0 o;
    l1_same = refl;
  }
