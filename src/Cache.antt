-- ===== src/Cache.antt =====
-- `internal::TlsPoolBucket` of SmMalloc/smmalloc.h and SmMalloc/smmalloc.cpp: the cache of one thread
-- for one bucket, as two stacks of block offsets; with `AllocFromCache` and `ReleaseToCache` of the
-- allocator. `pStorageL1` is kept with the array that it points to, `pBucket` as the bucket's index.
pub mod Linking
pub mod Inventory
pub mod Return
pub mod Push
pub mod Release
pub mod Destroy
pub mod RoundTrip
use smmalloc.Prelude.{
  ℕ, zero, suc, ◌+◌, ◌-◌, ◌*◌, ◌%◌, ◌^◌, min, Bool, true, false, ◌&&◌, Option, none, some, List, [],
  ◌∷◌, ltb, ◌==◌, if◌then◌else◌, ◌>>=◌, get_elem?, set?, u8, u32, sub64, ◌>>>◌,
}
use smmalloc.Memory.{Mem, update, store64}
use smmalloc.Pool.{null, PoolBucket, pack, free_interval}

-- SMM_MAX_CACHE_ITEMS_COUNT, on 64-bit platforms
abbrev pub max_cache_items_count : ℕ
max_cache_items_count = 7

pub record TlsPoolBucket : Type 0 where
  pub bucket_data : ℕ
  pub storage_l1 : ℕ
  pub cells_l1 : List ℕ
  pub bucket : Option ℕ
  pub storage_l0 : List ℕ
  pub max_elements_count : ℕ
  pub num_elements_l1 : ℕ
  pub num_elements_l0 : ℕ

-- A `thread_local` object starts as zeroes.
abbrev pub zero_bucket : TlsPoolBucket
zero_bucket = record {
  bucket_data = null;
  storage_l1 = null;
  cells_l1 = [];
  bucket = none;
  storage_l0 = 0 ∷ 0 ∷ 0 ∷ 0 ∷ 0 ∷ 0 ∷ 0 ∷ [];
  max_elements_count = 0;
  num_elements_l1 = 0;
  num_elements_l0 = 0;
}

pub get_elements_count : TlsPoolBucket → ℕ
get_elements_count t = u32 (t.num_elements_l1 + t.num_elements_l0)

-- What the caches of all threads share: memory, and the allocator's array of buckets.
pub record Store : Type 0 where
  pub mem : Mem
  pub buckets : ℕ → PoolBucket

unfoldable pub alloc_from_cache : TlsPoolBucket → Option (ℕ × TlsPoolBucket)
alloc_from_cache t =
    if ltb 0 t.num_elements_l0
    then (do
      let n = t.num_elements_l0 - 1
      offset ← get_elem? t.storage_l0 n
      some (t.bucket_data + offset, record t { num_elements_l0 = n }))
    else if ltb 0 t.num_elements_l1
    then (do
      let n = t.num_elements_l1 - 1
      offset ← get_elem? t.cells_l1 n
      some (t.bucket_data + offset, record t { num_elements_l1 = n }))
    else some (null, t)

-- The loop of `ReturnL1CacheToMaster`, with `rounds` entries left from the `i`-th on: it links the
-- block at `prev` to that of the entry, and ends with the address of the last block.
unfoldable pub link_blocks : ℕ → List ℕ → ℕ → ℕ → ℕ → Mem → ℕ → Option (Mem × ℕ)
link_blocks zero cells base i tag m prev = some (m, prev)
link_blocks (suc rounds) cells base i tag m prev = do
  offset ← get_elem? cells i
  link_blocks rounds cells base (i + 1) (u32 (tag + 1)) (store64 m prev (pack tag offset))
      (base + offset)

unfoldable pub return_l1_cache_to_master :
    Store → TlsPoolBucket → ℕ → Option (Store × TlsPoolBucket)
return_l1_cache_to_master s t count =
    if count == 0 then some (s, t) else if t.num_elements_l1 == 0 then some (s, t) else do
      let n = min count t.num_elements_l1
      let first = t.num_elements_l1 - n
      offset ← get_elem? t.cells_l1 first
      let head = t.bucket_data + offset
      (m, tail) ←
          link_blocks (t.num_elements_l1 - (first + 1)) t.cells_l1 t.bucket_data (first + 1)
            0xFFFFFF s.mem head
      j ← t.bucket
      (m', b) ← free_interval m (s.buckets j) head tail
      some (
        record { mem = m'; buckets = update s.buckets j b },
        record t { num_elements_l1 = first },
      )

unfoldable pub push_l1 : TlsPoolBucket → ℕ → Option TlsPoolBucket
push_l1 t offset = do
  cells ← set? t.cells_l1 t.num_elements_l1 offset
  some (record t { cells_l1 = cells; num_elements_l1 = u32 (t.num_elements_l1 + 1) })

unfoldable pub push_l0 : TlsPoolBucket → ℕ → Option TlsPoolBucket
push_l0 t offset = do
  cells ← set? t.storage_l0 t.num_elements_l0 offset
  some (record t { storage_l0 = cells; num_elements_l0 = u8 (t.num_elements_l0 + 1) })

-- `ReleaseToCache<useCacheL0>`
unfoldable pub release_to_cache :
    Bool → Store → TlsPoolBucket → ℕ → Option (Bool × Store × TlsPoolBucket)
release_to_cache use_cache_l0 s t p =
    if t.max_elements_count == 0
    then some (false, s, t)
    else let offset = u32 (sub64 p t.bucket_data) in
      if use_cache_l0 && ltb t.num_elements_l0 max_cache_items_count
      then (do t' ← push_l0 t offset; some (true, s, t'))
      else if ltb t.num_elements_l1 t.max_elements_count
      then (do t' ← push_l1 t offset; some (true, s, t'))
      else (do
        (s', t') ← return_l1_cache_to_master s t (t.num_elements_l1 >>> 1)
        t'' ← push_l1 t' offset
        some (true, s', t''))

-- The loop of `Destroy` that moves the entries of L0 from the `i`-th on to L1.
unfoldable pub move_l0 : ℕ → ℕ → TlsPoolBucket → Option TlsPoolBucket
move_l0 zero i t = some t
move_l0 (suc rounds) i t = do
  offset ← get_elem? t.storage_l0 i
  t' ← push_l1 t offset
  move_l0 rounds (i + 1) t'

-- `Destroy` hands the array of L1 back to its caller.
unfoldable pub destroy : Store → TlsPoolBucket → Option (ℕ × Store × TlsPoolBucket)
destroy s t = do
  t' ← move_l0 t.num_elements_l0 0 t
  (s', t'') ←
      (if ltb 0 t'.num_elements_l1
        then return_l1_cache_to_master s t' t'.num_elements_l1
        else some (s, t'))
  some (
    t''.storage_l1,
    s',
    record t'' {
      storage_l1 = null;
      cells_l1 = [];
      num_elements_l0 = 0;
      num_elements_l1 = 0;
      max_elements_count = 0;
      bucket = none;
      bucket_data = null;
    },
  )
