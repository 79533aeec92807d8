-- ===== src/Pool.antt =====
-- `Allocator::PoolBucket` of SmMalloc/smmalloc.h and its `Create` of SmMalloc/smmalloc.cpp: a stack
-- of free blocks, threaded through the blocks themselves by tagged offsets. The compare-exchange
-- loops run on fuel; with one thread at work one round is enough.
mod Tagged
pub mod Chain
pub mod Blocks
pub mod Create
pub mod Stack
pub mod Refines
pub use Tagged.*
use smmalloc.Prelude.{
  ℕ, zero, suc, ◌+◌, ◌-◌, ◌*◌, ◌%◌, ◌^◌, Bool, true, false, ◌&&◌, Option, none, some, ltb, leb,
  ◌==◌, if◌then◌else◌, u32, sub64,
}
use smmalloc.Memory.{Mem, load64, store64}

abbrev pub null : ℕ
null = 0

-- `BucketStats`, kept if SMMALLOC_STATS_SUPPORT is defined
pub record BucketStats : Type 0 where
  pub cache_hit_count : ℕ
  pub hit_count : ℕ
  pub miss_count : ℕ
  pub free_count : ℕ

pub record PoolBucket : Type 0 where
  pub head : ℕ
  pub data_begin : ℕ
  pub buffer_end : ℕ
  pub global_tag : ℕ
  pub bucket_stats : BucketStats

-- the constructors of `BucketStats` and `PoolBucket`
abbrev pub new_bucket_stats : BucketStats
new_bucket_stats = record { cache_hit_count = 0; hit_count = 0; miss_count = 0; free_count = 0 }

abbrev pub new_bucket : PoolBucket
new_bucket = record {
  head = invalid;
  data_begin = null;
  buffer_end = null;
  global_tag = 0;
  bucket_stats = new_bucket_stats;
}

-- `object.compare_exchange_strong(expected, desired)`: whether it swapped, and the two variables
abbrev pub compare_exchange : ℕ → ℕ → ℕ → Bool × ℕ × ℕ
compare_exchange object expected desired =
    if object == expected then (true, desired, expected) else (false, object, object)

alloc_loop : ℕ → Mem → PoolBucket → ℕ → Option (ℕ × PoolBucket)
alloc_loop zero m b head_value = none
alloc_loop (suc fuel) m b head_value =
    let p = b.data_begin + offset_of head_value in
    let next_value = load64 m p in
    let (swapped, head, current) = compare_exchange b.head head_value next_value in
    let again = alloc_loop fuel m (record b { head = head }) current in
    if head_value == invalid
    then some (null, b)
    else if swapped
    then some (p, record b { head = head })
    else again

unfoldable pub alloc : Mem → PoolBucket → Option (ℕ × PoolBucket)
unfolding alloc_loop
alloc m b = alloc_loop 2 m b b.head

free_loop : ℕ → Mem → PoolBucket → ℕ → ℕ → ℕ → Option (Mem × PoolBucket)
free_loop zero m b node_value tail head_value = none
free_loop (suc fuel) m b node_value tail head_value =
    let m' = store64 m tail head_value in
    let (swapped, head, current) = compare_exchange b.head head_value node_value in
    let again = free_loop fuel m' (record b { head = head }) node_value tail current in
    if swapped then some (m', record b { head = head }) else again

unfoldable pub free_interval : Mem → PoolBucket → ℕ → ℕ → Option (Mem × PoolBucket)
unfolding free_loop
free_interval m b head tail =
    let tag = b.global_tag in
    let b' = record b { global_tag = u32 (tag + 1) } in
    free_loop 2 m b' (pack tag (u32 (sub64 head b.data_begin))) tail b.head

pub is_my_alloc : PoolBucket → ℕ → Bool
is_my_alloc b p = leb b.data_begin p && ltb p b.buffer_end

-- The loop of `Create` from `node` on.
create_loop : ℕ → Mem → PoolBucket → ℕ → ℕ → Option (Mem × PoolBucket)
create_loop zero m b element_size node = none
create_loop (suc fuel) m b element_size node =
    let next = node + element_size in
    let next_value = pack b.global_tag (u32 (sub64 next b.data_begin)) in
    let b' = record b { global_tag = u32 (b.global_tag + 1) } in
    let more = create_loop fuel (store64 m node next_value) b' element_size next in
    if leb (next + element_size) b.buffer_end then more else some (store64 m node invalid, b)

-- Each round moves `node` on by an element, so the bytes of the bucket are rounds enough.
unfoldable pub create : Mem → PoolBucket → ℕ → Option (Mem × PoolBucket)
unfolding create_loop
create m b element_size =
    let node = b.data_begin in
    let b' = record b { global_tag = 0; head = pack 0 (u32 (sub64 node b.data_begin)) } in
    create_loop (suc (b.buffer_end - b.data_begin)) m b' element_size node
