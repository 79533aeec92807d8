-- ===== src/CApi.antt =====
-- The C interface at the end of SmMalloc/smmalloc.h, with `Invalid` and `Destroy` of
-- `GenericAllocator`, its `Deleter`, and `GetTlsBucket` of SmMalloc/smmalloc_tls.cpp. The allocator
-- that `_sm_allocator_create` constructs at an address is kept as a `World`, not as bytes there.
pub mod Lifetime
use smmalloc.Prelude.{true, ℕ, zero, ◌+◌, List, Option, none, some, ◌==◌, if◌then◌else◌, ◌>>=◌}
use smmalloc.Memory.{Mem}
use smmalloc.Align.{align}
use smmalloc.Pool.{null}
use smmalloc.Cache.{TlsPoolBucket}
use smmalloc.Generic.{Libc, Machine, create_instance, is_valid}
use smmalloc.Generic
use smmalloc.Sizes.{Partition}
use smmalloc.Allocator.{
  World, construct, init, allocate, machine, get_usable_size, get_bucket_index, CacheWarmupOptions,
  create_thread_cache, destroy_thread_cache, cache_line_size,
}
use smmalloc.Allocator

-- `GenericAllocator::Invalid` and `GenericAllocator::Destroy`
abbrev pub invalid_instance : ℕ
invalid_instance = null

abbrev pub destroy_instance {ℓ} : {S : Type ℓ} → ℕ → S → S
destroy_instance instance s = s

-- `__alignof(sm::Allocator)`, which is that of `PoolBucket`
abbrev pub alignof_allocator : ℕ
alignof_allocator = cache_line_size

module _ {H : Type 0} where
  -- The caches outlive the allocators of a thread.
  abbrev pub get_tls_bucket : World H → ℕ → TlsPoolBucket
  get_tls_bucket w index = w.tls index

  module _ (libc : Libc H) where
    -- `GenericAllocator::Deleter`, run by the destructor of `pBuffer` on a pointer other than null
    unfoldable pub delete_buffer : Machine H → ℕ → Machine H
    delete_buffer s buffer = if buffer == null then s else Generic.free libc s buffer

    -- `_sm_allocator_destroy` of the allocator at the address `allocator`
    unfoldable pub sm_allocator_destroy : World H → ℕ → Machine H
    unfolding delete_buffer
    sm_allocator_destroy w allocator =
        if allocator == null
        then machine w
        else destroy_instance create_instance
            (Generic.free libc (delete_buffer (machine w) w.buffer) allocator)

    unfoldable pub sm_allocator_thread_cache_destroy : World H → ℕ → Option (World H)
    sm_allocator_thread_cache_destroy w allocator =
        if allocator == null then some w else destroy_thread_cache libc w

    unfoldable pub sm_free : World H → ℕ → Option (World H)
    sm_free w p = Allocator.free libc w p

    module _ (part : Partition) where
      -- `_sm_allocator_create`: the address, and the allocator constructed there. `sizeof_allocator`
      -- is `sizeof(sm::Allocator)`. To construct it at a null pointer is undefined.
      unfoldable pub sm_allocator_create :
          ℕ → Machine H → (ℕ → TlsPoolBucket) → ℕ → ℕ → Option (ℕ × World H)
      sm_allocator_create sizeof_allocator s tls buckets_count bucket_size_in_bytes =
          let a = align alignof_allocator cache_line_size in
          let (p, s') = Generic.alloc libc s sizeof_allocator a in
          let w = construct s'.heap s'.mem in
          let ready = init part libc (record w { tls = tls }) buckets_count bucket_size_in_bytes in
          let made = ready >>= λ w'. some (p, w') in
          let constructed = if p == null then none else made in
          if is_valid create_instance then constructed else some (null, w)

      unfoldable pub sm_allocator_thread_cache_create :
          World H → ℕ → CacheWarmupOptions → List ℕ → Option (World H)
      sm_allocator_thread_cache_create w allocator warmup options =
          if allocator == null then some w else create_thread_cache libc part w warmup options

      unfoldable pub sm_malloc : World H → ℕ → ℕ → Option (ℕ × World H)
      sm_malloc w bytes_count alignment = allocate part libc true w bytes_count alignment

      unfoldable pub sm_realloc : World H → ℕ → ℕ → ℕ → Option (ℕ × World H)
      sm_realloc w p bytes_count alignment = Allocator.realloc libc part w p bytes_count alignment

      unfoldable pub sm_msize : World H → ℕ → Option ℕ
      sm_msize w p = get_usable_size part libc w p

    unfoldable pub sm_mbucket : World H → ℕ → Option (Option ℕ)
    sm_mbucket w p = get_bucket_index w p
