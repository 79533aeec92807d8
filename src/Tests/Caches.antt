-- ===== src/Tests/Caches.antt =====
-- Runs of the thread's cache.
use smmalloc.Prelude.{ℕ, ◌+◌, ◌-◌, ◌≡◌, refl, inl, [], ◌∷◌, arith, count, false}
use smmalloc.Pool.Blocks.{blocks}
use smmalloc.Cache.{release_to_cache, return_l1_cache_to_master, destroy}
use smmalloc.Cache.Inventory.{
  IsOpen, HasArray, Stocked, Pooled, Popped, l1, alloc_from_cache-Popped,
}
use smmalloc.Cache.Return.{Returned, return_l1-Returned}
use smmalloc.Cache.Release.{Released, release_to_cache-Released}
use smmalloc.Cache.Destroy.{Destroyed, destroy-Destroyed}
use smmalloc.Cache.RoundTrip.{Returns, release-alloc}
use smmalloc.Tests.Data.{drained_store, full_cache}

full-IsOpen : IsOpen 0 4096 full_cache
full-IsOpen = record {
  room = omega arith;
  max_fits = omega arith;
  l1_length = refl;
  l0_length = refl;
  l0_fits = omega arith;
  l1_fits = omega arith;
  at = refl;
  owner = refl;
}

full-HasArray : HasArray 0 4096 full_cache
full-HasArray = record { within = omega arith; at = refl; owner = refl }

all_four : (a : ℕ) → count a (l1 full_cache) + count a (32 ∷ 48 ∷ []) ≡ count a (blocks 16 0 4)
unfolding blocks
all_four a = ground arith

full-Stocked : Stocked 16 4 0 4096 [] (32 ∷ 48 ∷ []) drained_store full_cache
full-Stocked = record {
  at = refl;
  tag_fits = omega arith;
  chain = refl;
  stock = λ a. omega (arith, all_four a);
}

full-Pooled :
    Pooled 16 4 0 4096 [] (λ a. count a (l1 full_cache) + count a (32 ∷ 48 ∷ [])) drained_store
full-Pooled = record {
  at = refl;
  tag_fits = omega arith;
  chain = refl;
  stock = λ a. omega (arith, all_four a);
}

alloc_from_cache-Popped_example : Popped 4096 0 full_cache
alloc_from_cache-Popped_example = alloc_from_cache-Popped 0 4096 full_cache (inl full-IsOpen)

return_l1-Returned_example :
    Returned 16 4 0 4096 []
      (λ a. count a (32 ∷ 48 ∷ []))
      drained_store
      full_cache
      (2 - 1)
      (return_l1_cache_to_master drained_store full_cache 1)
return_l1-Returned_example =
    return_l1-Returned 16 4 0 4096 (omega arith) (omega arith) [] (λ a. count a (32 ∷ 48 ∷ []))
      drained_store full_cache full-HasArray full-Pooled 1

release_to_cache-Released_example :
    Released 16 4 0 4096
      (48 ∷ [])
      drained_store
      2
      (release_to_cache false drained_store full_cache (4096 + 32))
release_to_cache-Released_example =
    release_to_cache-Released 16 4 0 4096 (omega arith) (omega arith) [] 32 (48 ∷ []) drained_store
      full_cache full-IsOpen full-Stocked false

destroy-Destroyed_example :
    Destroyed 16 4 0 4096 (32 ∷ 48 ∷ []) drained_store full_cache (destroy drained_store full_cache)
destroy-Destroyed_example =
    destroy-Destroyed 16 4 0 4096 (omega arith) (omega arith) [] (32 ∷ 48 ∷ []) drained_store
      full_cache full-Stocked (inl full-IsOpen)

release-alloc_example : Returns drained_store full_cache (4096 + 32)
release-alloc_example =
    release-alloc drained_store full_cache 0 4096 32 full-IsOpen (omega arith) (omega arith)
      (omega arith)
