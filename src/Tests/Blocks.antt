-- ===== src/Tests/Blocks.antt =====
-- Runs of the buckets and of the generic allocator.
use smmalloc.Prelude.{ℕ, List, ◌+◌, ◌-◌, ◌^◌, ◌<◌, ◌≡◌, refl, some, [], ◌∷◌, arith, inl, ◌∙◌}
use smmalloc.Memory.{Mem, store64, load64-store64, load64-store64_apart}
use smmalloc.Pool.{PoolBucket, create, pack, invalid}
use smmalloc.Pool.Chain.{Chain}
use smmalloc.Pool.Refines.{
  Op, take, put, bucket_run, bucket_run-stack, addresses_of, stack_outputs, stack_after, StandsFor,
}
use smmalloc.Pool.Create.{Created, create-Created}
use smmalloc.Generic.{Machine, overhead, clamp_alignment}
use smmalloc.Generic
use smmalloc.Generic.Block.{Block, alloc-Block, alloc_wraps}
use smmalloc.Generic.Resize.{Resized, realloc-Resized}
use smmalloc.Tests.Data.{rising, empty_mem, empty_machine, drained}

create-Created_example : Created empty_mem drained 16 64 (create empty_mem drained 16)
create-Created_example = create-Created empty_mem drained 16 64 (omega arith) (omega arith) refl

-- a bucket whose one free block is at offset 32, with `Invalid` in it
abbrev one_free : PoolBucket
one_free = record drained { head = pack 5 32 }

one_free-Chain : Chain (store64 empty_mem 4128 invalid) 4096 one_free.head (32 ∷ [])
one_free-Chain = (omega arith, omega arith, load64-store64 empty_mem 4128 invalid (omega arith))

alloc-Block_example :
    Block rising empty_machine 100
      (2 ^ 4)
      8192
      8323
      (Generic.alloc rising empty_machine 100 (2 ^ 4))
alloc-Block_example =
    alloc-Block rising empty_machine 100 4 8192 8323 (omega arith) (omega arith) (omega arith)
      (omega arith) refl

-- 2 ^ 64 - 8 bytes, for which `malloc` is asked for 23
alloc_wraps_example :
    (block : Block rising empty_machine
      (2 ^ 64 - 8)
      (2 ^ 4)
      8192
      (8192 + 23)
      (Generic.alloc rising empty_machine (2 ^ 64 - 8) (2 ^ 4)))
    × (8192 + (2 ^ 64 - 8 + (2 ^ 4 + 15) - 2 ^ 64) < block.address + (2 ^ 64 - 8))
alloc_wraps_example =
    alloc_wraps rising empty_machine (2 ^ 64 - 8) 4 8192 (8192 + 23) (omega arith) (omega arith)
      (omega arith) (omega arith) (omega arith) (omega arith) refl

-- a block of 100 bytes at 8208, with its header, and a heap that goes on at 20000
abbrev one_block : Machine ℕ
one_block = record { heap = 20000; mem = store64 (store64 empty_mem 8192 8192) 8200 100 }

realloc-Resized_example :
    Resized rising one_block 8208 8192 100 200
      (2 ^ 4)
      20231
      (Generic.realloc rising one_block 8208 200 (2 ^ 4))
realloc-Resized_example =
    realloc-Resized rising one_block 200 4 8208 8192 100 20000 20231 (omega arith) (omega arith)
      (omega arith) (omega arith) refl (omega arith) (omega arith)
      (load64-store64_apart (store64 empty_mem 8192 8192) 8200 100 8192 (inl (omega arith))
        ∙ load64-store64 empty_mem 8192 8192 (omega arith))
      (load64-store64 (store64 empty_mem 8192 8192) 8200 100 (omega arith)) (inl (omega arith))

-- One block is put there, and three are asked for.
abbrev calls : List Op
calls = put 0 ∷ take ∷ take ∷ take ∷ []

abbrev one_free_mem : Mem
one_free_mem = store64 empty_mem 4128 invalid

bucket_run-stack_example :
    (m : Mem) × (b : PoolBucket) × (bucket_run 4096 calls one_free_mem one_free
      ≡ some (addresses_of 4096 (stack_outputs calls (32 ∷ [])), m, b))
    × StandsFor 4096 m b (stack_after calls (32 ∷ []))
bucket_run-stack_example =
    bucket_run-stack 4096 calls one_free_mem one_free (32 ∷ [])
      (record { at = refl; tag_fits = omega arith; chain = one_free-Chain; apart = (tt, tt) })
      (omega arith, (inl (omega arith), tt), tt)
