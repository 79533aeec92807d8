-- ===== src/Tests/Data.antt =====
-- The heap, the memory and the caches that the runs share.
use smmalloc.Prelude.{ℕ, ◌+◌, ◌^◌, [], ◌∷◌, some}
use smmalloc.Memory.{Mem}
use smmalloc.Pool.{PoolBucket, new_bucket, invalid}
use smmalloc.Cache.{TlsPoolBucket, Store, zero_bucket}
use smmalloc.Generic.{Libc, Machine}

-- A heap that hands out ascending addresses.
abbrev pub rising : Libc ℕ
rising = record { malloc = λ h n. (h, h + n); free = λ h p. h }

-- A heap whose next block is far above the buffer.
abbrev pub far : Libc ℕ
far = record { malloc = λ h n. (2 ^ 40, h); free = λ h p. h }

abbrev pub empty_mem : Mem
empty_mem = λ a. 0

abbrev pub empty_machine : Machine ℕ
empty_machine = record { heap = 8192; mem = empty_mem }

-- Bucket 0 at 4096 with four blocks of sixteen bytes, none of which is free.
abbrev pub drained : PoolBucket
drained = record new_bucket { head = invalid; data_begin = 4096; buffer_end = 4160 }

abbrev pub drained_store : Store
drained_store = record { mem = empty_mem; buckets = λ i. drained }

-- A cache with two blocks, which is what it has room for.
abbrev pub full_cache : TlsPoolBucket
full_cache = record zero_bucket {
  bucket_data = 4096;
  storage_l1 = 8192;
  cells_l1 = 0 ∷ 16 ∷ 0 ∷ 0 ∷ 0 ∷ 0 ∷ 0 ∷ 0 ∷ 0 ∷ [];
  bucket = some 0;
  max_elements_count = 2;
  num_elements_l1 = 2;
}
