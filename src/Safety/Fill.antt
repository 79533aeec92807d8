-- ===== src/Safety/Fill.antt =====
-- The loop of `Init` fills the lists of free blocks of the buckets one after the other.
use native.Mathlib.Nat.{div-mul-le_self}
use native.Mathlib.Decide.{ℕ_discrete}
use smmalloc.Prelude.{
  ◌⊎◌, ◌∙◌, ℕ, zero, suc, ◌+◌, ◌-◌, ◌*◌, ◌^◌, ◌≤◌, ◌<◌, ◌≡◌, refl, inl, arith, sym, subst, ap, some,
  Option, u64, ne→==,
}
use smmalloc.Memory.{Mem, update, update_self, update_ne}
use smmalloc.Pool
use smmalloc.Pool.{PoolBucket}
use smmalloc.Pool.Blocks.{blocks, block_count_lem}
use smmalloc.Pool.Create.{Created, create-Created}
use smmalloc.Cache.{Store}
use smmalloc.Cache.Inventory.{Pooled}
use smmalloc.Sizes.{Partition, max_bucket_count}
use smmalloc.Allocator.{World, init_buckets}
use smmalloc.Safety.Sound.{base_of, blocks_in, Pooled-frame}

module _ {H : Type 0} (part : Partition) (w : World H)
    (count_max : w.buckets_count ≤ max_bucket_count)
    (size_small : w.bucket_size_in_bytes < 2 ^ 32 - 1)
    (fits : w.buffer + w.bucket_size_in_bytes * w.buckets_count < 2 ^ 64)
    (within : (i : ℕ) → i < w.buckets_count → part.size_by_index i ≤ w.bucket_size_in_bytes) where
  abbrev pub built : Mem → (ℕ → PoolBucket) → (ℕ → ℕ) → World H
  built mem buckets begins = record w { mem = mem; buckets = buckets; buckets_data_begin = begins }

  -- all blocks of bucket `j` are free
  abbrev pub AllFree : Store → ℕ → Type 0
  AllFree s j =
      Pooled (part.size_by_index j) (blocks_in part w j) j (base_of part w j)
        (blocks (part.size_by_index j) 0 (blocks_in part w j)) (λ _. 0) s

  pub record Filled (out : Option (World H)) : Type 0 where
    pub mem : Mem
    pub buckets : ℕ → PoolBucket
    pub begins : ℕ → ℕ
    pub returns : out ≡ some (built mem buckets begins)
    pub begin : begins 0 ≡ w.buffer
    pub all_free :
        (j : ℕ) → j < w.buckets_count → AllFree (record { mem = mem; buckets = buckets }) j
    pub outside :
        (a : ℕ)
        → (a < w.buffer) ⊎ (w.buffer + w.bucket_size_in_bytes * w.buckets_count ≤ a)
        → mem a ≡ w.mem a

  module _ (i : ℕ) (lt : i < w.buckets_count) (mem : Mem) (buckets : ℕ → PoolBucket) where
    placed : w.buffer + u64 (i * w.bucket_size_in_bytes) ≡ base_of part w i
    placed =
        let le : i * w.bucket_size_in_bytes ≤ w.bucket_size_in_bytes * w.buckets_count =
          grind (arith, lt) in
        omega (arith, le, fits)

    abbrev bucket : PoolBucket
    bucket = record (buckets i) {
      data_begin = base_of part w i;
      buffer_end = base_of part w i + w.bucket_size_in_bytes;
    }

    big : 8 ≤ part.size_by_index i
    big = omega (arith, part.at_least_16 i (omega (arith, lt, count_max)))

    created :
        Created mem bucket
          (part.size_by_index i)
          w.bucket_size_in_bytes
          (Pool.create mem bucket (part.size_by_index i))
    created =
        create-Created mem bucket (part.size_by_index i) w.bucket_size_in_bytes big size_small refl

    abbrev now : PoolBucket
    now = record bucket { head = 0; global_tag = created.tag }

    abbrev store' : Store
    store' = record { mem = created.mem; buckets = update buckets i now }

    this : AllFree store' i
    this = record {
      at = ap (λ b. b.data_begin) (update_self buckets i now);
      tag_fits = rw (ap (λ b. b.global_tag) (update_self buckets i now)) created.tag_fits;
      chain = rw (ap (λ b. b.head) (update_self buckets i now)) (
          rw (← block_count_lem (part.size_by_index i) w.bucket_size_in_bytes (within i lt))
            created.chain);
      stock = λ a. omega arith;
    }

    below :
        (j : ℕ)
        → j < i
        → (a : ℕ) → a < base_of part w j + blocks_in part w j * part.size_by_index j
        → a < base_of part w i
    below j before a hi =
        let next : suc j * w.bucket_size_in_bytes ≤ i * w.bucket_size_in_bytes =
          grind (arith, before) in
        omega (arith, next, hi, div-mul-le_self w.bucket_size_in_bytes (part.size_by_index j))

    earlier :
        (j : ℕ) → j < i → AllFree (record { mem = mem; buckets = buckets }) j → AllFree store' j
    earlier j before p =
        let other = update_ne buckets i now j (omega arith) in
        Pooled-frame (part.size_by_index j) (blocks_in part w j) j (base_of part w j)
          (blocks (part.size_by_index j) 0 (blocks_in part w j)) (λ _. 0)
          (record { mem = mem; buckets = buckets }) store'
          (omega (arith, part.at_least_16 j (omega (arith, lt, before, count_max)))) p
          (λ a lo hi. created.same a (inl (below j before a hi))) (ap (λ b. b.data_begin) other)
          (ap (λ b. b.head) other) (ap (λ b. b.global_tag) other)

    untouched :
        (a : ℕ)
        → (a < w.buffer) ⊎ (w.buffer + w.bucket_size_in_bytes * w.buckets_count ≤ a)
        → created.mem a ≡ mem a
    untouched a out =
        let next : suc i * w.bucket_size_in_bytes ≤ w.bucket_size_in_bytes * w.buckets_count =
          grind (arith, lt) in
        created.same a (ground (arith, next, within i lt, big))

  -- With `rounds` buckets left, those before `i` being filled.
  pub init_buckets-Filled :
      (rounds i : ℕ) (mem : Mem) (buckets : ℕ → PoolBucket) (begins : ℕ → ℕ)
      → i + rounds ≡ w.buckets_count
      → (0 < i → begins 0 ≡ w.buffer)
      → 0 < w.buckets_count
      → ((j : ℕ) → j < i → AllFree (record { mem = mem; buckets = buckets }) j)
      → ((a : ℕ)
          → (a < w.buffer) ⊎ (w.buffer + w.bucket_size_in_bytes * w.buckets_count ≤ a)
          → mem a ≡ w.mem a)
      → Filled (init_buckets part rounds i (built mem buckets begins))
  unfolding init_buckets
  init_buckets-Filled zero i mem buckets begins total begin pos filled outside = record {
    mem = mem;
    buckets = buckets;
    begins = begins;
    returns = refl;
    begin = begin (omega arith);
    all_free = λ j lt. filled j (omega arith);
    outside = outside;
  }
  init_buckets-Filled (suc rounds) i mem buckets begins total begin pos filled outside =
      let lt : i < w.buckets_count = omega arith in
      rw (placed i lt mem buckets, (created i lt mem buckets).returns)
        (init_buckets-Filled rounds (i + 1) (created i lt mem buckets).mem
          (update buckets i (now i lt mem buckets)) (update begins i (base_of part w i))
          (omega arith) (λ h. begin_after i begins begin) pos
          (λ j h. elim (ℕ_discrete j i) [
            | yes e ↦
                subst (λ z. AllFree (store' i lt mem buckets) z) (sym e) (this i lt mem buckets)
            | no ne ↦ earlier i lt mem buckets j (omega arith) (filled j (omega arith))
          ])
          (λ a out. untouched i lt mem buckets a out ∙ outside a out))
    where
      begin_after :
          (i : ℕ) (begins : ℕ → ℕ)
          → (0 < i → begins 0 ≡ w.buffer)
          → update begins i (base_of part w i) 0 ≡ w.buffer
      begin_after zero begins begin = omega arith
      begin_after (suc i) begins begin = rw (ne→== (suc i) 0 (omega arith)) (begin (omega arith))
