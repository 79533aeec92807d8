-- ===== src/Safety/Release.antt =====
-- `Allocator::Free` of a block that the buckets lent takes it back.
use native.Mathlib.Decide.{ℕ_discrete}
use smmalloc.Prelude.{
  subst, ◌≢◌, ℕ, ◌+◌, ◌-◌, ◌*◌, ◌^◌, ◌≤◌, ◌<◌, ◌≡◌, refl, ◌⊎◌, inl, inr, ◌∙◌, List, [], ◌∷◌, arith,
  count, sym, ap, some, Option, true, lt→ltb,
}
use smmalloc.Memory.{Mem, update, update_self, update_ne, store64, store64-out}
use smmalloc.Pool.Chain.{Chain}
use smmalloc.Pool.Stack.{free_interval_lem, free_interval-Chain, pushed}
use smmalloc.Pool.Blocks.{blocks-lt, blocks-apart, count-blocks-le, AllApart-of_count}
use smmalloc.Cache.{release_to_cache}
use smmalloc.Cache.Inventory.{IsOpen, IsClosed}
use smmalloc.Cache.Release.{Released, release_to_cache-Released, release_to_cache-closed}
use smmalloc.Generic.{Libc}
use smmalloc.Sizes.{Partition}
use smmalloc.Allocator.{World, store, is_readable, find_bucket, count_free, free, free_to_bucket}
use smmalloc.Safety.Sound.{
  IsSound, BucketOf, base_of, blocks_in, changed-IsSound, quiet-IsSound, stretches_apart,
  stretch_fits, size_ge_16, blocks_fit,
}
use smmalloc.Safety.Find.{find_bucket-inside}

-- The world after the block of bucket `i` is back: `rest` is what is still lent.
pub record Freed {H : Type 0} (part : Partition) (w : World H) (free_lists lent : ℕ → List ℕ)
    (i : ℕ) (rest : List ℕ) (out : Option (World H)) : Type 0 where
  pub world : World H
  pub list : List ℕ
  pub returns : out ≡ some world
  pub sound : IsSound part world (update free_lists i list) (update lent i rest)
  pub same_layout :
      (world.buckets_count ≡ w.buckets_count)
      × (world.bucket_size_in_bytes ≡ w.bucket_size_in_bytes)
      × (world.buffer ≡ w.buffer)
  pub same_heap : world.heap ≡ w.heap
  pub outside :
      (a : ℕ)
      → (a < w.buffer) ⊎ (w.buffer + w.bucket_size_in_bytes * w.buckets_count ≤ a)
      → world.mem a ≡ w.mem a
  pub kept :
      (j z a : ℕ)
      → j < w.buckets_count
      → 0 < count z (update lent i rest j)
      → base_of part w j + z ≤ a
      → a < base_of part w j + z + part.size_by_index j
      → world.mem a ≡ w.mem a

module _ {H : Type 0} (part : Partition) (w : World H) (free_lists lent : ℕ → List ℕ)
    (sound : IsSound part w free_lists lent) (i : ℕ) (lt : i < w.buckets_count) (o : ℕ)
    (rest : List ℕ) (was_lent : (a : ℕ) → count a (lent i) ≡ count a (o ∷ rest)) where
  abbrev size : ℕ
  size = part.size_by_index i

  abbrev n : ℕ
  n = blocks_in part w i

  abbrev base : ℕ
  base = base_of part w i

  abbrev counted : World H
  counted = count_free i w

  counted-IsSound : IsSound part counted free_lists lent
  counted-IsSound =
      quiet-IsSound part sound w.heap w.mem counted.buckets w.global_stats (λ a lo hi. refl)
        (λ j. (ground arith, ground arith, ground arith))

  stocked : BucketOf part w i (free_lists i) (o ∷ rest) (store counted) (w.tls i)
  stocked =
      let st = counted-IsSound.bucket i lt in
      record {
        at = st.at;
        tag_fits = st.tag_fits;
        chain = st.chain;
        stock = λ a. omega (arith, st.stock a, was_lent a);
      }

  big : 8 ≤ size
  big = omega (arith, size_ge_16 part sound i lt)

  few : n * size < 2 ^ 32 - 1
  few = omega (arith, blocks_fit part sound i lt, sound.up)

  in_bucket : o + size ≤ n * size
  in_bucket = blocks-lt size big n o (ground (arith, stocked.stock o))

  far :
      (a : ℕ)
      → (a < w.buffer) ⊎ (w.buffer + w.bucket_size_in_bytes * w.buckets_count ≤ a)
      → (a < base) ⊎ (base + n * size ≤ a)
  far a out = ground (arith, out, stretch_fits part sound i lt, blocks_fit part sound i lt)

  -- A block of another bucket is outside this one.
  elsewhere :
      (j z a : ℕ)
      → j < w.buckets_count
      → j ≢ i
      → 0 < count z (lent j)
      → base_of part w j + z ≤ a
      → a < base_of part w j + z + part.size_by_index j
      → (a < base) ⊎ (base + n * size ≤ a)
  elsewhere j z a ltj ne held lo hi =
      let big_j : 8 ≤ part.size_by_index j = omega (arith, size_ge_16 part sound j ltj) in
      let at_j =
        blocks-lt (part.size_by_index j) big_j (blocks_in part w j) z
          (omega (arith, (sound.bucket j ltj).stock z, held)) in
      ground (
        arith,
        stretches_apart part sound j i ne,
        at_j,
        blocks_fit part sound j ltj,
        blocks_fit part sound i lt,
      )

  -- What is kept for the bytes of lent blocks, if those of the bucket's own are kept.
  keeps :
      (m : Mem)
      → ((a : ℕ) → (a < base) ⊎ (base + n * size ≤ a) → m a ≡ w.mem a)
      → ((z a : ℕ) → 0 < count z rest → base + z ≤ a → a < base + z + size → m a ≡ w.mem a)
      → (j z a : ℕ) → j < w.buckets_count
      → 0 < count z (update lent i rest j)
      → base_of part w j + z ≤ a
      → a < base_of part w j + z + part.size_by_index j
      → m a ≡ w.mem a
  keeps m bytes own j z a ltj held lo hi = elim (ℕ_discrete i j) [
    | yes e ↦
        own z a
          (subst (λ v. 0 < count z v) (update_self lent i rest)
            (subst (λ v. 0 < count z (update lent i rest v)) (sym e) held))
          (subst (λ v. base_of part w v + z ≤ a) (sym e) lo)
          (subst (λ v. a < base_of part w v + z + part.size_by_index v) (sym e) hi)
    | no ne ↦ bytes a (
        elsewhere j z a ltj (λ e. ne (sym e))
          (subst (λ v. 0 < count z v) (update_ne lent i rest j ne) held) lo hi)
  ]

  -- the cache is in use
  module _ (is_open : IsOpen i base (w.tls i)) where
    released :
        Released size n i base rest
          (store counted)
          (w.tls i).max_elements_count
          (release_to_cache true (store counted) (w.tls i) (base + o))
    released =
        release_to_cache-Released size n i base big few (free_lists i) o rest (store counted)
          (w.tls i) is_open stocked true

    abbrev cached : World H
    cached = record counted {
      mem = released.store.mem;
      buckets = released.store.buckets;
      tls = update w.tls i released.cache;
    }

    cached-IsSound : IsSound part cached (update free_lists i released.free) (update lent i rest)
    cached-IsSound =
        changed-IsSound part counted-IsSound i w.heap cached.mem cached.buckets cached.tls
          w.global_stats released.free rest lt
          (rw (update_self w.tls i released.cache) released.stocked)
          (rw (update_self w.tls i released.cache) (inl released.is_open)) released.bytes
          released.other_buckets (λ j ne. update_ne w.tls i released.cache j (λ e. ne (sym e)))

    into_cache : free_to_bucket w (base + o) i ≡ some cached
    unfolding free_to_bucket
    into_cache = rw released.returns refl

  -- the cache is not in use
  module _ (closed : IsClosed (w.tls i)) where
    abbrev pooled : World H
    pooled = record counted {
      mem = store64 w.mem (base + o) (counted.buckets i).head;
      buckets = update counted.buckets i (pushed (counted.buckets i) o);
      tls = update w.tls i (w.tls i);
    }

    head_after : pooled.buckets i ≡ pushed (counted.buckets i) o
    head_after = update_self counted.buckets i (pushed (counted.buckets i) o)

    on_top : Chain pooled.mem base (pushed (counted.buckets i) o).head (o ∷ free_lists i)
    on_top =
        free_interval-Chain w.mem (counted.buckets i) base stocked.at o
          (omega (arith, in_bucket, few)) [] (free_lists i) stocked.tag_fits
          (AllApart-of_count size big n (o ∷ free_lists i) (λ a. ground (arith, stocked.stock a)))
          tt stocked.chain

    pushed_stocked : BucketOf part w i (o ∷ free_lists i) rest (store pooled) (w.tls i)
    pushed_stocked = record {
      at = ap (λ b. b.data_begin) head_after ∙ stocked.at;
      tag_fits = rw (ap (λ b. b.global_tag) head_after) (omega arith);
      chain = rw (ap (λ b. b.head) head_after) on_top;
      stock = λ a. ground (arith, stocked.stock a);
    }

    beyond : (a : ℕ) → (a < base) ⊎ (base + n * size ≤ a) → (a < base + o) ⊎ (base + o + 8 ≤ a)
    beyond a out = ground (arith, in_bucket, big)

    pooled_bytes : (a : ℕ) → (a < base) ⊎ (base + n * size ≤ a) → pooled.mem a ≡ w.mem a
    pooled_bytes a out = store64-out w.mem (base + o) (counted.buckets i).head a (beyond a out)

    pooled_kept :
        (z a : ℕ) → 0 < count z rest → base + z ≤ a → a < base + z + size → pooled.mem a ≡ w.mem a
    pooled_kept z a held lo hi =
        let apart =
          blocks-apart size big n 0 z o (omega (arith, stocked.stock z, held))
            (ground (arith, stocked.stock o))
            (λ e.
              let twice : 0 < count o rest = subst (λ v. 0 < count v rest) e held in
              absurd (ground (arith, stocked.stock o, count-blocks-le size big n 0 o))) in
        store64-out w.mem (base + o) (counted.buckets i).head a (ground (arith, apart, lo, hi, big))

    pooled-IsSound :
        IsSound part pooled (update free_lists i (o ∷ free_lists i)) (update lent i rest)
    pooled-IsSound =
        changed-IsSound part counted-IsSound i w.heap pooled.mem pooled.buckets pooled.tls
          w.global_stats (o ∷ free_lists i) rest lt
          (rw (update_self w.tls i (w.tls i)) pushed_stocked)
          (rw (update_self w.tls i (w.tls i)) (inr closed))
          (λ a out. store64-out w.mem (base + o) (counted.buckets i).head a (beyond a out))
          (λ j ne. update_ne counted.buckets i (pushed (counted.buckets i) o) j (λ e. ne (sym e)))
          (λ j ne. update_ne w.tls i (w.tls i) j (λ e. ne (sym e)))

    into_pool : free_to_bucket w (base + o) i ≡ some pooled
    unfolding free_to_bucket
    into_pool =
        rw
          (
            release_to_cache-closed true (store counted) (w.tls i) (base + o) closed,
            free_interval_lem w.mem (counted.buckets i) base stocked.at o
                (omega (arith, in_bucket, few)) (base + o),
          )
          refl

  module _ (libc : Libc H) where
    reaches :
        (out : Option (World H))
        → free_to_bucket w (base + o) i ≡ out
        → free libc w (base + o) ≡ out
    unfolding free is_readable
    reaches out e =
        let inside : o < w.bucket_size_in_bytes =
          omega (arith, in_bucket, big, blocks_fit part sound i lt) in
        let place : base + o ≡ w.buffer + (i * w.bucket_size_in_bytes + o) = omega arith in
        let found : find_bucket w (base + o) ≡ some i =
          ap (find_bucket w) place ∙ find_bucket-inside sound.up i o lt inside in
        rw (lt→ltb 4096 (base + o) (omega (arith, sound.up)), found, lt→ltb i w.buckets_count lt) e

    -- In a sound allocator, `Free` of the address of a block that a bucket lent, whether its cache
    -- is in use or not, ends with the allocator sound, that block no longer lent, the blocks lent
    -- otherwise being the same; the heap, the memory outside the buffer and the bytes of the
    -- blocks that are still lent have not changed.
    pub free-Freed : Freed part w free_lists lent i rest (free libc w (base + o))
    free-Freed = elim (sound.cache i lt) [
      | inl is_open ↦ record {
        world = cached is_open;
        list = (released is_open).free;
        returns = reaches _ (into_cache is_open);
        sound = cached-IsSound is_open;
        same_layout = (refl, refl, refl);
        same_heap = refl;
        outside = λ a out. (released is_open).bytes a (far a out);
        kept = keeps (released is_open).store.mem (released is_open).bytes (released is_open).kept;
      }
      | inr closed ↦ record {
        world = pooled closed;
        list = o ∷ free_lists i;
        returns = reaches _ (into_pool closed);
        sound = pooled-IsSound closed;
        same_layout = (refl, refl, refl);
        same_heap = refl;
        outside = λ a out. pooled_bytes closed a (far a out);
        kept = keeps (pooled closed).mem (pooled_bytes closed) (pooled_kept closed);
      }
    ]
