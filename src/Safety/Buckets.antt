-- ===== src/Safety/Buckets.antt =====
-- The loop of `Allocate` over the buckets takes a block from the first that has one.
use native.Mathlib.Decide.{dec_lt}
use smmalloc.Prelude.{
  ℕ, zero, suc, ◌+◌, ◌%◌, ◌^◌, ◌≤◌, ◌<◌, ◌≡◌, ◌≢◌, refl, ◌⊎◌, inl, inr, ◌∙◌, List, [], ◌∷◌, arith,
  subst, Bool, some, Option, lt→ltb, le→ltb, ne→==,
}
use smmalloc.Memory.{update, load64}
use smmalloc.Pool.{null, PoolBucket}
use smmalloc.Pool.Chain.{Chain}
use smmalloc.Pool.Stack.{alloc-empty, alloc-pop}
use smmalloc.Sizes.{Partition}
use smmalloc.Allocator.{
  World, store, alloc_from_buckets, next_bucket, next_bucket_rounds, count_miss, count_hit,
  count_served,
}
use smmalloc.Safety.Sound.{IsSound, BucketOf, base_of, changed-IsSound, quiet-IsSound}
use smmalloc.Safety.Next.{Next, next_bucket-Next}

-- An allocation of `bytes` bytes at alignment `2 ^ k` that bucket `index` serves with the block at
-- `offset`: the block was not lent before, is lent now, and is large enough.
pub record Served {H : Type 0} (part : Partition) (w : World H) (lent : ℕ → List ℕ) (bytes k : ℕ)
    (out : Option (ℕ × World H)) : Type 0 where
  pub index : ℕ
  pub offset : ℕ
  pub world : World H
  pub free : ℕ → List ℕ
  pub returns : out ≡ some (base_of part w index + offset, world)
  pub in_range : index < w.buckets_count
  pub sound : IsSound part world free (update lent index (offset ∷ lent index))
  pub same_layout :
      (world.buckets_count ≡ w.buckets_count)
      × (world.bucket_size_in_bytes ≡ w.bucket_size_in_bytes)
      × (world.buffer ≡ w.buffer)
  pub same_machine : (world.heap ≡ w.heap) × (world.mem ≡ w.mem)
  pub enough : bytes ≤ part.size_by_index index
  pub aligned : part.size_by_index index % 2 ^ k ≡ 0

-- No bucket has a block: null, and the allocator is sound with the same blocks lent.
pub record Exhausted {H : Type 0} (part : Partition) (w : World H) (free lent : ℕ → List ℕ)
    (out : Option (ℕ × World H)) : Type 0 where
  pub world : World H
  pub returns : out ≡ some (null, world)
  pub sound : IsSound part world free lent
  pub same_layout :
      (world.buckets_count ≡ w.buckets_count)
      × (world.bucket_size_in_bytes ≡ w.bucket_size_in_bytes)
      × (world.buffer ≡ w.buffer)
  pub same_machine : (world.heap ≡ w.heap) × (world.mem ≡ w.mem)

module _ {H : Type 0} (part : Partition) (e : Bool) (bytes k : ℕ) (small : k ≤ 12) where
  -- Bucket `i` has a free block.
  module _ (w : World H) (free lent : ℕ → List ℕ) (sound : IsSound part w free lent) (i : ℕ)
      (lt : i < w.buckets_count) (enough : bytes ≤ part.size_by_index i)
      (aligned : part.size_by_index i % 2 ^ k ≡ 0) (max_index fuel : ℕ)
      (below : i < max_index) where
    abbrev popped : ℕ → PoolBucket
    popped o = record (w.buckets i) { head = load64 w.mem (base_of part w i + o) }

    abbrev after : ℕ → World H
    after o = count_hit e i (count_served e (record w { buckets = update w.buckets i (popped o) }))

    head_after : (o : ℕ) → ((after o).buckets i).head ≡ load64 w.mem (base_of part w i + o)
    head_after o = ground arith

    stocked :
        (o : ℕ) (xs : List ℕ)
        → BucketOf part w i (o ∷ xs) (lent i) (store w) (w.tls i)
        → BucketOf part w i xs (o ∷ lent i) (store (after o)) (w.tls i)
    stocked o xs st = record {
      at = ground (arith, st.at);
      tag_fits = ground (arith, st.tag_fits);
      chain = rw (head_after o) st.chain.2;
      stock = λ a. omega (arith, st.stock a);
    }

    other_buckets : (o j : ℕ) → j ≢ i → (after o).buckets j ≡ w.buckets j
    other_buckets o j ne = ground arith

    pub take_block :
        (o : ℕ) (xs : List ℕ)
        → BucketOf part w i (o ∷ xs) (lent i) (store w) (w.tls i)
        → (s : Served part w lent bytes k
            (alloc_from_buckets part (suc fuel) e w i max_index (2 ^ k)))
          × (s.index ≡ i)
    unfolding alloc_from_buckets
    take_block o xs st =
        let w' = after o in
        (
          record {
            index = i;
            offset = o;
            world = w';
            free = update free i xs;
            returns =
                rw
                  (
                    lt→ltb i max_index below,
                    alloc-pop w.mem (w.buckets i) (base_of part w i) st.at o xs st.chain,
                    ne→== (base_of part w i + o) 0 (omega (arith, sound.up)),
                  )
                  refl;
            in_range = lt;
            sound =
                changed-IsSound part sound i w.heap w.mem w'.buckets w.tls w'.global_stats xs
                  (o ∷ lent i) lt (stocked o xs st) (sound.cache i lt) (λ a out. refl)
                  (other_buckets o) (λ j ne. refl);
            same_layout = (refl, refl, refl);
            same_machine = (refl, refl);
            enough = enough;
            aligned = aligned;
          },
          refl,
        )

    -- Bucket `i` is empty: its miss is counted, and the search goes on.
    abbrev missed : World H
    missed = count_miss e i (record w { buckets = update w.buckets i (w.buckets i) })

    missed-IsSound : IsSound part missed free lent
    missed-IsSound =
        quiet-IsSound part sound w.heap w.mem missed.buckets w.global_stats (λ a lo hi. refl)
          (λ j. (ground arith, ground arith, ground arith))

    miss :
        (next : ℕ)
        → Chain w.mem (base_of part w i) (w.buckets i).head []
        → next_bucket part next_bucket_rounds i (2 ^ k) ≡ some next
        → alloc_from_buckets part (suc fuel) e w i max_index (2 ^ k)
          ≡ alloc_from_buckets part fuel e missed next max_index (2 ^ k)
    unfolding alloc_from_buckets
    miss next c found =
        rw
          (
            lt→ltb i max_index below,
            alloc-empty w.mem (w.buckets i) (base_of part w i) (sound.bucket i lt).at c,
            found,
          )
          refl

  past_end :
      (w : World H) (free lent : ℕ → List ℕ) (i max_index fuel : ℕ)
      → IsSound part w free lent
      → max_index ≤ i
      → Exhausted part w free lent (alloc_from_buckets part (suc fuel) e w i max_index (2 ^ k))
  unfolding alloc_from_buckets
  past_end w free lent i max_index fuel sound end = record {
    world = w;
    returns = rw (le→ltb i max_index end) refl;
    sound = sound;
    same_layout = (refl, refl, refl);
    same_machine = (refl, refl);
  }

  abbrev pub Outcome : World H → (ℕ → List ℕ) → (ℕ → List ℕ) → Option (ℕ × World H) → Type 0
  Outcome w free lent out = (Served part w lent bytes k out) ⊎ (Exhausted part w free lent out)

  -- The search of the world with a counted miss is one of the world before.
  after_miss :
      (w : World H) (free lent : ℕ → List ℕ) (sound : IsSound part w free lent) (i : ℕ)
      (lt : i < w.buckets_count) (enough : bytes ≤ part.size_by_index i)
      (aligned : part.size_by_index i % 2 ^ k ≡ 0) (max_index fuel : ℕ) (below : i < max_index)
      (out rest : Option (ℕ × World H))
      → out ≡ rest
      → Outcome (missed w free lent sound i lt enough aligned max_index fuel below) free lent rest
      → Outcome w free lent out
  after_miss w free lent sound i lt enough aligned max_index fuel below out rest same (inl s) =
      inl record {
        index = s.index;
        offset = s.offset;
        world = s.world;
        free = s.free;
        returns = same ∙ s.returns;
        in_range = s.in_range;
        sound = s.sound;
        same_layout = s.same_layout;
        same_machine = s.same_machine;
        enough = s.enough;
        aligned = s.aligned;
      }
  after_miss w free lent sound i lt enough aligned max_index fuel below out rest same (inr x) =
      inr record {
        world = x.world;
        returns = same ∙ x.returns;
        sound = x.sound;
        same_layout = x.same_layout;
        same_machine = x.same_machine;
      }

  -- The search of `Allocate` through the buckets of a sound allocator, from a bucket whose
  -- elements, if there is such a bucket, are of enough bytes and of a multiple of the alignment (a
  -- power of two up to 4096), with a round for each bucket up to the last, does not run out of
  -- rounds: it lends a free block of a bucket whose elements are of enough bytes and of a multiple
  -- of the alignment, or returns null with the same blocks lent. The allocator is sound after it.
  pub alloc_from_buckets-total :
      (fuel i max_index : ℕ) (w : World H) (free lent : ℕ → List ℕ)
      → IsSound part w free lent
      → max_index ≤ w.buckets_count
      → max_index ≤ i + fuel
      → (i < w.buckets_count → bytes ≤ part.size_by_index i)
      → part.size_by_index i % 2 ^ k ≡ 0
      → Outcome w free lent (alloc_from_buckets part (suc fuel) e w i max_index (2 ^ k))
  alloc_from_buckets-total zero i max_index w free lent sound le rounds enough aligned =
      inr (past_end w free lent i max_index 0 sound (omega (arith, rounds)))
  alloc_from_buckets-total (suc fuel) i max_index w free lent sound le rounds enough aligned =
      elim (dec_lt i max_index) [
        | no end ↦ inr (past_end w free lent i max_index (suc fuel) sound (omega arith))
        | yes below ↦
            let lt : i < w.buckets_count = omega arith in
            let fits = enough lt in
            let next = next_bucket-Next part k small i (omega (arith, lt, sound.up)) in
            let grown : next.index < w.buckets_count → bytes ≤ part.size_by_index next.index = λ h.
              omega
                (arith, fits, part.grows i next.index next.behind (omega (arith, h, sound.up))) in
            at_bucket (free i) refl below lt fits next (
              alloc_from_buckets-total fuel next.index max_index
                (missed w free lent sound i lt fits aligned max_index fuel below) free lent
                (missed-IsSound w free lent sound i lt fits aligned max_index fuel below) le
                (omega (arith, rounds, next.behind)) grown next.aligned)
      ]
    where
      at_bucket :
          (xs : List ℕ)
          → free i ≡ xs
          → (below : i < max_index) (lt : i < w.buckets_count) (fits : bytes ≤ part.size_by_index i)
            (next : Next part i k (next_bucket part next_bucket_rounds i (2 ^ k)))
          → Outcome (missed w free lent sound i lt fits aligned max_index fuel below) free lent (
              alloc_from_buckets part
                (suc fuel)
                e
                (missed w free lent sound i lt fits aligned max_index fuel below)
                next.index
                max_index
                (2 ^ k))
          → Outcome w free lent (alloc_from_buckets part (suc (suc fuel)) e w i max_index (2 ^ k))
      at_bucket (o ∷ xs) eq below lt fits next rest = inl (
          (take_block w free lent sound i lt fits aligned max_index (suc fuel) below o xs (
            subst (λ z. BucketOf part w i z (lent i) (store w) (w.tls i)) eq
              (sound.bucket i lt))).0)
      at_bucket [] eq below lt fits next rest =
          let c =
            subst (λ z. Chain w.mem (base_of part w i) (w.buckets i).head z) eq
              (sound.bucket i lt).chain in
          after_miss w free lent sound i lt fits aligned max_index fuel below _ _
            (miss w free lent sound i lt fits aligned max_index (suc fuel) below next.index c
              next.returns)
            rest
