-- ===== src/Safety/Sound.antt =====
-- The invariant of a set-up allocator: in every bucket each block is in one place.
use native.Mathlib.Nat.{div-mul-le_self}
use native.Mathlib.Decide.{dec_lt, ℕ_discrete}
use smmalloc.Prelude.{
  ℕ, ◌+◌, ◌*◌, ◌/◌, ◌≤◌, ◌<◌, ◌≡◌, ◌≢◌, ◌⊎◌, inl, inr, ◌∙◌, List, [], ◌∷◌, arith, count, sym, subst,
  ap,
}
use smmalloc.Memory.{Mem, update, update_self, update_ne, load64-cong}
use smmalloc.Pool.{PoolBucket}
use smmalloc.Pool.Chain.{Chain-cong, SameWords}
use smmalloc.Pool.Blocks.{blocks-lt}
use smmalloc.Cache.{TlsPoolBucket, Store}
use smmalloc.Cache.Inventory.{IsOpen, IsClosed, Pooled, Stocked, held_by}
use smmalloc.Sizes.{Partition}
use smmalloc.Allocator.{World, GlobalStats, store}
use smmalloc.Safety.Layout.{IsSetUp}

module _ {H : Type 0} (part : Partition) where
  -- how many blocks bucket `i` has, and where it begins
  abbrev pub blocks_in : World H → ℕ → ℕ
  blocks_in w i = w.bucket_size_in_bytes / part.size_by_index i

  abbrev pub base_of : World H → ℕ → ℕ
  base_of w i = w.buffer + i * w.bucket_size_in_bytes

  abbrev pub CacheOf : World H → ℕ → TlsPoolBucket → Type 0
  CacheOf w i t = (IsOpen i (base_of w i) t) ⊎ (IsClosed t)

  abbrev pub BucketOf : World H → ℕ → List ℕ → List ℕ → Store → TlsPoolBucket → Type 0
  BucketOf w i free lent s t =
      Stocked (part.size_by_index i) (blocks_in w i) i (base_of w i) free lent s t

  -- Every bucket holds an element or more, and each of its blocks is free, cached or lent.
  pub record IsSound (w : World H) (free lent : ℕ → List ℕ) : Type 0 where
    pub up : IsSetUp w
    pub within : (i : ℕ) → i < w.buckets_count → part.size_by_index i ≤ w.bucket_size_in_bytes
    pub bucket : (i : ℕ) → i < w.buckets_count → BucketOf w i (free i) (lent i) (store w) (w.tls i)
    pub cache : (i : ℕ) → i < w.buckets_count → CacheOf w i (w.tls i)

SameWords-of_bytes :
    (m m' : Mem) (base bound : ℕ) (xs : List ℕ)
    → ((x : ℕ) → 0 < count x xs → x + 8 ≤ bound)
    → ((a : ℕ) → base ≤ a → a < base + bound → m' a ≡ m a)
    → SameWords m m' base xs
SameWords-of_bytes m m' base bound [] below same = tt
SameWords-of_bytes m m' base bound (x ∷ xs) below same =
    let fits : x + 8 ≤ bound = below x (ground arith) in
    (
      load64-cong m m' (base + x) (λ a lo hi. same a (omega arith) (omega arith)),
      SameWords-of_bytes m m' base bound xs (λ y h. below y (ground arith)) same,
    )

-- A bucket's blocks are where they were, if its bytes and its head have not changed.
pub Pooled-frame :
    (size n j base : ℕ) (xs : List ℕ) (held : ℕ → ℕ) (s s' : Store)
    → 8 ≤ size
    → Pooled size n j base xs held s
    → ((a : ℕ) → base ≤ a → a < base + n * size → s'.mem a ≡ s.mem a)
    → (s'.buckets j).data_begin ≡ (s.buckets j).data_begin
    → (s'.buckets j).head ≡ (s.buckets j).head
    → (s'.buckets j).global_tag ≡ (s.buckets j).global_tag
    → Pooled size n j base xs held s'
Pooled-frame size n j base xs held s s' big p same at head tag = record {
  at = at ∙ p.at;
  tag_fits = rw tag p.tag_fits;
  chain = rw head (
      Chain-cong s.mem s'.mem base (s.buckets j).head xs
        (SameWords-of_bytes s.mem s'.mem base (n * size) xs
          (λ x h. omega (arith, blocks-lt size big n x (omega (arith, p.stock x)))) same)
        p.chain);
  stock = p.stock;
}

module _ {H : Type 0} (part : Partition) {w : World H} {free lent : ℕ → List ℕ}
    (sound : IsSound part w free lent) where
  module _ (i : ℕ) (lt : i < w.buckets_count) where
    pub size_ge_16 : 16 ≤ part.size_by_index i
    size_ge_16 = part.at_least_16 i (omega (arith, lt, sound.up))

    pub blocks_fit : blocks_in part w i * part.size_by_index i ≤ w.bucket_size_in_bytes
    blocks_fit = div-mul-le_self w.bucket_size_in_bytes (part.size_by_index i)

    pub stretch_fits :
        base_of part w i + w.bucket_size_in_bytes
        ≤ w.buffer + w.bucket_size_in_bytes * w.buckets_count
    stretch_fits = grind (arith, lt)

  -- the stretches of two buckets do not overlap
  pub stretches_apart :
      (i k : ℕ)
      → i ≢ k
      → (base_of part w i + w.bucket_size_in_bytes ≤ base_of part w k)
        ⊎ (base_of part w k + w.bucket_size_in_bytes ≤ base_of part w i)
  stretches_apart i k ne = elim (dec_lt i k) [
    | yes less ↦ inl (ordered i k less)
    | no more ↦ inr (ordered k i (omega arith))
  ]
    where
      ordered : (a b : ℕ) → a < b → base_of part w a + w.bucket_size_in_bytes ≤ base_of part w b
      ordered a b h = grind arith

  -- The world behind an operation on bucket `i`.
  abbrev pub changed : H → Mem → (ℕ → PoolBucket) → (ℕ → TlsPoolBucket) → GlobalStats → World H
  changed heap mem buckets tls stats = record w {
    heap = heap;
    mem = mem;
    buckets = buckets;
    tls = tls;
    global_stats = stats;
  }

  -- An operation that keeps bucket `i` stocked and touches no other keeps the allocator sound.
  pub changed-IsSound :
      (i : ℕ) (heap : H) (mem : Mem) (buckets : ℕ → PoolBucket) (tls : ℕ → TlsPoolBucket)
      (stats : GlobalStats) (free' lent' : List ℕ)
      → i < w.buckets_count
      → BucketOf part w i free' lent' (record { mem = mem; buckets = buckets }) (tls i)
      → CacheOf part w i (tls i)
      → ((a : ℕ)
          → (a < base_of part w i)
            ⊎ (base_of part w i + blocks_in part w i * part.size_by_index i ≤ a)
          → mem a ≡ w.mem a)
      → ((k : ℕ) → k ≢ i → buckets k ≡ w.buckets k)
      → ((k : ℕ) → k ≢ i → tls k ≡ w.tls k)
      → IsSound part
          (changed heap mem buckets tls stats)
          (update free i free')
          (update lent i lent')
  changed-IsSound i heap mem buckets tls stats free' lent' lt st ch bytes others caches = record {
    up = omega (arith, sound.up);
    within = sound.within;
    bucket = λ k ltk. elim (ℕ_discrete i k) [
      | yes e ↦
          subst
            (λ z.
              BucketOf part w z (update free i free' z) (update lent i lent' z)
                (record { mem = mem; buckets = buckets }) (tls z))
            e (rw (update_self free i free', update_self lent i lent') st)
      | no ne ↦
          rw (update_ne free i free' k ne, update_ne lent i lent' k ne, caches k (λ e. ne (sym e)))
            (Pooled-frame (part.size_by_index k) (blocks_in part w k) k (base_of part w k) (free k)
              (held_by (w.tls k) (lent k)) (store w) (record { mem = mem; buckets = buckets })
              (omega (arith, size_ge_16 k ltk)) (sound.bucket k ltk)
              (λ a lo hi. bytes a (away k ne a lo (omega (arith, hi, blocks_fit k ltk))))
              (ap (λ b. b.data_begin) (others k (λ e. ne (sym e))))
              (ap (λ b. b.head) (others k (λ e. ne (sym e))))
              (ap (λ b. b.global_tag) (others k (λ e. ne (sym e)))))
    ];
    cache = λ k ltk. elim (ℕ_discrete i k) [
      | yes e ↦ subst (λ z. CacheOf part w z (tls z)) e ch
      | no ne ↦ rw (caches k (λ e. ne (sym e))) (sound.cache k ltk)
    ];
  }
    where
      away :
          (k : ℕ)
          → i ≢ k
          → (a : ℕ) → base_of part w k ≤ a
          → a < base_of part w k + w.bucket_size_in_bytes
          → (a < base_of part w i)
            ⊎ (base_of part w i + blocks_in part w i * part.size_by_index i ≤ a)
      away k ne a lo hi = ground (arith, stretches_apart i k ne, blocks_fit i lt)

  -- Bookkeeping, or work outside the buffer, keeps the allocator sound.
  pub quiet-IsSound :
      (heap : H) (mem : Mem) (buckets : ℕ → PoolBucket) (stats : GlobalStats)
      → ((a : ℕ)
          → w.buffer ≤ a
          → a < w.buffer + w.bucket_size_in_bytes * w.buckets_count
          → mem a ≡ w.mem a)
      → ((k : ℕ)
          → ((buckets k).data_begin ≡ (w.buckets k).data_begin)
            × ((buckets k).head ≡ (w.buckets k).head)
            × ((buckets k).global_tag ≡ (w.buckets k).global_tag))
      → IsSound part
          (record w { heap = heap; mem = mem; buckets = buckets; global_stats = stats })
          free
          lent
  quiet-IsSound heap mem buckets stats bytes same = record {
    up = omega (arith, sound.up);
    within = sound.within;
    bucket = λ k ltk.
        Pooled-frame (part.size_by_index k) (blocks_in part w k) k (base_of part w k) (free k)
          (held_by (w.tls k) (lent k)) (store w) (record { mem = mem; buckets = buckets })
          (omega (arith, size_ge_16 k ltk)) (sound.bucket k ltk)
          (λ a lo hi.
            bytes a (omega arith) (omega (arith, hi, blocks_fit k ltk, stretch_fits k ltk)))
          (same k).0 (same k).1 (same k).2;
    cache = sound.cache;
  }
