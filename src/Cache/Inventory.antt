-- ===== src/Cache/Inventory.antt =====
-- Where the blocks of one bucket are: in its list of free blocks, in the two stacks of the cache, or
-- lent to the program.
use native.Mathlib.Decide.{dec_lt}
use smmalloc.Prelude.{
  ℕ, zero, suc, ◌+◌, ◌-◌, ◌^◌, ◌≤◌, ◌<◌, ◌≡◌, refl, ◌⊎◌, inl, inr, some, List, [], ◌∷◌, arith,
  length, take, count, count-append, get_elem?, get_elem?-some, take-suc,
}
use smmalloc.Pool.{null}
use smmalloc.Pool.Chain.{Chain}
use smmalloc.Pool.Blocks.{blocks}
use smmalloc.Cache.{TlsPoolBucket, Store, max_cache_items_count, alloc_from_cache}

-- the contents of the two stacks, from the bottom up
abbrev pub l0 : TlsPoolBucket → List ℕ
l0 t = take t.num_elements_l0 t.storage_l0

abbrev pub l1 : TlsPoolBucket → List ℕ
l1 t = take t.num_elements_l1 t.cells_l1

-- A cache that `Init` has set up for the bucket `j` at address `base`, with room for two or more.
pub record IsOpen (j base : ℕ) (t : TlsPoolBucket) : Type 0 where
  pub room : 2 ≤ t.max_elements_count
  pub max_fits : t.max_elements_count + max_cache_items_count < 2 ^ 32
  pub l1_length : length t.cells_l1 ≡ t.max_elements_count + max_cache_items_count
  pub l0_length : length t.storage_l0 ≡ max_cache_items_count
  pub l0_fits : t.num_elements_l0 ≤ max_cache_items_count
  pub l1_fits : t.num_elements_l1 ≤ t.max_elements_count
  pub at : t.bucket_data ≡ base
  pub owner : t.bucket ≡ some j

-- What `ReturnL1CacheToMaster` needs of a cache: a stack within its array.
pub record HasArray (j base : ℕ) (t : TlsPoolBucket) : Type 0 where
  pub within : t.num_elements_l1 ≤ length t.cells_l1
  pub at : t.bucket_data ≡ base
  pub owner : t.bucket ≡ some j

-- A cache that is not in use.
pub record IsClosed (t : TlsPoolBucket) : Type 0 where
  pub max_zero : t.max_elements_count ≡ 0
  pub l0_empty : t.num_elements_l0 ≡ 0
  pub l1_empty : t.num_elements_l1 ≡ 0
  pub l0_length : length t.storage_l0 ≡ max_cache_items_count

-- Every one of the `n` blocks of bucket `j` is in one place: the list of free blocks `xs`, or held
-- elsewhere, where the block at `a` is held `held a` times.
pub record Pooled (size n j base : ℕ) (xs : List ℕ) (held : ℕ → ℕ) (s : Store) : Type 0 where
  pub at : (s.buckets j).data_begin ≡ base
  pub tag_fits : (s.buckets j).global_tag < 2 ^ 32
  pub chain : Chain s.mem base (s.buckets j).head xs
  pub stock : (a : ℕ) → count a xs + held a ≡ count a (blocks size 0 n)

-- ... held by the cache, or among the blocks `lent` to the program.
abbrev pub held_by : TlsPoolBucket → List ℕ → ℕ → ℕ
held_by t lent a = count a (l0 t) + count a (l1 t) + count a lent

abbrev pub Stocked : ℕ → ℕ → ℕ → ℕ → List ℕ → List ℕ → Store → TlsPoolBucket → Type 0
Stocked size n j base xs lent s t = Pooled size n j base xs (held_by t lent) s

-- `t'` has one block less in its stacks than `t`.
abbrev pub Took : ℕ → TlsPoolBucket → TlsPoolBucket → Type 0
Took o t t' =
    (a : ℕ)
    → count a (l0 t) + count a (l1 t) ≡ count a (o ∷ []) + (count a (l0 t') + count a (l1 t'))

-- The entry on top of a stack of `n + 1` entries.
pub count-take-suc :
    (n : ℕ) (xs : List ℕ) (x a : ℕ)
    → get_elem? xs n ≡ some x
    → count a (take (suc n) xs) ≡ count a (x ∷ []) + count a (take n xs)
count-take-suc n xs x a e =
    rw (take-suc n xs x e) (omega (arith, count-append a (take n xs) (x ∷ [])))

pub count-top :
    (n : ℕ) (xs : List ℕ) (x a : ℕ)
    → 0 < n
    → get_elem? xs (n - 1) ≡ some x
    → count a (take n xs) ≡ count a (x ∷ []) + count a (take (n - 1) xs)
count-top zero xs x a pos e = absurd (omega arith)
count-top (suc n) xs x a pos e =
    let back : suc n - 1 ≡ n = omega arith in rw back (count-take-suc n xs x a (rw back at e))

-- What `AllocFromCache` does: it hands out a block of the cache, or finds the cache empty.
pub data Popped (base j : ℕ) (t : TlsPoolBucket) : Type 0 where
  hit :
      (o : ℕ) (t' : TlsPoolBucket)
      → alloc_from_cache t ≡ some (base + o, t')
      → IsOpen j base t'
      → t'.max_elements_count ≡ t.max_elements_count
      → Took o t t'
      → Popped base j t
  miss :
      alloc_from_cache t ≡ some (null, t)
      → t.num_elements_l0 ≡ 0
      → t.num_elements_l1 ≡ 0
      → Popped base j t

module _ (j base : ℕ) (t : TlsPoolBucket) where
  Popped-l0 : IsOpen j base t → 0 < t.num_elements_l0 → Popped base j t
  unfolding alloc_from_cache
  Popped-l0 o pos =
      let (x, e) = get_elem?-some t.storage_l0 (t.num_elements_l0 - 1) (omega arith) in
      hit x (record t { num_elements_l0 = t.num_elements_l0 - 1 }) (ground arith) (ground arith)
        refl (λ a. omega (arith, count-top t.num_elements_l0 t.storage_l0 x a pos e))

  Popped-l1 : IsOpen j base t → t.num_elements_l0 ≡ 0 → 0 < t.num_elements_l1 → Popped base j t
  unfolding alloc_from_cache
  Popped-l1 o none_l0 pos =
      let (x, e) = get_elem?-some t.cells_l1 (t.num_elements_l1 - 1) (omega arith) in
      hit x (record t { num_elements_l1 = t.num_elements_l1 - 1 }) (ground arith) (ground arith)
        refl (λ a. omega (arith, count-top t.num_elements_l1 t.cells_l1 x a pos e))

  alloc_from_cache-empty :
      t.num_elements_l0 ≡ 0 → t.num_elements_l1 ≡ 0 → alloc_from_cache t ≡ some (null, t)
  unfolding alloc_from_cache
  alloc_from_cache-empty none_l0 none_l1 = ground arith

  -- `AllocFromCache` on a cache, in use or not, ends: it hands out the address of a block of L0 or
  -- L1, which is then in neither, and leaves the rest and the bounds of the cache; or it returns
  -- null and changes nothing, and both stacks are empty.
  pub alloc_from_cache-Popped : (IsOpen j base t) ⊎ (IsClosed t) → Popped base j t
  alloc_from_cache-Popped (inr c) =
      miss (alloc_from_cache-empty c.l0_empty c.l1_empty) c.l0_empty c.l1_empty
  alloc_from_cache-Popped (inl o) = elim (dec_lt 0 t.num_elements_l0) [
    | yes full ↦ Popped-l0 o full
    | no empty ↦ elim (dec_lt 0 t.num_elements_l1) [
      | yes some_l1 ↦ Popped-l1 o (omega arith) some_l1
      | no none_l1 ↦
          miss (alloc_from_cache-empty (omega arith) (omega arith)) (omega arith) (omega arith)
    ]
  ]
