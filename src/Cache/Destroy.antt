-- ===== src/Cache/Destroy.antt =====
-- `TlsPoolBucket::Destroy` gives every block of the cache back to the bucket.
use native.Mathlib.Decide.{dec_lt}
use native.Mathlib.Nat.{zero-add}
use smmalloc.Prelude.{
  ℕ, zero, suc, ◌+◌, ◌-◌, ◌*◌, ◌^◌, ◌≤◌, ◌<◌, ◌≡◌, ◌≢◌, refl, ◌⊎◌, inl, inr, Option, none, some,
  List, [], ◌++◌, arith, length, take, get_elem?-some, count, lt→ltb, le→ltb, length-set, ltb,
  if◌then◌else◌,
}
use smmalloc.Pool.{null}
use smmalloc.Cache.{TlsPoolBucket, Store, move_l0, destroy, return_l1_cache_to_master}
use smmalloc.Cache.Return.{Returned, return_l1-Returned}
use smmalloc.Cache.Push.{with_l1, push_l1_lem, count-push}
use smmalloc.Cache.Inventory.{l0, l1, IsOpen, IsClosed, Pooled, Stocked, count-take-suc}

-- The cache behind the loop that moves `k` entries of L0 from the `i`-th on.
record Moved (t : TlsPoolBucket) (i k : ℕ) (out : Option TlsPoolBucket) : Type 0 where
  cells : List ℕ
  returns : out ≡ some (record t { cells_l1 = cells; num_elements_l1 = t.num_elements_l1 + k })
  same_length : length cells ≡ length t.cells_l1
  holds :
      (a : ℕ)
      → count a (take (t.num_elements_l1 + k) cells) + count a (take i t.storage_l0)
        ≡ count a (l1 t) + count a (take (i + k) t.storage_l0)

move_l0-Moved :
    (k i : ℕ) (t : TlsPoolBucket)
    → t.num_elements_l1 + k ≤ length t.cells_l1
    → i + k ≤ length t.storage_l0
    → length t.cells_l1 < 2 ^ 32
    → Moved t i k (move_l0 k i t)
unfolding move_l0
move_l0-Moved zero i t room fits small =
    let same : t.num_elements_l1 + 0 ≡ t.num_elements_l1 = omega arith in
    let same_i : i + 0 ≡ i = omega arith in
    record {
      cells = t.cells_l1;
      returns = rw same refl;
      same_length = refl;
      holds = λ a. rw (same, same_i) refl;
    }
move_l0-Moved (suc k) i t room fits small =
    let (x, e) = get_elem?-some t.storage_l0 i (omega arith) in
    let rest : Moved (with_l1 t x) (i + 1) k (move_l0 k (i + 1) (with_l1 t x)) =
      move_l0-Moved k (i + 1) (with_l1 t x)
        (omega (arith, length-set t.cells_l1 t.num_elements_l1 x)) (omega arith)
        (omega (arith, length-set t.cells_l1 t.num_elements_l1 x)) in
    let up : suc t.num_elements_l1 + k ≡ t.num_elements_l1 + suc k = omega arith in
    let up_i : i + 1 + k ≡ i + suc k = omega arith in
    let one : i + 1 ≡ suc i = omega arith in
    record {
      cells = rest.cells;
      returns = rw (e, push_l1_lem t x (omega arith) small, rest.returns, up) refl;
      same_length = ground (arith, rest.same_length, length-set t.cells_l1 t.num_elements_l1 x);
      holds = λ a.
          let ih = rw (up, up_i, one) at (rest.holds a) in
          omega (
            arith,
            ih,
            count-push t.num_elements_l1 t.cells_l1 x a (omega arith),
            count-take-suc i t.storage_l0 x a e,
          );
    }

-- What `Destroy` returns: the array of L1, for the caller to free; a cache that is not in use, with
-- no block; and all blocks that the cache had are free.
pub record Destroyed (size n j base : ℕ) (lent : List ℕ) (s : Store) (t : TlsPoolBucket)
    (out : Option (ℕ × Store × TlsPoolBucket)) : Type 0 where
  pub store : Store
  pub cache : TlsPoolBucket
  pub free : List ℕ
  pub returns : out ≡ some (t.storage_l1, store, cache)
  pub stocked : Stocked size n j base free lent store cache
  pub is_closed : IsClosed cache
  pub bytes : (a : ℕ) → (a < base) ⊎ (base + n * size ≤ a) → store.mem a ≡ s.mem a
  pub other_buckets : (i : ℕ) → i ≢ j → store.buckets i ≡ s.buckets i

abbrev reset : TlsPoolBucket → TlsPoolBucket
reset t = record t {
  storage_l1 = null;
  cells_l1 = [];
  num_elements_l0 = 0;
  num_elements_l1 = 0;
  max_elements_count = 0;
  bucket = none;
  bucket_data = null;
}

module _ (size n j base : ℕ) (big : 8 ≤ size) (small : n * size < 2 ^ 32 - 1) (xs lent : List ℕ)
    (s : Store) (t : TlsPoolBucket) (st : Stocked size n j base xs lent s t) where
  destroy-closed : IsClosed t → Destroyed size n j base lent s t (destroy s t)
  unfolding destroy move_l0
  destroy-closed c = record {
    store = s;
    cache = reset t;
    free = xs;
    returns = rw (c.l0_empty, le→ltb 0 t.num_elements_l1 (omega arith)) refl;
    stocked = record {
      at = st.at;
      tag_fits = st.tag_fits;
      chain = st.chain;
      stock = λ a.
          let none_l0 : count a (l0 t) ≡ 0 = rw (c.l0_empty) refl in
          let none_l1 : count a (l1 t) ≡ 0 = rw (c.l1_empty) refl in omega (arith, st.stock a);
    };
    is_closed = record {
      max_zero = refl;
      l0_empty = refl;
      l1_empty = refl;
      l0_length = c.l0_length;
    };
    bytes = λ a out. refl;
    other_buckets = λ i ne. refl;
  }

  module _ (open_t : IsOpen j base t) where
    moved : Moved t 0 t.num_elements_l0 (move_l0 t.num_elements_l0 0 t)
    moved = move_l0-Moved t.num_elements_l0 0 t (omega arith) (omega arith) (omega arith)

    abbrev all_l1 : TlsPoolBucket
    all_l1 = record t {
      cells_l1 = moved.cells;
      num_elements_l1 = t.num_elements_l1 + t.num_elements_l0;
    }

    pooled : Pooled size n j base xs (λ a. count a (l1 all_l1) + count a lent) s
    pooled = record {
      at = st.at;
      tag_fits = st.tag_fits;
      chain = st.chain;
      stock = λ a. omega (arith, st.stock a, rw zero-add at (moved.holds a));
    }

    returned :
        Returned size n j base xs
          (λ a. count a lent)
          s
          all_l1
          (all_l1.num_elements_l1 - all_l1.num_elements_l1)
          (return_l1_cache_to_master s all_l1 all_l1.num_elements_l1)
    returned =
        return_l1-Returned size n j base big small xs (λ a. count a lent) s all_l1
          (record {
            within = omega (arith, moved.same_length);
            at = open_t.at;
            owner = open_t.owner;
          })
          pooled all_l1.num_elements_l1

    -- The call is made only if there is something to return; if not, it would do nothing.
    last_call :
        (if ltb 0 all_l1.num_elements_l1
          then return_l1_cache_to_master s all_l1 all_l1.num_elements_l1
          else some (s, all_l1))
        ≡ some (
          returned.store,
          record all_l1 { num_elements_l1 = all_l1.num_elements_l1 - all_l1.num_elements_l1 },
        )
    unfolding return_l1_cache_to_master
    last_call = elim (dec_lt 0 all_l1.num_elements_l1) [
      | yes some_left ↦ rw (lt→ltb 0 all_l1.num_elements_l1 some_left) returned.returns
      | no none_left ↦
          rw (le→ltb 0 all_l1.num_elements_l1 (omega arith)) (ground (arith, returned.returns))
    ]

    destroy-open : Destroyed size n j base lent s t (destroy s t)
    unfolding destroy
    destroy-open = record {
      store = returned.store;
      cache = reset all_l1;
      free = returned.taken ++ xs;
      returns = rw (moved.returns, last_call) refl;
      stocked = record {
        at = returned.pooled.at;
        tag_fits = returned.pooled.tag_fits;
        chain = returned.pooled.chain;
        stock = λ a.
            let emptied : all_l1.num_elements_l1 - all_l1.num_elements_l1 ≡ 0 = omega arith in
            omega (arith, rw emptied at (returned.pooled.stock a));
      };
      is_closed = record {
        max_zero = refl;
        l0_empty = refl;
        l1_empty = refl;
        l0_length = open_t.l0_length;
      };
      bytes = returned.bytes;
      other_buckets = returned.other_buckets;
    }

  -- `Destroy` of a cache, in use or not, ends and returns the array of L1: the cache is not in use
  -- after it, every block that it held is in the bucket's list of free blocks, the blocks lent are
  -- the same, and nothing outside the bucket has changed. The bucket is smaller than 4 GB and its
  -- elements are of 8 bytes or more.
  pub destroy-Destroyed :
      (IsOpen j base t) ⊎ (IsClosed t) → Destroyed size n j base lent s t (destroy s t)
  destroy-Destroyed (inl o) = destroy-open o
  destroy-Destroyed (inr c) = destroy-closed c
