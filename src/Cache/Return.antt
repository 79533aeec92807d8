-- ===== src/Cache/Return.antt =====
-- `ReturnL1CacheToMaster` moves blocks from the top of the L1 stack to the list of free blocks.
use native.Mathlib.Decide.{dec_lt}
use mathlib.Core.List.{append-nil}
use smmalloc.Prelude.{
  ℕ, suc, ◌+◌, ◌-◌, ◌*◌, ◌^◌, ◌≤◌, ◌<◌, ◌≡◌, ◌≢◌, refl, ◌⊎◌, ◌∙◌, ap, Option, some, List, [], ◌∷◌,
  ◌++◌, arith, length, take, get_elem?, min, count, count-append, subst, sym, ne→==,
}
use smmalloc.Memory.{Mem, update, update_self, update_ne, load64, store64, store64-out}
use smmalloc.Pool.Chain.{Chain, last, SameWords, Chain-cong, ApartFrom}
use smmalloc.Pool.Blocks.{
  blocks, blocks-lt, AllApart-of_count, ApartFrom-of, count-blocks-le, blocks-apart,
}
use smmalloc.Pool.Stack.{pushed, free_interval_lem, free_interval-Chain}
use smmalloc.Cache.{TlsPoolBucket, Store, link_blocks, return_l1_cache_to_master}
use smmalloc.Cache.Linking.{Slice, AllBelow, Stretch, stretch, Linked, Away, link_blocks-Linked}
use smmalloc.Cache.Inventory.{l1, HasArray, Pooled}

AllBelow_of :
    (bound : ℕ) (xs : List ℕ) → ((a : ℕ) → 0 < count a xs → a + 8 ≤ bound) → AllBelow bound xs
AllBelow_of bound [] below = tt
AllBelow_of bound (x ∷ xs) below =
    (below x (ground arith), AllBelow_of bound xs (λ a m. below a (ground arith)))

AllBelow-last : (bound o : ℕ) (ys : List ℕ) → AllBelow bound (o ∷ ys) → last o ys + 8 ≤ bound
AllBelow-last bound o [] below = below.0
AllBelow-last bound o (y ∷ ys) below = AllBelow-last bound y ys below.1

SameWords-of :
    (m m' : Mem) (base : ℕ) (xs : List ℕ)
    → ((x : ℕ) → 0 < count x xs → load64 m' (base + x) ≡ load64 m (base + x))
    → SameWords m m' base xs
SameWords-of m m' base [] same = tt
SameWords-of m m' base (x ∷ xs) same =
    (same x (ground arith), SameWords-of m m' base xs (λ a h. same a (ground arith)))

-- What it returns: the blocks `taken` of the stack stand in front of the free blocks, and nothing
-- but the words of the bucket's blocks and the bucket itself have changed.
pub record Returned (size n j base : ℕ) (xs : List ℕ) (others : ℕ → ℕ) (s : Store)
    (t : TlsPoolBucket) (n1 : ℕ) (out : Option (Store × TlsPoolBucket)) : Type 0 where
  pub store : Store
  pub taken : List ℕ
  pub returns : out ≡ some (store, record t { num_elements_l1 = n1 })
  pub pooled :
      Pooled size n j base (taken ++ xs) (λ a. count a (take n1 t.cells_l1) + others a) store
  pub taken_top : l1 t ≡ take n1 t.cells_l1 ++ taken
  pub bytes : (a : ℕ) → (a < base) ⊎ (base + n * size ≤ a) → store.mem a ≡ s.mem a
  pub kept : (z a : ℕ) → 0 < others z → base + z ≤ a → a < base + z + size → store.mem a ≡ s.mem a
  pub other_buckets : (i : ℕ) → i ≢ j → store.buckets i ≡ s.buckets i

module _ (size n j base : ℕ) (big : 8 ≤ size) (small : n * size < 2 ^ 32 - 1) (xs : List ℕ)
    (others : ℕ → ℕ) (s : Store) (t : TlsPoolBucket) (open_t : HasArray j base t)
    (st : Pooled size n j base xs (λ a. count a (l1 t) + others a) s) where
  -- The stack is left with `first` entries; the others are `o ∷ ys`.
  module _ (first o : ℕ) (ys : List ℕ) (split : l1 t ≡ take first t.cells_l1 ++ (o ∷ ys)) where
    in_blocks : (a : ℕ) → count a ((o ∷ ys) ++ xs) ≤ count a (blocks size 0 n)
    in_blocks a = omega (
      arith,
      st.stock a,
      count-append a (o ∷ ys) xs,
      count-append a (take first t.cells_l1) (o ∷ ys),
      ap (count a) split,
    )

    top_in_blocks : (a : ℕ) → count a (o ∷ ys) ≤ count a (blocks size 0 n)
    top_in_blocks a = omega (arith, in_blocks a, count-append a (o ∷ ys) xs)

    below : AllBelow (n * size) (o ∷ ys)
    below =
        AllBelow_of (n * size) (o ∷ ys)
          (λ a h. omega (arith, blocks-lt size big n a (omega (arith, top_in_blocks a))))

    ApartFrom-free : (x : ℕ) → 0 < count x xs → ApartFrom x (o ∷ ys)
    ApartFrom-free x h =
        ApartFrom-of size big n x (o ∷ ys) (omega (arith, in_blocks x, count-append x (o ∷ ys) xs))
          (λ a m. (
            λ e.
                let m' : 0 < count x (o ∷ ys) = subst (λ z. 0 < count z (o ∷ ys)) e m in
                absurd (
                  omega (
                    arith,
                    in_blocks x,
                    count-append x (o ∷ ys) xs,
                    count-blocks-le size big n 0 x,
                  )),
            omega (arith, top_in_blocks a),
          ))

    apart_from : (z w : ℕ) → 0 < others z → 0 < count w (o ∷ ys) → (w + size ≤ z) ⊎ (z + size ≤ w)
    apart_from z w held among =
        blocks-apart size big n 0 w z (omega (arith, top_in_blocks w)) (omega (arith, st.stock z))
          (λ e.
            let z_among : 0 < count z (o ∷ ys) = subst (λ v. 0 < count v (o ∷ ys)) e among in
            absurd (
              omega (
                arith,
                st.stock z,
                count-append z (take first t.cells_l1) (o ∷ ys),
                ap (count z) split,
                z_among,
                held,
                count-blocks-le size big n 0 z,
              )))

    last_among : (o : ℕ) (ys : List ℕ) → 0 < count (last o ys) (o ∷ ys)
    last_among o [] = ground arith
    last_among o (y ∷ ys) = ground (arith, last_among y ys)

    module _ (slice : Slice t.cells_l1 (first + 1) ys) where
      linked :
          Linked base
            (n * size)
            o
            ys
            s.mem
            (link_blocks (length ys) t.cells_l1 base (first + 1) 0xFFFFFF s.mem (base + o))
      linked =
          link_blocks-Linked t.cells_l1 base (n * size) (omega arith) (length ys) (first + 1) o
            0xFFFFFF ys s.mem refl (omega arith) slice
            (AllApart-of_count size big n (o ∷ ys) top_in_blocks) below

      joined :
          Chain
            (store64 linked.mem (base + last o ys) (s.buckets j).head)
            base
            (pushed (s.buckets j) o).head
            (o ∷ ys ++ xs)
      joined =
          free_interval-Chain linked.mem (s.buckets j) base st.at o (omega (arith, below)) ys xs
            st.tag_fits (AllApart-of_count size big n (o ∷ ys ++ xs) in_blocks) linked.links
            (Chain-cong s.mem linked.mem base (s.buckets j).head xs
              (SameWords-of s.mem linked.mem base xs (λ x h. linked.words x (ApartFrom-free x h)))
              st.chain)

      -- A block that is held elsewhere is none of those returned.
      away :
          (z a : ℕ) (ws : List ℕ)
          → 0 < others z
          → ((w : ℕ) → count w ws ≤ count w (o ∷ ys))
          → base + z ≤ a
          → a < base + z + size
          → Away base ws a
      away z a [] held among lo hi = tt
      away z a (w ∷ ws) held among lo hi = (
        ground (arith, apart_from z w held (ground (arith, among w)), big),
        away z a ws held (λ v. ground (arith, among v)) lo hi,
      )

      abbrev store' : Store
      store' = record {
        mem = store64 linked.mem (base + last o ys) (s.buckets j).head;
        buckets = update s.buckets j (pushed (s.buckets j) o);
      }

      abbrev cache' : TlsPoolBucket
      cache' = record t { num_elements_l1 = first }

      pooled' :
          Pooled size n j base
            (o ∷ ys ++ xs)
            (λ a. count a (take first t.cells_l1) + others a)
            store'
      pooled' = record {
        at = rw (update_self s.buckets j (pushed (s.buckets j) o)) st.at;
        tag_fits = rw (update_self s.buckets j (pushed (s.buckets j) o)) (omega arith);
        chain = rw (update_self s.buckets j (pushed (s.buckets j) o)) joined;
        stock = λ a. omega (
          arith,
          st.stock a,
          count-append a (o ∷ ys) xs,
          count-append a (take first t.cells_l1) (o ∷ ys),
          ap (count a) split,
        );
      }

      module _ (count_arg : ℕ) (pos : 0 < count_arg)
          (len : min count_arg t.num_elements_l1 ≡ suc (length ys))
          (top : first + suc (length ys) ≡ t.num_elements_l1)
          (e : get_elem? t.cells_l1 first ≡ some o) where
        moved_returns : return_l1_cache_to_master s t count_arg ≡ some (store', cache')
        unfolding return_l1_cache_to_master
        moved_returns =
            let rounds : t.num_elements_l1 - (first + 1) ≡ length ys = omega arith in
            let rest : t.num_elements_l1 - suc (length ys) ≡ first = omega arith in
            rw
              (
                ne→== count_arg 0 (omega arith),
                ne→== t.num_elements_l1 0 (omega arith),
                len,
                rest,
                e,
                rounds,
                open_t.at,
                linked.returns,
                open_t.owner,
                free_interval_lem linked.mem (s.buckets j) base st.at o (omega (arith, below))
                    (base + last o ys),
              )
              refl

        moved : Returned size n j base xs others s t first (return_l1_cache_to_master s t count_arg)
        moved = record {
          store = store';
          taken = o ∷ ys;
          returns = moved_returns;
          pooled = pooled';
          taken_top = split;
          bytes = λ a out.
              store64-out linked.mem (base + last o ys) (s.buckets j).head a
                (ground (arith, AllBelow-last (n * size) o ys below))
              ∙ linked.bytes a out;
          kept = λ z a held lo hi.
              store64-out linked.mem (base + last o ys) (s.buckets j).head a
                (ground (arith, apart_from z (last o ys) held (last_among o ys), lo, hi, big))
              ∙ linked.kept a (away z a (o ∷ ys) held (λ w. omega arith) lo hi);
          other_buckets =
              λ i ne. update_ne s.buckets j (pushed (s.buckets j) o) i (λ e. ne (sym e));
        }

  -- With nothing to return it does nothing.
  idle :
      (count_arg : ℕ)
      → (count_arg ≡ 0) ⊎ (t.num_elements_l1 ≡ 0)
      → Returned size n j base xs others s t
          (t.num_elements_l1 - count_arg)
          (return_l1_cache_to_master s t count_arg)
  unfolding return_l1_cache_to_master
  idle count_arg none =
      let same : t.num_elements_l1 - count_arg ≡ t.num_elements_l1 = omega arith in
      rw same (record {
        store = s;
        taken = [];
        returns = ground arith;
        pooled = st;
        taken_top = sym (append-nil (l1 t));
        bytes = λ a out. refl;
        kept = λ z a held lo hi. refl;
        other_buckets = λ i ne. refl;
      })

  from_entries :
      (count_arg first k : ℕ) (entries : List ℕ)
      → 0 < count_arg
      → min count_arg t.num_elements_l1 ≡ suc k
      → first + suc k ≡ t.num_elements_l1
      → length entries ≡ suc k
      → Slice t.cells_l1 first entries
      → l1 t ≡ take first t.cells_l1 ++ entries
      → Returned size n j base xs others s t first (return_l1_cache_to_master s t count_arg)
  from_entries count_arg first k [] pos len top long slice split = absurd (omega arith)
  from_entries count_arg first k (o ∷ ys) pos len top long slice split =
      moved first o ys split slice.1 count_arg pos (omega arith) (omega arith) slice.0

  -- `ReturnL1CacheToMaster` ends and moves the given number of blocks, or all there are, from the
  -- top of the L1 stack to the front of the bucket's list of free blocks: all other blocks are
  -- where they were, and nothing outside the bucket has changed. The stack is within its array,
  -- the bucket is smaller than 4 GB and its elements are of 8 bytes or more.
  pub return_l1-Returned :
      (count_arg : ℕ)
      → Returned size n j base xs others s t
          (t.num_elements_l1 - count_arg)
          (return_l1_cache_to_master s t count_arg)
  return_l1-Returned count_arg = elim (dec_lt 0 (min count_arg t.num_elements_l1)) [
    | no none ↦ idle count_arg (ground arith)
    | yes some_left ↦
        let first : ℕ = t.num_elements_l1 - count_arg in
        let k : ℕ = min count_arg t.num_elements_l1 - 1 in
        let r : Stretch t.cells_l1 first (suc k) = stretch (suc k) first t.cells_l1 (omega arith) in
        let up : first + suc k ≡ t.num_elements_l1 = omega arith in
        from_entries count_arg first k r.entries (omega arith) (omega arith) up r.count_entries
          r.slice (rw up at r.split)
  ]
