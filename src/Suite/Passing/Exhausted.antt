-- ===== src/Suite/Passing/Exhausted.antt =====
-- A bucket gives all its blocks, and then no more: the loop of MegaAlloc.
use mathlib.Core.Option.{some-injective, none-ne-some}
use smmalloc.Prelude.{
  ℕ, zero, suc, ◌+◌, ◌*◌, ◌^◌, ◌<◌, ◌≤◌, ◌≡◌, ◌≢◌, refl, sym, ap, subst, ◌∙◌, false, ltb, ltb→lt,
  ltb→le, inl, inr, Bool-cases, ◌==◌, if◌then◌else◌, eq→==, ne→==, Option, none, some, List, [],
  ◌∷◌, ◌++◌, get_elem?, length, count, count-append, length-append, length-of_counts, arith,
}
use smmalloc.Align.{align}
use smmalloc.Pool.{null}
use smmalloc.Generic.{Libc}
use smmalloc.Sizes.{Partition}
use smmalloc.Allocator.{World, get_bucket_index}
use smmalloc.CApi.{sm_malloc, sm_mbucket}
use smmalloc.Safety.Sound.{blocks_in}
use smmalloc.Safety.Routing.{SameLayout}
use smmalloc.Client.Lists.{Extent, get_elem?-map}
use smmalloc.Client.Heap.{LibcSpec}
use smmalloc.Client.Runs.{IsRequest}
use smmalloc.Client.Ghost.{extent}
use smmalloc.Client.Invariant.{Inv}
use smmalloc.Client.Allocates.{served, refused, allocate-Answer}
use smmalloc.Client.Own.{allocate-OwnBlock, get_bucket_index-inside}
use smmalloc.Client.Members.{bucket_of, get_bucket_index-entry, get_bucket_index-null, held-le}
use smmalloc.Bench.Smmalloc.{addresses, count-other}
use smmalloc.Bench.WorkingSet.Smmalloc.{Owned}
use smmalloc.Suite.Gtest.{Body, pure, call, ask, ◌>>=◌}
use smmalloc.Suite.Triples.{Returns, Returns-bind, Returns-call, Returns-ask}
use smmalloc.Suite.Simple.Blocks.{take_all}

-- The test of the loop: it goes on while the block is of the bucket.
goes_on_if {ℓ} :
    {X : Type ℓ} (found : Option ℕ) (index : ℕ) (rest done : X)
    → (found ≢ some index)
    → (elim found [ none ↦ done | some i ↦ if i == index then rest else done ]) ≡ done
goes_on_if none index rest done other = refl
goes_on_if (some i) index rest done other = rw (ne→== i index (λ e. other (ap some e))) refl

module _ {H : Type 0} (part : Partition) {libc : Libc H} (spec : LibcSpec libc)
    (owners : List Extent) (start : World H) (capacity bytes k : ℕ)
    (request : IsRequest part bytes k) (own : ℕ)
    (index : part.index_by_size (align bytes (2 ^ k)) ≡ own)
    (exists : own < start.buckets_count) where
  abbrev pub all_blocks : ℕ
  all_blocks = blocks_in part start own

  -- in the stretch of the bucket
  abbrev pub InOwn : ℕ → Type 0
  InOwn p =
      (o : ℕ) × (o < start.bucket_size_in_bytes)
      × (p ≡ start.buffer + (own * start.bucket_size_in_bytes + o))

  -- All held blocks are of the bucket, and at the pointers `ptrs`.
  pub record Taken (ptrs : List ℕ) (held : List Extent) (w : World H) : Type 0 where
    pub inv : Inv part spec owners (record { world = w; held = held })
    pub layout : SameLayout start w
    pub in_own : (n p b : ℕ) → get_elem? held n ≡ some (p, b) → InOwn p
    pub same : (z : ℕ) → count z ptrs ≡ count z (addresses held)
    pub no_null : count null ptrs ≡ 0

  -- `GetBucketIndex` in the stretch of the bucket
  in_bucket :
      (w : World H) (held : List Extent)
      → Inv part spec owners (record { world = w; held = held })
      → SameLayout start w
      → (p : ℕ) → InOwn p
      → sm_mbucket libc w p ≡ some (some own)
  unfolding sm_mbucket
  in_bucket w held inv layout p (o, lt, at) =
      let place : p ≡ w.buffer + (own * w.bucket_size_in_bytes + o) = rw (layout.1, layout.2) at in
      ap (get_bucket_index w) place
      ∙ get_bucket_index-inside inv.sound.up own o (omega (arith, exists, layout.0))
          (omega (arith, lt, layout.1))

  length-addresses : (held : List Extent) → length (addresses held) ≡ length held
  length-addresses [] = refl
  length-addresses (h ∷ held) = ap suc (length-addresses held)

  as_many :
      (ptrs : List ℕ) (held : List Extent) (w : World H)
      → Taken ptrs held w
      → length held ≡ length ptrs
  as_many ptrs held w t =
      let whole = length-of_counts ptrs [] (addresses held) (λ z. omega (arith, t.same z)) in
      omega (arith, whole, length-addresses held)

  abbrev malloc : World H → Option (ℕ × World H)
  malloc w = sm_malloc libc part w bytes (2 ^ k)

  abbrev pub Ends : ℕ → ℕ → List ℕ → World H → Type 0
  Ends rounds n ptrs w =
      (v : World H) × (all : List ℕ) × Returns (take_all libc part rounds own bytes (2 ^ k) n ptrs)
        w (all_blocks, all) v
      × Owned part spec owners start capacity v all

  extend :
      (p : ℕ) (held : List Extent)
      → InOwn p
      → ((n q b : ℕ) → get_elem? held n ≡ some (q, b) → InOwn q)
      → (n q b : ℕ) → get_elem? ((p, bytes) ∷ held) n ≡ some (q, b)
      → InOwn q
  extend p held mine old zero q b e =
      subst (λ v. InOwn v.0) (some-injective (p, bytes) (q, b) e) mine
  extend p held mine old (suc n) q b e = old n q b e

  -- The block that comes when all blocks of the bucket are taken is not of the bucket.
  foreign :
      (ptrs : List ℕ) (held : List Extent) (w : World H) (t : Taken ptrs held w)
      (full : length held ≡ all_blocks) (p : ℕ) (v : World H)
      (inv : Inv part spec owners (record { world = v; held = (p, bytes) ∷ held }))
      (layout : SameLayout start v)
      → get_bucket_index v p ≢ some (some own)
  unfolding sm_mbucket
  foreign ptrs held w t full p v inv layout is_own =
      let le =
        held-le part spec owners (record { world = v; held = (p, bytes) ∷ held }) inv own
          (omega (arith, exists, layout.0)) all_own in
      let blocks : blocks_in part v own ≡ all_blocks = rw (layout.1) refl in
      omega (arith, le, full, blocks)
    where
      all_own :
          (n q b : ℕ)
          → get_elem? ((p, bytes) ∷ held) n ≡ some (q, b)
          → get_bucket_index v q ≡ some (some own)
      all_own zero q b e =
          subst (λ x. get_bucket_index v x.0 ≡ some (some own)) (some-injective (p, bytes) (q, b) e)
            is_own
      all_own (suc n) q b e = in_bucket v ((p, bytes) ∷ held) inv layout q (t.in_own n q b e)

  one_more :
      (ptrs : List ℕ) (held : List Extent) (w : World H)
      → Taken ptrs held w
      → length held < all_blocks
      → (p : ℕ) × (v : World H) × (malloc w ≡ some (p, v))
        × (sm_mbucket libc v p ≡ some (some own))
        × Taken (ptrs ++ (p ∷ [])) ((p, bytes) ∷ held) v
  unfolding sm_malloc
  one_more ptrs held w t few =
      let block =
        allocate-OwnBlock part spec owners (record { world = w; held = held }) t.inv bytes k request
          (omega (arith, index, exists, t.layout)) (rw (index, t.layout.1) few) in
      let p = block.address in
      let layout : SameLayout start block.world =
        (block.layout.0 ∙ t.layout.0, block.layout.1 ∙ t.layout.1, block.layout.2 ∙ t.layout.2) in
      let mine : InOwn p = (
        block.offset,
        omega (arith, block.stretch, t.layout),
        rw (← t.layout.1, ← t.layout.2, ← index) block.stretch.1,
      ) in
      (
        p,
        block.world,
        block.returns,
        in_bucket block.world ((p, bytes) ∷ held) block.inv layout p mine,
        record {
          inv = block.inv;
          layout = layout;
          in_own = extend p held mine t.in_own;
          same = λ z. omega (arith, t.same z, count-append z ptrs (p ∷ []));
          no_null = omega (
            arith,
            t.no_null,
            count-append null ptrs (p ∷ []),
            count-other p null [] block.some_address,
          );
        },
      )

  no_more :
      (ptrs : List ℕ) (held : List Extent) (w : World H)
      → Taken ptrs held w
      → length held ≡ all_blocks
      → (p : ℕ) × (v : World H) × (found : Option ℕ) × (malloc w ≡ some (p, v))
        × (sm_mbucket libc v p ≡ some found)
        × (found ≢ some own)
        × Owned part spec owners start capacity v (ptrs ++ (p ∷ []))
  unfolding sm_malloc sm_mbucket
  no_more ptrs held w t full =
      elim (allocate-Answer part spec owners (record { world = w; held = held }) t.inv bytes k
        request) [
          | served p v got some_p aligned inv keeps layout ↦
              let (y, place, e) =
                get_elem?-map extent 0 inv.entries (p, bytes)
                  (subst (λ h. get_elem? h 0 ≡ some (p, bytes)) inv.held refl) in
              let found : get_bucket_index v p ≡ some (bucket_of y) =
                subst (λ a. get_bucket_index v a.0 ≡ some (bucket_of y)) e
                  (get_bucket_index-entry part spec owners
                    (record { world = v; held = (p, bytes) ∷ held }) inv 0 y place) in
              let layout' : SameLayout start v =
                (layout.0 ∙ t.layout.0, layout.1 ∙ t.layout.1, layout.2 ∙ t.layout.2) in
              (
                p,
                v,
                bucket_of y,
                got,
                found,
                λ is_own. foreign ptrs held w t full p v inv layout' (found ∙ ap some is_own),
                (
                  (p, bytes) ∷ held,
                  inv,
                  λ z ne. omega (arith, t.same z, count-append z ptrs (p ∷ [])),
                  omega (
                    arith,
                    as_many ptrs held w t,
                    t.no_null,
                    count-append null ptrs (p ∷ []),
                    count-other p null [] some_p,
                    length-append ptrs (p ∷ []),
                  ),
                  (layout'.0, layout'.1),
                ),
              )
          | refused v got inv keeps layout ↦ (
            null,
            v,
            none,
            got,
            get_bucket_index-null part spec owners (record { world = v; held = held }) inv,
            λ e. none-ne-some own e,
            (
              held,
              inv,
              λ z ne. omega (
                arith,
                t.same z,
                count-append z ptrs (null ∷ []),
                count-other null z [] (λ e. ne (sym e)),
              ),
              omega (
                arith,
                as_many ptrs held w t,
                count-append null ptrs (null ∷ []),
                length-append ptrs (null ∷ []),
              ),
              (layout.0 ∙ t.layout.0, layout.1 ∙ t.layout.1),
            ),
          )
        ]

  abbrev done : ℕ → List ℕ → ℕ → Body (World H) (ℕ × List ℕ)
  done n ptrs p = pure (n, ptrs ++ (p ∷ []))

  abbrev going : ℕ → ℕ → List ℕ → ℕ → Option ℕ → Body (World H) (ℕ × List ℕ)
  going rounds n ptrs p found = elim found [
    | none ↦ done n ptrs p
    | some i ↦
        if i == own
        then take_all libc part rounds own bytes (2 ^ k) (n + 1) (ptrs ++ (p ∷ []))
        else done n ptrs p
  ]

  -- one round
  round :
      (rounds n : ℕ) (ptrs : List ℕ) (w v u : World H) (p : ℕ) (found : Option ℕ) (b : ℕ × List ℕ)
      → malloc w ≡ some (p, v)
      → sm_mbucket libc v p ≡ some found
      → Returns (going rounds n ptrs p found) v b u
      → Returns (take_all libc part (suc rounds) own bytes (2 ^ k) n ptrs) w b u
  unfolding take_all
  round rounds n ptrs w v u p found b got at rest =
      Returns-bind (call malloc)
        (λ p. ask (λ (x : World H). sm_mbucket libc x p) >>= going rounds n ptrs p) w v u p b
        (Returns-call malloc w v p got)
        (Returns-bind (ask (λ (x : World H). sm_mbucket libc x p)) (going rounds n ptrs p) v v u
          found b (Returns-ask (λ (x : World H). sm_mbucket libc x p) v found at) rest)

  -- The loop ends with the last block of the bucket taken, and one block more that is not of it.
  pub take_all-Returns :
      (rounds : ℕ) (ptrs : List ℕ) (held : List Extent) (w : World H)
      → Taken ptrs held w
      → length held ≤ all_blocks
      → all_blocks < rounds + length held
      → Ends rounds (length held) ptrs w
  take_all-Returns zero ptrs held w t le enough = absurd (omega (arith, le, enough))
  take_all-Returns (suc rounds) ptrs held w t le enough =
      elim (Bool-cases (ltb (length held) all_blocks)) [
        | inl few ↦
            let (p, v, got, found, t') =
              one_more ptrs held w t (ltb→lt (length held) all_blocks few) in
            let (u, all, returns, owned) =
              take_all-Returns rounds (ptrs ++ (p ∷ [])) ((p, bytes) ∷ held) v t'
                (omega (arith, ltb→lt (length held) all_blocks few)) (omega (arith, enough)) in
            let count : suc (length held) ≡ length held + 1 = omega arith in
            (
              u,
              all,
              round rounds (length held) ptrs w v u p (some own) (all_blocks, all) got found
                  (rw (eq→== own own refl, ← count) returns),
              owned,
            )
        | inr all_taken ↦
            let (p, v, found, got, at, other, owned) =
              no_more ptrs held w t
                (omega (arith, ltb→le (length held) all_blocks all_taken, le)) in
            (
              v,
              ptrs ++ (p ∷ []),
              round rounds (length held) ptrs w v v p found (all_blocks, ptrs ++ (p ∷ [])) got at
                  (subst
                    (λ (f : Body (World H) (ℕ × List ℕ)).
                      Returns f v (all_blocks, ptrs ++ (p ∷ [])) v)
                    (sym (
                      goes_on_if found own
                        (take_all libc part rounds own bytes (2 ^ k) (length held + 1)
                          (ptrs ++ (p ∷ [])))
                        (done (length held) ptrs p) other))
                    (ap
                      (λ n. some (some (n, ptrs ++ (p ∷ [])), record { heap = v; failed = false }))
                      (full le all_taken))),
              owned,
            )
      ]
    where
      full :
          length held ≤ all_blocks → ltb (length held) all_blocks ≡ false → length held ≡ all_blocks
      full le all_taken = omega (arith, le, ltb→le (length held) all_blocks all_taken)
