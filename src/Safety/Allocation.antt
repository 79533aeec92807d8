-- ===== src/Safety/Allocation.antt =====
-- `Allocator::Allocate` as a whole: the cache, then the buckets, then the generic allocator.
use native.Mathlib.Decide.{dec_lt}
use smmalloc.Prelude.{
  ℕ, ◌+◌, ◌*◌, ◌^◌, ◌≤◌, ◌<◌, ◌≡◌, ◌≢◌, refl, inl, ◌∙◌, List, ◌∷◌, arith, sym, subst, ap, Bool,
  true, false, some, Option, lt→ltb, le→ltb, ne→==, if_true, if_false, bind_some, u64,
}
use smmalloc.Memory.{update, update_self, update_ne, update_same}
use smmalloc.Align.{align, min_size_t, min_size_t-gt}
use smmalloc.Pool.{null}
use smmalloc.Cache.{TlsPoolBucket, alloc_from_cache}
use smmalloc.Cache.Inventory.{IsOpen, Took, alloc_from_cache-Popped, hit, miss}
use smmalloc.Generic.{Libc}
use smmalloc.Generic.Block.{grain}
use smmalloc.Sizes.{Partition}
use smmalloc.Allocator.{
  store, World, allocate, alloc_uncached, count_attempt, count_served, count_cache_hit,
}
use smmalloc.Safety.Sound.{BucketOf, IsSound, base_of, changed-IsSound, quiet-IsSound}
use smmalloc.Safety.Routing.{
  IsMalloc, Allocated, in_bucket, on_heap, no_memory, enough, has_alignment, uncached-Allocated,
  Served-uncached,
}
use smmalloc.Safety.Buckets.{Served, take_block}

-- The branches of `allocate`.
module _ {H : Type 0} (part : Partition) (libc : Libc H) (e : Bool) (w : World H) (bytes a : ℕ)
    (pos : 0 < bytes) where
  abbrev bucket_of : ℕ
  bucket_of = part.index_by_size (align bytes a)

  allocate-above :
      w.buckets_count ≤ bucket_of
      → allocate part libc e w bytes a
        ≡ alloc_uncached part libc e (count_attempt e w) bytes a bucket_of false
  unfolding allocate
  allocate-above h =
      if_false _ _ _ (ne→== bytes 0 (omega (arith, pos)))
      ∙ if_false _ _ _ (le→ltb bucket_of w.buckets_count h)

  allocate-hit :
      bucket_of < w.buckets_count
      → (p : ℕ) (t : TlsPoolBucket) → alloc_from_cache (w.tls bucket_of) ≡ some (p, t)
      → p ≢ 0
      → allocate part libc e w bytes a
        ≡ some (
            (
              p,
              count_cache_hit e bucket_of
                  (count_served e (record (count_attempt e w) { tls = update w.tls bucket_of t })),
            ))
  unfolding allocate
  allocate-hit lt p t got some_p =
      if_false _ _ _ (ne→== bytes 0 (omega (arith, pos)))
      ∙ if_true _ _ _ (lt→ltb bucket_of w.buckets_count lt)
      ∙ bind_some _ _ (p, t) got
      ∙ if_false _ _ _ (ne→== p 0 some_p)

  allocate-miss :
      bucket_of < w.buckets_count
      → alloc_from_cache (w.tls bucket_of) ≡ some (null, w.tls bucket_of)
      → allocate part libc e w bytes a
        ≡ alloc_uncached part libc e (count_attempt e w) bytes a bucket_of true
  unfolding allocate
  allocate-miss lt got =
      if_false _ _ _ (ne→== bytes 0 (omega (arith, pos)))
      ∙ if_true _ _ _ (lt→ltb bucket_of w.buckets_count lt)
      ∙ bind_some _ _ (null, w.tls bucket_of) got
      ∙ ap
          (λ tls.
            alloc_uncached part libc e (record (count_attempt e w) { tls = tls }) bytes a bucket_of
              true)
          (update_same w.tls bucket_of)

-- A counted attempt changes nothing but the count.
recount :
    {H : Type 0} (part : Partition) (libc : Libc H) (e : Bool) (w : World H)
    (free lent : ℕ → List ℕ) (bytes k : ℕ) (out : Option (ℕ × World H))
    → Allocated part libc (count_attempt e w) free lent bytes k out
    → Allocated part libc w free lent bytes k out
recount part libc e w free lent bytes k out (in_bucket s) = in_bucket record {
  index = s.index;
  offset = s.offset;
  world = s.world;
  free = s.free;
  returns = s.returns;
  in_range = s.in_range;
  sound = s.sound;
  same_layout = s.same_layout;
  same_machine = s.same_machine;
  enough = s.enough;
  aligned = s.aligned;
}
recount part libc e w free lent bytes k out
      (on_heap p heap world block pos got returns same sound layout) =
    on_heap p heap world block pos got returns same sound layout
recount part libc e w free lent bytes k out
      (no_memory heap world got returns sound machine layout) =
    no_memory heap world got returns sound machine layout

module _ {H : Type 0} (part : Partition) (libc : Libc H) (e : Bool) (bytes k : ℕ) (pos : 0 < bytes)
    (small : k ≤ 12) (exact : bytes + 2 ^ k ≤ part.limit)
    (fits : bytes + (2 ^ grain k + 15) < 2 ^ 64) (free lent : ℕ → List ℕ) (w : World H)
    (sound : IsSound part w free lent) where
  abbrev pub at : ℕ
  at = part.index_by_size (align bytes (2 ^ k))

  abbrev attempted : World H
  attempted = count_attempt e w

  attempted-IsSound : IsSound part attempted free lent
  attempted-IsSound =
      quiet-IsSound part sound w.heap w.mem w.buckets attempted.global_stats (λ a lo hi. refl)
        (λ j. (refl, refl, refl))

  from_cache :
      (o : ℕ) (t : TlsPoolBucket)
      → at < w.buckets_count
      → IsOpen at (base_of part w at) t
      → Took o (w.tls at) t
      → IsSound part
          (count_cache_hit e at (count_served e (record attempted { tls = update w.tls at t })))
          (update free at (free at))
          (update lent at (o ∷ lent at))
  from_cache o t lt is_open took =
      let hit_world =
        count_cache_hit e at (count_served e (record attempted { tls = update w.tls at t })) in
      let st = attempted-IsSound.bucket at lt in
      changed-IsSound part attempted-IsSound at w.heap w.mem hit_world.buckets hit_world.tls
        hit_world.global_stats (free at) (o ∷ lent at) lt
        (rw (update_self w.tls at t) (record {
          at = ground (arith, st.at);
          tag_fits = ground (arith, st.tag_fits);
          chain = rw (same_head t) st.chain;
          stock = λ a. omega (arith, st.stock a, took a);
        }))
        (rw (update_self w.tls at t) (inl is_open)) (λ a out. refl) (λ j ne. ground arith)
        (λ j ne. update_ne w.tls at t j (λ eq. ne (sym eq)))
    where
      same_head :
          (t : TlsPoolBucket)
          → ((count_cache_hit e at
                (count_served e (record attempted { tls = update w.tls at t }))).buckets
              at).head
            ≡ (w.buckets at).head
      same_head t = ground arith

  -- The cache of the request's bucket serves it.
  pub Served-hit :
      (lt : at < w.buckets_count) (o : ℕ) (t : TlsPoolBucket)
      → alloc_from_cache (w.tls at) ≡ some (base_of part w at + o, t)
      → IsOpen at (base_of part w at) t
      → Took o (w.tls at) t
      → (s : Served part w lent bytes k (allocate part libc e w bytes (2 ^ k))) × (s.index ≡ at)
  Served-hit lt o t returns is_open took = (
    record {
      index = at;
      offset = o;
      world = count_cache_hit e at (count_served e (record attempted { tls = update w.tls at t }));
      free = update free at (free at);
      returns =
          allocate-hit part libc e w bytes (2 ^ k) pos lt (base_of part w at + o) t returns
            (omega (arith, sound.up));
      in_range = lt;
      sound = from_cache o t lt is_open took;
      same_layout = (refl, refl, refl);
      same_machine = (refl, refl);
      enough = enough part libc e bytes k pos small exact fits free lent;
      aligned = has_alignment part libc e bytes k pos small exact fits free lent;
    },
    refl,
  )

  -- A free block of the request's bucket, whose cache is empty, serves it.
  pub Served-free :
      (lt : at < w.buckets_count)
      → alloc_from_cache (w.tls at) ≡ some (null, w.tls at)
      → (o : ℕ) (xs : List ℕ) → free at ≡ o ∷ xs
      → (s : Served part w lent bytes k (allocate part libc e w bytes (2 ^ k))) × (s.index ≡ at)
  Served-free lt empty o xs eq =
      let few : at + 4 < 2 ^ 64 = omega (arith, lt, sound.up) in
      let whole : u64 (at + 4) ≡ at + 4 = omega (arith, few) in
      let (s, same) =
        take_block part e bytes k small attempted free lent attempted-IsSound at lt
          (enough part libc e bytes k pos small exact fits free lent)
          (has_alignment part libc e bytes k pos small exact fits free lent)
          (min_size_t attempted.buckets_count (u64 (at + 4))) 4
          (min_size_t-gt at attempted.buckets_count (u64 (at + 4)) lt (omega (arith, whole))) o xs
          (subst (λ z. BucketOf part attempted at z (lent at) (store attempted) (attempted.tls at))
            eq (attempted-IsSound.bucket at lt)) in
      let (t, same') =
        Served-uncached part libc e bytes k pos small exact fits free lent true attempted
          attempted-IsSound s in
      (
        record {
          index = t.index;
          offset = t.offset;
          world = t.world;
          free = t.free;
          returns = allocate-miss part libc e w bytes (2 ^ k) pos lt empty ∙ t.returns;
          in_range = t.in_range;
          sound = t.sound;
          same_layout = t.same_layout;
          same_machine = t.same_machine;
          enough = t.enough;
          aligned = t.aligned;
        },
        same' ∙ same,
      )

  module _
      (m : IsMalloc w.buffer
        (w.buffer + w.bucket_size_in_bytes * w.buckets_count)
        (bytes + (2 ^ grain k + 15))
        (libc.malloc w.heap (bytes + (2 ^ grain k + 15)))) where
    uncached :
        (is_valid : Bool)
        → Allocated part libc w free lent bytes k
            (alloc_uncached part libc e attempted bytes (2 ^ k) at is_valid)
    uncached is_valid = recount part libc e w free lent bytes k _ (
        uncached-Allocated part libc e bytes k pos small exact fits free lent attempted
          attempted-IsSound m is_valid)

    by_size :
        at < w.buckets_count
        → Allocated part libc w free lent bytes k (allocate part libc e w bytes (2 ^ k))
    by_size lt =
        elim (alloc_from_cache-Popped at (base_of part w at) (w.tls at) (sound.cache at lt)) [
          | hit o t returns is_open same took ↦ in_bucket (Served-hit lt o t returns is_open took).0
          | miss returns no_l0 no_l1 ↦
              subst (λ out. Allocated part libc w free lent bytes k out)
                (sym (allocate-miss part libc e w bytes (2 ^ k) pos lt returns)) (uncached true)
        ]

    -- In a sound allocator, `Allocate` of one or more bytes, at an alignment up to 4096 that is a
    -- power of two and at sizes that neither the scheme nor the added header overflows, always
    -- ends, if `malloc` returns null or a block outside the buffer. The result is a block of a
    -- bucket that was free or cached and is lent now, with elements of enough bytes and of a
    -- multiple of the alignment; or a block of the generic allocator for the request; or null, if
    -- `malloc` failed. The allocator is sound after it in each case, with no other block lent.
    pub allocate-Allocated :
        Allocated part libc w free lent bytes k (allocate part libc e w bytes (2 ^ k))
    allocate-Allocated = elim (dec_lt at w.buckets_count) [
      | yes lt ↦ by_size lt
      | no big ↦
          subst (λ out. Allocated part libc w free lent bytes k out)
            (sym (allocate-above part libc e w bytes (2 ^ k) pos (omega arith))) (uncached false)
    ]
