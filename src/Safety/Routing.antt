-- ===== src/Safety/Routing.antt =====
-- The part of `Allocator::Allocate` behind the cache: the buckets, then the generic allocator.
use smmalloc.Prelude.{
  ℕ, ◌+◌, ◌*◌, ◌%◌, ◌^◌, ◌≤◌, ◌<◌, ◌≡◌, refl, ◌⊎◌, inl, inr, ◌∙◌, List, arith, sym, ap, Bool, some,
  Option, le→ltb, ne→==, u64, two_pow_mono,
}
use smmalloc.Align.{align, align_up, min_size_t, min_size_t-le}
use smmalloc.Pool.{null}
use smmalloc.Generic.{Libc, clamp_alignment, overhead}
use smmalloc.Generic
use smmalloc.Generic.Block.{Block, alloc-Block, alloc-null, alloc-grain, grain, grain_bounds}
use smmalloc.Sizes.{Partition}
use smmalloc.Allocator.{
  World, machine, with_machine, alloc_uncached, alloc_from_buckets, count_routed,
}
use smmalloc.Safety.Sound.{IsSound, base_of, quiet-IsSound}
use smmalloc.Safety.Buckets.{Served, Outcome, alloc_from_buckets-total}

-- What the C library's `malloc` promises for a request of `n` bytes: null, or a block of the address
-- space that does not overlap the one from `low` to `high`, which is in use.
pub data IsMalloc {H : Type 0} (low high n : ℕ) : ℕ × H → Type 0 where
  failed : (heap : H) → IsMalloc low high n (null, heap)
  granted :
      (p : ℕ) (heap : H)
      → 0 < p
      → p + n < 2 ^ 64
      → (p + n ≤ low) ⊎ (high ≤ p)
      → IsMalloc low high n (p, heap)

abbrev pub SameLayout : {H : Type 0} → World H → World H → Type 0
SameLayout w w' =
    (w'.buckets_count ≡ w.buckets_count)
    × (w'.bucket_size_in_bytes ≡ w.bucket_size_in_bytes)
    × (w'.buffer ≡ w.buffer)

-- Where an allocation is served: from a bucket or its cache, or from the heap, or, if `malloc` fails,
-- not at all.
pub data Allocated {H : Type 0} (part : Partition) (libc : Libc H) (w : World H)
    (free lent : ℕ → List ℕ) (bytes k : ℕ) (out : Option (ℕ × World H)) : Type 0 where
  in_bucket : Served part w lent bytes k out → Allocated part libc w free lent bytes k out
  on_heap :
      (p : ℕ) (heap : H) (world : World H)
      (block : Block libc
        (machine w)
        bytes
        (2 ^ grain k)
        p
        heap
        (Generic.alloc libc (machine w) bytes (2 ^ grain k)))
      → 0 < p
      → libc.malloc w.heap (bytes + (2 ^ grain k + 15)) ≡ (p, heap)
      → out ≡ some (block.address, world)
      → machine world ≡ block.machine
      → IsSound part world free lent
      → SameLayout w world
      → Allocated part libc w free lent bytes k out
  no_memory :
      (heap : H) (world : World H)
      → libc.malloc w.heap (bytes + (2 ^ grain k + 15)) ≡ (null, heap)
      → out ≡ some (null, world)
      → IsSound part world free lent
      → (world.heap ≡ heap) × (world.mem ≡ w.mem)
      → SameLayout w world
      → Allocated part libc w free lent bytes k out

module _ {H : Type 0} (part : Partition) (libc : Libc H) (e : Bool) (bytes k : ℕ) (pos : 0 < bytes)
    (small : k ≤ 12) (exact : bytes + 2 ^ k ≤ part.limit)
    (fits : bytes + (2 ^ grain k + 15) < 2 ^ 64) (free lent : ℕ → List ℕ) where
  abbrev request : ℕ
  request = bytes + (2 ^ grain k + 15)

  -- Behind exhausted buckets the generic allocator serves the request; `v` is the world by then.
  module _ (is_valid : Bool) (w v : World H) (sound : IsSound part v free lent)
      (same : (v.heap ≡ w.heap) × (v.mem ≡ w.mem))
      (layout : (v.buckets_count ≡ w.buckets_count)
        × (v.bucket_size_in_bytes ≡ w.bucket_size_in_bytes)
        × (v.buffer ≡ w.buffer)) where
    abbrev routed : Option (ℕ × World H)
    routed =
        let v' = count_routed e is_valid v in
        let (q, s) = Generic.alloc libc (machine v') bytes (2 ^ k) in some (q, with_machine v' s)

    asked :
        (heap : H)
        → libc.malloc w.heap request ≡ (null, heap)
        → libc.malloc v.heap (u64 (bytes + overhead (clamp_alignment (2 ^ grain k)))) ≡ (null, heap)
    asked heap got =
        let grains = grain_bounds k small in
        let four : 4 ≤ 2 ^ grain k = two_pow_mono 2 (grain k) grains.0 in
        let few : 2 ^ grain k ≤ 4096 = two_pow_mono (grain k) 12 grains.2 in
        let clamped : clamp_alignment (2 ^ grain k) ≡ 2 ^ grain k =
          rw (le→ltb (2 ^ grain k) 4 four) refl in
        let over : overhead (2 ^ grain k) ≡ 2 ^ grain k + 15 = omega (arith, four, few) in
        let whole : u64 (bytes + (2 ^ grain k + 15)) ≡ bytes + (2 ^ grain k + 15) =
          omega (arith, fits) in
        rw (clamped, over, whole, same.0) got

    routed-failed :
        (heap : H)
        → libc.malloc w.heap request ≡ (null, heap)
        → Allocated part libc w free lent bytes k routed
    routed-failed heap got =
        no_memory heap (record (count_routed e is_valid v) { heap = heap }) got
          (rw
            (
              alloc-grain libc (machine v) bytes k,
              alloc-null libc (machine v) bytes (2 ^ grain k) heap (asked heap got),
            )
            refl)
          (quiet-IsSound part sound heap v.mem v.buckets (count_routed e is_valid v).global_stats
            (λ a lo hi. refl) (λ j. (refl, refl, refl)))
          (refl, same.1) layout

    routed-granted :
        (p : ℕ) (heap : H)
        → 0 < p
        → p + request < 2 ^ 64
        → (p + request ≤ w.buffer) ⊎ (w.buffer + w.bucket_size_in_bytes * w.buckets_count ≤ p)
        → libc.malloc w.heap request ≡ (p, heap)
        → Allocated part libc w free lent bytes k routed
    routed-granted p heap p_pos p_fits apart got =
        let block =
          alloc-Block libc (machine w) bytes (grain k) p heap (grain_bounds k small).0
            (grain_bounds k small).2 p_pos p_fits got in
        on_heap p heap (with_machine (count_routed e is_valid v) block.machine) block p_pos got
          (rw (same.0, same.1, alloc-grain libc (machine w) bytes k, block.returns) refl) refl
          (quiet-IsSound part sound block.machine.heap block.machine.mem v.buckets
            (count_routed e is_valid v).global_stats
            (λ a lo hi.
              block.bytes a (ground (arith, layout, apart, block.within))
              ∙ sym (ap (λ m. m a) same.1))
            (λ j. (refl, refl, refl)))
          layout

    pub routed-Allocated :
        IsMalloc w.buffer
          (w.buffer + w.bucket_size_in_bytes * w.buckets_count)
          request
          (libc.malloc w.heap request)
        → Allocated part libc w free lent bytes k routed
    routed-Allocated m = by_cases (libc.malloc w.heap request) refl m
      where
        by_cases :
            (got : ℕ × H)
            → libc.malloc w.heap request ≡ got
            → IsMalloc w.buffer (w.buffer + w.bucket_size_in_bytes * w.buckets_count) request got
            → Allocated part libc w free lent bytes k routed
        by_cases got eq (failed heap) = routed-failed heap eq
        by_cases got eq (granted p heap p_pos p_fits apart) =
            routed-granted p heap p_pos p_fits apart eq

  abbrev index : ℕ
  index = part.index_by_size (align bytes (2 ^ k))

  rounded :
      (bytes ≤ align bytes (2 ^ k))
      × (align bytes (2 ^ k) < bytes + 2 ^ k)
      × (align bytes (2 ^ k) % 2 ^ k ≡ 0)
  rounded = align_up k bytes (omega (arith, small)) (omega (arith, exact, part.limit_fits))

  pub enough : bytes ≤ part.size_by_index index
  enough = omega (
    arith,
    rounded,
    part.covers (align bytes (2 ^ k)) (omega (arith, rounded, pos)) (omega (arith, rounded, exact)),
  )

  pub has_alignment : part.size_by_index index % 2 ^ k ≡ 0
  has_alignment =
      part.keeps_aligned k (align bytes (2 ^ k)) small (omega (arith, rounded, pos))
        (omega (arith, rounded, exact)) rounded.2

  -- What a bucket serves is the result.
  pub Served-uncached :
      (is_valid : Bool) (w : World H)
      → IsSound part w free lent
      → (s : Served part w lent bytes k (
          alloc_from_buckets part 5 e w index
            (min_size_t w.buckets_count (u64 (index + 4)))
            (2 ^ k)))
      → (t : Served part w lent bytes k (alloc_uncached part libc e w bytes (2 ^ k) index is_valid))
        × (t.index ≡ s.index)
  unfolding alloc_uncached
  Served-uncached is_valid w sound s = (
    record {
      index = s.index;
      offset = s.offset;
      world = s.world;
      free = s.free;
      returns =
          rw (s.returns, ne→== (base_of part w s.index + s.offset) 0 (omega (arith, sound.up)))
            refl;
      in_range = s.in_range;
      sound = s.sound;
      same_layout = s.same_layout;
      same_machine = s.same_machine;
      enough = s.enough;
      aligned = s.aligned;
    },
    refl,
  )

  module _ (w : World H) (sound : IsSound part w free lent)
      (m : IsMalloc w.buffer
        (w.buffer + w.bucket_size_in_bytes * w.buckets_count)
        request
        (libc.malloc w.heap request)) where
    abbrev max_index : ℕ
    max_index = min_size_t w.buckets_count (u64 (index + 4))

    searched :
        Outcome part e bytes k small w free lent
          (alloc_from_buckets part 5 e w index max_index (2 ^ k))
    searched =
        alloc_from_buckets-total part e bytes k small 4 index max_index w free lent sound
          (min_size_t-le w.buckets_count (u64 (index + 4))).0
          (omega (arith, (min_size_t-le w.buckets_count (u64 (index + 4))).1)) (λ h. enough)
          has_alignment

    pub uncached-Allocated :
        (is_valid : Bool)
        → Allocated part libc w free lent bytes k
            (alloc_uncached part libc e w bytes (2 ^ k) index is_valid)
    unfolding alloc_uncached
    uncached-Allocated is_valid = elim searched [
      | inl s ↦ in_bucket (Served-uncached is_valid w sound s).0
      | inr x ↦
          rw x.returns (routed-Allocated is_valid w x.world x.sound x.same_machine x.same_layout m)
    ]
