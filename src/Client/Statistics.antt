-- ===== src/Client/Statistics.antt =====
-- The statistics of an allocator add up, whatever a program does.
use smmalloc.Prelude.{
  ℕ, zero, suc, ◌+◌, ◌^◌, ◌≡◌, ◌≢◌, refl, subst, sym, Bool, true, false, some, ◌==◌, ltb, leb,
  if◌then◌else◌, OnSome, OnSome-any, OnSome-bind, OnSome-if, u64, arith, ==→eq, min,
}
use smmalloc.Memory.{Mem, update}
use smmalloc.Align.{align, min_size_t}
use smmalloc.Pool
use smmalloc.Pool.{null}
use smmalloc.Cache.{alloc_from_cache, release_to_cache}
use smmalloc.Generic.{Libc}
use smmalloc.Generic
use smmalloc.Sizes.{Partition}
use smmalloc.Allocator.{
  World, GlobalStats, new_global_stats, machine, store, with_store, alloc_from_buckets,
  alloc_uncached, allocate, next_bucket, next_bucket_rounds, free, free_to_bucket, realloc,
  realloc_in_bucket, realloc_generic, count_attempt, count_routed, count_miss, count_free,
  find_bucket, is_readable, move_bytes,
}
use smmalloc.Client.Runs.{Client, Step, allocates, fails, frees, resizes, keeps_old, writes}

-- Each attempt was served or routed, each routed one for one of the two reasons; `pending` attempts
-- are not decided.
abbrev pub AddsUp : ℕ → GlobalStats → Type 0
AddsUp pending g =
    (u64 (g.total_allocations_served + g.total_allocations_routed_to_default_allocator + pending)
      ≡ u64 g.total_num_allocation_attempts)
    × (u64 (g.routing_reason_by_size + g.routing_reason_saturation)
        ≡ u64 g.total_allocations_routed_to_default_allocator)

-- What leads from one state to the next: a call of the allocator that ends, with any arguments
-- (`Allocate` of any number of bytes, none among them, at any alignment, `Free` of any address,
-- `Realloc` of any address and number of bytes), or any change of memory.
pub data AnyCall {H : Type 0} (part : Partition) (libc : Libc H) (w : World H)
    : World H → Type 0 where
  calls_allocate :
      {v : World H} (bytes_count alignment p : ℕ)
      → allocate part libc true w bytes_count alignment ≡ some (p, v)
      → AnyCall part libc w v
  calls_free : {v : World H} (p : ℕ) → free libc w p ≡ some v → AnyCall part libc w v
  calls_realloc :
      {v : World H} (p bytes_count alignment q : ℕ)
      → realloc libc part w p bytes_count alignment ≡ some (q, v)
      → AnyCall part libc w v
  is_written : (m : Mem) → AnyCall part libc w (record w { mem = m })

pub data AnyCalls {H : Type 0} (part : Partition) (libc : Libc H) (start : World H)
    : World H → Type 0 where
  no_call : AnyCalls part libc start start
  and_call :
      {w v : World H}
      → AnyCalls part libc start w
      → AnyCall part libc w v
      → AnyCalls part libc start v

-- A step of a program is a call, or changes memory.
pub step-AnyCall :
    {H : Type 0} (part : Partition) (libc : Libc H) (c d : Client H)
    → Step part libc c d
    → AnyCall part libc c.world d.world
step-AnyCall part libc c d (allocates bytes k p world request returns some_p) =
    calls_allocate bytes (2 ^ k) p returns
step-AnyCall part libc c d (fails bytes k world request returns) =
    calls_allocate bytes (2 ^ k) null returns
step-AnyCall part libc c d (frees n p bytes world at returns) = calls_free p returns
step-AnyCall part libc c d (resizes n p m bytes k q world at request returns some_q) =
    calls_realloc p bytes (2 ^ k) q returns
step-AnyCall part libc c d (keeps_old n p m bytes k world at request returns) =
    calls_realloc p bytes (2 ^ k) null returns
step-AnyCall part libc c d (writes m frame) = is_written m

module _ {H : Type 0} where
  abbrev Decided : World H → Type 0
  Decided w = AddsUp 0 w.global_stats

  -- null: the attempt is not decided
  abbrev Tried : ℕ × World H → Type 0
  Tried (p, w) = (p ≡ null → AddsUp 1 w.global_stats) × (p ≢ null → Decided w)

  abbrev Answered : ℕ × World H → Type 0
  Answered (p, w) = Decided w

  module _ (part : Partition) where
    buckets-Tried :
        (fuel : ℕ) (w : World H) (i max_index alignment : ℕ)
        → AddsUp 1 w.global_stats
        → OnSome Tried (alloc_from_buckets part fuel true w i max_index alignment)
    unfolding alloc_from_buckets
    buckets-Tried zero w i max_index alignment adds = tt
    buckets-Tried (suc fuel) w i max_index alignment adds =
        OnSome-if Tried (ltb i max_index) _ _
          (λ lt.
            OnSome-bind (λ r. Unit {0}) Tried (Pool.alloc w.mem (w.buckets i)) _
              (OnSome-any (Pool.alloc w.mem (w.buckets i)))
              (λ (p, b) _.
                OnSome-if Tried (p == null) _ _
                  (λ e.
                    OnSome-bind (λ r. Unit {0}) Tried
                      (next_bucket part next_bucket_rounds i alignment) _
                      (OnSome-any (next_bucket part next_bucket_rounds i alignment))
                      (λ next _.
                        buckets-Tried fuel
                          (count_miss true i (record w { buckets = update w.buckets i b })) next
                          max_index alignment adds))
                  (λ some_p. (
                    λ e. absurd (ground (arith, some_p, e)),
                    λ ne. (omega (arith, adds), adds.1),
                  ))))
          (λ ge. (λ e. adds, λ ne. absurd (ne refl)))

    module _ (libc : Libc H) where
      uncached-Decided :
          (w : World H) (bytes_count alignment i : ℕ) (is_valid : Bool)
          → AddsUp 1 w.global_stats
          → OnSome Answered (alloc_uncached part libc true w bytes_count alignment i is_valid)
      unfolding alloc_uncached
      uncached-Decided w bytes_count alignment i is_valid adds =
          let max_index = min_size_t w.buckets_count (u64 (i + 4)) in
          OnSome-bind Tried Answered (alloc_from_buckets part 5 true w i max_index alignment) _
            (buckets-Tried 5 w i max_index alignment adds)
            (λ (p, w') tried.
              OnSome-if Answered (p == null) _ _
                (λ e. routed is_valid w' (tried.0 (==→eq p null e)))
                (λ some_p. tried.1 (λ e. absurd (ground (arith, some_p, e)))))
        where
          routed :
              (is_valid : Bool) (v : World H)
              → AddsUp 1 v.global_stats
              → Decided (count_routed true is_valid v)
          routed true v adds = (omega (arith, adds), omega (arith, adds))
          routed false v adds = (omega (arith, adds), omega (arith, adds))

      allocate-Decided :
          (w : World H) (bytes_count alignment : ℕ)
          → Decided w
          → OnSome Answered (allocate part libc true w bytes_count alignment)
      unfolding allocate
      allocate-Decided w bytes_count alignment adds =
          let w1 = count_attempt true w in
          let i = part.index_by_size (align bytes_count alignment) in
          let pending : AddsUp 1 w1.global_stats = (omega (arith, adds), adds.1) in
          OnSome-if Answered (bytes_count == 0) _ _ (λ e. adds)
            λ some_bytes.
              OnSome-if Answered (ltb i w1.buckets_count) _ _
                (λ lt.
                  OnSome-bind (λ r. Unit {0}) Answered (alloc_from_cache (w1.tls i)) _
                    (OnSome-any (alloc_from_cache (w1.tls i)))
                    (λ (p, t) _.
                      OnSome-if Answered (p == null) _ _
                        (λ e.
                          uncached-Decided (record w1 { tls = update w1.tls i t }) bytes_count
                            alignment i true pending)
                        (λ some_p. (omega (arith, pending), adds.1))))
                (λ ge. uncached-Decided w1 bytes_count alignment i false pending)

  to_bucket-Decided : (w : World H) (p i : ℕ) → Decided w → OnSome Decided (free_to_bucket w p i)
  unfolding free_to_bucket
  to_bucket-Decided w p i adds =
      let w1 = count_free i w in
      OnSome-bind (λ r. Unit {0}) Decided (release_to_cache true (store w1) (w1.tls i) p) _
        (OnSome-any (release_to_cache true (store w1) (w1.tls i) p))
        (λ (released, s, t) _.
          let w2 = record (with_store w1 s) { tls = update w1.tls i t } in
          OnSome-if Decided released _ _ (λ e. adds)
            λ e.
              OnSome-bind (λ r. Unit {0}) Decided (Pool.free_interval w2.mem (w2.buckets i) p p) _
                (OnSome-any (Pool.free_interval w2.mem (w2.buckets i) p p)) (λ (m, b) _. adds))

  free-Decided : (libc : Libc H) (w : World H) (p : ℕ) → Decided w → OnSome Decided (free libc w p)
  unfolding free
  free-Decided libc w p adds =
      OnSome-if Decided (is_readable p) _ _
        (λ e.
          OnSome-bind (λ r. Unit {0}) Decided (find_bucket w p) _ (OnSome-any (find_bucket w p))
            (λ i _.
              OnSome-if Decided (ltb i w.buckets_count) _ _ (λ lt. to_bucket-Decided w p i adds)
                (λ ge. adds)))
        (λ e. adds)

  module _ (part : Partition) (libc : Libc H) where
    in_bucket-Decided :
        (w : World H) (p bytes_count alignment i : ℕ)
        → Decided w
        → OnSome Answered (realloc_in_bucket libc part w p bytes_count alignment i)
    unfolding realloc_in_bucket
    in_bucket-Decided w p bytes_count alignment i adds =
        OnSome-if Answered (leb bytes_count (part.size_by_index i)) _ _ (λ e. adds)
          λ e.
            OnSome-bind Answered Answered (allocate part libc true w bytes_count alignment) _
              (allocate-Decided part libc w bytes_count alignment adds)
              (λ (p2, w') adds'.
                OnSome-if Answered (p2 == null) _ _ (λ e. adds')
                  λ e.
                    OnSome-bind (λ m. Unit {0}) Answered
                      (if is_readable p
                        then move_bytes w'.mem p2 p (part.size_by_index i)
                        else some w'.mem)
                      _ (OnSome-any _)
                      (λ m _.
                        OnSome-bind Decided Answered (free libc (record w' { mem = m }) p) _
                          (free-Decided libc (record w' { mem = m }) p adds')
                          (λ w'' adds''. adds'')))

    generic-Decided :
        (w : World H) (p bytes_count alignment : ℕ)
        → Decided w
        → OnSome Answered (realloc_generic libc part w p bytes_count alignment)
    unfolding realloc_generic
    generic-Decided w p bytes_count alignment adds =
        OnSome-if Answered (ltb (part.index_by_size (align bytes_count alignment)) w.buckets_count)
          _ _
          (λ lt.
            OnSome-bind Answered Answered (allocate part libc true w bytes_count alignment) _
              (allocate-Decided part libc w bytes_count alignment adds)
              (λ (p2, w') adds'.
                OnSome-bind (λ m. Unit {0}) Answered
                  (if is_readable p
                    then move_bytes w'.mem p2 p
                        (min (Generic.get_usable_space libc (machine w') p) bytes_count)
                    else some w'.mem)
                  _ (OnSome-any _) (λ m _. adds')))
          (λ ge. adds)

    realloc-Decided :
        (w : World H) (p bytes_count alignment : ℕ)
        → Decided w
        → OnSome Answered (realloc libc part w p bytes_count alignment)
    unfolding realloc
    realloc-Decided w p bytes_count alignment adds =
        OnSome-if Answered (is_readable p) _ _
          (λ readable.
            OnSome-if Answered (bytes_count == 0) _ _
              (λ e.
                OnSome-bind Decided Answered (free libc w p) _ (free-Decided libc w p adds)
                  (λ w' adds'. adds'))
              (λ e.
                OnSome-bind (λ i. Unit {0}) Answered (find_bucket w p) _
                  (OnSome-any (find_bucket w p))
                  (λ i _.
                    OnSome-if Answered (ltb i w.buckets_count) _ _
                      (λ lt. in_bucket-Decided w p bytes_count alignment i adds)
                      (λ ge. generic-Decided w p bytes_count alignment adds))))
          (λ e. allocate-Decided part libc w bytes_count alignment adds)

    call-Decided : (w v : World H) → AnyCall part libc w v → Decided w → Decided v
    call-Decided w v (calls_allocate bytes_count alignment p returns) adds =
        subst (OnSome Answered) returns (allocate-Decided part libc w bytes_count alignment adds)
    call-Decided w v (calls_free p returns) adds =
        subst (OnSome Decided) returns (free-Decided libc w p adds)
    call-Decided w v (calls_realloc p bytes_count alignment q returns) adds =
        subst (OnSome Answered) returns (realloc-Decided w p bytes_count alignment adds)
    call-Decided w v (is_written m) adds = adds

    -- After any calls that end, of `Allocate` for any number of bytes, none among them, at any
    -- alignment, of `Free` of any address, and of `Realloc` of any address to any number of bytes,
    -- in any order and with any changes of memory between them, from a state where all statistics
    -- of the allocator are zero, whether the invariant holds or not: the allocations served and
    -- those routed to the generic allocator add up to the attempts, and those routed because of
    -- their size and because of saturation to those routed, modulo `2 ^ 64`.
    pub calls-AddsUp :
        (start v : World H)
        → AnyCalls part libc start v
        → start.global_stats ≡ new_global_stats
        → AddsUp 0 v.global_stats
    calls-AddsUp start v no_call fresh = subst (AddsUp 0) (sym fresh) (refl, refl)
    calls-AddsUp start v (and_call {w} calls call) fresh =
        call-Decided w v call (calls-AddsUp start w calls fresh)
