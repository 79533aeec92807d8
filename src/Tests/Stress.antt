-- ===== src/Tests/Stress.antt =====
-- StressTest's check, run on an allocator that no one uses.
use smmalloc.Prelude.{
  ℕ, zero, suc, ◌*◌, ◌^◌, ◌<◌, ◌≤◌, ◌≡◌, Bool, true, ◌&&◌, leb, ◌==◌, refl, List, [], arith,
}
use smmalloc.Client.Runs.{IsRequest}
use smmalloc.Suite.Threads.{stress_check}
use smmalloc.Suite.Passing.Stress.{Idle, stress_check_passes}
use smmalloc.Align.{align}
use smmalloc.Sizes.Piecewise
use smmalloc.Allocator.{World}
use smmalloc.Client.Lists.{Extent}
use smmalloc.Suite.Triples.{Returns}
use smmalloc.Suite.Created.{others, created, created-Inv, created-buckets}
use smmalloc.Tests.Bump.{bump, bump_spec}
use smmalloc.Tests.Worlds.{part}
use smmalloc.Tests.Suites.{process, ready}

abbrev own_size : ℕ → Bool
own_size i =
    leb 1 (Piecewise.size_by_index i)
    && Piecewise.index_by_size (align (Piecewise.size_by_index i) (2 ^ 0)) == i

abbrev own_sizes : ℕ → Bool
own_sizes zero = true
own_sizes (suc n) = own_sizes n && own_size n

own_sizes_lem : (n i : ℕ) → own_sizes n ≡ true → i < n → own_size i ≡ true
own_sizes_lem zero i all lt = absurd (omega arith)
own_sizes_lem (suc n) i all lt = ground (arith, own_sizes_lem n i)

fifteen_own : own_sizes 15 ≡ true
unfolding Piecewise.index_by_size Piecewise.size_by_index align
fifteen_own = refl

own_size_lem :
    (i : ℕ)
    → own_size i ≡ true
    → (1 ≤ part.size_by_index i) × (part.index_by_size (align (part.size_by_index i) (2 ^ 0)) ≡ i)
own_size_lem i e = (ground (arith, e), ground (arith, e))

stress_own :
    (i : ℕ)
    → i < 15
    → (1 ≤ part.size_by_index i) × (part.index_by_size (align (part.size_by_index i) (2 ^ 0)) ≡ i)
stress_own i lt = own_size_lem i (own_sizes_lem 15 i fifteen_own lt)

stress_requests : (i : ℕ) → i < 15 → IsRequest part (part.size_by_index i) 0
stress_requests i lt =
    let size = part.at_most_1M i (omega (arith, lt)) in
    record {
      some_bytes = (stress_own i lt).0;
      at_most_4096 = omega arith;
      exact = omega (arith, size);
      fits = omega (arith, size);
    }

abbrev stress_owners : List Extent
stress_owners = others part bump_spec [] 2048 15 (48 * 1024 * 1024) process

abbrev stress_heap : World ℕ
stress_heap =
    created part bump_spec [] 2048 15 (48 * 1024 * 1024) process (ready 15 (omega arith))
      (omega arith) (omega arith) (omega arith) (omega arith)

stress-Idle :
    Idle part bump_spec stress_owners 15 stress_requests (λ i lt. (stress_own i lt).1) stress_heap
stress-Idle = (
  created-Inv part bump_spec [] 2048 15 (48 * 1024 * 1024) process (ready 15 (omega arith))
      (omega arith) (omega arith) (omega arith) (omega arith),
  (created-buckets part bump_spec [] 2048 15 (48 * 1024 * 1024) process (ready 15 (omega arith))
      (omega arith) (omega arith) (omega arith) (omega arith)).0,
)

stress_check_passes_example :
    (v : World ℕ) × Returns (stress_check bump part) stress_heap tt v
    × Idle part bump_spec stress_owners 15 stress_requests (λ i lt. (stress_own i lt).1) v
stress_check_passes_example =
    stress_check_passes part bump_spec stress_owners 15 stress_requests
      (λ i lt. (stress_own i lt).1) stress_heap stress-Idle
