-- ===== src/Suite/Process.antt =====
-- The state that a test works on, and the allocator that most tests create and destroy.
use smmalloc.Prelude.{ℕ, Option, none, some, ◌==◌, sub64, Bool, bit_and, ◌>>=◌}
use smmalloc.Generic.{Libc, Machine}
use smmalloc.Cache.{TlsPoolBucket}
use smmalloc.Sizes.{Partition}
use smmalloc.Allocator.{World, machine}
use smmalloc.CApi.{sm_allocator_create, sm_allocator_destroy}
use smmalloc.Suite.Gtest.{Body, Fixture, Unit0}

-- the heap and the memory, and the thread's caches
pub record Process (H : Type 0) : Type 0 where
  pub state : Machine H
  pub tls : ℕ → TlsPoolBucket

-- `IsAligned` and `_IsAligned` of the tests
unfoldable pub is_aligned_to : ℕ → ℕ → Bool
is_aligned_to p alignment = let low_bits = bit_and p (sub64 alignment 1) in low_bits == 0

module _ {H : Type 0} (libc : Libc H) where
  -- the end of a test: `_sm_allocator_destroy`, which a failed ASSERT_TRUE skips
  abbrev pub leave : ℕ → Option Unit0 × Fixture (World H) → Option Unit0 × Fixture (Process H)
  leave allocator (none, s) = (
    none,
    record { heap = record { state = machine s.heap; tls = s.heap.tls }; failed = s.failed },
  )
  leave allocator (some u, s) = (
    some u,
    record {
      heap = record { state = sm_allocator_destroy libc s.heap allocator; tls = s.heap.tls };
      failed = s.failed;
    },
  )

  module _ (part : Partition) (sizeof_allocator : ℕ) where
    -- `_sm_allocator_create`, and the body, which may use the allocator's address
    unfoldable pub with_heap : ℕ → ℕ → (ℕ → Body (World H) Unit0) → Body (Process H) Unit0
    with_heap buckets_count bytes body s =
        sm_allocator_create libc part sizeof_allocator s.heap.state s.heap.tls buckets_count bytes
        >>= λ (p, w). body p (record { heap = w; failed = s.failed }) >>= λ r. some (leave p r)
