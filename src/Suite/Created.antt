-- ===== src/Suite/Created.antt =====
-- A test that creates its allocator, runs its body, and destroys it.
use smmalloc.Prelude.{ℕ, ◌+◌, ◌-◌, ◌*◌, ◌^◌, ◌<◌, ◌≤◌, ◌≡◌, ◌≢◌, refl, List, [], ◌∷◌, arith}
use smmalloc.Align.{align, align_up}
use smmalloc.Pool.{null}
use smmalloc.Pool.Blocks.{blocks}
use smmalloc.Cache.Inventory.{IsClosed}
use smmalloc.Generic.{Libc}
use smmalloc.Sizes.{Partition, max_bucket_count}
use smmalloc.Allocator.{World}
use smmalloc.CApi.{sm_allocator_create, sm_allocator_destroy}
use smmalloc.CApi.Lifetime.{Life, create-Life}
use smmalloc.Safety.Sound.{blocks_in}
use smmalloc.Client.Lists.{Extent, Clear, AllClear}
use smmalloc.Client.Heap.{LibcSpec, granted}
use smmalloc.Client.Invariant.{Inv}
use smmalloc.Suite.Gtest.{Body, Unit0}
use smmalloc.Suite.Process.{Process, with_heap}
use smmalloc.Suite.Triples.{Returns}

module _ {H : Type 0} (part : Partition) {libc : Libc H} (spec : LibcSpec libc)
    (taken : List Extent) (sizeof_allocator n bytes : ℕ) (s : Process H) where
  abbrev pub whole : ℕ
  whole = align bytes (2 ^ 12) * n + (2 ^ 12 + 15)

  abbrev pub first : ℕ × H
  first = libc.malloc s.state.heap (sizeof_allocator + 79)

  abbrev pub second : ℕ × H
  second = libc.malloc first.1 whole

  abbrev pub others : List Extent
  others = (second.0, whole) ∷ (first.0, sizeof_allocator + 79) ∷ taken

  -- The heap has allocated `taken`, no cache is in use, and `malloc` grants the two blocks that the
  -- allocator needs.
  pub record IsReady : Type 0 where
    pub owns : spec.Owns s.state.heap taken
    pub clear : AllClear taken
    pub closed : (i : ℕ) → IsClosed (s.tls i)
    pub first_granted : first.0 ≢ null
    pub second_granted : second.0 ≢ null

  module _ (ready : IsReady) (pos : 0 < n) (n_max : n ≤ max_bucket_count)
      (megabyte : 2 ^ 20 ≤ bytes) (small : bytes + 2 ^ 12 ≤ 2 ^ 32 - 1) where
    first_block :
        (4096 < first.0)
        × (first.0 + (sizeof_allocator + 79) < 2 ^ 64)
        × Clear first.0 (sizeof_allocator + 79) taken
        × spec.Owns first.1 ((first.0, sizeof_allocator + 79) ∷ taken)
    first_block =
        granted spec.Owns taken (sizeof_allocator + 79) first ready.first_granted
          (spec.mallocs s.state.heap taken (sizeof_allocator + 79) ready.owns)

    second_block :
        (4096 < second.0)
        × (second.0 + whole < 2 ^ 64)
        × Clear second.0 whole ((first.0, sizeof_allocator + 79) ∷ taken)
        × spec.Owns second.1 others
    second_block =
        granted spec.Owns ((first.0, sizeof_allocator + 79) ∷ taken) whole second
          ready.second_granted
          (spec.mallocs first.1 ((first.0, sizeof_allocator + 79) ∷ taken) whole first_block.3)

    pub life :
        Life part libc sizeof_allocator n bytes first.0 second.0 s.tls second.1
          (sm_allocator_create libc part sizeof_allocator s.state s.tls n bytes)
    life =
        create-Life part libc s.state s.tls ready.closed sizeof_allocator n bytes pos n_max
          (omega (arith, megabyte)) small
          (λ i lt. omega (arith, part.at_most_1M i (omega (arith, lt, n_max)), megabyte)) first.0
          second.0 first.1 second.1 (omega (arith, first_block)) first_block.1 refl second_block.0
          second_block.1 refl (ground (arith, second_block.2.0))

    pub created : World H
    created = life.world

    pub created-Inv : Inv part spec others (record { world = created; held = [] })
    unfolding created
    created-Inv = record {
      free = λ i. blocks (part.size_by_index i) 0 (blocks_in part life.world i);
      entries = [];
      held = refl;
      sound = life.sound;
      fits = tt;
      owns = rw (life.heap_same) second_block.3;
      clear = (second_block.2, (first_block.2, ready.clear));
      home = record {
        place = 0;
        from = second.0;
        bytes = whole;
        at = refl;
        inside = rw (life.buckets, life.bucket_bytes) (omega (arith, life.in_block));
      };
    }

    pub created-buckets :
        (created.buckets_count ≡ n)
        × (bytes ≤ created.bucket_size_in_bytes)
        × (created.bucket_size_in_bytes ≡ align bytes (2 ^ 12))
    unfolding created
    created-buckets = (
      life.buckets,
      rw (life.bucket_bytes) (align_up 12 bytes (omega arith) (omega (arith, small))).0,
      life.bucket_bytes,
    )

    pub with_heap-Returns :
        (body : ℕ → Body (World H) Unit0) (v : World H)
        → Returns (body life.address) created tt v
        → (t : Process H) × Returns (with_heap libc part sizeof_allocator n bytes body) s tt t
          × (t.tls ≡ v.tls)
    unfolding created with_heap
    with_heap-Returns body v runs = (
      record { state = sm_allocator_destroy libc v life.address; tls = v.tls },
      rw (life.returns, runs) refl,
      refl,
    )
