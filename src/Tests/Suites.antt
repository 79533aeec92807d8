-- ===== src/Tests/Suites.antt =====
-- Runs of the repository's tests and of the benchmark's loop.
use smmalloc.Prelude.{
  ℕ, ◌+◌, ◌*◌, ◌^◌, ◌<◌, ◌≤◌, ◌≡◌, ◌≢◌, ◌∙◌, refl, lt→ltb, List, [], some, arith,
}
use smmalloc.Align.{align}
use smmalloc.Pool.{null}
use smmalloc.Cache.{zero_bucket}
use smmalloc.Sizes.Linear
use smmalloc.Sizes.Piecewise
use smmalloc.Sizes.Float.Scheme
use smmalloc.Allocator.{World}
use smmalloc.Client.Lists.{Extent}
use smmalloc.Client.Invariant.{Inv}
use smmalloc.Bench.{zeroes}
use smmalloc.Bench.Sequence.{Rand, ubench_sequence}
use smmalloc.Bench.WorkingSet.{Slots, do_benchmark, new_slots}
use smmalloc.Bench.WorkingSet.Smmalloc.{sm_api}
use smmalloc.Bench.WorkingSet.Ubench.{ubench_lem}
use smmalloc.Bench.WorkingSet.Others.{workingset_size}
use smmalloc.Suite.Process.{Process}
use smmalloc.Suite.Triples.{Returns}
use smmalloc.Suite.Created.{IsReady, others, created, created-Inv, created-buckets}
use smmalloc.Suite.Simple.Sizes.{bucket_size_test, bucket_size_alignment}
use smmalloc.Suite.Simple.Alignment.{alignment_test01}
use smmalloc.Suite.Simple.Blocks.{basic}
use smmalloc.Suite.Passing.SizeChecks.{bucket_size_test_passes, bucket_size_alignment_passes}
use smmalloc.Suite.Passing.Alignments.{alignment_test01_passes}
use smmalloc.Suite.Passing.Distinct.{basic_passes}
use smmalloc.Suite.Simple.Blocks.{mega_passes, pool_size}
use smmalloc.Suite.Passing.Mega.{Unused, mega_passes_lem}
use smmalloc.Tests.Data.{empty_machine}
use smmalloc.Tests.Bump.{bump, bump_spec}
use smmalloc.Tests.Worlds.{part, zero-IsClosed}

abbrev pub process : Process ℕ
process = record { state = empty_machine; tls = λ i. zero_bucket }

bump_grants : (h n : ℕ) → 0 < h → h + n < 2 ^ 64 → (bump.malloc h n).0 ≢ null
bump_grants h n pos fits = rw (lt→ltb (h + n) (2 ^ 64) fits) (λ e. omega (arith, pos, e))

rounded : align (48 * 1024 * 1024) (2 ^ 12) ≡ 48 * 1024 * 1024
unfolding align
rounded = refl

pub ready : (n : ℕ) → n ≤ 62 → IsReady part bump_spec [] 2048 n (48 * 1024 * 1024) process
ready n few = record {
  owns = (omega arith, tt);
  clear = tt;
  closed = λ i. zero-IsClosed;
  first_granted = λ e. omega (arith, e);
  second_granted =
      rw rounded (
        bump_grants 10319 (48 * 1024 * 1024 * n + (2 ^ 12 + 15)) (omega arith)
          (omega (arith, few)));
}

own_bucket : part.index_by_size (align 34 (2 ^ 4)) < 5
unfolding Piecewise.index_by_size align
own_bucket = omega arith

alignment_test01_passes_example :
    (t : Process ℕ) × Returns (alignment_test01 bump part 2048) process tt t
alignment_test01_passes_example =
    alignment_test01_passes part bump_spec (omega arith) [] 2048 process (ready 5 (omega arith))

basic_passes_example : (t : Process ℕ) × Returns (basic bump part 2048) process tt t
basic_passes_example =
    basic_passes part bump_spec (omega arith) [] 2048 process (ready 5 (omega arith)) own_bucket

bucket_size_test_passes_example :
    ((v : ℕ) × Returns (bucket_size_test Linear.partition) 0 tt v)
    × ((v : ℕ) × Returns (bucket_size_test Piecewise.partition) 0 tt v)
    × ((v : ℕ) × Returns (bucket_size_test Scheme.partition) 0 tt v)
bucket_size_test_passes_example = bucket_size_test_passes 0

bucket_size_alignment_passes_example :
    ((v : ℕ) × Returns (bucket_size_alignment Linear.partition) 0 tt v)
    × ((v : ℕ) × Returns (bucket_size_alignment Piecewise.partition) 0 tt v)
    × ((v : ℕ) × Returns (bucket_size_alignment Scheme.partition) 0 tt v)
bucket_size_alignment_passes_example = bucket_size_alignment_passes 0

-- the allocator of `smmalloc_10m`
abbrev owners : List Extent
owners = others part bump_spec [] 2048 18 (48 * 1024 * 1024) process

abbrev space : World ℕ
space =
    created part bump_spec [] 2048 18 (48 * 1024 * 1024) process (ready 18 (omega arith))
      (omega arith) (omega arith) (omega arith) (omega arith)

space-Inv : Inv part bump_spec owners (record { world = space; held = [] })
space-Inv =
    created-Inv part bump_spec [] 2048 18 (48 * 1024 * 1024) process (ready 18 (omega arith))
      (omega arith) (omega arith) (omega arith) (omega arith)

space_sizes :
    (space.buckets_count ≡ 18)
    × (48 * 1024 * 1024 ≤ space.bucket_size_in_bytes)
    × (space.bucket_size_in_bytes ≡ align (48 * 1024 * 1024) (2 ^ 12))
space_sizes =
    created-buckets part bump_spec [] 2048 18 (48 * 1024 * 1024) process (ready 18 (omega arith))
      (omega arith) (omega arith) (omega arith) (omega arith)

abbrev rising_numbers : Rand ℕ
rising_numbers = record { srand = λ seed. seed; rand = λ s. (s, s + 1) }

ubench_lem_example :
    (t : Slots (World ℕ)) × (do_benchmark
        (sm_api bump part)
        (ubench_sequence rising_numbers)
        workingset_size
        2
        (new_slots workingset_size space)
      ≡ some t)
    × (t.working_set ≡ zeroes workingset_size)
    × Inv part bump_spec owners (record { world = t.world; held = [] })
ubench_lem_example =
    ubench_lem bump_spec owners space space-Inv space_sizes.0 space_sizes.1 rising_numbers 2

-- the allocator of `MegaAlloc`, before its thread cache
mega_rounded : align 16777216 (2 ^ 12) ≡ 16777216
unfolding align
mega_rounded = refl

mega_ready : IsReady part bump_spec [] 2048 2 16777216 process
mega_ready = record {
  owns = (omega arith, tt);
  clear = tt;
  closed = λ i. zero-IsClosed;
  first_granted = λ e. omega (arith, e);
  second_granted =
      rw mega_rounded
        (bump_grants 10319 (16777216 * 2 + (2 ^ 12 + 15)) (omega arith) (omega arith));
}

abbrev mega_owners : List Extent
mega_owners = others part bump_spec [] 2048 2 16777216 process

abbrev mega_heap : World ℕ
mega_heap =
    created part bump_spec [] 2048 2 16777216 process mega_ready (omega arith) (omega arith)
      (omega arith) (omega arith)

mega_index : part.index_by_size (align 16 (2 ^ 4)) ≡ 0
unfolding Piecewise.index_by_size align
mega_index = refl

mega_size : part.size_by_index 0 ≡ 16
unfolding Piecewise.size_by_index
mega_size = refl

mega-Inv : Inv part bump_spec mega_owners (record { world = mega_heap; held = [] })
mega-Inv =
    created-Inv part bump_spec [] 2048 2 16777216 process mega_ready (omega arith) (omega arith)
      (omega arith) (omega arith)

mega_sizes :
    (mega_heap.buckets_count ≡ 2)
    × (16777216 ≤ mega_heap.bucket_size_in_bytes)
    × (mega_heap.bucket_size_in_bytes ≡ align 16777216 (2 ^ 12))
mega_sizes =
    created-buckets part bump_spec [] 2048 2 16777216 process mega_ready (omega arith) (omega arith)
      (omega arith) (omega arith)

mega_unused : Unused part bump_spec mega_owners (omega arith) mega_index mega_heap
mega_unused =
    let exact : mega_heap.bucket_size_in_bytes ≡ 16777216 = mega_sizes.2 ∙ mega_rounded in
    (mega-Inv, omega (arith, mega_sizes), rw (exact, mega_size) refl)

mega_passes_lem_example :
    (v : World ℕ) × Returns
      (mega_passes bump part 3 0)
      mega_heap
      (0 + 3 * (2 * (pool_size bump part + 1)))
      v
    × Unused part bump_spec mega_owners (omega arith) mega_index v
mega_passes_lem_example =
    mega_passes_lem part bump_spec mega_owners (omega arith) mega_index 3 0 mega_heap mega_unused
