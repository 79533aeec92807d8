-- ===== src/Tests/Worlds.antt =====
-- Runs of the allocator: `Init`, `Allocate` and `Free` of one that has two buckets of a page each.
use native.Mathlib.Nat.{le-div_iff_mul-le}
use smmalloc.Prelude.{
  ℕ, zero, suc, ◌+◌, ◌*◌, ◌%◌, ◌^◌, ◌<◌, ◌≤◌, ◌≡◌, refl, inr, ap, List, [], ◌∷◌, arith, true, count,
  of_below, subst,
}
use smmalloc.Memory.{update, update_self}
use smmalloc.Align.{align, align_up}
use smmalloc.Pool.{null}
use smmalloc.Pool.Blocks.{blocks}
use smmalloc.Cache.{zero_bucket}
use smmalloc.Cache.Inventory.{IsClosed}
use smmalloc.Sizes.{Partition}
use smmalloc.Sizes.Piecewise
use smmalloc.Allocator.{
  World, init, construct, allocate, free, alloc_from_buckets, find_bucket, next_bucket,
  next_bucket_rounds, store,
}
use smmalloc.Safety.Sound.{BucketOf, base_of, blocks_in}
use smmalloc.Safety.Buckets.{Served, Outcome, alloc_from_buckets-total, take_block}
use smmalloc.Safety.Routing.{Allocated, IsMalloc, granted}
use smmalloc.Safety.Allocation.{allocate-Allocated}
use smmalloc.Safety.Release.{Freed, free-Freed}
use smmalloc.Safety.Start.{Started, init-Started}
use smmalloc.Tests.Data.{rising, far, empty_mem}

abbrev pub part : Partition
part = Piecewise.partition

-- an allocator that `Init` has not set up, in a thread without caches
abbrev pub blank : World ℕ
blank = record {
  heap = 8192;
  mem = empty_mem;
  tls = λ i. zero_bucket;
  buckets_count = 0;
  bucket_size_in_bytes = 0;
  buffer_end = null;
  buckets_data_begin = λ i. null;
  buckets = λ i. smmalloc.Pool.new_bucket;
  buffer = null;
  global_stats = smmalloc.Allocator.new_global_stats;
}

pub zero-IsClosed : IsClosed zero_bucket
zero-IsClosed = record { max_zero = refl; l0_empty = refl; l1_empty = refl; l0_length = refl }

abbrev Fits : ℕ → Type 0
Fits i = part.size_by_index i ≤ 4096

pub two_fit : (i : ℕ) → i < 2 → Fits i
unfolding Piecewise.size_by_index
two_fit i lt = of_below Fits 2 ((tt, ground arith), ground arith) i lt

abbrev pub page : ℕ
page = align 4096 (2 ^ 12)

pub page_lem : (4096 ≤ page) × (page < 8192)
page_lem =
    let up = align_up 12 4096 (omega arith) (omega arith) in (omega (arith, up), omega (arith, up))

init-Started_example :
    Started part 2 page 8192
      (8192 + (page * 2 + (2 ^ 12 + 15)))
      empty_mem
      blank.tls
      (init part rising blank 2 4096)
init-Started_example =
    init-Started part rising blank refl refl (λ i. zero-IsClosed) 2 4096 (omega arith) (omega arith)
      (omega arith) (omega arith) two_fit 8192 (8192 + (page * 2 + (2 ^ 12 + 15))) (omega arith)
      (omega (arith, page_lem)) refl

pub ready :
    Started part 2 page 8192
      (8192 + (page * 2 + (2 ^ 12 + 15)))
      empty_mem
      blank.tls
      (init part rising blank 2 4096)
ready =
    init-Started part rising blank refl refl (λ i. zero-IsClosed) 2 4096 (omega arith) (omega arith)
      (omega arith) (omega arith) two_fit 8192 (8192 + (page * 2 + (2 ^ 12 + 15))) (omega arith)
      (omega (arith, page_lem)) refl

abbrev pub world : World ℕ
world = ready.world

abbrev pub all_free : ℕ → List ℕ
all_free i = blocks (part.size_by_index i) 0 (blocks_in part world i)

abbrev pub none_lent : ℕ → List ℕ
none_lent i = []

pub first : 0 < world.buckets_count
first = omega (arith, ready.buckets)

pub sixteen : 16 ≤ part.size_by_index 0
unfolding Piecewise.size_by_index
sixteen = ground arith

pub sixteen_aligned : part.size_by_index 0 % 2 ^ 4 ≡ 0
unfolding Piecewise.size_by_index
sixteen_aligned = refl

alloc_from_buckets-total_example :
    Outcome part true 16 4
      (omega arith)
      world
      all_free
      none_lent
      (alloc_from_buckets part 5 true world 0 1 (2 ^ 4))
alloc_from_buckets-total_example =
    alloc_from_buckets-total part true 16 4 (omega arith) 4 0 1 world all_free none_lent ready.sound
      (omega (arith, first)) (omega arith) (λ h. sixteen) sixteen_aligned

abbrev high : ℕ
high = world.buffer + world.bucket_size_in_bytes * world.buckets_count

grants : IsMalloc world.buffer high (16 + (2 ^ 4 + 15)) (far.malloc world.heap (16 + (2 ^ 4 + 15)))
grants =
    let size : world.bucket_size_in_bytes * world.buckets_count ≡ page * 2 =
      rw (ready.buckets, ready.bucket_bytes) refl in
    granted (2 ^ 40) world.heap (omega arith) (omega arith)
      (inr (omega (arith, ready.in_block, page_lem, size)))

allocate-Allocated_example :
    Allocated part far world all_free none_lent 16 4 (allocate part far true world 16 (2 ^ 4))
allocate-Allocated_example =
    allocate-Allocated part far true 16 4 (omega arith) (omega arith) (omega arith) (omega arith)
      all_free none_lent world ready.sound grants

-- The first block of bucket 0 is lent, and comes back.
pub first_free : (o : ℕ) × (xs : List ℕ) × (all_free 0 ≡ o ∷ xs)
unfolding blocks
first_free = blocks-head (part.size_by_index 0) (blocks_in part world 0) some_blocks
  where
    blocks-head : (size n : ℕ) → 0 < n → (o : ℕ) × (xs : List ℕ) × (blocks size 0 n ≡ o ∷ xs)
    blocks-head size zero h = absurd (omega arith)
    blocks-head size (suc n) h = (0, blocks size (0 + size) n, refl)

    some_blocks : 0 < blocks_in part world 0
    some_blocks =
        (le-div_iff_mul-le (omega (arith, sixteen))).1 (omega (arith, ready.sound.within 0 first))

pub served : Served part world none_lent 16 4 (alloc_from_buckets part 5 true world 0 1 (2 ^ 4))
served =
    (take_block part true 16 4 (omega arith) world all_free none_lent ready.sound 0 first sixteen
      sixteen_aligned 1 4 (omega arith) first_free.0 first_free.1
      (subst (λ z. BucketOf part world 0 z [] (store world) (world.tls 0)) first_free.2
        (ready.sound.bucket 0 first))).0

abbrev lent_one : ℕ → List ℕ
lent_one = update none_lent served.index (served.offset ∷ [])

free-Freed_example :
    Freed part served.world served.free lent_one served.index []
      (free far served.world (base_of part served.world served.index + served.offset))
free-Freed_example =
    free-Freed part served.world served.free lent_one served.sound served.index
      (omega (arith, served.in_range, served.same_layout)) served.offset []
      (λ a. ap (count a) (update_self none_lent served.index (served.offset ∷ []))) far
