-- ===== src/Suite/Simple/Alignment.antt =====
-- AlignmentTest01, 02 and 03 of smmalloc_test01.cpp.
use smmalloc.Prelude.{ℕ, zero, suc, ◌+◌, ◌*◌, ◌-◌, true, List, [], ◌∷◌, none, some, u32, u64, false}
use smmalloc.Generic.{Libc}
use smmalloc.Sizes.{Partition}
use smmalloc.Allocator.{World, get_bucket_elements_count, hot}
use smmalloc.CApi.{
  sm_malloc, sm_mbucket, sm_allocator_thread_cache_create, sm_allocator_thread_cache_destroy,
}
use smmalloc.Suite.Gtest.{Body, Unit0, pure, ◌>>=◌, ◌>>◌, call, run, ask, assert_true, for_range}
use smmalloc.Suite.Process.{Process, is_aligned_to, with_heap}

module _ {H : Type 0} (libc : Libc H) (part : Partition) where
  -- `_sm_malloc` of some bytes, and the check of the address
  abbrev pub malloc_aligned : ℕ → ℕ → Body (World H) Unit0
  malloc_aligned bytes alignment = do
    p ← call (λ w. sm_malloc libc part w bytes alignment)
    assert_true (is_aligned_to p alignment)

  unfoldable pub alignment_round : ℕ → Body (World H) Unit0
  unfolding is_aligned_to
  alignment_round iter = do
    malloc_aligned 20 1
    malloc_aligned 20 2
    malloc_aligned 20 4
    malloc_aligned 20 8
    malloc_aligned 20 16
    malloc_aligned 20 32
    malloc_aligned 20 64
    malloc_aligned 20 128

  -- the loop of `numAllocations` rounds, left when a block is not of a bucket
  unfoldable pub saturate : ℕ → ℕ → ℕ → Body (World H) Unit0
  saturate zero block_size alignment = pure tt
  saturate (suc n) block_size alignment = do
    p ← call (λ w. sm_malloc libc part w block_size alignment)
    assert_true (is_aligned_to p alignment)
    found ← ask (λ w. sm_mbucket libc w p)
    let rest = saturate n block_size alignment
    elim found [ none ↦ pure tt | some i ↦ rest ]

  -- the sum of the elements of the buckets from `i` on, with `n` of them to go
  unfoldable pub count_elements : ℕ → ℕ → ℕ → Body (World H) ℕ
  count_elements zero i sum = pure sum
  count_elements (suc n) i sum = do
    elements ← ask (λ w. get_bucket_elements_count part w i)
    count_elements n (i + 1) (u64 (sum + elements))

  abbrev pub num_buckets : ℕ
  num_buckets = 10

  abbrev pub ten : ℕ → List ℕ
  ten n = n ∷ n ∷ n ∷ n ∷ n ∷ n ∷ n ∷ n ∷ n ∷ n ∷ []

  module _ (sizeof_allocator : ℕ) where
    unfoldable pub alignment_test01 : Body (Process H) Unit0
    unfolding alignment_round for_range with_heap
    alignment_test01 =
        with_heap libc part sizeof_allocator 5 (48 * 1024 * 1024)
          λ heap. for_range 10000 0 alignment_round

    -- what the test does with a heap of 32 buckets
    unfoldable pub alignment_test02_body : ℕ → Body (World H) Unit0
    unfolding for_range
    alignment_test02_body heap = do
      p128 ← call (λ w. sm_malloc libc part w 20 128)
      assert_true (is_aligned_to p128 128)
      found ← ask (λ w. sm_mbucket libc w p128)
      assert_true (elim found [ none ↦ false | some i ↦ true ])
      elements_count ←
          ask (λ w. elim found [ none ↦ none | some i ↦ get_bucket_elements_count part w i ])
      for_range (u32 (elements_count * 4)) 0 (λ iter. malloc_aligned 20 128)

    unfoldable pub alignment_test02 : Body (Process H) Unit0
    unfolding alignment_test02_body with_heap
    alignment_test02 =
        with_heap libc part sizeof_allocator 32 (2 * 1024 * 1024) alignment_test02_body

    -- one heap of the third test
    unfoldable pub alignment_test03_heap : ℕ → ℕ → Body (Process H) Unit0
    unfolding saturate count_elements with_heap
    alignment_test03_heap alignment block_size =
        with_heap libc part sizeof_allocator num_buckets (128 * 1024) λ heap. do
          run (λ w. sm_allocator_thread_cache_create libc part w heap hot (ten 32))
          num_allocations ← count_elements num_buckets 0 0
          saturate num_allocations block_size alignment
          run (λ w. sm_allocator_thread_cache_destroy libc w heap)

    unfoldable pub alignment_test03_alignments : List ℕ → Body (Process H) Unit0
    unfolding alignment_test03_heap for_range
    alignment_test03_alignments [] = pure tt
    alignment_test03_alignments (alignment ∷ alignments) = do
      for_range (part.size_by_index num_buckets - 1) 1 (alignment_test03_heap alignment)
      alignment_test03_alignments alignments

    unfoldable pub alignment_test03 : Body (Process H) Unit0
    unfolding alignment_test03_alignments
    alignment_test03 = alignment_test03_alignments (1 ∷ 2 ∷ 4 ∷ 8 ∷ 16 ∷ 32 ∷ 64 ∷ 128 ∷ [])
