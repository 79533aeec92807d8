-- ===== src/Suite/Simple/Blocks.antt =====
-- Basic and MegaAlloc of smmalloc_test01.cpp, as compiled without _DEBUG.
use smmalloc.Prelude.{
  ℕ, zero, suc, ◌+◌, ◌*◌, ◌/◌, not, List, [], ◌∷◌, ◌++◌, none, some, ◌==◌, sub64, if◌then◌else◌,
}
use smmalloc.Generic.{Libc}
use smmalloc.Sizes.{Partition}
use smmalloc.Allocator.{World, hot}
use smmalloc.CApi.{
  sm_malloc, sm_free, sm_mbucket, sm_allocator_thread_cache_create,
  sm_allocator_thread_cache_destroy,
}
use smmalloc.Suite.Gtest.{Body, Unit0, pure, ◌>>=◌, ◌>>◌, call, run, ask, expect_true}
use smmalloc.Suite.Process.{Process, with_heap}
use smmalloc.Suite.Report.{heap_report}

module _ {H : Type 0} (libc : Libc H) (part : Partition) where
  -- four blocks, and back: the half of the test that it does twice
  unfoldable pub basic_half : Body (World H) Unit0
  basic_half = do
    a ← call (λ w. sm_malloc libc part w 34 16)
    b ← call (λ w. sm_malloc libc part w 34 16)
    c ← call (λ w. sm_malloc libc part w 34 16)
    d ← call (λ w. sm_malloc libc part w 34 16)
    expect_true (not (a == b))
    expect_true (not (b == c))
    expect_true (not (c == d))
    run (λ w. sm_free libc w d)
    run (λ w. sm_free libc w c)
    run (λ w. sm_free libc w b)
    run (λ w. sm_free libc w a)

  -- The loop that takes blocks until one is not of bucket `index`: how many were, and all pointers.
  unfoldable pub take_all : ℕ → ℕ → ℕ → ℕ → ℕ → List ℕ → Body (World H) (ℕ × List ℕ)
  take_all zero index bytes alignment count ptrs s = none
  take_all (suc rounds) index bytes alignment count ptrs s =
      (do
        p ← call (λ w. sm_malloc libc part w bytes alignment)
        found ← ask (λ w. sm_mbucket libc w p)
        let rest = take_all rounds index bytes alignment (count + 1) (ptrs ++ (p ∷ []))
        let done = pure (count, ptrs ++ (p ∷ []))
        elim found [ none ↦ done | some i ↦ if i == index then rest else done ])
        s

  unfoldable pub free_all : List ℕ → Body (World H) Unit0
  free_all [] = pure tt
  free_all (p ∷ ptrs) = do run (λ w. sm_free libc w p); free_all ptrs

  abbrev pub pool_size_in_bytes : ℕ
  pool_size_in_bytes = 16777216

  abbrev pub pool_size : ℕ
  pool_size = pool_size_in_bytes / 16

  -- one pass over the bucket, with the operations counted so far
  unfoldable pub mega_pass : ℕ → Body (World H) ℕ
  unfolding take_all free_all
  mega_pass ops_count = do
    (count, ptrs) ← take_all (pool_size + 2) 0 16 16 0 []
    expect_true (sub64 pool_size count == 0)
    free_all ptrs
    pure (ops_count + (count + 1) + (count + 1))

  unfoldable pub mega_passes : ℕ → ℕ → Body (World H) ℕ
  unfolding mega_pass
  mega_passes zero ops_count = pure ops_count
  mega_passes (suc n) ops_count = do ops_count ← mega_pass ops_count; mega_passes n ops_count

  module _ (sizeof_allocator : ℕ) where
    unfoldable pub basic : Body (Process H) Unit0
    unfolding basic_half with_heap
    basic =
        with_heap libc part sizeof_allocator 5 (48 * 1024 * 1024) λ heap. do basic_half; basic_half

    unfoldable pub mega_alloc : Body (Process H) Unit0
    unfolding mega_passes with_heap heap_report
    mega_alloc = with_heap libc part sizeof_allocator 2 pool_size_in_bytes λ heap. do
      run (λ w. sm_allocator_thread_cache_create libc part w heap hot (262144 ∷ []))
      ops_count ← mega_passes 512 0
      report ← ask (λ w. heap_report part w)
      run (λ w. sm_allocator_thread_cache_destroy libc w heap)
