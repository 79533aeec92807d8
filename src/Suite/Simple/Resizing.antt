-- ===== src/Suite/Simple/Resizing.antt =====
-- ReAlloc of smmalloc_test01.cpp.
use smmalloc.Prelude.{ℕ, ◌*◌, not, leb, ◌==◌, some}
use smmalloc.Pool.{null}
use smmalloc.Generic.{Libc, get_usable_space, min_valid_alignment}
use smmalloc.Sizes.{Partition}
use smmalloc.Allocator.{World, machine}
use smmalloc.CApi.{sm_malloc, sm_free, sm_realloc, sm_msize}
use smmalloc.Suite.Gtest.{Body, Unit0, ◌>>=◌, ◌>>◌, call, run, ask, expect_true}
use smmalloc.Suite.Process.{Process, is_aligned_to, with_heap}

module _ {H : Type 0} (libc : Libc H) (part : Partition) where
  -- EXPECT_NE(p, nullptr), EXPECT_TRUE(IsAligned(p, alignment)) and EXPECT_GE(_sm_msize(heap, p), n)
  abbrev pub expect_block : ℕ → ℕ → ℕ → Body (World H) Unit0
  expect_block p alignment bytes = do
    s ← ask (λ w. sm_msize libc part w p)
    expect_true (not (p == null))
    expect_true (is_aligned_to p alignment)
    expect_true (leb bytes s)

  abbrev pub expect_null : ℕ → Body (World H) Unit0
  expect_null p = do
    s ← ask (λ w. sm_msize libc part w p)
    expect_true (p == null)
    expect_true (s == 0)

  abbrev pub expect_no_size : ℕ → Body (World H) Unit0
  expect_no_size p = do s ← ask (λ w. sm_msize libc part w p); expect_true (s == 0)

  -- a block that grows, and is freed
  unfoldable pub realloc_grows : Body (World H) Unit0
  realloc_grows = do
    p ← call (λ w. sm_malloc libc part w 17 16)
    expect_block p 16 17
    p ← call (λ w. sm_realloc libc part w p 20 16)
    expect_block p 16 20
    p ← call (λ w. sm_realloc libc part w p 50 16)
    expect_block p 16 50
    p ← call (λ w. sm_realloc libc part w p 900 16)
    expect_block p 16 900
    run (λ w. sm_free libc w p)
    expect_null null

  -- `realloc` as `malloc`, and as `free`
  unfoldable pub realloc_null : Body (World H) Unit0
  realloc_null = do
    p2 ← call (λ w. sm_realloc libc part w null 15 16)
    expect_block p2 16 15
    p2 ← call (λ w. sm_realloc libc part w p2 0 16)
    expect_null p2
    expect_true (is_aligned_to p2 16)
    run (λ w. sm_free libc w p2)
    expect_no_size p2

  -- from the generic allocator to a bucket
  unfoldable pub realloc_shrinks : Body (World H) Unit0
  realloc_shrinks = do
    p3 ← call (λ w. sm_realloc libc part w null (1024 * 1024) 1)
    expect_block p3 min_valid_alignment (1024 * 1024)
    p3 ← call (λ w. sm_realloc libc part w p3 4 8)
    expect_block p3 8 4
    p3 ← call (λ w. sm_realloc libc part w p3 0 8)
    expect_null p3
    run (λ w. sm_free libc w p3)
    expect_no_size p3

  -- within the generic allocator
  unfoldable pub realloc_large : Body (World H) Unit0
  realloc_large = do
    p4 ← call (λ w. sm_malloc libc part w (2 * 1024 * 1024) 32)
    expect_block p4 32 (2 * 1024 * 1024)
    p4 ← call (λ w. sm_realloc libc part w p4 (1024 * 1024) 16)
    expect_block p4 16 (1024 * 1024)
    p4 ← call (λ w. sm_realloc libc part w p4 (4 * 1024 * 1024) 64)
    expect_block p4 64 (4 * 1024 * 1024)
    gone ← call (λ w. sm_realloc libc part w p4 0 32)
    expect_no_size null
    s5 ← ask (λ w. some (get_usable_space libc (machine w) null))
    expect_true (s5 == 0)

  module _ (sizeof_allocator : ℕ) where
    unfoldable pub realloc_test : Body (Process H) Unit0
    unfolding realloc_grows realloc_null realloc_shrinks realloc_large with_heap
    realloc_test =
        with_heap libc part sizeof_allocator 5 (48 * 1024 * 1024)
          λ heap. do realloc_grows; realloc_null; realloc_shrinks; realloc_large
