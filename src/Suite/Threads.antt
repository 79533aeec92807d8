-- ===== src/Suite/Threads.antt =====
-- The tests of smmalloc_test02.cpp, as far as one thread runs them: the thread functions, and what
-- StressTest does when its threads have ended. `rand` is a parameter, and the pause of the thread
-- function is left out.
use smmalloc.Prelude.{ℕ, zero, suc, ◌+◌, ◌*◌, ◌%◌, List, [], ◌∷◌, some, ◌==◌, u8, u64}
use smmalloc.Generic.{Libc}
use smmalloc.Sizes.{Partition}
use smmalloc.Allocator.{World, get_buckets_count, get_bucket_elements_count, warm}
use smmalloc.CApi.{
  sm_malloc, sm_free, sm_allocator_thread_cache_create, sm_allocator_thread_cache_destroy,
}
use smmalloc.Bench.Sequence.{Rand}
use smmalloc.Bench.WorkingSet.Smmalloc.{fill}
use smmalloc.Suite.Gtest.{Body, Unit0, pure, ◌>>=◌, ◌>>◌, call, run, ask, expect_true, for_range}
use smmalloc.Suite.Simple.Blocks.{take_all, free_all}

-- one entry of `workingSet` and `pattern`
pub record Slot : Type 0 where
  pub p : ℕ
  pub bytes_count : ℕ
  pub pattern : ℕ

module _ {H : Type 0} (libc : Libc H) (part : Partition) where
  -- one bucket of StressTest: all its elements are there
  unfoldable pub stress_bucket : ℕ → Body (World H) Unit0
  unfolding take_all free_all
  stress_bucket i = do
    max_count ← ask (λ w. get_bucket_elements_count part w i)
    (avail_count, ptrs) ← take_all libc part (max_count + 2) i (part.size_by_index i) 1 0 []
    expect_true (avail_count == max_count)
    free_all libc part ptrs

  unfoldable pub stress_check : Body (World H) Unit0
  unfolding stress_bucket for_range
  stress_check = do
    buckets_count ← ask (λ w. some (get_buckets_count w))
    for_range buckets_count 0 stress_bucket

  module _ {S : Type 0} (random : Rand S) where
    -- `ThreadFunc`: the first loop of a pass
    unfoldable pub fill_slots : ℕ → S → Body (World H) (S × List Slot)
    fill_slots zero s = pure (s, [])
    fill_slots (suc n) s = do
      let (r, s') = random.rand s
      let bytes_count = r % 256
      let pattern = u8 (bytes_count % 256)
      p ← call (λ w. sm_malloc libc part w bytes_count 16)
      run (λ w. fill w p pattern bytes_count)
      (s'', slots) ← fill_slots n s'
      pure (s'', record { p = p; bytes_count = bytes_count; pattern = pattern } ∷ slots)

    abbrev pub check_byte : Slot → ℕ → Body (World H) Unit0
    check_byte slot j = do b ← ask (λ w. some (w.mem (slot.p + j))); expect_true (b == slot.pattern)

    -- the second loop
    unfoldable pub check_slots : List Slot → Body (World H) Unit0
    unfolding for_range
    check_slots [] = pure tt
    check_slots (slot ∷ slots) = do
      for_range slot.bytes_count 0 (check_byte slot)
      run (λ w. fill w slot.p 0 slot.bytes_count)
      run (λ w. sm_free libc w slot.p)
      check_slots slots

    unfoldable pub thread_func_passes : ℕ → S → Body (World H) S
    unfolding fill_slots check_slots
    thread_func_passes zero s = pure s
    thread_func_passes (suc n) s = do
      (s', slots) ← fill_slots 1024 s
      check_slots slots
      thread_func_passes n s'

    abbrev pub fifteen : ℕ → List ℕ
    fifteen n = n ∷ n ∷ n ∷ n ∷ n ∷ n ∷ n ∷ n ∷ n ∷ n ∷ n ∷ n ∷ n ∷ n ∷ n ∷ []

    unfoldable pub thread_func : ℕ → S → Body (World H) Unit0
    unfolding thread_func_passes
    thread_func heap s = do
      run (λ w. sm_allocator_thread_cache_create libc part w heap warm (fifteen 64))
      s' ← thread_func_passes (1024 * 4) s
      run (λ w. sm_allocator_thread_cache_destroy libc w heap)

    -- `ThreadFunc2`
    unfoldable pub fill_set : ℕ → S → Body (World H) (S × List ℕ)
    fill_set zero s = pure (s, [])
    fill_set (suc n) s = do
      let (r, s') = random.rand s
      p ← call (λ w. sm_malloc libc part w (r % 256) 16)
      (s'', ptrs) ← fill_set n s'
      pure (s'', p ∷ ptrs)

    unfoldable pub thread_func2_passes : ℕ → ℕ → S → Body (World H) ℕ
    unfolding fill_set free_all
    thread_func2_passes zero op_count s = pure op_count
    thread_func2_passes (suc n) op_count s = do
      (s', ptrs) ← fill_set 1024 s
      free_all libc part ptrs
      thread_func2_passes n (u64 (op_count + 1024 + 1024)) s'

    abbrev pub ten_caches : ℕ → List ℕ
    ten_caches n = n ∷ n ∷ n ∷ n ∷ n ∷ n ∷ n ∷ n ∷ n ∷ n ∷ []

    -- what the thread adds to `operationsCount`
    unfoldable pub thread_func2 : ℕ → S → Body (World H) ℕ
    unfolding thread_func2_passes
    thread_func2 heap s = do
      run (λ w. sm_allocator_thread_cache_create libc part w heap warm (ten_caches 2048))
      op_count ← thread_func2_passes (1024 * 100) 0 s
      run (λ w. sm_allocator_thread_cache_destroy libc w heap)
      pure op_count
