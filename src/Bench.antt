-- ===== src/Bench.antt =====
-- The workload of smmalloc_test_impl.inl that the benchmark of smmalloc_perf01.cpp runs in each
-- thread, over any allocator that the macros MALLOC, FREE, ON_THREAD_START and ON_THREAD_FINISHED
-- stand for. The wait for the start and the clock are left out.
pub mod Counts
pub mod Loops
pub mod Thread
pub mod Smmalloc
pub mod WorkingSet
pub mod Sequence
pub mod Foreign
use smmalloc.Prelude.{
  ℕ, zero, suc, ◌+◌, ◌%◌, List, [], ◌∷◌, Option, none, some, ◌>>=◌, u8, u32, u64, get_elem?, set?,
  length,
}
use smmalloc.Pool.{null}

-- PerfTestGlobals::kAllocationsCount, and `iterationsCount`
abbrev pub allocations_count : ℕ
allocations_count = 100000

abbrev pub iterations_count : ℕ
iterations_count = 300

-- the macros of one allocator; `none` is undefined behaviour
pub record HeapApi (W : Type 0) : Type 0 where
  pub malloc : W → ℕ → ℕ → Option (ℕ × W)
  pub free : W → ℕ → Option W
  pub on_thread_start : W → Option W
  pub on_thread_finished : W → Option W

-- the local variables of the thread
pub record Worker (W : Type 0) : Type 0 where
  pub world : W
  pub ptrs_storage : List ℕ
  pub op_count : ℕ
  pub idx : ℕ
  pub pattern : ℕ

abbrev pub zeroes : ℕ → List ℕ
zeroes zero = []
zeroes (suc n) = null ∷ zeroes n

-- `for (i = 0; i < n; i++)`, with `n` rounds to go
unfoldable pub for_each {ℓ} : {S : Type ℓ} → (ℕ → S → Option S) → ℕ → ℕ → S → Option S
for_each body zero i s = some s
for_each body (suc n) i s = body i s >>= λ s'. for_each body n (suc i) s'

module _ {W : Type 0} (api : HeapApi W) (random_sizes : List ℕ) where
  unfoldable pub allocate_at : ℕ → Worker W → Option (Worker W)
  allocate_at i s = get_elem? random_sizes (s.idx % length random_sizes) >>= λ bytes_count.
      api.malloc s.world bytes_count 16 >>= λ (p, w). set? s.ptrs_storage i p >>= λ ptrs.
      some (record {
        world = w;
        ptrs_storage = ptrs;
        op_count = u64 (s.op_count + 1);
        idx = u32 (s.idx + 1);
        pattern = u8 (s.pattern + 1);
      })

  unfoldable pub free_at : ℕ → Worker W → Option (Worker W)
  free_at i s = get_elem? s.ptrs_storage i >>= λ p.
      api.free s.world p >>= λ w. some (record s { world = w; op_count = u64 (s.op_count + 1) })

  unfoldable pub replace_at : ℕ → Worker W → Option (Worker W)
  unfolding allocate_at free_at
  replace_at i s = free_at i s >>= λ s'. allocate_at i s'

  unfoldable pub replace_all : ℕ → ℕ → Worker W → Option (Worker W)
  unfolding for_each replace_at
  replace_all n iteration s = for_each replace_at n 0 s

  -- `TEST_THREADENTRY`, for `n` allocations and `iterations` rounds: `opCount`, and the world
  unfoldable pub thread_entry : ℕ → ℕ → W → Option (ℕ × W)
  unfolding for_each allocate_at free_at replace_all
  thread_entry n iterations w = api.on_thread_start w >>= λ w1.
      for_each allocate_at n 0
        (record { world = w1; ptrs_storage = zeroes n; op_count = 0; idx = 0; pattern = 0 })
      >>= λ filled. for_each (replace_all n) iterations 0 filled >>= λ used.
          for_each free_at n 0 used >>= λ done.
          api.on_thread_finished done.world >>= λ w2. some (done.op_count, w2)
