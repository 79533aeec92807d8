-- ===== src/Bench/WorkingSet.antt =====
-- The loop that every benchmark of smmalloc_perf02.cpp has, over any allocator: a working set of
-- pointers in which each round puts a new block and frees an old one.
pub mod Rounds
pub mod Passes
pub mod Smmalloc
pub mod Others
pub mod Ubench
use smmalloc.Prelude.{
  ℕ, zero, suc, ◌+◌, ◌%◌, List, Option, some, ◌>>=◌, u64, sub64, get_elem?, set?, length,
}
use smmalloc.Pool.{null}
use smmalloc.Bench.{for_each, zeroes}

-- what a benchmark calls; `none` is undefined behaviour
pub record BenchApi (W : Type 0) : Type 0 where
  pub malloc : W → ℕ → Option (ℕ × W)
  pub memset : W → ℕ → ℕ → ℕ → Option W
  pub free : W → ℕ → Option W

pub record Slots (W : Type 0) : Type 0 where
  pub world : W
  pub working_set : List ℕ
  pub free_index : ℕ
  pub alloc_index : ℕ

module _ {W : Type 0} (api : BenchApi W) (random_sequence : List ℕ) (ws_size : ℕ) where
  unfoldable pub replace_slot : ℕ → Slots W → Option (Slots W)
  replace_slot i s = get_elem? random_sequence i >>= λ num_bytes_to_allocate.
      api.malloc s.world num_bytes_to_allocate >>= λ (ptr, w).
      api.memset w ptr 33 num_bytes_to_allocate >>= λ w1.
      set? s.working_set (s.alloc_index % ws_size) ptr >>= λ ws.
      get_elem? ws (s.free_index % ws_size) >>= λ ptr_to_free. api.free w1 ptr_to_free >>= λ w2.
      set? ws (s.free_index % ws_size) null >>= λ ws'. some (record {
        world = w2;
        working_set = ws';
        free_index = u64 (s.free_index + 1);
        alloc_index = u64 (s.alloc_index + 1);
      })

  unfoldable pub clear_slot : ℕ → Slots W → Option (Slots W)
  clear_slot i s = get_elem? s.working_set i >>= λ ptr. api.free s.world ptr >>= λ w.
      set? s.working_set i null >>= λ ws. some (record s { world = w; working_set = ws })

  -- one round of UBENCH_DO_BENCHMARK
  unfoldable pub pass : ℕ → Slots W → Option (Slots W)
  unfolding for_each replace_slot clear_slot
  pass round s =
      for_each replace_slot (length random_sequence) 0
        (record s { free_index = 0; alloc_index = sub64 ws_size 1 })
      >>= λ s'. for_each clear_slot ws_size 0 s'

  -- UBENCH_DO_BENCHMARK, which the benchmark's library lets run `rounds` times
  unfoldable pub do_benchmark : ℕ → Slots W → Option (Slots W)
  unfolding pass
  do_benchmark rounds s = for_each pass rounds 0 s

-- `UBenchGlobals`: `memset` to zero of the working set
abbrev pub new_slots : {W : Type 0} → ℕ → W → Slots W
new_slots ws_size w = record {
  world = w;
  working_set = zeroes ws_size;
  free_index = 0;
  alloc_index = 0;
}
