-- ===== src/Bench/WorkingSet/Others.antt =====
-- The benchmarks of smmalloc_perf02.cpp as a whole: the loop on each allocator.
use smmalloc.Prelude.{ℕ, ◌*◌, List, [], ◌∷◌, Option, some, ◌>>=◌}
use smmalloc.Generic.{Libc}
use smmalloc.Sizes.{Partition}
use smmalloc.Allocator.{cold}
use smmalloc.CApi.{
  sm_allocator_create, sm_allocator_destroy, sm_allocator_thread_cache_create,
  sm_allocator_thread_cache_destroy,
}
use smmalloc.Suite.Process.{Process}
use smmalloc.Suite.Report.{HeapReport, heap_report}
use smmalloc.Bench.Sequence.{Rand, ubench_sequence}
use smmalloc.Bench.Foreign.{Crt, Dlmalloc, Hoard, Mimalloc}
use smmalloc.Bench.WorkingSet.{Slots, do_benchmark}
use smmalloc.Bench.WorkingSet.Smmalloc.{sm_api}

-- `UBenchGlobals::kWorkingsetSize`
abbrev pub workingset_size : ℕ
workingset_size = 10000

module _ {S : Type 0} (random : Rand S) (rounds : ℕ) where
  module _ {W : Type 0} (crt : Crt W) (s : Slots W) where
    unfoldable pub crt_10m : Option (Slots W)
    unfolding do_benchmark ubench_sequence
    crt_10m =
        do_benchmark (record { malloc = crt.malloc; memset = crt.memset; free = crt.free })
          (ubench_sequence random) workingset_size rounds s

    unfoldable pub dlmalloc_10m : Dlmalloc W → Option (Slots W)
    unfolding do_benchmark ubench_sequence
    dlmalloc_10m dl =
        do_benchmark
          (record {
            malloc = λ w bytes. dl.dlmemalign w 16 bytes;
            memset = crt.memset;
            free = dl.dlfree;
          })
          (ubench_sequence random) workingset_size rounds s

    unfoldable pub hoard_malloc_10m : Hoard W → Option (Slots W)
    unfolding do_benchmark ubench_sequence
    hoard_malloc_10m hoard = hoard.hoard_initialize s.world >>= λ w.
        do_benchmark (record { malloc = hoard.xxmalloc; memset = crt.memset; free = hoard.xxfree })
          (ubench_sequence random) workingset_size rounds (record s { world = w })
        >>= λ t. hoard.hoard_finalize t.world >>= λ w'. some (record t { world = w' })

    unfoldable pub mi_malloc_10m : Mimalloc W → Option (Slots W)
    unfolding do_benchmark ubench_sequence
    mi_malloc_10m mi =
        do_benchmark (record { malloc = mi.mi_malloc; memset = crt.memset; free = mi.mi_free })
          (ubench_sequence random) workingset_size rounds s

  abbrev pub cache_512 : List ℕ
  cache_512 =
      512 ∷ 512 ∷ 512 ∷ 512 ∷ 512 ∷ 512 ∷ 512 ∷ 512 ∷ 512 ∷ 512 ∷ 512 ∷ 512 ∷ 512 ∷ 512 ∷ 512 ∷ 512
      ∷ 512 ∷ 512 ∷ []

  module _ {H : Type 0} (libc : Libc H) (part : Partition) (sizeof_allocator : ℕ) where
    -- `smmalloc_10m` on a working set: what is printed, the working set and the state after it
    unfoldable pub smmalloc_10m : List ℕ → Process H → Option (HeapReport × List ℕ × Process H)
    unfolding do_benchmark heap_report ubench_sequence
    smmalloc_10m ws s =
        sm_allocator_create libc part sizeof_allocator s.state s.tls 18 (48 * 1024 * 1024)
        >>= λ (space, w).
            sm_allocator_thread_cache_create libc part w space cold cache_512 >>= λ w1.
            do_benchmark (sm_api libc part) (ubench_sequence random) workingset_size rounds
              (record { world = w1; working_set = ws; free_index = 0; alloc_index = 0 })
            >>= λ t. heap_report part t.world >>= λ report.
                sm_allocator_thread_cache_destroy libc t.world space >>= λ w2. some (
                  report,
                  t.working_set,
                  record { state = sm_allocator_destroy libc w2 space; tls = w2.tls },
                )
