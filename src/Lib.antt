-- ===== src/Lib.antt =====
-- smmalloc: a model of the allocator in SmMalloc/ and the theorems about it.
--
-- The program. An allocator (`sm::Allocator`) owns one buffer, cut into at most 62 buckets of the
-- same number of bytes. The blocks of a bucket have one size, given by a partitioning scheme. Free
-- blocks are in a list that is threaded through the blocks by tagged 32-bit offsets (`PoolBucket`),
-- popped and pushed by compare-exchange. In front of each bucket a thread may have a cache of two
-- stacks of offsets, L0 in place and L1 in an array (`TlsPoolBucket`). A request that no bucket
-- serves goes to the generic allocator, which puts a header in front of a block of `malloc`.
--
-- Which file models what:
-- - Prelude: Boolean tests, lists, 8, 32 and 64-bit words, and `Option`, where `none` stands for
--   undefined behaviour (an access outside an array, a division by zero, a write through null) and
--   for a loop that has used up its rounds.
-- - Align: `IsAligned`, `Align`, `Min` of SmMalloc/smmalloc.h.
-- - Sizes: `GetBucketIndexBySize` and `GetBucketSizeInBytesByIndex` of SmMalloc/smmalloc.h, for the
--   piecewise linear scheme (Sizes/Piecewise), the linear one (Sizes/Linear) and the small-float one
--   (Sizes/Float, with `SmallFloat::uintToFloatRoundUp` and `floatToUint`); `Partition` of
--   Sizes/Defs is the interface that the allocator takes, and Sizes/Tables has the tables that the
--   comments give.
-- - Memory: memory as bytes by address, little-endian words, `memmove`.
-- - Pool: `PoolBucket::Alloc`, `FreeInterval` (SmMalloc/smmalloc.h) and `Create`
--   (SmMalloc/smmalloc.cpp). Pool/Chain says which list a head word stands for, Pool/Blocks which
--   blocks a bucket has.
-- - Cache: `AllocFromCache`, `ReleaseToCache`, `ReturnL1CacheToMaster` (SmMalloc/smmalloc.h) and
--   `TlsPoolBucket::Destroy` (SmMalloc/smmalloc.cpp). Cache/Inventory says where the blocks of a
--   bucket are.
-- - Generic: `GenericAllocator` of SmMalloc/smmalloc_generic.cpp. `malloc` and `free` of the C
--   library are a parameter, `Libc`, on a heap of any type.
-- - Allocator: `Allocate`, `Free`, `Realloc` and the queries (SmMalloc/smmalloc.h), `Init`,
--   `CreateThreadCache` and `DestroyThreadCache` (SmMalloc/smmalloc.cpp). The state `World` is the
--   allocator, its thread's `tlsCacheBuckets` (SmMalloc/smmalloc_tls.cpp), memory and the heap.
-- - Safety: the invariant `IsSound` of a set-up allocator (each block of each bucket is free, cached
--   or lent, exactly once), and the operations over it.
-- - CApi: the C interface at the end of SmMalloc/smmalloc.h (`_sm_allocator_create` and so on), the
--   `Deleter` of the buffer, and `GetTlsBucket` (SmMalloc/smmalloc_tls.cpp).
-- - Client: a program that uses an allocator, as a step relation: it allocates, frees or resizes a
--   block that it holds, and writes into the bytes that it holds. What it may ask for is a request
--   (`IsRequest`): one byte or more, at an alignment up to 4096 that is a power of two, at sizes that
--   neither the scheme nor the added header overflows. Client/Resizes has `Realloc`,
--   Client/Statistics the counters, over calls with any arguments, and Client/Members the bucket of a
--   held block. Client/Heap is what the C library's heap promises, Client/Ghost says where each held
--   block stands, Client/Invariant what holds in every state that the program reaches, Client/Start
--   that it holds after `Init`.
-- - Bench: the benchmarks, over interfaces that any allocator can fill. The thread function of
--   smmalloc_test_impl.inl and smmalloc_perf01.cpp (`HeapApi`, `HeapSpec`) has smmalloc without thread
--   caches as one (Bench/Smmalloc); the loop of smmalloc_perf02.cpp (`BenchApi` and `BenchSpec`, in
--   Bench/WorkingSet) has smmalloc in Bench/WorkingSet/Smmalloc, and Bench/WorkingSet/Others has the
--   benchmarks as a whole. Bench/Sequence has the random sizes, over a `rand` that is a parameter,
--   and Bench/Foreign what is called of the other allocators.
-- - Suite: the tests of smmalloc_test01.cpp. Suite/Gtest is the monad of a test's body, with a flag
--   for a failed check and the early return of ASSERT_TRUE; Suite/Simple has the tests, Suite/Threads
--   the thread functions of smmalloc_test02.cpp and what StressTest does after its threads,
--   Suite/Report the statistics that tests and benchmarks print; Suite/Created says what a test
--   starts with, and Suite/Passing that tests pass.
-- - Tests: runs at concrete inputs.
--
-- Bounds and fuel. Pointers and `size_t` have 64 bits. One thread runs, so that a compare-exchange
-- succeeds at once and the loops of `Alloc` and `FreeInterval` need one round. The loop of `Create`
-- has a round more than the bucket has bytes, the search for the next bucket 256 rounds (every scheme
-- has elements of a multiple of 4096 bytes before that), the loop over the buckets five, one more
-- than the buckets that it may look at, and the loops of `MegaAlloc` and `StressTest` that take
-- blocks two more than the bucket has.
--
-- Not modelled: several threads at once (of the tests of smmalloc_test02.cpp, the thread functions
-- run in one thread); `GetNextPow2` (which nothing calls); debug assertions (they are hypotheses
-- where a theorem needs them); the vendored allocators, whose functions are parameters; the clock,
-- the pauses and the wait for the start, of the benchmarks and tests. The percentages that the
-- statistics print are pairs of a numerator and a denominator.
pub mod Prelude
pub mod Align
pub mod Sizes
pub mod Memory
pub mod Pool
pub mod Cache
pub mod Generic
pub mod Allocator
pub mod CApi
pub mod Safety
pub mod Client
pub mod Bench
pub mod Suite
pub mod Tests
