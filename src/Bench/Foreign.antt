-- ===== src/Bench/Foreign.antt =====
-- The allocators that the benchmarks compare with, which are not part of this repository's own
-- code: what the benchmarks call of each.
use smmalloc.Prelude.{ℕ, Option}

-- malloc, free and memset of the C library
pub record Crt (W : Type 0) : Type 0 where
  pub malloc : W → ℕ → Option (ℕ × W)
  pub free : W → ℕ → Option W
  pub memset : W → ℕ → ℕ → ℕ → Option W

pub record Dlmalloc (W : Type 0) : Type 0 where
  pub dlmemalign : W → ℕ → ℕ → Option (ℕ × W)
  pub dlfree : W → ℕ → Option W

pub record Hoard (W : Type 0) : Type 0 where
  pub hoard_initialize : W → Option W
  pub hoard_finalize : W → Option W
  pub hoard_thread_initialize : W → Option W
  pub hoard_thread_finalize : W → Option W
  pub xxmalloc : W → ℕ → Option (ℕ × W)
  pub xxfree : W → ℕ → Option W

pub record Mimalloc (W : Type 0) : Type 0 where
  pub mi_malloc : W → ℕ → Option (ℕ × W)
  pub mi_malloc_aligned : W → ℕ → ℕ → Option (ℕ × W)
  pub mi_free : W → ℕ → Option W

pub record Ltalloc (W : Type 0) : Type 0 where
  pub ltmemalign : W → ℕ → ℕ → Option (ℕ × W)
  pub ltfree : W → ℕ → Option W

pub record Rpmalloc (W : Type 0) : Type 0 where
  pub rpmalloc_thread_initialize : W → Option W
  pub rpmalloc_thread_finalize : W → Option W
  pub rpmemalign : W → ℕ → ℕ → Option (ℕ × W)
  pub rpfree : W → ℕ → Option W
