-- ===== src/Bench/Sequence.antt =====
-- The sizes that the benchmarks ask for: `PerfTestGlobals` of smmalloc_perf01.cpp and
-- `UBenchGlobals` of smmalloc_perf02.cpp. `srand` and `rand` of the C library are a parameter.
use native.Mathlib.Nat.{mod-lt}
use smmalloc.Prelude.{
  ℕ, zero, suc, ◌+◌, ◌*◌, ◌%◌, ◌<◌, ◌≤◌, ◌≡◌, refl, ap, List, [], ◌∷◌, some, get_elem?, length,
  arith,
}
use mathlib.Core.Option.{some-injective}

pub record Rand (S : Type 0) : Type 0 where
  pub srand : ℕ → S
  pub rand : S → ℕ × S

module _ {S : Type 0} (random : Rand S) where
  -- the loop of the constructor: `count` sizes from 16 on, below `16 + span`
  unfoldable pub random_sizes : ℕ → ℕ → S → List ℕ
  random_sizes span zero s = []
  random_sizes span (suc count) s =
      let (r, s') = random.rand s in (16 + r % span) ∷ random_sizes span count s'

  unfoldable pub perf_test_sequence : List ℕ
  unfolding random_sizes
  perf_test_sequence = random_sizes 64 (1024 * 1024) (random.srand 1306)

  unfoldable pub ubench_sequence : List ℕ
  unfolding random_sizes
  ubench_sequence = random_sizes 240 10000000 (random.srand 1306)

  length-random_sizes : (span n : ℕ) (s : S) → length (random_sizes span n s) ≡ n
  unfolding random_sizes
  length-random_sizes span zero s = refl
  length-random_sizes span (suc n) s = ap suc (length-random_sizes span n (random.rand s).1)

  random_sizes-bounds :
      (span n : ℕ) (s : S) (j x : ℕ)
      → 0 < span
      → get_elem? (random_sizes span n s) j ≡ some x
      → (16 ≤ x) × (x < 16 + span)
  unfolding random_sizes
  random_sizes-bounds span zero s j x pos e = ground arith
  random_sizes-bounds span (suc n) s zero x pos e =
      let same : 16 + (random.rand s).0 % span ≡ x =
        some-injective (16 + (random.rand s).0 % span) x e in
      let low = mod-lt (random.rand s).0 pos in (omega (arith, same), omega (arith, same, low))
  random_sizes-bounds span (suc n) s (suc j) x pos e =
      random_sizes-bounds span n (random.rand s).1 j x pos e

  pub length-ubench_sequence : length ubench_sequence ≡ 10000000
  unfolding ubench_sequence
  length-ubench_sequence = length-random_sizes 240 10000000 (random.srand 1306)

  pub ubench_sequence-bounds :
      (j x : ℕ) → get_elem? ubench_sequence j ≡ some x → (16 ≤ x) × (x < 256)
  unfolding ubench_sequence
  ubench_sequence-bounds j x e =
      random_sizes-bounds 240 10000000 (random.srand 1306) j x (omega arith) e
