-- ===== src/Safety/Next.antt =====
-- The search for the next bucket whose elements have the alignment ends.
use native.Mathlib.Decide.{ℕ_discrete}
use smmalloc.Prelude.{
  sym, subst, ◌∙◌, false, ℕ, zero, suc, ◌+◌, ◌%◌, ◌^◌, ◌≤◌, ◌<◌, ◌≡◌, ◌≢◌, refl, some, Option,
  arith, ◌==◌, u64, Bool-cases, inl, inr, ==→eq, ==→ne, of_below,
}
use smmalloc.Align.{is_aligned_iff}
use smmalloc.Sizes.{Partition, max_bucket_count}
use smmalloc.Allocator.{next_bucket, next_bucket_rounds}

abbrev Divides : ℕ → Type 0
Divides k = (x : ℕ) → x % 4096 ≡ 0 → x % 2 ^ k ≡ 0

-- A multiple of 4096 is one of every smaller power of two.
pub page_aligned : (k x : ℕ) → k ≤ 12 → x % 4096 ≡ 0 → x % 2 ^ k ≡ 0
page_aligned k x small e =
    of_below Divides 13
      (
        (
          (
            (
              (
                (
                  (
                    (
                      (
                        (
                          (((tt, λ x e. omega arith), λ x e. omega arith), λ x e. omega arith),
                          λ x e. omega arith,
                        ),
                        λ x e. omega arith,
                      ),
                      λ x e. omega arith,
                    ),
                    λ x e. omega arith,
                  ),
                  λ x e. omega arith,
                ),
                λ x e. omega arith,
              ),
              λ x e. omega arith,
            ),
            λ x e. omega arith,
          ),
          λ x e. omega arith,
        ),
        λ x e. omega arith,
      )
      k (omega arith) x e

-- What the search finds behind bucket `i`.
pub record Next (part : Partition) (i k : ℕ) (out : Option ℕ) : Type 0 where
  pub index : ℕ
  pub returns : out ≡ some index
  pub behind : i < index
  pub near : index ≤ part.stop
  pub aligned : part.size_by_index index % 2 ^ k ≡ 0
  pub nearest : (j : ℕ) → i < j → j < index → part.size_by_index j % 2 ^ k ≢ 0

module _ (part : Partition) (k : ℕ) (small : k ≤ 12) where
  stop_fits : part.size_by_index part.stop % 2 ^ k ≡ 0
  stop_fits = page_aligned k (part.size_by_index part.stop) small part.stop_aligned

  step_miss :
      (rounds i : ℕ)
      → i < part.stop
      → (part.size_by_index (suc i) % 2 ^ k == 0) ≡ false
      → next_bucket part (suc rounds) i (2 ^ k) ≡ next_bucket part rounds (suc i) (2 ^ k)
  unfolding next_bucket
  step_miss rounds i below other =
      let up : u64 (i + 1) ≡ suc i = omega (arith, part.stop_bounds) in
      rw (up, is_aligned_iff k (part.size_by_index (suc i)) (omega arith), other) refl

  found-Next :
      (rounds i : ℕ)
      → i < part.stop
      → part.stop ≤ i + rounds
      → Next part i k (next_bucket part rounds i (2 ^ k))
  unfolding next_bucket
  found-Next zero i below enough = absurd (omega arith)
  found-Next (suc rounds) i below enough =
      let up : u64 (i + 1) ≡ suc i = omega (arith, part.stop_bounds) in
      let test = is_aligned_iff k (part.size_by_index (suc i)) (omega arith) in
      elim (Bool-cases (part.size_by_index (suc i) % 2 ^ k == 0)) [
        | inl fits ↦ record {
          index = suc i;
          returns = rw (up, test, fits) refl;
          behind = omega arith;
          near = below;
          aligned = ==→eq _ 0 fits;
          nearest = λ j lo hi. absurd (omega arith);
        }
        | inr other ↦
            let miss : part.size_by_index (suc i) % 2 ^ k ≢ 0 = ==→ne _ 0 other in
            let not_stop : suc i ≢ part.stop =
              λ e. miss (subst (λ z. part.size_by_index z % 2 ^ k ≡ 0) (sym e) stop_fits) in
            let rest = found-Next rounds (suc i) (omega arith) (omega arith) in
            record {
              index = rest.index;
              returns = step_miss rounds i below other ∙ rest.returns;
              behind = omega (arith, rest.behind);
              near = rest.near;
              aligned = rest.aligned;
              nearest = λ j lo hi. elim (ℕ_discrete (suc i) j) [
                | yes e ↦ subst (λ z. part.size_by_index z % 2 ^ k ≢ 0) e miss
                | no ne ↦ rest.nearest j (omega arith) hi
              ];
            }
      ]

  -- The search for the next bucket with an alignment, a power of two up to 4096, does not run out
  -- of rounds from any of the 62 buckets: it ends at the nearest later bucket whose elements are
  -- of a multiple of the alignment.
  pub next_bucket-Next :
      (i : ℕ) → i < max_bucket_count → Next part i k (next_bucket part next_bucket_rounds i (2 ^ k))
  next_bucket-Next i h =
      found-Next next_bucket_rounds i (omega (arith, part.stop_bounds))
        (omega (arith, part.stop_bounds))
