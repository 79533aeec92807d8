-- ===== src/Suite/Triples.antt =====
-- Bodies that run to their end with no failed check, put together.
use smmalloc.Prelude.{
  ℕ, zero, suc, ◌+◌, ◌%◌, ◌^◌, ◌<◌, ◌≤◌, ◌≡◌, refl, subst, Bool, true, false, Option, some, arith,
  eq→==, bit_and_low,
}
use smmalloc.Align.{pow_mask}
use smmalloc.Suite.Gtest.{Body, Unit0, ◌>>=◌, call, run, ask, assert_true, expect_true, for_range}
use smmalloc.Suite.Process.{is_aligned_to}

abbrev pub Returns : {W A : Type 0} → Body W A → W → A → W → Type 0
Returns body w a w' =
    body (record { heap = w; failed = false }) ≡ some (some a, record { heap = w'; failed = false })

module _ {W A : Type 0} where
  pub Returns-bind :
      {B : Type 0} (m : Body W A) (f : A → Body W B) (w w' w'' : W) (a : A) (b : B)
      → Returns m w a w'
      → Returns (f a) w' b w''
      → Returns (m >>= f) w b w''
  Returns-bind m f w w' w'' a b first second = rw (◌>>=◌, first) second

  pub Returns-call :
      (m : W → Option (A × W)) (w w' : W) (a : A) → m w ≡ some (a, w') → Returns (call m) w a w'
  Returns-call m w w' a e = rw (call, e) refl

  pub Returns-ask : (m : W → Option A) (w : W) (a : A) → m w ≡ some a → Returns (ask m) w a w
  Returns-ask m w a e = rw (ask, e) refl

module _ {W : Type 0} where
  pub Returns-run : (m : W → Option W) (w w' : W) → m w ≡ some w' → Returns (run m) w tt w'
  Returns-run m w w' e = rw (run, e) refl

  pub Returns-assert : (b : Bool) (w : W) → b ≡ true → Returns (assert_true b) w tt w
  Returns-assert b w e = rw e refl

  pub Returns-expect : (b : Bool) (w : W) → b ≡ true → Returns (expect_true b) w tt w
  Returns-expect b w e = rw e refl

  -- A loop whose rounds keep `P`, which says how far it is.
  pub for_range-Returns :
      (body : ℕ → Body W Unit0) (P : ℕ → W → Type 0) (m : ℕ)
      (step : (i : ℕ) (w : W) → i < m → P i w → (v : W) × Returns (body i) w tt v × P (suc i) v)
      (n i : ℕ) (w : W)
      → i + n ≡ m
      → P i w
      → (v : W) × Returns (for_range n i body) w tt v × P m v
  unfolding for_range
  for_range-Returns body P m step zero i w e p =
      let same : i ≡ m = omega (arith, e) in (w, refl, subst (λ z. P z w) same p)
  for_range-Returns body P m step (suc n) i w e p =
      let (v, first, q) = step i w (omega (arith, e)) p in
      let (u, rest, done) = for_range-Returns body P m step n (suc i) v (omega (arith, e)) q in
      (u, Returns-bind (body i) (λ _. for_range n (suc i) body) w v u tt tt first rest, done)

pub is_aligned_to-true : (k p : ℕ) → k ≤ 63 → p % 2 ^ k ≡ 0 → is_aligned_to p (2 ^ k) ≡ true
unfolding is_aligned_to
is_aligned_to-true k p small e = rw (pow_mask k small, bit_and_low k p) (eq→== (p % 2 ^ k) 0 e)
