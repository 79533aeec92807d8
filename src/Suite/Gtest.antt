-- ===== src/Suite/Gtest.antt =====
-- The body of a TEST: a state, a flag that a check has failed, and the early return of ASSERT_TRUE.
use smmalloc.Prelude.{ℕ, zero, suc, Bool, true, false, Option, none, some, if◌then◌else◌, ◌≡◌}

pub record Fixture (W : Type 0) : Type 0 where
  pub heap : W
  pub failed : Bool

-- `none` is undefined behaviour; `some (none, s)` is a body that a failed ASSERT_TRUE has left.
abbrev pub Body : Type 0 → Type 0 → Type 0
Body W A = Fixture W → Option (Option A × Fixture W)

abbrev pub Unit0 : Type 0
Unit0 = Unit {0}

module _ {W : Type 0} where
  abbrev pub pure : {A : Type 0} → A → Body W A
  pure a s = some (some a, s)

  infixl 5 ◌>>=◌ ◌>>◌
  abbrev pub ◌>>=◌ : {A B : Type 0} → Body W A → (A → Body W B) → Body W B
  ◌>>=◌ m f s = elim (m s) [
    | none ↦ none
    | some r ↦ elim r.0 [ none ↦ some (none, r.1) | some a ↦ f a r.1 ]
  ]

  abbrev pub ◌>>◌ : {B : Type 0} → Body W Unit0 → Body W B → Body W B
  m >> k = m >>= λ _. k

  -- a call that returns a value, one that does not, and one that only reads
  abbrev pub call : {A : Type 0} → (W → Option (A × W)) → Body W A
  call m s = elim (m s.heap) [ none ↦ none | some r ↦ some (some r.0, record s { heap = r.1 }) ]

  abbrev pub run : (W → Option W) → Body W Unit0
  run m s = elim (m s.heap) [ none ↦ none | some w ↦ some (some tt, record s { heap = w }) ]

  abbrev pub ask : {A : Type 0} → (W → Option A) → Body W A
  ask m s = elim (m s.heap) [ none ↦ none | some a ↦ some (some a, s) ]

  -- ASSERT_TRUE and EXPECT_TRUE
  abbrev pub assert_true : Bool → Body W Unit0
  assert_true b s = if b then some (some tt, s) else some (none, record s { failed = true })

  abbrev pub expect_true : Bool → Body W Unit0
  expect_true b s = some (some tt, if b then s else record s { failed = true })

  -- `for (i = from; i < from + n; i++)`
  unfoldable pub for_range : ℕ → ℕ → (ℕ → Body W Unit0) → Body W Unit0
  for_range zero i body = pure tt
  for_range (suc n) i body = body i >>= λ _. for_range n (suc i) body

  -- The body was run to its end, and no check has failed.
  abbrev pub Passes : Body W Unit0 → W → W → Type 0
  Passes body w w' =
      body (record { heap = w; failed = false })
      ≡ some (some tt, record { heap = w'; failed = false })
