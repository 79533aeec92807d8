-- ===== src/Sizes/Float/Laws.antt =====
-- The sizes that the small-float scheme rounds to, and that they rise.
use native.Mathlib.Nat.{mul-le-mul, pow-suc, mul-le-mul_right}
use native.Mathlib.Decide.{dec_lt}
use smmalloc.Prelude.{
  ℕ, zero, suc, ◌+◌, ◌-◌, ◌*◌, ◌/◌, ◌%◌, ◌^◌, ◌≤◌, ◌<◌, ◌≡◌, refl, ◌∙◌, ap, sym, subst, arith, ◌==◌,
  two_pow_pos, two_pow_mono, pow_add, Bool-cases, inl, inr, ==→eq, ==→ne, ◌⊎◌,
}
use smmalloc.Sizes.Float.{uint_to_float_round_up, float_to_uint}
use smmalloc.Sizes.Float.Rounding.{Rounding, float_to_uint_lem}

-- the sizes up to the largest that the scheme can round up within 32 bits
abbrev pub limit : ℕ
limit = 7 * 2 ^ 29 + 1

-- Eight units are too many at the highest exponent.
room : (s : ℕ) → 4 * 2 ^ suc s ≤ 7 * 2 ^ 29 → suc s ≤ 29
room s fits = elim (dec_lt s 29) [
  | yes less ↦ less
  | no more ↦ absurd (omega (arith, fits, pow-suc 2 s, two_pow_mono 29 s (omega (arith, more))))
]

-- `w` units of `2 ^ s`, where `w` may have reached the next power of two
pub value :
    (s w : ℕ)
    → 4 ≤ w
    → w ≤ 8
    → s ≤ 29
    → w * 2 ^ s ≤ 7 * 2 ^ 29
    → float_to_uint (4 * s + w) ≡ w * 2 ^ s
value s w low high few fits = elim (dec_lt w 8) [
  | yes less ↦
      let f : 4 * s + w ≡ 4 * suc s + (w - 4) = omega arith in
      let c : 4 + (w - 4) ≡ w = omega arith in
      ap float_to_uint f
      ∙ float_to_uint_lem s (w - 4) (omega arith) (rw c (omega (arith, fits))) few
      ∙ rw c refl
  | no full ↦
      let eight : w ≡ 8 = omega (arith, full, high) in
      let f : 4 * s + w ≡ 4 * suc (suc s) + 0 = omega arith in
      let next : 4 * 2 ^ suc s ≡ w * 2 ^ s = rw eight (omega (arith, pow-suc 2 s)) in
      ap float_to_uint f
      ∙ float_to_uint_lem (suc s) 0 (omega arith) (omega (arith, next, fits))
          (room s (omega (arith, next, fits)))
      ∙ next
]

not-lt_le : (a b : ℕ) → ¬ (a < b) → b ≤ a
not-lt_le a b h = omega arith

module _ (n : ℕ) (fits : n < limit) (rn : Rounding n) where
  abbrev pub units : ℕ
  units = rn.c + rn.carry

  unfoldable pub unit : ℕ
  unit = 2 ^ rn.s

  most : ℕ
  most = 7 * 2 ^ (29 - rn.s)

  most_units : most * unit ≡ 7 * 2 ^ 29
  unfolding most unit
  most_units =
      let e : 29 - rn.s + rn.s ≡ 29 = omega (arith, rn.s_small) in
      let split : 2 ^ 29 ≡ 2 ^ (29 - rn.s) * 2 ^ rn.s =
        ap (λ (t : ℕ). 2 ^ t) (sym e) ∙ pow_add (29 - rn.s) rn.s in
      grind (arith, split)

  pub cases : ((rn.r ≡ 0) × (rn.carry ≡ 0)) ⊎ ((0 < rn.r) × (rn.carry ≡ 1))
  cases = elim (Bool-cases (rn.r == 0)) [
    | inl none ↦ inl (==→eq _ _ none, rn.exact ∙ rw none refl)
    | inr some ↦ inr (omega (arith, ==→ne _ _ some), rn.exact ∙ rw some refl)
  ]

  pub whole : units * unit ≡ rn.c * unit + rn.carry * unit
  whole = grind arith

  below : rn.c * unit < 7 * 2 ^ 29 → rn.c < most
  below h = elim (dec_lt rn.c most) [
    | yes less ↦ less
    | no more ↦
        absurd (omega (arith, h, most_units, mul-le-mul_right unit (not-lt_le rn.c most more)))
  ]

  -- Rounding reaches the size, and goes less than a unit beyond it.
  pub bounds : (n ≤ units * unit) × (units * unit ≤ 7 * 2 ^ 29)
  unfolding unit
  bounds = elim cases [
    | inl (none, flat) ↦
        let carried : rn.carry * unit ≡ 0 = rw flat (omega arith) in
        omega (arith, whole, carried, rn.split, none, fits)
    | inr (some, one) ↦
        let carried : rn.carry * unit ≡ unit = rw one (omega arith) in
        let less = below (omega (arith, rn.split, some, fits)) in
        (
          omega (arith, whole, carried, rn.split, rn.r_small),
          omega (arith, whole, carried, mul-le-mul_right unit less, most_units),
        )
  ]

  pub carry_small : rn.carry ≤ 1
  carry_small = elim cases [
    | inl (none, flat) ↦ omega (arith, flat)
    | inr (some, one) ↦ omega (arith, one)
  ]

  pub rounded : float_to_uint (uint_to_float_round_up n) ≡ units * unit
  unfolding unit
  rounded =
      ap float_to_uint (rn.rounds ∙ omega arith)
      ∙ value rn.s units (omega (arith, rn.c_low)) (omega (arith, rn.c_high, carry_small))
          rn.s_small bounds.1

-- One step up in floating-point terms is one step up in size.
step : (f : ℕ) → 4 ≤ f → f < 123 → float_to_uint f < float_to_uint (suc f)
step f low high =
    let s = f / 4 - 1 in
    let w = 4 + f % 4 in
    let here : f ≡ 4 * s + w = omega arith in
    let next : suc f ≡ 4 * s + suc w = omega arith in
    let more : suc w * 2 ^ s ≡ w * 2 ^ s + 2 ^ s = grind arith in
    let fits : suc w * 2 ^ s ≤ 7 * 2 ^ 29 =
      step_fits s (suc w) (omega arith) (omega arith) (omega arith) in
    rw
      (
        ap float_to_uint here,
        ap float_to_uint next,
        value s w (omega arith) (omega arith) (omega arith) (omega (arith, fits, more)),
        value s (suc w) (omega arith) (omega arith) (omega arith) fits,
      )
      (omega (arith, more, two_pow_pos s))
  where
    step_fits : (s w : ℕ) → 4 ≤ w → w ≤ 8 → 4 * s + w ≤ 123 → w * 2 ^ s ≤ 7 * 2 ^ 29
    step_fits s w low small few = elim (dec_lt s 29) [
      | yes less ↦
          let up : w * 2 ^ s ≤ 8 * 2 ^ 28 =
            mul-le-mul small (two_pow_mono s 28 (omega (arith, less))) in
          omega (arith, up)
      | no more ↦
          let seven : w ≤ 7 = omega (arith, more, few) in
          let up : w * 2 ^ s ≤ 7 * 2 ^ 29 =
            mul-le-mul seven (two_pow_mono s 29 (omega (arith, few))) in
          up
    ]

pub climb : (d f : ℕ) → 4 ≤ f → f + d ≤ 123 → float_to_uint f ≤ float_to_uint (f + d)
climb zero f low high = let e : f + 0 ≡ f = omega arith in rw e (omega arith)
climb (suc d) f low high =
    let e : f + suc d ≡ suc (f + d) = omega arith in
    rw e (
      omega (
        arith,
        climb d f low (omega (arith, high)),
        step (f + d) (omega (arith, low)) (omega (arith, high)),
      ))

-- A larger number in floating-point terms is a larger size.
pub rises : (f g : ℕ) → 4 ≤ f → f < g → g ≤ 123 → float_to_uint f < float_to_uint g
rises f g low less high =
    let e : suc f + (g - suc f) ≡ g = omega (arith, less) in
    let up =
      subst (λ z. float_to_uint (suc f) ≤ float_to_uint z) e
        (climb (g - suc f) (suc f) (omega (arith, low)) (omega (arith, e, high))) in
    omega (arith, up, step f low (omega (arith, less, high)))
