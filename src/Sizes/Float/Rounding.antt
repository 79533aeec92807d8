-- ===== src/Sizes/Float/Rounding.antt =====
-- What the two conversions of the small-float scheme compute.
use native.Mathlib.Nat.{
  mod-eq_of_lt, div-add-mod', mod-lt, pow-suc, le-div_iff_mul-le, div-lt_iff_lt-mul,
}
use native.Mathlib.Decide.{dec_lt}
use smmalloc.Prelude.{
  ℕ, zero, suc, ◌+◌, ◌-◌, ◌*◌, ◌/◌, ◌%◌, ◌^◌, ◌≤◌, ◌<◌, ◌≡◌, refl, ◌∙◌, ap, sym, inl, inr, arith,
  leb, ◌==◌, if◌then◌else◌, u32, sub32, bit_and, bit_or, bit_and_low, two_pow_pos, two_pow_mono,
  of_below, Bool-cases, leb→le, le→ltb, leb→lt, ne→==,
}
use smmalloc.Sizes.Float.{leading_zeros, uint_to_float_round_up, float_to_uint}

-- The highest bit of a number of at most `bits` bits.
record Highest (bits v z : ℕ) : Type 0 where
  below : z < bits
  low : 2 ^ (bits - 1 - z) ≤ v
  high : v < 2 * 2 ^ (bits - 1 - z)

leading_zeros-Highest : (bits v : ℕ) → 0 < v → v < 2 ^ bits → Highest bits v (leading_zeros bits v)
unfolding leading_zeros
leading_zeros-Highest zero v pos fits = absurd (omega arith)
leading_zeros-Highest (suc bits) v pos fits = elim (Bool-cases (leb (2 ^ bits) v)) [
  | inl big ↦
      let whole : suc bits - 1 - 0 ≡ bits = omega arith in
      rw big (record {
        below = omega arith;
        low = rw whole (leb→le _ _ big);
        high = rw whole (omega (arith, fits, pow-suc 2 bits));
      })
  | inr small ↦
      let ih = leading_zeros-Highest bits v pos (leb→lt _ _ small) in
      let same : suc bits - 1 - suc (leading_zeros bits v) ≡ bits - 1 - leading_zeros bits v =
        omega arith in
      rw small
        (record { below = omega (arith, ih.below); low = rw same ih.low; high = rw same ih.high })
]

-- A size in the scheme's terms: three leading bits `c`, `s` bits below them of value `r`.
pub record Rounding (n : ℕ) : Type 0 where
  pub s : ℕ
  pub c : ℕ
  pub r : ℕ
  pub carry : ℕ
  pub split : n ≡ c * 2 ^ s + r
  pub c_low : 4 ≤ c
  pub c_high : c < 8
  pub r_small : r < 2 ^ s
  pub exact : carry ≡ (if r == 0 then 0 else 1)
  pub s_small : s ≤ 29
  pub rounds : uint_to_float_round_up n ≡ 4 * s + c + carry

module _ (n : ℕ) (big : 4 ≤ n) (fits : n < 2 ^ 32) where
  highest : Highest 32 n (leading_zeros 32 n)
  highest = leading_zeros-Highest 32 n (omega (arith, big)) fits

  top : ℕ
  top = 31 - leading_zeros 32 n

  start : ℕ
  start = top - 2

  top_big : 2 ≤ top
  unfolding top
  top_big = elim (dec_lt top 2) [
    | yes few ↦ absurd (omega (arith, big, highest.high, two_pow_mono top 1 (omega (arith, few))))
    | no many ↦ omega (arith, many)
  ]

  four_starts : 2 ^ top ≡ 4 * 2 ^ start
  unfolding start
  four_starts =
      let e : top ≡ suc (suc (top - 2)) = omega (arith, top_big) in
      ap (λ (t : ℕ). 2 ^ t) e ∙ omega (arith, pow-suc 2 (suc (top - 2)), pow-suc 2 (top - 2))

  leading : ℕ
  leading = n / 2 ^ start

  leading_bounds : (4 ≤ leading) × (leading < 8)
  unfolding leading top
  leading_bounds = (
    (le-div_iff_mul-le (two_pow_pos start)).1 (omega (arith, four_starts, highest.low)),
    (div-lt_iff_lt-mul (two_pow_pos start)).1 (omega (arith, four_starts, highest.high)),
  )

  small_start : start ≤ 29
  unfolding start top
  small_start = omega arith

  carries : ℕ
  carries = if n % 2 ^ start == 0 then 0 else 1

  rounds_lem : uint_to_float_round_up n ≡ 4 * start + leading + carries
  unfolding uint_to_float_round_up leading carries start top
  rounds_lem =
      let z = leading_zeros 32 n in
      let s = 31 - z - 2 in
      let top32 : sub32 31 z ≡ 31 - z = omega (arith, highest.below) in
      let start32 : sub32 (31 - z) 2 ≡ s = omega (arith, top_big) in
      let exp : u32 (s + 1) ≡ s + 1 = omega arith in
      let mantissa : bit_and (n / 2 ^ s) 3 ≡ n / 2 ^ s % 4 = bit_and_low 2 (n / 2 ^ s) in
      let mask : sub32 (u32 (2 ^ s)) 1 ≡ 2 ^ s - 1 =
        omega (arith, two_pow_pos s, two_pow_mono s 29 (omega arith)) in
      rw (le→ltb n 4 big, top32, start32, exp, mantissa, mask, bit_and_low s n)
        (elim (Bool-cases (n % 2 ^ s == 0)) [
          | inl none ↦ rw none (omega (arith, leading_bounds))
          | inr some ↦ rw some (omega (arith, leading_bounds))
        ])

  pub rounding : Rounding n
  unfolding leading carries
  rounding = record {
    s = start;
    c = leading;
    r = n % 2 ^ start;
    carry = carries;
    split = sym (div-add-mod' n (2 ^ start));
    c_low = leading_bounds.0;
    c_high = leading_bounds.1;
    r_small = mod-lt n (two_pow_pos start);
    exact = refl;
    s_small = small_start;
    rounds = rounds_lem;
  }

abbrev WithBit : ℕ → Type 0
WithBit m = bit_or m 4 ≡ 4 + m

with_bit : (m : ℕ) → m < 4 → bit_or m 4 ≡ 4 + m
with_bit m small = of_below WithBit 4 ((((tt, refl), refl), refl), refl) m small

-- The value of exponent `e` and mantissa `m`, in floating-point terms.
pub float_to_uint_lem :
    (e m : ℕ)
    → m < 4
    → (4 + m) * 2 ^ e < 2 ^ 32
    → e ≤ 29
    → float_to_uint (4 * suc e + m) ≡ (4 + m) * 2 ^ e
unfolding float_to_uint
float_to_uint_lem e m small fits few =
    let exponent : (4 * suc e + m) / 4 ≡ suc e = omega arith in
    let mantissa : bit_and (4 * suc e + m) 3 ≡ m = bit_and_low 2 (4 * suc e + m) ∙ omega arith in
    let shift : sub32 (suc e) 1 ≡ e = omega arith in
    let whole : u32 ((4 + m) * 2 ^ e) ≡ (4 + m) * 2 ^ e = mod-eq_of_lt fits in
    rw (exponent, mantissa, ne→== (suc e) 0 (omega arith), shift, with_bit m small) whole
