-- ===== src/Sizes/Float/Scheme.antt =====
-- What the small-float scheme promises to the allocator.
use native.Mathlib.Nat.{
  mul-mod_left, mul-le-mul, mod-eq_of_lt, mul-add-mod_self_right, div-add-mod',
}
use native.Mathlib.Decide.{dec_lt}
use smmalloc.Prelude.{
  ℕ, ◌+◌, ◌-◌, ◌*◌, ◌/◌, ◌%◌, ◌^◌, ◌≤◌, ◌<◌, ◌≡◌, refl, ◌∙◌, ap, sym, subst, arith, ltb,
  if◌then◌else◌, u32, sub32, two_pow_mono, pow_add, le→ltb, lt→ltb, inl, inr, of_below,
}
use smmalloc.Sizes.Defs.{Partition, max_bucket_count}
use smmalloc.Sizes.Float.{index_by_size, size_by_index, uint_to_float_round_up, float_to_uint}
use smmalloc.Sizes.Float.Rounding.{Rounding, rounding}
use smmalloc.Sizes.Float.Laws.{
  limit, carry_small, unit, units, bounds, rounded, cases, whole, rises, value, climb,
}

size_of : (f : ℕ) → 12 ≤ f → f < 2 ^ 32 → size_by_index (sub32 f 12) ≡ float_to_uint f
unfolding size_by_index
size_of f low fits =
    let back : u32 (u32 (sub32 f 12) + 12) ≡ f = omega arith in ap float_to_uint back

size_at : (i : ℕ) → i < 2 ^ 32 - 12 → size_by_index i ≡ float_to_uint (i + 12)
unfolding size_by_index
size_at i fits = let sum : u32 (u32 i + 12) ≡ i + 12 = omega arith in ap float_to_uint sum

size_0 : size_by_index 0 ≡ 16
unfolding size_by_index
size_0 = refl

abbrev DividesSixteen : ℕ → Type 0
DividesSixteen k = 16 % 2 ^ k ≡ 0

-- A size below sixteen, or one that is rounded in floating-point terms.
data Sized (n : ℕ) (fits : n < limit) : Type 0 where
  smallest : n ≤ 16 → index_by_size n ≡ 0 → Sized n fits
  floating :
      (rn : Rounding n)
      → (f : ℕ) → uint_to_float_round_up n ≡ f
      → f ≡ 4 * rn.s + rn.c + rn.carry
      → 12 ≤ f
      → index_by_size n ≡ sub32 f 12
      → size_by_index (index_by_size n) ≡ units n fits rn * unit n fits rn
      → Sized n fits

module _ (n : ℕ) (fits : n < limit) where
  index_of :
      (f : ℕ)
      → uint_to_float_round_up n ≡ f
      → index_by_size n ≡ (if ltb f 12 then 0 else sub32 f 12)
  unfolding index_by_size
  index_of f e = let small : u32 n ≡ n = omega (arith, fits) in rw (small, e) refl

  sixteen : (rn : Rounding n) → rn.s ≤ 1 → n ≤ 16
  sixteen rn few =
      let two : 2 ^ rn.s ≤ 2 ^ 1 = two_pow_mono rn.s 1 few in
      let seven : rn.c ≤ 7 = omega (arith, rn.c_high) in
      let up : rn.c * 2 ^ rn.s ≤ 7 * 2 ^ 1 = mul-le-mul seven two in
      omega (arith, up, two, rn.split, rn.r_small)

  tiny_lem : n < 4 → uint_to_float_round_up n ≡ n
  unfolding uint_to_float_round_up
  tiny_lem h = rw (lt→ltb n 4 h) refl

  Sized-of_Rounding :
      (rn : Rounding n) (f : ℕ)
      → uint_to_float_round_up n ≡ f
      → f ≡ 4 * rn.s + rn.c + rn.carry
      → Sized n fits
  Sized-of_Rounding rn f e at = elim (dec_lt f 12) [
    | yes few ↦
        smallest (sixteen rn (omega (arith, few, at))) (index_of f e ∙ rw (lt→ltb f 12 few) refl)
    | no many ↦
        let index : index_by_size n ≡ sub32 f 12 =
          index_of f e ∙ rw (le→ltb f 12 (omega (arith, many))) refl in
        floating rn f e at (omega (arith, many)) index (
          ap size_by_index index
          ∙ size_of f (omega (arith, many))
              (omega (arith, at, rn.s_small, rn.c_high, carry_small n fits rn))
          ∙ ap float_to_uint (sym e)
          ∙ rounded n fits rn)
  ]

  sized : Sized n fits
  sized = elim (dec_lt n 4) [
    | yes tiny ↦
        smallest (omega (arith, tiny))
          (index_of n (tiny_lem tiny) ∙ rw (lt→ltb n 12 (omega (arith, tiny))) refl)
    | no big ↦
        Sized-of_Rounding (rounding n (omega (arith, big)) (omega (arith, fits)))
          (uint_to_float_round_up n) refl
          (rounding n (omega (arith, big)) (omega (arith, fits))).rounds
  ]

-- Small-float scheme: the bucket of a size from 1 up to `7 * 2 ^ 29` has elements of that many
-- bytes or more.
pub float_covers : (n : ℕ) → 0 < n → n < limit → n ≤ size_by_index (index_by_size n)
float_covers n pos fits = elim (sized n fits) [
  | smallest few index ↦ rw (index, size_0) few
  | floating rn f e at low index size ↦ rw size (bounds n fits rn).0
]

small_power : (k n : ℕ) → 0 < n → n ≤ 16 → n % 2 ^ k ≡ 0 → 16 % 2 ^ k ≡ 0
small_power k n pos few e = elim (dec_lt k 5) [
  | yes less ↦ of_below DividesSixteen 5 (((((tt, refl), refl), refl), refl), refl) k less
  | no more ↦
      let less : n < 2 ^ k = omega (arith, few, two_pow_mono 5 k (omega (arith, more))) in
      absurd (omega (arith, mod-eq_of_lt less, e, pos))
]

exact_units :
    (n : ℕ) (fits : n < limit) (rn : Rounding n) → rn.r ≡ 0 → units n fits rn * unit n fits rn ≡ n
unfolding unit
exact_units n fits rn none =
    let flat : rn.carry ≡ 0 = elim (cases n fits rn) [
      | inl (z, c) ↦ c
      | inr (p, c) ↦ absurd (omega (arith, none, p))
    ] in
    let carried : rn.carry * 2 ^ rn.s ≡ 0 = rw flat (omega arith) in
    omega (arith, whole n fits rn, carried, none, rn.split)

exact_aligned :
    (n k : ℕ) (fits : n < limit) (rn : Rounding n)
    → rn.r ≡ 0
    → n % 2 ^ k ≡ 0
    → units n fits rn * unit n fits rn % 2 ^ k ≡ 0
exact_aligned n k fits rn none e = rw (exact_units n fits rn none) e

-- A size that is a multiple of `2 ^ k` is rounded to one.
units_aligned :
    (n k : ℕ) (fits : n < limit) (rn : Rounding n)
    → n % 2 ^ k ≡ 0
    → units n fits rn * unit n fits rn % 2 ^ k ≡ 0
unfolding unit
units_aligned n k fits rn e = elim (dec_lt rn.s k) [
  | yes less ↦
      let sum : k - rn.s + rn.s ≡ k = omega (arith, less) in
      let split : 2 ^ k ≡ 2 ^ (k - rn.s) * 2 ^ rn.s =
        ap (λ (t : ℕ). 2 ^ t) (sym sum) ∙ pow_add (k - rn.s) rn.s in
      let multiple : n ≡ n / 2 ^ k * 2 ^ k = omega (arith, div-add-mod' n (2 ^ k), e) in
      let factor : n ≡ n / 2 ^ k * 2 ^ (k - rn.s) * 2 ^ rn.s = grind (arith, split, multiple) in
      let zero_rest : n % 2 ^ rn.s ≡ 0 =
        ap (λ (t : ℕ). t % 2 ^ rn.s) factor
        ∙ mul-mod_left (n / 2 ^ k * 2 ^ (k - rn.s)) (2 ^ rn.s) in
      let rest : n % 2 ^ rn.s ≡ rn.r =
        ap (λ (t : ℕ). t % 2 ^ rn.s) rn.split
        ∙ mul-add-mod_self_right rn.c (2 ^ rn.s) rn.r
        ∙ mod-eq_of_lt rn.r_small in
      exact_aligned n k fits rn (sym rest ∙ zero_rest) e
  | no more ↦
      let sum : rn.s - k + k ≡ rn.s = omega (arith, more) in
      let split : 2 ^ rn.s ≡ 2 ^ (rn.s - k) * 2 ^ k =
        ap (λ (t : ℕ). 2 ^ t) (sym sum) ∙ pow_add (rn.s - k) k in
      let factor : units n fits rn * 2 ^ rn.s ≡ units n fits rn * 2 ^ (rn.s - k) * 2 ^ k =
        grind (arith, split) in
      rw factor (mul-mod_left (units n fits rn * 2 ^ (rn.s - k)) (2 ^ k))
]

-- Small-float scheme: a multiple of a power of two up to 4096, from 1 up to `7 * 2 ^ 29`, gets a
-- bucket whose element size is one too.
pub float_keeps_aligned :
    (k n : ℕ)
    → k ≤ 12
    → 0 < n
    → n < limit
    → n % 2 ^ k ≡ 0
    → size_by_index (index_by_size n) % 2 ^ k ≡ 0
float_keeps_aligned k n small pos fits e = elim (sized n fits) [
  | smallest few index ↦ rw (index, size_0) (small_power k n pos few e)
  | floating rn f r at low index size ↦ rw size (units_aligned n k fits rn e)
]

-- The number in floating-point terms that leaves out the carry.
leading_value :
    (n : ℕ) → n < limit → (rn : Rounding n) → float_to_uint (4 * rn.s + rn.c) ≡ rn.c * 2 ^ rn.s
leading_value n fits rn =
    value rn.s rn.c rn.c_low (omega (arith, rn.c_high)) rn.s_small (omega (arith, fits, rn.split))

tight_at :
    (n i f : ℕ) (rn : Rounding n)
    → n < limit
    → f ≡ 4 * rn.s + rn.c + rn.carry
    → i + 12 < f
    → size_by_index i < n
tight_at n i f rn fits at less =
    let bound : i < 2 ^ 32 - 12 =
      omega (arith, less, at, rn.s_small, rn.c_high, carry_small n fits rn) in
    rw (size_at i bound) (elim (cases n fits rn) [
      | inl (none, flat) ↦
          let up =
            rises (i + 12) (4 * rn.s + rn.c) (omega arith) (omega (arith, less, at, flat))
              (omega (arith, rn.s_small, rn.c_high)) in
          omega (arith, up, leading_value n fits rn, none, rn.split)
      | inr (some, one) ↦
          let e : i + 12 + (4 * rn.s + rn.c - (i + 12)) ≡ 4 * rn.s + rn.c =
            omega (arith, less, at, one) in
          let up =
            subst (λ z. float_to_uint (i + 12) ≤ float_to_uint z) e
              (climb (4 * rn.s + rn.c - (i + 12)) (i + 12) (omega arith)
                (omega (arith, e, rn.s_small, rn.c_high))) in
          omega (arith, up, leading_value n fits rn, some, rn.split)
    ])

-- Small-float scheme: every bucket below the bucket of a size up to `7 * 2 ^ 29` has elements of
-- fewer bytes than the size.
pub float_tight : (n i : ℕ) → n < limit → i < index_by_size n → size_by_index i < n
float_tight n i fits less = elim (sized n fits) [
  | smallest few index ↦ absurd (omega (arith, less, index))
  | floating rn f e at low index size ↦
      let word : sub32 f 12 ≡ f - 12 =
        omega (arith, low, at, rn.s_small, rn.c_high, carry_small n fits rn) in
      tight_at n i f rn fits at (omega (arith, less, index, word, low))
]

-- The larger bucket has the larger elements.
pub float_grows : (i j : ℕ) → i < j → j < max_bucket_count → size_by_index i < size_by_index j
float_grows i j less few =
    rw (size_at i (omega (arith, less, few)), size_at j (omega (arith, few)))
      (rises (i + 12) (j + 12) (omega arith) (omega (arith, less)) (omega (arith, few)))

pub at_least_16 : (i : ℕ) → i < max_bucket_count → 16 ≤ size_by_index i
at_least_16 i few = rw (size_at i (omega (arith, few))) (
    let e : 12 + i ≡ i + 12 = omega arith in
    let up =
      subst (λ z. float_to_uint 12 ≤ float_to_uint z) e
        (climb i 12 (omega arith) (omega (arith, few))) in
    omega (arith, up, smallest_value))
  where
    smallest_value : float_to_uint 12 ≡ 16
    smallest_value = sym (size_at 0 (omega arith)) ∙ size_0

largest_value : float_to_uint 74 ≡ 786432
unfolding float_to_uint
largest_value = refl

pub at_most_1M : (i : ℕ) → i < max_bucket_count → size_by_index i < 2 ^ 20
at_most_1M i few = rw (size_at i (omega (arith, few))) (
    omega
      (arith, rises (i + 12) 74 (omega arith) (omega (arith, few)) (omega arith), largest_value))

pub stop_aligned : size_by_index 62 % 4096 ≡ 0
unfolding size_by_index float_to_uint
stop_aligned = refl

abbrev pub partition : Partition
partition = record {
  index_by_size = index_by_size;
  size_by_index = size_by_index;
  limit = limit;
  covers = float_covers;
  keeps_aligned = float_keeps_aligned;
  grows = float_grows;
  at_least_16 = at_least_16;
  at_most_1M = at_most_1M;
  stop = 62;
  stop_bounds = (omega arith, omega arith);
  stop_aligned = stop_aligned;
  limit_fits = omega arith;
}
