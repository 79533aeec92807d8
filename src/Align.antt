-- ===== src/Align.antt =====
-- `IsAligned`, `Align` and `Min` of SmMalloc/smmalloc.h, on 64-bit `size_t`.
use native.Mathlib.Nat.{mod-lt, div-add-mod', mul-mod_left}
use smmalloc.Prelude.{
  ℕ, ◌+◌, ◌-◌, ◌*◌, ◌/◌, ◌%◌, ◌^◌, ◌≤◌, ◌<◌, ◌≡◌, Bool, arith, bit_and, ltb, ◌==◌, if◌then◌else◌,
  u64, sub64, not64, bit_and_low, bit_and_high, two_pow_pos, two_pow_mono,
}

pub is_aligned : ℕ → ℕ → Bool
is_aligned v alignment = bit_and v (sub64 alignment 1) == 0

unfoldable pub align : ℕ → ℕ → ℕ
align val alignment = bit_and (u64 (val + sub64 alignment 1)) (not64 (sub64 alignment 1))

pub min_size_t : ℕ → ℕ → ℕ
min_size_t a b = if ltb a b then a else b

pub min_size_t-le : (a b : ℕ) → (min_size_t a b ≤ a) × (min_size_t a b ≤ b)
unfolding min_size_t
min_size_t-le a b = ground arith

pub min_size_t-gt : (i a b : ℕ) → i < a → i < b → i < min_size_t a b
unfolding min_size_t
min_size_t-gt i a b = ground arith

-- The mask `alignment - 1` of a power of two below the word size.
pub pow_mask : (k : ℕ) → k ≤ 63 → sub64 (2 ^ k) 1 ≡ 2 ^ k - 1
pow_mask k h = omega (arith, two_pow_pos k, two_pow_mono k 63 h)

-- On a power of two the test is divisibility.
pub is_aligned_iff : (k v : ℕ) → k ≤ 63 → is_aligned v (2 ^ k) ≡ (v % 2 ^ k == 0)
unfolding is_aligned
is_aligned_iff k v h = rw (pow_mask k h, bit_and_low k v)

-- Away from the top of the address space, `Align` rounds up.
pub align_lem :
    (k v : ℕ)
    → k ≤ 63
    → v + (2 ^ k - 1) < 2 ^ 64
    → align v (2 ^ k) ≡ (v + (2 ^ k - 1)) / 2 ^ k * 2 ^ k
unfolding align
align_lem k v h fits =
    let whole : u64 (v + (2 ^ k - 1)) ≡ v + (2 ^ k - 1) = omega arith in
    rw (pow_mask k h, whole) (bit_and_high k (v + (2 ^ k - 1)) (omega arith) fits)

round_up :
    (p v : ℕ)
    → 1 ≤ p
    → (v ≤ (v + (p - 1)) / p * p)
      × ((v + (p - 1)) / p * p < v + p)
      × ((v + (p - 1)) / p * p % p ≡ 0)
round_up p v h = (
  omega (arith, div-add-mod' (v + (p - 1)) p, mod-lt (v + (p - 1)) h),
  omega (arith, div-add-mod' (v + (p - 1)) p, mod-lt (v + (p - 1)) h),
  mul-mod_left ((v + (p - 1)) / p) p,
)

-- `Align` to a power of two up to `2 ^ 63` returns the next multiple of it, if the value and the
-- alignment do not exceed `2 ^ 64`.
pub align_up :
    (k v : ℕ)
    → k ≤ 63
    → v + 2 ^ k ≤ 2 ^ 64
    → (v ≤ align v (2 ^ k)) × (align v (2 ^ k) < v + 2 ^ k) × (align v (2 ^ k) % 2 ^ k ≡ 0)
align_up k v h fits =
    rw (align_lem k v h (omega (arith, two_pow_pos k))) (round_up (2 ^ k) v (two_pow_pos k))
