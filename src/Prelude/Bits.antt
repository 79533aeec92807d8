-- ===== src/Prelude/Bits.antt =====
-- `&` with a mask of low bits and with its complement, as arithmetic, at every width.
use Prim.Native.Nat.{ℕ, zero, suc, ◌+◌, ◌-◌, ◌*◌, ◌/◌, ◌%◌, ◌^◌, ◌≤◌, ◌<◌, min, bit_and}
use Prim.Native.Nat.{digits, bit_and-bitwise}
use mathlib.Core.Path.{◌≡◌, refl, sym, ap, ◌∙◌, subst}
use native.Mathlib.Nat.{
  pow-suc, one-le-pow, mod-eq_of_lt, mod-lt, zero-add, suc-add, div-add-mod', div-lt_iff_lt-mul,
}
use native.Mathlib.Omega.{arith}

pub two_pow_pos : (k : ℕ) → 1 ≤ 2 ^ k
two_pow_pos k = one-le-pow k 2 (omega arith)

-- what `bit_and x y` stands for, with `rounds` digits of `x` to go
abbrev common : ℕ → ℕ → ℕ → ℕ
common rounds x y = digits (λ y. zero) min rounds x y

common-zero : (rounds y : ℕ) → common rounds 0 y ≡ 0
common-zero zero y = refl
common-zero (suc rounds) y = refl

-- Rounds to spare change nothing.
common_spare : (rounds more x y : ℕ) → x ≤ rounds → common (rounds + more) x y ≡ common rounds x y
common_spare rounds more zero y le = common-zero (rounds + more) y ∙ sym (common-zero rounds y)
common_spare zero more (suc x) y le = absurd (omega (arith, le))
common_spare (suc rounds) more (suc x) y le = rw suc-add (
    ap (λ (high : ℕ). high * 2 + min (suc x % 2) (y % 2))
      (common_spare rounds more (suc x / 2) (y / 2) (omega (arith, le))))

common-mask_zero : (rounds x : ℕ) → common rounds x 0 ≡ 0
common-mask_zero rounds zero = common-zero rounds 0
common-mask_zero zero (suc x) = refl
common-mask_zero (suc rounds) (suc x) = omega (arith, common-mask_zero rounds (suc x / 2))

-- The lowest digit, and the digits above it.
lowest_digit : (x y : ℕ) → bit_and x y ≡ min (x % 2) (y % 2) + 2 * bit_and (x / 2) (y / 2)
lowest_digit zero y = rw (bit_and-bitwise 0 y, bit_and-bitwise 0 (y / 2)) (omega arith)
lowest_digit (suc x) y =
    let half : ℕ = suc x / 2 in
    let spare : half + (x - half) ≡ x = omega arith in
    let high : common x half (y / 2) ≡ common half half (y / 2) =
      subst (λ n. common n half (y / 2) ≡ common half half (y / 2)) spare
        (common_spare half (x - half) half (y / 2) (omega arith)) in
    omega (arith, bit_and-bitwise (suc x) y, bit_and-bitwise half (y / 2), high)

double : (k q : ℕ) → q * 2 ^ suc k ≡ q * 2 ^ k + q * 2 ^ k
double k q = rw (pow-suc 2 k) (grind arith)

low_part : (k r q : ℕ) → r < 2 ^ k → bit_and (r + q * 2 ^ k) (2 ^ k - 1) ≡ r
low_part zero r q small =
    bit_and-bitwise (r + q * 1) 0 ∙ ground (arith, common-mask_zero (r + q * 1) (r + q * 1))
low_part (suc k) r q small =
    let digit = lowest_digit (r + q * 2 ^ suc k) (2 ^ suc k - 1) in
    let above = low_part k (r / 2) q (omega (arith, small, pow-suc 2 k)) in
    let half : (r + q * 2 ^ suc k) / 2 ≡ r / 2 + q * 2 ^ k = omega (arith, double k q) in
    let mask : (2 ^ suc k - 1) / 2 ≡ 2 ^ k - 1 = omega (arith, pow-suc 2 k) in
    digit ∙ rw (half, mask, above) (omega (arith, double k q, pow-suc 2 k, two_pow_pos k))

-- `x & (2^k - 1)` is the remainder by `2^k`.
pub bit_and_low : (k x : ℕ) → bit_and x (2 ^ k - 1) ≡ x % 2 ^ k
bit_and_low k x = ground (arith, two_pow_pos k, low_part k (x % 2 ^ k) (x / 2 ^ k))

pub pow_add : (d k : ℕ) → 2 ^ (d + k) ≡ 2 ^ d * 2 ^ k
pow_add zero k = rw zero-add (omega arith)
pow_add (suc d) k = rw (suc-add, pow-suc 2 (d + k), pow-suc 2 d, pow_add d k) (omega arith)

pub two_pow_mono : (j k : ℕ) → j ≤ k → 2 ^ j ≤ 2 ^ k
two_pow_mono j k h =
    let split : 2 ^ (j + (k - j)) ≡ 2 ^ j * 2 ^ (k - j) = pow_add j (k - j) in
    let whole : j + (k - j) ≡ k = omega arith in
    let split' : 2 ^ k ≡ 2 ^ j * 2 ^ (k - j) = rw whole at split in
    grind (arith, two_pow_pos (k - j))

-- A mask of `d` ones above `k` zeros clears the low `k` bits.
high_fields :
    (k d q r : ℕ)
    → r < 2 ^ k
    → q < 2 ^ d
    → bit_and (q * 2 ^ k + r) ((2 ^ d - 1) * 2 ^ k) ≡ q * 2 ^ k
high_fields zero d q r fits small = ground (arith, bit_and_low d q, mod-eq_of_lt small)
high_fields (suc k) d q r fits small =
    let mask = 2 ^ d - 1 in
    let digit = lowest_digit (q * 2 ^ suc k + r) (mask * 2 ^ suc k) in
    let above = high_fields k d q (r / 2) (omega (arith, fits, pow-suc 2 k)) small in
    let half : (q * 2 ^ suc k + r) / 2 ≡ q * 2 ^ k + r / 2 = omega (arith, double k q) in
    let half_mask : mask * 2 ^ suc k / 2 ≡ mask * 2 ^ k = omega (arith, double k mask) in
    digit ∙ rw (half, half_mask, above) (omega (arith, double k q, double k mask))

mask_lem : (a b : ℕ) → 1 ≤ a → (a - 1) * b ≡ a * b - b
mask_lem zero b h = elim h [ ]
mask_lem (suc a) b h = let e : suc a - 1 ≡ a = omega arith in rw e (omega arith)

-- `x & ~(2^k - 1)` on 64 bits rounds `x` down to a multiple of `2^k`.
pub bit_and_high :
    (k x : ℕ) → k ≤ 64 → x < 2 ^ 64 → bit_and x (2 ^ 64 - 1 - (2 ^ k - 1)) ≡ x / 2 ^ k * 2 ^ k
bit_and_high k x le fits = rw mask (rounded ∙ high_fields k d (x / 2 ^ k) (x % 2 ^ k) rest quotient)
  where
    d : ℕ
    d = 64 - k

    whole : 64 ≡ d + k
    whole = omega arith

    split : 2 ^ 64 ≡ 2 ^ d * 2 ^ k
    split = ap (λ (t : ℕ). 2 ^ t) whole ∙ pow_add d k

    mask : 2 ^ 64 - 1 - (2 ^ k - 1) ≡ (2 ^ d - 1) * 2 ^ k
    mask = omega (arith, split, two_pow_pos k, mask_lem (2 ^ d) (2 ^ k) (two_pow_pos d))

    rounded :
        bit_and x ((2 ^ d - 1) * 2 ^ k)
        ≡ bit_and (x / 2 ^ k * 2 ^ k + x % 2 ^ k) ((2 ^ d - 1) * 2 ^ k)
    rounded = ap (λ (t : ℕ). bit_and t ((2 ^ d - 1) * 2 ^ k)) (sym (div-add-mod' x (2 ^ k)))

    rest : x % 2 ^ k < 2 ^ k
    rest = mod-lt x (two_pow_pos k)

    quotient : x / 2 ^ k < 2 ^ d
    quotient = (div-lt_iff_lt-mul (two_pow_pos k)).1 (omega (arith, split))
