-- ===== src/Sizes/Float.antt =====
-- SMM_FLOAT_PARTITIONING of SmMalloc/smmalloc.h: sizes as small floating-point numbers with a
-- mantissa of two bits.
pub mod Rounding
pub mod Laws
pub mod Scheme
use smmalloc.Prelude.{
  ℕ, zero, suc, ◌+◌, ◌-◌, ◌*◌, ◌%◌, ◌^◌, ltb, leb, ◌==◌, if◌then◌else◌, u32, sub32, ◌>>>◌, bit_and,
  bit_or,
}

-- SMM_MANTISSA_BITS, SMM_MANTISSA_VALUE and SMM_MANTISSA_MASK
abbrev pub mantissa_bits : ℕ
mantissa_bits = 2

abbrev pub mantissa_value : ℕ
mantissa_value = 4

abbrev pub mantissa_mask : ℕ
mantissa_mask = 3

-- `__builtin_clz`, on a word of `bits` bits: how many zeroes stand in front of the highest one
unfoldable pub leading_zeros : ℕ → ℕ → ℕ
leading_zeros zero v = 0
leading_zeros (suc bits) v =
    let rest = leading_zeros bits v in if leb (2 ^ bits) v then 0 else suc rest

abbrev pub lzcnt_nonzero : ℕ → ℕ
lzcnt_nonzero v = leading_zeros 32 v

unfoldable pub uint_to_float_round_up : ℕ → ℕ
uint_to_float_round_up size =
    if ltb size mantissa_value
    then size
    else let highest_set_bit = sub32 31 (lzcnt_nonzero size) in
      let mantissa_start_bit = sub32 highest_set_bit mantissa_bits in
      let exp = u32 (mantissa_start_bit + 1) in
      let mantissa = bit_and (size >>> mantissa_start_bit) mantissa_mask in
      let low_bits_mask = sub32 (u32 (2 ^ mantissa_start_bit)) 1 in
      let rounded = if bit_and size low_bits_mask == 0 then mantissa else u32 (mantissa + 1) in
      u32 (u32 (exp * 2 ^ mantissa_bits) + rounded)

unfoldable pub float_to_uint : ℕ → ℕ
float_to_uint float_value =
    let exponent = float_value >>> mantissa_bits in
    let mantissa = bit_and float_value mantissa_mask in
    if exponent == 0 then mantissa else u32 (bit_or mantissa mantissa_value * 2 ^ sub32 exponent 1)

unfoldable pub index_by_size : ℕ → ℕ
unfolding uint_to_float_round_up
index_by_size bytes_count =
    let bucket_index = uint_to_float_round_up (u32 bytes_count) in
    if ltb bucket_index 12 then 0 else sub32 bucket_index 12

unfoldable pub size_by_index : ℕ → ℕ
unfolding float_to_uint
size_by_index bucket_index = float_to_uint (u32 (u32 bucket_index + 12))
