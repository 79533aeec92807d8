-- ===== src/Pool/Tagged.antt =====
-- `TaggedIndex` of SmMalloc/smmalloc.h: a tag and an offset in one 64-bit word, little-endian.
use smmalloc.Prelude.{ℕ, ◌+◌, ◌-◌, ◌*◌, ◌/◌, ◌%◌, ◌^◌, ◌<◌, ◌≡◌, ◌≢◌, arith}

-- `p.tag` is the low half of `u`, `p.offset` the high half.
abbrev pub pack : ℕ → ℕ → ℕ
pack tag offset = tag + offset * 2 ^ 32

abbrev pub tag_of : ℕ → ℕ
tag_of u = u % 2 ^ 32

abbrev pub offset_of : ℕ → ℕ
offset_of u = u / 2 ^ 32

-- `TaggedIndex::Invalid`
abbrev pub invalid : ℕ
invalid = 2 ^ 64 - 1

-- For a 32-bit tag and an offset below `2 ^ 32 - 1`, the word of the two is a 64-bit one, its
-- halves are the tag and the offset, and it is not `TaggedIndex::Invalid`.
pub pack_fields :
    (t o : ℕ)
    → t < 2 ^ 32
    → o < 2 ^ 32 - 1
    → (tag_of (pack t o) ≡ t)
      × (offset_of (pack t o) ≡ o)
      × (pack t o < 2 ^ 64)
      × (pack t o ≢ invalid)
pack_fields t o ht ho = (omega arith, omega arith, omega arith, omega arith)
