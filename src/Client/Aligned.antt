-- ===== src/Client/Aligned.antt =====
-- The blocks of a bucket have the alignment of its elements.
use native.Mathlib.Nat.{div-add-mod', mul-mod_left}
use smmalloc.Prelude.{ℕ, ◌+◌, ◌*◌, ◌/◌, ◌%◌, ◌^◌, ◌≤◌, ◌<◌, ◌≡◌, arith, count}
use smmalloc.Pool.Blocks.{blocks, blocks-multiple}
use smmalloc.Sizes.{Partition}
use smmalloc.Allocator.{World}
use smmalloc.Safety.Layout.{IsSetUp}
use smmalloc.Safety.Next.{page_aligned}
use smmalloc.Safety.Sound.{base_of}

abbrev IsMultiple : ℕ → ℕ → Type 0
IsMultiple d x = (q : ℕ) × (x ≡ q * d)

IsMultiple-of_mod : (d x : ℕ) → x % d ≡ 0 → IsMultiple d x
IsMultiple-of_mod d x h = (x / d, omega (arith, div-add-mod' x d, h))

mod-of_IsMultiple : (d x : ℕ) → IsMultiple d x → x % d ≡ 0
mod-of_IsMultiple d x (q, e) = rw e (mul-mod_left q d)

IsMultiple-add : (d x y : ℕ) → IsMultiple d x → IsMultiple d y → IsMultiple d (x + y)
IsMultiple-add d x y (q, e) (r, f) = (q + r, grind (arith, e, f))

IsMultiple-mul : (d n x : ℕ) → IsMultiple d x → IsMultiple d (n * x)
IsMultiple-mul d n x (q, e) = (n * q, grind (arith, e))

IsMultiple-of_page : (k x : ℕ) → k ≤ 12 → x % 4096 ≡ 0 → IsMultiple (2 ^ k) x
IsMultiple-of_page k x small h = IsMultiple-of_mod (2 ^ k) x (page_aligned k x small h)

module _ {H : Type 0} (part : Partition) (w : World H) (up : IsSetUp w) (i o n k : ℕ)
    (big : 8 ≤ part.size_by_index i) (small : k ≤ 12) (aligned : part.size_by_index i % 2 ^ k ≡ 0)
    (at : 0 < count o (blocks (part.size_by_index i) 0 n)) where
  pub block-mod : (base_of part w i + o) % 2 ^ k ≡ 0
  block-mod =
      let (q, e) = blocks-multiple (part.size_by_index i) big n 0 o at in
      let place : o ≡ q * part.size_by_index i = omega (arith, e) in
      mod-of_IsMultiple (2 ^ k) (base_of part w i + o) (
        IsMultiple-add (2 ^ k) (base_of part w i) o
          (IsMultiple-add (2 ^ k) w.buffer (i * w.bucket_size_in_bytes)
            (IsMultiple-of_page k w.buffer small up.page)
            (IsMultiple-mul (2 ^ k) i w.bucket_size_in_bytes
              (IsMultiple-of_page k w.bucket_size_in_bytes small up.size_page)))
          (rw place (
            IsMultiple-mul (2 ^ k) q (part.size_by_index i)
              (IsMultiple-of_mod (2 ^ k) (part.size_by_index i) aligned))))
