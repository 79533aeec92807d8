-- ===== src/Generic.antt =====
-- SmMalloc/smmalloc_generic.cpp: the generic allocator over `malloc` and `free` of the C library, with
-- a header in front of every block. The instance handle is always null and is left out.
pub mod Block
pub mod Resize
use smmalloc.Prelude.{
  ℕ, ◌+◌, ◌-◌, ◌^◌, Bool, true, ltb, ◌==◌, if◌then◌else◌, u64, sub64, not64, bit_and, min,
}
use smmalloc.Memory.{Mem, load64, store64, memmove}
use smmalloc.Pool.{null}

-- The C library's heap, which is not part of the program: what a call returns, and the new state.
pub record Libc (H : Type 0) : Type 0 where
  pub malloc : H → ℕ → ℕ × H
  pub free : H → ℕ → H

-- What the generic allocator works on.
pub record Machine (H : Type 0) : Type 0 where
  pub heap : H
  pub mem : Mem

-- Allocator::kMinValidAlignment
abbrev pub min_valid_alignment : ℕ
min_valid_alignment = 4

-- sizeof(Header): the pointer to free, and the size asked for, eight bytes each
abbrev pub sizeof_header : ℕ
sizeof_header = 16

-- `Create` and `IsValid`
abbrev pub create_instance : ℕ
create_instance = null

abbrev pub is_valid : ℕ → Bool
is_valid instance_handle = true

abbrev pub clamp_alignment : ℕ → ℕ
clamp_alignment alignment =
    if ltb alignment min_valid_alignment then min_valid_alignment else alignment

-- what is added to a request to make room for the header and the alignment
abbrev pub overhead : ℕ → ℕ
overhead alignment = u64 (sub64 alignment 1 + sizeof_header)

module _ {H : Type 0} (libc : Libc H) where
  unfoldable pub alloc : Machine H → ℕ → ℕ → ℕ × Machine H
  alloc s bytes_count alignment =
      let a = clamp_alignment alignment in
      let offset = overhead a in
      let (p, heap) = libc.malloc s.heap (u64 (bytes_count + offset)) in
      if p == null
      then (null, record s { heap = heap })
      else let p2 = bit_and (u64 (p + offset)) (not64 (sub64 a 1)) in
        let h = sub64 p2 sizeof_header in
        (p2, record { heap = heap; mem = store64 (store64 s.mem h p) (u64 (h + 8)) bytes_count })

  unfoldable pub free : Machine H → ℕ → Machine H
  free s p =
      if p == null
      then s
      else record s { heap = libc.free s.heap (load64 s.mem (sub64 p sizeof_header)) }

  unfoldable pub get_usable_space : Machine H → ℕ → ℕ
  get_usable_space s p = if p == null then 0 else load64 s.mem (u64 (sub64 p sizeof_header + 8))

  unfoldable pub realloc : Machine H → ℕ → ℕ → ℕ → ℕ × Machine H
  realloc s p bytes_count alignment =
      let (p2, s') = alloc s bytes_count alignment in
      if p2 == null
      then (null, s')
      else let old_block_size = get_usable_space s' p in
        let moved =
          if p == null
          then s'
          else record s' { mem = memmove s'.mem p2 p (min old_block_size bytes_count) } in
        (p2, free moved p)
