-- ===== src/Generic/Resize.antt =====
-- `GenericAllocator::Realloc` moves a block: the bytes come along, and the old block is freed.
use smmalloc.Prelude.{
  ℕ, ◌+◌, ◌-◌, ◌%◌, ◌^◌, ◌≤◌, ◌<◌, ◌≡◌, refl, ◌⊎◌, ◌∙◌, arith, u64, sub64, ne→==, min, two_pow_mono,
}
use smmalloc.Memory.{Mem, load64, load64-cong, memmove, memmove-copy, memmove-out}
use smmalloc.Generic.{Libc, Machine, alloc, free, get_usable_space, realloc}
use smmalloc.Generic.Block.{Block, alloc-Block}

-- What `Realloc` of the block at `p` returns, if the `malloc` block of `p` begins at `q`.
pub record Resized {H : Type 0} (libc : Libc H) (s : Machine H) (p q old bytes_count a : ℕ)
    (heap : H) (out : ℕ × Machine H) : Type 0 where
  pub address : ℕ
  pub machine : Machine H
  pub returns : out ≡ (address, machine)
  pub old_freed : machine.heap ≡ libc.free heap q
  pub aligned : address % a ≡ 0
  pub copied : (i : ℕ) → i < min old bytes_count → machine.mem (address + i) ≡ s.mem (p + i)

module _ {H : Type 0} (libc : Libc H) (s : Machine H) (bytes_count k p q old fresh : ℕ) (heap : H)
    (at_least_4 : 2 ≤ k) (small : k ≤ 12) (pos : 0 < fresh)
    (fits : fresh + (bytes_count + (2 ^ k + 15)) < 2 ^ 64)
    (got : libc.malloc s.heap (bytes_count + (2 ^ k + 15)) ≡ (fresh, heap)) (p_pos : 16 ≤ p)
    (p_fits : p + old < 2 ^ 64) (header : load64 s.mem (p - 16) ≡ q)
    (old_size : load64 s.mem (p - 16 + 8) ≡ old)
    (apart : (p + old ≤ fresh) ⊎ (fresh + (bytes_count + (2 ^ k + 15)) ≤ p - 16)) where
  block : Block libc s bytes_count (2 ^ k) fresh heap (alloc libc s bytes_count (2 ^ k))
  block = alloc-Block libc s bytes_count k fresh heap at_least_4 small pos fits got

  four : 4 ≤ 2 ^ k
  four = two_pow_mono 2 k at_least_4

  same : (b : ℕ) → p - 16 ≤ b → b < p + old → block.machine.mem b ≡ s.mem b
  same b lo hi = block.bytes b (ground (arith, block.within))

  abbrev moved : Mem
  moved = memmove block.machine.mem block.address p (min old bytes_count)

  kept : load64 moved (p - 16) ≡ q
  kept =
      load64-cong s.mem moved (p - 16) (λ b lo hi.
        memmove-out block.machine.mem block.address p (min old bytes_count) b
          (ground (arith, block.within, block.behind_header))
        ∙ same b lo (omega arith))
      ∙ header

  usable_p : get_usable_space libc block.machine p ≡ old
  unfolding get_usable_space
  usable_p =
      let at : u64 (sub64 p 16 + 8) ≡ p - 16 + 8 = omega arith in
      rw (ne→== p 0 (omega arith), at)
        (load64-cong s.mem block.machine.mem (p - 16 + 8)
            (λ b lo hi. block.bytes b (ground (arith, block.within, block.behind_header)))
          ∙ old_size)

  free_p :
      free libc (record block.machine { mem = moved }) p
      ≡ record { heap = libc.free heap q; mem = moved }
  unfolding free
  free_p =
      let at : sub64 p 16 ≡ p - 16 = omega arith in
      rw (ne→== p 0 (omega arith), at, kept, block.heap_same) refl

  -- `GenericAllocator::Realloc` of a block with its header, at an alignment from 4 to 4096 that is
  -- a power of two, if `malloc` returns a block within the address space that overlaps neither the
  -- old block nor its header: the new address is aligned, the first bytes, as many as the old and
  -- the new size have, are those of the old block, and the old block is handed to `free`.
  pub realloc-Resized :
      Resized libc s p q old bytes_count (2 ^ k) heap (realloc libc s p bytes_count (2 ^ k))
  unfolding realloc
  realloc-Resized = record {
    address = block.address;
    machine = record { heap = libc.free heap q; mem = moved };
    returns =
        rw
          (
            block.returns,
            ne→== block.address 0 (omega (arith, block.behind_header)),
            usable_p,
            ne→== p 0 (omega arith),
            free_p,
          )
          refl;
    old_freed = refl;
    aligned = block.aligned;
    copied = λ i h.
        memmove-copy block.machine.mem block.address p (min old bytes_count) i h
        ∙ same (p + i) (omega arith) (omega arith);
  }
