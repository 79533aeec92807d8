-- ===== src/Generic/Block.antt =====
-- `GenericAllocator::Alloc`, `Free` and `GetUsableSpace`: blocks are aligned and lie behind their
-- header within what `malloc` returned.
use smmalloc.Prelude.{
  zero, suc, false, ltb, if◌then◌else◌, ℕ, ◌+◌, ◌-◌, ◌*◌, ◌/◌, ◌%◌, ◌^◌, ◌≤◌, ◌<◌, ◌≡◌, refl, ◌⊎◌,
  inl, ◌∙◌, arith, u64, sub64, not64, bit_and, bit_and_high, two_pow_pos, two_pow_mono, ne→==,
  le→ltb,
}
use native.Mathlib.Nat.{mod-lt, div-add-mod', mul-mod_left}
use smmalloc.Memory.{Mem, load64, store64, load64-store64, load64-store64_apart, store64-out}
use smmalloc.Align.{pow_mask}
use smmalloc.Pool.{null}
use smmalloc.Generic.{
  Libc, Machine, clamp_alignment, sizeof_header, overhead, alloc, free, get_usable_space,
}

-- What `Alloc` returns, if `malloc` returned the block at `p` and the state `heap`.
pub record Block {H : Type 0} (libc : Libc H) (s : Machine H) (bytes_count a p : ℕ) (heap : H)
    (out : ℕ × Machine H) : Type 0 where
  pub address : ℕ
  pub machine : Machine H
  pub returns : out ≡ (address, machine)
  pub heap_same : machine.heap ≡ heap
  pub aligned : address % a ≡ 0
  pub behind_header : p + sizeof_header ≤ address
  pub within : address + bytes_count ≤ p + (bytes_count + (a + 15))
  pub usable : get_usable_space libc machine address ≡ bytes_count
  pub frees :
      (later : H)
      → free libc (record machine { heap = later }) address
        ≡ record machine { heap = libc.free later p }
  pub header : load64 machine.mem (address - 16) ≡ p
  pub asked : load64 machine.mem (address - 16 + 8) ≡ bytes_count
  pub bytes : (b : ℕ) → (b < p) ⊎ (address ≤ b) → machine.mem b ≡ s.mem b

module _ {H : Type 0} (libc : Libc H) (s : Machine H) (bytes_count k p : ℕ) (heap : H) where
  -- the address behind the header, at an alignment of at least four
  module _ (at_least_4 : 2 ≤ k) (small : k ≤ 12) (pos : 0 < p) (word : bytes_count < 2 ^ 64)
      (fits : p + (2 ^ k + 15) < 2 ^ 64)
      (got : libc.malloc s.heap (u64 (bytes_count + (2 ^ k + 15))) ≡ (p, heap)) where
    four : 4 ≤ 2 ^ k
    four = two_pow_mono 2 k at_least_4

    few : 2 ^ k ≤ 4096
    few = two_pow_mono k 12 small

    x : ℕ
    x = p + (2 ^ k + 15)

    p2 : ℕ
    p2 = x / 2 ^ k * 2 ^ k

    address : bit_and (u64 (p + (2 ^ k + 15))) (not64 (sub64 (2 ^ k) 1)) ≡ p2
    unfolding p2 x
    address =
        let whole : u64 (p + (2 ^ k + 15)) ≡ p + (2 ^ k + 15) = omega (arith, four, fits) in
        rw (whole, pow_mask k (omega arith))
          (bit_and_high k (p + (2 ^ k + 15)) (omega arith) (omega (arith, four, fits)))

    abbrev mem' : Mem
    mem' = store64 (store64 s.mem (p2 - 16) p) (p2 - 16 + 8) bytes_count

    abbrev machine' : Machine H
    machine' = record { heap = heap; mem = mem' }

    p2_bounds : (p + 16 ≤ p2) × (p2 ≤ p + (2 ^ k + 15))
    unfolding p2 x
    p2_bounds = (
      omega (
        arith,
        div-add-mod' (p + (2 ^ k + 15)) (2 ^ k),
        mod-lt (p + (2 ^ k + 15)) (two_pow_pos k),
      ),
      omega (arith, div-add-mod' (p + (2 ^ k + 15)) (2 ^ k)),
    )

    alloc_returns : alloc libc s bytes_count (2 ^ k) ≡ (p2, machine')
    unfolding alloc
    alloc_returns =
        let clamped : clamp_alignment (2 ^ k) ≡ 2 ^ k = rw (le→ltb (2 ^ k) 4 four) refl in
        let over : overhead (2 ^ k) ≡ 2 ^ k + 15 = omega (arith, four, few) in
        let header : sub64 p2 16 ≡ p2 - 16 = omega (arith, p2_bounds, fits) in
        let second : u64 (p2 - 16 + 8) ≡ p2 - 16 + 8 = omega (arith, p2_bounds, fits) in
        rw (clamped, over, got, ne→== p 0 (omega (arith, pos)), address, header, second) refl

    -- `Alloc`, whether the sum of the size asked for and of the room for the header wraps or not
    placed-Block : Block libc s bytes_count (2 ^ k) p heap (alloc libc s bytes_count (2 ^ k))
    unfolding get_usable_space free
    placed-Block = record {
      address = p2;
      machine = machine';
      returns = alloc_returns;
      heap_same = refl;
      aligned = unfold p2 in mul-mod_left (x / 2 ^ k) (2 ^ k);
      behind_header = p2_bounds.0;
      within = omega (arith, p2_bounds);
      usable =
          let at : u64 (sub64 p2 16 + 8) ≡ p2 - 16 + 8 = omega (arith, p2_bounds, fits) in
          rw (ne→== p2 0 (omega (arith, p2_bounds)), at) second_word;
      frees = λ later.
          let at : sub64 p2 16 ≡ p2 - 16 = omega (arith, p2_bounds, fits) in
          rw (ne→== p2 0 (omega (arith, p2_bounds)), at, first_word) refl;
      header = first_word;
      asked = second_word;
      bytes = λ b out.
          store64-out (store64 s.mem (p2 - 16) p) (p2 - 16 + 8) bytes_count b (beyond b out)
          ∙ store64-out s.mem (p2 - 16) p b (beyond_first b out);
    }
      where
        first_word : load64 mem' (p2 - 16) ≡ p
        first_word =
            load64-store64_apart (store64 s.mem (p2 - 16) p) (p2 - 16 + 8) bytes_count (p2 - 16)
              (inl (omega arith))
            ∙ load64-store64 s.mem (p2 - 16) p (omega (arith, fits))

        second_word : load64 mem' (p2 - 16 + 8) ≡ bytes_count
        second_word = load64-store64 (store64 s.mem (p2 - 16) p) (p2 - 16 + 8) bytes_count word

        beyond : (b : ℕ) → (b < p) ⊎ (p2 ≤ b) → (b < p2 - 16 + 8) ⊎ (p2 - 16 + 8 + 8 ≤ b)
        beyond b out = ground (arith, p2_bounds)

        beyond_first : (b : ℕ) → (b < p) ⊎ (p2 ≤ b) → (b < p2 - 16) ⊎ (p2 - 16 + 8 ≤ b)
        beyond_first b out = ground (arith, p2_bounds)

  module _ (at_least_4 : 2 ≤ k) (small : k ≤ 12) (pos : 0 < p)
      (fits : p + (bytes_count + (2 ^ k + 15)) < 2 ^ 64)
      (got : libc.malloc s.heap (bytes_count + (2 ^ k + 15)) ≡ (p, heap)) where
    -- `GenericAllocator::Alloc` at an alignment from 4 to 4096 that is a power of two, if `malloc`
    -- returns a block other than null for the request, within the address space: the address is
    -- aligned, has room for the header before it and for the bytes behind it within the block;
    -- `GetUsableSpace` of it is the size asked for; `Free` of it hands the block back to `free`;
    -- and no byte before the block of `malloc`, or from the address on, is written.
    pub alloc-Block : Block libc s bytes_count (2 ^ k) p heap (alloc libc s bytes_count (2 ^ k))
    alloc-Block =
        let whole : u64 (bytes_count + (2 ^ k + 15)) ≡ bytes_count + (2 ^ k + 15) =
          omega (arith, fits) in
        placed-Block at_least_4 small pos (omega (arith, fits)) (omega (arith, fits)) (rw whole got)

  -- `GenericAllocator::Alloc` at an alignment from 4 to 4096 that is a power of two, if the size
  -- asked for is below `2 ^ 64` but not with the room for the header, and if `malloc` returns a
  -- block other than null for the sum modulo `2 ^ 64`, with that room within the address space: it
  -- does not fail, but returns an aligned address behind the header, of which `GetUsableSpace` is
  -- the size asked for and which `Free` hands back, while that many bytes from the address on
  -- reach beyond the block of `malloc`.
  pub alloc_wraps :
      2 ≤ k
      → k ≤ 12
      → 0 < p
      → bytes_count < 2 ^ 64
      → 2 ^ 64 ≤ bytes_count + (2 ^ k + 15)
      → p + (2 ^ k + 15) < 2 ^ 64
      → libc.malloc s.heap (bytes_count + (2 ^ k + 15) - 2 ^ 64) ≡ (p, heap)
      → (block : Block libc s bytes_count (2 ^ k) p heap (alloc libc s bytes_count (2 ^ k))) × (p
            + (bytes_count + (2 ^ k + 15) - 2 ^ 64)
          < block.address + bytes_count)
  alloc_wraps lo hi pos word wraps fits got =
      let few : 2 ^ k ≤ 4096 = two_pow_mono k 12 hi in
      let rest : u64 (bytes_count + (2 ^ k + 15)) ≡ bytes_count + (2 ^ k + 15) - 2 ^ 64 =
        omega (arith, word, wraps, few) in
      let block = placed-Block lo hi pos word fits (rw rest got) in
      (block, omega (arith, block.behind_header, wraps, few))

-- `Free` of the block at `a`, whose header names the block of `malloc` at `q`.
pub free-header :
    {H : Type 0} (libc : Libc H) (s : Machine H) (a q : ℕ)
    → 16 ≤ a
    → a < 2 ^ 64
    → load64 s.mem (a - 16) ≡ q
    → free libc s a ≡ record s { heap = libc.free s.heap q }
unfolding free
free-header libc s a q low high header =
    let at : sub64 a 16 ≡ a - 16 = omega arith in
    rw (ne→== a 0 (omega (arith, low)), at, header) refl

pub free-null : {H : Type 0} (libc : Libc H) (s : Machine H) → free libc s null ≡ s
unfolding free
free-null libc s = refl

module _ {H : Type 0} (libc : Libc H) (s : Machine H) (bytes_count a : ℕ) (heap : H) where
  -- If `malloc` fails, so does `Alloc`, and it writes nothing.
  pub alloc-null :
      libc.malloc s.heap (u64 (bytes_count + overhead (clamp_alignment a))) ≡ (0, heap)
      → alloc libc s bytes_count a ≡ (null, record s { heap = heap })
  unfolding alloc
  alloc-null got = rw got refl

-- The exponent of the alignment that `Alloc` uses for `2 ^ k`: four bytes at least.
abbrev pub grain : ℕ → ℕ
grain k = if ltb k 2 then 2 else k

pub grain_bounds : (k : ℕ) → k ≤ 12 → (2 ≤ grain k) × (k ≤ grain k) × (grain k ≤ 12)
grain_bounds k small = ground arith

pub mod-grain : (k x : ℕ) → x % 2 ^ grain k ≡ 0 → x % 2 ^ k ≡ 0
mod-grain zero x e = omega arith
mod-grain (suc zero) x e = omega (arith, e)
mod-grain (suc (suc k)) x e =
    let big : ltb (suc (suc k)) 2 ≡ false = le→ltb (suc (suc k)) 2 (omega arith) in rw big at e

pub alloc-grain :
    {H : Type 0} (libc : Libc H) (s : Machine H) (bytes_count k : ℕ)
    → alloc libc s bytes_count (2 ^ k) ≡ alloc libc s bytes_count (2 ^ grain k)
unfolding alloc
alloc-grain libc s bytes_count zero = refl
alloc-grain libc s bytes_count (suc zero) = refl
alloc-grain libc s bytes_count (suc (suc k)) =
    let big : ltb (suc (suc k)) 2 ≡ false = le→ltb (suc (suc k)) 2 (omega arith) in rw big refl
