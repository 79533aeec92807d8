-- ===== src/Safety/Own.antt =====
-- A bucket serves the requests for its elements until all its blocks are lent.
use smmalloc.Prelude.{
  ℕ, zero, suc, ◌+◌, ◌^◌, ◌≤◌, ◌<◌, ◌≡◌, refl, ap, List, [], ◌∷◌, arith, count, length,
  length-of_counts, some, take, Bool,
}
use smmalloc.Cache.{alloc_from_cache}
use smmalloc.Align.{align}
use smmalloc.Pool.Blocks.{blocks}
use smmalloc.Cache.Inventory.{alloc_from_cache-Popped, hit, miss}
use smmalloc.Generic.{Libc}
use smmalloc.Generic.Block.{grain}
use smmalloc.Sizes.{Partition}
use smmalloc.Allocator.{World, allocate}
use smmalloc.Safety.Sound.{IsSound, base_of, blocks_in}
use smmalloc.Safety.Buckets.{Served}
use smmalloc.Safety.Allocation.{Served-hit, Served-free}

pub length-blocks : (size o n : ℕ) → length (blocks size o n) ≡ n
unfolding blocks
length-blocks size o zero = refl
length-blocks size o (suc n) = ap suc (length-blocks size (o + size) n)

none_taken : (n : ℕ) (xs : List ℕ) (z : ℕ) → n ≡ 0 → count z (take n xs) ≡ 0
none_taken n xs z e = rw e refl

module _ {H : Type 0} (part : Partition) (libc : Libc H) (e : Bool) (bytes k : ℕ) (pos : 0 < bytes)
    (small : k ≤ 12) (exact : bytes + 2 ^ k ≤ part.limit)
    (fits : bytes + (2 ^ grain k + 15) < 2 ^ 64) (free lent : ℕ → List ℕ) (w : World H)
    (sound : IsSound part w free lent) where
  abbrev own : ℕ
  own = part.index_by_size (align bytes (2 ^ k))

  abbrev OwnServed : Type 0
  OwnServed =
      (s : Served part w lent bytes k (allocate part libc e w bytes (2 ^ k))) × (s.index ≡ own)

  -- own
  pub allocate-Served :
      own < w.buckets_count
      → length (lent own) < blocks_in part w own
      → (s : Served part w lent bytes k (allocate part libc e w bytes (2 ^ k))) × (s.index ≡ own)
  allocate-Served lt left =
      elim (alloc_from_cache-Popped own (base_of part w own) (w.tls own) (sound.cache own lt)) [
        | hit o t returns is_open same took ↦
            Served-hit part libc e bytes k pos small exact fits free lent w sound lt o t returns
              is_open took
        | miss returns no_l0 no_l1 ↦ by_free (free own) refl returns no_l0 no_l1
      ]
    where
      by_free :
          (xs : List ℕ)
          → free own ≡ xs
          → alloc_from_cache (w.tls own) ≡ some (0, w.tls own)
          → (w.tls own).num_elements_l0 ≡ 0
          → (w.tls own).num_elements_l1 ≡ 0
          → OwnServed
      by_free (o ∷ xs) eq returns no_l0 no_l1 =
          Served-free part libc e bytes k pos small exact fits free lent w sound lt returns o xs eq
      by_free [] eq returns no_l0 no_l1 =
          let total =
            length-of_counts (free own) (lent own)
              (blocks (part.size_by_index own) 0 (blocks_in part w own))
              (λ z. omega (
                arith,
                (sound.bucket own lt).stock z,
                none_taken (w.tls own).num_elements_l0 (w.tls own).storage_l0 z no_l0,
                none_taken (w.tls own).num_elements_l1 (w.tls own).cells_l1 z no_l1,
              )) in
          absurd (
            omega (
              arith,
              total,
              left,
              ap length eq,
              length-blocks (part.size_by_index own) 0 (blocks_in part w own),
            ))
