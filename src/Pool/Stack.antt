-- ===== src/Pool/Stack.antt =====
-- `Alloc` and `FreeInterval` pop and push the stack of free blocks.
use smmalloc.Prelude.{ℕ, ◌+◌, ◌-◌, ◌^◌, ◌<◌, ◌≡◌, some, List, [], ◌∷◌, ◌++◌, arith, u32, sub64}
use smmalloc.Memory.{Mem, load64, store64}
use smmalloc.Pool.{null, PoolBucket, pack, alloc, free_interval}
use smmalloc.Pool.Chain.{Chain, Links, last, AllApart, Chain-join, Chain-lt}

-- What `FreeInterval` leaves of the bucket.
abbrev pub pushed : PoolBucket → ℕ → PoolBucket
pushed b o = record b { global_tag = u32 (b.global_tag + 1); head = pack b.global_tag o }

module _ (m : Mem) (b : PoolBucket) (base : ℕ) (at : b.data_begin ≡ base) where
  -- With no block free `Alloc` returns null and changes nothing.
  pub alloc-empty : Chain m base b.head [] → alloc m b ≡ some (null, b)
  unfolding alloc
  alloc-empty c = ground arith

  -- If the list of free blocks begins with a block, `PoolBucket::Alloc` returns its address, and
  -- the new head is the word in that block.
  pub alloc-pop :
      (o : ℕ) (xs : List ℕ)
      → Chain m base b.head (o ∷ xs)
      → alloc m b ≡ some (base + o, record b { head = load64 m (base + o) })
  unfolding alloc
  alloc-pop o xs c = ground arith

  module _ (o : ℕ) (small : o < 2 ^ 32 - 1) where
    pub free_interval_lem :
        (tail : ℕ) → free_interval m b (base + o) tail ≡ some (store64 m tail b.head, pushed b o)
    unfolding free_interval
    free_interval_lem tail =
        let at : u32 (sub64 (base + o) b.data_begin) ≡ o = omega arith in rw at (ground arith)

    -- `FreeInterval` of a sequence of blocks that are linked from the first to the last, none of
    -- which overlaps another or a free one, puts them in front of the bucket's list of free
    -- blocks: the list from the new head is the sequence and then the old list.
    pub free_interval-Chain :
        (ys xs : List ℕ)
        → b.global_tag < 2 ^ 32
        → AllApart (o ∷ ys ++ xs)
        → Links m base o ys
        → Chain m base b.head xs
        → Chain (store64 m (base + last o ys) b.head) base (pushed b o).head (o ∷ ys ++ xs)
    free_interval-Chain ys xs tag apart links c =
        Chain-join m base (pack b.global_tag o) b.head o ys xs apart (omega arith) (omega arith)
          (Chain-lt m base b.head xs c) links c
