-- ===== src/Client/Resizes.antt =====
-- `Realloc` of a held block: what it returns, what it keeps, and what becomes of the old block.
pub mod Carries
pub mod Buckets
pub mod Chunks
pub mod Answers
use smmalloc.Prelude.{
  ℕ, ◌+◌, ◌%◌, ◌^◌, ◌<◌, ◌≡◌, ◌≢◌, ◌⊎◌, true, Option, none, some, List, ◌∷◌, min,
}
use smmalloc.Align.{align}
use smmalloc.Pool.{null}
use smmalloc.Generic.{Libc}
use smmalloc.Sizes.{Partition}
use smmalloc.Allocator.{World, allocate}
use smmalloc.Client.Lists.{Extent, remove_at}
use smmalloc.Client.Heap.{LibcSpec}
use smmalloc.Client.Runs.{Client}
use smmalloc.Client.Invariant.{Inv}
use smmalloc.Client.Frees.{Keeps}

-- What `Realloc` of the `n`-th held block, at `p` and of `m` bytes, to `bytes` bytes returns.
pub data Reallocated {H : Type 0} (part : Partition) {libc : Libc H} (spec : LibcSpec libc)
    (others : List Extent) (c : Client H) (n p m bytes k : ℕ) (out : Option (ℕ × World H))
    : Type 0 where
  -- A block that is held in place of the old one, with its bytes: the same one, or an aligned one.
  resized :
      (q : ℕ) (world : World H)
      → out ≡ some (q, world)
      → q ≢ null
      → (q ≡ p) ⊎ (q % 2 ^ k ≡ 0)
      → Inv part spec others (record { world = world; held = (q, bytes) ∷ remove_at n c.held })
      → Keeps c.world world (remove_at n c.held)
      → ((i : ℕ) → i < m → i < bytes → world.mem (q + i) ≡ c.world.mem (p + i))
      → Reallocated part spec others c n p m bytes k out
  -- No memory: null, and the old block is held as before.
  unchanged :
      (world : World H)
      → out ≡ some (null, world)
      → Inv part spec others (record { world = world; held = c.held })
      → Keeps c.world world c.held
      → Reallocated part spec others c n p m bytes k out
  -- No memory for a request that a bucket should serve, when the old block is not of a bucket:
  -- `memmove` to null.
  lost :
      (world : World H)
      → allocate part libc true c.world bytes (2 ^ k) ≡ some (null, world)
      → part.index_by_size (align bytes (2 ^ k)) < c.world.buckets_count
      → out ≡ none
      → Reallocated part spec others c n p m bytes k out
