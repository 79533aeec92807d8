-- ===== src/Client/Runs.antt =====
-- The steps of a program that uses an allocator, and the runs made of them.
use smmalloc.Prelude.{ℕ, ◌+◌, ◌^◌, ◌<◌, ◌≤◌, ◌≡◌, ◌≢◌, ◌⊎◌, true, some, List, [], ◌∷◌, get_elem?}
use smmalloc.Memory.{Mem}
use smmalloc.Pool.{null}
use smmalloc.Generic.{Libc}
use smmalloc.Generic.Block.{grain}
use smmalloc.Sizes.{Partition}
use smmalloc.Allocator.{World, allocate}
use smmalloc.Allocator
use smmalloc.Client.Lists.{remove_at, Extent}

-- The allocator, and the blocks that the program holds: address and size asked for.
pub record Client (H : Type 0) : Type 0 where
  pub world : World H
  pub held : List Extent

-- The byte at `a` is in no block of the list.
abbrev pub Outside : ℕ → List Extent → Type 0
Outside a [] = Unit {0}
Outside a ((p, n) ∷ hs) = ((a < p) ⊎ (p + n ≤ a)) × Outside a hs

-- What a program may ask for: some bytes at an alignment up to 4096 that is a power of two, at
-- sizes that neither the scheme nor the added header overflows.
pub record IsRequest (part : Partition) (bytes k : ℕ) : Type 0 where
  pub some_bytes : 0 < bytes
  pub at_most_4096 : k ≤ 12
  pub exact : bytes + 2 ^ k ≤ part.limit
  pub fits : bytes + (2 ^ grain k + 15) < 2 ^ 64

module _ {H : Type 0} (part : Partition) (libc : Libc H) where
  pub data Step (c : Client H) : Client H → Type 0 where
    allocates :
        (bytes k p : ℕ) (world : World H)
        → IsRequest part bytes k
        → allocate part libc true c.world bytes (2 ^ k) ≡ some (p, world)
        → p ≢ null
        → Step c (record { world = world; held = (p, bytes) ∷ c.held })
    fails :
        (bytes k : ℕ) (world : World H)
        → IsRequest part bytes k
        → allocate part libc true c.world bytes (2 ^ k) ≡ some (null, world)
        → Step c (record { world = world; held = c.held })
    frees :
        (n p bytes : ℕ) (world : World H)
        → get_elem? c.held n ≡ some (p, bytes)
        → Allocator.free libc c.world p ≡ some world
        → Step c (record { world = world; held = remove_at n c.held })
    resizes :
        (n p m bytes k q : ℕ) (world : World H)
        → get_elem? c.held n ≡ some (p, m)
        → IsRequest part bytes k
        → Allocator.realloc libc part c.world p bytes (2 ^ k) ≡ some (q, world)
        → q ≢ null
        → Step c (record { world = world; held = (q, bytes) ∷ remove_at n c.held })
    keeps_old :
        (n p m bytes k : ℕ) (world : World H)
        → get_elem? c.held n ≡ some (p, m)
        → IsRequest part bytes k
        → Allocator.realloc libc part c.world p bytes (2 ^ k) ≡ some (null, world)
        → Step c (record { world = world; held = c.held })
    writes :
        (m : Mem)
        → ((a : ℕ) → Outside a c.held → m a ≡ c.world.mem a)
        → Step c (record { world = record c.world { mem = m }; held = c.held })

  pub data Reach (start : Client H) : Client H → Type 0 where
    begins : Reach start start
    goes_on : {c d : Client H} → Reach start c → Step c d → Reach start d
