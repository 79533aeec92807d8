-- ===== src/Client/Usable.antt =====
-- `GetUsableSize` of a held block, in a bucket or from `malloc`, covers the bytes asked for.
use smmalloc.Prelude.{ℕ, ◌≤◌, ◌≡◌, some, List, get_elem?}
use smmalloc.Generic.{Libc}
use smmalloc.Sizes.{Partition}
use smmalloc.Allocator.{get_usable_size}
use smmalloc.Client.Lists.{Extent}
use smmalloc.Client.Heap.{LibcSpec}
use smmalloc.Client.Runs.{Client, Reach}
use smmalloc.Client.Invariant.{Inv}
use smmalloc.Client.Usage.{reach-Inv}
use smmalloc.Client.Covers.{Inv-Covers}

-- In every state that a program reaches from one where the invariant holds, `GetUsableSize` of the
-- address of a held block, be it of a bucket or of the generic allocator, ends and is at least the
-- bytes asked for. The program calls `Allocate` and `Realloc` only for requests, that is for one
-- byte or more, at an alignment up to 4096 that is a power of two, at sizes that neither the
-- scheme nor the added header overflows; it frees and resizes only blocks that it holds, and
-- writes only into bytes that it holds. `malloc` returns null or a block above the first page and
-- within the address space that overlaps none that is allocated.
pub get_usable_size-allocate :
    {H : Type 0} (part : Partition) {libc : Libc H} (spec : LibcSpec libc) (others : List Extent)
    (start d : Client H) (reach : Reach part libc start d) (inv : Inv part spec others start)
    (n a b : ℕ)
    → get_elem? d.held n ≡ some (a, b)
    → (m : ℕ) × (get_usable_size part libc d.world a ≡ some m) × (b ≤ m)
get_usable_size-allocate part spec others start d reach inv n a b at =
    Inv-Covers part spec others d (reach-Inv part spec others start d reach inv) n a b at
