-- ===== src/CApi/Lifetime.antt =====
-- An allocator that is created is sound, and one that is destroyed gives back what it asked for.
use smmalloc.Prelude.{
  ℕ, ◌+◌, ◌-◌, ◌*◌, ◌%◌, ◌^◌, ◌≤◌, ◌<◌, ◌≡◌, ◌⊎◌, refl, ◌∙◌, arith, [], Option, some, ne→==,
}
use smmalloc.Memory.{Mem, load64, load64-cong}
use smmalloc.Align.{align}
use smmalloc.Pool.Blocks.{blocks}
use smmalloc.Cache.{TlsPoolBucket}
use smmalloc.Cache.Inventory.{IsClosed}
use smmalloc.Generic.{Libc, Machine}
use smmalloc.Generic
use smmalloc.Generic.Block.{Block, alloc-Block, free-header}
use smmalloc.Sizes.{Partition, max_bucket_count}
use smmalloc.Allocator.{World, construct, init, machine}
use smmalloc.CApi.{sm_allocator_create, sm_allocator_destroy}
use smmalloc.Safety.Sound.{IsSound, blocks_in}
use smmalloc.Safety.Start.{Started, init-Started}

-- The words of the header before `address` are the same in both memories.
abbrev pub SameHeader : Mem → Mem → ℕ → Type 0
SameHeader m m' address = (a : ℕ) → address - 16 ≤ a → a < address → m' a ≡ m a

-- What `_sm_allocator_create` returns, if `malloc` returned the block at `p` for the allocator, and
-- then the block at `q` for its buffer.
pub record Life {H : Type 0} (part : Partition) (libc : Libc H) (sizeof_allocator n bytes p q : ℕ)
    (tls : ℕ → TlsPoolBucket) (heap : H) (out : Option (ℕ × World H)) : Type 0 where
  pub address : ℕ
  pub world : World H
  pub returns : out ≡ some (address, world)
  pub aligned : address % 64 ≡ 0
  pub room : (p + 16 ≤ address) × (address + sizeof_allocator ≤ p + (sizeof_allocator + 79))
  pub buckets : world.buckets_count ≡ n
  pub sound :
      IsSound part world (λ i. blocks (part.size_by_index i) 0 (blocks_in part world i)) (λ i. [])
  pub allocator_header : load64 world.mem (address - 16) ≡ p
  pub bucket_bytes : world.bucket_size_in_bytes ≡ align bytes (2 ^ 12)
  pub in_block :
      (q < world.buffer)
      × (world.buffer + align bytes (2 ^ 12) * n ≤ q + (align bytes (2 ^ 12) * n + (2 ^ 12 + 15)))
  pub heap_same : world.heap ≡ heap
  pub same_tls : world.tls ≡ tls
  pub buffer_header : load64 world.mem (world.buffer - 16) ≡ q

module _ {H : Type 0} (part : Partition) (libc : Libc H) (s : Machine H) (tls : ℕ → TlsPoolBucket)
    (closed : (i : ℕ) → IsClosed (tls i)) (sizeof_allocator n bytes : ℕ) (pos : 0 < n)
    (n_max : n ≤ max_bucket_count) (some_bytes : 0 < bytes) (small : bytes + 2 ^ 12 ≤ 2 ^ 32 - 1)
    (within : (i : ℕ) → i < n → part.size_by_index i ≤ bytes) where
  abbrev pub total : ℕ
  total = align bytes (2 ^ 12) * n

  module _ (p q : ℕ) (h1 h2 : H) (p_pos : 0 < p) (p_fits : p + (sizeof_allocator + 79) < 2 ^ 64)
      (p_got : libc.malloc s.heap (sizeof_allocator + 79) ≡ (p, h1)) (q_high : 4096 < q)
      (q_fits : q + (total + (2 ^ 12 + 15)) < 2 ^ 64)
      (q_got : libc.malloc h1 (total + (2 ^ 12 + 15)) ≡ (q, h2))
      (apart : (p + (sizeof_allocator + 79) ≤ q) ⊎ (q + (total + (2 ^ 12 + 15)) ≤ p)) where
    block :
        Block libc s sizeof_allocator (2 ^ 6) p h1 (Generic.alloc libc s sizeof_allocator (2 ^ 6))
    block =
        alloc-Block libc s sizeof_allocator 6 p h1 (omega arith) (omega arith) p_pos p_fits p_got

    abbrev blank : World H
    blank = record (construct block.machine.heap block.machine.mem) { tls = tls }

    started :
        Started part n
          (align bytes (2 ^ 12))
          q
          h2
          block.machine.mem
          tls
          (init part libc blank n bytes)
    unfolding construct
    started =
        init-Started part libc blank refl refl closed n bytes pos n_max some_bytes small within q h2
          q_high q_fits (rw block.heap_same q_got)

    align_64 : align 64 64 ≡ 2 ^ 6
    unfolding align
    align_64 = refl

    created :
        sm_allocator_create libc part sizeof_allocator s tls n bytes
        ≡ some (block.address, started.world)
    unfolding sm_allocator_create
    created =
        rw
          (
            align_64,
            block.returns,
            ne→== block.address 0 (omega (arith, block.behind_header)),
            started.returns,
          )
          refl

    allocator_header : load64 started.world.mem (block.address - 16) ≡ p
    allocator_header =
        load64-cong block.machine.mem started.world.mem (block.address - 16) (λ a lo hi.
          started.outside a (ground (arith, apart, lo, hi, block.behind_header, block.within)))
        ∙ block.header

    -- `_sm_allocator_create`, for 1 to 62 buckets of a positive number of bytes (below 4 GB when
    -- rounded up to pages) each of which holds one of its elements or more, in a thread whose
    -- caches are not in use, ends if `malloc` returns two blocks within the address space that do
    -- not overlap, the second above the first page. The allocator is at an address of a multiple
    -- of 64 inside the first block, has the buckets asked for, and is sound with no block lent;
    -- the headers before it and before its buffer name the two blocks.
    pub create-Life :
        Life part libc sizeof_allocator n bytes p q tls h2
          (sm_allocator_create libc part sizeof_allocator s tls n bytes)
    create-Life = record {
      address = block.address;
      world = started.world;
      returns = created;
      aligned = block.aligned;
      room = (block.behind_header, block.within);
      buckets = started.buckets;
      sound = started.sound;
      allocator_header = allocator_header;
      bucket_bytes = started.bucket_bytes;
      in_block = started.in_block;
      heap_same = started.heap_same;
      same_tls = started.same_tls;
      buffer_header = started.header;
    }

-- If an allocator was created, and the headers before it and before its buffer have the bytes they
-- had then, then `_sm_allocator_destroy` hands both blocks of `malloc` back to `free`, that of the
-- buffer first.
pub create-destroy :
    {H : Type 0} (part : Partition) (libc : Libc H) (sizeof_allocator n bytes p q : ℕ)
    (tls : ℕ → TlsPoolBucket) (heap : H) (out : Option (ℕ × World H))
    (life : Life part libc sizeof_allocator n bytes p q tls heap out) (later : World H)
    → p + (sizeof_allocator + 79) < 2 ^ 64
    → later.buffer ≡ life.world.buffer
    → SameHeader life.world.mem later.mem life.world.buffer
    → SameHeader life.world.mem later.mem life.address
    → (sm_allocator_destroy libc later life.address).heap ≡ libc.free (libc.free later.heap q) p
unfolding sm_allocator_destroy
create-destroy part libc sizeof_allocator n bytes p q tls heap out life later fits same
      buffer_header own_header =
    let buffer_word : load64 later.mem (later.buffer - 16) ≡ q = rw same (
      load64-cong life.world.mem later.mem (life.world.buffer - 16)
        (λ a lo hi. buffer_header a lo (omega (arith, hi, life.sound.up)))
      ∙ life.buffer_header) in
    let own_word : load64 later.mem (life.address - 16) ≡ p =
      load64-cong life.world.mem later.mem (life.address - 16)
        (λ a lo hi. own_header a lo (omega (arith, hi, life.room)))
      ∙ life.allocator_header in
    let freed = record (machine later) { heap = libc.free later.heap q } in
    rw
      (
        ne→== life.address 0 (omega (arith, life.room)),
        ne→== later.buffer 0 (omega (arith, life.sound.up, same)),
        free-header libc (machine later) later.buffer q (omega (arith, life.sound.up, same))
            (omega (arith, same, life.sound.up)) buffer_word,
        free-header libc freed life.address p (omega (arith, life.room))
            (omega (arith, life.room, fits)) own_word,
      )
      refl
