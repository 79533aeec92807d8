-- ===== src/Safety/Start.antt =====
-- `Allocator::Init` sets up a sound allocator with every block free.
use smmalloc.Prelude.{
  ◌⊎◌, inl, ℕ, ◌+◌, ◌-◌, ◌*◌, ◌%◌, ◌^◌, ◌≤◌, ◌<◌, ◌≡◌, refl, ◌∙◌, [], arith, inr, ap, some, Option,
  u64, ne→==, ltb, if_false,
}
use smmalloc.Memory.{Mem, load64, load64-cong}
use smmalloc.Align.{align, align_up}
use smmalloc.Pool.{null}
use smmalloc.Pool.Blocks.{blocks}
use smmalloc.Cache.{TlsPoolBucket}
use smmalloc.Cache.Inventory.{IsClosed, held_by}
use smmalloc.Generic.{Libc, Machine}
use smmalloc.Generic
use smmalloc.Generic.Block.{Block, alloc-Block, free-null}
use smmalloc.Sizes.{Partition, max_bucket_count}
use smmalloc.Allocator.{World, init, init_buckets, clamp_count, machine}
use smmalloc.Safety.Sound.{IsSound, blocks_in}
use smmalloc.Safety.Fill.{Filled, init_buckets-Filled}

-- A thread without a cache holds no block.
closed_holds : (t : TlsPoolBucket) (a : ℕ) → IsClosed t → held_by t [] a ≡ 0
closed_holds t a c = rw (c.l0_empty, c.l1_empty) refl

-- What `Init` returns, if `malloc` returned the block at `p`: the buckets asked for, within that
-- block, with all blocks free and none lent.
pub record Started {H : Type 0} (part : Partition) (count size p : ℕ) (heap : H) (m : Mem)
    (tls : ℕ → TlsPoolBucket) (out : Option (World H)) : Type 0 where
  pub world : World H
  pub returns : out ≡ some world
  pub buckets : world.buckets_count ≡ count
  pub bucket_bytes : world.bucket_size_in_bytes ≡ size
  pub in_block :
      (p < world.buffer) × (world.buffer + size * count ≤ p + (size * count + (2 ^ 12 + 15)))
  pub heap_same : world.heap ≡ heap
  pub same_tls : world.tls ≡ tls
  pub header : load64 world.mem (world.buffer - 16) ≡ p
  pub outside : (a : ℕ) → (a < p) ⊎ (p + (size * count + (2 ^ 12 + 15)) ≤ a) → world.mem a ≡ m a
  pub sound :
      IsSound part world (λ i. blocks (part.size_by_index i) 0 (blocks_in part world i)) (λ i. [])

module _ {H : Type 0} (part : Partition) (libc : Libc H) (w : World H) (fresh : w.buckets_count ≡ 0)
    (no_buffer : w.buffer ≡ null) (closed : (i : ℕ) → IsClosed (w.tls i)) (n bytes : ℕ)
    (pos : 0 < n) (n_max : n ≤ max_bucket_count) (some_bytes : 0 < bytes)
    (small : bytes + 2 ^ 12 ≤ 2 ^ 32 - 1)
    (within : (i : ℕ) → i < n → part.size_by_index i ≤ bytes) where
  abbrev size : ℕ
  size = align bytes (2 ^ 12)

  abbrev total : ℕ
  total = size * n

  rounded : (bytes ≤ size) × (size < bytes + 2 ^ 12) × (size % 2 ^ 12 ≡ 0)
  rounded = align_up 12 bytes (omega arith) (omega (arith, small))

  total_max : total ≤ size * 62
  total_max = grind (arith, n_max)

  clamped : clamp_count n ≡ n
  clamped = ground (arith, n_max)

  module _ (p : ℕ) (heap : H) (high : 4096 < p) (p_fits : p + (total + (2 ^ 12 + 15)) < 2 ^ 64)
      (got : libc.malloc w.heap (total + (2 ^ 12 + 15)) ≡ (p, heap)) where
    block :
        Block libc (machine w) total (2 ^ 12) p heap (Generic.alloc libc (machine w) total (2 ^ 12))
    block =
        alloc-Block libc (machine w) total 12 p heap (omega arith) (omega arith)
          (omega (arith, high)) p_fits got

    -- the world that the loop starts in
    abbrev laid_out : World H
    laid_out = record w {
      heap = block.machine.heap;
      mem = block.machine.mem;
      buckets_count = n;
      bucket_size_in_bytes = size;
      buckets_data_begin = λ i. null;
      buffer = block.address;
      buffer_end = block.address + total + 1;
    }

    reach : init part libc w n bytes ≡ init_buckets part n 0 laid_out
    unfolding init
    reach =
        let whole : u64 total ≡ total = omega (arith, total_max, rounded, small) in
        if_false _ _ _ (ap (ltb 0) fresh)
        ∙ if_false _ _ _ (ne→== n 0 (omega (arith, pos)))
        ∙ rw
            (
              clamped,
              whole,
              block.returns,
              no_buffer,
              free-null libc block.machine,
              ne→== block.address 0 (omega (arith, block.behind_header)),
            )
            refl

    filled :
        Filled part laid_out n_max
          (omega (arith, rounded, small))
          (omega (arith, block.within, p_fits))
          (λ i lt. omega (arith, within i lt, rounded))
          (init_buckets part n 0 laid_out)
    filled =
        init_buckets-Filled part laid_out n_max (omega (arith, rounded, small))
          (omega (arith, block.within, p_fits)) (λ i lt. omega (arith, within i lt, rounded)) n 0
          laid_out.mem laid_out.buckets laid_out.buckets_data_begin (omega arith)
          (λ h. absurd (omega (arith, h))) pos (λ j h. absurd (omega (arith, h))) (λ a out. refl)

    -- `Init` of an allocator without buckets, in a thread whose caches are not in use, for 1 to 62
    -- buckets of a positive number of bytes (below 4 GB when rounded up to pages) each of which
    -- holds one of its elements or more, ends if `malloc` returns a block above the first page
    -- that lies within the address space. The buffer is inside that block, the header before it
    -- names the block, and no byte outside it is written; the allocator is sound, with every block
    -- free.
    pub init-Started : Started part n size p heap w.mem w.tls (init part libc w n bytes)
    init-Started = record {
      world = record laid_out {
        mem = filled.mem;
        buckets = filled.buckets;
        buckets_data_begin = filled.begins;
      };
      returns = reach ∙ filled.returns;
      buckets = refl;
      bucket_bytes = refl;
      in_block = (omega (arith, block.behind_header), block.within);
      heap_same = block.heap_same;
      same_tls = refl;
      header =
          load64-cong block.machine.mem filled.mem (block.address - 16)
            (λ a lo hi. filled.outside a (inl (omega (arith, hi, block.behind_header))))
          ∙ block.header;
      outside = λ a out.
          filled.outside a (ground (arith, out, block.within, block.behind_header))
          ∙ block.bytes a (ground (arith, out, block.within, block.behind_header));
      sound = record {
        up = record {
          count_pos = pos;
          count_max = n_max;
          size_pos = omega (arith, rounded, some_bytes);
          size_small = omega (arith, rounded, small);
          size_page = rounded.2;
          page = block.aligned;
          high = omega (arith, block.behind_header, high);
          fits = omega (arith, block.within, p_fits);
          begin = filled.begin;
          end = refl;
        };
        within = λ i lt. omega (arith, within i lt, rounded);
        bucket = λ i lt.
            let f = filled.all_free i lt in
            record {
              at = f.at;
              tag_fits = f.tag_fits;
              chain = f.chain;
              stock = λ a. omega (arith, f.stock a, closed_holds (w.tls i) a (closed i));
            };
        cache = λ i lt. inr (closed i);
      };
    }
