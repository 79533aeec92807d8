-- ===== src/Pool/Create.antt =====
-- `Create` threads the blocks of a bucket, in order, into its list of free blocks.
use smmalloc.Prelude.{
  ℕ, zero, suc, ◌+◌, ◌-◌, ◌^◌, ◌≤◌, ◌<◌, ◌≡◌, ◌⊎◌, some, Option, inl, ap, ◌∙◌, le→leb, lt→leb,
  arith, u32, sub64,
}
use smmalloc.Memory.{Mem, load64, store64, load64-cong, load64-store64, store64-out}
use smmalloc.Pool.{PoolBucket, invalid, pack, offset_of, create_loop, create}
use smmalloc.Pool.Chain.{Chain}
use smmalloc.Pool.Blocks.{blocks, block_count, Room, Room-le, Room-block_count}

-- What the loop has built when it stops, started at offset `o` with `n` blocks to follow.
record Built (m : Mem) (b : PoolBucket) (size o n : ℕ) (out : Option (Mem × PoolBucket))
    : Type 0 where
  mem : Mem
  tag : ℕ
  returns : out ≡ some (mem, record b { global_tag = tag })
  tag_fits : tag < 2 ^ 32
  chain : (u : ℕ) → u < invalid → offset_of u ≡ o → Chain mem b.data_begin u (blocks size o (suc n))
  same :
      (a : ℕ)
      → (a < b.data_begin + o) ⊎ ((b.data_begin + o + 8 ≤ a) × (b.buffer_end ≤ a))
      → mem a ≡ m a

abbrev next_word : PoolBucket → ℕ → ℕ
next_word b next = pack b.global_tag (u32 (sub64 next b.data_begin))

abbrev next_tag : PoolBucket → PoolBucket
next_tag b = record b { global_tag = u32 (b.global_tag + 1) }

module _ (size cap : ℕ) (big : 8 ≤ size) (small : cap < 2 ^ 32 - 1) where
  -- One round of the loop, in front of the rounds that follow it.
  Built-step :
      (o r n : ℕ) (m : Mem) (b : PoolBucket)
      → b.buffer_end ≡ b.data_begin + cap
      → b.global_tag < 2 ^ 32
      → o + r ≡ cap
      → size + size ≤ r
      → (out : Option (Mem × PoolBucket))
      → Built
          (store64 m (b.data_begin + o) (next_word b (b.data_begin + o + size)))
          (next_tag b)
          size
          (o + size)
          n
          out
      → Built m b size o (suc n) out
  unfolding blocks
  Built-step o r n m b end tag whole room out rest = record {
    mem = rest.mem;
    tag = rest.tag;
    returns = rest.returns;
    tag_fits = rest.tag_fits;
    chain = λ u lt at.
        (lt, at, rest.chain (load64 rest.mem (b.data_begin + o)) (rw stored lt_v) (rw stored at_v));
    same =
        λ a out. rest.same a (ground arith) ∙ store64-out m (b.data_begin + o) v a (ground arith);
  }
    where
      v : ℕ
      v = next_word b (b.data_begin + o + size)

      lt_v : v < invalid
      lt_v = omega arith

      at_v : offset_of v ≡ o + size
      at_v = omega arith

      stored : load64 rest.mem (b.data_begin + o) ≡ v
      stored =
          load64-cong (store64 m (b.data_begin + o) v) rest.mem (b.data_begin + o)
            (λ a le lt. rest.same a (inl (omega arith)))
          ∙ load64-store64 m (b.data_begin + o) v (omega arith)

  create_loop-Built :
      (fuel n o r node : ℕ) (m : Mem) (b : PoolBucket)
      → n < fuel
      → b.buffer_end ≡ b.data_begin + cap
      → b.global_tag < 2 ^ 32
      → o + r ≡ cap
      → node ≡ b.data_begin + o
      → Room size r n
      → Built m b size o n (create_loop fuel m b size node)
  unfolding create_loop blocks
  create_loop-Built zero n o r node m b enough end tag whole at room = absurd (omega arith)
  create_loop-Built (suc fuel) zero o r node m b enough end tag whole at room =
      rw (at, lt→leb (b.data_begin + o + size + size) b.buffer_end (omega arith))
        (record {
          mem = store64 m (b.data_begin + o) invalid;
          tag = b.global_tag;
          returns = ground arith;
          tag_fits = tag;
          chain = λ u lt at. (lt, at, load64-store64 m (b.data_begin + o) invalid (omega arith));
          same = λ a out. store64-out m (b.data_begin + o) invalid a (ground arith);
        })
  create_loop-Built (suc fuel) (suc n) o r node m b enough end tag whole at room =
      rw (at, le→leb (b.data_begin + o + size + size) b.buffer_end (omega arith))
        (Built-step o r n m b end tag whole room.0 _ (
          create_loop-Built fuel n (o + size) (r - size) (b.data_begin + o + size)
            (store64 m (b.data_begin + o) (next_word b (b.data_begin + o + size))) (next_tag b)
            (omega arith) end (omega arith) (omega arith) (omega arith) room.1))

-- What `Create` makes of a bucket of `cap` bytes and elements of `size` bytes.
pub record Created (m : Mem) (b : PoolBucket) (size cap : ℕ) (out : Option (Mem × PoolBucket))
    : Type 0 where
  pub mem : Mem
  pub tag : ℕ
  pub returns : out ≡ some (mem, record b { head = 0; global_tag = tag })
  pub tag_fits : tag < 2 ^ 32
  pub chain : Chain mem b.data_begin 0 (blocks size 0 (block_count size cap))
  pub same :
      (a : ℕ) → (a < b.data_begin) ⊎ ((b.data_begin + 8 ≤ a) × (b.buffer_end ≤ a)) → mem a ≡ m a

-- `Create` on a bucket of `cap` bytes, below 4 GB, with elements of 8 bytes or more, ends: the
-- list from its head holds every block once, in order (`cap / size` blocks, but one if no element
-- fits), and no byte is written outside the bucket, or outside the first 8 bytes of a smaller one.
pub create-Created :
    (m : Mem) (b : PoolBucket) (size cap : ℕ)
    → 8 ≤ size
    → cap < 2 ^ 32 - 1
    → b.buffer_end ≡ b.data_begin + cap
    → Created m b size cap (create m b size)
unfolding create
create-Created m b size cap big small end = record {
  mem = built.mem;
  tag = built.tag;
  returns =
      built.returns
      ∙ ap (λ (h : ℕ). some (built.mem, record b { head = h; global_tag = built.tag })) start;
  tag_fits = built.tag_fits;
  chain = rw (Room-block_count size cap big).1 (built.chain 0 (omega arith) (omega arith));
  same = λ a out. built.same a (ground arith);
}
  where
    n : ℕ
    n = (Room-block_count size cap big).0

    room : Room size cap n
    room = (Room-block_count size cap big).2

    start : pack 0 (u32 (sub64 b.data_begin b.data_begin)) ≡ 0
    start = omega arith

    fresh : PoolBucket
    fresh = record b { global_tag = 0; head = pack 0 (u32 (sub64 b.data_begin b.data_begin)) }

    built : Built m fresh size 0 n (create m b size)
    built =
        create_loop-Built size cap big small (suc (b.buffer_end - b.data_begin)) n 0 cap
          b.data_begin m fresh (omega (arith, Room-le size big n cap room)) end (omega arith)
          (omega arith) (omega arith) room
