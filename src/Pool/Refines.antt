-- ===== src/Pool/Refines.antt =====
-- A bucket as an abstract stack of blocks: `Alloc` takes the top one, `FreeInterval` of one block
-- puts it there.
use smmalloc.Prelude.{
  ℕ, ◌+◌, ◌-◌, ◌^◌, ◌<◌, ◌≡◌, refl, Option, none, some, ◌>>=◌, List, [], ◌∷◌, arith,
}
use smmalloc.Memory.{Mem, load64, store64}
use smmalloc.Pool.{null, PoolBucket, alloc, free_interval}
use smmalloc.Pool.Chain.{Chain, ApartFrom, AllApart}
use smmalloc.Pool.Stack.{pushed, alloc-empty, alloc-pop, free_interval_lem, free_interval-Chain}

pub data Op : Type 0 where
  take : Op
  put : ℕ → Op

-- The stack: what a call returns, if it returns a block, and what it leaves.
abbrev pub on_stack : Op → List ℕ → Option ℕ × List ℕ
on_stack take [] = (none, [])
on_stack take (o ∷ os) = (some o, os)
on_stack (put o) os = (none, o ∷ os)

abbrev pub stack_outputs : List Op → List ℕ → List (Option ℕ)
stack_outputs [] os = []
stack_outputs (op ∷ ops) os = (on_stack op os).0 ∷ stack_outputs ops (on_stack op os).1

abbrev pub stack_after : List Op → List ℕ → List ℕ
stack_after [] os = os
stack_after (op ∷ ops) os = stack_after ops (on_stack op os).1

-- Only blocks that overlap none on the stack are put there.
abbrev pub Allowed : List Op → List ℕ → Type 0
Allowed [] os = Unit {0}
Allowed (take ∷ ops) os = Allowed ops (on_stack take os).1
Allowed (put o ∷ ops) os = (o < 2 ^ 32 - 1) × ApartFrom o os × Allowed ops (o ∷ os)

-- The bucket at `base`: the call, with null where it returns none.
abbrev pub on_bucket : ℕ → Op → Mem → PoolBucket → Option (ℕ × Mem × PoolBucket)
on_bucket base take m b = alloc m b >>= λ (p, b'). some (p, m, b')
on_bucket base (put o) m b =
    free_interval m b (base + o) (base + o) >>= λ (m', b'). some (null, m', b')

unfoldable pub bucket_run : ℕ → List Op → Mem → PoolBucket → Option (List ℕ × Mem × PoolBucket)
bucket_run base [] m b = some ([], m, b)
bucket_run base (op ∷ ops) m b = on_bucket base op m b >>= λ (p, m', b').
    bucket_run base ops m' b' >>= λ (ps, m'', b''). some (p ∷ ps, m'', b'')

abbrev pub address_of : ℕ → Option ℕ → ℕ
address_of base none = null
address_of base (some o) = base + o

abbrev pub addresses_of : ℕ → List (Option ℕ) → List ℕ
addresses_of base [] = []
addresses_of base (o ∷ os) = address_of base o ∷ addresses_of base os

-- The bucket stands for the stack `os`.
pub record StandsFor (base : ℕ) (m : Mem) (b : PoolBucket) (os : List ℕ) : Type 0 where
  pub at : b.data_begin ≡ base
  pub tag_fits : b.global_tag < 2 ^ 32
  pub chain : Chain m base b.head os
  pub apart : AllApart os

abbrev pub Stepped : ℕ → Option ℕ → List ℕ → Option (ℕ × Mem × PoolBucket) → Type 0
Stepped base o os out =
    (m : Mem) × (b : PoolBucket) × (out ≡ some (address_of base o, m, b)) × StandsFor base m b os

module _ (base : ℕ) where
  takes :
      (m : Mem) (b : PoolBucket) (os : List ℕ)
      → StandsFor base m b os
      → Stepped base (on_stack take os).0 (on_stack take os).1 (on_bucket base take m b)
  takes m b [] st = (m, b, rw (alloc-empty m b base st.at st.chain) refl, st)
  takes m b (o ∷ os) st = (
    m,
    record b { head = load64 m (base + o) },
    rw (alloc-pop m b base st.at o os st.chain) refl,
    record { at = st.at; tag_fits = st.tag_fits; chain = st.chain.2; apart = st.apart.1 },
  )

  puts :
      (o : ℕ) (m : Mem) (b : PoolBucket) (os : List ℕ)
      → o < 2 ^ 32 - 1
      → ApartFrom o os
      → StandsFor base m b os
      → Stepped base none (o ∷ os) (on_bucket base (put o) m b)
  puts o m b os small apart st = (
    store64 m (base + o) b.head,
    pushed b o,
    rw (free_interval_lem m b base st.at o small (base + o)) refl,
    record {
      at = st.at;
      tag_fits = omega arith;
      chain =
          free_interval-Chain m b base st.at o small [] os st.tag_fits (apart, st.apart) tt
            st.chain;
      apart = (apart, st.apart);
    },
  )

  after :
      (op : Op) (ops : List Op) (m : Mem) (b : PoolBucket) (o : Option ℕ) (os : List ℕ)
      → Stepped base o os (on_bucket base op m b)
      → ((m' : Mem) (b' : PoolBucket)
          → StandsFor base m' b' os
          → (m'' : Mem) × (b'' : PoolBucket) × (bucket_run base ops m' b'
              ≡ some (addresses_of base (stack_outputs ops os), m'', b''))
            × StandsFor base m'' b'' (stack_after ops os))
      → (m'' : Mem) × (b'' : PoolBucket) × (bucket_run base (op ∷ ops) m b
          ≡ some (address_of base o ∷ addresses_of base (stack_outputs ops os), m'', b''))
        × StandsFor base m'' b'' (stack_after ops os)
  unfolding bucket_run
  after op ops m b o os (m', b', first, st) next =
      let (m'', b'', rest, st') = next m' b' st in (m'', b'', rw (first, rest) refl, st')

  -- A bucket refines a stack of blocks: if the list of free blocks is the stack, of which no two
  -- overlap, then any sequence of calls of `Alloc` and of `FreeInterval` of one block, where each
  -- block put there has a 32-bit offset other than the last and overlaps none that is on the
  -- stack, ends, returns the addresses that the stack returns (null if it is empty), and leaves a
  -- list of free blocks that is the stack left.
  pub bucket_run-stack :
      (ops : List Op) (m : Mem) (b : PoolBucket) (os : List ℕ)
      → StandsFor base m b os
      → Allowed ops os
      → (m' : Mem) × (b' : PoolBucket) × (bucket_run base ops m b
          ≡ some (addresses_of base (stack_outputs ops os), m', b'))
        × StandsFor base m' b' (stack_after ops os)
  unfolding bucket_run
  bucket_run-stack [] m b os st allowed = (m, b, refl, st)
  bucket_run-stack (take ∷ ops) m b os st allowed =
      after take ops m b (on_stack take os).0 (on_stack take os).1 (takes m b os st)
        λ m' b' st'. bucket_run-stack ops m' b' (on_stack take os).1 st' allowed
  bucket_run-stack (put o ∷ ops) m b os st allowed =
      after (put o) ops m b none (o ∷ os) (puts o m b os allowed.0 allowed.1 st)
        λ m' b' st'. bucket_run-stack ops m' b' (o ∷ os) st' allowed.2
