-- ===== src/Tests/Runs.antt =====
-- Runs of a program over the allocator of two buckets of a page each.
use smmalloc.Prelude.{
  get_elem?, u64, zero, suc, ℕ, ◌+◌, ◌*◌, ◌%◌, ◌^◌, ◌<◌, ◌≤◌, ◌≡◌, ◌≢◌, ◌⊎◌, refl, lt→ltb, some,
  true, List, [], ◌∷◌, arith, subst,
}
use smmalloc.Allocator
use smmalloc.Allocator.{World, init, get_usable_size, new_global_stats}
use native.Mathlib.Nat.{le-div_iff_mul-le}
use smmalloc.Align.{align}
use smmalloc.Pool.{null}
use smmalloc.Sizes.Piecewise
use smmalloc.Client.Statistics.{
  AddsUp, step-AnyCall, no_call, and_call, calls_allocate, calls_free, calls-AddsUp,
}
use smmalloc.Client.Resizes.{Reallocated}
use smmalloc.Client.Resizes.Answers.{realloc-Reallocated}
use smmalloc.Client.Own.{OwnBlock, allocate-OwnBlock}
use smmalloc.Safety.Sound.{base_of, blocks_in, quiet-IsSound}
use smmalloc.Client.Lists.{Extent, AllClear}
use smmalloc.Client.Runs.{Client, Step, Reach, IsRequest, begins, goes_on, allocates, fails}
use smmalloc.Client.Invariant.{Inv}
use smmalloc.Client.Start.{Begun, init-Begun}
use smmalloc.Client.Allocates
use smmalloc.Client.Allocates.{Answer, refused, allocate-Answer, Served-Inv}
use smmalloc.Client.Frees.{Gone, free-Gone}
use smmalloc.Client.Usage.{reach-Inv, held-AllClear, answers, frees_any}
use smmalloc.Client.Usable.{get_usable_size-allocate}
use smmalloc.Client.Contents.{Sparing, Intact, at_start, and_then, sparing-Intact}
use mathlib.Core.Option.{some-injective}
use smmalloc.Bench.{thread_entry}
use smmalloc.Bench.Smmalloc.{sm_tcd, thread_entry-sm_tcd}
use smmalloc.Tests.Bump.{bump, bump_spec, Owned}
use smmalloc.Tests.Worlds.{
  blank, zero-IsClosed, two_fit, part, world, ready, page, page_lem, served, all_free, sixteen,
  first,
}

abbrev others : List Extent
others = (8192, page * 2 + (2 ^ 12 + 15)) ∷ []

abbrev start : Client ℕ
start = record { world = world; held = [] }

owned : Owned ready.world.heap others
owned = (omega (arith, ready.heap_same, page_lem), (omega (arith, ready.heap_same), tt))

abbrev start_inv : Inv part bump_spec others start
start_inv = record {
  free = all_free;
  entries = [];
  held = refl;
  sound = ready.sound;
  fits = tt;
  owns = owned;
  clear = (tt, tt);
  home = record {
    place = 0;
    from = 8192;
    bytes = page * 2 + (2 ^ 12 + 15);
    at = refl;
    inside = rw (ready.buckets, ready.bucket_bytes) (omega (arith, ready.in_block));
  };
}

request : IsRequest part 16 4
request = record {
  some_bytes = omega arith;
  at_most_4096 = omega arith;
  exact = omega arith;
  fits = omega arith;
}

-- The program holds the first block of bucket 0.
abbrev block : ℕ
block = base_of part world served.index + served.offset

abbrev one : Client ℕ
one = record { world = served.world; held = (block, 16) ∷ [] }

one-Inv : Inv part bump_spec others one
one-Inv = Served-Inv part bump_spec others start start_inv 16 4 request served

blank_grants : (bump.malloc blank.heap (align 4096 (2 ^ 12) * 2 + (2 ^ 12 + 15))).0 ≢ null
blank_grants =
    rw
      (lt→ltb (8192 + (align 4096 (2 ^ 12) * 2 + (2 ^ 12 + 15))) (2 ^ 64) (omega (arith, page_lem)))
      (λ e. omega (arith, e))

init-Begun_example :
    Begun part bump_spec [] blank 2 page
      (bump.malloc blank.heap (align 4096 (2 ^ 12) * 2 + (2 ^ 12 + 15))).0
      (init part bump blank 2 4096)
init-Begun_example =
    init-Begun part bump_spec [] blank refl refl (λ i. zero-IsClosed) 2 4096 (omega arith)
      (omega arith) (omega arith) (omega arith) two_fit (omega arith, tt) tt blank_grants

allocate-Answer_example :
    Answer part bump_spec others one 16 4
      (smmalloc.Allocator.allocate part bump true served.world 16 (2 ^ 4))
allocate-Answer_example = allocate-Answer part bump_spec others one one-Inv 16 4 request

free-Gone_example :
    Gone part bump_spec others one 0 (smmalloc.Allocator.free bump served.world block)
free-Gone_example = free-Gone part bump_spec others one one-Inv 0 block 16 refl

answers_example :
    (e : Client ℕ) × Step part bump one e
    × ((e.held ≡ (block, 16) ∷ [])
        ⊎ ((p : ℕ) × (p % 2 ^ 4 ≡ 0) × (e.held ≡ (p, 16) ∷ (block, 16) ∷ [])))
answers_example = answers part bump_spec others one one begins one-Inv 16 4 request

-- It asks for another one.
two :
    (e : Client ℕ) × Step part bump one e
    × ((e.held ≡ (block, 16) ∷ [])
        ⊎ ((p : ℕ) × (p % 2 ^ 4 ≡ 0) × (e.held ≡ (p, 16) ∷ (block, 16) ∷ [])))
two = answers part bump_spec others one one begins one-Inv 16 4 request

run : Reach part bump one two.0
run = goes_on begins two.1

frees_any_example : (e : Client ℕ) × Step part bump one e × (e.held ≡ [])
frees_any_example = frees_any part bump_spec others one one begins one-Inv 0 block 16 refl

reach-Inv_example : Inv part bump_spec others two.0
reach-Inv_example = reach-Inv part bump_spec others one two.0 run one-Inv

held-AllClear_example : AllClear two.0.held
held-AllClear_example = held-AllClear part bump_spec others one two.0 run one-Inv

get_usable_size-allocate_example :
    (m : ℕ) × (get_usable_size part bump served.world block ≡ some m) × (16 ≤ m)
get_usable_size-allocate_example =
    get_usable_size-allocate part bump_spec others one one begins one-Inv 0 block 16 refl

-- The step that asks for another one spares the first.
spared : (e : Client ℕ) × Sparing part bump block 16 one e
spared = elim (allocate-Answer part bump_spec others one one-Inv 16 4 request) [
  | Allocates.served p w got some_p aligned inv keeps layout ↦ (
    record { world = w; held = (p, 16) ∷ one.held },
    and_then at_start (allocates 16 4 p w request got some_p) tt,
  )
  | refused w got inv keeps layout ↦
      (record { world = w; held = one.held }, and_then at_start (fails 16 4 w request got) tt)
]

sparing-Intact_example : Intact part bump block 16 one spared.0
sparing-Intact_example =
    sparing-Intact part bump_spec others block 16 one one-Inv 0 refl spared.0 spared.1

sixteen_only : (j x : ℕ) → get_elem? (16 ∷ []) j ≡ some x → IsRequest part x 4
sixteen_only zero x e = subst (λ b. IsRequest part b 4) (some-injective 16 x e) request
sixteen_only (suc j) x e = ground arith

thread_entry-sm_tcd_example :
    (v : World ℕ) × (thread_entry (sm_tcd bump part) (16 ∷ []) 2 3 world
      ≡ some (u64 (2 * 2 * (3 + 1)), v))
    × Inv part bump_spec others (record { world = v; held = [] })
thread_entry-sm_tcd_example =
    thread_entry-sm_tcd part bump_spec others (16 ∷ []) (omega arith) sixteen_only 2 3 world
      start_inv

own_room : 0 < blocks_in part world 0
own_room =
    (le-div_iff_mul-le (omega (arith, sixteen))).1 (omega (arith, ready.sound.within 0 first))

own_index : part.index_by_size (align 16 (2 ^ 4)) ≡ 0
unfolding Piecewise.index_by_size align
own_index = refl

allocate-OwnBlock_example : OwnBlock part bump_spec others start 16 4
allocate-OwnBlock_example =
    allocate-OwnBlock part bump_spec others start start_inv 16 4 request
      (omega (arith, own_index, ready.buckets)) (rw own_index own_room)

-- The first block grows to 100 bytes.
larger : IsRequest part 100 4
larger = record {
  some_bytes = omega arith;
  at_most_4096 = omega arith;
  exact = omega arith;
  fits = omega arith;
}

realloc-Reallocated_example :
    Reallocated part bump_spec others one 0 block 16 100 4
      (smmalloc.Allocator.realloc bump part served.world block 100 (2 ^ 4))
realloc-Reallocated_example =
    realloc-Reallocated part bump_spec others one one-Inv 0 100 4 larger block 16 refl

-- The allocator with its statistics at zero is asked for a block.
abbrev fresh : Client ℕ
fresh = record { world = record world { global_stats = new_global_stats }; held = [] }

fresh-Inv : Inv part bump_spec others fresh
fresh-Inv = record {
  free = start_inv.free;
  entries = [];
  held = refl;
  sound =
      quiet-IsSound part start_inv.sound world.heap world.mem world.buckets new_global_stats
        (λ a lo hi. refl) (λ j. (refl, refl, refl));
  fits = tt;
  owns = start_inv.owns;
  clear = start_inv.clear;
  home = record {
    place = start_inv.home.place;
    from = start_inv.home.from;
    bytes = start_inv.home.bytes;
    at = start_inv.home.at;
    inside = start_inv.home.inside;
  };
}

asked_once :
    (e : Client ℕ) × Step part bump fresh e
    × ((e.held ≡ []) ⊎ ((p : ℕ) × (p % 2 ^ 4 ≡ 0) × (e.held ≡ (p, 16) ∷ [])))
asked_once = answers part bump_spec others fresh fresh begins fresh-Inv 16 4 request

-- the block, then no bytes at an alignment of 16, for which `Allocate` returns 16, and `Free` of it
calls-AddsUp_example : AddsUp 0 asked_once.0.world.global_stats
unfolding smmalloc.Allocator.free smmalloc.Allocator.allocate Allocator.is_readable
calls-AddsUp_example =
    calls-AddsUp part bump fresh.world asked_once.0.world
      (and_call
        (and_call (and_call no_call (step-AnyCall part bump fresh asked_once.0 asked_once.1))
          (calls_allocate 0 16 16 refl))
        (calls_free 16 refl))
      refl
