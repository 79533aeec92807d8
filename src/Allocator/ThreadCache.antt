-- ===== src/Allocator/ThreadCache.antt =====
-- `TlsPoolBucket::Init`, `Allocator::CreateThreadCache` and `Allocator::DestroyThreadCache` of
-- SmMalloc/smmalloc.cpp.
use smmalloc.Prelude.{
  ℕ, zero, suc, ◌+◌, ◌*◌, ◌/◌, false, Option, none, some, List, [], ◌∷◌, leb, ◌==◌, if◌then◌else◌,
  u32, u64, sub32, ◌>>=◌,
}
use smmalloc.Memory.{update, load64, store64}
use smmalloc.Pool.{null}
use smmalloc.Cache
use smmalloc.Cache.{max_cache_items_count, release_to_cache}
use smmalloc.Generic.{Libc}
use smmalloc.Generic
use smmalloc.Sizes.{Partition, max_bucket_count}
use smmalloc.Allocator.Defs.{
  World, store, with_store, machine, with_machine, get_bucket_by_index, get_bucket_index,
}
use smmalloc.Allocator.Allocate.{allocate}
use smmalloc.Allocator.Free.{free}

-- `CacheWarmupOptions`
pub data CacheWarmupOptions : Type 0 where
  cold warm hot : CacheWarmupOptions

abbrev pub warmup_count : CacheWarmupOptions → ℕ → ℕ
warmup_count cold max = 0
warmup_count warm max = max / 2
warmup_count hot max = max

-- an array of `n` words, with zeroes for contents that nothing reads
abbrev pub array : ℕ → List ℕ
array zero = []
array (suc n) = 0 ∷ array n

-- SMM_CACHE_LINE_SIZE, and Allocator::kDefaultTlsCacheAlignment
abbrev pub cache_line_size : ℕ
cache_line_size = 64

abbrev pub default_tls_cache_alignment : ℕ
default_tls_cache_alignment = 4

module _ {H : Type 0} (libc : Libc H) where
  unfoldable pub destroy_thread_cache_from : ℕ → ℕ → World H → Option (World H)
  destroy_thread_cache_from zero i w = some w
  destroy_thread_cache_from (suc rounds) i w = Cache.destroy (store w) (w.tls i) >>= λ (p, s, t).
      let w' = record (with_store w s) { tls = update w.tls i t } in
      destroy_thread_cache_from rounds (i + 1) (with_machine w' (Generic.free libc (machine w') p))

  unfoldable pub destroy_thread_cache : World H → Option (World H)
  unfolding destroy_thread_cache_from
  destroy_thread_cache w = destroy_thread_cache_from max_bucket_count 0 w

  module _ (part : Partition) where
    -- The first loop of `Init`: takes blocks of bucket `i` and links them through their first word.
    unfoldable pub warmup_alloc : ℕ → ℕ → World H → ℕ → Option (ℕ × World H)
    warmup_alloc zero i w root = some (root, w)
    warmup_alloc (suc rounds) i w root =
        allocate part libc false w (part.size_by_index i) default_tls_cache_alignment >>= λ (p, w').
        let mine = get_bucket_index w' p >>= λ found.
        let kept = warmup_alloc rounds i (record w' { mem = store64 w'.mem p root }) p in
        let other = free libc w' p >>= λ w''. some (root, w'') in
        elim found [ none ↦ other | some k ↦ if k == i then kept else other ] in
        if p == null then some (root, w') else mine

    -- The second loop: moves the linked blocks to L1, past L0.
    unfoldable pub warmup_move : ℕ → ℕ → World H → ℕ → Option (World H)
    warmup_move zero i w current = if current == null then some w else none
    warmup_move (suc rounds) i w current =
        let next = load64 w.mem current in
        let rest = release_to_cache false (store w) (w.tls i) current >>= λ (released, s, t).
        warmup_move rounds i (record (with_store w s) { tls = update w.tls i t }) next in
        if current == null then some w else rest

    -- `TlsPoolBucket::Init`, of the bucket `i`
    unfoldable pub init_tls : World H → ℕ → ℕ → CacheWarmupOptions → ℕ → Option (World H)
    unfolding warmup_alloc warmup_move
    init_tls w cache_stack max_elements_num warmup i = get_bucket_by_index w i >>= λ b.
        let max = sub32 max_elements_num max_cache_items_count in
        let old = w.tls i in
        let t = record old {
          storage_l1 = cache_stack;
          cells_l1 = if cache_stack == null then [] else array max_elements_num;
          num_elements_l1 = 0;
          num_elements_l0 = 0;
          max_elements_count = max;
          bucket = some i;
          bucket_data = b.data_begin;
        } in
        let num = warmup_count warmup max in
        warmup_alloc num i (record w { tls = update w.tls i t }) null >>= λ (root, w').
        warmup_move num i w' root

    unfoldable pub create_thread_cache_from :
        CacheWarmupOptions → ℕ → List ℕ → World H → Option (World H)
    unfolding init_tls
    create_thread_cache_from _ i [] w = some w
    create_thread_cache_from warmup i (n ∷ options) w =
        let elements_num = u32 (n + max_cache_items_count) in
        let (p, s) = Generic.alloc libc (machine w) (u64 (elements_num * 4)) cache_line_size in
        let rest = init_tls (with_machine w s) p elements_num warmup i >>= λ w'.
        create_thread_cache_from warmup (i + 1) options w' in
        if leb w.buckets_count i then some w else rest

    unfoldable pub create_thread_cache : World H → CacheWarmupOptions → List ℕ → Option (World H)
    unfolding create_thread_cache_from
    create_thread_cache w warmup options = create_thread_cache_from warmup 0 options w
