-- ===== src/Allocator/Free.antt =====
-- `Allocator::Free` and `Allocator::Realloc` of SmMalloc/smmalloc.h.
use smmalloc.Prelude.{ℕ, true, Option, none, some, ltb, leb, ◌==◌, if◌then◌else◌, ◌>>=◌, min}
use smmalloc.Memory.{Mem, update, memmove}
use smmalloc.Align.{align}
use smmalloc.Pool
use smmalloc.Pool.{null}
use smmalloc.Cache.{release_to_cache}
use smmalloc.Generic.{Libc}
use smmalloc.Generic
use smmalloc.Sizes.{Partition}
use smmalloc.Allocator.Defs.{
  World, is_readable, find_bucket, store, with_store, machine, with_machine,
}
use smmalloc.Allocator.Allocate.{on_bucket_stats, bump, allocate}

-- `std::memmove`, which may not be given a null pointer
unfoldable pub move_bytes : Mem → ℕ → ℕ → ℕ → Option Mem
move_bytes m to from n = if to == null then none else some (memmove m to from n)

module _ {H : Type 0} where
  abbrev pub count_free : ℕ → World H → World H
  count_free = on_bucket_stats λ b. record b { free_count = bump true b.free_count }

  -- the branch of `Free` for a block of bucket `i`
  unfoldable pub free_to_bucket : World H → ℕ → ℕ → Option (World H)
  free_to_bucket w p i =
      let w1 = count_free i w in
      release_to_cache true (store w1) (w1.tls i) p >>= λ (released, s, t).
      let w2 = record (with_store w1 s) { tls = update w1.tls i t } in
      let pooled = Pool.free_interval w2.mem (w2.buckets i) p p >>= λ (m, b).
      some (record w2 { mem = m; buckets = update w2.buckets i b }) in
      if released then some w2 else pooled

  module _ (libc : Libc H) where
    unfoldable pub free : World H → ℕ → Option (World H)
    unfolding free_to_bucket
    free w p =
        let found = find_bucket w p >>= λ i.
        let to_bucket = free_to_bucket w p i in
        if ltb i w.buckets_count
        then to_bucket
        else some (with_machine w (Generic.free libc (machine w) p)) in
        if is_readable p then found else some w

    module _ (part : Partition) where
      -- the branch of `Realloc` for a block of bucket `i`
      unfoldable pub realloc_in_bucket : World H → ℕ → ℕ → ℕ → ℕ → Option (ℕ × World H)
      realloc_in_bucket w p bytes_count alignment i =
          let element_size = part.size_by_index i in
          let moved = allocate part libc true w bytes_count alignment >>= λ (p2, w').
          if p2 == null
          then some (null, w')
          else (if is_readable p then move_bytes w'.mem p2 p element_size else some w'.mem) >>= λ m.
              free (record w' { mem = m }) p >>= λ w''. some (p2, w'') in
          if leb bytes_count element_size then some (p, w) else moved

      -- the branch for a block of the generic allocator
      unfoldable pub realloc_generic : World H → ℕ → ℕ → ℕ → Option (ℕ × World H)
      realloc_generic w p bytes_count alignment =
          let to_bucket = allocate part libc true w bytes_count alignment >>= λ (p2, w').
          (if is_readable p
            then move_bytes w'.mem p2 p
                (min (Generic.get_usable_space libc (machine w') p) bytes_count)
            else some w'.mem)
          >>= λ m.
              let w'' = record w' { mem = m } in
              some (p2, with_machine w'' (Generic.free libc (machine w'') p)) in
          let (p2, s) = Generic.realloc libc (machine w) p bytes_count alignment in
          if ltb (part.index_by_size (align bytes_count alignment)) w.buckets_count
          then to_bucket
          else some (p2, with_machine w s)

      unfoldable pub realloc : World H → ℕ → ℕ → ℕ → Option (ℕ × World H)
      unfolding realloc_in_bucket realloc_generic
      realloc w p bytes_count alignment =
          let fresh = allocate part libc true w bytes_count alignment in
          let freed = free w p >>= λ w'. some (null, w') in
          let found = find_bucket w p >>= λ i.
          let in_bucket = realloc_in_bucket w p bytes_count alignment i in
          let generic = realloc_generic w p bytes_count alignment in
          if ltb i w.buckets_count then in_bucket else generic in
          if is_readable p then (if bytes_count == 0 then freed else found) else fresh
