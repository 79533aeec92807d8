-- ===== src/Allocator/Setup.antt =====
-- `Allocator::Init` of SmMalloc/smmalloc.cpp.
use smmalloc.Prelude.{
  ℕ, zero, suc, ◌+◌, ◌*◌, Option, none, some, ltb, leb, ◌==◌, if◌then◌else◌, u64, ◌>>=◌,
}
use smmalloc.Memory.{update}
use smmalloc.Align.{align}
use smmalloc.Pool
use smmalloc.Pool.{null}
use smmalloc.Generic.{Libc}
use smmalloc.Generic
use smmalloc.Sizes.{Partition, max_bucket_count}
use smmalloc.Allocator.Defs.{World, machine, with_machine, max_valid_alignment}

abbrev pub clamp_count : ℕ → ℕ
clamp_count n = if leb max_bucket_count n then max_bucket_count else n

module _ {H : Type 0} (part : Partition) where
  -- The loop over the buckets, with `rounds` left from the `i`-th on.
  unfoldable pub init_buckets : ℕ → ℕ → World H → Option (World H)
  init_buckets zero i w = some w
  init_buckets (suc rounds) i w =
      let start = w.buffer + u64 (i * w.bucket_size_in_bytes) in
      let b = w.buckets i in
      let bucket = record b { data_begin = start; buffer_end = start + w.bucket_size_in_bytes } in
      Pool.create w.mem bucket (part.size_by_index i) >>= λ (m, b').
      init_buckets rounds (i + 1) (record w {
        mem = m;
        buckets = update w.buckets i b';
        buckets_data_begin = update w.buckets_data_begin i b'.data_begin;
      })

  module _ (libc : Libc H) where
    unfoldable pub init : World H → ℕ → ℕ → Option (World H)
    unfolding init_buckets
    init w buckets_count bucket_size_in_bytes =
        if ltb 0 w.buckets_count
        then some w
        else if buckets_count == 0
        then some w
        else let count = clamp_count buckets_count in
          let size = align bucket_size_in_bytes max_valid_alignment in
          let total = u64 (size * count) in
          let (p, s) = Generic.alloc libc (machine w) total max_valid_alignment in
          let w1 = with_machine w (Generic.free libc s w.buffer) in
          let w2 = record w1 {
            buckets_count = count;
            bucket_size_in_bytes = size;
            buckets_data_begin = λ _. null;
            buffer = p;
            buffer_end = p + total + 1;
          } in
          -- Nothing tests for a failed allocation: the first write goes through the null pointer.
          if p == null then none else init_buckets count 0 w2
