-- ===== src/Safety/Layout.antt =====
-- An allocator that `Init` has set up: where its buffer and its buckets are.
use smmalloc.Prelude.{◌+◌, ◌-◌, ◌*◌, ◌%◌, ◌^◌, ◌≤◌, ◌<◌, ◌≡◌}
use smmalloc.Allocator.{World, max_valid_alignment}
use smmalloc.Sizes.{max_bucket_count}

pub record IsSetUp {H : Type 0} (w : World H) : Type 0 where
  pub count_pos : 0 < w.buckets_count
  pub count_max : w.buckets_count ≤ max_bucket_count
  pub size_pos : 0 < w.bucket_size_in_bytes
  pub size_small : w.bucket_size_in_bytes < 2 ^ 32 - 1
  pub size_page : w.bucket_size_in_bytes % 4096 ≡ 0
  pub page : w.buffer % 4096 ≡ 0
  pub high : max_valid_alignment < w.buffer
  pub fits : w.buffer + w.bucket_size_in_bytes * w.buckets_count < 2 ^ 64
  pub begin : w.buckets_data_begin 0 ≡ w.buffer
  pub end : w.buffer_end ≡ w.buffer + w.bucket_size_in_bytes * w.buckets_count + 1
