-- ===== src/Suite/Simple/Sizes.antt =====
-- BucketSizeTest and BucketSizeAlignment of smmalloc_test01.cpp.
use smmalloc.Prelude.{ℕ, leb}
use smmalloc.Generic.{min_valid_alignment}
use smmalloc.Sizes.{Partition, max_bucket_count}
use smmalloc.Suite.Gtest.{Body, Unit0, assert_true, for_range}
use smmalloc.Suite.Process.{is_aligned_to}

module _ (part : Partition) {W : Type 0} where
  abbrev pub bucket_size_check : ℕ → Body W Unit0
  bucket_size_check elem_size =
      let bucket_index = part.index_by_size elem_size in
      assert_true (leb elem_size (part.size_by_index bucket_index))

  unfoldable pub bucket_size_test : Body W Unit0
  unfolding for_range
  bucket_size_test = for_range 1048575 1 bucket_size_check

  abbrev pub bucket_alignment_check : ℕ → Body W Unit0
  bucket_alignment_check bucket_index =
      assert_true (is_aligned_to (part.size_by_index bucket_index) min_valid_alignment)

  unfoldable pub bucket_size_alignment : Body W Unit0
  unfolding for_range
  bucket_size_alignment = for_range max_bucket_count 0 bucket_alignment_check
