-- ===== src/Sizes/Tables.antt =====
-- The bucket size tables that the comments of SmMalloc/smmalloc.h give for the three schemes.
use smmalloc.Prelude.{
  ℕ, zero, suc, ◌+◌, ◌<◌, ◌≡◌, refl, subst, List, [], ◌∷◌, some, get_elem?, arith,
}
use smmalloc.Sizes.Defs.{max_bucket_count}
use smmalloc.Sizes.Linear
use smmalloc.Sizes.Piecewise
use smmalloc.Sizes.Float

abbrev pub linear_table : List ℕ
linear_table =
    16 ∷ 32 ∷ 48 ∷ 64 ∷ 80 ∷ 96 ∷ 112 ∷ 128 ∷ 144 ∷ 160 ∷ 176 ∷ 192 ∷ 208 ∷ 224 ∷ 240 ∷ 256 ∷ 272
    ∷ 288 ∷ 304 ∷ 320 ∷ 336 ∷ 352 ∷ 368 ∷ 384 ∷ 400 ∷ 416 ∷ 432 ∷ 448 ∷ 464 ∷ 480 ∷ 496 ∷ 512 ∷ 528
    ∷ 544 ∷ 560 ∷ 576 ∷ 592 ∷ 608 ∷ 624 ∷ 640 ∷ 656 ∷ 672 ∷ 688 ∷ 704 ∷ 720 ∷ 736 ∷ 752 ∷ 768 ∷ 784
    ∷ 800 ∷ 816 ∷ 832 ∷ 848 ∷ 864 ∷ 880 ∷ 896 ∷ 912 ∷ 928 ∷ 944 ∷ 960 ∷ 976 ∷ 992 ∷ []

abbrev pub piecewise_table : List ℕ
piecewise_table =
    16 ∷ 32 ∷ 48 ∷ 64 ∷ 80 ∷ 96 ∷ 112 ∷ 128 ∷ 256 ∷ 384 ∷ 512 ∷ 640 ∷ 768 ∷ 896 ∷ 1024 ∷ 1536 ∷ 2048
    ∷ 2560 ∷ 3072 ∷ 3584 ∷ 4096 ∷ 4608 ∷ 5120 ∷ 5632 ∷ 6144 ∷ 6656 ∷ 7168 ∷ 7680 ∷ 8192 ∷ 8704
    ∷ 9216 ∷ 9728 ∷ 10240 ∷ 10752 ∷ 11264 ∷ 11776 ∷ 12288 ∷ 12800 ∷ 13312 ∷ 13824 ∷ 14336 ∷ 14848
    ∷ 15360 ∷ 15872 ∷ 16384 ∷ 16896 ∷ 17408 ∷ 17920 ∷ 18432 ∷ 18944 ∷ 19456 ∷ 19968 ∷ 20480 ∷ 20992
    ∷ 21504 ∷ 22016 ∷ 22528 ∷ 23040 ∷ 23552 ∷ 24064 ∷ 24576 ∷ 25088 ∷ []

abbrev pub float_table : List ℕ
float_table =
    16 ∷ 20 ∷ 24 ∷ 28 ∷ 32 ∷ 40 ∷ 48 ∷ 56 ∷ 64 ∷ 80 ∷ 96 ∷ 112 ∷ 128 ∷ 160 ∷ 192 ∷ 224 ∷ 256 ∷ 320
    ∷ 384 ∷ 448 ∷ 512 ∷ 640 ∷ 768 ∷ 896 ∷ 1024 ∷ 1280 ∷ 1536 ∷ 1792 ∷ 2048 ∷ 2560 ∷ 3072 ∷ 3584
    ∷ 4096 ∷ 5120 ∷ 6144 ∷ 7168 ∷ 8192 ∷ 10240 ∷ 12288 ∷ 14336 ∷ 16384 ∷ 20480 ∷ 24576 ∷ 28672
    ∷ 32768 ∷ 40960 ∷ 49152 ∷ 57344 ∷ 65536 ∷ 81920 ∷ 98304 ∷ 114688 ∷ 131072 ∷ 163840 ∷ 196608
    ∷ 229376 ∷ 262144 ∷ 327680 ∷ 393216 ∷ 458752 ∷ 524288 ∷ 655360 ∷ []

-- The first `n` values of `f` from `i` on.
abbrev sizes : (ℕ → ℕ) → ℕ → ℕ → List ℕ
sizes f i zero = []
sizes f i (suc n) = f i ∷ sizes f (suc i) n

get_elem?-sizes : (f : ℕ → ℕ) (n i j : ℕ) → j < n → get_elem? (sizes f i n) j ≡ some (f (i + j))
get_elem?-sizes f zero i j lt = absurd (omega arith)
get_elem?-sizes f (suc n) i zero lt = let e : i + 0 ≡ i = omega arith in rw e refl
get_elem?-sizes f (suc n) i (suc j) lt =
    let e : i + suc j ≡ suc i + j = omega arith in
    rw e (get_elem?-sizes f n (suc i) j (omega arith))

-- What a table of the 62 element sizes of a scheme says.
abbrev Lists : List ℕ → (ℕ → ℕ) → Type 0
Lists table size_by_index =
    (i : ℕ) → i < max_bucket_count → get_elem? table i ≡ some (size_by_index i)

Lists-of_sizes : (table : List ℕ) (f : ℕ → ℕ) → table ≡ sizes f 0 62 → Lists table f
Lists-of_sizes table f e i lt =
    let same : 0 + i ≡ i = omega arith in
    rw e (subst (λ z. get_elem? (sizes f 0 62) i ≡ some (f z)) same (get_elem?-sizes f 62 0 i lt))

linear_sizes : linear_table ≡ sizes Linear.size_by_index 0 62
unfolding Linear.size_by_index
linear_sizes = refl

piecewise_sizes : piecewise_table ≡ sizes Piecewise.size_by_index 0 62
unfolding Piecewise.size_by_index
piecewise_sizes = refl

float_sizes : float_table ≡ sizes Float.size_by_index 0 62
unfolding Float.size_by_index Float.float_to_uint
float_sizes = refl

-- The bucket size tables that the comments of SmMalloc/smmalloc.h give for the linear, the
-- piecewise linear and the small-float scheme are what the three versions of
-- `GetBucketSizeInBytesByIndex` compute, for each of the 62 buckets.
pub tables_lem :
    (i : ℕ)
    → i < max_bucket_count
    → (get_elem? linear_table i ≡ some (Linear.size_by_index i))
      × (get_elem? piecewise_table i ≡ some (Piecewise.size_by_index i))
      × (get_elem? float_table i ≡ some (Float.size_by_index i))
tables_lem i lt = (
  Lists-of_sizes linear_table Linear.size_by_index linear_sizes i lt,
  Lists-of_sizes piecewise_table Piecewise.size_by_index piecewise_sizes i lt,
  Lists-of_sizes float_table Float.size_by_index float_sizes i lt,
)
