-- ===== src/Cache/Push.antt =====
-- One more entry on L0 or L1, in `ReleaseToCache` and `Destroy`.
use smmalloc.Prelude.{
  ℕ, suc, ◌+◌, ◌^◌, ◌<◌, ◌≡◌, ◌∙◌, ap, some, List, [], ◌∷◌, arith, length, take, set, count, u32,
  u8, set?-eq-set, get_elem?-set_self, take-set,
}
use smmalloc.Cache.{TlsPoolBucket, max_cache_items_count, push_l0, push_l1}
use smmalloc.Cache.Inventory.{count-take-suc}

-- The stack with one more entry on top.
pub count-push :
    (n : ℕ) (xs : List ℕ) (v a : ℕ)
    → n < length xs
    → count a (take (suc n) (set xs n v)) ≡ count a (v ∷ []) + count a (take n xs)
count-push n xs v a h =
    count-take-suc n (set xs n v) v a (get_elem?-set_self xs n v h)
    ∙ ap (λ ys. count a (v ∷ []) + count a ys) (take-set n xs v)

abbrev pub with_l1 : TlsPoolBucket → ℕ → TlsPoolBucket
with_l1 t o = record t {
  cells_l1 = set t.cells_l1 t.num_elements_l1 o;
  num_elements_l1 = suc t.num_elements_l1;
}

abbrev pub with_l0 : TlsPoolBucket → ℕ → TlsPoolBucket
with_l0 t o = record t {
  storage_l0 = set t.storage_l0 t.num_elements_l0 o;
  num_elements_l0 = suc t.num_elements_l0;
}

pub push_l1_lem :
    (t : TlsPoolBucket) (o : ℕ)
    → t.num_elements_l1 < length t.cells_l1
    → length t.cells_l1 < 2 ^ 32
    → push_l1 t o ≡ some (with_l1 t o)
unfolding push_l1
push_l1_lem t o room small =
    let up : u32 (t.num_elements_l1 + 1) ≡ suc t.num_elements_l1 = omega arith in
    rw (set?-eq-set t.cells_l1 t.num_elements_l1 o room, up)

pub push_l0_lem :
    (t : TlsPoolBucket) (o : ℕ)
    → length t.storage_l0 ≡ max_cache_items_count
    → t.num_elements_l0 < max_cache_items_count
    → push_l0 t o ≡ some (with_l0 t o)
unfolding push_l0
push_l0_lem t o len room =
    let up : u8 (t.num_elements_l0 + 1) ≡ suc t.num_elements_l0 = omega arith in
    rw (set?-eq-set t.storage_l0 t.num_elements_l0 o (omega arith), up)
