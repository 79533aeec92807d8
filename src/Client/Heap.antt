-- ===== src/Client/Heap.antt =====
-- What a C library's heap promises.
use smmalloc.Prelude.{ℕ, ◌+◌, ◌^◌, ◌<◌, ◌≡◌, ◌≢◌, ◌⊎◌, inl, inr, some, List, ◌∷◌, get_elem?}
use smmalloc.Pool.{null}
use smmalloc.Generic.{Libc}
use smmalloc.Client.Lists.{Extent, remove_at, Clear}

-- `malloc` of `n` bytes, while the blocks `taken` are allocated: null, or a block of the address
-- space behind the first page that overlaps none of them.
abbrev pub Mallocs : {H : Type 0} → (H → List Extent → Type 0) → List Extent → ℕ → ℕ × H → Type 0
Mallocs Owns taken n (p, heap) =
    ((p ≡ null) × Owns heap taken)
    ⊎ ((4096 < p) × (p + n < 2 ^ 64) × Clear p n taken × Owns heap ((p, n) ∷ taken))

-- `Owns heap taken`: the blocks `taken` are allocated in `heap`.
pub record LibcSpec {H : Type 0} (libc : Libc H) : Type 1 where
  pub Owns : H → List Extent → Type 0
  pub mallocs :
      (heap : H) (taken : List Extent) (n : ℕ)
      → Owns heap taken
      → Mallocs Owns taken n (libc.malloc heap n)
  pub frees :
      (heap : H) (taken : List Extent) (k p n : ℕ)
      → Owns heap taken
      → get_elem? taken k ≡ some (p, n)
      → Owns (libc.free heap p) (remove_at k taken)

-- What a block of `malloc` other than null is like.
pub granted :
    {H : Type 0} (Owns : H → List Extent → Type 0) (taken : List Extent) (n : ℕ) (got : ℕ × H)
    → got.0 ≢ null
    → Mallocs Owns taken n got
    → (4096 < got.0) × (got.0 + n < 2 ^ 64) × Clear got.0 n taken × Owns got.1 ((got.0, n) ∷ taken)
granted Owns taken n (p, heap) some_p (inl (e, owns)) = absurd (some_p e)
granted Owns taken n (p, heap) some_p (inr grants) = grants
