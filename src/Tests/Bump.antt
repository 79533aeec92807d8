-- ===== src/Tests/Bump.antt =====
-- A heap that keeps what the runs of programs rely on.
use smmalloc.Prelude.{
  ℕ, ◌+◌, ◌^◌, ◌<◌, ◌≤◌, refl, inl, inr, List, [], ◌∷◌, arith, ltb, if◌then◌else◌, Bool-cases,
  ltb→lt, subst, sym,
}
use smmalloc.Generic.{Libc}
use smmalloc.Client.Lists.{Extent, Clear, All, All-remove_at}
use smmalloc.Client.Heap.{LibcSpec, Mallocs}

-- A heap that hands out ascending addresses while there are any.
abbrev pub bump : Libc ℕ
bump = record {
  malloc = λ h n. if ltb (h + n) (2 ^ 64) then (h, h + n) else (0, h);
  free = λ h p. h;
}

abbrev pub Below : ℕ → Extent → Type 0
Below h (p, n) = p + n ≤ h

abbrev pub Owned : ℕ → List Extent → Type 0
Owned h taken = (4096 < h) × All (Below h) taken

later : (h h' : ℕ) (xs : List Extent) → h ≤ h' → All (Below h) xs → All (Below h') xs
later h h' [] le all = tt
later h h' ((p, n) ∷ xs) le all = (omega (arith, all.0), later h h' xs le all.1)

Below-Clear : (h n : ℕ) (xs : List Extent) → All (Below h) xs → Clear h n xs
Below-Clear h n [] all = tt
Below-Clear h n ((p, m) ∷ xs) all = (inr all.0, Below-Clear h n xs all.1)

pub bump_malloc :
    (h : ℕ) (taken : List Extent) (n : ℕ) → Owned h taken → Mallocs Owned taken n (bump.malloc h n)
bump_malloc h taken n owned = elim (Bool-cases (ltb (h + n) (2 ^ 64))) [
  | inl room ↦
      subst (λ b. Mallocs Owned taken n (if b then (h, h + n) else (0, h))) (sym room)
        (inr (
          owned.0,
          ltb→lt (h + n) (2 ^ 64) room,
          Below-Clear h n taken owned.1,
          (omega (arith, owned.0), (omega arith, later h (h + n) taken (omega arith) owned.1)),
        ))
  | inr full ↦
      subst (λ b. Mallocs Owned taken n (if b then (h, h + n) else (0, h))) (sym full)
        (inl (refl, owned))
]

abbrev pub bump_spec : LibcSpec bump
bump_spec = record {
  Owns = Owned;
  mallocs = bump_malloc;
  frees = λ h taken k p n owned at. (owned.0, All-remove_at (Below h) k taken owned.1);
}
