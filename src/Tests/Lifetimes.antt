-- ===== src/Tests/Lifetimes.antt =====
-- An allocator that is created, and destroyed again.
use smmalloc.Prelude.{ℕ, ◌+◌, ◌*◌, ◌^◌, ◌≡◌, refl, inl, arith}
use smmalloc.Cache.{zero_bucket}
use smmalloc.CApi.{sm_allocator_create, sm_allocator_destroy}
use smmalloc.CApi.Lifetime.{Life, create-Life, create-destroy}
use smmalloc.Tests.Data.{rising, empty_machine}
use smmalloc.Tests.Worlds.{part, page, page_lem, zero-IsClosed, two_fit}

abbrev own : ℕ
own = 8192 + (2048 + 79)

abbrev behind : ℕ
behind = own + (page * 2 + (2 ^ 12 + 15))

create-Life_example :
    Life part rising 2048 2 4096 8192 own
      (λ i. zero_bucket)
      behind
      (sm_allocator_create rising part 2048 empty_machine (λ i. zero_bucket) 2 4096)
create-Life_example =
    create-Life part rising empty_machine (λ i. zero_bucket) (λ i. zero-IsClosed) 2048 2 4096
      (omega arith) (omega arith) (omega arith) (omega arith) two_fit 8192 own own behind
      (omega arith) (omega arith) refl (omega arith) (omega (arith, page_lem)) refl
      (inl (omega arith))

life :
    Life part rising 2048 2 4096 8192 own
      (λ i. zero_bucket)
      behind
      (sm_allocator_create rising part 2048 empty_machine (λ i. zero_bucket) 2 4096)
life =
    create-Life part rising empty_machine (λ i. zero_bucket) (λ i. zero-IsClosed) 2048 2 4096
      (omega arith) (omega arith) (omega arith) (omega arith) two_fit 8192 own own behind
      (omega arith) (omega arith) refl (omega arith) (omega (arith, page_lem)) refl
      (inl (omega arith))

create-destroy_example :
    (sm_allocator_destroy rising life.world life.address).heap
    ≡ rising.free (rising.free life.world.heap own) 8192
create-destroy_example =
    create-destroy part rising 2048 2 4096 8192 own (λ i. zero_bucket) behind
      (sm_allocator_create rising part 2048 empty_machine (λ i. zero_bucket) 2 4096) life life.world
      (omega arith) refl (λ a lo hi. refl) (λ a lo hi. refl)
