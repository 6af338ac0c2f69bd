-- ===== src/Engine/OrderPool/Examples.antt =====
-- The order pool at concrete inputs.
use sixchange.Base.{ℕ, ◌≡◌, ◌≢◌, refl, [], ◌∷◌, none, some, arith}
use sixchange.Engine.Order.{empty_order, write}
use sixchange.Engine.OrderPool.{OrderPool, allocate, release}
use sixchange.Engine.OrderPool.Usage.{IsPool}
use sixchange.Engine.OrderPool.Allocation.{Allocated, allocate-Allocated, release-IsPool}

-- Slots 0 and 1 of three are in use, slot 0 taken first.
abbrev two_used : OrderPool
two_used = record { orders = λ _. empty_order; capacity = 3; size = 2; free_head = none }

two_used-IsPool : IsPool two_used (1 ∷ 0 ∷ []) []
two_used-IsPool = record {
  links = refl;
  count = omega arith;
  fits = omega arith;
  live_below = omega arith;
  free_below = tt;
  live_distinct = omega arith;
  free_distinct = tt;
  apart = (tt, (tt, tt));
  cleared = tt;
  untouched = λ x h. refl;
}

release-IsPool_example :
    IsPool (release two_used 0) (1 ∷ []) (0 ∷ [])
    × ((x : ℕ) → x ≢ 0 → (release two_used 0).orders x ≡ empty_order)
release-IsPool_example = release-IsPool two_used (1 ∷ []) 0 [] [] two_used-IsPool

-- A released slot is the next to be handed out.
allocate-Allocated_example :
    Allocated (release two_used 0) (1 ∷ []) (0 ∷ []) (allocate (release two_used 0))
allocate-Allocated_example =
    allocate-Allocated (release two_used 0) (1 ∷ []) (0 ∷ []) release-IsPool_example.0

reused_slot : (allocate (release two_used 0)).0 ≡ some 0
unfolding allocate release write
reused_slot = refl
