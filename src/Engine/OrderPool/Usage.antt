-- ===== src/Engine/OrderPool/Usage.antt =====
-- Which slots are in use and which are free.
use sixchange.Base.{
  ℕ, ◌+◌, ◌≤◌, ◌<◌, ◌≡◌, refl, ap, ◌∙◌, none, some, List, [], ◌∷◌, arith, length, All, Absent,
  Distinct,
}
use sixchange.Engine.Order.{OrderPtr, empty_order, Slots}
use sixchange.Engine.OrderPool.{release, OrderPool, unused}
use sixchange.Engine.PriceLevel.Queue.{unlinked}

-- From `q` the `next` pointers lead through the addresses to null.
abbrev pub Linked : Slots → OrderPtr → List ℕ → Type 0
Linked h q [] = q ≡ none
Linked h q (x ∷ xs) = (q ≡ some x) × Linked h (h x).next xs

-- The handed-out slots are those of `live`, and the free list is `free`.
pub record IsPool (pool : OrderPool) (live free : List ℕ) : Type 0 where
  pub links : Linked pool.orders pool.free_head free
  pub count : length live + length free ≡ pool.size
  pub fits : pool.size ≤ pool.capacity
  pub live_below : All (λ x. x < pool.size) live
  pub free_below : All (λ x. x < pool.size) free
  pub live_distinct : Distinct live
  pub free_distinct : Distinct free
  pub apart : All (λ x. Absent x free) live
  pub cleared : All (λ x. unlinked (pool.orders x) ≡ empty_order) free
  pub untouched : (x : ℕ) → pool.size ≤ x → pool.orders x ≡ empty_order

pub unused-IsPool : (capacity : ℕ) → IsPool (unused capacity) [] []
unfolding unused
unused-IsPool capacity = record {
  links = refl;
  count = omega arith;
  fits = omega arith;
  live_below = tt;
  free_below = tt;
  live_distinct = tt;
  free_distinct = tt;
  apart = tt;
  cleared = tt;
  untouched = λ x h. refl;
}

pub Linked-same :
    (h g : Slots) (q : OrderPtr) (xs : List ℕ)
    → All (λ x. g x ≡ h x) xs
    → Linked h q xs
    → Linked g q xs
Linked-same h g q [] same l = l
Linked-same h g q (x ∷ xs) same l = (l.0, rw same.0 (Linked-same h g _ xs same.1 l.1))

All-transfer :
    (h g : Slots) (xs : List ℕ)
    → All (λ x. g x ≡ h x) xs
    → All (λ x. unlinked (h x) ≡ empty_order) xs
    → All (λ x. unlinked (g x) ≡ empty_order) xs
All-transfer h g [] same all = tt
All-transfer h g (x ∷ xs) same all = (ap unlinked same.0 ∙ all.0, All-transfer h g xs same.1 all.1)

-- Code that leaves the free and the untouched slots alone keeps the pool well formed.
pub IsPool-frame :
    (pool : OrderPool) (live free : List ℕ) (g : Slots)
    → IsPool pool live free
    → All (λ x. g x ≡ pool.orders x) free
    → ((x : ℕ) → pool.size ≤ x → g x ≡ pool.orders x)
    → IsPool (record pool { orders = g }) live free
IsPool-frame pool live free g v same above = record {
  links = Linked-same pool.orders g pool.free_head free same v.links;
  count = v.count;
  fits = v.fits;
  live_below = v.live_below;
  free_below = v.free_below;
  live_distinct = v.live_distinct;
  free_distinct = v.free_distinct;
  apart = v.apart;
  cleared = All-transfer pool.orders g free same v.cleared;
  untouched = λ x h. above x h ∙ v.untouched x h;
}

pub capacity-release : (pool : OrderPool) (p : ℕ) → (release pool p).capacity ≡ pool.capacity
unfolding release
capacity-release pool p = refl
