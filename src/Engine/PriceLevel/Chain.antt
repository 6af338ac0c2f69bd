-- ===== src/Engine/PriceLevel/Chain.antt =====
-- Doubly linked segments: the addresses of a list are linked in its order, and nothing else of the
-- memory matters to them.
use sixchange.Base.{ap, ◌∙◌, ℕ, ◌≡◌, some, List, [], ◌∷◌, ◌++◌, first, last, All, Absent}
use sixchange.Engine.Order.{OrderPtr, Order, Slots, write, write-ne}

-- `before` precedes the segment and `after` follows it.
abbrev pub Chain : Slots → OrderPtr → List ℕ → OrderPtr → Type 0
Chain h before [] after = Unit
Chain h before (x ∷ xs) after =
    ((h x).prev ≡ before) × ((h x).next ≡ first xs after) × Chain h (some x) xs after

pub Chain-append :
    (h : Slots) (before : OrderPtr) (xs ys : List ℕ) (after : OrderPtr)
    → Chain h before xs (first ys after)
    → Chain h (last before xs) ys after
    → Chain h before (xs ++ ys) after
Chain-append h before [] ys after c d = d
Chain-append h before (x ∷ []) ys after c d = (c.0, c.1, d)
Chain-append h before (x ∷ y ∷ xs) ys after c d =
    (c.0, c.1, Chain-append h (some x) (y ∷ xs) ys after c.2 d)

pub Chain-left :
    (h : Slots) (before : OrderPtr) (xs ys : List ℕ) (after : OrderPtr)
    → Chain h before (xs ++ ys) after
    → Chain h before xs (first ys after)
Chain-left h before [] ys after c = tt
Chain-left h before (x ∷ []) ys after c = (c.0, c.1, tt)
Chain-left h before (x ∷ y ∷ xs) ys after c =
    (c.0, c.1, Chain-left h (some x) (y ∷ xs) ys after c.2)

pub Chain-right :
    (h : Slots) (before : OrderPtr) (xs ys : List ℕ) (after : OrderPtr)
    → Chain h before (xs ++ ys) after
    → Chain h (last before xs) ys after
Chain-right h before [] ys after c = c
Chain-right h before (x ∷ xs) ys after c = Chain-right h (some x) xs ys after c.2

-- The links of a segment depend on its own orders only.
pub Chain-agree :
    (h g : Slots) (before : OrderPtr) (xs : List ℕ) (after : OrderPtr)
    → All (λ x. g x ≡ h x) xs
    → Chain h before xs after
    → Chain g before xs after
Chain-agree h g before [] after same c = tt
Chain-agree h g before (x ∷ xs) after same c = (
  ap (λ (o : Order). o.prev) same.0 ∙ c.0,
  ap (λ (o : Order). o.next) same.0 ∙ c.1,
  Chain-agree h g (some x) xs after same.1 c.2,
)

pub Chain-write :
    (h : Slots) (p : ℕ) (o : Order) (before : OrderPtr) (xs : List ℕ) (after : OrderPtr)
    → Absent p xs
    → Chain h before xs after
    → Chain (write h p o) before xs after
Chain-write h p o before [] after out c = tt
Chain-write h p o before (x ∷ xs) after out c =
    rw (write-ne h p x o out.0) (c.0, c.1, Chain-write h p o (some x) xs after out.1 c.2)
