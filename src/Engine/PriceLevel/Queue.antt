-- ===== src/Engine/PriceLevel/Queue.antt =====
-- What a price level stands for: a list of distinct orders in time order, with their total.
use sixchange.Base.{
  ℕ, ◌+◌, ◌%◌, ◌^◌, ◌≡◌, ◌≢◌, refl, sym, ap, ◌∙◌, none, some, List, [], ◌∷◌, ◌++◌, arith, first,
  last, Absent, Distinct,
}
use sixchange.Engine.Order.{OrderPtr, Order, Slots, write, write_self, write-ne}
use sixchange.Engine.PriceLevel.{PriceLevel, set_next, set_prev}
use sixchange.Engine.PriceLevel.Chain.{Chain, Chain-write}

-- The order without its links.
abbrev pub unlinked : Order → Order
unlinked o = record o { prev = none; next = none }

-- All orders are as they were, apart from their links.
abbrev pub SameOrders : Slots → Slots → Type 0
SameOrders h g = (x : ℕ) → unlinked (g x) ≡ unlinked (h x)

-- The open quantity of some orders.
abbrev pub volume : Slots → List ℕ → ℕ
volume h [] = 0
volume h (x ∷ xs) = (h x).remaining_quantity + volume h xs

pub record IsQueue (l : PriceLevel) (xs : List ℕ) (h : Slots) : Type 0 where
  pub head : l.head ≡ first xs none
  pub tail : l.tail ≡ last none xs
  pub chain : Chain h none xs none
  pub distinct : Distinct xs
  pub total : l.total_quantity ≡ volume h xs % 2 ^ 64

pub volume-append : (h : Slots) (xs ys : List ℕ) → volume h (xs ++ ys) ≡ volume h xs + volume h ys
volume-append h [] ys = omega arith
volume-append h (x ∷ xs) ys = omega (arith, volume-append h xs ys)

pub volume-same : (h g : Slots) (xs : List ℕ) → SameOrders h g → volume g xs ≡ volume h xs
volume-same h g [] same = refl
volume-same h g (x ∷ xs) same =
    omega (arith, volume-same h g xs same, ap (λ (o : Order). o.remaining_quantity) (same x))

pub set_next-same : (q n : OrderPtr) (h : Slots) → SameOrders h (set_next q n h)
unfolding set_next write
set_next-same none n h x = refl
set_next-same (some q) n h x = ground arith

pub set_prev-same : (q n : OrderPtr) (h : Slots) → SameOrders h (set_prev q n h)
unfolding set_prev write
set_prev-same none n h x = refl
set_prev-same (some q) n h x = ground arith

-- A write to the last order of a segment misses all other addresses.
pub set_next-ne :
    (xs : List ℕ) (q : OrderPtr) (n : OrderPtr) (h : Slots) (p : ℕ)
    → q ≢ some p
    → Absent p xs
    → set_next (last q xs) n h p ≡ h p
unfolding set_next
set_next-ne [] none n h p ne out = refl
set_next-ne [] (some q) n h p ne out = write-ne h q p _ (λ e. ne (ap some (sym e)))
set_next-ne (x ∷ xs) q n h p ne out = set_next-ne xs (some x) n h p (λ e. out.0 (grind arith)) out.1

pub set_prev-ne :
    (xs : List ℕ) (n : OrderPtr) (h : Slots) (p : ℕ)
    → Absent p xs
    → set_prev (first xs none) n h p ≡ h p
unfolding set_prev
set_prev-ne [] n h p out = refl
set_prev-ne (x ∷ xs) n h p out = write-ne h x p _ (λ e. out.0 (sym e))

pub some_ne : {x p : ℕ} → x ≢ p → some x ≢ some p
some_ne ne e = ne (grind arith)

-- The last order of a segment gets a new successor.
set_next-cons :
    (x : ℕ) (xs : List ℕ) (n : OrderPtr) (h : Slots) (before after : OrderPtr)
    → Distinct (x ∷ xs)
    → Chain h before (x ∷ xs) after
    → Chain (set_next (last (some x) xs) n h) before (x ∷ xs) n
unfolding set_next
set_next-cons x [] n h before after d c = rw (write_self h x _) (c.0, refl, tt)
set_next-cons x (y ∷ ys) n h before after d c =
    let e : set_next (last (some y) ys) n h x ≡ h x =
      set_next-ne ys (some y) n h x (some_ne d.0.0) d.0.1 in
    (
      ap (λ (o : Order). o.prev) e ∙ c.0,
      ap (λ (o : Order). o.next) e ∙ c.1,
      set_next-cons y ys n h (some x) after d.1 c.2,
    )

pub Chain-set_next :
    (xs : List ℕ) (n : OrderPtr) (h : Slots) (after : OrderPtr)
    → Distinct xs
    → Chain h none xs after
    → Chain (set_next (last none xs) n h) none xs n
Chain-set_next [] n h after d c = tt
Chain-set_next (x ∷ xs) n h after d c = set_next-cons x xs n h none after d c

-- The first order of a segment gets a new predecessor.
pub Chain-set_prev :
    (xs : List ℕ) (n : OrderPtr) (h : Slots) (before after : OrderPtr)
    → Distinct xs
    → Chain h before xs after
    → Chain (set_prev (first xs none) n h) n xs after
unfolding set_prev
Chain-set_prev [] n h before after d c = tt
Chain-set_prev (x ∷ xs) n h before after d c = (
  ap (λ (o : Order). o.prev) (write_self h x _),
  ap (λ (o : Order). o.next) (write_self h x _) ∙ c.1,
  Chain-write h x _ (some x) xs after d.0 c.2,
)
