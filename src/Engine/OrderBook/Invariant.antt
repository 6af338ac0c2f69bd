-- ===== src/Engine/OrderBook/Invariant.antt =====
-- What the state of the book means: each level's queue, the best prices, and the slots in use.
use sixchange.Base.{
  ℕ, ◌≤◌, ◌<◌, ◌^◌, ◌≡◌, refl, ap, ◌∙◌, true, none, List, [], ◌∷◌, arith, first, All, All-map,
  Absent,
}
use sixchange.Core.Enums.{Side}
use sixchange.Engine.Order.{Order, Slots}
use sixchange.Engine.PriceLevel.{PriceLevel, empty}
use sixchange.Engine.PriceLevel.Chain.{Chain-agree}
use sixchange.Engine.PriceLevel.Queue.{unlinked, SameOrders, volume, IsQueue}
use sixchange.Engine.OrderBook.State.{HalfBook}
use sixchange.Engine.OrderBook.Contents.{Contents, total, IsBest, is_nil}
use sixchange.Engine.OrderBook.Best.{Shows}

-- An order that belongs to the level at `price` of `side`.
pub record IsMember (side : Side) (price : ℕ) (o : Order) : Type 0 where
  pub on_side : o.side ≡ side
  pub at_price : o.price ≡ price
  pub in_word : o.remaining_quantity < 2 ^ 64
  pub is_active : o.active ≡ true

-- The orders of one side, as `v` lists them.
pub record IsHalf (side : Side) (count : ℕ) (s : HalfBook) (v : Contents) (h : Slots) : Type 0 where
  pub queues : (i : ℕ) → IsQueue (s.levels i) (v i) h
  pub members : (i : ℕ) → All (λ x. IsMember side i (h x)) (v i)
  pub beyond : (i : ℕ) → count ≤ i → v i ≡ []
  pub best : IsBest side v s.best
  pub active : s.active_orders ≡ total count v

-- All orders of the side have something left to trade.
abbrev pub IsOpen : Contents → Slots → Type 0
IsOpen v h = (i : ℕ) → All (λ x. 0 < (h x).remaining_quantity) (v i)

-- The address is no order of the side.
abbrev pub Foreign : ℕ → Contents → Type 0
Foreign p v = (i : ℕ) → Absent p (v i)

pub IsMember-same :
    {side : Side} {price : ℕ} {o o' : Order}
    → unlinked o' ≡ unlinked o
    → IsMember side price o
    → IsMember side price o'
IsMember-same e m = record {
  on_side = ap (λ (o : Order). o.side) e ∙ m.on_side;
  at_price = ap (λ (o : Order). o.price) e ∙ m.at_price;
  in_word = let q = ap (λ (o : Order). o.remaining_quantity) e in omega (arith, q, m.in_word);
  is_active = ap (λ (o : Order). o.active) e ∙ m.is_active;
}

pub members-same :
    (side : Side) (price : ℕ) (h g : Slots) (xs : List ℕ)
    → SameOrders h g
    → All (λ x. IsMember side price (h x)) xs
    → All (λ x. IsMember side price (g x)) xs
members-same side price h g xs same all = All-map (λ x m. IsMember-same (same x) m) xs all

volume-agree : (h g : Slots) (xs : List ℕ) → All (λ x. g x ≡ h x) xs → volume g xs ≡ volume h xs
volume-agree h g [] all = refl
volume-agree h g (x ∷ xs) all =
    omega (arith, ap (λ (o : Order). o.remaining_quantity) all.0, volume-agree h g xs all.1)

-- A queue depends on its own orders only.
pub IsQueue-agree :
    (l : PriceLevel) (xs : List ℕ) (h g : Slots)
    → All (λ x. g x ≡ h x) xs
    → IsQueue l xs h
    → IsQueue l xs g
IsQueue-agree l xs h g agree q = record {
  head = q.head;
  tail = q.tail;
  chain = Chain-agree h g none xs none agree q.chain;
  distinct = q.distinct;
  total = omega (arith, q.total, volume-agree h g xs agree);
}

members-agree :
    (side : Side) (price : ℕ) (h g : Slots) (xs : List ℕ)
    → All (λ x. g x ≡ h x) xs
    → All (λ x. IsMember side price (h x)) xs
    → All (λ x. IsMember side price (g x)) xs
members-agree side price h g [] agree all = tt
members-agree side price h g (x ∷ xs) agree all =
    (IsMember-same (ap unlinked agree.0) all.0, members-agree side price h g xs agree.1 all.1)

pub open-agree :
    (h g : Slots) (xs : List ℕ)
    → All (λ x. g x ≡ h x) xs
    → All (λ x. 0 < (h x).remaining_quantity) xs
    → All (λ x. 0 < (g x).remaining_quantity) xs
open-agree h g [] agree all = tt
open-agree h g (x ∷ xs) agree all = (rw agree.0 all.0, open-agree h g xs agree.1 all.1)

-- So does a side.
pub IsHalf-agree :
    (side : Side) (count : ℕ) (s : HalfBook) (v : Contents) (h g : Slots)
    → ((i : ℕ) → All (λ x. g x ≡ h x) (v i))
    → IsHalf side count s v h
    → IsHalf side count s v g
IsHalf-agree side count s v h g agree k = record {
  queues = λ i. IsQueue-agree (s.levels i) (v i) h g (agree i) (k.queues i);
  members = λ i. members-agree side i h g (v i) (agree i) (k.members i);
  beyond = k.beyond;
  best = k.best;
  active = k.active;
}

pub empty-first : (l : PriceLevel) (xs : List ℕ) → l.head ≡ first xs none → empty l ≡ is_nil xs
unfolding empty
empty-first l [] e = rw e
empty-first l (x ∷ xs) e = rw e

pub IsHalf-Shows :
    {side : Side} {count : ℕ} {s : HalfBook} {v : Contents} {h : Slots}
    → IsHalf side count s v h
    → Shows s.levels v
IsHalf-Shows {s} {v} k i = empty-first (s.levels i) (v i) (k.queues i).head
