-- ===== src/Engine/MatchingEngine/Sound.antt =====
-- The engine's book between two commands: well formed, no order in flight, and every order with
-- something left.
use sixchange.Base.{ℕ, ◌≡◌, refl, true, List, All, All-map}
use sixchange.Core.Enums.{Side, buy, sell}
use sixchange.Engine.OrderBook.State.{OrderBook}
use sixchange.Engine.OrderBook.Contents.{Contents}
use sixchange.Engine.OrderBook.Invariant.{IsOpen, IsMember, open-agree}
use sixchange.Engine.OrderBook.Whole.{IsBook, other}
use sixchange.Engine.OrderBook.Construction.{IsBook-flip}

-- The orders of both sides, seen from `side`.
pub record Rests (side : Side) (b : OrderBook) : Type 0 where
  pub near : Contents
  pub far : Contents
  pub live : List ℕ
  pub free : List ℕ
  pub book : IsBook side b near far live free 0
  pub near_open : IsOpen near b.orders.orders
  pub far_open : IsOpen far b.orders.orders

abbrev pub IsSound : OrderBook → Type 0
IsSound b = Rests buy b

pub from_side : (side : Side) {b : OrderBook} → Rests side b → IsSound b
from_side buy r = r
from_side sell r = record {
  near = r.far;
  far = r.near;
  live = r.live;
  free = r.free;
  book = IsBook-flip sell r.book;
  near_open = r.far_open;
  far_open = r.near_open;
}

pub to_side : (side : Side) {b : OrderBook} → IsSound b → Rests side b
to_side buy r = r
to_side sell r = record {
  near = r.far;
  far = r.near;
  live = r.live;
  free = r.free;
  book = IsBook-flip buy r.book;
  near_open = r.far_open;
  far_open = r.near_open;
}

pub other-other : (side : Side) → other (other side) ≡ side
other-other buy = refl
other-other sell = refl

-- Orders that a refusal leaves alone.
pub refused-IsOpen :
    (σ : Side) (v : Contents) (b b' : OrderBook)
    → ((x : ℕ) → (b.orders.orders x).active ≡ true → b'.orders.orders x ≡ b.orders.orders x)
    → ((j : ℕ) → All (λ x. IsMember σ j (b.orders.orders x)) (v j))
    → IsOpen v b.orders.orders
    → IsOpen v b'.orders.orders
refused-IsOpen σ v b b' same members opened j =
    open-agree b.orders.orders b'.orders.orders (v j)
      (All-map (λ x (n : IsMember σ j (b.orders.orders x)). same x n.is_active) (v j) (members j))
      (opened j)
