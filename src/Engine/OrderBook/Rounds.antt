-- ===== src/Engine/OrderBook/Rounds.antt =====
-- The rounds of the match loop against the specification.
use sixchange.Base.{ℕ, ◌<◌, ◌^◌, ◌≡◌, refl, sym, subst, ◌∙◌, true, false, some, List, In}
use sixchange.Core.Enums.{Side}
use sixchange.Engine.PriceLevel.Queue.{unlinked}
use sixchange.Engine.MatchExecution.{MatchSink}
use sixchange.Engine.OrderBook.State.{OrderBook}
use sixchange.Engine.OrderBook.Contents.{Contents}
use sixchange.Engine.OrderBook.Invariant.{IsOpen, Foreign}
use sixchange.Engine.OrderBook.Whole.{IsBook}
use sixchange.Engine.OrderBook.PriceTime.{Filled, deliver, ladder, orders_at}
use sixchange.Engine.OrderBook.Matching.{crosses}

-- An order about to be matched against `side`: active, on neither side, with a price.
pub record IsAggressor (b : OrderBook) (near far : Contents) (a price : ℕ) : Type 0 where
  pub off_near : Foreign a near
  pub off_far : Foreign a far
  pub active : (b.orders.orders a).active ≡ true
  pub word : (b.orders.orders a).remaining_quantity < 2 ^ 64
  pub priced : (b.orders.orders a).price ≡ price

-- Between two states of the book, all that matching leaves alone: the other side's orders, and the
-- levels that the price does not cross.
pub record LeavesAlone (side : Side) (price : ℕ) (b : OrderBook) (near far : Contents)
    (b' : OrderBook) (near' : Contents) : Type 0 where
  pub config : b'.config ≡ b.config
  pub far_same : (j x : ℕ) → In x (far j) → b'.orders.orders x ≡ b.orders.orders x
  pub levels_same : (j : ℕ) → crosses side price (some j) ≡ false → near' j ≡ near j
  pub orders_same :
      (j x : ℕ)
      → crosses side price (some j) ≡ false
      → In x (near j)
      → unlinked (b'.orders.orders x) ≡ unlinked (b.orders.orders x)

pub LeavesAlone-refl :
    (side : Side) (price : ℕ) (b : OrderBook) (near far : Contents)
    → LeavesAlone side price b near far b near
LeavesAlone-refl side price b near far = record {
  config = refl;
  far_same = λ j x m. refl;
  levels_same = λ j apart. refl;
  orders_same = λ j x apart m. refl;
}

pub LeavesAlone-trans :
    (side : Side) (price : ℕ) (b : OrderBook) (near far : Contents) (c : OrderBook) (mid : Contents)
    (d : OrderBook) (last : Contents)
    → LeavesAlone side price b near far c mid
    → LeavesAlone side price c mid far d last
    → LeavesAlone side price b near far d last
LeavesAlone-trans side price b near far c mid d last p q = record {
  config = q.config ∙ p.config;
  far_same = λ j x m. q.far_same j x m ∙ p.far_same j x m;
  levels_same = λ j apart. q.levels_same j apart ∙ p.levels_same j apart;
  orders_same = λ j x apart m.
      q.orders_same j x apart (subst (In x) (sym (p.levels_same j apart)) m)
      ∙ p.orders_same j x apart m;
}

-- The book after matching: well formed, with the aggressor, the ladder and the sink's state as the
-- specification `f` says.
pub record Matched {S : Type 0} (emit : MatchSink S) (side : Side) (b : OrderBook)
    (near far : Contents) (pending a price : ℕ) (s : S) (f : Filled) (r : OrderBook × S)
    : Type 0 where
  pub near' : Contents
  pub live' : List ℕ
  pub free' : List ℕ
  pub book : IsBook side r.0 near' far live' free' pending
  pub is_open : IsOpen near' r.0.orders.orders
  pub is_aggressor : IsAggressor r.0 near' far a price
  pub alone : LeavesAlone side price b near far r.0 near'
  pub aggressor : unlinked (r.0.orders.orders a) ≡ f.aggressor
  pub rest :
      orders_at r.0.orders.orders (ladder side b.config.price_level_count price near') ≡ f.rest
  pub state : r.1 ≡ deliver emit f.executions s
