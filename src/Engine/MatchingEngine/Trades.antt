-- ===== src/Engine/MatchingEngine/Trades.antt =====
-- The executions of an order by price-time priority: whose they are, and how much they trade.
use sixchange.Base.{
  ◌≢◌, ℕ, zero, suc, ◌+◌, ◌<◌, ◌≡◌, inl, inr, List, [], ◌∷◌, arith, All, All-append, Bool-cases,
  leb, leb→le, ◌==◌, not_==→ne,
}
use sixchange.Core.Enums.{Side, buy, sell}
use sixchange.Core.Commands.{NewOrderCommand}
use sixchange.Engine.Order.{Order, Slots}
use sixchange.Engine.MatchExecution.{MatchExecution}
use sixchange.Engine.OrderBook.Contents.{Contents}
use sixchange.Engine.OrderBook.Invariant.{IsOpen}
use sixchange.Engine.OrderBook.Settling.{reduced}
use sixchange.Engine.OrderBook.Matching.{execution}
use sixchange.Engine.OrderBook.PriceTime.{fill, ladder, up, down, orders_at}

-- The quantity of all executions together.
abbrev pub traded : List MatchExecution → ℕ
traded [] = 0
traded (x ∷ xs) = x.quantity + traded xs

-- An execution of the command's order.
pub record IsTrade (c : NewOrderCommand) (order_id : ℕ) (x : MatchExecution) : Type 0 where
  pub seq : x.seq ≡ c.seq
  pub by_order : x.aggressing_order_id ≡ order_id
  pub by_client : x.aggressing_client_id ≡ c.client_id
  pub some_quantity : 0 < x.quantity

abbrev HasSome : Order → Type 0
HasSome o = 0 < o.remaining_quantity

pub traded-fill :
    (a : Order) (queue : List Order)
    → traded (fill a queue).executions + (fill a queue).aggressor.remaining_quantity
      ≡ a.remaining_quantity
unfolding fill execution
traded-fill a [] = omega arith
traded-fill a (r ∷ rs) = elim (Bool-cases (a.remaining_quantity == 0)) [
  | inl filled ↦ rw filled (omega arith)
  | inr more ↦ elim (Bool-cases (leb r.remaining_quantity a.remaining_quantity)) [
    | inl full ↦
        let rest = traded-fill (reduced a r.remaining_quantity) rs in
        let le = leb→le r.remaining_quantity a.remaining_quantity full in
        rw (more, full) (omega (arith, rest, le))
    | inr part ↦ rw (more, part) (omega arith)
  ]
]

module _ (c : NewOrderCommand) (id : ℕ) where
  -- An order that stands for the command.
  pub record IsOrderOf (a : Order) : Type 0 where
    pub seq : a.seq ≡ c.seq
    pub order_id : a.order_id ≡ id
    pub client_id : a.client_id ≡ c.client_id

  pub fill-IsTrade :
      (a : Order) (queue : List Order)
      → IsOrderOf a
      → All HasSome queue
      → All (IsTrade c id) (fill a queue).executions
  unfolding fill execution
  fill-IsTrade a [] k opened = tt
  fill-IsTrade a (r ∷ rs) k opened = elim (Bool-cases (a.remaining_quantity == 0)) [
    | inl filled ↦ rw filled tt
    | inr more ↦ elim (Bool-cases (leb r.remaining_quantity a.remaining_quantity)) [
      | inl full ↦
          rw (more, full)
            (
              record {
                seq = k.seq;
                by_order = k.order_id;
                by_client = k.client_id;
                some_quantity = opened.0;
              },
              fill-IsTrade (reduced a r.remaining_quantity) rs
                  (record { seq = k.seq; order_id = k.order_id; client_id = k.client_id }) opened.1,
            )
      | inr part ↦
          rw (more, part)
            (
              record {
                seq = k.seq;
                by_order = k.order_id;
                by_client = k.client_id;
                some_quantity = positive a (not_==→ne a.remaining_quantity 0 more);
              },
              tt,
            )
    ]
  ]
    where
      positive : (o : Order) → o.remaining_quantity ≢ 0 → 0 < o.remaining_quantity
      positive o ne = omega (arith, ne)

module _ (P : ℕ → Type 0) (v : Contents) (all : (j : ℕ) → All P (v j)) where
  All-up : (from rounds : ℕ) → All P (up v from rounds)
  unfolding up
  All-up from zero = tt
  All-up from (suc n) = All-append P (v from) (up v (from + 1) n) (all from) (All-up (from + 1) n)

  All-down : (below limit : ℕ) → All P (down v below limit)
  unfolding down
  All-down zero limit = tt
  All-down (suc n) limit = elim (Bool-cases (leb limit n)) [
    | inl on ↦ rw on (All-append P (v n) (down v n limit) (all n) (All-down n limit))
    | inr off ↦ rw off tt
  ]

  All-ladder : (side : Side) (count price : ℕ) → All P (ladder side count price v)
  unfolding ladder
  All-ladder sell count price = All-up 0 (price + 1)
  All-ladder buy count price = All-down count price

HasSome-orders_at :
    (h : Slots) (xs : List ℕ)
    → All (λ x. 0 < (h x).remaining_quantity) xs
    → All HasSome (orders_at h xs)
HasSome-orders_at h [] all = tt
HasSome-orders_at h (x ∷ xs) all = (all.0, HasSome-orders_at h xs all.1)

-- The orders that a price crosses have something left where all orders of the side have.
pub ladder-HasSome :
    (h : Slots) (v : Contents) (side : Side) (count price : ℕ)
    → IsOpen v h
    → All HasSome (orders_at h (ladder side count price v))
ladder-HasSome h v side count price opened =
    HasSome-orders_at h (ladder side count price v)
      (All-ladder (λ x. 0 < (h x).remaining_quantity) v opened side count price)
