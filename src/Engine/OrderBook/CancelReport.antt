-- ===== src/Engine/OrderBook/CancelReport.antt =====
-- Whose order the report of a `cancel` is about, whatever the book.
use sixchange.Base.{
  ℕ, ◌≡◌, ap, ◌∙◌, inl, inr, Option, none, some, Bool-cases, ◌==◌, ==→eq, value, unexpected,
}
use sixchange.Core.Commands.{CancelOrderCommand}
use sixchange.Engine.Order.{Order, OrderPtr}
use sixchange.Engine.FixedOrderMap
use sixchange.Engine.PriceLevel.Queue.{unlinked}
use sixchange.Engine.PriceLevel.Unlinking.{remove-SameOrders}
use sixchange.Engine.OrderBook.State.{OrderBook, half}
use sixchange.Engine.OrderBook.Cancellation.{
  CancelResult, unrest_half, take_out, cancel_found, cancel, report,
}

-- The report names the client and the client's order id.
abbrev pub IsReport : CancelOrderCommand → CancelResult → Type 0
IsReport c (value o) = (o.client_id ≡ c.client_id) × (o.client_order_id ≡ c.client_order_id)
IsReport c (unexpected reason) = Unit

take_out-IsReport :
    (b : OrderBook) (c : CancelOrderCommand) (p : ℕ)
    → (b.orders.orders p).client_id ≡ c.client_id
    → (b.orders.orders p).client_order_id ≡ c.client_order_id
    → IsReport c (take_out b c.order_id p).1
unfolding take_out unrest_half report
take_out-IsReport b c p mine named =
    elim (Bool-cases (FixedOrderMap.erase none b.orders_by_id c.order_id).1) [
      | inr kept ↦ rw kept tt
      | inl erased ↦ rw erased (
        ap (λ (o : Order). o.client_id) same ∙ mine,
        ap (λ (o : Order). o.client_order_id) same ∙ named,
      )
    ]
  where
    o : Order
    o = b.orders.orders p

    same :
        unlinked (
          (unrest_half o.side b.config.price_level_count
              (half o.side b)
              o.price
              p
              b.orders.orders).1
            p)
        ≡ unlinked o
    same = remove-SameOrders _ p b.orders.orders p

pub cancel-IsReport : (b : OrderBook) (c : CancelOrderCommand) → IsReport c (cancel b c).1
unfolding cancel cancel_found
cancel-IsReport b c = elim (Bool-cases (c.symbol_id == b.symbol_id)) [
  | inr unknown ↦ rw unknown tt
  | inl known ↦ rw known (answered (FixedOrderMap.find b.orders_by_id c.order_id))
]
  where
    answered : (found : Option OrderPtr) → IsReport c (cancel_found b c found).1
    answered none = tt
    answered (some none) = tt
    answered (some (some p)) = elim (Bool-cases ((b.orders.orders p).client_id == c.client_id)) [
      | inr theirs ↦ rw theirs tt
      | inl mine ↦ elim (Bool-cases ((b.orders.orders p).client_order_id == c.client_order_id)) [
        | inr other ↦ rw (mine, other) tt
        | inl named ↦ rw (mine, named) (take_out-IsReport b c p (==→eq _ _ mine) (==→eq _ _ named))
      ]
    ]
