-- ===== src/Engine/OrderBook/Cancellation.antt =====
-- `OrderBook::cancel`.
use sixchange.Base.{
  ℕ, Bool, false, not, ◌&&◌, ◌||◌, Option, none, some, ◌==◌, if◌then◌else◌, sub64, Expected, value,
  unexpected,
}
use sixchange.Core.Types.{OrderId, ClientOrderId, ClientId, SymbolId, Price, Quantity}
use sixchange.Core.Enums.{Side, RejectReason}
use sixchange.Core.Commands.{CancelOrderCommand}
use sixchange.Engine.Order.{OrderPtr, Order, Slots}
use sixchange.Engine.PriceLevel
use sixchange.Engine.OrderPool
use sixchange.Engine.FixedOrderMap
use sixchange.Engine.OrderBook.State.{
  HalfBook, OrderBook, half, set_half, set_level, update_best_after_removal,
}

pub record CancelledOrder : Type 0 where
  pub order_id : OrderId
  pub client_order_id : ClientOrderId
  pub client_id : ClientId
  pub symbol_id : SymbolId
  pub side : Side
  pub price : Price
  pub cancelled_quantity : Quantity

abbrev pub CancelResult : Type 0
CancelResult = Expected CancelledOrder RejectReason

-- `best && *best == index`
unfoldable pub is_best : Option ℕ → ℕ → Bool
is_best none index = false
is_best (some best) index = best == index

-- The removal from the level on one side, and the upkeep of its best price.
unfoldable pub unrest_half :
    Side → (price_level_count : ℕ) → HalfBook → (index order : ℕ) → Slots → HalfBook × Slots
unfolding is_best
unrest_half side count s index order h =
    let removed = PriceLevel.remove (s.levels index) order h in
    let s' : HalfBook = record {
      levels = set_level s.levels index removed.0;
      best = s.best;
      active_orders = sub64 s.active_orders 1;
    } in
    (
      if is_best s.best index && PriceLevel.empty removed.0
          then update_best_after_removal side count s' index
          else s',
      removed.1,
    )

-- The report of the cancelled order, read after its removal.
unfoldable pub report : Order → CancelledOrder
report o = record {
  order_id = o.order_id;
  client_order_id = o.client_order_id;
  client_id = o.client_id;
  symbol_id = o.symbol_id;
  side = o.side;
  price = o.price;
  cancelled_quantity = o.remaining_quantity;
}

-- What follows the checks.
unfoldable pub take_out : OrderBook → OrderId → (order : ℕ) → OrderBook × CancelResult
unfolding unrest_half report
take_out b order_id order =
    let o = b.orders.orders order in
    let r =
      unrest_half o.side b.config.price_level_count (half o.side b) o.price order b.orders.orders in
    let (by_id, erased) = FixedOrderMap.erase none b.orders_by_id order_id in
    let b' =
      set_half o.side r.0
        (record b { orders = record (b.orders) { orders = r.1 }; orders_by_id = by_id }) in
    if not erased
    then (b', unexpected RejectReason.matching_engine_error)
    else (record b' { orders = OrderPool.release b'.orders order }, value (report (r.1 order)))

-- What follows the lookup: `none` in either way is an unknown order.
unfoldable pub cancel_found :
    OrderBook → CancelOrderCommand → Option OrderPtr → OrderBook × CancelResult
unfolding take_out
cancel_found b c none = (b, unexpected RejectReason.unknown_order)
cancel_found b c (some none) = (b, unexpected RejectReason.unknown_order)
cancel_found b c (some (some order)) =
    if not ((b.orders.orders order).client_id == c.client_id)
      || not ((b.orders.orders order).client_order_id == c.client_order_id)
    then (b, unexpected RejectReason.not_order_owner)
    else take_out b c.order_id order

unfoldable pub cancel : OrderBook → CancelOrderCommand → OrderBook × CancelResult
unfolding cancel_found
cancel b c =
    if not (c.symbol_id == b.symbol_id)
    then (b, unexpected RejectReason.unknown_symbol)
    else cancel_found b c (FixedOrderMap.find b.orders_by_id c.order_id)
