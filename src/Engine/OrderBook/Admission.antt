-- ===== src/Engine/OrderBook/Admission.antt =====
-- `OrderBook::admit`.
use sixchange.Base.{ℕ, true, not, none, some, leb, ◌==◌, if◌then◌else◌, Expected, value, unexpected}
use sixchange.Core.Types.{OrderId}
use sixchange.Core.Enums.{RejectReason}
use sixchange.Core.Commands.{NewOrderCommand}
use sixchange.Engine.Order.{OrderPtr, Order, write}
use sixchange.Engine.OrderPool
use sixchange.Engine.OrderPool.{OrderPool}
use sixchange.Engine.FixedOrderMap
use sixchange.Engine.FixedOrderMap.{FixedOrderMap, InsertResult, inserted, duplicate_key, full}
use sixchange.Engine.OrderBook.State.{OrderBook}

abbrev pub AdmitResult : Type 0
AdmitResult = Expected ℕ RejectReason

-- The assignments to the fields of a new order; its links stay.
unfoldable pub describe : NewOrderCommand → OrderId → Order → Order
describe c order_id o = record o {
  order_id = order_id;
  client_order_id = c.client_order_id;
  client_id = c.client_id;
  symbol_id = c.symbol_id;
  side = c.side;
  price = c.price;
  remaining_quantity = c.quantity;
  seq = c.seq;
  active = true;
}

-- The switch on the result of the lookup map's `insert`; a failure gives the slot back.
unfoldable pub conclude : OrderBook → ℕ → InsertResult → OrderBook × AdmitResult
conclude b order inserted = (b, value order)
conclude b order duplicate_key = (
  record b { orders = OrderPool.release b.orders order },
  unexpected RejectReason.matching_engine_error,
)
conclude b order full = (
  record b { orders = OrderPool.release b.orders order },
  unexpected RejectReason.capacity_exhausted,
)

-- What follows the allocation.
unfoldable pub register : OrderBook → NewOrderCommand → OrderId → OrderPtr → OrderBook × AdmitResult
unfolding describe conclude
register b c order_id none = (b, unexpected RejectReason.capacity_exhausted)
register b c order_id (some order) =
    let h = write b.orders.orders order (describe c order_id (b.orders.orders order)) in
    let (by_id, result) = FixedOrderMap.insert b.orders_by_id order_id (some order) in
    conclude (record b { orders = record (b.orders) { orders = h }; orders_by_id = by_id }) order
      result

unfoldable pub admit : OrderBook → NewOrderCommand → OrderId → OrderBook × AdmitResult
unfolding register
admit b c order_id =
    if not (c.symbol_id == b.symbol_id)
    then (b, unexpected RejectReason.unknown_symbol)
    else if c.quantity == 0
    then (b, unexpected RejectReason.invalid_quantity)
    else if leb b.config.price_level_count c.price
    then (b, unexpected RejectReason.invalid_price)
    else let (order, pool) = OrderPool.allocate b.orders in
      register (record b { orders = pool }) c order_id order
