-- ===== src/Core/Events.antt =====
-- include/sixchange/core/Events.h. The tagged union `EngineEvent` is a data type with a
-- constructor for each value of `EngineEventType`.
use sixchange.Core.Types.{
  SequenceNumber, OrderId, TradeId, ClientOrderId, ClientId, SymbolId, Price, Quantity,
}
use sixchange.Core.Enums.{Side, OrderType, TimeInForce, CommandType, RejectReason}

pub record OrderAcceptedEvent : Type 0 where
  pub seq : SequenceNumber
  pub order_id : OrderId
  pub client_order_id : ClientOrderId
  pub client_id : ClientId
  pub symbol_id : SymbolId
  pub side : Side
  pub order_type : OrderType
  pub tif : TimeInForce
  pub price : Price
  pub quantity : Quantity

pub record CommandRejectedEvent : Type 0 where
  pub seq : SequenceNumber
  pub client_order_id : ClientOrderId
  pub client_id : ClientId
  pub symbol_id : SymbolId
  pub command_type : CommandType
  pub reason : RejectReason

pub record OrderRestedEvent : Type 0 where
  pub seq : SequenceNumber
  pub order_id : OrderId
  pub client_order_id : ClientOrderId
  pub client_id : ClientId
  pub symbol_id : SymbolId
  pub side : Side
  pub price : Price
  pub remaining_quantity : Quantity

pub record TradeExecutedEvent : Type 0 where
  pub seq : SequenceNumber
  pub trade_id : TradeId
  pub symbol_id : SymbolId
  pub price : Price
  pub quantity : Quantity
  pub aggressing_side : Side
  pub aggressing_order_id : OrderId
  pub aggressing_client_order_id : ClientOrderId
  pub aggressing_client_id : ClientId
  pub aggressing_remaining_quantity : Quantity
  pub resting_order_id : OrderId
  pub resting_client_order_id : ClientOrderId
  pub resting_client_id : ClientId
  pub resting_remaining_quantity : Quantity

pub record OrderCancelledEvent : Type 0 where
  pub seq : SequenceNumber
  pub order_id : OrderId
  pub client_order_id : ClientOrderId
  pub client_id : ClientId
  pub symbol_id : SymbolId
  pub side : Side
  pub price : Price
  pub cancelled_quantity : Quantity

pub record OrderExpiredEvent : Type 0 where
  pub seq : SequenceNumber
  pub order_id : OrderId
  pub client_order_id : ClientOrderId
  pub client_id : ClientId
  pub symbol_id : SymbolId
  pub expired_quantity : Quantity

-- Declared beside the others, and no alternative of the union.
pub record OrderAmendedEvent : Type 0 where
  pub seq : SequenceNumber
  pub order_id : OrderId
  pub client_order_id : ClientOrderId
  pub client_id : ClientId
  pub symbol_id : SymbolId
  pub price : Price
  pub old_quantity : Quantity
  pub new_quantity : Quantity

pub record OrderReplacedEvent : Type 0 where
  pub seq : SequenceNumber
  pub order_id : OrderId
  pub old_client_order_id : ClientOrderId
  pub new_client_order_id : ClientOrderId
  pub client_id : ClientId
  pub symbol_id : SymbolId
  pub new_price : Price
  pub new_quantity : Quantity

pub data EngineEvent : Type 0 where
  order_accepted : OrderAcceptedEvent → EngineEvent
  command_rejected : CommandRejectedEvent → EngineEvent
  order_rested : OrderRestedEvent → EngineEvent
  trade_executed : TradeExecutedEvent → EngineEvent
  order_cancelled : OrderCancelledEvent → EngineEvent
  order_expired : OrderExpiredEvent → EngineEvent
  order_replaced : OrderReplacedEvent → EngineEvent
