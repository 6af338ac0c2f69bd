-- ===== src/Core/Commands.antt =====
-- include/sixchange/core/Commands.h. The tagged union `EngineCommand` is a data type with a
-- constructor for each value of `CommandType`; no such value selects an `AmendOrderCommand`.
use sixchange.Core.Types.{
  SequenceNumber, OrderId, ClientOrderId, ClientId, SymbolId, Price, Quantity,
}
use sixchange.Core.Enums.{Side, OrderType, TimeInForce}

pub record NewOrderCommand : Type 0 where
  pub seq : SequenceNumber
  pub price : Price
  pub quantity : Quantity
  pub client_order_id : ClientOrderId
  pub client_id : ClientId
  pub symbol_id : SymbolId
  pub side : Side
  pub order_type : OrderType
  pub tif : TimeInForce

pub record CancelOrderCommand : Type 0 where
  pub seq : SequenceNumber
  pub order_id : OrderId
  pub client_order_id : ClientOrderId
  pub client_id : ClientId
  pub symbol_id : SymbolId

pub record ReplaceOrderCommand : Type 0 where
  pub seq : SequenceNumber
  pub new_price : Price
  pub new_quantity : Quantity
  pub old_client_order_id : ClientOrderId
  pub new_client_order_id : ClientOrderId
  pub client_id : ClientId
  pub symbol_id : SymbolId

pub record AmendOrderCommand : Type 0 where
  pub seq : SequenceNumber
  pub order_id : OrderId
  pub client_order_id : ClientOrderId
  pub client_id : ClientId
  pub symbol_id : SymbolId
  pub new_quantity : Quantity

pub data EngineCommand : Type 0 where
  new_order : NewOrderCommand → EngineCommand
  cancel_order : CancelOrderCommand → EngineCommand
  replace_order : ReplaceOrderCommand → EngineCommand
