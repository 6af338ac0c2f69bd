-- ===== src/Engine/MatchExecution.antt =====
-- src/engine/MatchExecution.h. A `MatchSink` (src/engine/MatchSink.h) is a callback with a context:
-- here a function on the state `S` of the context.
use sixchange.Core.Types.{
  SequenceNumber, OrderId, ClientOrderId, ClientId, SymbolId, Price, Quantity,
}
use sixchange.Core.Enums.{Side}

pub record MatchExecution : Type 0 where
  pub seq : SequenceNumber
  pub symbol_id : SymbolId
  pub aggressing_side : Side
  pub price : Price
  pub quantity : Quantity
  pub aggressing_order_id : OrderId
  pub aggressing_client_order_id : ClientOrderId
  pub aggressing_client_id : ClientId
  pub aggressing_remaining_quantity : Quantity
  pub resting_order_id : OrderId
  pub resting_client_order_id : ClientOrderId
  pub resting_client_id : ClientId
  pub resting_remaining_quantity : Quantity

abbrev pub MatchSink : Type 0 → Type 0
MatchSink S = MatchExecution → S → S
