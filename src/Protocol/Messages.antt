-- ===== src/Protocol/Messages.antt =====
-- include/sixchange/protocol/Messages.h and OutboundMessageSink.h. A symbol is a view of a text:
-- here its bytes. A sink is a callback with a context: here a function on the context's state.
use sixchange.Base.{Bytes, Option}
use sixchange.Core.Types.{ClientOrderId, OrderId, Price, Quantity}
use sixchange.Core.Enums.{Side, OrderType, TimeInForce, RejectReason}

pub record NewOrderRequest : Type 0 where
  pub client_order_id : ClientOrderId
  pub symbol : Bytes
  pub side : Side
  pub order_type : OrderType
  pub tif : TimeInForce
  pub price : Price
  pub quantity : Quantity

pub record CancelOrderRequest : Type 0 where
  pub client_order_id : ClientOrderId
  pub symbol : Bytes

pub record OrderAccepted : Type 0 where
  pub client_order_id : ClientOrderId
  pub order_id : OrderId

pub record OrderCancelled : Type 0 where
  pub client_order_id : ClientOrderId
  pub order_id : OrderId

pub record OrderRejected : Type 0 where
  pub client_order_id : Option ClientOrderId
  pub reason : RejectReason

pub data InboundMessage : Type 0 where
  new_order : NewOrderRequest → InboundMessage
  cancel_order : CancelOrderRequest → InboundMessage

pub data OutboundMessage : Type 0 where
  accepted : OrderAccepted → OutboundMessage
  cancelled : OrderCancelled → OutboundMessage
  rejected : OrderRejected → OutboundMessage

abbrev pub OutboundMessageSink : Type 0 → Type 0
OutboundMessageSink S = OutboundMessage → S → S
