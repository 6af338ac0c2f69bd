-- ===== src/Gateway/OrderGateway/Examples.antt =====
-- A gateway that knows one order, in front of an engine with a resting sell order.
use sixchange.Base.{◌≡◌, refl, some, none, List, [], ◌∷◌, ◌++◌, codes, Returns}
use sixchange.Core.Enums.{buy, limit, gfd}
use sixchange.Engine.Sequencer.{Sequencer}
use sixchange.Engine.MatchingEngine.Examples.{engine}
use sixchange.Protocol.Messages.{
  NewOrderRequest, CancelOrderRequest, OutboundMessage, OutboundMessageSink,
}
use sixchange.Gateway.ClientOrders.{find}
use sixchange.Gateway.OrderGateway.{
  OrderGateway, on_engine_event, handle_cancel_order, resolve_symbol,
}
use sixchange.Gateway.OrderGateway.Cancelling.{AnswersCancel, handle_cancel_order-Answers}

abbrev gateway : OrderGateway
gateway = record { client_id = 1; client_orders = (40, 1) ∷ [] }

abbrev sequencer : Sequencer
sequencer = record { next_sequence = 2 }

abbrev collect : OutboundMessageSink (List OutboundMessage)
collect message messages = messages ++ message ∷ []

abbrev bid : NewOrderRequest
bid = record {
  client_order_id = 41;
  symbol = codes "AAPL";
  side = buy;
  order_type = limit;
  tif = gfd;
  price = 6;
  quantity = 12;
}

abbrev request : CancelOrderRequest
request = record { client_order_id = 40; symbol = codes "AAPL" }

handle_cancel_order-Answers_example :
    Returns
      (AnswersCancel collect engine sequencer gateway [] request)
      (handle_cancel_order collect (on_engine_event collect) engine sequencer gateway [] request)
handle_cancel_order-Answers_example =
    handle_cancel_order-Answers collect engine sequencer gateway [] request

knows_order : find gateway.client_orders 40 ≡ some 1
unfolding find
knows_order = refl

knows_symbol : resolve_symbol (codes "AAPL") ≡ some 0
unfolding resolve_symbol
knows_symbol = refl

misses_symbol : resolve_symbol (codes "MSFT") ≡ none
unfolding resolve_symbol
misses_symbol = refl
