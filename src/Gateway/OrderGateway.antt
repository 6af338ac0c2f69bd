-- ===== src/Gateway/OrderGateway.antt =====
-- src/gateway/OrderGateway.h and OrderGateway.cpp. The outbound sink is a function on the state `S`
-- of its context. The process may have been ended by std::terminate: then nothing happens any more.
pub mod Listening
pub mod Symbols
pub mod Answering
pub mod Cancelling
mod Examples
use sixchange.Base.{
  Bool, not, Option, none, some, ◌==◌, if◌then◌else◌, Bytes, codes, same, Run, ok, ◌>>=◌, [],
}
use sixchange.Core.Types.{ClientOrderId, ClientId, OrderId, SymbolId, SequenceNumber}
use sixchange.Core.Enums.{RejectReason}
use sixchange.Core.Commands.{EngineCommand, NewOrderCommand, CancelOrderCommand}
use sixchange.Core.Commands
use sixchange.Core.Events.{
  EngineEvent, OrderAcceptedEvent, CommandRejectedEvent, OrderCancelledEvent, order_accepted,
  command_rejected, order_rested, trade_executed, order_cancelled, order_expired, order_replaced,
}
use sixchange.Core.Dispatcher.{EngineEventSink}
use sixchange.Engine.Sequencer.{Sequencer}
use sixchange.Engine.Sequencer
use sixchange.Engine.MatchingEngine.{MatchingEngine, process}
use sixchange.Protocol.Messages.{
  NewOrderRequest, CancelOrderRequest, InboundMessage, OutboundMessageSink, new_order, cancel_order,
  accepted, cancelled, rejected,
}
use sixchange.Gateway.ClientOrders.{ClientOrders, find, contains, emplace}

pub record OrderGateway : Type 0 where
  pub client_id : ClientId
  pub client_orders : ClientOrders

abbrev pub make : OrderGateway
make = record { client_id = 1; client_orders = [] }

-- The gateway and its outbound context, while the process runs.
pub data Session (S : Type 0) : Type 0 where
  running : OrderGateway → S → Session S
  terminated : Session S

unfoldable pub resolve_symbol : Bytes → Option SymbolId
resolve_symbol symbol = if same symbol (codes "AAPL") then some 0 else none

module _ {S : Type 0} (outbound_sink : OutboundMessageSink S) where
  unfoldable pub emit_rejection : Option ClientOrderId → RejectReason → S → S
  emit_rejection client_order_id reason s =
      outbound_sink (rejected (record { client_order_id = client_order_id; reason = reason })) s

  -- What follows the `emplace` of an accepted order.
  unfoldable pub registered :
      OrderGateway → OrderAcceptedEvent → ClientOrders × Bool → S → Session S
  registered g e (client_orders, inserted) s =
      if not inserted
      then terminated
      else running (record g { client_orders = client_orders })
          (outbound_sink
            (accepted (record { client_order_id = e.client_order_id; order_id = e.order_id })) s)

  unfoldable pub on_order_accepted : OrderGateway → OrderAcceptedEvent → S → Session S
  unfolding registered
  on_order_accepted g e s =
      if not (e.client_id == g.client_id)
      then running g s
      else registered g e (emplace g.client_orders e.client_order_id e.order_id) s

  unfoldable pub on_command_rejected : OrderGateway → CommandRejectedEvent → S → Session S
  unfolding emit_rejection
  on_command_rejected g e s =
      if not (e.client_id == g.client_id)
      then running g s
      else running g (emit_rejection (some e.client_order_id) e.reason s)

  unfoldable pub on_order_cancelled : OrderGateway → OrderCancelledEvent → S → Session S
  on_order_cancelled g e s =
      if not (e.client_id == g.client_id)
      then running g s
      else running g (
          outbound_sink
            (cancelled (record { client_order_id = e.client_order_id; order_id = e.order_id })) s)

  unfoldable pub on_engine_event : EngineEvent → Session S → Session S
  unfolding on_order_accepted on_command_rejected on_order_cancelled
  on_engine_event event terminated = terminated
  on_engine_event (order_accepted e) (running g s) = on_order_accepted g e s
  on_engine_event (command_rejected e) (running g s) = on_command_rejected g e s
  on_engine_event (order_cancelled e) (running g s) = on_order_cancelled g e s
  on_engine_event (order_rested e) (running g s) = running g s
  on_engine_event (trade_executed e) (running g s) = running g s
  on_engine_event (order_expired e) (running g s) = running g s
  on_engine_event (order_replaced e) (running g s) = running g s

-- The engine, the sequencer and the session that the gateway works on.
pub record Exchange (S : Type 0) : Type 0 where
  pub engine : MatchingEngine
  pub sequencer : Sequencer
  pub session : Session S

-- The commands that the gateway submits.
unfoldable pub new_order_command :
    ClientId → NewOrderRequest → SymbolId → SequenceNumber → NewOrderCommand
new_order_command client_id r symbol_id seq = record {
  seq = seq;
  price = r.price;
  quantity = r.quantity;
  client_order_id = r.client_order_id;
  client_id = client_id;
  symbol_id = symbol_id;
  side = r.side;
  order_type = r.order_type;
  tif = r.tif;
}

unfoldable pub cancel_command :
    ClientId → CancelOrderRequest → SymbolId → OrderId → SequenceNumber → CancelOrderCommand
cancel_command client_id r symbol_id order_id seq = record {
  seq = seq;
  order_id = order_id;
  client_order_id = r.client_order_id;
  client_id = client_id;
  symbol_id = symbol_id;
}

-- `engine_sink` is where the engine reports; the events get to `on_engine_event` through it.
module _ {S : Type 0} (outbound_sink : OutboundMessageSink S)
    (engine_sink : EngineEventSink (Session S)) where
  -- A command with the next sequence number.
  unfoldable pub submit :
      MatchingEngine
      → Sequencer
      → OrderGateway
      → S
      → (SequenceNumber → EngineCommand)
      → Run (Exchange S)
  submit e q g s command =
      let (seq, q') = Sequencer.next q in
      process engine_sink e (command seq) (running g s) >>= λ (e', session).
      ok (record { engine = e'; sequencer = q'; session = session })

  abbrev pub answer : MatchingEngine → Sequencer → OrderGateway → S → Run (Exchange S)
  answer e q g s = ok (record { engine = e; sequencer = q; session = running g s })

  unfoldable pub submit_new_order :
      MatchingEngine
      → Sequencer
      → OrderGateway
      → S
      → NewOrderRequest
      → Option SymbolId
      → Run (Exchange S)
  unfolding submit new_order_command
  submit_new_order e q g s r none =
      answer e q g
        (emit_rejection outbound_sink (some r.client_order_id) RejectReason.unknown_symbol s)
  submit_new_order e q g s r (some symbol_id) =
      submit e q g s (λ seq. Commands.new_order (new_order_command g.client_id r symbol_id seq))

  unfoldable pub handle_new_order :
      MatchingEngine → Sequencer → OrderGateway → S → NewOrderRequest → Run (Exchange S)
  unfolding submit_new_order
  handle_new_order e q g s r =
      if contains g.client_orders r.client_order_id
      then answer e q g (
          emit_rejection outbound_sink (some r.client_order_id)
            RejectReason.duplicate_client_order_id s)
      else submit_new_order e q g s r (resolve_symbol r.symbol)

  unfoldable pub submit_cancel :
      MatchingEngine
      → Sequencer
      → OrderGateway
      → S
      → CancelOrderRequest
      → Option SymbolId
      → Option OrderId
      → Run (Exchange S)
  unfolding submit cancel_command
  submit_cancel e q g s r none found =
      answer e q g
        (emit_rejection outbound_sink (some r.client_order_id) RejectReason.unknown_symbol s)
  submit_cancel e q g s r (some symbol_id) none =
      answer e q g
        (emit_rejection outbound_sink (some r.client_order_id) RejectReason.unknown_order s)
  submit_cancel e q g s r (some symbol_id) (some order_id) =
      submit e q g s
        (λ seq. Commands.cancel_order (cancel_command g.client_id r symbol_id order_id seq))

  unfoldable pub handle_cancel_order :
      MatchingEngine → Sequencer → OrderGateway → S → CancelOrderRequest → Run (Exchange S)
  unfolding submit_cancel
  handle_cancel_order e q g s r =
      submit_cancel e q g s r (resolve_symbol r.symbol) (find g.client_orders r.client_order_id)

  unfoldable pub visit :
      MatchingEngine → Sequencer → OrderGateway → S → InboundMessage → Run (Exchange S)
  unfolding handle_new_order handle_cancel_order
  visit e q g s (new_order r) = handle_new_order e q g s r
  visit e q g s (cancel_order r) = handle_cancel_order e q g s r

  -- After std::terminate there is no process to handle a message.
  unfoldable pub handle : InboundMessage → Exchange S → Run (Exchange S)
  unfolding visit
  handle m x = elim x.session [ running g s ↦ visit x.engine x.sequencer g s m | terminated ↦ ok x ]
