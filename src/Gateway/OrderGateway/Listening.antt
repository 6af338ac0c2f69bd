-- ===== src/Gateway/OrderGateway/Listening.antt =====
-- What the gateway makes of the engine's events.
use sixchange.Base.{ℕ, ◌≡◌, refl, false, ◌==◌, List, [], ◌∷◌, ==-refl, some, inl, inr, Bool-cases}
use sixchange.Core.Commands.{NewOrderCommand, CancelOrderCommand}
use sixchange.Core.Enums.{CommandType, RejectReason}
use sixchange.Engine.MatchExecution.{MatchExecution}
use sixchange.Engine.OrderBook.Cancellation.{CancelledOrder}
use sixchange.Engine.MatchingEngine.{rejection, cancellation}
use sixchange.Engine.MatchingEngine.Answers.{send, trades, rests, accepts}
use sixchange.Protocol.Messages.{OutboundMessageSink, accepted, cancelled, rejected}
use sixchange.Gateway.ClientOrders.{contains, emplace-fresh}
use sixchange.Gateway.OrderGateway.{
  OrderGateway, Session, running, terminated, on_engine_event, emit_rejection,
}

-- The gateway with one more order.
abbrev pub with_order : OrderGateway → (client_order_id order_id : ℕ) → OrderGateway
with_order g client_order_id order_id = record g {
  client_orders = (client_order_id, order_id) ∷ g.client_orders;
}

module _ {S : Type 0} (outbound_sink : OutboundMessageSink S) where
  -- Trades and resting orders are no news for the client.
  pub trades-silent :
      (xs : List MatchExecution) (id : ℕ) (t : Session S)
      → send (on_engine_event outbound_sink) (trades id xs) t ≡ t
  unfolding on_engine_event
  trades-silent [] id t = refl
  trades-silent (x ∷ xs) id terminated = trades-silent xs _ _
  trades-silent (x ∷ xs) id (running g s) = trades-silent xs _ _

  pub rests-silent :
      (c : NewOrderCommand) (id left : ℕ) (t : Session S)
      → send (on_engine_event outbound_sink) (rests c id left) t ≡ t
  unfolding on_engine_event
  rests-silent c id left terminated = elim (Bool-cases (left == 0)) [
    | inl gone ↦ rw gone refl
    | inr some_left ↦ rw some_left refl
  ]
  rests-silent c id left (running g s) = elim (Bool-cases (left == 0)) [
    | inl gone ↦ rw gone refl
    | inr some_left ↦ rw some_left refl
  ]

  module _ (g : OrderGateway) (s : S) where
    pub on_engine_event-acceptance :
        (c : NewOrderCommand) (id : ℕ)
        → c.client_id ≡ g.client_id
        → contains g.client_orders c.client_order_id ≡ false
        → on_engine_event outbound_sink (accepts c id) (running g s)
          ≡ running (with_order g c.client_order_id id) (
              outbound_sink
                (accepted (record { client_order_id = c.client_order_id; order_id = id }))
                s)
    unfolding on_engine_event
    on_engine_event-acceptance c id mine fresh =
        rw (mine, ==-refl g.client_id, emplace-fresh g.client_orders c.client_order_id id fresh)

    pub on_engine_event-rejection :
        (seq client_order_id client_id symbol_id : ℕ) (type : CommandType) (reason : RejectReason)
        → client_id ≡ g.client_id
        → on_engine_event outbound_sink
            (rejection seq client_order_id client_id symbol_id type reason)
            (running g s)
          ≡ running g (
              outbound_sink
                (rejected (record { client_order_id = some client_order_id; reason = reason }))
                s)
    unfolding on_engine_event rejection emit_rejection
    on_engine_event-rejection seq client_order_id client_id symbol_id type reason mine =
        rw (mine, ==-refl g.client_id)

    pub on_engine_event-cancellation :
        (c : CancelOrderCommand) (o : CancelledOrder)
        → o.client_id ≡ g.client_id
        → on_engine_event outbound_sink (cancellation c o) (running g s)
          ≡ running g (
              outbound_sink
                (cancelled (record { client_order_id = o.client_order_id; order_id = o.order_id }))
                s)
    unfolding on_engine_event cancellation
    on_engine_event-cancellation c o mine = rw (mine, ==-refl g.client_id)
