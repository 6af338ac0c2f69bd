-- ===== src/Gateway/OrderGateway/Answering.antt =====
-- How the gateway answers a message.
use sixchange.Base.{
  ◌≢◌, codes, ℕ, ◌≡◌, ◌<◌, ◌^◌, refl, ◌∙◌, false, true, Option, none, some, inl, inr, Bool-cases,
  Returns, add64, Returns-bind,
}
use sixchange.Core.Commands.{NewOrderCommand}
use sixchange.Core.Enums.{RejectReason}
use sixchange.Engine.Sequencer.{Sequencer}
use sixchange.Engine.Sequencer
use sixchange.Engine.MatchingEngine.{MatchingEngine, rejection, process, process_new_order}
use sixchange.Engine.MatchingEngine.Sound.{IsSound}
use sixchange.Engine.MatchingEngine.Answers.{Reported, Refusal, Acceptance, trades}
use sixchange.Engine.MatchingEngine.Sending.{send-append}
use sixchange.Engine.MatchingEngine.Reasons.{IsReason, IsSupported, IsValid}
use sixchange.Gateway.OrderGateway.Symbols.{resolve_symbol-some, resolve_symbol-none}
use sixchange.Engine.MatchingEngine.Reports.{process_new_order-Reported}
use sixchange.Protocol.Messages.{NewOrderRequest, OutboundMessage, OutboundMessageSink}
use sixchange.Gateway.ClientOrders.{contains}
use sixchange.Gateway.OrderGateway.{
  OrderGateway, Session, running, Exchange, on_engine_event, emit_rejection, resolve_symbol,
  new_order_command, handle_new_order, submit_new_order, submit,
}
use sixchange.Gateway.OrderGateway.Listening.{
  with_order, trades-silent, rests-silent, on_engine_event-acceptance, on_engine_event-rejection,
}

-- The client's order as a command, with a sequence number.
abbrev pub order_of : (client_id seq : ℕ) → NewOrderRequest → NewOrderCommand
order_of client_id seq r = record {
  seq = seq;
  price = r.price;
  quantity = r.quantity;
  client_order_id = r.client_order_id;
  client_id = client_id;
  symbol_id = 0;
  side = r.side;
  order_type = r.order_type;
  tif = r.tif;
}

module _ {S : Type 0} (outbound_sink : OutboundMessageSink S) (e : MatchingEngine) (q : Sequencer)
    (g : OrderGateway) (s : S) where
  -- The client is told the reason.
  abbrev pub refused : (client_order_id : ℕ) → RejectReason → Session S
  refused id reason = running g (
      outbound_sink
        (OutboundMessage.rejected (record { client_order_id = some id; reason = reason })) s)

  -- The client is told the reason, and nothing else happens.
  abbrev pub told : (client_order_id : ℕ) → RejectReason → Exchange S
  told id reason = record { engine = e; sequencer = q; session = refused id reason }

  -- The sequencer once the engine has been asked.
  abbrev pub used : Sequencer
  used = record { next_sequence = add64 q.next_sequence 1 }

  -- What the engine is asked.
  abbrev pub asked : NewOrderRequest → NewOrderCommand
  asked r = order_of g.client_id q.next_sequence r

  -- The answers to a new order. A known client order id is refused before the symbol is looked at,
  -- and an unknown symbol before the engine is asked. The engine either refuses the order, for one
  -- of its reasons, and then it is not registered, or accepts it, and then it is registered under
  -- the id it got.
  pub data AnswersNewOrder (r : NewOrderRequest) (x : Exchange S) : Type 0 where
    duplicate :
        contains g.client_orders r.client_order_id ≡ true
        → x ≡ told r.client_order_id RejectReason.duplicate_client_order_id
        → AnswersNewOrder r x
    unknown_symbol :
        contains g.client_orders r.client_order_id ≡ false
        → r.symbol ≢ codes "AAPL"
        → x ≡ told r.client_order_id RejectReason.unknown_symbol
        → AnswersNewOrder r x
    engine_refused :
        contains g.client_orders r.client_order_id ≡ false
        → r.symbol ≡ codes "AAPL"
        → (reason : RejectReason) → IsReason e.order_book (asked r) e.next_order_id reason
        → x.sequencer ≡ used
        → x.engine.next_order_id ≡ e.next_order_id
        → x.session ≡ refused r.client_order_id reason
        → AnswersNewOrder r x
    engine_accepted :
        contains g.client_orders r.client_order_id ≡ false
        → r.symbol ≡ codes "AAPL"
        → IsSupported (asked r)
        → IsValid e.order_book (asked r)
        → x.sequencer ≡ used
        → x.engine.next_order_id ≡ add64 e.next_order_id 1
        → x.session
          ≡ running (with_order g r.client_order_id e.next_order_id) (
              outbound_sink
                (OutboundMessage.accepted
                  (record { client_order_id = r.client_order_id; order_id = e.next_order_id }))
                s)
        → AnswersNewOrder r x

  abbrev SoundAnswer : NewOrderRequest → Exchange S → Type 0
  SoundAnswer r x = IsSound x.engine.order_book × AnswersNewOrder r x

  module _ (r : NewOrderRequest) (fresh : contains g.client_orders r.client_order_id ≡ false)
      (symbol : r.symbol ≡ codes "AAPL") where
    abbrev after : MatchingEngine × Session S → Exchange S
    after next = record { engine = next.0; sequencer = used; session = next.1 }

    of_refusal :
        (next : MatchingEngine × Session S)
        → Refusal (on_engine_event outbound_sink) e (asked r) (running g s) next
        → AnswersNewOrder r (after next)
    unfolding rejection
    of_refusal next k =
        engine_refused fresh symbol k.reason k.is_reason refl k.order_id
          (k.report ∙ on_engine_event-rejection outbound_sink g s _ _ _ _ _ k.reason refl)

    of_acceptance :
        (next : MatchingEngine × Session S)
        → Acceptance (on_engine_event outbound_sink) e (asked r) (running g s) next
        → AnswersNewOrder r (after next)
    of_acceptance next k = engine_accepted fresh symbol k.supported k.valid refl k.order_id (
        k.report
        ∙ send-append (on_engine_event outbound_sink) (trades e.next_trade_id k.executions) _ _
        ∙ rests-silent outbound_sink (asked r) e.next_order_id k.left _
        ∙ trades-silent outbound_sink k.executions e.next_trade_id _
        ∙ on_engine_event-acceptance outbound_sink g s (asked r) e.next_order_id refl fresh)

    submitted :
        IsSound e.order_book
        → r.quantity < 2 ^ 64
        → Returns
            (SoundAnswer r)
            (submit_new_order outbound_sink (on_engine_event outbound_sink) e q g s r (some 0))
    unfolding submit_new_order submit process new_order_command Sequencer.next
    submitted sound word =
        Returns-bind (Reported (on_engine_event outbound_sink) e (asked r) (running g s))
          (SoundAnswer r)
          (process_new_order (on_engine_event outbound_sink) e (asked r) (running g s)) _
          (λ next k. (
            k.sound,
            elim k.answer [
              | inl refusal ↦ of_refusal next refusal
              | inr acceptance ↦ of_acceptance next acceptance
            ],
          ))
          (process_new_order-Reported (on_engine_event outbound_sink) e (asked r) (running g s)
            sound word)

pub handle_new_order-Answers :
    {S : Type 0} (outbound_sink : OutboundMessageSink S) (e : MatchingEngine) (q : Sequencer)
    (g : OrderGateway) (s : S) (r : NewOrderRequest)
    → IsSound e.order_book
    → r.quantity < 2 ^ 64
    → Returns
        (λ x. IsSound x.engine.order_book × AnswersNewOrder outbound_sink e q g s r x)
        (handle_new_order outbound_sink (on_engine_event outbound_sink) e q g s r)
unfolding handle_new_order emit_rejection
handle_new_order-Answers outbound_sink e q g s r sound word =
    elim (Bool-cases (contains g.client_orders r.client_order_id)) [
      | inl known ↦ rw known (sound, duplicate known refl)
      | inr fresh ↦ rw fresh (resolved fresh (resolve_symbol r.symbol) refl)
    ]
  where
    resolved :
        contains g.client_orders r.client_order_id ≡ false
        → (symbol : Option ℕ) → resolve_symbol r.symbol ≡ symbol
        → Returns
            (λ x. IsSound x.engine.order_book × AnswersNewOrder outbound_sink e q g s r x)
            (submit_new_order outbound_sink (on_engine_event outbound_sink) e q g s r symbol)
    resolved fresh none unknown =
        unfold submit_new_order emit_rejection in
        (sound, unknown_symbol fresh (resolve_symbol-none r.symbol unknown) refl)
    resolved fresh (some id) known =
        let (symbol, zeroth) = resolve_symbol-some r.symbol id known in
        rw zeroth (submitted outbound_sink e q g s r fresh symbol sound word)
