-- ===== src/Gateway/OrderGateway/Cancelling.antt =====
-- How the gateway answers a cancel request.
use sixchange.Base.{
  ◌≢◌, codes, ℕ, ◌≡◌, refl, ap, ◌∙◌, Option, none, some, Returns, value, unexpected,
}
use sixchange.Core.Commands.{CancelOrderCommand}
use sixchange.Core.Enums.{RejectReason}
use sixchange.Engine.Sequencer.{Sequencer}
use sixchange.Engine.Sequencer
use sixchange.Engine.OrderBook.CancelReport.{IsReport, cancel-IsReport}
use sixchange.Engine.OrderBook.Cancellation.{CancelResult, CancelledOrder, cancel}
use sixchange.Engine.MatchingEngine.{MatchingEngine, process, process_cancel_order, report_cancel}
use sixchange.Protocol.Messages.{CancelOrderRequest, OutboundMessage, OutboundMessageSink}
use sixchange.Gateway.ClientOrders.{find}
use sixchange.Gateway.OrderGateway.{
  OrderGateway, Session, running, Exchange, on_engine_event, emit_rejection, resolve_symbol,
  cancel_command, handle_cancel_order, submit_cancel, submit,
}
use sixchange.Gateway.OrderGateway.Listening.{
  on_engine_event-rejection, on_engine_event-cancellation,
}
use sixchange.Gateway.OrderGateway.Answering.{told, used, refused}
use sixchange.Gateway.OrderGateway.Symbols.{resolve_symbol-some, resolve_symbol-none}

module _ {S : Type 0} (outbound_sink : OutboundMessageSink S) (e : MatchingEngine) (q : Sequencer)
    (g : OrderGateway) (s : S) where
  -- What the engine is asked: to cancel the order that the client's id stands for, with the next
  -- sequence number.
  abbrev pub asked_cancel : CancelOrderRequest → (order_id : ℕ) → CancelOrderCommand
  asked_cancel r order_id = record {
    seq = q.next_sequence;
    order_id = order_id;
    client_order_id = r.client_order_id;
    client_id = g.client_id;
    symbol_id = 0;
  }

  -- The book has dealt with that command; everything else of the engine stays.
  abbrev pub with_book : CancelOrderRequest → (order_id : ℕ) → MatchingEngine
  with_book r order_id = record e { order_book = (cancel e.order_book (asked_cancel r order_id)).0 }

  -- The answers to a cancel request. An unknown symbol is refused before the client order id is
  -- looked up, and both before the engine is asked. What the engine's book then says is passed on.
  pub data AnswersCancel (r : CancelOrderRequest) (x : Exchange S) : Type 0 where
    unknown_symbol :
        r.symbol ≢ codes "AAPL"
        → x ≡ told outbound_sink e q g s r.client_order_id RejectReason.unknown_symbol
        → AnswersCancel r x
    unknown_order :
        r.symbol ≡ codes "AAPL"
        → find g.client_orders r.client_order_id ≡ none
        → x ≡ told outbound_sink e q g s r.client_order_id RejectReason.unknown_order
        → AnswersCancel r x
    engine_refused :
        r.symbol ≡ codes "AAPL"
        → (order_id : ℕ) → find g.client_orders r.client_order_id ≡ some order_id
        → (reason : RejectReason)
        → (cancel e.order_book (asked_cancel r order_id)).1 ≡ unexpected reason
        → x ≡ record {
          engine = with_book r order_id;
          sequencer = used outbound_sink e q g s;
          session = refused outbound_sink e q g s r.client_order_id reason;
        }
        → AnswersCancel r x
    engine_cancelled :
        r.symbol ≡ codes "AAPL"
        → (order_id : ℕ) → find g.client_orders r.client_order_id ≡ some order_id
        → (report : CancelledOrder)
        → (cancel e.order_book (asked_cancel r order_id)).1 ≡ value report
        → x ≡ record {
          engine = with_book r order_id;
          sequencer = used outbound_sink e q g s;
          session = running g (
              outbound_sink
                (OutboundMessage.cancelled
                  (record { client_order_id = r.client_order_id; order_id = report.order_id }))
                s);
        }
        → AnswersCancel r x

  module _ (r : CancelOrderRequest) (symbol : r.symbol ≡ codes "AAPL") (order_id : ℕ)
      (found : find g.client_orders r.client_order_id ≡ some order_id) where
    abbrev after : Session S → Exchange S
    after session = record {
      engine = with_book r order_id;
      sequencer = used outbound_sink e q g s;
      session = session;
    }

    reported :
        (result : CancelResult)
        → (cancel e.order_book (asked_cancel r order_id)).1 ≡ result
        → IsReport (asked_cancel r order_id) result
        → AnswersCancel r (
            after (
              report_cancel
                (on_engine_event outbound_sink)
                (asked_cancel r order_id)
                result
                (running g s)))
    unfolding report_cancel
    reported (value o) says (mine, named) = engine_cancelled symbol order_id found o says (
        ap after (
          on_engine_event-cancellation outbound_sink g s (asked_cancel r order_id) o mine
          ∙ ap
              (λ (id : ℕ). running g (
                outbound_sink
                  (OutboundMessage.cancelled
                    (record { client_order_id = id; order_id = o.order_id }))
                  s))
              named))
    reported (unexpected reason) says report =
        engine_refused symbol order_id found reason says
          (ap after (on_engine_event-rejection outbound_sink g s _ _ _ _ _ reason refl))

-- The gateway's handler of a cancel request always returns, without reaching std::terminate, and
-- answers exactly once. A symbol other than AAPL is rejected as an unknown symbol, and then a client
-- order id that is not registered as an unknown order, both without the engine. Otherwise the engine
-- is asked, with the next sequence number, to cancel the order registered under that id: its book
-- becomes what the book's cancel leaves, and the client is told the book's reason, or the
-- cancellation of the order that the book reports, under the client's own id. The registered orders
-- stay.
pub handle_cancel_order-Answers :
    {S : Type 0} (outbound_sink : OutboundMessageSink S) (e : MatchingEngine) (q : Sequencer)
    (g : OrderGateway) (s : S) (r : CancelOrderRequest)
    → Returns
        (AnswersCancel outbound_sink e q g s r)
        (handle_cancel_order outbound_sink (on_engine_event outbound_sink) e q g s r)
unfolding handle_cancel_order submit_cancel submit process process_cancel_order emit_rejection
    cancel_command Sequencer.next
handle_cancel_order-Answers outbound_sink e q g s r =
    resolved (resolve_symbol r.symbol) refl (find g.client_orders r.client_order_id) refl
  where
    resolved :
        (symbol : Option ℕ)
        → resolve_symbol r.symbol ≡ symbol
        → (found : Option ℕ) → find g.client_orders r.client_order_id ≡ found
        → Returns
            (AnswersCancel outbound_sink e q g s r)
            (submit_cancel outbound_sink (on_engine_event outbound_sink) e q g s r symbol found)
    resolved none unknown found f = unknown_symbol (resolve_symbol-none r.symbol unknown) refl
    resolved (some id) known none missing =
        unknown_order (resolve_symbol-some r.symbol id known).0 missing refl
    resolved (some id) known (some order_id) f =
        let (symbol, zeroth) = resolve_symbol-some r.symbol id known in
        rw zeroth (
          reported outbound_sink e q g s r symbol order_id f _ refl
            (cancel-IsReport e.order_book (asked_cancel outbound_sink e q g s r order_id)))
