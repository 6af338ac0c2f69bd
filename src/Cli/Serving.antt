-- ===== src/Cli/Serving.antt =====
-- What one round of the program's loop does to a process that serves.
use sixchange.Base.{
  ℕ, ◌∙◌, ◌≡◌, refl, sym, ap, subst, List, [], ◌∷◌, ◌++◌, Bytes, Returns, Returns-map, value,
  unexpected, ◌<◌, ◌^◌,
}
use sixchange.Core.Dispatcher
use sixchange.Core.Dispatcher.{EngineEventSink}
use sixchange.Engine.Sequencer.{Sequencer}
use sixchange.Engine.MatchingEngine.{MatchingEngine}
use sixchange.Engine.MatchingEngine.Sound.{IsSound}
use sixchange.Protocol.Messages.{
  NewOrderRequest, OutboundMessage, OrderRejected, new_order, cancel_order, rejected,
}
use sixchange.Protocol.TextCodec.{DecodeResult, decode, encode}
use sixchange.Protocol.TextCodec.Decoding.{decode-Spells}
use sixchange.Gateway.OrderGateway
use sixchange.Gateway.OrderGateway.{
  OrderGateway, Session, running, terminated, Exchange, handle, visit, handle_new_order,
  emit_rejection,
}
use sixchange.Gateway.OrderGateway.Answering.{
  AnswersNewOrder, duplicate, unknown_symbol, engine_refused, engine_accepted,
  handle_new_order-Answers,
}
use sixchange.Gateway.OrderGateway.Listening.{with_order}
use sixchange.Cli.Conversations.{Reply, keys, contains→In, contains→absent}
use sixchange.Cli.{on_outbound_message, dispatcher, engine_sink, respond, dispatch}

-- The process runs, with a sound book, the client order ids `known` and `out` on its output.
pub record Serving (known : List ℕ) (out : Bytes) (x : Exchange Bytes) : Type 0 where
  pub gateway : OrderGateway
  pub keys_known : keys gateway.client_orders ≡ known
  pub session : x.session ≡ running gateway out
  pub sound : IsSound x.engine.order_book

-- The replies as lines.
abbrev pub printed : List OutboundMessage → Bytes
printed [] = []
printed (m ∷ ms) = (encode m ++ b'\n' ∷ []) ++ printed ms

-- What is decoded is no cancel request.
abbrev pub NoCancel : DecodeResult → Type 0
NoCancel (unexpected rejection) = Unit
NoCancel (value (new_order r)) = Unit
NoCancel (value (cancel_order r)) = ⊥

pub record Replied (known : List ℕ) (e : MatchingEngine) (r : NewOrderRequest) (out : Bytes)
    (x : Exchange Bytes) : Type 0 where
  pub message : OutboundMessage
  pub known' : List ℕ
  pub answered : Reply known e r message known' x.engine
  pub serving : Serving known' (out ++ (encode message ++ b'\n' ∷ [])) x

-- The engine reports to the gateway alone.
engine_sink-gateway : engine_sink ≡ OrderGateway.on_engine_event on_outbound_message
unfolding engine_sink Dispatcher.on_engine_event Dispatcher.add_sink Dispatcher.size dispatcher
engine_sink-gateway = refl

module _ (e : MatchingEngine) (q : Sequencer) (g : OrderGateway) (out : Bytes) (r : NewOrderRequest)
    (x : Exchange Bytes) (sound : IsSound x.engine.order_book) where
  Replied-of :
      (g' : OrderGateway) (m : OutboundMessage)
      → Reply (keys g.client_orders) e r m (keys g'.client_orders) x.engine
      → x.session ≡ running g' (on_outbound_message m out)
      → Replied (keys g.client_orders) e r out x
  unfolding on_outbound_message
  Replied-of g' m answered session = record {
    message = m;
    known' = keys g'.client_orders;
    answered = answered;
    serving = record { gateway = g'; keys_known = refl; session = session; sound = sound };
  }

  same_engine :
      (m : OutboundMessage) (y : Exchange Bytes)
      → Reply (keys g.client_orders) e r m (keys g.client_orders) e
      → x ≡ y
      → y.engine ≡ e
      → Reply (keys g.client_orders) e r m (keys g.client_orders) x.engine
  same_engine m y answered is kept =
      subst (λ e'. Reply (keys g.client_orders) e r m (keys g.client_orders) e')
        (sym (ap (λ (z : Exchange Bytes). z.engine) is ∙ kept)) answered

  Replied-new_order :
      AnswersNewOrder on_outbound_message e q g out r x → Replied (keys g.client_orders) e r out x
  Replied-new_order (duplicate known is) =
      Replied-of g _
        (same_engine _ _ (Reply.duplicate (contains→In g.client_orders r.client_order_id known)) is
          refl)
        (ap (λ (y : Exchange Bytes). y.session) is)
  Replied-new_order (unknown_symbol fresh unknown is) =
      Replied-of g _
        (same_engine _ _
          (Reply.unknown_symbol (contains→absent g.client_orders r.client_order_id fresh) unknown)
          is refl)
        (ap (λ (y : Exchange Bytes). y.session) is)
  Replied-new_order (engine_refused fresh symbol reason is_reason seq id session) =
      Replied-of g _
        (Reply.engine_refused (contains→absent g.client_orders r.client_order_id fresh) symbol
          g.client_id q.next_sequence reason is_reason x.engine id)
        session
  Replied-new_order (engine_accepted fresh symbol supported valid seq id session) =
      Replied-of (with_order g r.client_order_id e.next_order_id) _
        (Reply.engine_accepted (contains→absent g.client_orders r.client_order_id fresh) symbol
          g.client_id q.next_sequence supported valid x.engine id)
        session

-- A message, where a new order's quantity is a word.
abbrev pub IsWordly : DecodeResult → Type 0
IsWordly (unexpected rejection) = Unit
IsWordly (value (new_order r)) = r.quantity < 2 ^ 64
IsWordly (value (cancel_order r)) = Unit

pub decode-IsWordly : (line : Bytes) (d : DecodeResult) → decode line ≡ d → IsWordly d
decode-IsWordly line (unexpected rejection) e = tt
decode-IsWordly line (value (new_order r)) e =
    (decode-Spells line (new_order r) e).1.quantity_is.in_word
decode-IsWordly line (value (cancel_order r)) e = tt

-- The loop's body for a new order.
pub dispatch-Replied :
    (r : NewOrderRequest) (known : List ℕ) (out : Bytes) (x : Exchange Bytes)
    → r.quantity < 2 ^ 64
    → Serving known out x
    → Returns (Replied known x.engine r out) (dispatch (value (new_order r)) x)
unfolding dispatch handle visit
dispatch-Replied r known out x word k = rw k.session (
    subst
      (λ ids.
        Returns (Replied ids x.engine r out)
          (handle_new_order on_outbound_message engine_sink x.engine x.sequencer k.gateway out r))
      k.keys_known
      (Returns-map _ (λ y p. Replied-new_order x.engine x.sequencer k.gateway out r y p.0 p.1)
        (subst
          (λ sink.
            Returns
              (λ y.
                IsSound y.engine.order_book
                × AnswersNewOrder on_outbound_message x.engine x.sequencer k.gateway out r y)
              (handle_new_order on_outbound_message sink x.engine x.sequencer k.gateway out r))
          (sym engine_sink-gateway)
          (handle_new_order-Answers on_outbound_message x.engine x.sequencer k.gateway out r k.sound
            word))))

-- The loop's body for a line that is no message.
abbrev pub bad_line : Exchange Bytes → OrderRejected → Exchange Bytes
bad_line x rejection = record x { session = respond (rejected rejection) x.session }

pub bad_line-Serving :
    (rejection : OrderRejected) (known : List ℕ) (out : Bytes) (x : Exchange Bytes)
    → Serving known out x
    → Serving known (out ++ (encode (rejected rejection) ++ b'\n' ∷ [])) (bad_line x rejection)
unfolding respond on_outbound_message
bad_line-Serving rejection known out x k = record {
  gateway = k.gateway;
  keys_known = k.keys_known;
  session = ap (respond (rejected rejection)) k.session;
  sound = k.sound;
}
