-- ===== src/Engine/MatchingEngine/Reports.antt =====
-- The engine's handler of a new order gives one of its answers.
use mathlib.Core.Path.{ap₂}
use sixchange.Base.{
  true, false, ◌>>=◌, ℕ, ◌<◌, ◌^◌, ◌≡◌, ◌≢◌, refl, sym, ap, ◌∙◌, inl, inr, arith, All-map, Run, ok,
  fault, out_of_fuel, Returns, value, unexpected, add64,
}
use sixchange.Core.Commands.{NewOrderCommand}
use sixchange.Engine.Order.{empty_order, Order}
use sixchange.Engine.PriceLevel.Queue.{unlinked}
use sixchange.Engine.OrderBook.State.{OrderBook}
use sixchange.Engine.OrderBook.Invariant.{IsOpen, open-agree}
use sixchange.Engine.OrderBook.Whole.{other}
use sixchange.Engine.OrderBook.PriceTime.{Filled, fill}
use sixchange.Engine.OrderBook.Loop.{crossing}
use sixchange.Engine.OrderBook.Matching.{execute, NewOrderOutcome}
use sixchange.Engine.OrderBook.Execution.{Executed, execute-Executed, joined_by}
use sixchange.Engine.OrderBook.Admission.{AdmitResult, admit, describe}
use sixchange.Engine.OrderBook.Admitting.{Admitted, Entered, admit-Admitted}
use sixchange.Engine.MatchingEngine.{
  rejection, EngineEventSink, MatchingEngine, process_new_order, run_order, on_match, acceptance,
  announce, is_limit, is_gfd,
}
use sixchange.Engine.MatchingEngine.Trades.{IsOrderOf, traded-fill, fill-IsTrade, ladder-HasSome}
use sixchange.Core.Enums.{CommandType, RejectReason, OrderType, TimeInForce}
use sixchange.Engine.MatchingEngine.Sound.{
  Rests, IsSound, from_side, to_side, other-other, refused-IsOpen,
}
use sixchange.Engine.MatchingEngine.Answers.{Reported, send, trades, after_trades, accepts}
use sixchange.Engine.MatchingEngine.Reasons.{
  IsReason, not_limit, not_gfd, by_book, IsSupported, Judged, admit-Judged,
}
use sixchange.Engine.MatchingEngine.Sending.{deliver-send, announce-send, send-append}
use sixchange.Engine.OrderBook.PriceTime.{deliver}

module _ {T : Type 0} (sink : EngineEventSink T) (e : MatchingEngine) (c : NewOrderCommand) (t : T)
    (r : Rests (other c.side) e.order_book) (word : c.quantity < 2 ^ 64) where
  abbrev start : OrderBook → ℕ × T
  start b' = (e.next_trade_id, sink (acceptance c e.next_order_id) t)

  IsOpen-after :
      (b' : OrderBook) (p : ℕ)
      → Entered (other c.side) e.order_book r.near r.far 0 c e.next_order_id p b'
      → IsOpen r.near b'.orders.orders
  IsOpen-after b' p n j =
      open-agree e.order_book.orders.orders b'.orders.orders (r.near j)
        (All-map n.frame (r.near j) (n.off_near j)) (r.near_open j)

  -- How the order's trades end by price-time priority.
  abbrev filled : (b' : OrderBook) (p : ℕ) → Filled
  filled b' p = fill (unlinked (b'.orders.orders p)) (crossing (other c.side) b' r.near c.price)

  executed :
      (b' : OrderBook) (p : ℕ)
      → Entered (other c.side) e.order_book r.near r.far 0 c e.next_order_id p b'
      → Returns
          (Executed (on_match sink) (other c.side) r.far 0 p c.price (start b') (filled b' p))
          (execute (on_match sink) b' p (start b'))
  unfolding describe
  executed b' p n =
      execute-Executed (on_match sink) (other c.side) b' r.near r.far n.live n.free 0 p c.price
        (start b') n.book (IsOpen-after b' p n)
        (λ j.
          open-agree e.order_book.orders.orders b'.orders.orders (r.far j)
            (All-map n.frame (r.far j) (n.off_far j)) (r.far_open j))
        (record {
          off_near = n.off_near;
          off_far = n.off_far;
          active = ap (λ (o : Order). o.active) n.content;
          word =
              let q = ap (λ (o : Order). o.remaining_quantity) n.content in omega (arith, q, word);
          priced = ap (λ (o : Order). o.price) n.content;
        })
        (ap (λ (o : Order). o.side) n.content ∙ sym (other-other c.side)) n.inside

  sent :
      (b' : OrderBook) (p : ℕ)
      → deliver (on_match sink) (filled b' p).executions (start b') ≡ (
        after_trades e.next_trade_id (filled b' p).executions,
        send sink
            (trades e.next_trade_id (filled b' p).executions)
            (sink (acceptance c e.next_order_id) t),
      )
  sent b' p = deliver-send sink (filled b' p).executions _ _

  own :
      {o : Order}
      → o ≡ describe c e.next_order_id empty_order
      → IsOrderOf c e.next_order_id (unlinked o)
  unfolding describe
  own eq = record {
    seq = ap (λ (o : Order). o.seq) eq;
    order_id = ap (λ (o : Order). o.order_id) eq;
    client_id = ap (λ (o : Order). o.client_id) eq;
  }

  ran :
      IsSupported c
      → (b' : OrderBook) (result : AdmitResult) → Judged e.order_book c e.next_order_id result
      → Admitted (other c.side) e.order_book r.near r.far 0 c e.next_order_id (b', result)
      → Returns (Reported sink e c t) (run_order sink (record e { order_book = b' }) c result t)
  unfolding run_order describe acceptance rejection
  ran supported b' (unexpected reason) judged refused = record {
    sound = from_side (other c.side) (record {
      near = r.near;
      far = r.far;
      live = refused.live;
      free = refused.free;
      book = refused.book;
      near_open =
          refused-IsOpen (other c.side) r.near e.order_book b' refused.frame
            r.book.near_half.members r.near_open;
      far_open =
          refused-IsOpen (other (other c.side)) r.far e.order_book b' refused.frame
            r.book.far_half.members r.far_open;
    });
    answer = inl (record {
      reason = reason;
      is_reason = by_book supported judged;
      report = refl;
      order_id = refl;
      trade_id = refl;
    });
  }
  ran supported b' (value p) judged entered = after _ (executed b' p entered)
    where
      after :
          (run : Run (OrderBook × NewOrderOutcome × (ℕ × T)))
          → Returns
              (Executed (on_match sink) (other c.side) r.far 0 p c.price (start b') (filled b' p))
              run
          → Returns (Reported sink e c t) (
              run >>= λ (b, outcome, s). ok (
                record {
                  order_book = b;
                  next_order_id = add64 e.next_order_id 1;
                  next_trade_id = s.0;
                },
                announce sink c e.next_order_id outcome s.1,
              ))
      after (ok next) done = record {
        sound = from_side (other c.side) (record {
          near = done.near';
          far = joined_by (filled b' p).aggressor c.price p r.far;
          live = done.live';
          free = done.free';
          book = done.book;
          near_open = done.near_open;
          far_open = done.far_open;
        });
        answer = inr (record {
          supported = supported;
          valid = judged;
          executions = (filled b' p).executions;
          left = (filled b' p).aggressor.remaining_quantity;
          conserved = traded-fill _ _ ∙ ap (λ (o : Order). o.remaining_quantity) entered.content;
          of_order = fill-IsTrade c e.next_order_id _ _ (own entered.content) (
              ladder-HasSome b'.orders.orders r.near (other c.side) b'.config.price_level_count
                c.price (IsOpen-after b' p entered));
          report =
              ap₂ (λ (o : NewOrderOutcome) (s : ℕ × T). announce sink c e.next_order_id o s.1)
                done.outcome (done.state ∙ sent b' p)
              ∙ announce-send sink c e.next_order_id (filled b' p).aggressor.remaining_quantity _
              ∙ sym (
                  send-append sink (trades e.next_trade_id (filled b' p).executions) _
                    (sink (accepts c e.next_order_id) t));
          trade_id = ap (λ (s : ℕ × T). s.0) (done.state ∙ sent b' p);
          order_id = refl;
        });
      }
      after fault done = elim done [ ]
      after out_of_fuel done = elim done [ ]

is_limit-eq : {type : OrderType} → type ≡ OrderType.limit → is_limit type ≡ true
unfolding is_limit
is_limit-eq e = ap is_limit e

is_limit-ne : {type : OrderType} → type ≡ OrderType.market → is_limit type ≡ false
unfolding is_limit
is_limit-ne e = ap is_limit e

is_gfd-eq : {tif : TimeInForce} → tif ≡ TimeInForce.gfd → is_gfd tif ≡ true
unfolding is_gfd
is_gfd-eq e = ap is_gfd e

pub process_new_order-Reported :
    {T : Type 0} (sink : EngineEventSink T) (e : MatchingEngine) (c : NewOrderCommand) (t : T)
    → IsSound e.order_book
    → c.quantity < 2 ^ 64
    → Returns (Reported sink e c t) (process_new_order sink e c t)
unfolding process_new_order rejection is_limit is_gfd
process_new_order-Reported sink e c t sound word = typed c.order_type refl c.tif refl
  where
    r : Rests (other c.side) e.order_book
    r = to_side (other c.side) sound

    unsupported :
        (reason : RejectReason)
        → IsReason e.order_book c e.next_order_id reason
        → Reported sink e c t (
          e,
          sink
              (rejection c.seq c.client_order_id c.client_id c.symbol_id CommandType.new_order
                reason)
              t,
        )
    unsupported reason is_reason = record {
      sound = sound;
      answer = inl (record {
        reason = reason;
        is_reason = is_reason;
        report = refl;
        order_id = refl;
        trade_id = refl;
      });
    }

    supported : IsSupported c → Returns (Reported sink e c t) (process_new_order sink e c t)
    supported (limit, stays) =
        rw (is_limit-eq limit, is_gfd-eq stays)
          (ran sink e c t r word (limit, stays) (admit e.order_book c e.next_order_id).0
            (admit e.order_book c e.next_order_id).1 (admit-Judged e.order_book c e.next_order_id)
            (admit-Admitted (other c.side) e.order_book r.near r.far r.live r.free 0 c
              e.next_order_id r.book))

    expiring :
        c.order_type ≡ OrderType.limit
        → c.tif ≢ TimeInForce.gfd
        → is_gfd c.tif ≡ false
        → Returns (Reported sink e c t) (process_new_order sink e c t)
    expiring limit ne expires =
        rw (is_limit-eq limit, expires)
          (unsupported RejectReason.unsupported_time_in_force (not_gfd limit ne))

    typed :
        (type : OrderType)
        → c.order_type ≡ type
        → (tif : TimeInForce) → c.tif ≡ tif
        → Returns (Reported sink e c t) (process_new_order sink e c t)
    typed OrderType.market is_market tif stays =
        rw (is_limit-ne is_market)
          (unsupported RejectReason.unsupported_order_type (not_limit (λ is. cc (is_market, is))))
    typed OrderType.limit limit TimeInForce.gfd stays = supported (limit, stays)
    typed OrderType.limit limit TimeInForce.ioc ioc =
        expiring limit (λ is. cc (ioc, is)) (ap is_gfd ioc)
    typed OrderType.limit limit TimeInForce.fok fok =
        expiring limit (λ is. cc (fok, is)) (ap is_gfd fok)
