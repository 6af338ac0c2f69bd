-- ===== src/Engine/MatchingEngine.antt =====
-- src/engine/MatchingEngine.h and MatchingEngine.cpp. The event sink is a function on the state `T`
-- of whoever listens; the engine is its own match sink, whose state is the next trade id and `T`.
pub mod Trades
pub mod Sound
pub mod Reasons
pub mod Answers
pub mod Sending
pub mod Reports
pub mod Soundness
pub mod Examples
use sixchange.Base.{
  Bool, true, false, Option, if◌then◌else◌, add64, Run, ok, ◌>>=◌, value, unexpected,
}
use mathlib.Core.Option
use sixchange.Core.Types.{SequenceNumber, OrderId, TradeId, ClientOrderId, ClientId, SymbolId}
use sixchange.Core.Enums.{
  OrderType, TimeInForce, CommandType, RejectReason, limit, market, gfd, ioc, fok,
}
use sixchange.Core.Config.{OrderBookConfig, Platform}
use sixchange.Core.Commands.{
  NewOrderCommand, CancelOrderCommand, EngineCommand, new_order, cancel_order, replace_order,
}
use sixchange.Core.Events.{
  EngineEvent, order_accepted, command_rejected, order_rested, trade_executed, order_cancelled,
}
use sixchange.Core.Dispatcher.{EngineEventSink}
use sixchange.Engine.MatchExecution.{MatchExecution}
use sixchange.Engine.OrderBook.State
use sixchange.Engine.OrderBook.State.{OrderBook}
use sixchange.Engine.OrderBook.Admission.{AdmitResult, admit}
use sixchange.Engine.OrderBook.Matching.{NewOrderOutcome, execute}
use sixchange.Engine.OrderBook.Cancellation.{CancelledOrder, CancelResult, cancel}

pub record MatchingEngine : Type 0 where
  pub order_book : OrderBook
  pub next_order_id : OrderId
  pub next_trade_id : TradeId

-- The constructor, `none` where that of the book makes none.
unfoldable pub make : Platform → SymbolId → OrderBookConfig → Option MatchingEngine
make platform symbol_id c = Option.map start (State.make platform symbol_id c)
  where
    start : OrderBook → MatchingEngine
    start b = record { order_book = b; next_order_id = 1; next_trade_id = 1 }

unfoldable pub is_limit : OrderType → Bool
is_limit limit = true
is_limit market = false

unfoldable pub is_gfd : TimeInForce → Bool
is_gfd gfd = true
is_gfd ioc = false
is_gfd fok = false

-- The events that the engine reports.
unfoldable pub rejection :
    SequenceNumber → ClientOrderId → ClientId → SymbolId → CommandType → RejectReason → EngineEvent
rejection seq client_order_id client_id symbol_id command_type reason = command_rejected (record {
  seq = seq;
  client_order_id = client_order_id;
  client_id = client_id;
  symbol_id = symbol_id;
  command_type = command_type;
  reason = reason;
})

unfoldable pub acceptance : NewOrderCommand → OrderId → EngineEvent
acceptance c order_id = order_accepted (record {
  seq = c.seq;
  order_id = order_id;
  client_order_id = c.client_order_id;
  client_id = c.client_id;
  symbol_id = c.symbol_id;
  side = c.side;
  order_type = c.order_type;
  tif = c.tif;
  price = c.price;
  quantity = c.quantity;
})

unfoldable pub resting : NewOrderCommand → OrderId → NewOrderOutcome → EngineEvent
resting c order_id outcome = order_rested (record {
  seq = c.seq;
  order_id = order_id;
  client_order_id = c.client_order_id;
  client_id = c.client_id;
  symbol_id = c.symbol_id;
  side = c.side;
  price = c.price;
  remaining_quantity = outcome.remaining_quantity;
})

unfoldable pub cancellation : CancelOrderCommand → CancelledOrder → EngineEvent
cancellation c o = order_cancelled (record {
  seq = c.seq;
  order_id = o.order_id;
  client_order_id = o.client_order_id;
  client_id = o.client_id;
  symbol_id = o.symbol_id;
  side = o.side;
  price = o.price;
  cancelled_quantity = o.cancelled_quantity;
})

unfoldable pub trade_report : MatchExecution → TradeId → EngineEvent
trade_report e trade_id = trade_executed (record {
  seq = e.seq;
  trade_id = trade_id;
  symbol_id = e.symbol_id;
  price = e.price;
  quantity = e.quantity;
  aggressing_side = e.aggressing_side;
  aggressing_order_id = e.aggressing_order_id;
  aggressing_client_order_id = e.aggressing_client_order_id;
  aggressing_client_id = e.aggressing_client_id;
  aggressing_remaining_quantity = e.aggressing_remaining_quantity;
  resting_order_id = e.resting_order_id;
  resting_client_order_id = e.resting_client_order_id;
  resting_client_id = e.resting_client_id;
  resting_remaining_quantity = e.resting_remaining_quantity;
})

module _ {T : Type 0} (sink : EngineEventSink T) where
  unfoldable pub on_match : MatchExecution → TradeId × T → TradeId × T
  unfolding trade_report
  on_match e (next_trade_id, t) = (add64 next_trade_id 1, sink (trade_report e next_trade_id) t)

  -- The end of `process_new_order`: the rested event, if the order rests.
  unfoldable pub announce : NewOrderCommand → OrderId → NewOrderOutcome → T → T
  unfolding resting
  announce c order_id outcome t = if outcome.rested then sink (resting c order_id outcome) t else t

  -- `process_new_order` after the call of `admit`.
  unfoldable pub run_order :
      MatchingEngine → NewOrderCommand → AdmitResult → T → Run (MatchingEngine × T)
  unfolding announce acceptance on_match rejection
  run_order e c (unexpected reason) t = ok (
    e,
    sink (rejection c.seq c.client_order_id c.client_id c.symbol_id CommandType.new_order reason) t,
  )
  run_order e c (value order) t =
      execute on_match e.order_book order (e.next_trade_id, sink (acceptance c e.next_order_id) t)
      >>= λ (b, outcome, s). ok (
        record { order_book = b; next_order_id = add64 e.next_order_id 1; next_trade_id = s.0 },
        announce c e.next_order_id outcome s.1,
      )

  unfoldable pub process_new_order : MatchingEngine → NewOrderCommand → T → Run (MatchingEngine × T)
  unfolding run_order rejection is_limit is_gfd
  process_new_order e c t =
      let reject = λ (reason : RejectReason).
        sink
          (rejection c.seq c.client_order_id c.client_id c.symbol_id CommandType.new_order reason)
          t in
      let admitted = admit e.order_book c e.next_order_id in
      let accepted = run_order (record e { order_book = admitted.0 }) c admitted.1 t in
      if is_limit c.order_type
      then if is_gfd c.tif then accepted else ok (e, reject RejectReason.unsupported_time_in_force)
      else ok (e, reject RejectReason.unsupported_order_type)

  unfoldable pub report_cancel : CancelOrderCommand → CancelResult → T → T
  unfolding rejection cancellation
  report_cancel c (value cancelled) t = sink (cancellation c cancelled) t
  report_cancel c (unexpected reason) t =
      sink
        (rejection c.seq c.client_order_id c.client_id c.symbol_id CommandType.cancel_order reason)
        t

  unfoldable pub process_cancel_order : MatchingEngine → CancelOrderCommand → T → MatchingEngine × T
  unfolding report_cancel
  process_cancel_order e c t =
      let (b, result) = cancel e.order_book c in
      (record e { order_book = b }, report_cancel c result t)

  unfoldable pub process : MatchingEngine → EngineCommand → T → Run (MatchingEngine × T)
  unfolding process_new_order process_cancel_order rejection
  process e (new_order c) t = process_new_order e c t
  process e (cancel_order c) t = ok (process_cancel_order e c t)
  process e (replace_order c) t = ok (
    e,
    sink
        (rejection c.seq c.old_client_order_id c.client_id c.symbol_id CommandType.replace_order
          RejectReason.matching_engine_error)
        t,
  )
