-- ===== src/Engine/MatchingEngine/Sending.antt =====
-- The reports of the engine's match sink and of the end of its handler, as events sent in order.
use sixchange.Base.{ℕ, zero, suc, lt→ltb, ne→not_==, ◌≡◌, refl, ltb, List, [], ◌∷◌, ◌++◌, arith}
use sixchange.Core.Commands.{NewOrderCommand}
use sixchange.Core.Events.{EngineEvent}
use sixchange.Core.Dispatcher.{EngineEventSink}
use sixchange.Engine.MatchExecution.{MatchExecution}
use sixchange.Engine.OrderBook.PriceTime.{deliver}
use sixchange.Engine.MatchingEngine.{on_match, announce, resting, trade_report}
use sixchange.Engine.MatchingEngine.Answers.{send, trades, after_trades, rests}

module _ {T : Type 0} (sink : EngineEventSink T) where
  pub send-append :
      (xs ys : List EngineEvent) (t : T) → send sink (xs ++ ys) t ≡ send sink ys (send sink xs t)
  send-append [] ys t = refl
  send-append (x ∷ xs) ys t = send-append xs ys (sink x t)

  pub deliver-send :
      (xs : List MatchExecution) (id : ℕ) (t : T)
      → deliver (on_match sink) xs (id, t) ≡ (after_trades id xs, send sink (trades id xs) t)
  unfolding deliver on_match trade_report
  deliver-send [] id t = refl
  deliver-send (x ∷ xs) id t = deliver-send xs _ _

  pub announce-send :
      (c : NewOrderCommand) (order_id left : ℕ) (t : T)
      → announce sink c order_id (record { remaining_quantity = left; rested = ltb 0 left }) t
        ≡ send sink (rests c order_id left) t
  unfolding announce resting
  announce-send c order_id zero t = refl
  announce-send c order_id (suc left) t =
      rw (lt→ltb 0 (suc left) (omega arith), ne→not_== (suc left) 0 (omega arith)) refl
