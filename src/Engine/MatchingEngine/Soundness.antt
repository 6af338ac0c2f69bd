-- ===== src/Engine/MatchingEngine/Soundness.antt =====
-- The engine's handler of a new order keeps the book sound.
use sixchange.Base.{◌<◌, ◌^◌, Returns, Returns-map}
use sixchange.Core.Commands.{NewOrderCommand}
use sixchange.Core.Dispatcher.{EngineEventSink}
use sixchange.Engine.MatchingEngine.{MatchingEngine, process_new_order}
use sixchange.Engine.MatchingEngine.Sound.{IsSound}
use sixchange.Engine.MatchingEngine.Answers.{Reported}
use sixchange.Engine.MatchingEngine.Reports.{process_new_order-Reported}

-- The engine's handler of a new order always returns, without a missing order and with enough fuel,
-- and leaves a sound book: well formed, no order in flight, and every order with something left.
-- The book is sound before, and the quantity a word.
pub process_new_order-IsSound :
    {T : Type 0} (sink : EngineEventSink T) (e : MatchingEngine) (c : NewOrderCommand) (t : T)
    → IsSound e.order_book
    → c.quantity < 2 ^ 64
    → Returns (λ next. IsSound next.0.order_book) (process_new_order sink e c t)
process_new_order-IsSound sink e c t sound word =
    Returns-map _ (λ next (k : Reported sink e c t next). k.sound)
      (process_new_order-Reported sink e c t sound word)
