-- ===== src/Engine/MatchingEngine/Answers.antt =====
-- The answers of the engine to a new order: what its handler returns and reports.
use sixchange.Base.{◌⊎◌, ◌+◌, ℕ, ◌≡◌, List, [], ◌∷◌, ◌++◌, All, add64, ◌==◌, if◌then◌else◌}
use sixchange.Core.Commands.{NewOrderCommand}
use sixchange.Core.Events.{
  EngineEvent, order_accepted, command_rejected, order_rested, trade_executed,
}
use sixchange.Core.Dispatcher.{EngineEventSink}
use sixchange.Core.Enums.{CommandType, RejectReason}
use sixchange.Engine.MatchExecution.{MatchExecution}
use sixchange.Engine.MatchingEngine.{MatchingEngine}
use sixchange.Engine.MatchingEngine.Trades.{traded, IsTrade}
use sixchange.Engine.MatchingEngine.Reasons.{IsReason, IsSupported, IsValid}
use sixchange.Engine.MatchingEngine.Sound.{IsSound}

-- Events that reach a sink one after the other.
abbrev pub send : {T : Type 0} → EngineEventSink T → List EngineEvent → T → T
send sink [] t = t
send sink (event ∷ events) t = send sink events (sink event t)

-- The event for each execution: the first has the trade id `id`, each next one the id after it.
abbrev pub trades : (id : ℕ) → List MatchExecution → List EngineEvent
trades id [] = []
trades id (x ∷ xs) =
    trade_executed (record {
      seq = x.seq;
      trade_id = id;
      symbol_id = x.symbol_id;
      price = x.price;
      quantity = x.quantity;
      aggressing_side = x.aggressing_side;
      aggressing_order_id = x.aggressing_order_id;
      aggressing_client_order_id = x.aggressing_client_order_id;
      aggressing_client_id = x.aggressing_client_id;
      aggressing_remaining_quantity = x.aggressing_remaining_quantity;
      resting_order_id = x.resting_order_id;
      resting_client_order_id = x.resting_client_order_id;
      resting_client_id = x.resting_client_id;
      resting_remaining_quantity = x.resting_remaining_quantity;
    })
    ∷ trades (add64 id 1) xs

-- The trade id after those executions.
abbrev pub after_trades : (id : ℕ) → List MatchExecution → ℕ
after_trades id [] = id
after_trades id (x ∷ xs) = after_trades (add64 id 1) xs

module _ (c : NewOrderCommand) where
  abbrev pub accepts : (order_id : ℕ) → EngineEvent
  accepts order_id = order_accepted (record {
    seq = c.seq;
    order_id = order_id;
    client_order_id = c.client_order_id;
    client_id = c.client_id;
    symbol_id = c.symbol_id;
    side = c.side;
    order_type = c.order_type;
    tif = c.tif;
    price = c.price;
    quantity = c.quantity;
  })

  -- The rested event, exactly if something is left.
  abbrev pub rests : (order_id left : ℕ) → List EngineEvent
  rests order_id left =
      if left == 0
      then []
      else order_rested (record {
        seq = c.seq;
        order_id = order_id;
        client_order_id = c.client_order_id;
        client_id = c.client_id;
        symbol_id = c.symbol_id;
        side = c.side;
        price = c.price;
        remaining_quantity = left;
      })
        ∷ []

  abbrev pub refuses : RejectReason → EngineEvent
  refuses reason = command_rejected (record {
    seq = c.seq;
    client_order_id = c.client_order_id;
    client_id = c.client_id;
    symbol_id = c.symbol_id;
    command_type = CommandType.new_order;
    reason = reason;
  })

module _ {T : Type 0} (sink : EngineEventSink T) (e : MatchingEngine) (c : NewOrderCommand) (t : T)
    (next : MatchingEngine × T) where
  -- The command is refused for a good reason, with one report, and no id is used.
  pub record Refusal : Type 0 where
    pub reason : RejectReason
    pub is_reason : IsReason e.order_book c e.next_order_id reason
    pub report : next.1 ≡ sink (refuses c reason) t
    pub order_id : next.0.next_order_id ≡ e.next_order_id
    pub trade_id : next.0.next_trade_id ≡ e.next_trade_id

  -- The command is accepted: its order gets the next id; the acceptance is reported first, then the
  -- executions, with trade ids in turn, and last that the order rests, if some of it is left.
  pub record Acceptance : Type 0 where
    pub supported : IsSupported c
    pub valid : IsValid e.order_book c
    pub executions : List MatchExecution
    pub left : ℕ
    pub conserved : traded executions + left ≡ c.quantity
    pub of_order : All (IsTrade c e.next_order_id) executions
    pub report :
        next.1
        ≡ send sink
            (accepts c e.next_order_id
              ∷ (trades e.next_trade_id executions ++ rests c e.next_order_id left))
            t
    pub trade_id : next.0.next_trade_id ≡ after_trades e.next_trade_id executions
    pub order_id : next.0.next_order_id ≡ add64 e.next_order_id 1

  pub record Reported : Type 0 where
    pub sound : IsSound next.0.order_book
    pub answer : Refusal ⊎ Acceptance
