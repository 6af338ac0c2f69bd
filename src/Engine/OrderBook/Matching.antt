-- ===== src/Engine/OrderBook/Matching.antt =====
-- `OrderBook::match_buy`, `match_sell`, `match` and `execute`. The two match functions differ in the
-- side that they trade against and in the price test, so they are one loop over the resting side.
-- The loop runs on fuel; each round fills the aggressor or takes a resting order out, so the number
-- of active orders on the resting side, plus one, is enough.
use sixchange.Base.{
  ℕ, zero, suc, ◌+◌, Bool, true, false, ◌&&◌, Option, none, some, min, ltb, leb, ◌==◌,
  if◌then◌else◌, add64, sub64, Run, ok, fault, out_of_fuel, ◌>>=◌,
}
use sixchange.Core.Types.{Quantity}
use sixchange.Core.Enums.{Side, buy, sell}
use sixchange.Engine.Order.{OrderPtr, Order, Slots, write}
use sixchange.Engine.PriceLevel
use sixchange.Engine.PriceLevel.{PriceLevel}
use sixchange.Engine.OrderPool
use sixchange.Engine.FixedOrderMap
use sixchange.Engine.MatchExecution.{MatchExecution, MatchSink}
use sixchange.Engine.OrderBook.State.{
  HalfBook, OrderBook, half, set_half, set_level, update_best_after_removal, rest,
}

pub record NewOrderOutcome : Type 0 where
  pub remaining_quantity : Quantity
  pub rested : Bool

-- The loop's test, for an aggressor that trades against the side `resting`.
unfoldable pub crosses : (resting : Side) → (price : ℕ) → Option ℕ → Bool
crosses resting price none = false
crosses sell price (some best) = leb best price
crosses buy price (some best) = leb price best

unfoldable pub execution : (aggressor resting : Order) → (quantity : ℕ) → MatchExecution
execution a r quantity = record {
  seq = a.seq;
  symbol_id = a.symbol_id;
  aggressing_side = a.side;
  price = r.price;
  quantity = quantity;
  aggressing_order_id = a.order_id;
  aggressing_client_order_id = a.client_order_id;
  aggressing_client_id = a.client_id;
  aggressing_remaining_quantity = a.remaining_quantity;
  resting_order_id = r.order_id;
  resting_client_order_id = r.client_order_id;
  resting_client_id = r.client_id;
  resting_remaining_quantity = r.remaining_quantity;
}

-- Both orders' quantities go down by `quantity`.
unfoldable pub settle : Slots → (aggressor resting quantity : ℕ) → Slots
settle h a r quantity =
    let h1 =
      write h a (record (h a) { remaining_quantity = sub64 (h a).remaining_quantity quantity }) in
    write h1 r (record (h1 r) { remaining_quantity = sub64 (h1 r).remaining_quantity quantity })

-- A resting order that is filled leaves its level, the lookup map and the pool.
unfoldable pub retire : Side → OrderBook → (index resting : ℕ) → OrderBook
retire side b index r =
    let s = half side b in
    let removed = PriceLevel.remove (s.levels index) r b.orders.orders in
    let s' : HalfBook = record {
      levels = set_level s.levels index removed.0;
      best = s.best;
      active_orders = sub64 s.active_orders 1;
    } in
    let s'' =
      if PriceLevel.empty removed.0
      then update_best_after_removal side b.config.price_level_count s' index
      else s' in
    set_half side s'' (record b {
      orders = OrderPool.release (record (b.orders) { orders = removed.1 }) r;
      orders_by_id = (FixedOrderMap.erase none b.orders_by_id (removed.1 r).order_id).0;
    })

-- One trade: the book after the quantities have moved, before a filled order is retired.
unfoldable pub exchange : Side → OrderBook → (aggressor index resting : ℕ) → OrderBook
unfolding settle
exchange side b a index r =
    let h = b.orders.orders in
    let quantity = min (h a).remaining_quantity (h r).remaining_quantity in
    let s = half side b in
    let level = s.levels index in
    let level' = record level { total_quantity = sub64 level.total_quantity quantity } in
    set_half side (record s { levels = set_level s.levels index level' })
      (record b {
        orders = record (b.orders) { orders = settle h a r quantity };
        execution_count = add64 b.execution_count 1;
      })

-- What `execute` does after the match.
unfoldable pub settle_aggressor : OrderBook → (aggressor : ℕ) → OrderBook × NewOrderOutcome
settle_aggressor b a =
    let o = b.orders.orders a in
    if ltb 0 o.remaining_quantity
    then (rest b a, record { remaining_quantity = o.remaining_quantity; rested = true })
    else (
      record b {
        orders = OrderPool.release b.orders a;
        orders_by_id = (FixedOrderMap.erase none b.orders_by_id o.order_id).0;
      },
      record { remaining_quantity = 0; rested = false },
    )

module _ {S : Type 0} (emit : MatchSink S) where
  -- The body of the loop, with the order at the front of the best level.
  unfoldable pub trade :
      Side → OrderBook → (aggressor index : ℕ) → OrderPtr → S → Run (OrderBook × S)
  trade side b a index none s = fault
  trade side b a index (some r) s =
      let h = b.orders.orders in
      let quantity = min (h a).remaining_quantity (h r).remaining_quantity in
      let b' = exchange side b a index r in
      let h' = b'.orders.orders in
      let s' = emit (execution (h' a) (h' r) quantity) s in
      ok (if (h' r).remaining_quantity == 0 then retire side b' index r else b', s')

  -- One round, with the best price of the resting side: `none` if the loop's test fails.
  unfoldable pub round_at :
      Side → OrderBook → (aggressor : ℕ) → S → Option ℕ → Option (Run (OrderBook × S))
  round_at side b a s none = none
  round_at side b a s (some index) =
      if ltb 0 (b.orders.orders a).remaining_quantity
        && crosses side (b.orders.orders a).price (some index)
      then some (trade side b a index (PriceLevel.front ((half side b).levels index)) s)
      else none

  unfoldable pub round : Side → OrderBook → (aggressor : ℕ) → S → Option (Run (OrderBook × S))
  round side b a s = round_at side b a s (half side b).best

  unfoldable pub match_loop :
      (fuel : ℕ) → Side → OrderBook → (aggressor : ℕ) → S → Run (OrderBook × S)
  match_loop zero side b a s = out_of_fuel
  match_loop (suc fuel) side b a s = elim (round side b a s) [
    | none ↦ ok (b, s)
    | some next ↦ next >>= λ (b', s'). match_loop fuel side b' a s'
  ]

  unfoldable pub match_buy : OrderBook → (aggressor : ℕ) → S → Run (OrderBook × S)
  unfolding match_loop
  match_buy b a s = match_loop (b.asks.active_orders + 1) sell b a s

  unfoldable pub match_sell : OrderBook → (aggressor : ℕ) → S → Run (OrderBook × S)
  unfolding match_loop
  match_sell b a s = match_loop (b.bids.active_orders + 1) buy b a s

  unfoldable pub match_on : Side → OrderBook → (aggressor : ℕ) → S → Run (OrderBook × S)
  unfolding match_buy match_sell
  match_on buy b a s = match_buy b a s
  match_on sell b a s = match_sell b a s

  unfoldable pub match : OrderBook → (aggressor : ℕ) → S → Run (OrderBook × S)
  unfolding match_on
  match b a s = match_on (b.orders.orders a).side b a s

  unfoldable pub execute : OrderBook → (aggressor : ℕ) → S → Run (OrderBook × NewOrderOutcome × S)
  unfolding match settle_aggressor
  execute b a s = match b a s >>= λ (b', s').
      let settled = settle_aggressor b' a in ok (settled.0, settled.1, s')
