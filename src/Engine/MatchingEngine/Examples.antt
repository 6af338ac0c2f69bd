-- ===== src/Engine/MatchingEngine/Examples.antt =====
-- The engine with one resting sell order, and a buy order that trades with it.
use sixchange.Base.{
  ℕ, zero, suc, ◌≤◌, ◌<◌, ◌≡◌, refl, inl, true, none, List, [], ◌∷◌, ◌++◌, arith, In, Returns,
}
use sixchange.Core.Enums.{buy, sell, OrderType, TimeInForce}
use sixchange.Core.Commands.{NewOrderCommand}
use sixchange.Core.Events.{EngineEvent}
use sixchange.Core.Dispatcher.{EngineEventSink}
use sixchange.Engine.Order.{Slots, empty_order, write}
use sixchange.Engine.FixedOrderMap
use sixchange.Engine.OrderBook.State.{OrderBook, rest, new_half, new_levels, rest_half, set_level}
use sixchange.Engine.PriceLevel.{push_back}
use sixchange.Engine.OrderBook.Contents.{assign, All-assign}
use sixchange.Engine.OrderBook.Whole.{IsBook}
use sixchange.Engine.OrderBook.Construction.{
  new_half-IsHalf, total-no_orders, no_orders, IsBook-flip,
}
use sixchange.Engine.OrderBook.Lifecycle.{rest-IsBook}
use sixchange.Engine.MatchingEngine.{MatchingEngine, process_new_order}
use sixchange.Engine.MatchingEngine.Sound.{IsSound}
use sixchange.Engine.MatchingEngine.Soundness.{process_new_order-IsSound}

abbrev slots : Slots
slots zero = record empty_order {
  order_id = 1;
  side = sell;
  price = 5;
  remaining_quantity = 10;
  active = true;
}
slots (suc x) = empty_order

abbrev admitted : OrderBook
admitted = record {
  symbol_id = 0;
  config = record { max_active_orders = 4; price_level_count = 8; order_lookup_capacity = 4 };
  orders = record { orders = slots; capacity = 4; size = 1; free_head = none };
  orders_by_id = record {
    capacity = 4;
    mask = 3;
    entries = λ i. FixedOrderMap.empty_entry none;
    size = 0;
  };
  bids = new_half 8;
  asks = new_half 8;
  execution_count = 0;
}

untouched : (x : ℕ) → 1 ≤ x → slots x ≡ empty_order
untouched zero h = absurd (omega arith)
untouched (suc x) h = refl

listed : (x : ℕ) → (slots x).active ≡ true → In x (0 ∷ [])
listed zero on = inl refl
listed (suc x) on = cc

admitted-IsBook : IsBook sell admitted no_orders no_orders (0 ∷ []) [] 1
admitted-IsBook = record {
  pool = record {
    links = refl;
    count = omega arith;
    fits = omega arith;
    live_below = omega arith;
    free_below = tt;
    live_distinct = (tt, tt);
    free_distinct = tt;
    apart = (tt, tt);
    cleared = tt;
    untouched = untouched;
  };
  near_half = new_half-IsHalf sell 8 slots;
  far_half = new_half-IsHalf buy 8 slots;
  listed = listed;
  accounted = omega (arith, total-no_orders 8);
  small = omega arith;
}

abbrev pub engine : MatchingEngine
engine = record { order_book = rest admitted 0; next_order_id = 2; next_trade_id = 1 }

resting-IsBook : IsBook sell (rest admitted 0) (assign no_orders 5 (0 ∷ [])) no_orders (0 ∷ []) [] 0
resting-IsBook =
    rest-IsBook sell admitted no_orders no_orders (0 ∷ []) [] 0 admitted-IsBook 0 5
      (record { on_side = refl; at_price = refl; in_word = omega arith; is_active = refl })
      (λ i. tt) (λ i. tt) (omega arith)

pub engine-IsSound : IsSound engine.order_book
unfolding rest assign push_back new_half new_levels write rest_half set_level
engine-IsSound = record {
  near = no_orders;
  far = assign no_orders 5 (0 ∷ []);
  live = 0 ∷ [];
  free = [];
  book = IsBook-flip sell resting-IsBook;
  near_open = λ i. tt;
  far_open =
      All-assign (λ x. 0 < ((rest admitted 0).orders.orders x).remaining_quantity) no_orders 5
        (0 ∷ []) (omega arith) (λ i. tt);
}

abbrev bid : NewOrderCommand
bid = record {
  seq = 4;
  price = 6;
  quantity = 12;
  client_order_id = 40;
  client_id = 1;
  symbol_id = 0;
  side = buy;
  order_type = OrderType.limit;
  tif = TimeInForce.gfd;
}

abbrev collect : EngineEventSink (List EngineEvent)
collect event events = events ++ event ∷ []

process_new_order-IsSound_example :
    Returns (λ next. IsSound next.0.order_book) (process_new_order collect engine bid [])
process_new_order-IsSound_example =
    process_new_order-IsSound collect engine bid [] engine-IsSound (omega arith)
