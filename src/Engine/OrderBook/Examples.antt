-- ===== src/Engine/OrderBook/Examples.antt =====
-- A small book at concrete inputs: two sell orders, and a buy order that trades with both.
use sixchange.Engine.OrderBook.Cancelling.{IsFound, without, cancel-Taken}
use sixchange.Engine.OrderBook.Cancellation.{cancel, report}
use sixchange.Engine.OrderBook.Removal.{Taken}
use sixchange.Core.Commands.{CancelOrderCommand, NewOrderCommand}
use sixchange.Engine.OrderBook.Invariant.{IsOpen}
use sixchange.Engine.OrderBook.Matching.{execute, match}
use sixchange.Engine.OrderBook.Admission.{admit}
use sixchange.Core.Enums.{OrderType, TimeInForce, Side, buy, sell}
use sixchange.Engine.OrderBook.Execution.{Executed, execute-Executed}
use sixchange.Engine.OrderBook.Admitting.{Admitted, admit-Admitted}
use sixchange.Engine.FixedOrderMap.{make}
use sixchange.Engine.PriceLevel.{push_back}
use sixchange.Base.{
  value, some, ℕ, zero, suc, ◌<◌, ◌≤◌, ◌≡◌, ◌≢◌, refl, inl, inr, true, none, List, [], ◌∷◌, ◌++◌,
  arith, In, Returns,
}
use sixchange.Core.Config.{OrderBookConfig, Platform}
use sixchange.Engine.Order.{Order, Slots, empty_order, write}
use sixchange.Engine.PriceLevel.Queue.{unlinked}
use sixchange.Engine.MatchExecution.{MatchExecution, MatchSink}
use sixchange.Engine.FixedOrderMap
use sixchange.Engine.OrderBook.State
use sixchange.Engine.OrderBook.Matching
use sixchange.Engine.PriceLevel
use sixchange.Engine.OrderPool
use sixchange.Engine.OrderBook.State.{set_level, rest_half, OrderBook, rest, new_half, new_levels}
use sixchange.Engine.OrderBook.Contents.{All-assign, Contents, assign}
use sixchange.Engine.OrderBook.Whole.{IsBook}
use sixchange.Engine.OrderBook.PriceTime.{fill}
use sixchange.Engine.OrderBook.Rounds.{IsAggressor, Matched}
use sixchange.Engine.OrderBook.Construction.{
  new_half-IsHalf, total-no_orders, no_orders, Made, make-Made,
}
use sixchange.Engine.OrderBook.Lifecycle.{rest-IsBook}
use sixchange.Engine.OrderBook.Loop.{crossing}
use sixchange.Engine.OrderBook.Refinement.{match-Matched}

abbrev small : OrderBookConfig
small = record { max_active_orders = 4; price_level_count = 8; order_lookup_capacity = 4 }

abbrev order_of : Side → (price quantity id : ℕ) → Order
order_of side price quantity id = record empty_order {
  order_id = id;
  side = side;
  price = price;
  remaining_quantity = quantity;
  active = true;
}

abbrev slots : Slots
slots zero = order_of sell 5 10 1
slots (suc zero) = order_of sell 6 4 2
slots (suc (suc zero)) = order_of buy 6 12 3
slots (suc (suc (suc x))) = empty_order

-- Three orders are admitted, and none is on a side.
abbrev admitted : OrderBook
admitted = record {
  symbol_id = 0;
  config = small;
  orders = record { orders = slots; capacity = 4; size = 3; free_head = none };
  orders_by_id = record {
    capacity = 4;
    mask = 3;
    entries = λ i. FixedOrderMap.empty_entry none;
    size = 0;
  };
  bids = new_half 8;
  asks = new_half 8;
  execution_count = 0;
}

untouched : (x : ℕ) → 3 ≤ x → slots x ≡ empty_order
untouched zero h = absurd (omega arith)
untouched (suc zero) h = absurd (omega arith)
untouched (suc (suc zero)) h = absurd (omega arith)
untouched (suc (suc (suc x))) h = refl

listed : (x : ℕ) → (slots x).active ≡ true → In x (2 ∷ 1 ∷ 0 ∷ [])
listed zero on = inr (inr (inl refl))
listed (suc zero) on = inr (inl refl)
listed (suc (suc zero)) on = inl refl
listed (suc (suc (suc x))) on = cc

admitted-IsBook : IsBook sell admitted no_orders no_orders (2 ∷ 1 ∷ 0 ∷ []) [] 3
admitted-IsBook = record {
  pool = record {
    links = refl;
    count = omega arith;
    fits = omega arith;
    live_below = omega arith;
    free_below = tt;
    live_distinct = omega arith;
    free_distinct = tt;
    apart = (tt, (tt, (tt, tt)));
    cleared = tt;
    untouched = untouched;
  };
  near_half = new_half-IsHalf sell 8 slots;
  far_half = new_half-IsHalf buy 8 slots;
  listed = listed;
  accounted = omega (arith, total-no_orders 8);
  small = omega arith;
}

-- Then the sell orders rest.
abbrev one_resting : OrderBook
one_resting = rest admitted 0

abbrev two_resting : OrderBook
two_resting = rest one_resting 1

abbrev asks1 : Contents
asks1 = assign no_orders 5 (0 ∷ [])

abbrev asks2 : Contents
asks2 = assign asks1 6 (1 ∷ [])

one_resting-IsBook : IsBook sell one_resting asks1 no_orders (2 ∷ 1 ∷ 0 ∷ []) [] 2
unfolding assign
one_resting-IsBook =
    rest-IsBook sell admitted no_orders no_orders (2 ∷ 1 ∷ 0 ∷ []) [] 2 admitted-IsBook 0 5
      (record { on_side = refl; at_price = refl; in_word = omega arith; is_active = refl })
      (λ i. tt) (λ i. tt) (omega arith)

two_resting-IsBook : IsBook sell two_resting asks2 no_orders (2 ∷ 1 ∷ 0 ∷ []) [] 1
unfolding rest assign push_back new_half new_levels write rest_half set_level
two_resting-IsBook =
    rest-IsBook sell one_resting asks1 no_orders (2 ∷ 1 ∷ 0 ∷ []) [] 1 one_resting-IsBook 1 6
      (record { on_side = refl; at_price = refl; in_word = omega arith; is_active = refl })
      (All-assign (λ x. x ≢ 1) no_orders 5 (0 ∷ []) (omega arith) (λ i. tt)) (λ i. tt) (omega arith)

-- The sink collects the executions.
abbrev collect : MatchSink (List MatchExecution)
collect e es = es ++ e ∷ []

two_resting-IsOpen : IsOpen asks2 two_resting.orders.orders
unfolding rest assign push_back new_half new_levels write rest_half set_level
two_resting-IsOpen =
    All-assign (λ x. 0 < (two_resting.orders.orders x).remaining_quantity) asks1 6 (1 ∷ [])
      (omega arith)
      (All-assign (λ x. 0 < (two_resting.orders.orders x).remaining_quantity) no_orders 5 (0 ∷ [])
        (omega arith) (λ i. tt))

buyer : IsAggressor two_resting asks2 no_orders 2 6
unfolding rest assign push_back new_half new_levels write rest_half set_level
buyer = record {
  off_near =
      All-assign (λ x. x ≢ 2) asks1 6 (1 ∷ []) (omega arith)
        (All-assign (λ x. x ≢ 2) no_orders 5 (0 ∷ []) (omega arith) (λ i. tt));
  off_far = λ i. tt;
  active = refl;
  word = omega arith;
  priced = refl;
}

buyer_opposite : (two_resting.orders.orders 2).side ≡ buy
unfolding rest assign push_back new_half new_levels write rest_half set_level
buyer_opposite = refl

match-Matched_example :
    Returns
      (Matched collect sell two_resting asks2 no_orders 1 2 6 []
        (fill (unlinked (two_resting.orders.orders 2)) (crossing sell two_resting asks2 6)))
      (match collect two_resting 2 [])
match-Matched_example =
    match-Matched collect sell two_resting asks2 no_orders (2 ∷ 1 ∷ 0 ∷ []) [] 1 2 6 []
      two_resting-IsBook two_resting-IsOpen buyer buyer_opposite

execute-Executed_example :
    Returns
      (Executed collect sell no_orders 0 2 6 []
        (fill (unlinked (two_resting.orders.orders 2)) (crossing sell two_resting asks2 6)))
      (execute collect two_resting 2 [])
unfolding rest assign push_back new_half new_levels write rest_half set_level
execute-Executed_example =
    execute-Executed collect sell two_resting asks2 no_orders (2 ∷ 1 ∷ 0 ∷ []) [] 0 2 6 []
      two_resting-IsBook two_resting-IsOpen (λ i. tt) buyer buyer_opposite (omega arith)

-- A sell order at the price 5.
abbrev offer : NewOrderCommand
offer = record {
  seq = 4;
  price = 5;
  quantity = 7;
  client_order_id = 40;
  client_id = 1;
  symbol_id = 0;
  side = sell;
  order_type = OrderType.limit;
  tif = TimeInForce.gfd;
}

admit-Admitted_example :
    Admitted sell two_resting asks2 no_orders 1 offer 4 (admit two_resting offer 4)
admit-Admitted_example =
    admit-Admitted sell two_resting asks2 no_orders (2 ∷ 1 ∷ 0 ∷ []) [] 1 offer 4 two_resting-IsBook

quantities : List MatchExecution → List ℕ
quantities [] = []
quantities (e ∷ es) = e.quantity ∷ quantities es

-- Ten at the price 5 and two at the price 6.
trades_with_both : Returns (λ r. quantities r.1 ≡ 10 ∷ 2 ∷ []) (match collect two_resting 2 [])
unfolding match rest new_half quantities push_back write Matching.round Matching.round_at
    Matching.crosses Matching.trade PriceLevel.front Matching.exchange Matching.retire
    PriceLevel.empty PriceLevel.remove State.update_best_after_removal OrderPool.release
    Matching.execution
trades_with_both = refl

-- A debug build with memory for every book.
abbrev debug : Platform
debug = record { assertions = true; allocates = λ c. true }

make-Made_example : Made small (State.make debug 0 small)
make-Made_example = make-Made debug 0 small refl (omega arith) (omega arith)

-- The order at the price 6 rests first.
rest-IsBook_example :
    IsBook sell (rest admitted 1) (assign no_orders 6 (1 ∷ [])) no_orders (2 ∷ 1 ∷ 0 ∷ []) [] 2
rest-IsBook_example =
    rest-IsBook sell admitted no_orders no_orders (2 ∷ 1 ∷ 0 ∷ []) [] 2 admitted-IsBook 1 6
      (record { on_side = refl; at_price = refl; in_word = omega arith; is_active = refl })
      (λ i. tt) (λ i. tt) (omega arith)

-- The lookup map knows the order at the price 5 by its id.
abbrev listed_book : OrderBook
listed_book = record two_resting {
  orders_by_id = (FixedOrderMap.insert two_resting.orders_by_id 1 (some 0)).0;
}

listed_book-IsBook : IsBook sell listed_book asks2 no_orders (2 ∷ 1 ∷ 0 ∷ []) [] 1
listed_book-IsBook = record {
  pool = two_resting-IsBook.pool;
  near_half = two_resting-IsBook.near_half;
  far_half = two_resting-IsBook.far_half;
  listed = two_resting-IsBook.listed;
  accounted = two_resting-IsBook.accounted;
  small = two_resting-IsBook.small;
}

abbrev withdrawal : CancelOrderCommand
withdrawal = record { seq = 5; order_id = 1; client_order_id = 0; client_id = 0; symbol_id = 0 }

found_first : IsFound sell listed_book asks2 1 5 [] 0 []
unfolding assign FixedOrderMap.insert FixedOrderMap.find FixedOrderMap.erase rest
found_first = record { here = refl; found = refl; erased = refl }

cancel-Taken_example :
    Taken sell listed_book asks2 no_orders [] 1 5 0 [] (
      without sell listed_book asks2 no_orders
        (2 ∷ 1 ∷ 0 ∷ [])
        []
        1
        listed_book-IsBook
        withdrawal
        5
        []
        0
        []
        found_first)
    × (cancel listed_book withdrawal ≡ (
      without sell listed_book asks2 no_orders
          (2 ∷ 1 ∷ 0 ∷ [])
          []
          1
          listed_book-IsBook
          withdrawal
          5
          []
          0
          []
          found_first,
      value (report (listed_book.orders.orders 0)),
    ))
unfolding rest new_half push_back write rest_half set_level
cancel-Taken_example =
    cancel-Taken sell listed_book asks2 no_orders (2 ∷ 1 ∷ 0 ∷ []) [] 1 listed_book-IsBook
      withdrawal 5 [] 0 [] found_first
