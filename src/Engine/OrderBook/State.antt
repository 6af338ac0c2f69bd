-- ===== src/Engine/OrderBook/State.antt =====
-- The state of the book, its constructor and the upkeep of the best prices. The members
-- `bids_`, `best_bid_` and `active_bid_orders_` are one record, and so are those of the asks.
use sixchange.Base.{
  ℕ, zero, suc, ◌+◌, ◌-◌, Bool, true, not, ◌||◌, Option, none, some, bit_and, ltb, ◌==◌,
  if◌then◌else◌, add64, sub64,
}
use sixchange.Core.Types.{SymbolId}
use sixchange.Core.Enums.{Side, buy, sell}
use sixchange.Core.Config.{OrderBookConfig, Platform}
use sixchange.Engine.Order.{OrderPtr, Slots}
use sixchange.Engine.PriceLevel.{PriceLevel, empty_level, empty, push_back}
use sixchange.Engine.OrderPool
use sixchange.Engine.OrderPool.{OrderPool}
use sixchange.Engine.FixedOrderMap
use sixchange.Engine.FixedOrderMap.{FixedOrderMap}

pub record HalfBook : Type 0 where
  pub levels : ℕ → PriceLevel
  pub best : Option ℕ
  pub active_orders : ℕ

pub record OrderBook : Type 0 where
  pub symbol_id : SymbolId
  pub config : OrderBookConfig
  pub orders : OrderPool
  pub orders_by_id : FixedOrderMap OrderPtr
  pub bids : HalfBook
  pub asks : HalfBook
  pub execution_count : ℕ

-- The bids for a buy, the asks for a sell.
abbrev pub choose : {A : Type 0} → Side → A → A → A
choose buy x y = x
choose sell x y = y

abbrev pub half : Side → OrderBook → HalfBook
half side b = choose side b.bids b.asks

abbrev pub set_half : Side → HalfBook → OrderBook → OrderBook
set_half side s b = record b { bids = choose side s b.bids; asks = choose side b.asks s }

-- The array with one level replaced.
unfoldable pub set_level : (ℕ → PriceLevel) → ℕ → PriceLevel → ℕ → PriceLevel
set_level levels i l j = if j == i then l else levels j

unfoldable pub new_levels : ℕ → ℕ → PriceLevel
new_levels count i = if ltb i count then record empty_level { price = i } else empty_level

unfoldable pub new_half : ℕ → HalfBook
unfolding new_levels
new_half count = record { levels = new_levels count; best = none; active_orders = 0 }

-- The constructor's test for a usable configuration.
unfoldable pub is_valid_config : OrderBookConfig → Bool
is_valid_config c = not (
    c.max_active_orders == 0
    || c.price_level_count == 0
    || ltb c.order_lookup_capacity c.max_active_orders
    || not (bit_and c.order_lookup_capacity (sub64 c.order_lookup_capacity 1) == 0))

-- The book of its members, `none` where the body of the constructor throws.
unfoldable pub build :
    SymbolId
    → OrderBookConfig
    → Option OrderPool
    → Option (FixedOrderMap OrderPtr)
    → Option OrderBook
unfolding new_half is_valid_config
build symbol_id c none by_id = none
build symbol_id c (some orders) none = none
build symbol_id c (some orders) (some by_id) =
    if is_valid_config c
    then some (record {
      symbol_id = symbol_id;
      config = c;
      orders = orders;
      orders_by_id = by_id;
      bids = new_half c.price_level_count;
      asks = new_half c.price_level_count;
      execution_count = 0;
    })
    else none

-- The constructor, `none` where it makes no book: it throws, for want of memory or on its
-- configuration, or an assertion ends the program.
unfoldable pub make : Platform → SymbolId → OrderBookConfig → Option OrderBook
unfolding build
make platform symbol_id c =
    if platform.allocates c
    then build symbol_id c (OrderPool.make platform.assertions c.max_active_orders)
        (FixedOrderMap.make none c.order_lookup_capacity)
    else none

-- The loop of `update_best_bid_after_removal`: the levels below `index`, from the highest.
unfoldable pub scan_down : (ℕ → PriceLevel) → (index : ℕ) → Option ℕ
scan_down levels zero = none
scan_down levels (suc candidate) =
    if not (empty (levels candidate)) then some candidate else scan_down levels candidate

-- The loop of `update_best_ask_after_removal`, with the number of candidates left.
unfoldable pub scan_up : (ℕ → PriceLevel) → (rounds candidate : ℕ) → Option ℕ
scan_up levels zero candidate = none
scan_up levels (suc rounds) candidate =
    if not (empty (levels candidate)) then some candidate else scan_up levels rounds (candidate + 1)

unfoldable pub update_best_bid_after_removal : HalfBook → ℕ → HalfBook
unfolding scan_down
update_best_bid_after_removal s removed = record s {
  best = if s.active_orders == 0 then none else scan_down s.levels removed;
}

unfoldable pub update_best_ask_after_removal : (price_level_count : ℕ) → HalfBook → ℕ → HalfBook
unfolding scan_up
update_best_ask_after_removal count s removed = record s {
  best =
      if s.active_orders == 0 then none else scan_up s.levels (count - (removed + 1)) (removed + 1);
}

unfoldable pub update_best_after_removal : Side → (price_level_count : ℕ) → HalfBook → ℕ → HalfBook
unfolding update_best_bid_after_removal update_best_ask_after_removal
update_best_after_removal buy count s removed = update_best_bid_after_removal s removed
update_best_after_removal sell count s removed = update_best_ask_after_removal count s removed

-- Whether an order that rests at `index` improves on the best price.
unfoldable pub improves : Side → (index : ℕ) → Option ℕ → Bool
improves side index none = true
improves buy index (some best) = ltb best index
improves sell index (some best) = ltb index best

-- `rest` on one side.
unfoldable pub rest_half : Side → HalfBook → (index order : ℕ) → Slots → HalfBook × Slots
unfolding set_level improves
rest_half side s index order h =
    let pushed = push_back (s.levels index) order h in
    (
      record {
        levels = set_level s.levels index pushed.0;
        best = if improves side index s.best then some index else s.best;
        active_orders = add64 s.active_orders 1;
      },
      pushed.1,
    )

unfoldable pub rest : OrderBook → ℕ → OrderBook
unfolding rest_half
rest b order =
    let o = b.orders.orders order in
    let r = rest_half o.side (half o.side b) o.price order b.orders.orders in
    set_half o.side r.0 (record b { orders = record (b.orders) { orders = r.1 } })
