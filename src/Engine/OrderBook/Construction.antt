-- ===== src/Engine/OrderBook/Construction.antt =====
-- The constructor makes a well formed book without orders.
use sixchange.Engine.FixedOrderMap.{has_single_bit, FixedOrderMap}
use sixchange.Engine.PriceLevel.Queue.{IsQueue}
use sixchange.Base.{
  bit_and, ◌==◌, ==→eq, ◌≤◌, le→not_ltb, ne→not_==, sub64_le, ◌-◌, sub64, not_ltb→le, ◌||◌, ◌&&◌,
  not_==→ne, not, ℕ, zero, suc, ◌<◌, ◌^◌, ◌≡◌, ◌≢◌, refl, sym, ap, ◌∙◌, inl, inr, Bool, true, false,
  Option, none, some, List, [], arith, Bool-cases, ltb,
}
use sixchange.Core.Types.{SymbolId}
use sixchange.Core.Config.{OrderBookConfig, Platform}
use sixchange.Core.Enums.{Side, buy, sell}
use sixchange.Engine.Order.{OrderPtr, Slots}
use sixchange.Engine.OrderPool.Usage.{unused-IsPool}
use sixchange.Engine.FixedOrderMap
use sixchange.Engine.OrderPool
use sixchange.Engine.OrderBook.State.{OrderBook, make, build, new_half, new_levels, is_valid_config}
use sixchange.Engine.OrderBook.Contents.{Contents, total}
use sixchange.Engine.OrderBook.Invariant.{IsHalf}
use sixchange.Engine.OrderBook.Whole.{IsBook, other}

abbrev pub no_orders : Contents
no_orders i = []

pub total-no_orders : (n : ℕ) → total n no_orders ≡ 0
unfolding total
total-no_orders zero = refl
total-no_orders (suc n) = omega (arith, total-no_orders n)

pub new_half-IsHalf :
    (side : Side) (count : ℕ) (h : Slots) → IsHalf side count (new_half count) no_orders h
unfolding new_half new_levels
new_half-IsHalf side count h = record {
  queues = λ i. queue i;
  members = λ i. tt;
  beyond = λ i out. refl;
  best = λ i. refl;
  active = sym (total-no_orders count);
}
  where
    queue : (i : ℕ) → IsQueue (new_levels count i) [] h
    queue i = elim (Bool-cases (ltb i count)) [
      | inl low ↦
          rw low (record { head = refl; tail = refl; chain = tt; distinct = tt; total = refl })
      | inr high ↦
          rw high (record { head = refl; tail = refl; chain = tt; distinct = tt; total = refl })
    ]

-- The same book from its other side.
pub IsBook-flip :
    (side : Side) {b : OrderBook} {near far : Contents} {live free : List ℕ} {pending : ℕ}
    → IsBook side b near far live free pending
    → IsBook (other side) b far near live free pending
IsBook-flip buy k = record {
  pool = k.pool;
  near_half = k.far_half;
  far_half = k.near_half;
  listed = k.listed;
  accounted = omega (arith, k.accounted);
  small = k.small;
}
IsBook-flip sell k = record {
  pool = k.pool;
  near_half = k.far_half;
  far_half = k.near_half;
  listed = k.listed;
  accounted = omega (arith, k.accounted);
  small = k.small;
}

-- A good configuration. The last condition holds of the powers of two, among the numbers from 1 on:
-- such a number shares no bit with the one below it.
pub record IsGood (c : OrderBookConfig) : Type 0 where
  pub some_orders : 0 < c.max_active_orders
  pub some_levels : 0 < c.price_level_count
  pub enough_entries : c.max_active_orders ≤ c.order_lookup_capacity
  pub power_of_two : bit_and c.order_lookup_capacity (c.order_lookup_capacity - 1) ≡ 0

-- The outcome of the constructor: no book on a bad configuration, and else one that is well formed
-- from either side and without orders.
abbrev pub Made : OrderBookConfig → Option OrderBook → Type 0
Made c none = ¬ IsGood c
Made c (some b) =
    IsGood c × (b.config ≡ c) × ((side : Side) → IsBook side b no_orders no_orders [] [] 0)

-- The four conditions of the constructor's test.
parts :
    (x y z w : Bool)
    → not (x || y || z || not w) ≡ true
    → (x ≡ false) × (y ≡ false) × (z ≡ false) × (w ≡ true)
parts false false false true e = (refl, refl, refl, refl)
parts false false false false e = cc
parts false false true w e = cc
parts false true z w e = cc
parts true y z w e = cc

module _ (c : OrderBookConfig) (word : c.order_lookup_capacity < 2 ^ 64) where
  valid→IsGood : is_valid_config c ≡ true → IsGood c
  unfolding is_valid_config
  valid→IsGood valid =
      let p =
        parts (c.max_active_orders == 0) (c.price_level_count == 0)
          (ltb c.order_lookup_capacity c.max_active_orders)
          (bit_and c.order_lookup_capacity (sub64 c.order_lookup_capacity 1) == 0) valid in
      let orders : c.max_active_orders ≢ 0 = not_==→ne c.max_active_orders 0 p.0 in
      let levels : c.price_level_count ≢ 0 = not_==→ne c.price_level_count 0 p.1 in
      let some_orders : 0 < c.max_active_orders = omega (arith, orders) in
      let enough : c.max_active_orders ≤ c.order_lookup_capacity =
        not_ltb→le c.order_lookup_capacity c.max_active_orders p.2 in
      let less_one : sub64 c.order_lookup_capacity 1 ≡ c.order_lookup_capacity - 1 =
        sub64_le c.order_lookup_capacity 1 word (omega (arith, some_orders, enough)) in
      record {
        some_orders = some_orders;
        some_levels = omega (arith, levels);
        enough_entries = enough;
        power_of_two =
            ap (bit_and c.order_lookup_capacity) (sym less_one)
            ∙ ==→eq (bit_and c.order_lookup_capacity (sub64 c.order_lookup_capacity 1)) 0 p.3;
      }

  module _ (k : IsGood c) where
    open k use {some_orders, some_levels, enough_entries, power_of_two}

    less_one : sub64 c.order_lookup_capacity 1 ≡ c.order_lookup_capacity - 1
    less_one = sub64_le c.order_lookup_capacity 1 word (omega (arith, some_orders, enough_entries))

    IsGood→valid : is_valid_config c ≡ true
    unfolding is_valid_config
    IsGood→valid =
        rw
          (
            ne→not_== c.max_active_orders 0 (omega (arith, some_orders)),
            ne→not_== c.price_level_count 0 (omega (arith, some_levels)),
            le→not_ltb c.order_lookup_capacity c.max_active_orders enough_entries,
            less_one,
            power_of_two,
          )
          refl

    IsGood→single_bit : has_single_bit c.order_lookup_capacity ≡ true
    unfolding has_single_bit
    IsGood→single_bit =
        rw
          (
            ne→not_== c.order_lookup_capacity 0 (omega (arith, some_orders, enough_entries)),
            power_of_two,
          )
          refl

built_book : SymbolId → OrderBookConfig → FixedOrderMap OrderPtr → OrderBook
built_book symbol_id c m = record {
  symbol_id = symbol_id;
  config = c;
  orders = OrderPool.unused c.max_active_orders;
  orders_by_id = m;
  bids = new_half c.price_level_count;
  asks = new_half c.price_level_count;
  execution_count = 0;
}

built_book-IsBook :
    (side : Side) (symbol_id : SymbolId) (c : OrderBookConfig) (m : FixedOrderMap OrderPtr)
    → c.max_active_orders < 2 ^ 64
    → IsBook side (built_book symbol_id c m) no_orders no_orders [] [] 0
unfolding built_book OrderPool.unused
built_book-IsBook buy symbol_id c m small = record {
  pool = unused-IsPool c.max_active_orders;
  near_half = new_half-IsHalf buy c.price_level_count _;
  far_half = new_half-IsHalf sell c.price_level_count _;
  listed = λ x on. let clash : false ≡ true = on in cc;
  accounted = omega (arith, total-no_orders c.price_level_count);
  small = small;
}
built_book-IsBook sell symbol_id c m small = record {
  pool = unused-IsPool c.max_active_orders;
  near_half = new_half-IsHalf sell c.price_level_count _;
  far_half = new_half-IsHalf buy c.price_level_count _;
  listed = λ x on. let clash : false ≡ true = on in cc;
  accounted = omega (arith, total-no_orders c.price_level_count);
  small = small;
}

module _ (platform : Platform) (symbol_id : SymbolId) (c : OrderBookConfig)
    (memory : platform.allocates c ≡ true) (small : c.max_active_orders < 2 ^ 64)
    (word : c.order_lookup_capacity < 2 ^ 64) where
  build-Made :
      (m : FixedOrderMap OrderPtr)
      → Made c (build symbol_id c (some (OrderPool.unused c.max_active_orders)) (some m))
  unfolding build built_book
  build-Made m = elim (Bool-cases (is_valid_config c)) [
    | inl valid ↦
        rw valid
          (valid→IsGood c word valid, refl, λ side. built_book-IsBook side symbol_id c m small)
    | inr bad ↦ rw bad (λ good. let valid = IsGood→valid c word good in cc (bad, valid))
  ]

  no_assertion : (x : Bool) → (x && (c.max_active_orders == 0)) ≡ true → ¬ IsGood c
  no_assertion false e good = cc
  no_assertion true e good =
      let no_orders_left = ==→eq c.max_active_orders 0 e in
      absurd (omega (arith, no_orders_left, good.some_orders))

  from_pool : Made c (
      build symbol_id c
        (OrderPool.make platform.assertions c.max_active_orders)
        (FixedOrderMap.make none c.order_lookup_capacity))
  unfolding OrderPool.make FixedOrderMap.make build
  from_pool = elim (Bool-cases (platform.assertions && (c.max_active_orders == 0))) [
    | inl fails ↦ rw fails (no_assertion platform.assertions fails)
    | inr holds ↦ elim (Bool-cases (has_single_bit c.order_lookup_capacity)) [
      | inl one ↦ rw (holds, one) (build-Made _)
      | inr several ↦
          rw (holds, several) (λ good. let one = IsGood→single_bit c word good in cc (several, one))
    ]
  ]

-- The constructor makes no book on a bad configuration, with assertions compiled in or not, and on a
-- good one it makes a book that is well formed and has no orders, where the memory is there and the
-- capacities are words. A good configuration has room for some orders, some price levels, and a
-- lookup capacity that is at least the number of orders and shares no bit with the number below it.
pub make-Made :
    (platform : Platform) (symbol_id : SymbolId) (c : OrderBookConfig)
    → platform.allocates c ≡ true
    → c.max_active_orders < 2 ^ 64
    → c.order_lookup_capacity < 2 ^ 64
    → Made c (make platform symbol_id c)
unfolding make
make-Made platform symbol_id c memory small word =
    rw memory (from_pool platform symbol_id c memory small word)
