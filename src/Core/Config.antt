-- ===== src/Core/Config.antt =====
-- include/sixchange/config/OrderBookConfig.h.
use sixchange.Base.{ℕ, Bool}

pub record OrderBookConfig : Type 0 where
  pub max_active_orders : ℕ
  pub price_level_count : ℕ
  pub order_lookup_capacity : ℕ

abbrev pub default_order_book_config : OrderBookConfig
default_order_book_config = record {
  max_active_orders = 262_144;
  price_level_count = 100_000;
  order_lookup_capacity = 524_288;
}

-- What the build and the system decide: whether assertions are compiled in, and whether the memory
-- for all the arrays of a book with that configuration is there.
pub record Platform : Type 0 where
  pub assertions : Bool
  pub allocates : OrderBookConfig → Bool
