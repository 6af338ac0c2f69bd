-- ===== src/Engine/MatchingEngine/Reasons.antt =====
-- Why the engine refuses a new order: the checks of `process_new_order` and `OrderBook::admit` in
-- their order, told from the command and the book.
use sixchange.Base.{
  ℕ, ◌<◌, ◌≤◌, ◌≡◌, ◌≢◌, refl, inl, inr, none, some, arith, Bool-cases, ◌==◌, leb, leb→le,
  not_leb→lt, ==→eq, not_==→ne, value, unexpected,
}
use sixchange.Core.Enums.{OrderType, TimeInForce, RejectReason}
use sixchange.Core.Commands.{NewOrderCommand}
use sixchange.Engine.Order.{OrderPtr}
use sixchange.Engine.OrderPool.{OrderPool, allocate}
use sixchange.Engine.FixedOrderMap
use sixchange.Engine.FixedOrderMap.{FixedOrderMap, InsertResult, inserted, duplicate_key, full}
use sixchange.Engine.OrderBook.State.{OrderBook}
use sixchange.Engine.OrderBook.Admission.{AdmitResult, admit, register, conclude}

-- The engine takes limit orders that are good for the day.
abbrev pub IsSupported : NewOrderCommand → Type 0
IsSupported c = (c.order_type ≡ OrderType.limit) × (c.tif ≡ TimeInForce.gfd)

-- The command is for the book's symbol, with some quantity and at a price that has a level.
abbrev pub IsValid : OrderBook → NewOrderCommand → Type 0
IsValid b c =
    (c.symbol_id ≡ b.symbol_id) × (0 < c.quantity) × (c.price < b.config.price_level_count)

-- What the lookup map of the book says to the id, once a slot is found.
abbrev pub lookup_result : OrderBook → ℕ → ℕ → InsertResult
lookup_result b order_id slot = (FixedOrderMap.insert b.orders_by_id order_id (some slot)).1

-- The book's reasons to refuse a command.
pub data IsBookReason (b : OrderBook) (c : NewOrderCommand) (order_id : ℕ)
    : RejectReason → Type 0 where
  other_symbol : c.symbol_id ≢ b.symbol_id → IsBookReason b c order_id RejectReason.unknown_symbol
  no_quantity :
      c.symbol_id ≡ b.symbol_id
      → c.quantity ≡ 0
      → IsBookReason b c order_id RejectReason.invalid_quantity
  no_level :
      c.symbol_id ≡ b.symbol_id
      → 0 < c.quantity
      → b.config.price_level_count ≤ c.price
      → IsBookReason b c order_id RejectReason.invalid_price
  no_slot :
      IsValid b c
      → (allocate b.orders).0 ≡ none
      → IsBookReason b c order_id RejectReason.capacity_exhausted
  no_entry :
      IsValid b c
      → (slot : ℕ) → (allocate b.orders).0 ≡ some slot
      → lookup_result b order_id slot ≡ full
      → IsBookReason b c order_id RejectReason.capacity_exhausted
  id_taken :
      IsValid b c
      → (slot : ℕ) → (allocate b.orders).0 ≡ some slot
      → lookup_result b order_id slot ≡ duplicate_key
      → IsBookReason b c order_id RejectReason.matching_engine_error

-- The engine's reasons: it looks at the kind of order before the book does.
pub data IsReason (b : OrderBook) (c : NewOrderCommand) (order_id : ℕ) : RejectReason → Type 0 where
  not_limit :
      c.order_type ≢ OrderType.limit → IsReason b c order_id RejectReason.unsupported_order_type
  not_gfd :
      c.order_type ≡ OrderType.limit
      → c.tif ≢ TimeInForce.gfd
      → IsReason b c order_id RejectReason.unsupported_time_in_force
  by_book :
      {reason : RejectReason}
      → IsSupported c
      → IsBookReason b c order_id reason
      → IsReason b c order_id reason

-- What a result of `admit` says of the command.
abbrev pub Judged : (b : OrderBook) (c : NewOrderCommand) (order_id : ℕ) → AdmitResult → Type 0
Judged b c order_id (value order) = IsValid b c
Judged b c order_id (unexpected reason) = IsBookReason b c order_id reason

module _ (b : OrderBook) (c : NewOrderCommand) (order_id : ℕ) (valid : IsValid b c) where
  concluded :
      (b' : OrderBook) (slot : ℕ)
      → (allocate b.orders).0 ≡ some slot
      → (result : InsertResult) → lookup_result b order_id slot ≡ result
      → Judged b c order_id (conclude b' slot result).1
  unfolding conclude
  concluded b' slot found inserted says = valid
  concluded b' slot found duplicate_key says = id_taken valid slot found says
  concluded b' slot found full says = no_entry valid slot found says

  registered :
      (pool : OrderPool) (order : OrderPtr)
      → (allocate b.orders).0 ≡ order
      → Judged b c order_id (register (record b { orders = pool }) c order_id order).1
  unfolding register
  registered pool none found = no_slot valid found
  registered pool (some slot) found = concluded _ slot found _ refl

pub admit-Judged :
    (b : OrderBook) (c : NewOrderCommand) (order_id : ℕ)
    → Judged b c order_id (admit b c order_id).1
unfolding admit
admit-Judged b c order_id = elim (Bool-cases (c.symbol_id == b.symbol_id)) [
  | inr other ↦ rw other (other_symbol (not_==→ne c.symbol_id b.symbol_id other))
  | inl known ↦
      let symbol = ==→eq c.symbol_id b.symbol_id known in
      elim (Bool-cases (c.quantity == 0)) [
        | inl empty ↦ rw (known, empty) (no_quantity symbol (==→eq c.quantity 0 empty))
        | inr nonzero ↦
            let some_left = not_==→ne c.quantity 0 nonzero in
            let positive : 0 < c.quantity = omega (arith, some_left) in
            elim (Bool-cases (leb b.config.price_level_count c.price)) [
              | inl high ↦
                  rw (known, nonzero, high)
                    (no_level symbol positive (leb→le b.config.price_level_count c.price high))
              | inr low ↦
                  rw (known, nonzero, low)
                    (registered b c order_id
                      (symbol, positive, not_leb→lt b.config.price_level_count c.price low)
                      (allocate b.orders).1 (allocate b.orders).0 refl)
            ]
      ]
]
