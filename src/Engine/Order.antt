-- ===== src/Engine/Order.antt =====
-- src/engine/Order.h, and the memory that orders live in. An `Order*` is the index of a slot of the
-- pool's array, `none` is the null pointer, and the array's contents are a function of the index.
use sixchange.Base.{
  ℕ, ◌≡◌, ◌≢◌, Bool, false, Option, none, List, [], ◌∷◌, arith, ◌==◌, if◌then◌else◌, All, Absent,
}
use sixchange.Core.Types.{
  SequenceNumber, OrderId, ClientOrderId, ClientId, SymbolId, Price, Quantity,
}
use sixchange.Core.Enums.{Side, buy}

abbrev pub OrderPtr : Type 0
OrderPtr = Option ℕ

pub record Order : Type 0 where
  pub order_id : OrderId
  pub client_order_id : ClientOrderId
  pub client_id : ClientId
  pub symbol_id : SymbolId
  pub side : Side
  pub price : Price
  pub remaining_quantity : Quantity
  pub seq : SequenceNumber
  pub prev : OrderPtr
  pub next : OrderPtr
  pub active : Bool

-- `Order{}`.
abbrev pub empty_order : Order
empty_order = record {
  order_id = 0;
  client_order_id = 0;
  client_id = 0;
  symbol_id = 0;
  side = buy;
  price = 0;
  remaining_quantity = 0;
  seq = 0;
  prev = none;
  next = none;
  active = false;
}

abbrev pub Slots : Type 0
Slots = ℕ → Order

unfoldable pub write : Slots → ℕ → Order → Slots
write h p o q = if q == p then o else h q

pub write_self : (h : Slots) (p : ℕ) (o : Order) → write h p o p ≡ o
unfolding write
write_self h p o = ground arith

pub write-ne : (h : Slots) (p q : ℕ) (o : Order) → q ≢ p → write h p o q ≡ h q
unfolding write
write-ne h p q o ne = ground arith

-- What holds of the orders at some addresses survives a write elsewhere.
pub All-write :
    (P : ℕ → Order → Type 0) (h : Slots) (p : ℕ) (o : Order) (xs : List ℕ)
    → Absent p xs
    → All (λ x. P x (h x)) xs
    → All (λ x. P x (write h p o x)) xs
All-write P h p o [] out all = tt
All-write P h p o (x ∷ xs) out all =
    (rw (write-ne h p x o out.0) all.0, All-write P h p o xs out.1 all.1)
