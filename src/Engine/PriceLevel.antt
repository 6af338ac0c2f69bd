-- ===== src/Engine/PriceLevel.antt =====
-- src/engine/PriceLevel.h: a queue of orders at one price, linked through the orders themselves.
-- The functions take and return the memory as well as the level.
pub mod Unlinking
pub mod Chain
pub mod Queue
pub mod PushBack
pub mod Remove
mod Examples
use sixchange.Base.{ℕ, Bool, true, false, Option, none, some, add64, sub64}
use sixchange.Core.Types.{Price, Quantity}
use sixchange.Engine.Order.{OrderPtr, Order, Slots, write}

pub record PriceLevel : Type 0 where
  pub price : Price
  pub head : OrderPtr
  pub tail : OrderPtr
  pub total_quantity : Quantity

abbrev pub empty_level : PriceLevel
empty_level = record { price = 0; head = none; tail = none; total_quantity = 0 }

is_null : OrderPtr → Bool
is_null none = true
is_null (some _) = false

unfoldable pub empty : PriceLevel → Bool
unfolding is_null
empty l = is_null l.head

unfoldable pub front : PriceLevel → OrderPtr
front l = l.head

-- `*q = …` through a pointer that the code has compared with null; null is left alone.
pub set_next : OrderPtr → OrderPtr → Slots → Slots
set_next none n h = h
set_next (some q) n h = write h q (record (h q) { next = n })

pub set_prev : OrderPtr → OrderPtr → Slots → Slots
set_prev none n h = h
set_prev (some q) n h = write h q (record (h q) { prev = n })

-- What a level's end becomes: `new` if the neighbour that was tested is null, else what it was.
pub new_end : (neighbour new old : OrderPtr) → OrderPtr
new_end none new old = new
new_end (some _) new old = old

unfoldable pub push_back : PriceLevel → ℕ → Slots → PriceLevel × Slots
unfolding set_next new_end
push_back l order h0 =
    let h1 = write h0 order (record (h0 order) { prev = l.tail; next = none }) in
    let h2 = set_next l.tail (some order) h1 in
    (
      record l {
        head = new_end l.tail (some order) l.head;
        tail = some order;
        total_quantity = add64 l.total_quantity (h2 order).remaining_quantity;
      },
      h2,
    )

unfoldable pub remove : PriceLevel → ℕ → Slots → PriceLevel × Slots
unfolding set_next set_prev new_end
remove l order h0 =
    let h1 = set_next (h0 order).prev (h0 order).next h0 in
    let h2 = set_prev (h1 order).next (h1 order).prev h1 in
    (
      record l {
        head = new_end (h0 order).prev (h0 order).next l.head;
        tail = new_end (h1 order).next (h1 order).prev l.tail;
        total_quantity = sub64 l.total_quantity (h2 order).remaining_quantity;
      },
      write h2 order (record (h2 order) { prev = none; next = none }),
    )
