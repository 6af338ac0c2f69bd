-- ===== src/Engine/OrderPool.antt =====
-- src/engine/OrderPool.h: the array of orders with its free list, which runs through `next`.
pub mod Usage
pub mod Allocation
mod Examples
use sixchange.Base.{ℕ, suc, ◌+◌, Bool, true, false, Option, none, some, ◌==◌, ◌&&◌, if◌then◌else◌}
use sixchange.Engine.Order.{OrderPtr, Order, empty_order, Slots, write}

pub record OrderPool : Type 0 where
  pub orders : Slots
  pub capacity : ℕ
  pub size : ℕ
  pub free_head : OrderPtr

-- Value-initialised orders, all unused.
unfoldable pub unused : ℕ → OrderPool
unused capacity = record {
  orders = λ _. empty_order;
  capacity = capacity;
  size = 0;
  free_head = none;
}

-- The constructor, `none` where its assertion, if it is compiled in, ends the program.
unfoldable pub make : (assertions : Bool) → ℕ → Option OrderPool
unfolding unused
make assertions capacity = if assertions && (capacity == 0) then none else some (unused capacity)

unfoldable pub fresh : OrderPool → OrderPtr × OrderPool
fresh pool =
    if pool.size == pool.capacity
    then (none, pool)
    else (some pool.size, record pool { size = pool.size + 1 })

unfoldable pub reuse : OrderPool → ℕ → OrderPtr × OrderPool
reuse pool order = (
  some order,
  record pool {
    free_head = (pool.orders order).next;
    orders = write pool.orders order empty_order;
  },
)

unfoldable pub take_slot : OrderPool → (head : OrderPtr) → OrderPtr × OrderPool
unfolding fresh reuse
take_slot pool (some order) = reuse pool order
take_slot pool none = fresh pool

unfoldable pub allocate : OrderPool → OrderPtr × OrderPool
unfolding take_slot
allocate pool = take_slot pool pool.free_head

unfoldable pub release : OrderPool → ℕ → OrderPool
release pool order =
    let h = write pool.orders order empty_order in
    record pool {
      orders = write h order (record (h order) { next = pool.free_head });
      free_head = some order;
    }

unfoldable pub allocated_slots : OrderPool → ℕ
allocated_slots pool = pool.size
