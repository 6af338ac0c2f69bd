-- ===== src/Gateway/ClientOrders.antt =====
-- `client_orders_` of src/gateway/OrderGateway.h: a std::unordered_map from client order ids to the
-- engine's order ids, as a list of its entries.
use sixchange.Base.{
  ◌≡◌, ◌≢◌, sym, ==-refl, ne→not_==, Bool, true, false, Option, none, some, List, [], ◌∷◌, ◌==◌,
  if◌then◌else◌,
}
use sixchange.Core.Types.{ClientOrderId, OrderId}

abbrev pub ClientOrders : Type 0
ClientOrders = List (ClientOrderId × OrderId)

unfoldable pub find : ClientOrders → ClientOrderId → Option OrderId
find [] key = none
find ((k, id) ∷ m) key = let rest = find m key in if k == key then some id else rest

unfoldable pub contains : ClientOrders → ClientOrderId → Bool
unfolding find
contains m key = elim (find m key) [ none ↦ false | some id ↦ true ]

-- The new entries, and whether the key was inserted.
unfoldable pub emplace : ClientOrders → ClientOrderId → OrderId → ClientOrders × Bool
unfolding contains
emplace m key id = if contains m key then (m, false) else ((key, id) ∷ m, true)

pub emplace-fresh :
    (m : ClientOrders) (key : ClientOrderId) (id : OrderId)
    → contains m key ≡ false
    → emplace m key id ≡ ((key, id) ∷ m, true)
unfolding emplace
emplace-fresh m key id fresh = rw fresh

-- A new entry is found; the others are found as before.
pub find-here :
    (m : ClientOrders) (key : ClientOrderId) (id : OrderId) → find ((key, id) ∷ m) key ≡ some id
unfolding find
find-here m key id = rw (==-refl key)

pub find-there :
    (m : ClientOrders) (key k : ClientOrderId) (id : OrderId)
    → k ≢ key
    → find ((key, id) ∷ m) k ≡ find m k
unfolding find
find-there m key k id ne = rw (ne→not_== key k (λ e. ne (sym e)))
