-- ===== src/Engine/OrderBook/PriceTime.antt =====
-- The specification of matching: price-time priority on lists of orders, with no levels, links or
-- pool. The queue that an incoming order meets is the ladder of the prices that it crosses, best
-- price first and oldest first at each price.
use sixchange.Base.{
  lt→not_leb, le→leb, ℕ, zero, suc, ◌+◌, ◌≤◌, ◌<◌, ◌≡◌, refl, List, [], ◌∷◌, ◌++◌, map, arith, leb,
  ◌==◌, if◌then◌else◌, ne→not_==,
}
use sixchange.Core.Enums.{Side, buy, sell}
use sixchange.Engine.Order.{Order, Slots}
use sixchange.Engine.PriceLevel.Queue.{unlinked}
use sixchange.Engine.MatchExecution.{MatchExecution, MatchSink}
use sixchange.Engine.OrderBook.Contents.{Contents}
use sixchange.Engine.OrderBook.Settling.{reduced}
use sixchange.Engine.OrderBook.Matching.{execution}

pub record Filled : Type 0 where
  pub executions : List MatchExecution
  pub aggressor : Order
  pub rest : List Order

-- The aggressor trades with the orders of the queue in turn, at their prices, until it is filled or
-- the queue is used up.
unfoldable pub fill : (aggressor : Order) → (queue : List Order) → Filled
fill a [] = record { executions = []; aggressor = a; rest = [] }
fill a (r ∷ rs) =
    let full = r.remaining_quantity in
    let part = a.remaining_quantity in
    let later = fill (reduced a full) rs in
    if part == 0
    then record { executions = []; aggressor = a; rest = r ∷ rs }
    else if leb full part
    then record later {
      executions = execution (reduced a full) (reduced r full) full ∷ later.executions;
    }
    else record {
      executions = execution (reduced a part) (reduced r part) part ∷ [];
      aggressor = reduced a part;
      rest = reduced r part ∷ rs;
    }

-- The executions reach the sink in order.
unfoldable pub deliver : {S : Type 0} → MatchSink S → List MatchExecution → S → S
deliver emit [] s = s
deliver emit (e ∷ es) s = deliver emit es (emit e s)

unfoldable pub up : Contents → (from rounds : ℕ) → List ℕ
up v from zero = []
up v from (suc n) = v from ++ up v (from + 1) n

unfoldable pub down : Contents → (below limit : ℕ) → List ℕ
down v zero limit = []
down v (suc n) limit = if leb limit n then v n ++ down v n limit else []

-- The asks at or below the price, cheapest first; the bids at or above it, dearest first.
unfoldable pub ladder : (resting : Side) → (price_level_count price : ℕ) → Contents → List ℕ
unfolding up down
ladder sell count price v = up v 0 (price + 1)
ladder buy count price v = down v count price

abbrev pub orders_at : Slots → List ℕ → List Order
orders_at h xs = map (λ x. unlinked (h x)) xs

pub fill_done :
    (a : Order) (queue : List Order)
    → a.remaining_quantity ≡ 0
    → fill a queue ≡ record { executions = []; aggressor = a; rest = queue }
unfolding fill
fill_done a [] e = refl
fill_done a (r ∷ rs) e = rw e

module _ (a r : Order) (rs : List Order) (some_left : 0 < a.remaining_quantity) where
  pub fill_full :
      r.remaining_quantity ≤ a.remaining_quantity
      → fill a (r ∷ rs) ≡ (
          let later = fill (reduced a r.remaining_quantity) rs in
          record later {
            executions =
                execution
                  (reduced a r.remaining_quantity)
                  (reduced r r.remaining_quantity)
                  r.remaining_quantity
                ∷ later.executions;
          })
  unfolding fill
  fill_full le = rw (
    ne→not_== a.remaining_quantity 0 (omega arith),
    le→leb r.remaining_quantity a.remaining_quantity le,
  )

  pub fill_part :
      a.remaining_quantity < r.remaining_quantity
      → fill a (r ∷ rs) ≡ record {
        executions =
            execution
              (reduced a a.remaining_quantity)
              (reduced r a.remaining_quantity)
              a.remaining_quantity
            ∷ [];
        aggressor = reduced a a.remaining_quantity;
        rest = reduced r a.remaining_quantity ∷ rs;
      }
  unfolding fill
  fill_part lt = rw (
    ne→not_== a.remaining_quantity 0 (omega arith),
    lt→not_leb r.remaining_quantity a.remaining_quantity lt,
  )
