-- ===== src/Engine/OrderBook/Retiring.antt =====
-- A filled resting order leaves its level, the lookup map and the pool.
use sixchange.Engine.PriceLevel
use sixchange.Engine.FixedOrderMap
use sixchange.Engine.FixedOrderMap.{FixedOrderMap}
use sixchange.Engine.OrderBook.Removal.{Taken, taken, taken-Taken}
use sixchange.Base.{
  none, Bool, Option, if◌then◌else◌, ◌&&◌, ℕ, ◌≡◌, ap, subst, some, List, [], ◌∷◌, ==-refl,
}
use sixchange.Core.Enums.{Side}
use sixchange.Engine.Order.{OrderPtr}
use sixchange.Engine.OrderPool.{release}
use sixchange.Engine.OrderBook.State.{set_half, OrderBook, half}
use sixchange.Engine.OrderBook.Contents.{Contents}
use sixchange.Engine.OrderBook.Whole.{IsBook}
use sixchange.Engine.OrderBook.Cancellation.{is_best, unrest_half}
use sixchange.Engine.OrderBook.Matching.{retire}

at_best :
    {A : Type 0} (o : Option ℕ) (i : ℕ)
    → o ≡ some i
    → (e : Bool) (x y : A) → (if is_best o i && e then x else y) ≡ (if e then x else y)
unfolding is_best
at_best o i best e x y = rw (best, is_best, ==-refl i)

-- Retiring the front order of the best level keeps the book well formed without it.
pub retire-Taken :
    (side : Side) (b : OrderBook) (near far : Contents) (live free : List ℕ) (pending : ℕ)
    → IsBook side b near far live free pending
    → (i r : ℕ) (rest : List ℕ) → near i ≡ r ∷ rest
    → (half side b).best ≡ some i
    → Taken side b near far free pending i r rest (retire side b i r)
unfolding retire taken unrest_half
retire-Taken side b near far live free pending k i r rest front best =
    subst (Taken side b near far free pending i r rest) same_book
      (taken-Taken side b near far live free pending k i [] r rest front erased)
  where
    erased : FixedOrderMap OrderPtr
    erased =
        (FixedOrderMap.erase none b.orders_by_id
          ((PriceLevel.remove ((half side b).levels i) r b.orders.orders).1 r).order_id).0

    same_book : taken side b i r erased ≡ retire side b i r
    same_book =
        ap
          (λ s. set_half side s (record b {
            orders =
                release
                  (record (b.orders) {
                    orders = (PriceLevel.remove ((half side b).levels i) r b.orders.orders).1;
                  })
                  r;
            orders_by_id = erased;
          }))
          (at_best (half side b).best i best _ _ _)
