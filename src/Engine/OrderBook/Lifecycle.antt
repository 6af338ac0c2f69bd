-- ===== src/Engine/OrderBook/Lifecycle.antt =====
-- `rest` keeps the book well formed: an admitted order that is on no side goes to the back of the
-- queue at its price.

use sixchange.Engine.PriceLevel.Queue.{SameOrders}
use sixchange.Base.{
  ℕ, ◌+◌, ◌<◌, ◌≡◌, ◌≢◌, sym, ap, subst, ◌∙◌, false, List, [], ◌∷◌, ◌++◌, arith, All, All-map,
  length-append,
}
use mathlib.Core.Path.{ap₂}
use sixchange.Core.Enums.{Side}
use sixchange.Engine.Order.{Order, Slots}
use sixchange.Engine.OrderBook.State.{HalfBook, OrderBook, half, set_half, rest, rest_half}
use sixchange.Engine.OrderBook.Contents.{Contents, assign, total-assign}
use sixchange.Engine.OrderBook.Invariant.{IsHalf-agree, IsMember, Foreign}
use sixchange.Engine.OrderBook.Resting.{Rested, rest_half-Rested}
use sixchange.Engine.OrderBook.Whole.{
  IsBook, IsPool-idle, other, ne_of_active, ne_of_side, half-set_half, half-other-set_half,
  near_small,
}

-- `rest` with the order's side and price written out.
rest_at : Side → (price : ℕ) → OrderBook → ℕ → OrderBook
unfolding rest_half
rest_at side price b order =
    let r = rest_half side (half side b) price order b.orders.orders in
    set_half side r.0 (record b { orders = record (b.orders) { orders = r.1 } })

module _ (side : Side) (b : OrderBook) (near far : Contents) (live free : List ℕ) (pending : ℕ)
    (k : IsBook side b near far live free (pending + 1)) (a price : ℕ)
    (own : IsMember side price (b.orders.orders a)) (off_near : Foreign a near)
    (off_far : Foreign a far) (inside : price < b.config.price_level_count) where
  rest-rest_at : rest b a ≡ rest_at side price b a
  unfolding rest rest_at
  rest-rest_at = ap₂ (λ σ p. rest_at σ p b a) own.on_side own.at_price

  rested : HalfBook × Slots
  rested = rest_half side (half side b) price a b.orders.orders

  done : Rested side b.config.price_level_count near price a b.orders.orders rested
  unfolding rested
  done =
      rest_half-Rested side b.config.price_level_count (half side b) near price a b.orders.orders
        k.near_half own inside off_near (omega (arith, near_small k))

  joined : Contents
  joined = assign near price (near price ++ a ∷ [])

  idle_ne : (x : ℕ) → (b.orders.orders x).active ≡ false → rested.1 x ≡ b.orders.orders x
  idle_ne x off =
      done.frame x
        (λ j.
          All-map {Q = λ y. y ≢ x}
            (λ y (m : IsMember side j (b.orders.orders y)) e.
              ne_of_active b.orders.orders x y off m.is_active (sym e))
            (near j) (k.near_half.members j))
        (ne_of_active b.orders.orders x a off own.is_active)

  far_ne : (j : ℕ) → All (λ x. rested.1 x ≡ b.orders.orders x) (far j)
  far_ne j =
      All-map
        (λ x (m : IsMember (other side) j (b.orders.orders x)).
          done.frame x
            (λ i.
              All-map {Q = λ y. y ≢ x}
                (λ y (n : IsMember side i (b.orders.orders y)) e.
                  ne_of_side b.orders.orders side x y m.on_side n.on_side (sym e))
                (near i) (k.near_half.members i))
            (ne_of_side b.orders.orders side x a m.on_side own.on_side))
        (far j) (k.far_half.members j)

  rest_at-IsBook : IsBook side (rest_at side price b a) joined far live free pending
  unfolding rest_at joined rested
  rest_at-IsBook = record {
    pool = IsPool-idle b.orders live free _ k.pool idle_ne;
    near_half = rw half-set_half done.halved;
    far_half = rw half-other-set_half (
        IsHalf-agree (other side) b.config.price_level_count (half (other side) b) far
          b.orders.orders _ far_ne k.far_half);
    listed = λ x on. k.listed x (sym (ap (λ (o : Order). o.active) (done.same x)) ∙ on);
    accounted = omega (
      arith,
      k.accounted,
      total-assign b.config.price_level_count near price (near price ++ a ∷ []) inside,
      length-append (near price) (a ∷ []),
    );
    small = k.small;
  }

  -- `rest` puts an admitted order that is on neither side behind the queue at its price.
  pub rest-IsBook :
      IsBook side (rest b a) (assign near price (near price ++ a ∷ [])) far live free pending
  unfolding joined
  rest-IsBook =
      subst (λ c. IsBook side c joined far live free pending) (sym rest-rest_at) rest_at-IsBook

  pub rest-SameOrders : SameOrders b.orders.orders (rest b a).orders.orders
  unfolding rest_at rested
  rest-SameOrders =
      subst (λ (c : OrderBook). SameOrders b.orders.orders c.orders.orders) (sym rest-rest_at)
        done.same
