-- ===== src/Engine/OrderBook/Whole.antt =====
-- The whole book, seen from one of its sides: `near` lists the orders of `side`, `far` those of the
-- other side, and `pending` counts the orders that are admitted and not on a side.
use sixchange.Base.{
  In, ℕ, ◌+◌, ◌<◌, ◌^◌, ◌≡◌, ◌≢◌, refl, sym, ap, ◌∙◌, true, false, List, arith, length, All,
  All-map,
}
use sixchange.Core.Enums.{Side, buy, sell}
use sixchange.Engine.Order.{Order, Slots, empty_order}
use sixchange.Engine.PriceLevel.Queue.{unlinked}
use sixchange.Engine.OrderPool.{OrderPool}
use sixchange.Engine.OrderPool.Usage.{IsPool, IsPool-frame}
use sixchange.Engine.OrderBook.State.{HalfBook, OrderBook, half, set_half}
use sixchange.Engine.OrderBook.Contents.{Contents, total}
use sixchange.Engine.OrderBook.Invariant.{IsHalf}

abbrev pub other : Side → Side
other buy = sell
other sell = buy

pub other-ne : (side : Side) → other side ≢ side
other-ne buy = λ e. cc
other-ne sell = λ e. cc

pub record IsBook (side : Side) (b : OrderBook) (near far : Contents) (live free : List ℕ)
    (pending : ℕ) : Type 0 where
  pub pool : IsPool b.orders live free
  pub near_half : IsHalf side b.config.price_level_count (half side b) near b.orders.orders
  pub far_half :
      IsHalf (other side) b.config.price_level_count (half (other side) b) far b.orders.orders
  pub listed : (x : ℕ) → (b.orders.orders x).active ≡ true → In x live
  pub accounted :
      pending + total b.config.price_level_count near + total b.config.price_level_count far
      ≡ length live
  pub small : b.orders.capacity < 2 ^ 64

pub half-set_half : (side : Side) (s : HalfBook) (b : OrderBook) → half side (set_half side s b) ≡ s
half-set_half buy s b = refl
half-set_half sell s b = refl

pub half-other-set_half :
    (side : Side) (s : HalfBook) (b : OrderBook)
    → half (other side) (set_half side s b) ≡ half (other side) b
half-other-set_half buy s b = refl
half-other-set_half sell s b = refl

pub near_small :
    {side : Side} {b : OrderBook} {near far : Contents} {live free : List ℕ} {pending : ℕ}
    → IsBook side b near far live free pending
    → total b.config.price_level_count near + pending < 2 ^ 64
near_small k = omega (arith, k.accounted, k.small, k.pool.count, k.pool.fits)

-- Addresses that hold no admitted order.
pub idle_of_cleared :
    (h : Slots) (xs : List ℕ)
    → All (λ x. unlinked (h x) ≡ empty_order) xs
    → All (λ x. (h x).active ≡ false) xs
idle_of_cleared h xs all = All-map (λ x e. ap (λ (o : Order). o.active) e) xs all

-- Code that leaves the idle slots alone keeps the pool well formed.
pub IsPool-idle :
    (pool : OrderPool) (live free : List ℕ) (g : Slots)
    → IsPool pool live free
    → ((x : ℕ) → (pool.orders x).active ≡ false → g x ≡ pool.orders x)
    → IsPool (record pool { orders = g }) live free
IsPool-idle pool live free g v same =
    IsPool-frame pool live free g v
      (All-map (λ x e. same x e) free (idle_of_cleared pool.orders free v.cleared))
      (λ x h. same x (ap (λ (o : Order). o.active) (v.untouched x h)))

-- An active order is no idle slot, and an order of one side none of the other.
pub ne_of_active : (h : Slots) (x y : ℕ) → (h x).active ≡ false → (h y).active ≡ true → x ≢ y
ne_of_active h x y off on e =
    let clash : true ≡ false = sym on ∙ ap (λ z. (h z).active) (sym e) ∙ off in cc

pub ne_of_side :
    (h : Slots) (side : Side) (x y : ℕ) → (h x).side ≡ other side → (h y).side ≡ side → x ≢ y
ne_of_side h side x y far near e = other-ne side (sym far ∙ ap (λ z. (h z).side) e ∙ near)
