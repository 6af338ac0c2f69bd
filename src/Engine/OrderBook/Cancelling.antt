-- ===== src/Engine/OrderBook/Cancelling.antt =====
-- What `cancel` does to the book, given what the lookup map answers.

use sixchange.Engine.OrderBook.Removal.{taken-Taken, Taken, taken}
use sixchange.Engine.Order.{Order}
use sixchange.Engine.OrderBook.Unresting.{unrest_half-Unrested, Unrested}
use sixchange.Engine.OrderBook.Invariant.{IsMember}
use sixchange.Core.Commands.{CancelOrderCommand}
use sixchange.Engine.OrderBook.Whole.{near_small, near_small, IsBook}
use sixchange.Engine.OrderBook.Contents.{Contents}
use sixchange.Base.{
  inr, inl, Bool-cases, All, All-right, ◌∙◌, ◌&&◌, ◌&&◌, All, ◌==◌, arith, All-right, true, some,
  ◌∷◌, ◌++◌, List, if◌then◌else◌, ℕ, ◌≡◌, none, not, value, unexpected,
}
use mathlib.Core.Path.{ap, subst, ap₂}
use sixchange.Core.Enums.{Side, RejectReason}
use sixchange.Engine.OrderPool
use sixchange.Engine.FixedOrderMap
use sixchange.Engine.FixedOrderMap.{FixedOrderMap}
use sixchange.Engine.OrderBook.State.{OrderBook, half, set_half}
use sixchange.Engine.OrderBook.Cancellation.{
  cancel_found, cancel, CancelResult, report, take_out, unrest_half,
}

-- `take_out` with the order's side and price written out.
take_out_at : Side → (price : ℕ) → OrderBook → (order_id order : ℕ) → OrderBook × CancelResult
unfolding unrest_half report
take_out_at side price b order_id order =
    let r = unrest_half side b.config.price_level_count (half side b) price order b.orders.orders in
    let (by_id, erased) = FixedOrderMap.erase none b.orders_by_id order_id in
    let b' =
      set_half side r.0
        (record b { orders = record (b.orders) { orders = r.1 }; orders_by_id = by_id }) in
    if not erased
    then (b', unexpected RejectReason.matching_engine_error)
    else (record b' { orders = OrderPool.release b'.orders order }, value (report (r.1 order)))

take_out-take_out_at :
    (side : Side) (price : ℕ) (b : OrderBook) (order_id order : ℕ)
    → (b.orders.orders order).side ≡ side
    → (b.orders.orders order).price ≡ price
    → take_out b order_id order ≡ take_out_at side price b order_id order
unfolding take_out take_out_at
take_out-take_out_at side price b order_id order on_side at_price =
    ap₂ (λ σ p. take_out_at σ p b order_id order) on_side at_price

-- What the lookup map answers for an order that rests at the level `i` of `side`.
pub record IsFound (side : Side) (b : OrderBook) (near : Contents) (order_id i : ℕ) (xs : List ℕ)
    (p : ℕ) (ys : List ℕ) : Type 0 where
  pub here : near i ≡ xs ++ p ∷ ys
  pub found : FixedOrderMap.find b.orders_by_id order_id ≡ some (some p)
  pub erased : (FixedOrderMap.erase none b.orders_by_id order_id).1 ≡ true

module _ (side : Side) (b : OrderBook) (near far : Contents) (live free : List ℕ) (pending : ℕ)
    (k : IsBook side b near far live free pending) (c : CancelOrderCommand) (i : ℕ) (xs : List ℕ)
    (p : ℕ) (ys : List ℕ) (f : IsFound side b near c.order_id i xs p ys) where
  abbrev pub without : OrderBook
  without = taken side b i p (FixedOrderMap.erase none b.orders_by_id c.order_id).0

  member : IsMember side i (b.orders.orders p)
  member =
      (All-right (λ x. IsMember side i (b.orders.orders x)) xs (p ∷ ys)
        (subst (All (λ x. IsMember side i (b.orders.orders x))) f.here (k.near_half.members i))).0

  left :
      Unrested side b.config.price_level_count near i xs p ys b.orders.orders
        (unrest_half side b.config.price_level_count (half side b) i p b.orders.orders)
  left =
      unrest_half-Unrested side b.config.price_level_count (half side b) near b.orders.orders
        k.near_half i xs p ys f.here (omega (arith, near_small k))

  took : take_out b c.order_id p ≡ (without, value (report (b.orders.orders p)))
  unfolding take_out_at taken report
  took =
      take_out-take_out_at side i b c.order_id p member.on_side member.at_price
      ∙ rw f.erased (ap (λ (o : Order). (without, value (report o))) (left.same p))

-- `cancel` of an order that rests in a well formed book and that the lookup map finds and erases:
-- its owner takes it out, wherever it stands in its queue, and gets a report with what was left of
-- it; the book stays well formed with the other orders in their places. Another client, and the
-- symbol of another book, are refused and change nothing.
pub cancel-Taken :
    (side : Side) (b : OrderBook) (near far : Contents) (live free : List ℕ) (pending : ℕ)
    (k : IsBook side b near far live free pending) (c : CancelOrderCommand) (i : ℕ) (xs : List ℕ)
    (p : ℕ) (ys : List ℕ) (f : IsFound side b near c.order_id i xs p ys)
    → Taken side b near far free pending i p
        (xs ++ ys)
        (without side b near far live free pending k c i xs p ys f)
      × (cancel b c ≡ (
          let o = b.orders.orders p in
          if c.symbol_id == b.symbol_id
          then (if (o.client_id == c.client_id) && (o.client_order_id == c.client_order_id)
              then (without side b near far live free pending k c i xs p ys f, value (report o))
              else (b, unexpected RejectReason.not_order_owner))
          else (b, unexpected RejectReason.unknown_symbol)))
unfolding cancel cancel_found
cancel-Taken side b near far live free pending k c i xs p ys f = (
  taken-Taken side b near far live free pending k i xs p ys f.here _,
  elim (Bool-cases (c.symbol_id == b.symbol_id)) [
    | inl known ↦
        rw (known, f.found)
          (elim (Bool-cases ((b.orders.orders p).client_id == c.client_id)) [
            | inl mine ↦
                elim (Bool-cases ((b.orders.orders p).client_order_id == c.client_order_id)) [
                  | inl same ↦
                      rw (mine, same) (took side b near far live free pending k c i xs p ys f)
                  | inr differs ↦ rw (mine, differs)
                ]
            | inr theirs ↦ rw theirs
          ])
    | inr unknown ↦ rw unknown
  ],
)
