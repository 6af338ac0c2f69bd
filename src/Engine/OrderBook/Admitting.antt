-- ===== src/Engine/OrderBook/Admitting.antt =====
-- What `admit` does to the book.
use sixchange.Base.{
  not_==→ne, ℕ, ◌+◌, ◌<◌, ◌≡◌, ◌≢◌, ◌⊎◌, refl, sym, ap, ◌∙◌, inl, inr, true, none, some, List, ◌∷◌,
  arith, All, All-map, Absent, In, eq_or_ne, Bool-cases, ◌==◌, leb, not_leb→lt, value, unexpected,
}
use sixchange.Core.Types.{OrderId}
use sixchange.Core.Enums.{Side}
use sixchange.Core.Commands.{NewOrderCommand}
use sixchange.Engine.Order.{Order, OrderPtr, Slots, empty_order, write, write_self, write-ne}
use sixchange.Engine.PriceLevel.Queue.{unlinked}
use sixchange.Engine.OrderPool.{OrderPool, allocate, take_slot}
use sixchange.Engine.FixedOrderMap.{FixedOrderMap, InsertResult, inserted, duplicate_key, full}
use sixchange.Engine.OrderPool.Usage.{IsPool, IsPool-frame}
use sixchange.Engine.OrderPool.Allocation.{Allocated, allocate-Allocated}
use sixchange.Engine.OrderBook.State.{OrderBook, half}
use sixchange.Engine.OrderBook.Contents.{Contents}
use sixchange.Engine.OrderBook.Invariant.{IsMember, IsHalf-agree, Foreign}
use sixchange.Engine.OrderBook.Whole.{IsBook, other, ne_of_active}
use sixchange.Engine.OrderBook.Withdrawal.{withdrawn, Withdrawn, withdrawn-Withdrawn}
use sixchange.Engine.OrderBook.Admission.{AdmitResult, describe, conclude, register, admit}

-- The outcome of a success: one more admitted order, on no side, as the command describes it.
pub record Entered (side : Side) (b : OrderBook) (near far : Contents) (pending : ℕ)
    (c : NewOrderCommand) (order_id p : ℕ) (b' : OrderBook) : Type 0 where
  pub live : List ℕ
  pub free : List ℕ
  pub book : IsBook side b' near far live free (pending + 1)
  pub inside : c.price < b'.config.price_level_count
  pub some_quantity : 0 < c.quantity
  pub off_near : Foreign p near
  pub off_far : Foreign p far
  pub content : b'.orders.orders p ≡ describe c order_id empty_order
  pub frame : (x : ℕ) → x ≢ p → b'.orders.orders x ≡ b.orders.orders x

-- The outcome of a failure: the same orders are admitted, and they are unchanged.
pub record Refused (side : Side) (b : OrderBook) (near far : Contents) (pending : ℕ)
    (b' : OrderBook) : Type 0 where
  pub live : List ℕ
  pub free : List ℕ
  pub book : IsBook side b' near far live free pending
  pub frame : (x : ℕ) → (b.orders.orders x).active ≡ true → b'.orders.orders x ≡ b.orders.orders x

abbrev pub Admitted :
    (side : Side) (b : OrderBook) (near far : Contents) (pending : ℕ) (c : NewOrderCommand)
    (order_id : ℕ)
    → OrderBook × AdmitResult
    → Type 0
Admitted side b near far pending c order_id (b', value p) =
    Entered side b near far pending c order_id p b'
Admitted side b near far pending c order_id (b', unexpected reason) =
    Refused side b near far pending b'

capacity-take_slot :
    (pool : OrderPool) (q : OrderPtr) → (take_slot pool q).1.capacity ≡ pool.capacity
unfolding take_slot
capacity-take_slot pool none = elim (Bool-cases (pool.size == pool.capacity)) [
  | inl all ↦ rw all
  | inr some_left ↦ rw some_left
]
capacity-take_slot pool (some p) = refl

module _ (side : Side) (b : OrderBook) (near far : Contents) (live free : List ℕ) (pending : ℕ)
    (k : IsBook side b near far live free pending) (c : NewOrderCommand) (order_id : ℕ) where
  unchanged : Refused side b near far pending b
  unchanged = record { live = live; free = free; book = k; frame = λ x on. refl }

  module _ (inside : c.price < b.config.price_level_count) (some_quantity : 0 < c.quantity) (p : ℕ)
      (pool : OrderPool) (free' : List ℕ) (v : IsPool pool (p ∷ live) free')
      (capacity : pool.capacity ≡ b.orders.capacity)
      (was_free : unlinked (b.orders.orders p) ≡ empty_order)
      (cleared : pool.orders p ≡ empty_order)
      (same : (x : ℕ) → x ≢ p → pool.orders x ≡ b.orders.orders x) where
    g : Slots
    g = write pool.orders p (describe c order_id (pool.orders p))

    entering : FixedOrderMap OrderPtr → OrderBook
    entering m = record b { orders = record pool { orders = g }; orders_by_id = m }

    g-ne : (x : ℕ) → x ≢ p → g x ≡ b.orders.orders x
    unfolding g
    g-ne x ne = write-ne pool.orders p x _ ne ∙ same x ne

    new : (x : ℕ) → (b.orders.orders x).active ≡ true → x ≢ p
    new x on e = ne_of_active b.orders.orders p x (ap (λ (o : Order). o.active) was_free) on (sym e)

    off :
        (σ : Side) (j : ℕ) (xs : List ℕ)
        → All (λ x. IsMember σ j (b.orders.orders x)) xs
        → Absent p xs
    off σ j xs all = All-map (λ x (n : IsMember σ j (b.orders.orders x)). new x n.is_active) xs all

    entered :
        (m : FixedOrderMap OrderPtr) → Entered side b near far pending c order_id p (entering m)
    unfolding entering g
    entered m = record {
      live = p ∷ live;
      free = free';
      book = record {
        pool =
            IsPool-frame pool (p ∷ live) free' g v
              (All-map (λ x ne. write-ne pool.orders p x _ ne) free' v.apart.0)
              (λ x out.
                write-ne pool.orders p x _ (λ e. absurd (omega (arith, e, out, v.live_below.0))));
        near_half =
            IsHalf-agree side b.config.price_level_count (half side b) near b.orders.orders g
              (λ j. All-map g-ne (near j) (off side j (near j) (k.near_half.members j)))
              k.near_half;
        far_half =
            IsHalf-agree (other side) b.config.price_level_count (half (other side) b) far
              b.orders.orders g
              (λ j. All-map g-ne (far j) (off (other side) j (far j) (k.far_half.members j)))
              k.far_half;
        listed = λ x on. in_use x on (eq_or_ne x p);
        accounted = omega (arith, k.accounted);
        small = omega (arith, capacity, k.small);
      };
      inside = inside;
      some_quantity = some_quantity;
      off_near = λ j. off side j (near j) (k.near_half.members j);
      off_far = λ j. off (other side) j (far j) (k.far_half.members j);
      content = write_self pool.orders p _ ∙ ap (describe c order_id) cleared;
      frame = g-ne;
    }
      where
        in_use : (x : ℕ) → (g x).active ≡ true → (x ≡ p) ⊎ (x ≢ p) → In x (p ∷ live)
        in_use x on (inl e) = inl e
        in_use x on (inr ne) =
            inr (k.listed x (sym (ap (λ (o : Order). o.active) (g-ne x ne)) ∙ on))

    given_back :
        (m : FixedOrderMap OrderPtr) → Refused side b near far pending (withdrawn (entering m) p m)
    unfolding describe entering g
    given_back m = record {
      live = back.live;
      free = back.free;
      book = back.book;
      frame = λ x on. back.frame x (new x on) ∙ e.frame x (new x on);
    }
      where
        e : Entered side b near far pending c order_id p (entering m)
        e = entered m

        back : Withdrawn side (entering m) near far pending p (withdrawn (entering m) p m)
        back =
            withdrawn-Withdrawn side (entering m) near far e.live e.free pending e.book p
              (ap (λ (o : Order). o.active) e.content) e.off_near e.off_far m

    concluded :
        (m : FixedOrderMap OrderPtr) (result : InsertResult)
        → Admitted side b near far pending c order_id (conclude (entering m) p result)
    unfolding conclude entering
    concluded m inserted = entered m
    concluded m duplicate_key = given_back m
    concluded m full = given_back m

  registered :
      c.price < b.config.price_level_count
      → 0 < c.quantity
      → (r : OrderPtr × OrderPool) → r.1.capacity ≡ b.orders.capacity
      → Allocated b.orders live free r
      → Admitted side b near far pending c order_id
          (register (record b { orders = r.1 }) c order_id r.0)
  unfolding register entering g
  registered inside nonzero (none, pool) capacity (all_used, e) = rw e unchanged
  registered inside nonzero (some p, pool) capacity (free', v, room, was_free, cleared, same) =
      concluded inside nonzero p pool free' v capacity was_free cleared same _ _

-- `admit` keeps the book well formed: on success with one more admitted order, as the command
-- describes it, at a valid price, with some quantity and on neither side yet; on failure with the
-- same orders, unchanged.
pub admit-Admitted :
    (side : Side) (b : OrderBook) (near far : Contents) (live free : List ℕ) (pending : ℕ)
    (c : NewOrderCommand) (order_id : OrderId)
    → IsBook side b near far live free pending
    → Admitted side b near far pending c order_id (admit b c order_id)
unfolding admit allocate
admit-Admitted side b near far live free pending c order_id k =
    elim (Bool-cases (c.symbol_id == b.symbol_id)) [
      | inr unknown ↦ rw unknown (unchanged side b near far live free pending k c order_id)
      | inl known ↦ elim (Bool-cases (c.quantity == 0)) [
        | inl empty ↦ rw (known, empty) (unchanged side b near far live free pending k c order_id)
        | inr nonzero ↦ elim (Bool-cases (leb b.config.price_level_count c.price)) [
          | inl high ↦
              rw (known, nonzero, high) (unchanged side b near far live free pending k c order_id)
          | inr low ↦
              rw (known, nonzero, low)
                (registered side b near far live free pending k c order_id (not_leb→lt _ _ low)
                  (omega (arith, not_==→ne c.quantity 0 nonzero)) (allocate b.orders)
                  (capacity-take_slot b.orders b.orders.free_head)
                  (allocate-Allocated b.orders live free k.pool))
        ]
      ]
    ]
