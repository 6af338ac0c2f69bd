-- ===== src/Engine/OrderBook/Withdrawal.antt =====
-- An admitted order that is on no side gives its slot back.
use sixchange.Base.{
  In-without, In, true, ℕ, ◌+◌, ◌<◌, ◌^◌, ◌≡◌, ◌≢◌, sym, ap, subst, ◌∙◌, ◌⊎◌, inl, inr, false, List,
  ◌∷◌, ◌++◌, arith, All-map, Split, In-split, eq_or_ne, length, length-append,
}
use sixchange.Core.Enums.{Side}
use sixchange.Engine.Order.{Order, OrderPtr}
use sixchange.Engine.OrderPool.{release}
use sixchange.Engine.FixedOrderMap.{FixedOrderMap}
use sixchange.Engine.OrderPool.Usage.{capacity-release, IsPool}
use sixchange.Engine.OrderPool.Allocation.{release-IsPool}
use sixchange.Engine.OrderBook.State.{OrderBook, half}
use sixchange.Engine.OrderBook.Contents.{Contents}
use sixchange.Engine.OrderBook.Invariant.{IsHalf-agree, Foreign}
use sixchange.Engine.OrderBook.Whole.{IsBook, other}

-- The book without the order, whatever the lookup map becomes.
abbrev pub withdrawn : OrderBook → ℕ → FixedOrderMap OrderPtr → OrderBook
withdrawn b a m = record b { orders = release b.orders a; orders_by_id = m }

-- The outcome: the book is well formed with one admitted order less, and no other slot changes.
pub record Withdrawn (side : Side) (b : OrderBook) (near far : Contents) (pending a : ℕ)
    (b' : OrderBook) : Type 0 where
  pub live : List ℕ
  pub free : List ℕ
  pub book : IsBook side b' near far live free pending
  pub frame : (x : ℕ) → x ≢ a → b'.orders.orders x ≡ b.orders.orders x

module _ (side : Side) (b : OrderBook) (near far : Contents) (live free : List ℕ) (pending : ℕ)
    (k : IsBook side b near far live free (pending + 1)) (a : ℕ)
    (active : (b.orders.orders a).active ≡ true) (off_near : Foreign a near)
    (off_far : Foreign a far) (m : FixedOrderMap OrderPtr) where
  stands : Split a live
  stands = In-split a live (k.listed a active)

  released :
      IsPool (release b.orders a) (stands.0 ++ stands.1) (a ∷ free)
      × ((x : ℕ) → x ≢ a → (release b.orders a).orders x ≡ b.orders.orders x)
  released =
      release-IsPool b.orders stands.0 a stands.1 free
        (subst (λ l. IsPool b.orders l free) stands.2 k.pool)

  idle : ((release b.orders a).orders a).active ≡ false
  idle = ap (λ (o : Order). o.active) released.0.cleared.0

  pub withdrawn-Withdrawn : Withdrawn side b near far pending a (withdrawn b a m)
  withdrawn-Withdrawn = record {
    live = stands.0 ++ stands.1;
    free = a ∷ free;
    book = record {
      pool = released.0;
      near_half =
          IsHalf-agree side b.config.price_level_count (half side b) near b.orders.orders _
            (λ j. All-map released.1 (near j) (off_near j)) k.near_half;
      far_half =
          IsHalf-agree (other side) b.config.price_level_count (half (other side) b) far
            b.orders.orders _ (λ j. All-map released.1 (far j) (off_far j)) k.far_half;
      listed = λ x on. still_listed x on (eq_or_ne x a);
      accounted = omega (
        arith,
        k.accounted,
        ap length stands.2,
        length-append stands.0 (a ∷ stands.1),
        length-append stands.0 stands.1,
      );
      small = subst (λ c. c < 2 ^ 64) (sym (capacity-release b.orders a)) k.small;
    };
    frame = released.1;
  }
    where
      still_listed :
          (x : ℕ)
          → ((release b.orders a).orders x).active ≡ true
          → (x ≡ a) ⊎ (x ≢ a)
          → In x (stands.0 ++ stands.1)
      still_listed x on (inl e) =
          let clash : false ≡ true =
            sym idle ∙ ap (λ z. ((release b.orders a).orders z).active) (sym e) ∙ on in
          cc
      still_listed x on (inr ne) = In-without x a stands.0 stands.1 ne (
          subst (In x) stands.2
            (k.listed x (sym (ap (λ (o : Order). o.active) (released.1 x ne)) ∙ on)))
