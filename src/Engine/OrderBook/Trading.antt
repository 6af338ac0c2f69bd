-- ===== src/Engine/OrderBook/Trading.antt =====
-- One trade keeps the book well formed, and a filled order leaves it.
use sixchange.Base.{
  ℕ, ◌<◌, ◌^◌, ◌≡◌, ◌≢◌, sym, ap, subst, ◌∙◌, true, false, List, [], ◌∷◌, arith, All, Absent, min,
}
use sixchange.Core.Enums.{Side}
use sixchange.Engine.Order.{Order}
use sixchange.Engine.OrderBook.State.{OrderBook, half}
use sixchange.Engine.OrderBook.Contents.{Contents}
use sixchange.Engine.OrderBook.Invariant.{IsMember, IsHalf-agree, Foreign}
use sixchange.Engine.OrderBook.Whole.{
  IsBook, IsPool-idle, other, ne_of_active, ne_of_side, half-set_half, half-other-set_half,
}
use sixchange.Engine.OrderBook.Settling.{settle-ne, settle-unpriced, lowered-IsHalf}
use sixchange.Engine.OrderBook.Matching.{exchange}

-- The front order `r` of the level `i`, and an aggressor `a` that is on neither side.
pub record IsTrade (side : Side) (b : OrderBook) (near far : Contents) (a i r : ℕ) (rest : List ℕ)
    : Type 0 where
  pub front : near i ≡ r ∷ rest
  pub off_near : Foreign a near
  pub off_far : Foreign a far
  pub active : (b.orders.orders a).active ≡ true
  pub word : (b.orders.orders a).remaining_quantity < 2 ^ 64

abbrev pub traded : OrderBook → (a r : ℕ) → ℕ
traded b a r = min (b.orders.orders a).remaining_quantity (b.orders.orders r).remaining_quantity

module _ (side : Side) (b : OrderBook) (near far : Contents) (live free : List ℕ) (pending : ℕ)
    (k : IsBook side b near far live free pending) (a i r : ℕ) (rest : List ℕ)
    (t : IsTrade side b near far a i r rest) where
  pub front-IsMember : IsMember side i (b.orders.orders r)
  front-IsMember =
      (subst (All (λ x. IsMember side i (b.orders.orders x))) t.front (k.near_half.members i)).0

  pub a_ne_r : a ≢ r
  a_ne_r e = (subst (Absent a) t.front (t.off_near i)).0 (sym e)

  pub traded-ne :
      (x : ℕ) → x ≢ a → x ≢ r → (exchange side b a i r).orders.orders x ≡ b.orders.orders x
  unfolding exchange
  traded-ne x na nr =
      settle-ne b.orders.orders a r (traded b a r) a_ne_r (omega arith) (omega arith) t.word
        front-IsMember.in_word x na nr

  idle_ne :
      (x : ℕ)
      → (b.orders.orders x).active ≡ false
      → (exchange side b a i r).orders.orders x ≡ b.orders.orders x
  idle_ne x off =
      traded-ne x (ne_of_active b.orders.orders x a off t.active)
        (ne_of_active b.orders.orders x r off front-IsMember.is_active)

  pub far_ne :
      (j : ℕ) → All (λ x. (exchange side b a i r).orders.orders x ≡ b.orders.orders x) (far j)
  far_ne j = both (far j) (k.far_half.members j) (t.off_far j)
    where
      both :
          (xs : List ℕ)
          → All (λ x. IsMember (other side) j (b.orders.orders x)) xs
          → Absent a xs
          → All (λ x. (exchange side b a i r).orders.orders x ≡ b.orders.orders x) xs
      both [] m o = tt
      both (x ∷ xs) m o = (
        traded-ne x o.0 (ne_of_side b.orders.orders side x r m.0.on_side front-IsMember.on_side),
        both xs m.1 o.1,
      )

  -- A trade changes the two quantities and the level's total, and keeps the book well formed.
  pub exchange-IsBook : IsBook side (exchange side b a i r) near far live free pending
  unfolding exchange
  exchange-IsBook = record {
    pool = IsPool-idle b.orders live free _ k.pool idle_ne;
    near_half = rw half-set_half (
        lowered-IsHalf side b.config.price_level_count (half side b) near b.orders.orders
          k.near_half i r rest t.front a (traded b a r) t.off_near (omega arith) (omega arith)
          t.word);
    far_half = rw half-other-set_half (
        IsHalf-agree (other side) b.config.price_level_count (half (other side) b) far
          b.orders.orders _ far_ne k.far_half);
    listed = λ x on. k.listed x (
        sym (ap (λ (o : Order). o.active) (settle-unpriced b.orders.orders a r (traded b a r) x))
        ∙ on);
    accounted = k.accounted;
    small = k.small;
  }
