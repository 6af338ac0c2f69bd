-- ===== src/Engine/OrderBook/Loop.antt =====
-- The rounds of the match loop as equations, and the ends of a run of the loop.
use sixchange.Engine.OrderBook.Settling.{reduced}
use sixchange.Engine.Order.{Order}
use sixchange.Base.{
  lt→ltb, if◌then◌else◌, ℕ, suc, ◌<◌, ◌≡◌, refl, sym, ap, ◌∙◌, inl, inr, true, false, Option, none,
  some, List, [], ◌∷◌, ltb, ◌==◌, ok, Bool-cases,
}
use mathlib.Core.Path.{ap₂}
use sixchange.Core.Enums.{Side}
use sixchange.Engine.PriceLevel
use sixchange.Engine.PriceLevel.Queue.{unlinked}
use sixchange.Engine.MatchExecution.{MatchExecution, MatchSink}
use sixchange.Engine.OrderBook.State.{OrderBook, half}
use sixchange.Engine.OrderBook.Contents.{Contents}
use sixchange.Engine.OrderBook.Invariant.{IsOpen}
use sixchange.Engine.OrderBook.Whole.{IsBook}
use sixchange.Engine.OrderBook.Trading.{traded}
use sixchange.Engine.OrderBook.PriceTime.{Filled, deliver, ladder, orders_at}
use sixchange.Engine.OrderBook.Rounds.{
  IsAggressor, LeavesAlone, LeavesAlone-refl, LeavesAlone-trans, Matched,
}
use sixchange.Engine.OrderBook.Matching.{
  round_at, crosses, execution, exchange, retire, trade, round, match_loop,
}

abbrev pub crossing : Side → OrderBook → Contents → (price : ℕ) → List Order
crossing side b near price =
    orders_at b.orders.orders (ladder side b.config.price_level_count price near)

-- An execution does not show the links.
pub execution-of :
    (o1 o2 p1 p2 : Order) (q : ℕ)
    → o1 ≡ reduced p1 q
    → o2 ≡ reduced p2 q
    → execution o1 o2 q ≡ execution (reduced (unlinked p1) q) (reduced (unlinked p2) q) q
unfolding execution
execution-of o1 o2 p1 p2 q e1 e2 = ap₂ (λ x y. execution x y q) e1 e2

module _ {S : Type 0} (emit : MatchSink S) where
  pub Matched-cons :
      (e : MatchExecution) (side : Side) (b : OrderBook) (near far : Contents) (c : OrderBook)
      (mid : Contents) (pending a price : ℕ) (s : S) (f2 f : Filled) (r : OrderBook × S)
      → LeavesAlone side price b near far c mid
      → f ≡ record f2 { executions = e ∷ f2.executions }
      → Matched emit side c mid far pending a price (emit e s) f2 r
      → Matched emit side b near far pending a price s f r
  unfolding deliver
  Matched-cons e side b near far c mid pending a price s f2 f r alone eq m = record {
    near' = m.near';
    live' = m.live';
    free' = m.free';
    book = m.book;
    is_open = m.is_open;
    is_aggressor = m.is_aggressor;
    alone = LeavesAlone-trans side price b near far c mid r.0 m.near' alone m.alone;
    aggressor = m.aggressor ∙ sym (ap (λ (g : Filled). g.aggressor) eq);
    rest =
        ap (λ n. orders_at r.0.orders.orders (ladder side n.price_level_count price m.near'))
          (sym alone.config)
        ∙ m.rest
        ∙ sym (ap (λ (g : Filled). g.rest) eq);
    state = m.state ∙ ap (λ (g : Filled). deliver emit g.executions s) (sym eq);
  }

  -- A book with nothing left to do.
  pub Matched-nil :
      (side : Side) (b : OrderBook) (near far : Contents) (live free : List ℕ) (pending a price : ℕ)
      (s : S) (f : Filled)
      → IsBook side b near far live free pending
      → IsOpen near b.orders.orders
      → IsAggressor b near far a price
      → f ≡ record {
        executions = [];
        aggressor = unlinked (b.orders.orders a);
        rest = orders_at b.orders.orders (ladder side b.config.price_level_count price near);
      }
      → Matched emit side b near far pending a price s f (b, s)
  unfolding deliver
  Matched-nil side b near far live free pending a price s f k opened g eq = record {
    near' = near;
    live' = live;
    free' = free;
    book = k;
    is_open = opened;
    is_aggressor = g;
    alone = LeavesAlone-refl side price b near far;
    aggressor = sym (ap (λ (g : Filled). g.aggressor) eq);
    rest = sym (ap (λ (g : Filled). g.rest) eq);
    state = ap (λ (g : Filled). deliver emit g.executions s) (sym eq);
  }

  module _ (side : Side) (b : OrderBook) (a : ℕ) (s : S) where
    pub idle_at :
        (o : Option ℕ)
        → (b.orders.orders a).remaining_quantity ≡ 0
        → round_at emit side b a s o ≡ none
    unfolding round_at
    idle_at none e = refl
    idle_at (some i) e = rw e

    pub apart_at :
        (o : Option ℕ)
        → crosses side (b.orders.orders a).price o ≡ false
        → round_at emit side b a s o ≡ none
    unfolding round_at
    apart_at none e = refl
    apart_at (some i) e = elim (Bool-cases (ltb 0 (b.orders.orders a).remaining_quantity)) [
      | inl left ↦ rw (left, e)
      | inr done ↦ rw done
    ]

    -- What a round makes of the front order `r` of the level `i`.
    unfoldable pub after_trade : (i r : ℕ) → OrderBook × S
    after_trade i r =
        let b1 = exchange side b a i r in
        let s1 = emit (execution (b1.orders.orders a) (b1.orders.orders r) (traded b a r)) s in
        (if (b1.orders.orders r).remaining_quantity == 0 then retire side b1 i r else b1, s1)

    pub meets_at :
        (i r : ℕ)
        → 0 < (b.orders.orders a).remaining_quantity
        → crosses side (b.orders.orders a).price (some i) ≡ true
        → PriceLevel.front ((half side b).levels i) ≡ some r
        → round_at emit side b a s (some i) ≡ some (ok (after_trade i r))
    unfolding round_at trade after_trade
    meets_at i r left meets front =
        rw (lt→ltb 0 (b.orders.orders a).remaining_quantity left, meets, front)

    pub loop_stop :
        (fuel : ℕ)
        → round emit side b a s ≡ none
        → match_loop emit (suc fuel) side b a s ≡ ok (b, s)
    unfolding match_loop
    loop_stop fuel e = rw (e, match_loop)

    pub loop_go :
        (fuel : ℕ) (r : OrderBook × S)
        → round emit side b a s ≡ some (ok r)
        → match_loop emit (suc fuel) side b a s ≡ match_loop emit fuel side r.0 a r.1
    unfolding match_loop
    loop_go fuel r e = rw (e, match_loop)
