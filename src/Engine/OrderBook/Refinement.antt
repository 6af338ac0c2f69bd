-- ===== src/Engine/OrderBook/Refinement.antt =====
-- The match loop implements the specification, and the number of orders on the resting side is
-- enough fuel for it.

use sixchange.Base.{
  ℕ, zero, suc, ◌<◌, ◌≤◌, ◌≡◌, ◌⊎◌, refl, sym, ap, subst, ◌∙◌, inl, inr, true, false, Option, none,
  some, List, [], ◌∷◌, arith, Run, Returns, Returns-map, eq_or_ne, Bool-cases, leb, leb→le,
  not_leb→lt,
}
use sixchange.Core.Enums.{Side, buy, sell}
use sixchange.Engine.PriceLevel.Queue.{unlinked}
use sixchange.Engine.MatchExecution.{MatchSink}
use sixchange.Engine.OrderBook.State.{OrderBook, half}
use sixchange.Engine.OrderBook.Contents.{Contents, total, IsBest}
use sixchange.Engine.OrderBook.Invariant.{IsOpen}
use sixchange.Engine.OrderBook.Whole.{other, IsBook}
use sixchange.Engine.OrderBook.PriceTime.{orders_at, ladder, fill_done, fill}
use sixchange.Engine.OrderBook.Rounds.{IsAggressor, Matched}
use sixchange.Engine.OrderBook.Ladder.{ladder-nil}
use sixchange.Engine.OrderBook.Steps
use sixchange.Engine.OrderBook.Loop.{
  crossing, loop_go, loop_stop, idle_at, apart_at, Matched-cons, Matched-nil,
}
use sixchange.Engine.OrderBook.Outcomes
use sixchange.Engine.OrderBook.Matching.{
  match_on, match, round, crosses, match_loop, match_buy, match_sell,
}

module _ {S : Type 0} (emit : MatchSink S) (side : Side) (far : Contents)
    (pending a price : ℕ) where
  -- The fuel suffices if there is more of it than resting orders, or the aggressor is filled.
  abbrev Enough : ℕ → OrderBook → Contents → Type 0
  Enough fuel b near =
      (total b.config.price_level_count near < fuel)
      ⊎ (((b.orders.orders a).remaining_quantity ≡ 0) × (0 < fuel))

  abbrev Implements : OrderBook → Contents → S → Run (OrderBook × S) → Type 0
  Implements b near s = Returns (
      Matched emit side b near far pending a price s
        (fill (unlinked (b.orders.orders a)) (crossing side b near price)))

  -- The rest of the loop does what the specification says, whatever book it starts from.
  abbrev Later : ℕ → Type 0
  Later fuel =
      (b : OrderBook) (near : Contents) (live free : List ℕ) (s : S)
      → IsBook side b near far live free pending
      → IsOpen near b.orders.orders
      → IsAggressor b near far a price
      → Enough fuel b near
      → Implements b near s (match_loop emit fuel side b a s)

  module _ (b : OrderBook) (near : Contents) (live free : List ℕ) (s : S)
      (k : IsBook side b near far live free pending) (opened : IsOpen near b.orders.orders)
      (g : IsAggressor b near far a price) (fuel : ℕ) where
    at_end :
        round emit side b a s ≡ none
        → fill (unlinked (b.orders.orders a)) (crossing side b near price) ≡ record {
          executions = [];
          aggressor = unlinked (b.orders.orders a);
          rest = crossing side b near price;
        }
        → Implements b near s (match_loop emit (suc fuel) side b a s)
    at_end stop done =
        rw (loop_stop emit side b a s fuel stop)
          (Matched-nil emit side b near far live free pending a price s _ k opened g done)

    at_idle :
        (b.orders.orders a).remaining_quantity ≡ 0
        → Implements b near s (match_loop emit (suc fuel) side b a s)
    unfolding round
    at_idle e = at_end (idle_at emit side b a s _ e) (fill_done _ _ e)

    at_apart :
        crosses side price (half side b).best ≡ false
        → Implements b near s (match_loop emit (suc fuel) side b a s)
    unfolding round fill
    at_apart off =
        at_end
          (apart_at emit side b a s _
            (subst (λ n. crosses side n (half side b).best ≡ false) (sym g.priced) off))
          (ap (λ xs. fill (unlinked (b.orders.orders a)) (orders_at b.orders.orders xs)) empty
            ∙ sym (
                ap
                  (λ xs. record {
                    executions = [];
                    aggressor = unlinked (b.orders.orders a);
                    rest = orders_at b.orders.orders xs;
                  })
                  empty))
      where
        empty : ladder side b.config.price_level_count price near ≡ []
        empty = ladder-nil side b.config.price_level_count price _ near k.near_half.best off

    module _ (later : Later fuel) (enough : Enough (suc fuel) b near) (i r : ℕ) (rest : List ℕ)
        (front : near i ≡ r ∷ rest) (best : (half side b).best ≡ some i)
        (meets : crosses side price (some i) ≡ true)
        (left : 0 < (b.orders.orders a).remaining_quantity) where
      at_full :
          (b.orders.orders r).remaining_quantity ≤ (b.orders.orders a).remaining_quantity
          → Implements b near s (match_loop emit (suc fuel) side b a s)
      at_full le =
          subst (Implements b near s)
            (sym (
              loop_go emit side b a s fuel _ (
                Outcomes.go emit side b near far live free pending k opened a price g s i r rest
                  front best meets left)
              ∙ ap (λ next. match_loop emit fuel side next.0 a next.1)
                  (Outcomes.after_full emit side b near far live free pending k opened a price g s i
                    r rest front best meets left le)))
            (Returns-map _
              (λ res m.
                Matched-cons emit
                  (Outcomes.event emit side b near far live free pending k opened a price g s i r
                    rest front best meets left)
                  side b near far b2 near2 pending a price s _ _ res
                  (Steps.alone2 side b near far live free pending k opened a price g i r rest front
                    best meets)
                  (Outcomes.fill_is emit side b near far live free pending k opened a price g s i r
                    rest front best meets left le)
                  m)
              (later b2 near2
                (Steps.live2 side b near far live free pending k opened a price g i r rest front
                  best meets)
                (r ∷ free)
                (emit
                  (Outcomes.event emit side b near far live free pending k opened a price g s i r
                    rest front best meets left)
                  s)
                (Steps.book2 side b near far live free pending k opened a price g i r rest front
                  best meets)
                (Steps.opened2 side b near far live free pending k opened a price g i r rest front
                  best meets)
                (Steps.aggressor2 side b near far live free pending k opened a price g i r rest
                  front best meets)
                (fewer enough)))
        where
          b2 : OrderBook
          b2 =
              Steps.b2 side b near far live free pending k opened a price g i r rest front best
                meets

          near2 : Contents
          near2 =
              Steps.near2 side b near far live free pending k opened a price g i r rest front best
                meets

          fewer : Enough (suc fuel) b near → Enough fuel b2 near2
          fewer (inl lt) = inl (
              subst (λ c. total c.price_level_count near2 < fuel)
                (sym (
                  Steps.config2 side b near far live free pending k opened a price g i r rest front
                    best meets))
                (omega (
                  arith,
                  Steps.fewer side b near far live free pending k opened a price g i r rest front
                      best meets,
                  lt,
                )))
          fewer (inr (z, some_fuel)) = absurd (omega (arith, z, left))

      at_part :
          (b.orders.orders a).remaining_quantity < (b.orders.orders r).remaining_quantity
          → Implements b near s (match_loop emit (suc fuel) side b a s)
      at_part lt =
          subst (Implements b near s)
            (sym (
              loop_go emit side b a s fuel _ (
                Outcomes.go emit side b near far live free pending k opened a price g s i r rest
                  front best meets left)
              ∙ ap (λ next. match_loop emit fuel side next.0 a next.1)
                  (Outcomes.after_part emit side b near far live free pending k opened a price g s i
                    r rest front best meets left lt)))
            (Returns-map _
              (λ res m.
                Matched-cons emit
                  (Outcomes.event emit side b near far live free pending k opened a price g s i r
                    rest front best meets left)
                  side b near far b1 near pending a price s _ _ res
                  (Steps.alone1 side b near far live free pending k opened a price g i r rest front
                    best meets)
                  (Outcomes.fill_part_is emit side b near far live free pending k opened a price g s
                    i r rest front best meets left lt)
                  m)
              (later b1 near live free
                (emit
                  (Outcomes.event emit side b near far live free pending k opened a price g s i r
                    rest front best meets left)
                  s)
                (Steps.book1 side b near far live free pending k opened a price g i r rest front
                  best meets)
                (Outcomes.opened1 emit side b near far live free pending k opened a price g s i r
                  rest front best meets left lt)
                (Steps.aggressor1 side b near far live free pending k opened a price g i r rest
                  front best meets)
                (enough1 enough)))
        where
          b1 : OrderBook
          b1 =
              Steps.b1 side b near far live free pending k opened a price g i r rest front best
                meets

          enough1 : Enough (suc fuel) b near → Enough fuel b1 near
          enough1 (inl more) = inr (
            Outcomes.a_empty emit side b near far live free pending k opened a price g s i r rest
                front best meets left lt,
            omega (
              arith,
              Steps.fewer side b near far live free pending k opened a price g i r rest front best
                  meets,
              more,
            ),
          )
          enough1 (inr (z, some_fuel)) = absurd (omega (arith, z, left))

    module _ (later : Later fuel) (enough : Enough (suc fuel) b near) where
      at_level :
          (i : ℕ) (xs : List ℕ)
          → near i ≡ xs
          → (half side b).best ≡ some i
          → crosses side price (some i) ≡ true
          → 0 < (b.orders.orders a).remaining_quantity
          → Implements b near s (match_loop emit (suc fuel) side b a s)
      at_level i [] level best meets left =
          elim ((subst (IsBest side near) best k.near_half.best).0 level) [ ]
      at_level i (r ∷ rest) level best meets left =
          elim (Bool-cases
            (leb (b.orders.orders r).remaining_quantity (b.orders.orders a).remaining_quantity)) [
              | inl le ↦ at_full later enough i r rest level best meets left (leb→le _ _ le)
              | inr lt ↦ at_part later enough i r rest level best meets left (not_leb→lt _ _ lt)
            ]

      at_best :
          (o : Option ℕ)
          → (half side b).best ≡ o
          → Implements b near s (match_loop emit (suc fuel) side b a s)
      unfolding crosses
      at_best none best = at_apart (rw best)
      at_best (some i) best = elim (eq_or_ne (b.orders.orders a).remaining_quantity 0) [
        | inl z ↦ at_idle z
        | inr nz ↦ elim (Bool-cases (crosses side price (some i))) [
          | inl meets ↦ at_level i (near i) refl best meets (omega (arith, nz))
          | inr off ↦ at_apart (rw best off)
        ]
      ]

  -- The match loop does what the specification says, with enough fuel.
  pub match_loop-Matched : (fuel : ℕ) → Later fuel
  match_loop-Matched zero b near live free s k opened g (inl lt) = absurd (omega (arith, lt))
  match_loop-Matched zero b near live free s k opened g (inr (z, lt)) = absurd (omega (arith, lt))
  match_loop-Matched (suc fuel) b near live free s k opened g enough =
      at_best b near live free s k opened g fuel (match_loop-Matched fuel) enough _ refl

match_on-Matched :
    {S : Type 0} (emit : MatchSink S) (side : Side) (b : OrderBook) (near far : Contents)
    (live free : List ℕ) (pending a price : ℕ) (s : S)
    → IsBook side b near far live free pending
    → IsOpen near b.orders.orders
    → IsAggressor b near far a price
    → Returns
        (Matched emit side b near far pending a price s
          (fill (unlinked (b.orders.orders a)) (crossing side b near price)))
        (match_on emit (other side) b a s)
unfolding match_buy match_sell match_on
match_on-Matched emit sell b near far live free pending a price s k opened g =
    match_loop-Matched emit sell far pending a price _ b near live free s k opened g
      (inl (omega (arith, k.near_half.active)))
match_on-Matched emit buy b near far live free pending a price s k opened g =
    match_loop-Matched emit buy far pending a price _ b near live free s k opened g
      (inl (omega (arith, k.near_half.active)))

-- An active order that is on neither side, matched against a well formed opposite side whose orders
-- all have something left, trades as price-time priority says: `match` returns, no order is missing
-- and the fuel is enough; the sink gets the specification's executions in order, the order and the
-- queue of crossing orders end as it says, the book stays well formed, and the other side's orders
-- and the prices that are not crossed stay.
pub match-Matched :
    {S : Type 0} (emit : MatchSink S) (side : Side) (b : OrderBook) (near far : Contents)
    (live free : List ℕ) (pending a price : ℕ) (s : S)
    → IsBook side b near far live free pending
    → IsOpen near b.orders.orders
    → IsAggressor b near far a price
    → (b.orders.orders a).side ≡ other side
    → Returns
        (Matched emit side b near far pending a price s
          (fill (unlinked (b.orders.orders a)) (crossing side b near price)))
        (match emit b a s)
unfolding match
match-Matched emit side b near far live free pending a price s k opened g opposite =
    subst
      (λ x.
        Returns
          (Matched emit side b near far pending a price s
            (fill (unlinked (b.orders.orders a)) (crossing side b near price)))
          (match_on emit x b a s))
      (sym opposite) (match_on-Matched emit side b near far live free pending a price s k opened g)
