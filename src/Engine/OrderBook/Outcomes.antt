-- ===== src/Engine/OrderBook/Outcomes.antt =====
-- A round of the match loop is a step of the specification.
use sixchange.Engine.OrderBook.Settling.{reduced}
use sixchange.Engine.Order.{Order}
use sixchange.Base.{
  eq_or_ne, All-tabulate, All-in, ◌⊎◌, In, ne→not_==, eq→==, first, ◌≢◌, arith, ◌≤◌, subst, ℕ, ◌<◌,
  ◌≡◌, sym, ap, ◌∙◌, inl, inr, true, none, some, List, [], ◌∷◌, ok,
}
use sixchange.Core.Enums.{Side}
use sixchange.Engine.PriceLevel
use sixchange.Engine.PriceLevel.Queue.{unlinked}
use sixchange.Engine.MatchExecution.{MatchExecution, MatchSink}
use sixchange.Engine.OrderBook.State.{OrderBook, half}
use sixchange.Engine.OrderBook.Contents.{Contents}
use sixchange.Engine.OrderBook.Invariant.{IsOpen}
use sixchange.Engine.OrderBook.Whole.{IsBook}
use sixchange.Engine.OrderBook.Trading.{traded}
use sixchange.Engine.OrderBook.PriceTime.{
  fill_part, fill_full, fill, Filled, ladder, orders_at, fill_done,
}
use sixchange.Engine.OrderBook.Rounds.{IsAggressor}
use sixchange.Engine.OrderBook.Steps
use sixchange.Engine.OrderBook.Matching.{round_at, crosses, execution, round}
use mathlib.Core.Path.{ap₂}
use sixchange.Engine.OrderBook.Loop.{after_trade, crossing, meets_at, execution-of}

module _ {S : Type 0} (emit : MatchSink S) where
  -- The outcome of a loop that a first round leads into.
  module _ (side : Side) (b : OrderBook) (near far : Contents) (live free : List ℕ) (pending : ℕ)
      (k : IsBook side b near far live free pending) (opened : IsOpen near b.orders.orders)
      (a price : ℕ) (g : IsAggressor b near far a price) (s : S) (i r : ℕ) (rest : List ℕ)
      (front : near i ≡ r ∷ rest) (best : (half side b).best ≡ some i)
      (meets : crosses side price (some i) ≡ true)
      (left : 0 < (b.orders.orders a).remaining_quantity) where
    abbrev q : ℕ
    q = traded b a r

    abbrev ua : Order
    ua = unlinked (b.orders.orders a)

    abbrev ur : Order
    ur = unlinked (b.orders.orders r)

    abbrev pub event : MatchExecution
    event = execution (reduced ua q) (reduced ur q) q

    abbrev pub b1 : OrderBook
    b1 = Steps.b1 side b near far live free pending k opened a price g i r rest front best meets

    abbrev pub b2 : OrderBook
    b2 = Steps.b2 side b near far live free pending k opened a price g i r rest front best meets

    abbrev pub near2 : Contents
    near2 =
        Steps.near2 side b near far live free pending k opened a price g i r rest front best meets

    abbrev tail : List ℕ
    tail = Steps.tail side b near far live free pending k opened a price g i r rest front best meets

    a1 : b1.orders.orders a ≡ reduced (b.orders.orders a) q
    a1 = Steps.a1 side b near far live free pending k opened a price g i r rest front best meets

    r1 : b1.orders.orders r ≡ reduced (b.orders.orders r) q
    r1 = Steps.r1 side b near far live free pending k opened a price g i r rest front best meets

    a2 : b2.orders.orders a ≡ reduced (b.orders.orders a) q
    a2 = Steps.a2 side b near far live free pending k opened a price g i r rest front best meets

    event_is : execution (b1.orders.orders a) (b1.orders.orders r) q ≡ event
    event_is = execution-of _ _ (b.orders.orders a) (b.orders.orders r) q a1 r1

    pub go : round emit side b a s ≡ some (ok (after_trade emit side b a s i r))
    unfolding round PriceLevel.front
    go =
        subst (λ o. round_at emit side b a s o ≡ some (ok (after_trade emit side b a s i r)))
          (sym best)
          (meets_at emit side b a s i r left
            (subst (λ n. crosses side n (some i) ≡ true) (sym g.priced) meets)
            ((k.near_half.queues i).head ∙ ap (λ xs. first xs none) front))

    queue : crossing side b near price ≡ ur ∷ orders_at b.orders.orders tail
    queue =
        Steps.queue side b near far live free pending k opened a price g i r rest front best meets

    queue1 : crossing side b1 near price ≡ reduced ur q ∷ orders_at b.orders.orders tail
    queue1 =
        ap (λ n. orders_at b1.orders.orders (ladder side n.price_level_count price near))
          (Steps.config1 side b near far live free pending k opened a price g i r rest front best
            meets)
        ∙ Steps.queue1 side b near far live free pending k opened a price g i r rest front best
            meets

    queue2 : crossing side b2 near2 price ≡ orders_at b.orders.orders tail
    queue2 =
        ap (λ n. orders_at b2.orders.orders (ladder side n.price_level_count price near2))
          (Steps.config2 side b near far live free pending k opened a price g i r rest front best
            meets)
        ∙ Steps.queue2 side b near far live free pending k opened a price g i r rest front best
            meets

    module _
        (le : (b.orders.orders r).remaining_quantity ≤ (b.orders.orders a).remaining_quantity) where
      q_full : (b.orders.orders r).remaining_quantity ≡ q
      q_full = omega arith

      pub after_full : after_trade emit side b a s i r ≡ (b2, emit event s)
      unfolding after_trade Steps.b1 Steps.b2
      after_full = rw (eq→== _ 0 r_empty) (ap (λ e. (b2, emit e s)) event_is)
        where
          r_empty : (b1.orders.orders r).remaining_quantity ≡ 0
          r_empty = let e = ap (λ (o : Order). o.remaining_quantity) r1 in omega (arith, e, q_full)

      with_first : ℕ → Order → List Order → Filled
      with_first n ag qu =
          let later = fill ag qu in
          record later { executions = execution (reduced ua n) (reduced ur n) n ∷ later.executions }

      pub fill_is : fill ua (crossing side b near price) ≡ (
          let f2 = fill (unlinked (b2.orders.orders a)) (crossing side b2 near2 price) in
          record f2 { executions = event ∷ f2.executions })
      unfolding with_first
      fill_is =
          ap (fill ua) queue
          ∙ fill_full ua ur (orders_at b.orders.orders tail) left le
          ∙ ap (λ n. with_first n (reduced ua n) (orders_at b.orders.orders tail)) q_full
          ∙ ap₂ (with_first q) (sym (ap unlinked a2)) (sym queue2)

    module _
        (lt : (b.orders.orders a).remaining_quantity < (b.orders.orders r).remaining_quantity) where
      q_part : (b.orders.orders a).remaining_quantity ≡ q
      q_part = omega arith

      pub a_empty : (b1.orders.orders a).remaining_quantity ≡ 0
      a_empty = let e = ap (λ (o : Order). o.remaining_quantity) a1 in omega (arith, e, q_part)

      pub after_part : after_trade emit side b a s i r ≡ (b1, emit event s)
      unfolding after_trade Steps.b1
      after_part = rw (ne→not_== _ 0 r_open) (ap (λ e. (b1, emit e s)) event_is)
        where
          r_open : (b1.orders.orders r).remaining_quantity ≢ 0
          r_open = let e = ap (λ (o : Order). o.remaining_quantity) r1 in omega (arith, e, lt)

      pub fill_part_is : fill ua (crossing side b near price) ≡ (
          let f2 = fill (unlinked (b1.orders.orders a)) (crossing side b1 near price) in
          record f2 { executions = event ∷ f2.executions })
      fill_part_is =
          ap (fill ua) queue
          ∙ fill_part ua ur (orders_at b.orders.orders tail) left lt
          ∙ ap (λ n. one n) q_part
          ∙ ap₂ (λ ag qu. record { executions = event ∷ []; aggressor = ag; rest = qu })
              (sym (ap unlinked a1)) (sym queue1)
          ∙ ap (λ (f : Filled). record f { executions = event ∷ f.executions })
              (sym
                (fill_done (unlinked (b1.orders.orders a)) (crossing side b1 near price) a_empty))
        where
          one : ℕ → Filled
          one n = record {
            executions = execution (reduced ua n) (reduced ur n) n ∷ [];
            aggressor = reduced ua n;
            rest = reduced ur n ∷ orders_at b.orders.orders tail;
          }

      pub opened1 : IsOpen near b1.orders.orders
      opened1 j =
          All-tabulate (λ x. 0 < (b1.orders.orders x).remaining_quantity) (near j)
            (λ x m. at x m (eq_or_ne x r))
        where
          at :
              (x : ℕ)
              → In x (near j)
              → (x ≡ r) ⊎ (x ≢ r)
              → 0 < (b1.orders.orders x).remaining_quantity
          at x m (inl e) =
              let q1 = ap (λ (o : Order). o.remaining_quantity) r1 in
              subst (λ y. 0 < (b1.orders.orders y).remaining_quantity) (sym e)
                (omega (arith, q1, lt))
          at x m (inr ne) =
              let same =
                ap (λ (o : Order). o.remaining_quantity)
                  (Steps.other1 side b near far live free pending k opened a price g i r rest front
                    best meets x
                    (Steps.ne_a side b near far live free pending k opened a price g i r rest front
                      best meets j x m)
                    ne) in
              let some_left =
                All-in (λ y. 0 < (b.orders.orders y).remaining_quantity) (near j) x (opened j) m in
              omega (arith, same, some_left)
