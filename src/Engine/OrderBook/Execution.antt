-- ===== src/Engine/OrderBook/Execution.antt =====
-- `OrderBook::execute`: the match, and then the rest of the order on the book or its slot free.
use sixchange.Engine.OrderBook.Steps.{open-moved}
use sixchange.Engine.OrderBook.Invariant.{IsMember, open-agree, IsOpen}
use sixchange.Engine.PriceLevel.Queue.{SameOrders, unlinked}
use sixchange.Base.{
  All-tabulate, All-append, All-map, ltb→lt, ◌>>=◌, none, ℕ, ◌+◌, ◌<◌, ◌≡◌, refl, sym, ap, subst,
  ◌∙◌, inl, inr, true, false, List, [], ◌∷◌, ◌++◌, arith, ltb, not_ltb→le, leb, ◌==◌, Bool-cases,
  if◌then◌else◌, Run, ok, fault, out_of_fuel, Returns,
}
use mathlib.Core.Path.{ap₂}
use sixchange.Core.Enums.{Side, buy, sell}
use sixchange.Engine.Order.{Slots, Order}
use sixchange.Engine.FixedOrderMap
use sixchange.Engine.MatchExecution.{MatchSink}
use sixchange.Engine.OrderBook.State.{OrderBook, rest}
use sixchange.Engine.OrderBook.Contents.{All-assign, Contents, assign}
use sixchange.Engine.OrderBook.Whole.{IsBook, other}
use sixchange.Engine.OrderBook.Settling.{reduced}
use sixchange.Engine.OrderBook.PriceTime.{Filled, fill, deliver}
use sixchange.Engine.OrderBook.Rounds.{IsAggressor, Matched}
use sixchange.Engine.OrderBook.Construction.{IsBook-flip}
use sixchange.Engine.OrderBook.Lifecycle.{rest-SameOrders, rest-IsBook}
use sixchange.Engine.OrderBook.Withdrawal.{withdrawn, Withdrawn, withdrawn-Withdrawn}
use sixchange.Engine.OrderBook.Loop.{crossing}
use sixchange.Engine.OrderBook.Refinement.{match-Matched}
use sixchange.Engine.OrderBook.Matching.{NewOrderOutcome, settle_aggressor, match, execute}

IsOpen-same : (h g : Slots) (v : Contents) → SameOrders h g → IsOpen v h → IsOpen v g
IsOpen-same h g v same opened j =
    open-moved h g (v j) (All-tabulate _ (v j) (λ x m. same x)) (opened j)

-- Filling changes the quantity only.
fill-side : (a : Order) (queue : List Order) → (fill a queue).aggressor.side ≡ a.side
unfolding fill
fill-side a [] = refl
fill-side a (r ∷ rs) = elim (Bool-cases (a.remaining_quantity == 0)) [
  | inl done ↦ rw done
  | inr left ↦ elim (Bool-cases (leb r.remaining_quantity a.remaining_quantity)) [
    | inl full ↦ rw (left, full) (fill-side (reduced a r.remaining_quantity) rs)
    | inr part ↦ rw (left, part)
  ]
]

pub IsBook-unflip :
    (side : Side) {b : OrderBook} {near far : Contents} {live free : List ℕ} {pending : ℕ}
    → IsBook (other side) b far near live free pending
    → IsBook side b near far live free pending
IsBook-unflip buy k = IsBook-flip sell k
IsBook-unflip sell k = IsBook-flip buy k

-- The report of what is left of an order.
abbrev pub outcome_of : Order → NewOrderOutcome
outcome_of o = record {
  remaining_quantity = o.remaining_quantity;
  rested = ltb 0 o.remaining_quantity;
}

-- The other side after the order: a rest of it stands behind the queue at its price.
abbrev pub joined_by : Order → (price a : ℕ) → Contents → Contents
joined_by o price a far =
    if ltb 0 o.remaining_quantity then assign far price (far price ++ a ∷ []) else far

-- The outcome of `execute`, where `f` is the specification's: no admitted order is left over.
pub record Executed {S : Type 0} (emit : MatchSink S) (side : Side) (far : Contents)
    (pending a price : ℕ) (s : S) (f : Filled) (r : OrderBook × NewOrderOutcome × S) : Type 0 where
  pub near' : Contents
  pub live' : List ℕ
  pub free' : List ℕ
  pub book : IsBook side r.0 near' (joined_by f.aggressor price a far) live' free' pending
  pub near_open : IsOpen near' r.0.orders.orders
  pub far_open : IsOpen (joined_by f.aggressor price a far) r.0.orders.orders
  pub outcome : r.1 ≡ outcome_of f.aggressor
  pub state : r.2 ≡ deliver emit f.executions s

module _ {S : Type 0} (emit : MatchSink S) (side : Side) (b : OrderBook) (near far : Contents)
    (pending a price : ℕ) (s : S) (f : Filled) (opened : IsOpen far b.orders.orders)
    (inside : price < b.config.price_level_count) (opposite : f.aggressor.side ≡ other side)
    (b' : OrderBook) (s' : S)
    (m : Matched emit side b near far (pending + 1) a price s f (b', s')) where
  left_is : (b'.orders.orders a).remaining_quantity ≡ f.aggressor.remaining_quantity
  left_is = ap (λ (o : Order). o.remaining_quantity) m.aggressor

  far_opened : IsOpen far b'.orders.orders
  far_opened j =
      open-agree b.orders.orders b'.orders.orders (far j)
        (All-tabulate (λ x. b'.orders.orders x ≡ b.orders.orders x) (far j) (m.alone.far_same j))
        (opened j)

  own : IsMember (other side) price (b'.orders.orders a)
  own = record {
    on_side = ap (λ (o : Order). o.side) m.aggressor ∙ opposite;
    at_price = m.is_aggressor.priced;
    in_word = m.is_aggressor.word;
    is_active = m.is_aggressor.active;
  }

  in_range : price < b'.config.price_level_count
  in_range = subst (λ c. price < c.price_level_count) (sym m.alone.config) inside

  rested :
      ltb 0 (b'.orders.orders a).remaining_quantity ≡ true
      → Executed emit side far pending a price s f (
        rest b' a,
        record { remaining_quantity = (b'.orders.orders a).remaining_quantity; rested = true },
        s',
      )
  rested more = record {
    near' = m.near';
    live' = m.live';
    free' = m.free';
    book = rw more' (
        IsBook-unflip side (
          rest-IsBook (other side) b' far m.near' m.live' m.free' pending (IsBook-flip side m.book)
            a price own m.is_aggressor.off_far m.is_aggressor.off_near in_range));
    near_open = IsOpen-same b'.orders.orders (rest b' a).orders.orders m.near' rest-same m.is_open;
    far_open = rw more' (
        IsOpen-same b'.orders.orders (rest b' a).orders.orders
          (assign far price (far price ++ a ∷ [])) rest-same
          (All-assign (λ x. 0 < (b'.orders.orders x).remaining_quantity) far price
            (far price ++ a ∷ [])
            (All-append _ (far price) (a ∷ []) (far_opened price) (ltb→lt _ _ more, tt))
            far_opened));
    outcome = ap₂ (λ q kept. record { remaining_quantity = q; rested = kept }) left_is (sym more');
    state = m.state;
  }
    where
      more' : ltb 0 f.aggressor.remaining_quantity ≡ true
      more' = ap (ltb 0) (sym left_is) ∙ more

      rest-same : SameOrders b'.orders.orders (rest b' a).orders.orders
      rest-same =
          rest-SameOrders (other side) b' far m.near' m.live' m.free' pending
            (IsBook-flip side m.book) a price own m.is_aggressor.off_far m.is_aggressor.off_near
            in_range

  filled :
      ltb 0 (b'.orders.orders a).remaining_quantity ≡ false
      → Executed emit side far pending a price s f (
        withdrawn b' a (FixedOrderMap.erase none b'.orders_by_id (b'.orders.orders a).order_id).0,
        record { remaining_quantity = 0; rested = false },
        s',
      )
  filled none_left = record {
    near' = m.near';
    live' = gone.live;
    free' = gone.free;
    book = rw none_left' gone.book;
    near_open = λ j.
        open-agree b'.orders.orders _ (m.near' j)
          (All-map gone.frame (m.near' j) (m.is_aggressor.off_near j)) (m.is_open j);
    far_open = rw none_left' (λ j.
        open-agree b'.orders.orders _ (far j)
          (All-map gone.frame (far j) (m.is_aggressor.off_far j)) (far_opened j));
    outcome =
        ap₂ (λ q kept. record { remaining_quantity = q; rested = kept })
          (sym (omega (arith, not_ltb→le _ _ none_left'))) (sym none_left');
    state = m.state;
  }
    where
      none_left' : ltb 0 f.aggressor.remaining_quantity ≡ false
      none_left' = ap (ltb 0) (sym left_is) ∙ none_left

      gone : Withdrawn side b' m.near' far pending a (
          withdrawn b' a (FixedOrderMap.erase none b'.orders_by_id (b'.orders.orders a).order_id).0)
      gone =
          withdrawn-Withdrawn side b' m.near' far m.live' m.free' pending m.book a
            m.is_aggressor.active m.is_aggressor.off_near m.is_aggressor.off_far _

  settled :
      Executed emit side far pending a price s f
        (let after = settle_aggressor b' a in (after.0, after.1, s'))
  unfolding settle_aggressor
  settled = elim (Bool-cases (ltb 0 (b'.orders.orders a).remaining_quantity)) [
    | inl more ↦ rw more (rested more)
    | inr none_left ↦ rw none_left (filled none_left)
  ]

-- `execute` of an active order that is on neither side and has a price of the book, where the book
-- is well formed and its orders all have something left, returns; the executions and what is left
-- of the order are those of price-time priority, and the book is well formed, all its orders with
-- something left, with the order either at the back of the queue at its price, if some of it is
-- left, or gone.
pub execute-Executed :
    {S : Type 0} (emit : MatchSink S) (side : Side) (b : OrderBook) (near far : Contents)
    (live free : List ℕ) (pending a price : ℕ) (s : S)
    → IsBook side b near far live free (pending + 1)
    → IsOpen near b.orders.orders
    → IsOpen far b.orders.orders
    → IsAggressor b near far a price
    → (b.orders.orders a).side ≡ other side
    → price < b.config.price_level_count
    → Returns
        (Executed emit side far pending a price s
          (fill (unlinked (b.orders.orders a)) (crossing side b near price)))
        (execute emit b a s)
unfolding execute
execute-Executed {S} emit side b near far live free pending a price s k opened far_opens g opposite
      inside =
    after (match emit b a s)
      (match-Matched emit side b near far live free (pending + 1) a price s k opened g opposite)
  where
    f : Filled
    f = fill (unlinked (b.orders.orders a)) (crossing side b near price)

    after :
        (run : Run (OrderBook × S))
        → Returns (Matched emit side b near far (pending + 1) a price s f) run
        → Returns
            (Executed emit side far pending a price s f)
            (run >>= λ (b', s'). let after = settle_aggressor b' a in ok (after.0, after.1, s'))
    after (ok (b', s')) m =
        settled emit side b near far pending a price s f far_opens inside
          (fill-side (unlinked (b.orders.orders a)) (crossing side b near price) ∙ opposite) b' s' m
    after fault m = elim m [ ]
    after out_of_fuel m = elim m [ ]
