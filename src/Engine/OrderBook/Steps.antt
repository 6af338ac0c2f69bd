-- ===== src/Engine/OrderBook/Steps.antt =====
-- One round of the match loop, in its two outcomes.
use sixchange.Base.{
  not_ltb→le, ltb→lt, ltb, All-tabulate, length, Bool-cases, All-both, ℕ, ◌+◌, ◌<◌, ◌≡◌, ◌≢◌, refl,
  sym, ap, subst, ◌∙◌, ◌⊎◌, inl, inr, true, false, some, List, [], ◌∷◌, ◌++◌, arith, All, All-map,
  Absent, In, All-in, eq_or_ne, Distinct,
}
use mathlib.Core.Path.{ap₂}
use sixchange.Engine.OrderBook.PriceTime.{orders_at, ladder}
use sixchange.Engine.OrderBook.Ladder.{ladder-best, All-ladder, behind_best}
use sixchange.Core.Enums.{Side}
use sixchange.Engine.Order.{Order, Slots}
use sixchange.Engine.PriceLevel.Queue.{unlinked, IsQueue}
use sixchange.Engine.OrderBook.State.{OrderBook, half}
use sixchange.Engine.OrderBook.Contents.{
  Contents, assign, assign_self, assign-ne, total, total-assign, IsBest,
}
use sixchange.Engine.OrderBook.Invariant.{IsMember, IsOpen}
use sixchange.Engine.OrderBook.Whole.{half-set_half, IsBook, ne_of_side}
use sixchange.Engine.OrderBook.Settling.{reduced, settle-aggressor, settle-resting}
use sixchange.Engine.OrderBook.Trading.{
  IsTrade, traded, traded-ne, exchange-IsBook, front-IsMember, a_ne_r,
}
use sixchange.Engine.OrderBook.Removal.{Taken}
use sixchange.Engine.OrderBook.Retiring.{retire-Taken}
use sixchange.Engine.OrderBook.Rounds.{IsAggressor, LeavesAlone}
use sixchange.Engine.OrderBook.Matching.{crosses, exchange, retire}

pub open-moved :
    (h g : Slots) (xs : List ℕ)
    → All (λ x. unlinked (g x) ≡ unlinked (h x)) xs
    → All (λ x. 0 < (h x).remaining_quantity) xs
    → All (λ x. 0 < (g x).remaining_quantity) xs
open-moved h g [] same all = tt
open-moved h g (x ∷ xs) same all =
    let e = ap (λ (o : Order). o.remaining_quantity) same.0 in
    (omega (arith, e, all.0), open-moved h g xs same.1 all.1)

orders_at-same :
    (h g : Slots) (xs : List ℕ)
    → All (λ x. unlinked (g x) ≡ unlinked (h x)) xs
    → orders_at g xs ≡ orders_at h xs
orders_at-same h g [] same = refl
orders_at-same h g (x ∷ xs) same = ap₂ ◌∷◌ same.0 (orders_at-same h g xs same.1)

-- A round at the best level `i`, whose front order is `r`.
module _ (side : Side) (b : OrderBook) (near far : Contents) (live free : List ℕ) (pending : ℕ)
    (k : IsBook side b near far live free pending) (opened : IsOpen near b.orders.orders)
    (a price : ℕ) (g : IsAggressor b near far a price) (i r : ℕ) (rest : List ℕ)
    (front : near i ≡ r ∷ rest) (best : (half side b).best ≡ some i)
    (meets : crosses side price (some i) ≡ true) where
  abbrev pub h : Slots
  h = b.orders.orders

  unfoldable pub b1 : OrderBook
  b1 = exchange side b a i r

  t : IsTrade side b near far a i r rest
  t = record {
    front = front;
    off_near = g.off_near;
    off_far = g.off_far;
    active = g.active;
    word = g.word;
  }

  pub book1 : IsBook side b1 near far live free pending
  unfolding b1
  book1 = exchange-IsBook side b near far live free pending k a i r rest t

  pub a1 : b1.orders.orders a ≡ reduced (h a) (traded b a r)
  unfolding b1 exchange
  a1 =
      settle-aggressor b.orders.orders a r (traded b a r)
        (a_ne_r side b near far live free pending k a i r rest t) (omega arith) (omega arith) g.word
        (front-IsMember side b near far live free pending k a i r rest t).in_word

  pub r1 : b1.orders.orders r ≡ reduced (h r) (traded b a r)
  unfolding b1 exchange
  r1 =
      settle-resting b.orders.orders a r (traded b a r)
        (a_ne_r side b near far live free pending k a i r rest t) (omega arith) (omega arith) g.word
        (front-IsMember side b near far live free pending k a i r rest t).in_word

  pub other1 : (x : ℕ) → x ≢ a → x ≢ r → b1.orders.orders x ≡ h x
  unfolding b1
  other1 x na nr = traded-ne side b near far live free pending k a i r rest t x na nr

  pub config1 : b1.config ≡ b.config
  unfolding b1 exchange
  config1 = refl

  apart : (j : ℕ) → crosses side price (some j) ≡ false → j ≢ i
  apart j off e =
      let clash : false ≡ true = sym off ∙ ap (λ n. crosses side price (some n)) e ∙ meets in cc

  elsewhere_ne_r : (j x : ℕ) → j ≢ i → In x (near j) → x ≢ r
  elsewhere_ne_r j x ne m e = ne (
      sym
        (All-in (λ y. IsMember side j (b.orders.orders y)) (near j) x (k.near_half.members j)
          m).at_price
      ∙ ap (λ z. (b.orders.orders z).price) e
      ∙ (front-IsMember side b near far live free pending k a i r rest t).at_price)

  pub ne_a : (j x : ℕ) → In x (near j) → x ≢ a
  ne_a j x m = All-in (λ y. y ≢ a) (near j) x (g.off_near j) m

  pub alone1 : LeavesAlone side price b near far b1 near
  alone1 = record {
    config = config1;
    far_same = λ j x m. far1 j x m;
    levels_same = λ j off. refl;
    orders_same =
        λ j x off m. ap unlinked (other1 x (ne_a j x m) (elsewhere_ne_r j x (apart j off) m));
  }
    where
      far1 : (j x : ℕ) → In x (far j) → b1.orders.orders x ≡ b.orders.orders x
      far1 j x m = other1 x (All-in (λ y. y ≢ a) (far j) x (g.off_far j) m) (
          ne_of_side b.orders.orders side x r
            (All-in (λ y. IsMember _ j (b.orders.orders y)) (far j) x (k.far_half.members j)
              m).on_side
            (front-IsMember side b near far live free pending k a i r rest t).on_side)

  pub aggressor1 : IsAggressor b1 near far a price
  aggressor1 = record {
    off_near = g.off_near;
    off_far = g.off_far;
    active = ap (λ (o : Order). o.active) a1 ∙ g.active;
    word = let q = ap (λ (o : Order). o.remaining_quantity) a1 in omega (arith, g.word, q);
    priced = ap (λ (o : Order). o.price) a1 ∙ g.priced;
  }

  -- The order that is filled goes.
  unfoldable pub b2 : OrderBook
  b2 = retire side b1 i r

  best1 : (half side b1).best ≡ some i
  unfolding b1 exchange
  best1 = rw half-set_half best

  pub config2 : b2.config ≡ b.config
  unfolding b2 retire
  config2 = config1

  unfoldable pub near2 : Contents
  near2 = assign near i rest

  retired : Taken side b1 near far free pending i r rest b2
  unfolding b2
  retired = retire-Taken side b1 near far live free pending book1 i r rest front best1

  pub live2 : List ℕ
  live2 = retired.live

  pub book2 : IsBook side b2 near2 far live2 (r ∷ free) pending
  unfolding near2 live2
  book2 = retired.book

  rest-Distinct : Distinct (r ∷ rest)
  rest-Distinct =
      (subst (λ xs. IsQueue ((half side b).levels i) xs b.orders.orders) front
        (k.near_half.queues i)).distinct

  -- The orders that stay are neither the aggressor nor the filled order.
  staying : (j : ℕ) → (j ≡ i) ⊎ (j ≢ i) → All (λ x. (x ≢ a) × (x ≢ r)) (near2 j)
  unfolding near2
  staying j (inl e) =
      rw (e, assign_self near i rest)
        (All-both (λ x. x ≢ a) (λ x. x ≢ r) rest (subst (Absent a) front (g.off_near i)).1
          (All-map (λ x ne e. ne e) rest rest-Distinct.0))
  staying j (inr ne) = rw (assign-ne near i j rest ne) (
      All-both (λ x. x ≢ a) (λ x. x ≢ r) (near j) (g.off_near j)
        (All-tabulate (λ x. x ≢ r) (near j) (λ x m. elsewhere_ne_r j x ne m)))

  same2 : (x : ℕ) → (x ≢ a) × (x ≢ r) → unlinked (b2.orders.orders x) ≡ unlinked (h x)
  same2 x (na, nr) = retired.same x nr ∙ ap unlinked (other1 x na nr)

  pub a2 : b2.orders.orders a ≡ reduced (h a) (traded b a r)
  a2 = retired.frame a (g.off_near i) ∙ a1

  pub opened2 : IsOpen near2 b2.orders.orders
  unfolding near2
  opened2 j = opened_at j (eq_or_ne j i)
    where
      opened_at :
          (j : ℕ)
          → (j ≡ i) ⊎ (j ≢ i)
          → All (λ x. 0 < (b2.orders.orders x).remaining_quantity) (assign near i rest j)
      opened_at j (inl e) =
          let s = staying j (inl e) in
          open-moved b.orders.orders b2.orders.orders (assign near i rest j) (All-map same2 _ s) (
            rw (e, assign_self near i rest)
              (subst (All (λ x. 0 < (b.orders.orders x).remaining_quantity)) front (opened i)).1)
      opened_at j (inr ne) =
          let s = staying j (inr ne) in
          open-moved b.orders.orders b2.orders.orders (assign near i rest j) (All-map same2 _ s)
            (rw (assign-ne near i j rest ne) (opened j))

  pub alone2 : LeavesAlone side price b near far b2 near2
  unfolding near2
  alone2 = record {
    config = config2;
    far_same = λ j x m. retired.frame x (far_absent j x m) ∙ alone1.far_same j x m;
    levels_same = λ j off. assign-ne near i j rest (apart j off);
    orders_same = λ j x off m. same2 x (ne_a j x m, elsewhere_ne_r j x (apart j off) m);
  }
    where
      far_absent : (j x : ℕ) → In x (far j) → Absent x (near i)
      far_absent j x m =
          All-map {Q = λ y. y ≢ x}
            (λ y (n : IsMember side i (b.orders.orders y)) e.
              ne_of_side b.orders.orders side x y
                (All-in (λ z. IsMember _ j (b.orders.orders z)) (far j) x (k.far_half.members j)
                  m).on_side
                n.on_side (sym e))
            (near i) (k.near_half.members i)

  pub aggressor2 : IsAggressor b2 near2 far a price
  unfolding near2
  aggressor2 = record {
    off_near = λ j. All-map (λ x s. s.0) (assign near i rest j) (staying j (eq_or_ne j i));
    off_far = g.off_far;
    active = ap (λ (o : Order). o.active) a2 ∙ g.active;
    word = let q = ap (λ (o : Order). o.remaining_quantity) a2 in omega (arith, g.word, q);
    priced = ap (λ (o : Order). o.price) a2 ∙ g.priced;
  }

  -- The ladder before and after.
  unfoldable pub tail : List ℕ
  tail = rest ++ behind_best side price i near

  inside : i < b.config.price_level_count
  inside = elim (Bool-cases (ltb i b.config.price_level_count)) [
    | inl low ↦ ltb→lt _ _ low
    | inr high ↦ let gone = sym front ∙ k.near_half.beyond i (not_ltb→le _ _ high) in cc
  ]

  front_level-IsBest : IsBest side near (some i)
  front_level-IsBest = subst (IsBest side near) best k.near_half.best

  ladder1 : ladder side b.config.price_level_count price near ≡ r ∷ tail
  unfolding tail
  ladder1 =
      ladder-best side b.config.price_level_count price i near near front_level-IsBest inside meets
        (λ j ne. refl)
      ∙ ap (λ xs. xs ++ behind_best side price i near) front

  ladder2 : ladder side b.config.price_level_count price near2 ≡ tail
  unfolding tail near2
  ladder2 =
      ladder-best side b.config.price_level_count price i near (assign near i rest)
        front_level-IsBest inside meets (λ j ne. assign-ne near i j rest ne)
      ∙ ap (λ xs. xs ++ behind_best side price i near) (assign_self near i rest)

  tail_stays : All (λ x. (x ≢ a) × (x ≢ r)) tail
  tail_stays =
      subst (All (λ x. (x ≢ a) × (x ≢ r))) ladder2
        (All-ladder _ side b.config.price_level_count price near2 (λ j. staying j (eq_or_ne j i)))

  pub queue :
      orders_at h (ladder side b.config.price_level_count price near)
      ≡ unlinked (h r) ∷ orders_at h tail
  queue = ap (orders_at h) ladder1

  pub queue1 :
      orders_at b1.orders.orders (ladder side b.config.price_level_count price near)
      ≡ reduced (unlinked (h r)) (traded b a r) ∷ orders_at h tail
  queue1 =
      ap (orders_at b1.orders.orders) ladder1
      ∙ ap₂ ◌∷◌ (ap unlinked r1) (
          orders_at-same h b1.orders.orders tail
            (All-map (λ x (s : (x ≢ a) × (x ≢ r)). ap unlinked (other1 x s.0 s.1)) tail tail_stays))

  pub queue2 :
      orders_at b2.orders.orders (ladder side b.config.price_level_count price near2)
      ≡ orders_at h tail
  queue2 =
      ap (orders_at b2.orders.orders) ladder2
      ∙ orders_at-same h b2.orders.orders tail (All-map same2 tail tail_stays)

  pub fewer : total b.config.price_level_count near2 + 1 ≡ total b.config.price_level_count near
  unfolding near2
  fewer = omega (arith, total-assign b.config.price_level_count near i rest inside, ap length front)
