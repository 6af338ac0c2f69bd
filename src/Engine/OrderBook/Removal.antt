-- ===== src/Engine/OrderBook/Removal.antt =====
-- An order, wherever it stands in its queue, leaves its level, the lookup map and the pool.
use sixchange.Engine.FixedOrderMap.{FixedOrderMap}
use sixchange.Base.{
  Distinct, Distinct-split, refl, All-append, All-right, ◌^◌, length-append, length, eq_or_ne,
  In-without, In, true, ℕ, ◌<◌, ◌≡◌, ◌≢◌, sym, ap, subst, ◌∙◌, ◌⊎◌, inl, inr, false, List, [], ◌∷◌,
  ◌++◌, arith, All, All-map, Absent, Split, In-split, Bool-cases, ltb, ltb→lt, not_ltb→le,
}
use sixchange.Core.Enums.{Side}
use sixchange.Engine.Order.{OrderPtr, Order, Slots}
use sixchange.Engine.PriceLevel.Queue.{unlinked, IsQueue}
use sixchange.Engine.OrderPool.{release}
use sixchange.Engine.OrderPool.Usage.{capacity-release, IsPool}
use sixchange.Engine.OrderPool.Allocation.{release-IsPool}
use sixchange.Engine.OrderBook.State.{set_half, HalfBook, OrderBook, half}
use sixchange.Engine.OrderBook.Contents.{total-assign, Contents, assign, assign_self, assign-ne}
use sixchange.Engine.OrderBook.Invariant.{IsHalf-agree, IsMember}
use sixchange.Engine.OrderBook.Unresting.{Unrested, unrest_half-Unrested}
use sixchange.Engine.OrderBook.Whole.{
  half-other-set_half, IsBook, IsPool-idle, other, ne_of_active, ne_of_side, half-set_half,
  near_small,
}
use sixchange.Engine.OrderBook.Cancellation.{unrest_half}

-- The outcome: the book is well formed with the order gone, and with `rest` left of its queue.
pub record Taken (side : Side) (b : OrderBook) (near far : Contents) (free : List ℕ)
    (pending i r : ℕ) (rest : List ℕ) (b' : OrderBook) : Type 0 where
  pub live : List ℕ
  pub book : IsBook side b' (assign near i rest) far live (r ∷ free) pending
  pub same : (x : ℕ) → x ≢ r → unlinked (b'.orders.orders x) ≡ unlinked (b.orders.orders x)
  pub frame : (x : ℕ) → Absent x (near i) → b'.orders.orders x ≡ b.orders.orders x

-- The book without the order, whatever the lookup map becomes.
unfoldable pub taken : Side → OrderBook → (i r : ℕ) → FixedOrderMap OrderPtr → OrderBook
unfolding unrest_half
taken side b i r m =
    let u = unrest_half side b.config.price_level_count (half side b) i r b.orders.orders in
    set_half side u.0
      (record b { orders = release (record (b.orders) { orders = u.1 }) r; orders_by_id = m })

module _ (side : Side) (b : OrderBook) (near far : Contents) (live free : List ℕ) (pending : ℕ)
    (k : IsBook side b near far live free pending) (i : ℕ) (xs : List ℕ) (r : ℕ) (ys : List ℕ)
    (here : near i ≡ xs ++ r ∷ ys) (m : FixedOrderMap OrderPtr) where
  h : Slots
  h = b.orders.orders

  count : ℕ
  count = b.config.price_level_count

  unrested : HalfBook × Slots
  unrested = unrest_half side count (half side b) i r h

  left : Unrested side count near i xs r ys h unrested
  unfolding unrested count h
  left =
      unrest_half-Unrested side count (half side b) near h k.near_half i xs r ys here
        (omega (arith, near_small k))

  g : Slots
  g = unrested.1

  front-IsMember : IsMember side i (h r)
  unfolding h
  front-IsMember =
      (All-right (λ x. IsMember side i (b.orders.orders x)) xs (r ∷ ys)
        (subst (All (λ x. IsMember side i (b.orders.orders x))) here (k.near_half.members i))).0

  -- Orders elsewhere are not at this level.
  Absent-here : (x : ℕ) → ((y : ℕ) → IsMember side i (h y) → y ≢ x) → Absent x (near i)
  unfolding h
  Absent-here x apart = All-map (λ y m. apart y m) (near i) (k.near_half.members i)

  idle_ne : (x : ℕ) → (h x).active ≡ false → g x ≡ h x
  unfolding g
  idle_ne x off = left.frame x (Absent-here x (λ y m e. ne_of_active h x y off m.is_active (sym e)))

  pool1 : IsPool (record (b.orders) { orders = g }) live free
  unfolding h
  pool1 = IsPool-idle b.orders live free g k.pool idle_ne

  stands : Split r live
  unfolding h
  stands = In-split r live (k.listed r front-IsMember.is_active)

  released :
      IsPool (release (record (b.orders) { orders = g }) r) (stands.0 ++ stands.1) (r ∷ free)
      × ((x : ℕ) → x ≢ r → (release (record (b.orders) { orders = g }) r).orders x ≡ g x)
  released =
      release-IsPool (record (b.orders) { orders = g }) stands.0 r stands.1 free
        (subst (λ l. IsPool (record (b.orders) { orders = g }) l free) stands.2 pool1)

  k' : Slots
  k' = (release (record (b.orders) { orders = g }) r).orders

  off_r : (k' r).active ≡ false
  unfolding k'
  off_r = ap (λ (o : Order). o.active) released.0.cleared.0

  inside : i < count
  unfolding count
  inside = elim (Bool-cases (ltb i b.config.price_level_count)) [
    | inl low ↦ ltb→lt _ _ low
    | inr high ↦ absurd (nonempty xs (sym here ∙ k.near_half.beyond i (not_ltb→le _ _ high)))
  ]
    where
      nonempty : (zs : List ℕ) → zs ++ r ∷ ys ≢ []
      nonempty [] = λ e. cc
      nonempty (z ∷ zs) = λ e. cc

  near_ne_r : (j : ℕ) → (j ≡ i) ⊎ (j ≢ i) → All (λ x. k' x ≡ g x) (assign near i (xs ++ ys) j)
  unfolding k' h
  near_ne_r j (inl e) =
      rw (e, assign_self near i (xs ++ ys))
        (All-map released.1 (xs ++ ys) (All-append _ xs ys apart.1 apart.3))
    where
      apart :
          Distinct xs
          × Absent r xs
          × Distinct ys
          × Absent r ys
          × All (λ x. Absent x ys) xs
          × All (λ y. Absent y xs) ys
      apart =
          Distinct-split xs r ys
            (subst (λ q. IsQueue ((half side b).levels i) q b.orders.orders) here
              (k.near_half.queues i)).distinct
  near_ne_r j (inr ne) = rw (assign-ne near i j (xs ++ ys) ne) (
      All-map
        (λ x (m : IsMember side j (b.orders.orders x)). released.1 x (λ e.
          ne (sym m.at_price ∙ ap (λ z. (b.orders.orders z).price) e ∙ front-IsMember.at_price)))
        (near j) (k.near_half.members j))

  far_same : (j : ℕ) → All (λ x. k' x ≡ h x) (far j)
  unfolding k' h g
  far_same j =
      All-map
        (λ x (m : IsMember (other side) j (b.orders.orders x)).
          released.1 x (ne_of_side b.orders.orders side x r m.on_side front-IsMember.on_side)
          ∙ left.frame x (
              Absent-here x
                (λ y n e. ne_of_side b.orders.orders side x y m.on_side n.on_side (sym e))))
        (far j) (k.far_half.members j)

  taken-half : half side (taken side b i r m) ≡ unrested.0
  unfolding taken unrested count h
  taken-half = rw half-set_half refl

  taken-IsBook :
      IsBook side
        (taken side b i r m)
        (assign near i (xs ++ ys))
        far
        (stands.0 ++ stands.1)
        (r ∷ free)
        pending
  unfolding taken count h g k' unrested unrest_half
  taken-IsBook = record {
    pool = released.0;
    near_half = rw taken-half (
        IsHalf-agree side b.config.price_level_count unrested.0 (assign near i (xs ++ ys)) g k'
          (λ j. near_ne_r j (eq_or_ne j i)) left.halved);
    far_half = rw half-other-set_half (
        IsHalf-agree (other side) b.config.price_level_count (half (other side) b) far
          b.orders.orders k' far_same k.far_half);
    listed = λ x on. still_listed x on (eq_or_ne x r);
    accounted = omega (
      arith,
      k.accounted,
      ap length stands.2,
      length-append stands.0 (r ∷ stands.1),
      length-append stands.0 stands.1,
      total-assign b.config.price_level_count near i (xs ++ ys) inside,
      ap length here,
      length-append xs (r ∷ ys),
      length-append xs ys,
    );
    small =
        subst (λ c. c < 2 ^ 64) (sym (capacity-release (record (b.orders) { orders = g }) r))
          k.small;
  }
    where
      still_listed :
          (x : ℕ) → (k' x).active ≡ true → (x ≡ r) ⊎ (x ≢ r) → In x (stands.0 ++ stands.1)
      still_listed x on (inl e) =
          let clash : false ≡ true = sym off_r ∙ ap (λ z. (k' z).active) (sym e) ∙ on in cc
      still_listed x on (inr ne) = In-without x r stands.0 stands.1 ne (
          subst (In x) stands.2 (
            k.listed x (
              sym (
                ap (λ (o : Order). o.active) (released.1 x ne)
                ∙ ap (λ (o : Order). o.active) (left.same x))
              ∙ on)))

  -- The removal keeps the book well formed without the order.
  pub taken-Taken : Taken side b near far free pending i r (xs ++ ys) (taken side b i r m)
  unfolding count h g k' taken unrested unrest_half
  taken-Taken = record {
    live = stands.0 ++ stands.1;
    book = taken-IsBook;
    same = λ x ne. ap unlinked (released.1 x ne) ∙ left.same x;
    frame = λ x out. released.1 x (in_queue x out) ∙ left.frame x out;
  }
    where
      in_queue : (x : ℕ) → Absent x (near i) → x ≢ r
      in_queue x out e = (All-right (λ y. y ≢ x) xs (r ∷ ys) (subst (Absent x) here out)).0 (sym e)
