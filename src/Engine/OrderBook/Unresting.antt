-- ===== src/Engine/OrderBook/Unresting.antt =====
-- What the removal of an order does to its side.
use sixchange.Base.{
  ℕ, ◌≤◌, ◌<◌, ◌^◌, ◌≡◌, ◌≢◌, refl, sym, ap, subst, ◌∙◌, ◌⊎◌, inl, inr, true, false, ◌&&◌, Option,
  none, some, List, [], ◌∷◌, ◌++◌, arith, length, length-append, All, All-map, All-append, All-left,
  All-right, Absent, eq_or_ne, Bool-cases, ltb, ltb→lt, not_ltb→le, ◌==◌, ==→eq, not_==→ne, sub64,
  and-true,
}
use sixchange.Core.Enums.{Side}
use sixchange.Engine.Order.{Slots}
use sixchange.Engine.PriceLevel.{remove, empty}
use sixchange.Engine.PriceLevel.Queue.{unlinked, SameOrders, IsQueue}
use sixchange.Engine.PriceLevel.Remove.{Removed, remove-Removed}
use sixchange.Engine.OrderBook.State.{HalfBook, set_level, update_best_after_removal}
use sixchange.Engine.OrderBook.Contents.{
  Contents, assign, assign_self, assign-ne, total, total-assign, Better, IsBest, is_nil,
  nil_of_is_nil, ne_nil_of_is_nil,
}
use sixchange.Engine.OrderBook.Best.{Shows, Emptied, update_best-IsBest}
use sixchange.Engine.OrderBook.Invariant.{
  IsMember, IsHalf, members-same, IsQueue-agree, empty-first,
}
use sixchange.Engine.OrderBook.Resting.{set_level_self, set_level-ne}
use sixchange.Engine.OrderBook.Cancellation.{is_best, unrest_half}

module _ (side : Side) (count : ℕ) (s : HalfBook) (v : Contents) (h : Slots)
    (k : IsHalf side count s v h) (i : ℕ) (xs : List ℕ) (p : ℕ) (ys : List ℕ)
    (here : v i ≡ xs ++ p ∷ ys) where
  left_over : Contents
  left_over = assign v i (xs ++ ys)

  removed : Removed (s.levels i) xs p ys h (remove (s.levels i) p h)
  removed =
      remove-Removed (s.levels i) xs p ys h
        (subst (λ q. IsQueue (s.levels i) q h) here (k.queues i))

  g : Slots
  g = (remove (s.levels i) p h).1

  -- The side before its best price is looked at.
  s1 : HalfBook
  s1 = record {
    levels = set_level s.levels i (remove (s.levels i) p h).0;
    best = s.best;
    active_orders = sub64 s.active_orders 1;
  }

  inside : i < count
  inside = elim (Bool-cases (ltb i count)) [
    | inl low ↦ ltb→lt _ _ low
    | inr high ↦ absurd (nonempty xs (sym here ∙ k.beyond i (not_ltb→le _ _ high)))
  ]
    where
      nonempty : (zs : List ℕ) → zs ++ p ∷ ys ≢ []
      nonempty [] = λ e. cc
      nonempty (z ∷ zs) = λ e. cc

  here_members : All (λ x. IsMember side i (h x)) (xs ++ p ∷ ys)
  here_members = subst (All (λ x. IsMember side i (h x))) here (k.members i)

  elsewhere : (j x : ℕ) → j ≢ i → IsMember side j (h x) → Absent x (xs ++ p ∷ ys)
  elsewhere j x ne m =
      All-map (λ y n e. ne (sym m.at_price ∙ ap (λ a. (h a).price) (sym e) ∙ n.at_price))
        (xs ++ p ∷ ys) here_members

  frame_of_Absent : (x : ℕ) → Absent x (xs ++ p ∷ ys) → g x ≡ h x
  unfolding g
  frame_of_Absent x out =
      removed.frame x
        (All-append _ xs ys (All-left _ xs (p ∷ ys) out) (All-right _ xs (p ∷ ys) out).1)
        (λ e. (All-right _ xs (p ∷ ys) out).0 (sym e))

  other_level : (j : ℕ) → j ≢ i → All (λ x. g x ≡ h x) (v j)
  other_level j ne = All-map (λ x m. frame_of_Absent x (elsewhere j x ne m)) (v j) (k.members j)

  queue_at : (j : ℕ) → (j ≡ i) ⊎ (j ≢ i) → IsQueue (s1.levels j) (left_over j) g
  unfolding left_over g s1
  queue_at j (inl same) =
      rw (same, set_level_self s.levels i (remove (s.levels i) p h).0, assign_self v i (xs ++ ys))
        removed.queue
  queue_at j (inr other) =
      rw
        (
          set_level-ne s.levels i j (remove (s.levels i) p h).0 other,
          assign-ne v i j (xs ++ ys) other,
        )
        (IsQueue-agree (s.levels j) (v j) h g (other_level j other) (k.queues j))

  members_at : (j : ℕ) → (j ≡ i) ⊎ (j ≢ i) → All (λ x. IsMember side j (g x)) (left_over j)
  unfolding left_over g
  members_at j (inl same) =
      rw (same, assign_self v i (xs ++ ys))
        (members-same side i h g (xs ++ ys) removed.same (
          All-append _ xs ys (All-left _ xs (p ∷ ys) here_members)
            (All-right _ xs (p ∷ ys) here_members).1))
  members_at j (inr other) =
      rw (assign-ne v i j (xs ++ ys) other)
        (members-same side j h g (v j) removed.same (k.members j))

  beyond_at : (j : ℕ) → count ≤ j → left_over j ≡ []
  unfolding left_over
  beyond_at j out =
      let far : j ≢ i = omega (arith, inside) in assign-ne v i j (xs ++ ys) far ∙ k.beyond j out

  fewer_orders : (total count v < 2 ^ 64) → sub64 s.active_orders 1 ≡ total count left_over
  unfolding left_over
  fewer_orders room = omega (
    arith,
    k.active,
    room,
    total-assign count v i (xs ++ ys) inside,
    ap length here,
    length-append xs (p ∷ ys),
    length-append xs ys,
  )

  Shows-at : Shows s1.levels left_over
  Shows-at j = empty-first (s1.levels j) (left_over j) (queue_at j (eq_or_ne j i)).head

  with_best :
      (s2 : HalfBook)
      → total count v < 2 ^ 64
      → s2.levels ≡ s1.levels
      → s2.active_orders ≡ s1.active_orders
      → IsBest side left_over s2.best
      → IsHalf side count s2 left_over g
  unfolding s1
  with_best s2 room levels active best = record {
    queues = λ j. rw levels (queue_at j (eq_or_ne j i));
    members = λ j. members_at j (eq_or_ne j i);
    beyond = beyond_at;
    best = best;
    active = active ∙ fewer_orders room;
  }

  not_nil : v i ≢ []
  not_nil e = nonempty xs (sym here ∙ e)
    where
      nonempty : (zs : List ℕ) → zs ++ p ∷ ys ≢ []
      nonempty [] = λ e. cc
      nonempty (z ∷ zs) = λ e. cc

  -- Prices better than one with orders stay without.
  still_better : (j : ℕ) → v j ≡ [] → left_over j ≡ []
  unfolding left_over
  still_better j e = elim (eq_or_ne j i) [
    | inl same ↦ absurd (not_nil (subst (λ m. v m ≡ []) same e))
    | inr other ↦ assign-ne v i j (xs ++ ys) other ∙ e
  ]

  emptied :
      (o : Option ℕ)
      → IsBest side v o
      → is_best o i ≡ true
      → is_nil (left_over i) ≡ true
      → Emptied side left_over i
  unfolding is_best
  emptied none best e gone = cc
  emptied (some b) best e gone = (
    nil_of_is_nil (left_over i) gone,
    λ j h. still_better j (best.1 j (subst (Better side j) (sym (==→eq b i e)) h)),
  )

  kept :
      (o : Option ℕ)
      → IsBest side v o
      → (is_best o i && is_nil (left_over i)) ≡ false
      → IsBest side left_over o
  unfolding is_best left_over
  kept none best e = absurd (not_nil (best i))
  kept (some b) (ne, all) e = (at_best (Bool-cases (b == i)), λ j h. still_better j (all j h))
    where
      at_best : ((b == i) ≡ true) ⊎ ((b == i) ≡ false) → left_over b ≢ []
      at_best (inl same) =
          let there : is_nil (left_over i) ≡ false = rw same at e in
          subst (λ m. left_over m ≢ []) (sym (==→eq b i same))
            (ne_nil_of_is_nil (left_over i) there)
      at_best (inr other) = rw (assign-ne v i b (xs ++ ys) (not_==→ne b i other)) ne

  level_shows : empty (remove (s.levels i) p h).0 ≡ is_nil (left_over i)
  unfolding s1
  level_shows = ap empty (sym (set_level_self s.levels i (remove (s.levels i) p h).0)) ∙ Shows-at i

  updated :
      total count v < 2 ^ 64
      → Emptied side left_over i
      → IsHalf side count (update_best_after_removal side count s1 i) left_over g
  unfolding s1
  updated room e =
      let found =
        update_best-IsBest count s1 left_over i Shows-at beyond_at (fewer_orders room) side inside
          e in
      with_best (update_best_after_removal side count s1 i) room found.1 found.2 found.0

  unrest_half-IsHalf :
      total count v < 2 ^ 64
      → IsHalf side count
          (unrest_half side count s i p h).0
          left_over
          (unrest_half side count s i p h).1
  unfolding unrest_half g s1
  unrest_half-IsHalf room =
      elim (Bool-cases (is_best s.best i && empty (remove (s.levels i) p h).0)) [
        | inl gone ↦
            let both = and-true _ _ gone in
            rw gone (updated room (emptied s.best k.best both.0 (sym level_shows ∙ both.1)))
        | inr stays ↦ rw stays (
            with_best s1 room refl refl
              (kept s.best k.best (subst (λ e. (is_best s.best i && e) ≡ false) level_shows stays)))
      ]

-- The outcome of a removal on one side.
pub record Unrested (side : Side) (count : ℕ) (v : Contents) (i : ℕ) (xs : List ℕ) (p : ℕ)
    (ys : List ℕ) (h : Slots) (r : HalfBook × Slots) : Type 0 where
  pub halved : IsHalf side count r.0 (assign v i (xs ++ ys)) r.1
  pub same : SameOrders h r.1
  pub cleared : r.1 p ≡ unlinked (h p)
  pub frame : (x : ℕ) → Absent x (v i) → r.1 x ≡ h x

-- Taking an order out of its level, wherever it stands, leaves the other orders of the side in their
-- order, and the best price and the number of orders right for what is left.
pub unrest_half-Unrested :
    (side : Side) (count : ℕ) (s : HalfBook) (v : Contents) (h : Slots)
    → IsHalf side count s v h
    → (i : ℕ) (xs : List ℕ) (p : ℕ) (ys : List ℕ) → v i ≡ xs ++ p ∷ ys
    → total count v < 2 ^ 64
    → Unrested side count v i xs p ys h (unrest_half side count s i p h)
unfolding unrest_half left_over g
unrest_half-Unrested side count s v h k i xs p ys here room = record {
  halved = unrest_half-IsHalf side count s v h k i xs p ys here room;
  same = (removed side count s v h k i xs p ys here).same;
  cleared = (removed side count s v h k i xs p ys here).cleared;
  frame = λ x out. frame_of_Absent side count s v h k i xs p ys here x (subst (Absent x) here out);
}
