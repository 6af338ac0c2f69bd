-- ===== src/Engine/OrderBook/Resting.antt =====
-- What `rest` does to one side: the order joins the queue of its price.
use sixchange.Base.{
  ℕ, ◌+◌, ◌≤◌, ◌<◌, ◌^◌, ◌≡◌, ◌≢◌, refl, sym, ap, subst, ◌∙◌, ◌⊎◌, inl, inr, Bool, true, false,
  Option, none, some, List, [], ◌∷◌, ◌++◌, arith, length-append, All, All-map, All-append, Absent,
  eq_or_ne, if◌then◌else◌, add64,
}
use sixchange.Core.Enums.{Side, buy, sell}
use sixchange.Engine.Order.{Slots}
use sixchange.Engine.PriceLevel.{PriceLevel, push_back}
use sixchange.Engine.PriceLevel.Queue.{SameOrders, IsQueue}
use sixchange.Engine.PriceLevel.PushBack.{Pushed, push_back-Pushed}
use sixchange.Engine.OrderBook.State.{HalfBook, set_level, improves, rest_half}
use sixchange.Engine.OrderBook.Contents.{
  Contents, assign, assign_self, assign-ne, total, total-assign, Better, IsBest,
}
use sixchange.Engine.OrderBook.Invariant.{IsMember, IsHalf, Foreign, members-same, IsQueue-agree}

pub set_level_self : (levels : ℕ → PriceLevel) (i : ℕ) (l : PriceLevel) → set_level levels i l i ≡ l
unfolding set_level
set_level_self levels i l = ground arith

pub set_level-ne :
    (levels : ℕ → PriceLevel) (i j : ℕ) (l : PriceLevel) → j ≢ i → set_level levels i l j ≡ levels j
unfolding set_level
set_level-ne levels i j l ne = ground arith

-- Either the price improves on the best, or it is the best or worse.
abbrev Improvement : Side → ℕ → Option ℕ → Bool → Type 0
Improvement side i none improved = improved ≡ true
Improvement side i (some b) improved =
    ((improved ≡ true) × Better side i b) ⊎ ((improved ≡ false) × ((i ≡ b) ⊎ Better side b i))

improves-Improvement :
    (side : Side) (i : ℕ) (o : Option ℕ) → Improvement side i o (improves side i o)
unfolding improves
improves-Improvement buy i none = refl
improves-Improvement sell i none = refl
improves-Improvement buy i (some b) = ground arith
improves-Improvement sell i (some b) = ground arith

Better-trans : (side : Side) (i j k : ℕ) → Better side i j → Better side j k → Better side i k
Better-trans buy i j k p q = omega arith
Better-trans sell i j k p q = omega arith

Better-ne : (side : Side) (i j : ℕ) → Better side i j → i ≢ j
Better-ne buy i j p = omega arith
Better-ne sell i j p = omega arith

snoc-ne : (xs : List ℕ) (p : ℕ) → xs ++ p ∷ [] ≢ []
snoc-ne [] p = λ e. cc
snoc-ne (x ∷ xs) p = λ e. cc

module _ (side : Side) (v : Contents) (i p : ℕ) where
  joined : Contents
  joined = assign v i (v i ++ p ∷ [])

  joined_here : joined i ≢ []
  unfolding joined
  joined_here = rw (assign_self v i (v i ++ p ∷ [])) (snoc-ne (v i) p)

  rest-IsBest :
      (o : Option ℕ)
      → IsBest side v o
      → IsBest side joined (if improves side i o then some i else o)
  unfolding joined
  rest-IsBest none all =
      rw (improves-Improvement side i none)
        (joined_here, λ j h. assign-ne v i j _ (Better-ne side j i h) ∙ all j)
  rest-IsBest (some b) (ne, all) = elim (improves-Improvement side i (some b)) [
    | inl (e, h) ↦ rw e (
      joined_here,
      λ j k. assign-ne v i j _ (Better-ne side j i k) ∙ all j (Better-trans side j i b k h),
    )
    | inr (e, inl same) ↦ rw e (
      subst (λ k. joined k ≢ []) same joined_here,
      λ j k. assign-ne v i j _ (subst (λ m. j ≢ m) (sym same) (Better-ne side j b k)) ∙ all j k,
    )
    | inr (e, inr worse) ↦ rw e (
      rw (assign-ne v i b _ (Better-ne side b i worse)) ne,
      λ j k. assign-ne v i j _ (Better-ne side j i (Better-trans side j b i k worse)) ∙ all j k,
    )
  ]

  module _ (count : ℕ) (s : HalfBook) (h : Slots) (k : IsHalf side count s v h)
      (own : IsMember side i (h p)) (inside : i < count) (new : Foreign p v)
      (room : total count v + 1 < 2 ^ 64) where
    pushed : Pushed (s.levels i) (v i) p h (push_back (s.levels i) p h)
    pushed = push_back-Pushed (s.levels i) (v i) p h (k.queues i) (new i)

    g : Slots
    g = (push_back (s.levels i) p h).1

    -- An order at another price is not one of this level.
    elsewhere : (j x : ℕ) → j ≢ i → IsMember side j (h x) → Absent x (v i)
    elsewhere j x ne m =
        All-map (λ y n e. ne (sym m.at_price ∙ ap (λ a. (h a).price) (sym e) ∙ n.at_price)) (v i)
          (k.members i)

    other_level : (j : ℕ) → j ≢ i → All (λ x. g x ≡ h x) (v j)
    unfolding g
    other_level j ne = both (v j) (k.members j) (new j)
      where
        both :
            (xs : List ℕ)
            → All (λ x. IsMember side j (h x)) xs
            → Absent p xs
            → All (λ x. g x ≡ h x) xs
        both [] m a = tt
        both (x ∷ xs) m a = (pushed.frame x (elsewhere j x ne m.0) a.0, both xs m.1 a.1)

    queue_at :
        (j : ℕ)
        → (j ≡ i) ⊎ (j ≢ i)
        → IsQueue (set_level s.levels i (push_back (s.levels i) p h).0 j) (joined j) g
    unfolding joined g
    queue_at j (inl same) =
        rw
          (
            same,
            set_level_self s.levels i (push_back (s.levels i) p h).0,
            assign_self v i (v i ++ p ∷ []),
          )
          pushed.queue
    queue_at j (inr other) =
        rw
          (
            set_level-ne s.levels i j (push_back (s.levels i) p h).0 other,
            assign-ne v i j (v i ++ p ∷ []) other,
          )
          (IsQueue-agree (s.levels j) (v j) h g (other_level j other) (k.queues j))

    members_at : (j : ℕ) → (j ≡ i) ⊎ (j ≢ i) → All (λ x. IsMember side j (g x)) (joined j)
    unfolding joined g
    members_at j (inl same) =
        rw (same, assign_self v i (v i ++ p ∷ []))
          (members-same side i h g (v i ++ p ∷ []) pushed.same
            (All-append _ (v i) (p ∷ []) (k.members i) (own, tt)))
    members_at j (inr other) =
        rw (assign-ne v i j (v i ++ p ∷ []) other)
          (members-same side j h g (v j) pushed.same (k.members j))

    beyond_at : (j : ℕ) → count ≤ j → joined j ≡ []
    unfolding joined
    beyond_at j out = assign-ne v i j (v i ++ p ∷ []) (omega arith) ∙ k.beyond j out

    more_orders : add64 s.active_orders 1 ≡ total count joined
    unfolding joined
    more_orders = omega (
      arith,
      k.active,
      room,
      total-assign count v i (v i ++ p ∷ []) inside,
      length-append (v i) (p ∷ []),
    )

    rest_half-IsHalf :
        IsHalf side count (rest_half side s i p h).0 joined (rest_half side s i p h).1
    unfolding rest_half g
    rest_half-IsHalf = record {
      queues = λ j. queue_at j (eq_or_ne j i);
      members = λ j. members_at j (eq_or_ne j i);
      beyond = beyond_at;
      best = rest-IsBest s.best k.best;
      active = more_orders;
    }

-- The outcome of `rest` on one side.
pub record Rested (side : Side) (count : ℕ) (v : Contents) (i p : ℕ) (h : Slots)
    (r : HalfBook × Slots) : Type 0 where
  pub halved : IsHalf side count r.0 (assign v i (v i ++ p ∷ [])) r.1
  pub same : SameOrders h r.1
  pub frame : (x : ℕ) → Foreign x v → x ≢ p → r.1 x ≡ h x

-- An order that rests becomes the last at its price, the best price and the number of orders follow,
-- and no order changes but in the links of its new neighbour and its own.
pub rest_half-Rested :
    (side : Side) (count : ℕ) (s : HalfBook) (v : Contents) (i p : ℕ) (h : Slots)
    → IsHalf side count s v h
    → IsMember side i (h p)
    → i < count
    → Foreign p v
    → total count v + 1 < 2 ^ 64
    → Rested side count v i p h (rest_half side s i p h)
unfolding rest_half joined
rest_half-Rested side count s v i p h k own inside new room = record {
  halved = rest_half-IsHalf side v i p count s h k own inside new room;
  same = (push_back-Pushed (s.levels i) (v i) p h (k.queues i) (new i)).same;
  frame =
      λ x out ne. (push_back-Pushed (s.levels i) (v i) p h (k.queues i) (new i)).frame x (out i) ne;
}
