-- ===== src/Engine/OrderBook/Best.antt =====
-- The search for the next best price after a level has emptied.
use sixchange.Base.{
  ℕ, zero, suc, ◌+◌, ◌≤◌, ◌<◌, ◌≡◌, ◌≢◌, refl, sym, ◌∙◌, inl, inr, Option, none, some, [], arith,
  ◌==◌, leb, ltb, leb→le, not_leb→lt, ltb→lt, not_ltb→le, ==→eq, Bool-cases, eq_or_ne,
}
use sixchange.Core.Enums.{Side, buy, sell}
use sixchange.Engine.PriceLevel.{PriceLevel, empty}
use sixchange.Engine.OrderBook.State.{
  HalfBook, scan_down, scan_up, update_best_bid_after_removal, update_best_ask_after_removal,
  update_best_after_removal,
}
use sixchange.Engine.OrderBook.Contents.{
  Contents, total, total-nil, Better, IsBest, is_nil, nil_of_is_nil, ne_nil_of_is_nil,
}

-- The levels are empty where the contents are.
abbrev pub Shows : (ℕ → PriceLevel) → Contents → Type 0
Shows levels v = (i : ℕ) → empty (levels i) ≡ is_nil (v i)

abbrev Highest : Contents → ℕ → Option ℕ → Type 0
Highest v n none = (i : ℕ) → i < n → v i ≡ []
Highest v n (some b) = (b < n) × (v b ≢ []) × ((i : ℕ) → b < i → i < n → v i ≡ [])

abbrev Lowest : Contents → (from to : ℕ) → Option ℕ → Type 0
Lowest v from to none = (i : ℕ) → from ≤ i → i < to → v i ≡ []
Lowest v from to (some b) = (v b ≢ []) × ((i : ℕ) → from ≤ i → i < b → v i ≡ [])

module _ (levels : ℕ → PriceLevel) (v : Contents) (shows : Shows levels v) where
  scan_down-Highest : (n : ℕ) → Highest v n (scan_down levels n)
  unfolding scan_down
  scan_down-Highest zero = λ i h. elim h [ ]
  scan_down-Highest (suc n) = elim (Bool-cases (empty (levels n))) [
    | inl gone ↦
        rw gone (
          extend (scan_down levels n) (nil_of_is_nil _ (sym (shows n) ∙ gone))
            (scan_down-Highest n))
    | inr there ↦ rw there (
      omega arith,
      ne_nil_of_is_nil _ (sym (shows n) ∙ there),
      λ i above below. absurd (omega arith),
    )
  ]
    where
      extend : (o : Option ℕ) → v n ≡ [] → Highest v n o → Highest v (suc n) o
      extend none e all =
          λ i h. elim (eq_or_ne i n) [ inl same ↦ rw same e | inr other ↦ all i (omega arith) ]
      extend (some b) e (low, ne, all) = (
        omega arith,
        ne,
        λ i above below. elim (eq_or_ne i n) [
          | inl same ↦ rw same e
          | inr other ↦ all i above (omega arith)
        ],
      )

  scan_up-Lowest : (n from to : ℕ) → from + n ≡ to → Lowest v from to (scan_up levels n from)
  unfolding scan_up
  scan_up-Lowest zero from to e = λ i low high. absurd (omega arith)
  scan_up-Lowest (suc n) from to e = elim (Bool-cases (empty (levels from))) [
    | inl gone ↦ rw gone (
        extend (scan_up levels n (from + 1)) (nil_of_is_nil _ (sym (shows from) ∙ gone))
          (scan_up-Lowest n (from + 1) to (omega arith)))
    | inr there ↦
        rw there
          (ne_nil_of_is_nil _ (sym (shows from) ∙ there), λ i above below. absurd (omega arith))
  ]
    where
      extend : (o : Option ℕ) → v from ≡ [] → Lowest v (from + 1) to o → Lowest v from to o
      extend none empty_here all = λ i low high. elim (eq_or_ne i from) [
        | inl same ↦ rw same empty_here
        | inr other ↦ all i (omega arith) high
      ]
      extend (some b) empty_here (ne, all) = (
        ne,
        λ i low high. elim (eq_or_ne i from) [
          | inl same ↦ rw same empty_here
          | inr other ↦ all i (omega arith) high
        ],
      )

-- What is known when the search starts: the emptied price and all better ones hold nothing.
abbrev pub Emptied : Side → Contents → ℕ → Type 0
Emptied side v removed = (v removed ≡ []) × ((i : ℕ) → Better side i removed → v i ≡ [])

module _ (count : ℕ) (s : HalfBook) (v : Contents) (removed : ℕ) (shows : Shows s.levels v)
    (beyond : (i : ℕ) → count ≤ i → v i ≡ []) (active : s.active_orders ≡ total count v) where
  all_empty : s.active_orders ≡ 0 → (i : ℕ) → v i ≡ []
  all_empty z i = elim (Bool-cases (leb count i)) [
    | inl out ↦ beyond i (leb→le _ _ out)
    | inr inside ↦ total-nil count v (sym active ∙ z) i (not_leb→lt _ _ inside)
  ]

  at_or_above : Emptied buy v removed → (i : ℕ) → removed ≤ i → v i ≡ []
  at_or_above (gone, better) i h = elim (eq_or_ne i removed) [
    | inl same ↦ rw same gone
    | inr other ↦ better i (omega arith)
  ]

  at_or_below : Emptied sell v removed → (i : ℕ) → i ≤ removed → v i ≡ []
  at_or_below (gone, better) i h = elim (eq_or_ne i removed) [
    | inl same ↦ rw same gone
    | inr other ↦ better i (omega arith)
  ]

  widen_bid : Emptied buy v removed → (o : Option ℕ) → Highest v removed o → IsBest buy v o
  widen_bid e none all = λ i. elim (Bool-cases (ltb i removed)) [
    | inl low ↦ all i (ltb→lt _ _ low)
    | inr high ↦ at_or_above e i (not_ltb→le _ _ high)
  ]
  widen_bid e (some b) (low, ne, all) = (
    ne,
    λ i h. elim (Bool-cases (ltb i removed)) [
      | inl under ↦ all i h (ltb→lt _ _ under)
      | inr over ↦ at_or_above e i (not_ltb→le _ _ over)
    ],
  )

  widen_ask :
      Emptied sell v removed → (o : Option ℕ) → Lowest v (removed + 1) count o → IsBest sell v o
  widen_ask e none all = λ i. elim (Bool-cases (leb i removed)) [
    | inl low ↦ at_or_below e i (leb→le _ _ low)
    | inr high ↦ elim (Bool-cases (ltb i count)) [
      | inl inside ↦ all i (omega (arith, not_leb→lt _ _ high)) (ltb→lt _ _ inside)
      | inr out ↦ beyond i (not_ltb→le _ _ out)
    ]
  ]
  widen_ask e (some b) (ne, all) = (
    ne,
    λ i h. elim (Bool-cases (leb i removed)) [
      | inl low ↦ at_or_below e i (leb→le _ _ low)
      | inr high ↦ all i (omega (arith, not_leb→lt _ _ high)) h
    ],
  )

  bid_best : Emptied buy v removed → IsBest buy v (update_best_bid_after_removal s removed).best
  unfolding update_best_bid_after_removal
  bid_best e = elim (Bool-cases (s.active_orders == 0)) [
    | inl idle ↦ rw idle (all_empty (==→eq _ _ idle))
    | inr busy ↦ rw busy (widen_bid e _ (scan_down-Highest s.levels v shows removed))
  ]

  ask_best :
      removed < count
      → Emptied sell v removed
      → IsBest sell v (update_best_ask_after_removal count s removed).best
  unfolding update_best_ask_after_removal
  ask_best inside e = elim (Bool-cases (s.active_orders == 0)) [
    | inl idle ↦ rw idle (all_empty (==→eq _ _ idle))
    | inr busy ↦
        rw busy
          (widen_ask e _ (scan_up-Lowest s.levels v shows _ (removed + 1) count (omega arith)))
  ]

  -- After the best level has emptied, the search finds the best price that is left, and none only
  -- if the side holds no order; the levels and the count stay.
  pub update_best-IsBest :
      (side : Side)
      → removed < count
      → Emptied side v removed
      → let s' = update_best_after_removal side count s removed in
        IsBest side v s'.best × (s'.levels ≡ s.levels) × (s'.active_orders ≡ s.active_orders)
  unfolding update_best_after_removal update_best_bid_after_removal update_best_ask_after_removal
  update_best-IsBest buy inside e = (bid_best e, refl, refl)
  update_best-IsBest sell inside e = (ask_best inside e, refl, refl)
