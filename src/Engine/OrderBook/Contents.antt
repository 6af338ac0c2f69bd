-- ===== src/Engine/OrderBook/Contents.antt =====
-- What the levels of one side hold: a list of order addresses for each price, in time order.
use sixchange.Base.{
  All, Bool-cases, ℕ, zero, suc, ◌+◌, ◌≤◌, ◌<◌, ◌≡◌, ◌≢◌, refl, sym, ap, inl, inr, Bool, true,
  false, Option, none, some, List, [], ◌∷◌, arith, ◌==◌, if◌then◌else◌, length, eq_or_ne,
}
use sixchange.Core.Enums.{Side, buy, sell}

abbrev pub Contents : Type 0
Contents = ℕ → List ℕ

unfoldable pub assign : Contents → ℕ → List ℕ → Contents
assign v i xs j = if j == i then xs else v j

pub assign_self : (v : Contents) (i : ℕ) (xs : List ℕ) → assign v i xs i ≡ xs
unfolding assign
assign_self v i xs = ground arith

pub assign-ne : (v : Contents) (i j : ℕ) (xs : List ℕ) → j ≢ i → assign v i xs j ≡ v j
unfolding assign
assign-ne v i j xs ne = ground arith

-- The number of orders at the prices below `n`.
unfoldable pub total : ℕ → Contents → ℕ
total zero v = 0
total (suc n) v = length (v n) + total n v

pub total-nil : (n : ℕ) (v : Contents) → total n v ≡ 0 → (i : ℕ) → i < n → v i ≡ []
unfolding total
total-nil zero v e i h = elim h [ ]
total-nil (suc n) v e i h = elim (eq_or_ne i n) [
  | inl same ↦ rw same (nil_of_length (v n) (omega (arith, e)))
  | inr other ↦ total-nil n v (omega (arith, e)) i (omega arith)
]
  where
    nil_of_length : (xs : List ℕ) → length xs ≡ 0 → xs ≡ []
    nil_of_length [] z = refl
    nil_of_length (x ∷ xs) z = absurd (omega arith)

total-above :
    (n : ℕ) (v : Contents) (i : ℕ) (xs : List ℕ) → n ≤ i → total n (assign v i xs) ≡ total n v
unfolding total
total-above zero v i xs h = refl
total-above (suc n) v i xs h =
    omega (arith, total-above n v i xs (omega arith), ap length (assign-ne v i n xs (omega arith)))

pub total-assign :
    (n : ℕ) (v : Contents) (i : ℕ) (xs : List ℕ)
    → i < n
    → total n (assign v i xs) + length (v i) ≡ total n v + length xs
unfolding total
total-assign zero v i xs h = elim h [ ]
total-assign (suc n) v i xs h = elim (eq_or_ne i n) [
  | inl same ↦
      rw same (omega (arith, total-above n v n xs (omega arith), ap length (assign_self v n xs)))
  | inr other ↦ omega (
    arith,
    total-assign n v i xs (omega arith),
    ap length (assign-ne v i n xs (λ e. other (sym e))),
  )
]

-- The price `i` is better for its side than `b`.
abbrev pub Better : Side → (i b : ℕ) → Type 0
Better buy i b = b < i
Better sell i b = i < b

abbrev pub IsBest : Side → Contents → Option ℕ → Type 0
IsBest side v none = (i : ℕ) → v i ≡ []
IsBest side v (some b) = (v b ≢ []) × ((i : ℕ) → Better side i b → v i ≡ [])

abbrev pub is_nil : List ℕ → Bool
is_nil [] = true
is_nil (x ∷ xs) = false

pub nil_of_is_nil : (xs : List ℕ) → is_nil xs ≡ true → xs ≡ []
nil_of_is_nil [] e = refl
nil_of_is_nil (x ∷ xs) e = cc

pub ne_nil_of_is_nil : (xs : List ℕ) → is_nil xs ≡ false → xs ≢ []
ne_nil_of_is_nil [] e = cc
ne_nil_of_is_nil (x ∷ xs) e = λ h. cc

-- What holds of the orders at every price holds after one queue is replaced.
pub All-assign :
    (P : ℕ → Type 0) (v : Contents) (i : ℕ) (xs : List ℕ)
    → All P xs
    → ((j : ℕ) → All P (v j))
    → (j : ℕ) → All P (assign v i xs j)
unfolding assign
All-assign P v i xs own others j = elim (Bool-cases (j == i)) [
  | inl same ↦ rw same own
  | inr other ↦ rw other (others j)
]
