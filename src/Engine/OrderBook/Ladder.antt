-- ===== src/Engine/OrderBook/Ladder.antt =====
-- The ladder of the crossing prices begins with the queue of the best price.
use sixchange.Base.{
  ℕ, zero, suc, ◌+◌, ◌-◌, ◌≤◌, ◌<◌, ◌≡◌, ◌≢◌, refl, ap, ◌∙◌, inl, inr, true, false, Option, none,
  some, List, [], ◌++◌, arith, leb, leb→le, not_leb→lt, le→leb, All, All-append, eq_or_ne,
  Bool-cases,
}
use sixchange.Core.Enums.{Side, buy, sell}
use sixchange.Engine.OrderBook.Contents.{Contents, IsBest}
use sixchange.Engine.OrderBook.PriceTime.{ladder, up, down}
use sixchange.Engine.OrderBook.Matching.{crosses}

up-agree :
    (v w : Contents) (from n : ℕ) → ((j : ℕ) → from ≤ j → w j ≡ v j) → up w from n ≡ up v from n
unfolding up
up-agree v w from zero same = refl
up-agree v w from (suc n) same =
    rw (same from (omega arith))
      (ap (◌++◌ (v from)) (up-agree v w (from + 1) n (λ j h. same j (omega arith))))

down-agree :
    (v w : Contents) (n limit : ℕ) → ((j : ℕ) → j < n → w j ≡ v j) → down w n limit ≡ down v n limit
unfolding down
down-agree v w zero limit same = refl
down-agree v w (suc n) limit same =
    rw (same n (omega arith), down-agree v w n limit (λ j h. same j (omega arith)))

up-best :
    (v w : Contents) (b from n to : ℕ)
    → from + n ≡ to
    → from ≤ b
    → b < to
    → ((j : ℕ) → j < b → v j ≡ [])
    → ((j : ℕ) → j ≢ b → w j ≡ v j)
    → up w from n ≡ w b ++ up v (b + 1) (to - (b + 1))
unfolding up
up-best v w b from zero to end low high none_below same = absurd (omega arith)
up-best v w b from (suc n) to end low high none_below same = elim (eq_or_ne from b) [
  | inl e ↦
      let rounds : n ≡ to - (b + 1) = omega arith in
      rw e (
        ap (◌++◌ (w b))
          (up-agree v w (b + 1) n (λ j h. same j (omega arith)) ∙ ap (up v (b + 1)) rounds))
  | inr ne ↦
      rw (same from ne ∙ none_below from (omega arith))
        (up-best v w b (from + 1) n to (omega arith) (omega arith) high none_below same)
]

down-best :
    (v w : Contents) (b n limit : ℕ)
    → limit ≤ b
    → b < n
    → ((j : ℕ) → b < j → v j ≡ [])
    → ((j : ℕ) → j ≢ b → w j ≡ v j)
    → down w n limit ≡ w b ++ down v b limit
unfolding down
down-best v w b zero limit low high none_above same = absurd (omega arith)
down-best v w b (suc n) limit low high none_above same = elim (eq_or_ne n b) [
  | inl e ↦
      rw (le→leb limit n (omega arith), e)
        (ap (◌++◌ (w b)) (down-agree v w b limit (λ j h. same j (omega arith))))
  | inr ne ↦
      rw (le→leb limit n (omega arith), same n ne ∙ none_above n (omega arith))
        (down-best v w b n limit low (omega arith) none_above same)
]

up-nil : (v : Contents) (from n : ℕ) → ((j : ℕ) → j < from + n → v j ≡ []) → up v from n ≡ []
unfolding up
up-nil v from zero all = refl
up-nil v from (suc n) all =
    rw (all from (omega arith)) (up-nil v (from + 1) n (λ j h. all j (omega arith)))

down-nil : (v : Contents) (n limit : ℕ) → ((j : ℕ) → limit ≤ j → v j ≡ []) → down v n limit ≡ []
unfolding down
down-nil v zero limit all = refl
down-nil v (suc n) limit all = elim (Bool-cases (leb limit n)) [
  | inl in_reach ↦ rw (in_reach, all n (leb→le limit n in_reach)) (down-nil v n limit all)
  | inr out ↦ rw out
]

-- What follows the queue of the best price `b` on the ladder.
pub behind_best : Side → (price b : ℕ) → Contents → List ℕ
unfolding up down
behind_best sell price b v = up v (b + 1) (price + 1 - (b + 1))
behind_best buy price b v = down v b price

-- A best price that is crossed heads the ladder, also after its own queue has changed.
pub ladder-best :
    (side : Side) (count price b : ℕ) (v w : Contents)
    → IsBest side v (some b)
    → b < count
    → crosses side price (some b) ≡ true
    → ((j : ℕ) → j ≢ b → w j ≡ v j)
    → ladder side count price w ≡ w b ++ behind_best side price b v
unfolding ladder behind_best crosses
ladder-best sell count price b v w best inside meets same =
    let reach : b ≤ price = leb→le b price meets in
    up-best v w b 0 (price + 1) (price + 1) (omega arith) (omega arith) (omega arith) best.1 same
ladder-best buy count price b v w best inside meets same =
    down-best v w b count price (leb→le price b meets) inside best.1 same

-- If the best price is not crossed the ladder is empty.
pub ladder-nil :
    (side : Side) (count price : ℕ) (o : Option ℕ) (v : Contents)
    → IsBest side v o
    → crosses side price o ≡ false
    → ladder side count price v ≡ []
unfolding ladder crosses
ladder-nil sell count price none v best apart = up-nil v 0 (price + 1) (λ j h. best j)
ladder-nil buy count price none v best apart = down-nil v count price (λ j h. best j)
ladder-nil sell count price (some b) v best apart =
    up-nil v 0 (price + 1) (λ j h. best.1 j (omega (arith, not_leb→lt b price apart)))
ladder-nil buy count price (some b) v best apart =
    down-nil v count price (λ j h. best.1 j (omega (arith, not_leb→lt price b apart)))

-- What holds of the orders of every level holds of those of the ladder.
pub All-ladder :
    (P : ℕ → Type 0) (side : Side) (count price : ℕ) (v : Contents)
    → ((j : ℕ) → All P (v j))
    → All P (ladder side count price v)
unfolding ladder
All-ladder P sell count price v all = All-up 0 (price + 1)
  where
    All-up : (from n : ℕ) → All P (up v from n)
    All-up from zero = tt
    All-up from (suc n) = All-append P (v from) (up v (from + 1) n) (all from) (All-up (from + 1) n)
All-ladder P buy count price v all = All-down count
  where
    All-down : (n : ℕ) → All P (down v n price)
    All-down zero = tt
    All-down (suc n) = elim (Bool-cases (leb price n)) [
      | inl in_reach ↦ rw in_reach (All-append P (v n) (down v n price) (all n) (All-down n))
      | inr out ↦ rw out tt
    ]
