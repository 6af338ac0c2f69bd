-- ===== src/Base/Runs.antt =====
-- The outcome of code that can go wrong: `fault` stands for undefined behaviour, such as a null
-- dereference, and `out_of_fuel` for a loop that was given too few rounds.

pub data Run (A : Type 0) : Type 0 where
  ok : A → Run A
  fault : Run A
  out_of_fuel : Run A

infixl 5 ◌>>=◌
abbrev pub ◌>>=◌ : {A B : Type 0} → Run A → (A → Run B) → Run B
ok a >>= f = f a
fault >>= f = fault
out_of_fuel >>= f = out_of_fuel

-- The run ends with a result that meets the postcondition.
abbrev pub Returns : {A : Type 0} → (A → Type 0) → Run A → Type 0
Returns P (ok a) = P a
Returns P fault = ⊥
Returns P out_of_fuel = ⊥

pub Returns-map :
    {A : Type 0} {P Q : A → Type 0} (m : Run A) → ((x : A) → P x → Q x) → Returns P m → Returns Q m
Returns-map (ok x) f p = f x p
Returns-map fault f p = elim p [ ]
Returns-map out_of_fuel f p = elim p [ ]

pub Returns-bind :
    {A B : Type 0} (P : A → Type 0) (Q : B → Type 0) (m : Run A) (f : A → Run B)
    → ((x : A) → P x → Returns Q (f x))
    → Returns P m
    → Returns Q (m >>= f)
Returns-bind P Q (ok x) f step p = step x p
Returns-bind P Q fault f step p = elim p [ ]
Returns-bind P Q out_of_fuel f step p = elim p [ ]

-- std::expected
pub data Expected (A E : Type 0) : Type 0 where
  value : A → Expected A E
  unexpected : E → Expected A E
