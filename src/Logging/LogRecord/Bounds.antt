-- ===== src/Logging/LogRecord/Bounds.antt =====
-- What an inline string keeps of a text.
use sixchange.Base.{
  ℕ, zero, suc, ◌≡◌, ◌≤◌, ◌<◌, ◌⊎◌, inl, inr, refl, ap, Bool-cases, true, false, [], ◌∷◌, ◌++◌,
  Bytes, take, drop, length, ltb, ltb→lt, not_ltb→le, arith,
}
use sixchange.Logging.LogRecord.{InlineString, make_inline_string}

take_all : (s : Bytes) → take (length s) s ≡ s
take_all [] = refl
take_all (c ∷ s) = ap (λ t. c ∷ t) (take_all s)

take-drop : (n : ℕ) (s : Bytes) → s ≡ take n s ++ drop n s
take-drop zero s = refl
take-drop (suc n) [] = refl
take-drop (suc n) (c ∷ s) = ap (λ t. c ∷ t) (take-drop n s)

length-take : (n : ℕ) (s : Bytes) → n ≤ length s → length (take n s) ≡ n
length-take zero s h = refl
length-take (suc n) [] h = absurd (omega arith)
length-take (suc n) (c ∷ s) h = omega (arith, length-take n s (omega (arith, h)))

-- The inline string of a text: all of it, not marked as truncated, or its first bytes, as many as
-- fit, marked as truncated.
abbrev pub IsInline : (capacity : ℕ) → Bytes → InlineString → Type 0
IsInline capacity value s =
    ((length value ≤ capacity) × (s.view ≡ value) × (s.truncated ≡ false))
    ⊎ ((capacity < length value)
        × (length s.view ≡ capacity)
        × ((rest : Bytes) × (value ≡ s.view ++ rest))
        × (s.truncated ≡ true))

-- An inline string keeps a text that fits, and of a longer text exactly as many first bytes as its
-- capacity; it is marked as truncated exactly for the longer ones.
pub make_inline_string-IsInline :
    (capacity : ℕ) (value : Bytes) → IsInline capacity value (make_inline_string capacity value)
unfolding make_inline_string
make_inline_string-IsInline capacity value = elim (Bool-cases (ltb capacity (length value))) [
  | inr fits ↦ rw fits (inl (not_ltb→le capacity (length value) fits, take_all value, refl))
  | inl long ↦
      let lt = ltb→lt capacity (length value) long in
      rw long (
        inr (
          lt,
          length-take capacity value (omega arith),
          (drop capacity value, take-drop capacity value),
          refl,
        ))
]
