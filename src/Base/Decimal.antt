-- ===== src/Base/Decimal.antt =====
-- Decimal numerals: what the conversions accept and write.
use Prim.Native.Nat.{ℕ, zero, suc, ◌+◌, ◌-◌, ◌*◌, ◌/◌, ◌%◌, ◌^◌, ◌<◌}
use mathlib.Core.Path.{◌≡◌, refl, sym, ap, ◌∙◌}
use mathlib.Core.Logic.{◌≢◌, inl, inr}
use mathlib.Core.Bool.{true}
use mathlib.Core.List.{[], ◌∷◌}
use native.Mathlib.Omega.{arith}
use sixchange.Base.Tests.{==→eq, ltb, ◌==◌, Bool-cases, lt→ltb, ltb→lt}
use sixchange.Base.Lists.{All}
use sixchange.Base.Texts.{
  result_out_of_range, invalid_argument, converted, Bytes, is_digit, read_digits, success,
  from_chars, write_digits, to_string,
}

-- The number that a text of digits stands for, after `acc`.
unfoldable pub decimal : (acc : ℕ) → Bytes → ℕ
decimal acc [] = acc
decimal acc (c ∷ s) = decimal (acc * 10 + (c - b'0')) s

-- A numeral of a 64-bit number.
pub record IsNumeral (s : Bytes) (n : ℕ) : Type 0 where
  pub digits : All (λ c. is_digit c ≡ true) s
  pub nonempty : s ≢ []
  pub number : decimal 0 s ≡ n
  pub in_word : n < 2 ^ 64

read_digits-decimal :
    (acc : ℕ) (s : Bytes) → All (λ c. is_digit c ≡ true) s → read_digits acc s ≡ (decimal acc s, [])
unfolding read_digits decimal
read_digits-decimal acc [] all = refl
read_digits-decimal acc (c ∷ s) all = rw all.0 (read_digits-decimal (acc * 10 + (c - b'0')) s all.1)

All-digits : (acc : ℕ) (s : Bytes) → (read_digits acc s).1 ≡ [] → All (λ c. is_digit c ≡ true) s
unfolding read_digits
All-digits acc [] e = tt
All-digits acc (c ∷ s) e = elim (Bool-cases (is_digit c)) [
  | inl digit ↦ (digit, All-digits (acc * 10 + (c - b'0')) s (rw digit at e))
  | inr other ↦ let clash : c ∷ s ≡ [] = rw other at e in cc
]

-- std::from_chars reads the whole of a numeral, and only of a numeral.
pub from_chars-IsNumeral :
    {s : Bytes} {n : ℕ}
    → IsNumeral s n
    → from_chars s ≡ record { error = success; number = n; after = [] }
unfolding from_chars
from_chars-IsNumeral {s = []} k = absurd (k.nonempty refl)
from_chars-IsNumeral {s = c ∷ s} {n} k =
    rw (k.digits.0, read_digits-decimal 0 (c ∷ s) k.digits, k.number, lt→ltb n (2 ^ 64) k.in_word)

converted-IsNumeral :
    (s : Bytes) (r : ℕ × Bytes)
    → s ≢ []
    → read_digits 0 s ≡ r
    → (converted r).error ≡ success
    → (converted r).after ≡ []
    → IsNumeral s (converted r).number
converted-IsNumeral s (n, after) ne e ok end = elim (Bool-cases (ltb n (2 ^ 64))) [
  | inl fits ↦
      let all : All (λ c. is_digit c ≡ true) s =
        All-digits 0 s (ap (λ r. r.1) e ∙ (rw fits at end)) in
      rw fits (record {
        digits = all;
        nonempty = ne;
        number = ap (λ r. r.0) (sym (read_digits-decimal 0 s all) ∙ e);
        in_word = ltb→lt n (2 ^ 64) fits;
      })
  | inr over ↦ let clash : result_out_of_range ≡ success = rw over at ok in cc
]

pub IsNumeral-from_chars :
    (s : Bytes)
    → (from_chars s).error ≡ success
    → (from_chars s).after ≡ []
    → IsNumeral s (from_chars s).number
unfolding from_chars
IsNumeral-from_chars [] e a = cc
IsNumeral-from_chars (c ∷ s) e a = elim (Bool-cases (is_digit c)) [
  | inl digit ↦ rw digit (
      converted-IsNumeral (c ∷ s) (read_digits 0 (c ∷ s)) (λ h. cc) refl (rw digit at e)
        (rw digit at a))
  | inr other ↦ let clash : invalid_argument ≡ success = rw other at e in cc
]

abbrev tens : ℕ → ℕ
tens zero = 1
tens (suc k) = tens k * 10

write_digits-decimal :
    (fuel n : ℕ) (rest : Bytes)
    → n < tens fuel
    → decimal 0 (write_digits fuel n rest) ≡ decimal n rest
unfolding write_digits decimal
write_digits-decimal zero n rest h = let e : n ≡ 0 = omega arith in rw e
write_digits-decimal (suc fuel) n rest h = elim (Bool-cases (n / 10 == 0)) [
  | inl last ↦
      let e : 0 + (48 + n % 10 - 48) ≡ n = omega (arith, ==→eq (n / 10) 0 last) in
      rw last (ap (λ k. decimal k rest) e)
  | inr more ↦
      let e : n / 10 * 10 + (48 + n % 10 - 48) ≡ n = omega arith in
      rw more (
        write_digits-decimal fuel (n / 10) ((48 + n % 10) ∷ rest) (omega arith)
        ∙ ap (λ k. decimal k rest) e)
]

All-write_digits :
    (fuel n : ℕ) (rest : Bytes)
    → All (λ c. is_digit c ≡ true) rest
    → All (λ c. is_digit c ≡ true) (write_digits fuel n rest)
unfolding write_digits
All-write_digits zero n rest all = all
All-write_digits (suc fuel) n rest all =
    let digit : is_digit (48 + n % 10) ≡ true = ground arith in
    elim (Bool-cases (n / 10 == 0)) [
      | inl last ↦ rw last (digit, all)
      | inr more ↦ rw more (All-write_digits fuel (n / 10) ((48 + n % 10) ∷ rest) (digit, all))
    ]

write_digits-nonempty : (fuel n : ℕ) (c : ℕ) (rest : Bytes) → write_digits fuel n (c ∷ rest) ≢ []
unfolding write_digits
write_digits-nonempty zero n c rest = λ e. cc
write_digits-nonempty (suc fuel) n c rest = elim (Bool-cases (n / 10 == 0)) [
  | inl last ↦ rw last (λ e. cc)
  | inr more ↦ rw more (write_digits-nonempty fuel (n / 10) (48 + n % 10) (c ∷ rest))
]

-- std::to_string writes a numeral.
pub to_string-IsNumeral : (n : ℕ) → n < 2 ^ 64 → IsNumeral (to_string n) n
unfolding to_string decimal
to_string-IsNumeral n h = record {
  digits = All-write_digits 20 n [] tt;
  nonempty = elim (Bool-cases (n / 10 == 0)) [
    | inl last ↦ rw last (λ e. cc)
    | inr more ↦ rw more (write_digits-nonempty 19 (n / 10) (48 + n % 10) [])
  ];
  number = write_digits-decimal 20 n [] (omega arith);
  in_word = h;
}

-- Different numbers have different numerals.
pub to_string_inj : (n m : ℕ) → n < 2 ^ 64 → m < 2 ^ 64 → to_string n ≡ to_string m → n ≡ m
to_string_inj n m hn hm e =
    sym (to_string-IsNumeral n hn).number ∙ ap (decimal 0) e ∙ (to_string-IsNumeral m hm).number
