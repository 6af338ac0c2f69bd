-- ===== src/Base/Texts.antt =====
-- Texts as lists of bytes, and what the program uses of std::string_view and of the decimal
-- conversions std::from_chars and std::to_string for 64-bit numbers.
use Prim.Native.Nat.{ℕ, zero, suc, ◌+◌, ◌-◌, ◌*◌, ◌/◌, ◌%◌, ◌^◌}
use Prim.Native.Char.{code}
use Prim.Native.String.{String}
use mathlib.Core.Path.{◌≡◌, refl}
use mathlib.Core.Bool.{Bool, true, false, ◌&&◌}
use mathlib.Core.Option.{Option, none, some}
use mathlib.Core.List.{List, [], ◌∷◌}
use native.Mathlib.Omega.{arith}
use sixchange.Base.Tests.{leb, ltb, ◌==◌, if◌then◌else◌, ==-refl}

abbrev pub Bytes : Type 0
Bytes = List ℕ

-- The bytes of an ASCII literal.
abbrev pub codes : String → Bytes
codes String.[] = []
codes (String.◌∷◌ c s) = code c ∷ codes s

-- Equality of texts.
abbrev pub same : Bytes → Bytes → Bool
same [] [] = true
same [] (d ∷ t) = false
same (c ∷ s) [] = false
same (c ∷ s) (d ∷ t) = c == d && same s t

pub same→eq : (s t : Bytes) → same s t ≡ true → s ≡ t
same→eq [] [] e = refl
same→eq [] (d ∷ t) e = cc
same→eq (c ∷ s) [] e = cc
same→eq (c ∷ s) (d ∷ t) e = ground (arith, same→eq s t)

pub same_refl : (s : Bytes) → same s s ≡ true
same_refl [] = refl
same_refl (c ∷ s) = rw (==-refl c) (same_refl s)

abbrev pub take : ℕ → Bytes → Bytes
take zero s = []
take (suc n) [] = []
take (suc n) (c ∷ s) = c ∷ take n s

abbrev pub drop : ℕ → Bytes → Bytes
drop zero s = s
drop (suc n) [] = []
drop (suc n) (c ∷ s) = drop n s

abbrev pub shifted : Option ℕ → Option ℕ
shifted none = none
shifted (some n) = some (suc n)

-- The index of the first byte that passes the test, `none` for npos.
unfoldable pub find_if : (ℕ → Bool) → Bytes → Option ℕ
find_if test [] = none
find_if test (c ∷ s) = if test c then some 0 else shifted (find_if test s)

abbrev pub is_digit : ℕ → Bool
is_digit c = leb b'0' c && leb c b'9'

-- The number that a run of digits adds to `acc`, and what follows the run.
unfoldable pub read_digits : (acc : ℕ) → Bytes → ℕ × Bytes
read_digits acc [] = (acc, [])
read_digits acc (c ∷ s) = if is_digit c then read_digits (acc * 10 + (c - b'0')) s else (acc, c ∷ s)

pub data Errc : Type 0 where
  success invalid_argument result_out_of_range : Errc

-- The outcome of std::from_chars: `after` is the text from `ptr` on.
pub record FromChars : Type 0 where
  pub error : Errc
  pub number : ℕ
  pub after : Bytes

abbrev pub converted : ℕ × Bytes → FromChars
converted (n, after) =
    if ltb n (2 ^ 64)
    then record { error = success; number = n; after = after }
    else record { error = result_out_of_range; number = 0; after = after }

-- std::from_chars for a 64-bit unsigned number.
unfoldable pub from_chars : Bytes → FromChars
from_chars [] = record { error = invalid_argument; number = 0; after = [] }
from_chars (c ∷ s) =
    if is_digit c
    then converted (read_digits 0 (c ∷ s))
    else record { error = invalid_argument; number = 0; after = c ∷ s }

-- The digits of a number before `rest`, on fuel; a number below ten to the fuel is written out.
unfoldable pub write_digits : (fuel n : ℕ) → (rest : Bytes) → Bytes
write_digits zero n rest = rest
write_digits (suc fuel) n rest =
    let more = write_digits fuel (n / 10) ((b'0' + n % 10) ∷ rest) in
    if n / 10 == 0 then (b'0' + n % 10) ∷ rest else more

-- std::to_string for a 64-bit unsigned number, which has twenty digits at most.
unfoldable pub to_string : ℕ → Bytes
unfolding write_digits
to_string n = write_digits 20 n []

to_string_tests : (to_string 0 ≡ codes "0") × (to_string 1_020 ≡ codes "1020")
unfolding to_string
to_string_tests = (refl, refl)
