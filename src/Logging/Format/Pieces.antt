-- ===== src/Logging/Format/Pieces.antt =====
-- Formats by their parts, and what is written for them.
use sixchange.Base.{
  ℕ, zero, suc, ◌+◌, ◌*◌, ◌-◌, ◌%◌, ◌^◌, ◌≤◌, ◌<◌, ◌≡◌, refl, ap, ◌∙◌, true, false, Option, some,
  none, get_elem?, if◌then◌else◌, List, [], ◌∷◌, ◌++◌, Bytes, codes, take, drop, find_if, is_digit,
  to_string, to_string-IsNumeral, decimal, IsNumeral, All, length, length-append, ◌==◌, arith, ok,
}
use mathlib.Core.List.{append_assoc}
use sixchange.Logging.LogRecord.{LogArgument, pos, negsuc, int64, uint64, float64, boolean, inline}
use sixchange.Logging.Format.{
  Round, round, replace_field, read_index, parse_argument_index, argument_index, substitute,
  write_argument, write_from, write_formatted_message,
}

-- A byte that is no brace, a doubled brace, and a field without or with a number.
pub data Piece : Type 0 where
  literal : ℕ → Piece
  open_brace : Piece
  close_brace : Piece
  automatic : Piece
  numbered : ℕ → Piece

abbrev pub first : Piece → ℕ
first (literal c) = c
first open_brace = b'{'
first close_brace = b'}'
first automatic = b'{'
first (numbered i) = b'{'

abbrev pub others : Piece → Bytes
others (literal c) = []
others open_brace = b'{' ∷ []
others close_brace = b'}' ∷ []
others automatic = b'}' ∷ []
others (numbered i) = to_string i ++ b'}' ∷ []

abbrev pub format_of : List Piece → Bytes
format_of [] = []
format_of (p ∷ ps) = first p ∷ others p ++ format_of ps

-- A literal is no brace, and a number is a word.
abbrev pub IsPiece : Piece → Type 0
IsPiece (literal c) = ((c == b'{') ≡ false) × ((c == b'}') ≡ false)
IsPiece open_brace = Unit
IsPiece close_brace = Unit
IsPiece automatic = Unit
IsPiece (numbered i) = i < 2 ^ 64

decimal-ge : (acc : ℕ) (s : Bytes) → acc ≤ decimal acc s
unfolding decimal
decimal-ge acc [] = omega arith
decimal-ge acc (c ∷ s) = omega (arith, decimal-ge (acc * 10 + (c - b'0')) s)

-- No index in a word wraps.
read_index-decimal :
    (acc : ℕ) (s : Bytes)
    → All (λ c. is_digit c ≡ true) s
    → decimal acc s < 2 ^ 64
    → read_index acc s ≡ some (decimal acc s)
unfolding read_index decimal
read_index-decimal acc [] all small = refl
read_index-decimal acc (c ∷ s) all small =
    let next = acc * 10 + (c - b'0') in
    let same : next % 2 ^ 64 ≡ next = omega (arith, decimal-ge next s, small) in
    rw (all.0, same) (read_index-decimal next s all.1 small)

-- A field's text up to its closing brace.
closing-digits :
    (s rest : Bytes)
    → All (λ c. is_digit c ≡ true) s
    → find_if (λ d. d == b'}') (s ++ b'}' ∷ rest) ≡ some (length s)
unfolding find_if
closing-digits [] rest all = refl
closing-digits (c ∷ s) rest all =
    let other : (c == b'}') ≡ false = ground (arith, all.0) in
    rw (other, closing-digits s rest all.1)

take-append : (s rest : Bytes) → take (length s) (s ++ rest) ≡ s
take-append [] rest = refl
take-append (c ∷ s) rest = ap (λ t. c ∷ t) (take-append s rest)

drop-append : (s : Bytes) (c : ℕ) (rest : Bytes) → drop (suc (length s)) (s ++ c ∷ rest) ≡ rest
drop-append [] c rest = refl
drop-append (d ∷ s) c rest = drop-append s c rest

-- An argument's text: a number in decimal, a truth value as its word, a double as its stream writes
-- it, and a text as it is, with three dots behind it where it was cut.
abbrev pub text_of : {D : Type 0} → (D → Bytes) → LogArgument D → Bytes
text_of float_text (int64 (pos n)) = to_string n
text_of float_text (int64 (negsuc n)) = codes "-" ++ to_string (n + 1)
text_of float_text (uint64 n) = to_string n
text_of float_text (float64 x) = float_text x
text_of float_text (boolean true) = codes "true"
text_of float_text (boolean false) = codes "false"
text_of float_text (inline value) = value.view ++ (if value.truncated then codes "..." else [])

module _ {D : Type 0} (float_text : D → Bytes) (arguments : List (LogArgument D)) where
  -- What is written for a field: the argument of its number, or the field itself, braces and all.
  abbrev pub field_text : (number : Bytes) → (index : ℕ) → Bytes
  field_text number index = elim (get_elem? arguments index) [
    | none ↦ codes "{" ++ number ++ codes "}"
    | some argument ↦ text_of float_text argument
  ]

  write_argument-text_of :
      (argument : LogArgument D) → write_argument float_text argument ≡ text_of float_text argument
  unfolding write_argument
  write_argument-text_of (int64 (pos n)) = refl
  write_argument-text_of (int64 (negsuc n)) = refl
  write_argument-text_of (uint64 n) = refl
  write_argument-text_of (float64 x) = refl
  write_argument-text_of (boolean true) = refl
  write_argument-text_of (boolean false) = refl
  write_argument-text_of (inline value) = refl

  substitute-field_text :
      (number : Bytes) (index : ℕ)
      → substitute float_text arguments number (some index) ≡ field_text number index
  unfolding substitute
  substitute-field_text number index = by_argument (get_elem? arguments index)
    where
      by_argument :
          (found : Option (LogArgument D))
          → elim found [
            | none ↦ b'{' ∷ number ++ b'}' ∷ []
            | some argument ↦ write_argument float_text argument
          ]
            ≡ elim found [
              | none ↦ codes "{" ++ number ++ codes "}"
              | some argument ↦ text_of float_text argument
            ]
      by_argument none = refl
      by_argument (some argument) = write_argument-text_of argument

  -- What is written for a piece, and the next automatic index.
  abbrev pub expanded : Piece → (automatic_index : ℕ) → Bytes × ℕ
  expanded (literal c) n = (c ∷ [], n)
  expanded open_brace n = (codes "{", n)
  expanded close_brace n = (codes "}", n)
  expanded automatic n = (field_text [] n, n + 1)
  expanded (numbered i) n = (field_text (to_string i) i, n)

  abbrev pub expand : List Piece → (automatic_index : ℕ) → Bytes
  expand [] n = []
  expand (p ∷ ps) n = (expanded p n).0 ++ expand ps (expanded p n).1

  argument_index-IsNumeral :
      (s : Bytes) (i n : ℕ) → IsNumeral s i → argument_index s n ≡ (some i, n)
  unfolding argument_index parse_argument_index
  argument_index-IsNumeral [] i n k = absurd (k.nonempty refl)
  argument_index-IsNumeral (c ∷ s) i n k =
      ap (λ o. (o, n))
        (read_index-decimal 0 (c ∷ s) k.digits (omega (arith, k.number, k.in_word))
          ∙ ap some k.number)

  abbrev replaced : Bytes → Option ℕ × ℕ → Bytes → Round
  replaced placeholder (index, next) remaining = record {
    written = substitute float_text arguments placeholder index;
    remaining = remaining;
    automatic_index = next;
  }

  replace_numbered :
      (i n : ℕ) (s rest : Bytes)
      → IsNumeral s i
      → replace_field float_text arguments (s ++ b'}' ∷ rest) n (some (length s))
        ≡ replaced s (some i, n) rest
  unfolding replace_field
  replace_numbered i n s rest k =
      ap (λ t. replaced t (argument_index t n) (drop (suc (length s)) (s ++ b'}' ∷ rest)))
        (take-append s (b'}' ∷ rest))
      ∙ ap (λ o. replaced s o (drop (suc (length s)) (s ++ b'}' ∷ rest)))
          (argument_index-IsNumeral s i n k)
      ∙ ap (replaced s (some i, n)) (drop-append s b'}' rest)

  round-numbered :
      (i n : ℕ) (s rest : Bytes)
      → IsNumeral s i
      → round float_text arguments b'{' (s ++ b'}' ∷ rest) n ≡ replaced s (some i, n) rest
  unfolding round
  round-numbered i n [] rest k = absurd (k.nonempty refl)
  round-numbered i n (c ∷ s) rest k =
      let single : (c == b'{') ≡ false = ground (arith, k.digits.0) in
      rw single (
        ap (replace_field float_text arguments (c ∷ s ++ b'}' ∷ rest) n)
          (closing-digits (c ∷ s) rest k.digits)
        ∙ replace_numbered i n (c ∷ s) rest k)

  round-piece :
      (p : Piece) (rest : Bytes) (n : ℕ)
      → IsPiece p
      → round float_text arguments (first p) (others p ++ rest) n ≡ record {
        written = (expanded p n).0;
        remaining = rest;
        automatic_index = (expanded p n).1;
      }
  unfolding round replace_field find_if argument_index
  round-piece (literal c) rest n k = rw (k.0, k.1)
  round-piece open_brace rest n k = refl
  round-piece close_brace rest n k = refl
  round-piece automatic rest n k =
      ap (λ t. record { written = t; remaining = rest; automatic_index = n + 1 })
        (substitute-field_text [] n)
  round-piece (numbered i) rest n k =
      ap (λ t. round float_text arguments b'{' t n) (append_assoc (to_string i) (b'}' ∷ []) rest)
      ∙ round-numbered i n (to_string i) rest (to_string-IsNumeral i k)
      ∙ ap (λ t. record { written = t; remaining = rest; automatic_index = n })
          (substitute-field_text (to_string i) i)

  write_from-format_of :
      (ps : List Piece) (n fuel : ℕ)
      → length (format_of ps) ≤ fuel
      → All IsPiece ps
      → write_from float_text fuel arguments (format_of ps) n ≡ ok (expand ps n)
  unfolding write_from
  write_from-format_of [] n fuel h all = refl
  write_from-format_of (p ∷ ps) n zero h all = absurd (omega arith)
  write_from-format_of (p ∷ ps) n (suc fuel) h all =
      let enough : length (format_of ps) ≤ fuel =
        omega (arith, h, length-append (others p) (format_of ps)) in
      rw (
        round-piece p (format_of ps) n all.0,
        write_from-format_of ps (expanded p n).1 fuel enough all.1,
      )

-- A format of literal bytes, doubled braces and fields is written with single braces for the doubled
-- ones, with the next argument for each field without a number and the argument of that number for
-- each other field, and with the field itself where there is no such argument. The literal bytes are
-- no braces, and the numbers are words.
pub write_formatted_message-format_of :
    {D : Type 0} (float_text : D → Bytes) (arguments : List (LogArgument D)) (pieces : List Piece)
    → All IsPiece pieces
    → write_formatted_message float_text (format_of pieces) arguments
      ≡ ok (expand float_text arguments pieces 0)
unfolding write_formatted_message
write_formatted_message-format_of float_text arguments pieces all =
    write_from-format_of float_text arguments pieces 0 (length (format_of pieces)) (omega arith) all
