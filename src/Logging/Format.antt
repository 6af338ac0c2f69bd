-- ===== src/Logging/Format.antt =====
-- The text of a log record: src/logging/AsyncFileLogger.cpp. What is written is appended to a text;
-- how a stream writes a double is a parameter, `float_text`.
pub mod Totality
pub mod Pieces
mod Examples
use sixchange.Base.{
  ◌&&◌, ℕ, zero, suc, ◌+◌, ◌*◌, ◌-◌, ◌%◌, ◌^◌, Bool, true, false, not, Option, none, some, List, [],
  ◌∷◌, ◌++◌, Bytes, codes, get_elem?, take, drop, find_if, is_digit, to_string, length, ltb, leb,
  ◌==◌, if◌then◌else◌, Run, ok, out_of_fuel, ◌>>=◌,
}
use sixchange.Logging.LogRecord.{
  LogLevel, to_underlying, LogArgument, InlineString, ℤ, pos, negsuc, int64, uint64, float64,
  boolean, inline, LogRecord,
}

-- The loop of `parse_argument_index`.
unfoldable pub read_index : (result : ℕ) → Bytes → Option ℕ
read_index result [] = some result
read_index result (c ∷ s) =
    let rest = read_index ((result * 10 + (c - b'0')) % 2 ^ 64) s in
    if not (is_digit c) then none else rest

unfoldable pub parse_argument_index : Bytes → Option ℕ
unfolding read_index
parse_argument_index [] = none
parse_argument_index (c ∷ s) = read_index 0 (c ∷ s)

unfoldable pub should_log : (minimum_level level : LogLevel) → Bool
should_log minimum_level level = leb (to_underlying minimum_level) (to_underlying level)

pub level_name : LogLevel → Bytes
level_name LogLevel.trace = codes "TRACE"
level_name LogLevel.debug = codes "DEBUG"
level_name LogLevel.info = codes "INFO"
level_name LogLevel.warning = codes "WARNING"
level_name LogLevel.error = codes "ERROR"
level_name LogLevel.critical = codes "CRITICAL"

-- What one round of the loop of `write_formatted_message` writes, what it leaves of the format, and
-- the next automatic index.
pub record Round : Type 0 where
  pub written : Bytes
  pub remaining : Bytes
  pub automatic_index : ℕ

abbrev pub starts_with : ℕ → Bytes → Bool
starts_with c [] = false
starts_with c (d ∷ s) = d == c

-- The argument that a placeholder is for, and the next automatic index.
unfoldable pub argument_index : Bytes → (automatic_index : ℕ) → Option ℕ × ℕ
unfolding parse_argument_index
argument_index [] automatic_index = (some automatic_index, automatic_index + 1)
argument_index (c ∷ s) automatic_index = (parse_argument_index (c ∷ s), automatic_index)

module _ {D : Type 0} (float_text : D → Bytes) where
  unfoldable pub write_argument : LogArgument D → Bytes
  write_argument (int64 (pos n)) = to_string n
  write_argument (int64 (negsuc n)) = b'-' ∷ to_string (n + 1)
  write_argument (uint64 n) = to_string n
  write_argument (float64 x) = float_text x
  write_argument (boolean value) = if value then codes "true" else codes "false"
  write_argument (inline value) = value.view ++ (if value.truncated then codes "..." else [])

  -- The argument, or the placeholder as it stands.
  unfoldable pub substitute : List (LogArgument D) → (placeholder : Bytes) → Option ℕ → Bytes
  unfolding write_argument
  substitute arguments placeholder none = b'{' ∷ placeholder ++ b'}' ∷ []
  substitute arguments placeholder (some index) = elim (get_elem? arguments index) [
    | none ↦ b'{' ∷ placeholder ++ b'}' ∷ []
    | some argument ↦ write_argument argument
  ]

  -- After an opening brace that is not doubled, with the index of the next closing brace.
  unfoldable pub replace_field : List (LogArgument D) → Bytes → ℕ → Option ℕ → Round
  unfolding argument_index substitute
  replace_field arguments rest automatic_index none = record {
    written = b'{' ∷ rest;
    remaining = [];
    automatic_index = automatic_index;
  }
  replace_field arguments rest automatic_index (some closing) =
      let (index, next) = argument_index (take closing rest) automatic_index in
      record {
        written = substitute arguments (take closing rest) index;
        remaining = drop (suc closing) rest;
        automatic_index = next;
      }

  unfoldable pub round : List (LogArgument D) → (c : ℕ) → Bytes → (automatic_index : ℕ) → Round
  unfolding replace_field
  round arguments c rest automatic_index =
      if c == b'{'
      then (if starts_with b'{' rest
          then record {
            written = b'{' ∷ [];
            remaining = drop 1 rest;
            automatic_index = automatic_index;
          }
          else replace_field arguments rest automatic_index (find_if (λ d. d == b'}') rest))
      else if (c == b'}') && starts_with b'}' rest
      then record {
        written = b'}' ∷ [];
        remaining = drop 1 rest;
        automatic_index = automatic_index;
      }
      else record { written = c ∷ []; remaining = rest; automatic_index = automatic_index }

  -- The loop, on as many rounds as `fuel`.
  unfoldable pub write_from : (fuel : ℕ) → List (LogArgument D) → Bytes → ℕ → Run Bytes
  unfolding round
  write_from fuel arguments [] automatic_index = ok []
  write_from zero arguments (c ∷ rest) automatic_index = out_of_fuel
  write_from (suc fuel) arguments (c ∷ rest) automatic_index =
      let r = round arguments c rest automatic_index in
      write_from fuel arguments r.remaining r.automatic_index >>= λ later. ok (r.written ++ later)

  unfoldable pub write_formatted_message : Bytes → List (LogArgument D) → Run Bytes
  unfolding write_from
  write_formatted_message format arguments = write_from (length format) arguments format 0
