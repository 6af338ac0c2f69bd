-- ===== src/Logging/LogRecord.antt =====
-- src/logging/LogRecord.h and include/sixchange/logging/LogLevel.h: the level of a record, and its
-- arguments, captured by value. `D` stands for double. An inline string is the bytes of its view.
pub mod Bounds
mod Examples
use sixchange.Base.{
  ℕ, Bool, Option, none, some, List, map, Bytes, codes, take, length, ltb, if◌then◌else◌,
}

pub data LogLevel : Type 0 where
  trace debug info warning error critical : LogLevel

-- std::to_underlying
abbrev pub to_underlying : LogLevel → ℕ
to_underlying LogLevel.trace = 0
to_underlying LogLevel.debug = 1
to_underlying LogLevel.info = 2
to_underlying LogLevel.warning = 3
to_underlying LogLevel.error = 4
to_underlying LogLevel.critical = 5

pub record InlineString : Type 0 where
  pub view : Bytes
  pub truncated : Bool

abbrev pub maximum_inline_string_length : ℕ
maximum_inline_string_length = 48

-- The smaller of two sizes: std::min.
abbrev pub smaller : ℕ → ℕ → ℕ
smaller a b = if ltb b a then b else a

unfoldable pub make_inline_string : (capacity : ℕ) → Bytes → InlineString
make_inline_string capacity value = record {
  view = take (smaller (length value) capacity) value;
  truncated = ltb capacity (length value);
}

-- std::int64_t
pub data ℤ : Type 0 where
  pos : ℕ → ℤ
  negsuc : ℕ → ℤ

pub data LogArgument (D : Type 0) : Type 0 where
  int64 : ℤ → LogArgument D
  uint64 : ℕ → LogArgument D
  float64 : D → LogArgument D
  boolean : Bool → LogArgument D
  inline : InlineString → LogArgument D

-- What a log call may be given: the types that the source's cases tell apart.
pub data Loggable (D : Type 0) : Type 0 where
  boolean : Bool → Loggable D
  enumeration : Loggable D → Loggable D
  signed_integral : ℤ → Loggable D
  unsigned_integral : ℕ → Loggable D
  floating_point : D → Loggable D
  c_string : Option Bytes → Loggable D
  text : Bytes → Loggable D

unfoldable pub capture_argument : {D : Type 0} → Loggable D → LogArgument D
unfolding make_inline_string
capture_argument (Loggable.boolean value) = LogArgument.boolean value
capture_argument (enumeration underlying) = capture_argument underlying
capture_argument (signed_integral value) = int64 value
capture_argument (unsigned_integral value) = uint64 value
capture_argument (floating_point value) = float64 value
capture_argument (c_string none) =
    inline (make_inline_string maximum_inline_string_length (codes "<null>"))
capture_argument (c_string (some value)) =
    inline (make_inline_string maximum_inline_string_length value)
capture_argument (text value) = inline (make_inline_string maximum_inline_string_length value)

-- The array and its fill count, at most eight, are a list.
unfoldable pub capture_arguments : {D : Type 0} → List (Loggable D) → List (LogArgument D)
unfolding capture_argument
capture_arguments values = map capture_argument values

pub record LogRecord (D : Type 0) : Type 0 where
  pub level : LogLevel
  pub function_name : Bytes
  pub format : Bytes
  pub arguments : List (LogArgument D)
