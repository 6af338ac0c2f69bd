-- ===== src/Logging/Format/Examples.antt =====
-- Formats.
use sixchange.Base.{
  to_string, ℕ, ◌≡◌, refl, [], ◌∷◌, codes, Bytes, List, ok, Returns, false, arith, some, to_string,
}
use sixchange.Logging.LogRecord.{LogArgument, uint64, boolean}
use sixchange.Logging.Format.{substitute, write_formatted_message, parse_argument_index}
use sixchange.Logging.Format.Pieces.{
  Piece, literal, open_brace, automatic, numbered, format_of, expand,
  write_formatted_message-format_of,
}
use sixchange.Logging.Format.Totality.{write_formatted_message-Returns}

abbrev no_floats : ℕ → Bytes
no_floats x = []

abbrev arguments : List (LogArgument ℕ)
arguments = uint64 7 ∷ boolean false ∷ []

-- The format "a{{{}{1}{2}".
abbrev pieces : List Piece
pieces = literal b'a' ∷ open_brace ∷ automatic ∷ numbered 1 ∷ numbered 2 ∷ []

write_formatted_message-format_of_example :
    write_formatted_message no_floats (format_of pieces) arguments
    ≡ ok (expand no_floats arguments pieces 0)
write_formatted_message-format_of_example =
    write_formatted_message-format_of no_floats arguments pieces
      ((refl, refl), (tt, (tt, (omega arith, (omega arith, tt)))))

expands : expand no_floats arguments pieces 0 ≡ codes "a{7false{2}"
unfolding substitute to_string
expands = refl

write_formatted_message-Returns_example :
    Returns (λ written. Unit) (write_formatted_message no_floats (codes "{{{") arguments)
write_formatted_message-Returns_example =
    write_formatted_message-Returns no_floats (codes "{{{") arguments

-- An index that is no word wraps.
wraps : parse_argument_index (codes "18446744073709551617") ≡ some 1
unfolding parse_argument_index
wraps = refl
