-- ===== src/Logging/Format/Totality.antt =====
-- The loop of `write_formatted_message` ends.
use sixchange.Base.{
  ℕ, zero, suc, ◌≤◌, Bool-cases, inl, inr, Option, none, some, [], ◌∷◌, Bytes, drop, length,
  find_if, ◌==◌, ◌&&◌, arith, Returns, Returns-bind, List,
}
use sixchange.Logging.LogRecord.{LogArgument}
use sixchange.Logging.Format.{
  write_formatted_message, round, replace_field, starts_with, write_from,
}

drop-le : (n : ℕ) (s : Bytes) → length (drop n s) ≤ length s
drop-le zero s = omega arith
drop-le (suc n) [] = omega arith
drop-le (suc n) (c ∷ s) = omega (arith, drop-le n s)

module _ {D : Type 0} (float_text : D → Bytes) (arguments : List (LogArgument D)) where
  replace_field-le :
      (rest : Bytes) (automatic_index : ℕ) (closing : Option ℕ)
      → length (replace_field float_text arguments rest automatic_index closing).remaining
        ≤ length rest
  unfolding replace_field
  replace_field-le rest automatic_index none = omega arith
  replace_field-le rest automatic_index (some closing) = drop-le (suc closing) rest

  -- Every round uses up a byte of the format.
  pub round-le :
      (c : ℕ) (rest : Bytes) (automatic_index : ℕ)
      → length (round float_text arguments c rest automatic_index).remaining ≤ length rest
  unfolding round
  round-le c rest automatic_index = elim (Bool-cases (c == b'{')) [
    | inl opening ↦ elim (Bool-cases (starts_with b'{' rest)) [
      | inl doubled ↦ rw (opening, doubled) (drop-le 1 rest)
      | inr single ↦
          rw (opening, single)
            (replace_field-le rest automatic_index (find_if (λ d. d == b'}') rest))
    ]
    | inr other ↦ elim (Bool-cases ((c == b'}') && starts_with b'}' rest)) [
      | inl doubled ↦ rw (other, doubled) (drop-le 1 rest)
      | inr single ↦ rw (other, single) (omega arith)
    ]
  ]

  write_from-Returns :
      (fuel : ℕ) (format : Bytes) (automatic_index : ℕ)
      → length format ≤ fuel
      → Returns (λ written. Unit) (write_from float_text fuel arguments format automatic_index)
  unfolding write_from
  write_from-Returns fuel [] automatic_index h = tt
  write_from-Returns zero (c ∷ rest) automatic_index h = absurd (omega arith)
  write_from-Returns (suc fuel) (c ∷ rest) automatic_index h =
      let r = round float_text arguments c rest automatic_index in
      Returns-bind _ _ (write_from float_text fuel arguments r.remaining r.automatic_index) _
        (λ later done. tt)
        (write_from-Returns fuel r.remaining r.automatic_index
          (omega (arith, round-le c rest automatic_index)))

-- The formatting loop ends on every format, well formed or not, and all arguments: no more rounds
-- are needed than the format has bytes.
pub write_formatted_message-Returns :
    {D : Type 0} (float_text : D → Bytes) (format : Bytes) (arguments : List (LogArgument D))
    → Returns (λ written. Unit) (write_formatted_message float_text format arguments)
unfolding write_formatted_message
write_formatted_message-Returns float_text format arguments =
    write_from-Returns float_text arguments (length format) format 0 (omega arith)
