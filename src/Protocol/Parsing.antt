-- ===== src/Protocol/Parsing.antt =====
-- The parsers of single tokens in src/protocol/TextCodec.cpp.
use mathlib.Core.Option.{some-injective}
use sixchange.Base.{
  subst, ℕ, ◌≡◌, refl, inl, inr, Bool, true, false, not, ◌||◌, Option, none, some, [], ◌∷◌, arith,
  if◌then◌else◌, Bool-cases, Bytes, codes, same, same→eq, Errc, success, invalid_argument,
  result_out_of_range, from_chars, IsNumeral, from_chars-IsNumeral, IsNumeral-from_chars,
}
use sixchange.Core.Enums.{Side, OrderType, TimeInForce, buy, sell, limit, market, gfd, ioc, fok}
use sixchange.Protocol.Cursor.{is_empty}

abbrev is_success : Errc → Bool
is_success success = true
is_success invalid_argument = false
is_success result_out_of_range = false

-- For the 64-bit types, which are all that it is used at.
unfoldable pub parse_unsigned : Bytes → Option ℕ
parse_unsigned token =
    if is_empty token
    then none
    else let r = from_chars token in
      if not (is_success r.error) || not (is_empty r.after) then none else some r.number

unfoldable pub parse_side : Bytes → Option Side
parse_side token =
    if same token (codes "B") then some buy else if same token (codes "S") then some sell else none

unfoldable pub parse_order_type : Bytes → Option OrderType
parse_order_type token =
    if same token (codes "L")
    then some limit
    else if same token (codes "M")
    then some market
    else none

unfoldable pub parse_time_in_force : Bytes → Option TimeInForce
parse_time_in_force token =
    if same token (codes "GFD")
    then some gfd
    else if same token (codes "IOC")
    then some ioc
    else if same token (codes "FOK")
    then some fok
    else none

-- The tokens that stand for the values.
abbrev pub side_text : Side → Bytes
side_text buy = codes "B"
side_text sell = codes "S"

abbrev pub order_type_text : OrderType → Bytes
order_type_text limit = codes "L"
order_type_text market = codes "M"

abbrev pub time_in_force_text : TimeInForce → Bytes
time_in_force_text gfd = codes "GFD"
time_in_force_text ioc = codes "IOC"
time_in_force_text fok = codes "FOK"

pub parse_side-text : (x : Side) → parse_side (side_text x) ≡ some x
unfolding parse_side
parse_side-text buy = refl
parse_side-text sell = refl

pub text-parse_side : (t : Bytes) (x : Side) → parse_side t ≡ some x → t ≡ side_text x
unfolding parse_side
text-parse_side t buy e = ground (arith, same→eq t (codes "B"))
text-parse_side t sell e = ground (arith, same→eq t (codes "S"))

pub parse_order_type-text : (x : OrderType) → parse_order_type (order_type_text x) ≡ some x
unfolding parse_order_type
parse_order_type-text limit = refl
parse_order_type-text market = refl

pub text-parse_order_type :
    (t : Bytes) (x : OrderType) → parse_order_type t ≡ some x → t ≡ order_type_text x
unfolding parse_order_type
text-parse_order_type t limit e = ground (arith, same→eq t (codes "L"))
text-parse_order_type t market e = ground (arith, same→eq t (codes "M"))

pub parse_time_in_force-text :
    (x : TimeInForce) → parse_time_in_force (time_in_force_text x) ≡ some x
unfolding parse_time_in_force
parse_time_in_force-text gfd = refl
parse_time_in_force-text ioc = refl
parse_time_in_force-text fok = refl

pub text-parse_time_in_force :
    (t : Bytes) (x : TimeInForce) → parse_time_in_force t ≡ some x → t ≡ time_in_force_text x
unfolding parse_time_in_force
text-parse_time_in_force t gfd e = ground (arith, same→eq t (codes "GFD"))
text-parse_time_in_force t ioc e = ground (arith, same→eq t (codes "IOC"))
text-parse_time_in_force t fok e = ground (arith, same→eq t (codes "FOK"))

-- `parse_unsigned` accepts exactly the numerals.
pub parse_unsigned-IsNumeral : {t : Bytes} {n : ℕ} → IsNumeral t n → parse_unsigned t ≡ some n
unfolding parse_unsigned
parse_unsigned-IsNumeral {t = []} k = absurd (k.nonempty refl)
parse_unsigned-IsNumeral {t = c ∷ s} k = rw (from_chars-IsNumeral k)

success_of : (e : Errc) → is_success e ≡ true → e ≡ success
success_of success h = refl
success_of invalid_argument h = cc
success_of result_out_of_range h = cc

pub nil_of_empty : (s : Bytes) → is_empty s ≡ true → s ≡ []
nil_of_empty [] h = refl
nil_of_empty (c ∷ s) h = cc

pub IsNumeral-parse_unsigned : (t : Bytes) (n : ℕ) → parse_unsigned t ≡ some n → IsNumeral t n
unfolding parse_unsigned
IsNumeral-parse_unsigned [] n e = cc
IsNumeral-parse_unsigned (c ∷ s) n e =
    let r = from_chars (c ∷ s) in
    elim (Bool-cases (is_success r.error)) [
      | inr failed ↦ let clash : none ≡ some n = rw failed at e in cc
      | inl done ↦ elim (Bool-cases (is_empty r.after)) [
        | inr left ↦ let clash : none ≡ some n = rw (done, left) at e in cc
        | inl whole ↦
            let number : r.number ≡ n = some-injective r.number n (rw (done, whole) at e) in
            subst (IsNumeral (c ∷ s)) number
              (IsNumeral-from_chars (c ∷ s) (success_of r.error done) (nil_of_empty r.after whole))
      ]
    ]
