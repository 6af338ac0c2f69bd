-- ===== src/Protocol/TextCodec.antt =====
-- src/protocol/TextCodec.h and TextCodec.cpp. A decoder threads the token cursor: it is a function
-- from what remains of the message.
pub mod Grammar
pub mod Reading
pub mod Accepted
pub mod Decoding
pub mod Rejections
pub mod Refusing
pub mod Joining
pub mod Spelling
pub mod Encoding
mod Examples
use sixchange.Base.{
  ℕ, zero, suc, Bool, true, false, not, ◌||◌, Option, none, some, List, [], ◌∷◌, ◌++◌, ltb, ◌==◌,
  if◌then◌else◌, length, Bytes, codes, same, to_string, Expected, value, unexpected,
}
use sixchange.Core.Enums.{RejectReason}
use sixchange.Core.EnumNames
use sixchange.Protocol.Messages.{
  InboundMessage, OutboundMessage, NewOrderRequest, CancelOrderRequest, OrderRejected, new_order,
  cancel_order, accepted, cancelled, rejected,
}
use sixchange.Protocol.Cursor.{next, empty, is_empty}
use sixchange.Protocol.Parsing.{parse_unsigned, parse_side, parse_order_type, parse_time_in_force}

abbrev pub DecodeResult : Type 0
DecodeResult = Expected InboundMessage OrderRejected

abbrev pub max_message_length : ℕ
max_message_length = 256

abbrev pub Decoder : Type 0 → Type 0
Decoder A = Bytes → Expected (A × Bytes) OrderRejected

-- A rejection that names no order.
abbrev pub reject : {A : Type 0} → RejectReason → Expected A OrderRejected
reject reason = unexpected (record { client_order_id = none; reason = reason })

-- What follows a step, if the step succeeds.
infixl 5 ◌>>=◌
unfoldable pub ◌>>=◌ :
    {A B : Type 0}
    → Decoder A
    → (A → Bytes → Expected B OrderRejected)
    → Bytes
    → Expected B OrderRejected
◌>>=◌ m f tokens = elim (m tokens) [ value (a, rest) ↦ f a rest | unexpected r ↦ unexpected r ]

unfoldable pub token_or_reject : Bytes → Option Bytes → Expected (Bytes × Bytes) OrderRejected
token_or_reject rest none = reject RejectReason.invalid_message
token_or_reject rest (some token) = value (token, rest)

-- `tokens.next()`, which must give a token.
unfoldable pub required : Decoder Bytes
unfolding token_or_reject
required tokens = let (rest, token) = next tokens in token_or_reject rest token

unfoldable pub parsed : {A : Type 0} → Option A → RejectReason → Decoder A
parsed none reason tokens = reject reason
parsed (some a) reason tokens = value (a, tokens)

-- A token that must parse.
unfoldable pub field : {A : Type 0} → (Bytes → Option A) → RejectReason → Decoder A
unfolding required parsed
field parse reason = do token ← required; parsed (parse token) reason

-- A number that must not be zero.
unfoldable pub nonzero : Option ℕ → Option ℕ
nonzero none = none
nonzero (some zero) = none
nonzero (some (suc n)) = some (suc n)

unfoldable pub parse_positive : Bytes → Option ℕ
unfolding nonzero
parse_positive token = nonzero (parse_unsigned token)

unfoldable pub decode_new_order : Bytes → DecodeResult
unfolding required field
decode_new_order = do
  client_order_id ← field parse_positive RejectReason.invalid_message
  symbol ← required
  side ← field parse_side RejectReason.invalid_message
  order_type ← field parse_order_type RejectReason.invalid_message
  tif ← field parse_time_in_force RejectReason.invalid_message
  price ← field parse_positive RejectReason.invalid_price
  quantity ← field parse_positive RejectReason.invalid_quantity
  λ tokens.
      if not (empty tokens).1
      then reject RejectReason.invalid_message
      else value (
          new_order (record {
            client_order_id = client_order_id;
            symbol = symbol;
            side = side;
            order_type = order_type;
            tif = tif;
            price = price;
            quantity = quantity;
          }))

-- The symbol of a cancel request, which must be the last token.
unfoldable pub cancel_with : (client_order_id : ℕ) → Bytes → Option Bytes → DecodeResult
cancel_with client_order_id tokens none =
    unexpected
      (record { client_order_id = some client_order_id; reason = RejectReason.invalid_message })
cancel_with client_order_id tokens (some symbol) =
    if not (empty tokens).1
    then unexpected
        (record { client_order_id = some client_order_id; reason = RejectReason.invalid_message })
    else value (cancel_order (record { client_order_id = client_order_id; symbol = symbol }))

unfoldable pub decode_cancel_order : Bytes → DecodeResult
unfolding field cancel_with
decode_cancel_order = do
  client_order_id ← field parse_positive RejectReason.invalid_message
  λ tokens. let (rest, symbol) = next tokens in cancel_with client_order_id rest symbol

-- The switch on the first token.
unfoldable pub decode_tokens : Bytes → Option Bytes → DecodeResult
decode_tokens tokens none = reject RejectReason.invalid_message
decode_tokens tokens (some message_type) =
    if same message_type (codes "N")
    then decode_new_order tokens
    else if same message_type (codes "C")
    then decode_cancel_order tokens
    else reject RejectReason.invalid_message

-- A carriage return at the end goes.
unfoldable pub strip : Bytes → Bytes
strip [] = []
strip (c ∷ []) = if c == b'\r' then [] else c ∷ []
strip (c ∷ d ∷ s) = c ∷ strip (d ∷ s)

decode_message : Bytes → DecodeResult
unfolding decode_tokens
decode_message message =
    if is_empty message
    then reject RejectReason.invalid_message
    else let (tokens, message_type) = next message in decode_tokens tokens message_type

unfoldable pub decode : Bytes → DecodeResult
unfolding decode_message strip
decode message =
    if ltb max_message_length (length message)
    then reject RejectReason.invalid_message
    else decode_message (strip message)

-- The identifier of a rejected order, if it is known.
unfoldable pub id_text : Option ℕ → Bytes
id_text none = codes "-"
id_text (some n) = to_string n

unfoldable pub encode : OutboundMessage → Bytes
unfolding id_text
encode (accepted m) =
    codes "ACCEPTED " ++ (to_string m.client_order_id ++ (codes " " ++ to_string m.order_id))
encode (cancelled m) =
    codes "CANCELLED " ++ (to_string m.client_order_id ++ (codes " " ++ to_string m.order_id))
encode (rejected m) =
    codes "REJECTED "
    ++ (id_text m.client_order_id ++ (codes " " ++ codes (EnumNames.reject_reason m.reason)))
