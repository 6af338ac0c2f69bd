-- ===== src/Protocol/TextCodec/Examples.antt =====
-- Lines and messages.
use sixchange.Base.{
  ◌≡◌, refl, ◌≤◌, ◌++◌, [], ◌∷◌, arith, Bytes, codes, value, unexpected, some, none, length,
  find_if, IsNumeral, from_chars, read_digits, to_string,
}
use sixchange.Core.Enums.{sell, limit, gfd, RejectReason}
use sixchange.Core.EnumNames.{reject_reason}
use sixchange.Protocol.Cursor.{is_blank, next, empty}
use sixchange.Protocol.Words.{words}
use sixchange.Protocol.Parsing.{
  parse_unsigned, parse_side, parse_order_type, parse_time_in_force, IsNumeral-parse_unsigned,
}
use sixchange.Protocol.Messages.{OutboundMessage, NewOrderRequest, new_order, accepted, rejected}
use sixchange.Protocol.TextCodec.{
  decode, strip, encode, ◌>>=◌, parse_positive, decode_new_order, decode_cancel_order,
  max_message_length,
}
use sixchange.Protocol.TextCodec.Grammar.{Spells}
use sixchange.Protocol.TextCodec.Decoding.{decode_complete, decode-Spells}
use sixchange.Protocol.TextCodec.Rejections.{Refuses}
use sixchange.Protocol.TextCodec.Refusing.{IsRefusal, decode-IsRefusal}
use sixchange.Protocol.TextCodec.Joining.{IsWord, join}
use sixchange.Protocol.TextCodec.Spelling.{decode-join, spelling}
use sixchange.Protocol.TextCodec.Encoding.{encode_inj}

abbrev offer : NewOrderRequest
offer = record {
  client_order_id = 1001;
  symbol = codes "AAPL";
  side = sell;
  order_type = limit;
  tif = gfd;
  price = 100;
  quantity = 20;
}

-- A line with blanks at its ends, tabs, zeros before a number, and a carriage return.
abbrev line : Bytes
line = codes " N 1001\tAAPL  S L GFD 0100 20 \r"

reads_line : decode line ≡ value (new_order offer)
unfolding decode decode_new_order next find_if ◌>>=◌ parse_positive parse_unsigned from_chars
    read_digits empty parse_side parse_order_type parse_time_in_force
reads_line = refl

refuses_zero_price :
    decode (codes "N 1 AAPL B L GFD 0 20")
    ≡ unexpected (record { client_order_id = none; reason = RejectReason.invalid_price })
unfolding decode decode_new_order next find_if ◌>>=◌ parse_positive parse_unsigned from_chars
    read_digits empty parse_side parse_order_type parse_time_in_force
refuses_zero_price = refl

refuses_large_quantity :
    decode (codes "N 1 AAPL B L GFD 5 18446744073709551616")
    ≡ unexpected (record { client_order_id = none; reason = RejectReason.invalid_quantity })
unfolding decode decode_new_order next find_if ◌>>=◌ parse_positive parse_unsigned from_chars
    read_digits empty parse_side parse_order_type parse_time_in_force
refuses_large_quantity = refl

names_refused_cancel :
    decode (codes "C 7 AAPL x")
    ≡ unexpected (record { client_order_id = some 7; reason = RejectReason.invalid_message })
unfolding decode decode_cancel_order next find_if ◌>>=◌ parse_positive parse_unsigned from_chars
    read_digits empty
names_refused_cancel = refl

writes_rejection :
    encode (rejected (record { client_order_id = none; reason = RejectReason.invalid_price }))
    ≡ codes "REJECTED - INVALID_PRICE"
unfolding encode reject_reason
writes_rejection = refl

IsNumeral-1001 : IsNumeral (codes "1001") 1001
unfolding parse_unsigned from_chars read_digits
IsNumeral-1001 = IsNumeral-parse_unsigned (codes "1001") 1001 refl

IsNumeral-100 : IsNumeral (codes "0100") 100
unfolding parse_unsigned from_chars read_digits
IsNumeral-100 = IsNumeral-parse_unsigned (codes "0100") 100 refl

IsNumeral-20 : IsNumeral (codes "20") 20
unfolding parse_unsigned from_chars read_digits
IsNumeral-20 = IsNumeral-parse_unsigned (codes "20") 20 refl

decode_complete_example : decode line ≡ value (new_order offer)
unfolding words strip is_blank
decode_complete_example = decode_complete line (new_order offer) (omega arith) (record {
  id = codes "1001";
  price = codes "0100";
  quantity = codes "20";
  line = refl;
  id_is = IsNumeral-1001;
  price_is = IsNumeral-100;
  quantity_is = IsNumeral-20;
  id_positive = omega arith;
  price_positive = omega arith;
  quantity_positive = omega arith;
})

decode-Spells_example :
    (length line ≤ max_message_length) × Spells (words (strip line)) (new_order offer)
decode-Spells_example = decode-Spells line (new_order offer) reads_line

aapl-IsWord : IsWord (codes "AAPL")
unfolding is_blank
aapl-IsWord = record {
  plain = ((refl, refl), ((refl, refl), ((refl, refl), ((refl, refl), tt))));
  nonempty = λ e. cc;
}

decode-join_example :
    (decode (join (spelling (new_order offer))) ≡ value (new_order offer))
    × (decode (join (spelling (new_order offer)) ++ (b'\r' ∷ [])) ≡ value (new_order offer))
unfolding to_string
decode-join_example =
    decode-join (new_order offer)
      (
        (omega arith, omega arith),
        aapl-IsWord,
        (omega arith, omega arith),
        (omega arith, omega arith),
      )
      (omega arith)

abbrev accepted_message : OutboundMessage
accepted_message = accepted (record { client_order_id = 1001; order_id = 12 })

encode_inj_example : accepted_message ≡ accepted_message
encode_inj_example =
    encode_inj accepted_message accepted_message (omega arith, omega arith)
      (omega arith, omega arith) refl

decode-IsRefusal_example : Refuses (IsRefusal (codes "C 7 AAPL x")) (decode (codes "C 7 AAPL x"))
decode-IsRefusal_example = decode-IsRefusal (codes "C 7 AAPL x")
