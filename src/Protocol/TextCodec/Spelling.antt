-- ===== src/Protocol/TextCodec/Spelling.antt =====
-- Lines written word by word, as a client sends them, are decoded as what they say.
use sixchange.Protocol.TextCodec.Decoding.{decode_complete}
use sixchange.Protocol.TextCodec.{decode, max_message_length, strip}
use sixchange.Protocol.TextCodec.Grammar.{Spells}
use mathlib.Core.Path.{subst}
use sixchange.Base.{
  length, length-append, value, ◌≤◌, ◌+◌, All-append, ℕ, ◌<◌, ◌^◌, ◌≡◌, refl, sym, ap, true, false,
  List, [], ◌∷◌, ◌++◌, arith, All, All-map, Bytes, codes, to_string, to_string-IsNumeral, is_digit,
  ◌==◌,
}
use sixchange.Protocol.Messages.{InboundMessage, new_order, cancel_order}
use sixchange.Core.Enums.{Side, OrderType, TimeInForce, buy, sell, limit, market, gfd, ioc, fok}
use sixchange.Protocol.Cursor.{is_blank}
use sixchange.Protocol.Words.{words}
use sixchange.Protocol.Parsing.{side_text, order_type_text, time_in_force_text}
use sixchange.Protocol.TextCodec.Joining.{IsPlain, IsWord, join, words-join}

-- The tokens of a message.
abbrev pub spelling : InboundMessage → List Bytes
spelling (new_order r) =
    codes "N"
    ∷ to_string r.client_order_id
    ∷ r.symbol
    ∷ side_text r.side
    ∷ order_type_text r.order_type
    ∷ time_in_force_text r.tif
    ∷ to_string r.price
    ∷ to_string r.quantity
    ∷ []
spelling (cancel_order r) = codes "C" ∷ to_string r.client_order_id ∷ r.symbol ∷ []

-- A 64-bit number that is not zero.
abbrev pub IsPositive : ℕ → Type 0
IsPositive n = (0 < n) × (n < 2 ^ 64)

-- A message whose numbers fit, and whose symbol is a word.
abbrev pub IsSendable : InboundMessage → Type 0
IsSendable (new_order r) =
    IsPositive r.client_order_id × IsWord r.symbol × IsPositive r.price × IsPositive r.quantity
IsSendable (cancel_order r) = IsPositive r.client_order_id × IsWord r.symbol

digit-IsPlain : (c : ℕ) → is_digit c ≡ true → IsPlain c
unfolding is_blank
digit-IsPlain c d = ground arith

pub to_string-IsWord : (n : ℕ) → n < 2 ^ 64 → IsWord (to_string n)
to_string-IsWord n h =
    let k = to_string-IsNumeral n h in
    record { plain = All-map digit-IsPlain (to_string n) k.digits; nonempty = k.nonempty }

side_text-IsWord : (x : Side) → IsWord (side_text x)
unfolding is_blank
side_text-IsWord buy = record { plain = ((refl, refl), tt); nonempty = λ e. cc }
side_text-IsWord sell = record { plain = ((refl, refl), tt); nonempty = λ e. cc }

order_type_text-IsWord : (x : OrderType) → IsWord (order_type_text x)
unfolding is_blank
order_type_text-IsWord limit = record { plain = ((refl, refl), tt); nonempty = λ e. cc }
order_type_text-IsWord market = record { plain = ((refl, refl), tt); nonempty = λ e. cc }

time_in_force_text-IsWord : (x : TimeInForce) → IsWord (time_in_force_text x)
unfolding is_blank
time_in_force_text-IsWord gfd = record {
  plain = ((refl, refl), ((refl, refl), ((refl, refl), tt)));
  nonempty = λ e. cc;
}
time_in_force_text-IsWord ioc = record {
  plain = ((refl, refl), ((refl, refl), ((refl, refl), tt)));
  nonempty = λ e. cc;
}
time_in_force_text-IsWord fok = record {
  plain = ((refl, refl), ((refl, refl), ((refl, refl), tt)));
  nonempty = λ e. cc;
}

All-spelling : (m : InboundMessage) → IsSendable m → All IsWord (spelling m)
unfolding is_blank
All-spelling (new_order r) (id, symbol, price, quantity) = (
  record { plain = ((refl, refl), tt); nonempty = λ e. cc },
  (
    to_string-IsWord r.client_order_id id.1,
    (
      symbol,
      (
        side_text-IsWord r.side,
        (
          order_type_text-IsWord r.order_type,
          (
            time_in_force_text-IsWord r.tif,
            (to_string-IsWord r.price price.1, (to_string-IsWord r.quantity quantity.1, tt)),
          ),
        ),
      ),
    ),
  ),
)
All-spelling (cancel_order r) (id, symbol) = (
  record { plain = ((refl, refl), tt); nonempty = λ e. cc },
  (to_string-IsWord r.client_order_id id.1, (symbol, tt)),
)

spelling-Spells : (m : InboundMessage) → IsSendable m → Spells (spelling m) m
spelling-Spells (new_order r) (id, symbol, price, quantity) = record {
  id = to_string r.client_order_id;
  price = to_string r.price;
  quantity = to_string r.quantity;
  line = refl;
  id_is = to_string-IsNumeral r.client_order_id id.1;
  price_is = to_string-IsNumeral r.price price.1;
  quantity_is = to_string-IsNumeral r.quantity quantity.1;
  id_positive = id.0;
  price_positive = price.0;
  quantity_positive = quantity.0;
}
spelling-Spells (cancel_order r) (id, symbol) = record {
  id = to_string r.client_order_id;
  line = refl;
  id_is = to_string-IsNumeral r.client_order_id id.1;
  id_positive = id.0;
}

-- No byte of the text is a carriage return.
abbrev NoReturn : Bytes → Type 0
NoReturn = All (λ c. (c == b'\r') ≡ false)

strip-NoReturn : (s : Bytes) → NoReturn s → strip s ≡ s
unfolding strip
strip-NoReturn [] all = refl
strip-NoReturn (c ∷ []) all = rw all.0
strip-NoReturn (c ∷ d ∷ s) all = ap (λ t. c ∷ t) (strip-NoReturn (d ∷ s) all.1)

strip-append : (s : Bytes) → strip (s ++ (b'\r' ∷ [])) ≡ s
unfolding strip
strip-append [] = refl
strip-append (c ∷ []) = refl
strip-append (c ∷ d ∷ s) = ap (λ t. c ∷ t) (strip-append (d ∷ s))

NoReturn-join : (ws : List Bytes) → All IsWord ws → NoReturn (join ws)
NoReturn-join [] all = tt
NoReturn-join (w ∷ []) all = All-map (λ c p. p.1) w all.0.plain
NoReturn-join (w ∷ v ∷ ws) all =
    All-append _ w (b' ' ∷ join (v ∷ ws)) (All-map (λ c p. p.1) w all.0.plain)
      (refl, NoReturn-join (v ∷ ws) all.1)

-- A message that is written out, its numbers by std::to_string and with a blank between its tokens,
-- is decoded as it was, also with a carriage return at the end of the line. The numbers are
-- positive words of 64 bits, the symbol has a byte, no blank and no carriage return, and the line
-- has at most 256 bytes.
pub decode-join :
    (m : InboundMessage)
    → IsSendable m
    → length (join (spelling m)) + 1 ≤ max_message_length
    → (decode (join (spelling m)) ≡ value m)
      × (decode (join (spelling m) ++ (b'\r' ∷ [])) ≡ value m)
decode-join m sendable short =
    let all = All-spelling m sendable in
    let line = join (spelling m) in
    let spells : Spells (words line) m =
      subst (λ ws. Spells ws m) (sym (words-join (spelling m) all)) (spelling-Spells m sendable) in
    (
      decode_complete line m (omega arith) (
          subst (λ s. Spells (words s) m)
            (sym (strip-NoReturn line (NoReturn-join (spelling m) all))) spells),
      decode_complete (line ++ (b'\r' ∷ [])) m (omega (arith, length-append line (b'\r' ∷ [])))
          (subst (λ s. Spells (words s) m) (sym (strip-append line)) spells),
    )
