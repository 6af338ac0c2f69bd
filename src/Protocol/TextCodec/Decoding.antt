-- ===== src/Protocol/TextCodec/Decoding.antt =====
-- The decoder accepts exactly the lines of the grammar that are not too long.
use mathlib.Core.Path.{ap₂}
use sixchange.Base.{
  ◌≤◌, ◌≡◌, refl, sym, ap, subst, ◌∙◌, inl, inr, false, some, List, [], ◌∷◌, Bytes, codes,
  Bool-cases, value, same→eq, same, ltb, not_ltb→le, le→not_ltb, length,
}
use sixchange.Core.Enums.{RejectReason}
use sixchange.Protocol.Messages.{
  InboundMessage, NewOrderRequest, CancelOrderRequest, new_order, cancel_order,
}
use sixchange.Protocol.Cursor.{next, is_empty}
use sixchange.Protocol.Words.{words, Reads, next-Reads}
use sixchange.Protocol.Parsing.{
  parse_side, parse_order_type, parse_time_in_force, parse_side-text, parse_order_type-text,
  parse_time_in_force-text,
}
use sixchange.Protocol.TextCodec.{
  reject, parse_positive, decode_new_order, decode_cancel_order, cancel_with, decode_tokens,
  decode_message, strip, decode, max_message_length, DecodeResult,
}
use sixchange.Protocol.TextCodec.Grammar.{SpellsNewOrder, SpellsCancel, Spells}
use sixchange.Protocol.TextCodec.Reading.{
  >>=_step, required_read, field_read, end_of, parse_positive-IsNumeral,
}
use sixchange.Protocol.TextCodec.Accepted.{decode_new_order-value, decode_cancel_order-value}

abbrev rest_of : List Bytes → List Bytes
rest_of [] = []
rest_of (w ∷ ws) = ws

decode_new_order_complete :
    (s : Bytes) (r : NewOrderRequest)
    → SpellsNewOrder (codes "N" ∷ words s) r
    → decode_new_order s ≡ value (new_order r)
unfolding decode_new_order
decode_new_order_complete s r k =
    let f1 =
      field_read parse_positive RejectReason.invalid_message s k.id _ r.client_order_id
        (ap rest_of k.line) (parse_positive-IsNumeral k.id_is k.id_positive) in
    let s1 = (next s).0 in
    let f2 = required_read s1 r.symbol _ f1.1 in
    let s2 = (next s1).0 in
    let f3 =
      field_read parse_side RejectReason.invalid_message s2 _ _ r.side f2.1
        (parse_side-text r.side) in
    let s3 = (next s2).0 in
    let f4 =
      field_read parse_order_type RejectReason.invalid_message s3 _ _ r.order_type f3.1
        (parse_order_type-text r.order_type) in
    let s4 = (next s3).0 in
    let f5 =
      field_read parse_time_in_force RejectReason.invalid_message s4 _ _ r.tif f4.1
        (parse_time_in_force-text r.tif) in
    let s5 = (next s4).0 in
    let f6 =
      field_read parse_positive RejectReason.invalid_price s5 _ _ r.price f5.1
        (parse_positive-IsNumeral k.price_is k.price_positive) in
    let s6 = (next s5).0 in
    let f7 =
      field_read parse_positive RejectReason.invalid_quantity s6 _ _ r.quantity f6.1
        (parse_positive-IsNumeral k.quantity_is k.quantity_positive) in
    let s7 = (next s6).0 in
    >>=_step _ _ s _ s1 f1.0
    ∙ >>=_step _ _ s1 _ s2 f2.0
    ∙ >>=_step _ _ s2 _ s3 f3.0
    ∙ >>=_step _ _ s3 _ s4 f4.0
    ∙ >>=_step _ _ s4 _ s5 f5.0
    ∙ >>=_step _ _ s5 _ s6 f6.0
    ∙ >>=_step _ _ s6 _ s7 f7.0
    ∙ rw (end_of s7 f7.1)

decode_cancel_order_complete :
    (s : Bytes) (r : CancelOrderRequest)
    → SpellsCancel (codes "C" ∷ words s) r
    → decode_cancel_order s ≡ value (cancel_order r)
unfolding decode_cancel_order cancel_with
decode_cancel_order_complete s r k =
    let f1 =
      field_read parse_positive RejectReason.invalid_message s k.id _ r.client_order_id
        (ap rest_of k.line) (parse_positive-IsNumeral k.id_is k.id_positive) in
    let s1 = (next s).0 in
    let read = subst (λ vs. Reads vs (next s1)) f1.1 (next-Reads s1) in
    >>=_step _ _ s _ s1 f1.0 ∙ rw (read.0, end_of (next s1).0 read.1)

-- The first word, and what is left after it.
first_word :
    (s w : Bytes) (ws : List Bytes)
    → words s ≡ w ∷ ws
    → (is_empty s ≡ false) × ((next s).1 ≡ some w) × (words (next s).0 ≡ ws)
first_word s w ws e =
    let r = subst (λ vs. Reads vs (next s)) e (next-Reads s) in (nonempty s e, r.0, r.1)
  where
    nonempty : (s : Bytes) → words s ≡ w ∷ ws → is_empty s ≡ false
    nonempty [] h = let clash : ◌≡◌ {A = List Bytes} [] (w ∷ ws) = unfold words in h in cc
    nonempty (c ∷ s) h = refl

-- A line of the grammar of at most 256 bytes is decoded as the message that it spells, with any
-- blanks between and around its words and with or without a carriage return at its end.
pub decode_complete :
    (line : Bytes) (m : InboundMessage)
    → length line ≤ max_message_length
    → Spells (words (strip line)) m
    → decode line ≡ value m
unfolding decode decode_message decode_tokens
decode_complete line (new_order r) short k =
    let f = first_word (strip line) (codes "N") _ k.line in
    rw (le→not_ltb max_message_length (length line) short, f.0, f.1)
      (decode_new_order_complete (next (strip line)).0 r
        (subst (λ ws. SpellsNewOrder ws r) (k.line ∙ ap (λ ws. codes "N" ∷ ws) (sym f.2)) k))
decode_complete line (cancel_order r) short k =
    let f = first_word (strip line) (codes "C") _ k.line in
    rw (le→not_ltb max_message_length (length line) short, f.0, f.1)
      (decode_cancel_order_complete (next (strip line)).0 r
        (subst (λ ws. SpellsCancel ws r) (k.line ∙ ap (λ ws. codes "C" ∷ ws) (sym f.2)) k))

decode_tokens-Spells :
    (s : Bytes) (m : InboundMessage) (ws : List Bytes)
    → words s ≡ ws
    → decode_tokens (next s).0 (next s).1 ≡ value m
    → Spells ws m
unfolding decode_tokens
decode_tokens-Spells s m [] h e =
    let none_left = (subst (λ vs. Reads vs (next s)) h (next-Reads s)).0 in
    let clash : ◌≡◌ {A = DecodeResult} (reject RejectReason.invalid_message) (value m) =
      rw none_left at e in
    cc
decode_tokens-Spells s m (w ∷ ws) h e =
    let r = subst (λ vs. Reads vs (next s)) h (next-Reads s) in
    let e' : decode_tokens (next s).0 (some w) ≡ value m = rw r.0 at e in
    elim (Bool-cases (same w (codes "N"))) [
      | inl is_new ↦
          let (q, same_message, k) = decode_new_order-value (next s).0 m (rw is_new at e') in
          rw same_message
            (subst (λ vs. SpellsNewOrder vs q) (ap₂ ◌∷◌ (sym (same→eq w (codes "N") is_new)) r.1) k)
      | inr not_new ↦ elim (Bool-cases (same w (codes "C"))) [
        | inl is_cancel ↦
            let (q, same_message, k) =
              decode_cancel_order-value (next s).0 m (rw (not_new, is_cancel) at e') in
            rw same_message (
              subst (λ vs. SpellsCancel vs q) (ap₂ ◌∷◌ (sym (same→eq w (codes "C") is_cancel)) r.1)
                k)
        | inr neither ↦
            let clash : ◌≡◌ {A = DecodeResult} (reject RejectReason.invalid_message) (value m) =
              rw (not_new, neither) at e' in
            cc
      ]
    ]

-- A line that is decoded has at most 256 bytes, and its words, without a carriage return at its
-- end, spell the message.
pub decode-Spells :
    (line : Bytes) (m : InboundMessage)
    → decode line ≡ value m
    → (length line ≤ max_message_length) × Spells (words (strip line)) m
unfolding decode decode_message
decode-Spells line m e = elim (Bool-cases (ltb max_message_length (length line))) [
  | inl long ↦
      let clash : ◌≡◌ {A = DecodeResult} (reject RejectReason.invalid_message) (value m) =
        rw long at e in
      cc
  | inr short ↦ elim (Bool-cases (is_empty (strip line))) [
    | inl empty_line ↦
        let clash : ◌≡◌ {A = DecodeResult} (reject RejectReason.invalid_message) (value m) =
          rw (short, empty_line) at e in
        cc
    | inr some_text ↦ (
      not_ltb→le max_message_length (length line) short,
      decode_tokens-Spells (strip line) m (words (strip line)) refl (rw (short, some_text) at e),
    )
  ]
]
