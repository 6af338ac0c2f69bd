-- ===== src/Protocol/TextCodec/Accepted.antt =====
-- What the decoders accept belongs to the grammar.
use sixchange.Protocol.TextCodec.Grammar.{SpellsNewOrder, SpellsCancel}
use sixchange.Protocol.TextCodec.Reading.{
  >>=-value, required-value, field-value, words-nil, IsNumeral-parse_positive,
}
use sixchange.Base.{
  unexpected, subst, some, inr, inl, Bool-cases, if◌then◌else◌, not, ℕ, ◌≡◌, refl, sym, subst, some,
  List, [], ◌∷◌, Bytes, codes, Expected, value, unexpected,
}
use sixchange.Core.Enums.{RejectReason}
use sixchange.Protocol.Messages.{
  InboundMessage, NewOrderRequest, CancelOrderRequest, OrderRejected, new_order, cancel_order,
}
use sixchange.Protocol.Cursor.{empty, next}
use sixchange.Protocol.Words.{words, Reads, next-Reads}
use sixchange.Protocol.Parsing.{
  text-parse_time_in_force, text-parse_order_type, text-parse_side, parse_time_in_force,
  parse_order_type, parse_side,
}
use sixchange.Protocol.TextCodec.{
  cancel_with, decode_cancel_order, decode_new_order, required, field, parse_positive,
}

-- A line from its words, one equation for each step of the decoder.
new_order_line :
    (s s1 s2 s3 s4 s5 s6 s7 : Bytes) (r : NewOrderRequest)
    → field parse_positive RejectReason.invalid_message s ≡ value (r.client_order_id, s1)
    → required s1 ≡ value (r.symbol, s2)
    → field parse_side RejectReason.invalid_message s2 ≡ value (r.side, s3)
    → field parse_order_type RejectReason.invalid_message s3 ≡ value (r.order_type, s4)
    → field parse_time_in_force RejectReason.invalid_message s4 ≡ value (r.tif, s5)
    → field parse_positive RejectReason.invalid_price s5 ≡ value (r.price, s6)
    → field parse_positive RejectReason.invalid_quantity s6 ≡ value (r.quantity, s7)
    → words s7 ≡ []
    → SpellsNewOrder (codes "N" ∷ words s) r
new_order_line s s1 s2 s3 s4 s5 s6 s7 r e1 e2 e3 e4 e5 e6 e7 last =
    let (id, w1, p1) = field-value parse_positive _ s r.client_order_id s1 e1 in
    let w2 = required-value s1 r.symbol s2 e2 in
    let (side, w3, p3) = field-value parse_side _ s2 r.side s3 e3 in
    let (order_type, w4, p4) = field-value parse_order_type _ s3 r.order_type s4 e4 in
    let (tif, w5, p5) = field-value parse_time_in_force _ s4 r.tif s5 e5 in
    let (price, w6, p6) = field-value parse_positive _ s5 r.price s6 e6 in
    let (quantity, w7, p7) = field-value parse_positive _ s6 r.quantity s7 e7 in
    let t3 = text-parse_side side r.side p3 in
    let t4 = text-parse_order_type order_type r.order_type p4 in
    let t5 = text-parse_time_in_force tif r.tif p5 in
    let k1 = IsNumeral-parse_positive id r.client_order_id p1 in
    let k6 = IsNumeral-parse_positive price r.price p6 in
    let k7 = IsNumeral-parse_positive quantity r.quantity p7 in
    record {
      id = id;
      price = price;
      quantity = quantity;
      line = rw (w1, w2, w3, w4, w5, w6, w7, last, t3, t4, t5);
      id_is = k1.0;
      price_is = k6.0;
      quantity_is = k7.0;
      id_positive = k1.1;
      price_positive = k6.1;
      quantity_positive = k7.1;
    }

-- What the end of a decoder accepts.
ended :
    {A : Type 0} (s : Bytes) (r : OrderRejected) (a b : A)
    → (if not (empty s).1 then unexpected r else value a) ≡ value b
    → (words s ≡ []) × (a ≡ b)
ended {A} s r a b e = elim (Bool-cases (empty s).1) [
  | inl last ↦
      let kept : ◌≡◌ {A = Expected A OrderRejected} (value a) (value b) = rw last at e in
      (words-nil s last, cc)
  | inr more ↦
      let clash : ◌≡◌ {A = Expected A OrderRejected} (unexpected r) (value b) = rw more at e in cc
]

pub decode_new_order-value :
    (s : Bytes) (m : InboundMessage)
    → decode_new_order s ≡ value m
    → (r : NewOrderRequest) × (m ≡ new_order r) × SpellsNewOrder (codes "N" ∷ words s) r
unfolding decode_new_order
decode_new_order-value s m e =
    let (id, s1, e1, d1) = >>=-value _ _ s m e in
    let (symbol, s2, e2, d2) = >>=-value _ _ s1 m d1 in
    let (side, s3, e3, d3) = >>=-value _ _ s2 m d2 in
    let (order_type, s4, e4, d4) = >>=-value _ _ s3 m d3 in
    let (tif, s5, e5, d5) = >>=-value _ _ s4 m d4 in
    let (price, s6, e6, d6) = >>=-value _ _ s5 m d5 in
    let (quantity, s7, e7, d7) = >>=-value _ _ s6 m d6 in
    let (last, same_message) = ended s7 _ _ m d7 in
    (_, sym same_message, new_order_line s s1 s2 s3 s4 s5 s6 s7 _ e1 e2 e3 e4 e5 e6 e7 last)

pub decode_cancel_order-value :
    (s : Bytes) (m : InboundMessage)
    → decode_cancel_order s ≡ value m
    → (r : CancelOrderRequest) × (m ≡ cancel_order r) × SpellsCancel (codes "C" ∷ words s) r
unfolding decode_cancel_order cancel_with
decode_cancel_order-value s m e =
    let (id, s1, e1, d1) = >>=-value _ _ s m e in with_symbol id s1 e1 (words s1) refl d1
  where
    with_symbol :
        (id : ℕ) (s1 : Bytes)
        → field parse_positive RejectReason.invalid_message s ≡ value (id, s1)
        → (ws : List Bytes) → words s1 ≡ ws
        → cancel_with id (next s1).0 (next s1).1 ≡ value m
        → (r : CancelOrderRequest) × (m ≡ cancel_order r) × SpellsCancel (codes "C" ∷ words s) r
    with_symbol id s1 e1 [] h d1 =
        let none_left = (subst (λ vs. Reads vs (next s1)) h (next-Reads s1)).0 in
        let clash : ◌≡◌ {A = Expected InboundMessage OrderRejected}
            (unexpected
              (record { client_order_id = some id; reason = RejectReason.invalid_message }))
            (value m) =
          rw none_left at d1 in
        cc
    with_symbol id s1 e1 (w ∷ ws) h d1 =
        let r = subst (λ vs. Reads vs (next s1)) h (next-Reads s1) in
        let (last, same_message) = ended (next s1).0 _ _ m (rw r.0 at d1) in
        let (t, w1, p1) = field-value parse_positive _ s id s1 e1 in
        let k1 = IsNumeral-parse_positive t id p1 in
        (
          record { client_order_id = id; symbol = w },
          sym same_message,
          record { id = t; line = rw (w1, h, sym r.1, last); id_is = k1.0; id_positive = k1.1 },
        )
