-- ===== src/Protocol/TextCodec/Refusing.antt =====
-- What a line is refused for.
use sixchange.Base.{
  true, false, ℕ, ◌<◌, ◌≡◌, ◌≢◌, refl, sym, ap, ◌∙◌, subst, arith, Bool-cases, inl, inr, some, List,
  [], ◌∷◌, Bytes, codes, same, same→eq, same_refl, Expected, value, unexpected, IsNumeral, ltb,
  ltb→lt, length,
}
use sixchange.Core.Enums.{RejectReason}
use sixchange.Protocol.Messages.{OrderRejected}
use sixchange.Protocol.Cursor.{next, empty, is_empty}
use sixchange.Protocol.Parsing.{nil_of_empty}
use sixchange.Protocol.Words.{words, Reads, next-Reads, no_words, empty-words}
use sixchange.Protocol.TextCodec.{
  DecodeResult, decode, decode_message, decode_tokens, decode_cancel_order, cancel_with, field,
  parse_positive, ◌>>=◌, max_message_length, strip,
}
use sixchange.Protocol.TextCodec.Reading.{field-value, IsNumeral-parse_positive}
use sixchange.Protocol.TextCodec.Rejections.{
  Refuses, anonymous, IsPositive, Faulty, NamesFault, Outcome, new_order_fields, field-Outcome,
  parse_positive-Accepts, decode_new_order-NamesFault,
}

-- Whether the words start with a positive numeral.
abbrev pub StartsPositive : List Bytes → Type 0
StartsPositive [] = ⊥
StartsPositive (w ∷ ws) = IsPositive w

-- The rejections of a cancel request with these words behind its first: no order is named before its
-- id is read, and that order afterwards, when not exactly one word follows.
pub data IsCancelRefusal (ws : List Bytes) : OrderRejected → Type 0 where
  no_id : ¬ StartsPositive ws → IsCancelRefusal ws (anonymous RejectReason.invalid_message)
  not_one :
      (id : Bytes) (n : ℕ) (rest : List Bytes)
      → ws ≡ id ∷ rest
      → IsNumeral id n
      → 0 < n
      → length rest ≢ 1
      → IsCancelRefusal ws
          (record { client_order_id = some n; reason = RejectReason.invalid_message })

-- The rejections of a line with these words.
pub data IsWordsRefusal (ws : List Bytes) : OrderRejected → Type 0 where
  no_word : ws ≡ [] → IsWordsRefusal ws (anonymous RejectReason.invalid_message)
  unknown_type :
      (w : Bytes) (rest : List Bytes)
      → ws ≡ w ∷ rest
      → w ≢ codes "N"
      → w ≢ codes "C"
      → IsWordsRefusal ws (anonymous RejectReason.invalid_message)
  new_order :
      (rest : List Bytes)
      → ws ≡ codes "N" ∷ rest
      → (reason : RejectReason) → Faulty new_order_fields rest reason
      → IsWordsRefusal ws (anonymous reason)
  cancel_order :
      (rest : List Bytes)
      → ws ≡ codes "C" ∷ rest
      → (r : OrderRejected) → IsCancelRefusal rest r
      → IsWordsRefusal ws r

-- The rejections of a line. Its words are those without a carriage return at the end.
pub data IsRefusal (line : Bytes) : OrderRejected → Type 0 where
  too_long : 256 < length line → IsRefusal line (anonymous RejectReason.invalid_message)
  by_words : (r : OrderRejected) → IsWordsRefusal (words (strip line)) r → IsRefusal line r

not_one_word :
    (s w : Bytes) (ws : List Bytes) → words s ≡ ws → (empty s).1 ≡ false → length (w ∷ ws) ≢ 1
not_one_word s w [] e more = let none_left = sym more ∙ empty-words s ∙ ap no_words e in cc
not_one_word s w (v ∷ ws) e more = λ h. absurd (omega (arith, h))

module _ (s : Bytes) (id : Bytes) (n : ℕ) (t : Bytes) (line : words s ≡ id ∷ words t)
    (numeral : IsNumeral id n) (positive : 0 < n) where
  cancel_with-Refuses :
      (ws : List Bytes)
      → words t ≡ ws
      → Refuses (IsCancelRefusal (words s)) (cancel_with n (next t).0 (next t).1)
  unfolding cancel_with
  cancel_with-Refuses [] e =
      let none_left = (subst (λ vs. Reads vs (next t)) e (next-Reads t)).0 in
      rw none_left
        (not_one id n (words t) line numeral positive (λ h. absurd (omega (arith, ap length e, h))))
  cancel_with-Refuses (w ∷ ws) e =
      let (token, rest) = subst (λ vs. Reads vs (next t)) e (next-Reads t) in
      rw token (elim (Bool-cases (empty (next t).0).1) [
        | inl last ↦ rw last tt
        | inr more ↦ rw more (
            not_one id n (words t) line numeral positive
              (subst (λ vs. length vs ≢ 1) (sym e) (not_one_word (next t).0 w ws rest more)))
      ])

decode_cancel_order-Refuses :
    (s : Bytes) → Refuses (IsCancelRefusal (words s)) (decode_cancel_order s)
unfolding decode_cancel_order ◌>>=◌
decode_cancel_order-Refuses s =
    by_id (field parse_positive RejectReason.invalid_message s) refl (
      field-Outcome parse_positive IsPositive RejectReason.invalid_message s parse_positive-Accepts)
  where
    unread :
        (ws : List Bytes)
        → ¬ StartsPositive ws
        → (r : OrderRejected) → r ≡ anonymous RejectReason.invalid_message
        → IsCancelRefusal ws r
    unread ws none_there r e = subst (IsCancelRefusal ws) (sym e) (no_id none_there)

    by_id :
        (x : Expected (ℕ × Bytes) OrderRejected)
        → field parse_positive RejectReason.invalid_message s ≡ x
        → Outcome IsPositive RejectReason.invalid_message (words s) x
        → Refuses (IsCancelRefusal (words s)) (elim x [
          | value (n, t) ↦ cancel_with n (next t).0 (next t).1
          | unexpected r ↦ unexpected r
        ])
    by_id (value (n, t)) e h =
        let (id, line, p) = field-value parse_positive RejectReason.invalid_message s n t e in
        let (numeral, positive) = IsNumeral-parse_positive id n p in
        cancel_with-Refuses s id n t line numeral positive (words t) refl
    by_id (unexpected r) e (inl (none_left, is)) =
        unread (words s) (subst (λ ws. ¬ StartsPositive ws) (sym none_left) (λ h. h)) r is
    by_id (unexpected r) e (inr (w, rest, line, bad, is)) =
        unread (words s) (subst (λ ws. ¬ StartsPositive ws) (sym line) bad) r is

new_order-Refuses :
    (ws rest : List Bytes) (d : DecodeResult)
    → ws ≡ codes "N" ∷ rest
    → Refuses (NamesFault new_order_fields rest) d
    → Refuses (IsWordsRefusal ws) d
new_order-Refuses ws rest (value m) e h = tt
new_order-Refuses ws rest (unexpected r) e (reason, fault, is) =
    subst (IsWordsRefusal ws) (sym is) (new_order rest e reason fault)

cancel-Refuses :
    (ws rest : List Bytes) (d : DecodeResult)
    → ws ≡ codes "C" ∷ rest
    → Refuses (IsCancelRefusal rest) d
    → Refuses (IsWordsRefusal ws) d
cancel-Refuses ws rest (value m) e h = tt
cancel-Refuses ws rest (unexpected r) e h = cancel_order rest e r h

not_same : (w v : Bytes) → same w v ≡ false → w ≢ v
not_same w v other e = let known = ap (λ t. same t v) e ∙ same_refl v in cc

decode_tokens-Refuses :
    (s : Bytes) (ws : List Bytes)
    → words s ≡ ws
    → Refuses (IsWordsRefusal ws) (decode_tokens (next s).0 (next s).1)
unfolding decode_tokens
decode_tokens-Refuses s [] h =
    let none_left = (subst (λ vs. Reads vs (next s)) h (next-Reads s)).0 in
    rw none_left (no_word refl)
decode_tokens-Refuses s (w ∷ ws) h =
    let (token, rest) = subst (λ vs. Reads vs (next s)) h (next-Reads s) in
    rw token (elim (Bool-cases (same w (codes "N"))) [
      | inl is_new ↦ rw is_new (
          new_order-Refuses (w ∷ ws) (words (next s).0) _
            (ap (λ v. v ∷ ws) (same→eq w (codes "N") is_new) ∙ ap (λ vs. codes "N" ∷ vs) (sym rest))
            (decode_new_order-NamesFault (next s).0))
      | inr not_new ↦ elim (Bool-cases (same w (codes "C"))) [
        | inl is_cancel ↦
            rw (not_new, is_cancel)
              (cancel-Refuses (w ∷ ws) (words (next s).0) _
                (ap (λ v. v ∷ ws) (same→eq w (codes "C") is_cancel)
                  ∙ ap (λ vs. codes "C" ∷ vs) (sym rest))
                (decode_cancel_order-Refuses (next s).0))
        | inr neither ↦
            rw (not_new, neither)
              (unknown_type w ws refl (not_same w (codes "N") not_new)
                (not_same w (codes "C") neither))
      ]
    ])

of_words :
    (line : Bytes) (d : DecodeResult)
    → Refuses (IsWordsRefusal (words (strip line))) d
    → Refuses (IsRefusal line) d
of_words line (value m) h = tt
of_words line (unexpected r) h = by_words r h

words_of_empty : (s : Bytes) → is_empty s ≡ true → words s ≡ []
unfolding words
words_of_empty s e = ap words (nil_of_empty s e)

-- A line that is refused is refused for what is wrong with it. It has more than 256 bytes, or no
-- word, or its first word is neither N nor C: then it is a bad message that names no order. A new
-- order names no order either, and its reason is that of the first of its seven words that is
-- missing or not as it must be: a bad price or a bad quantity for a price or a quantity that is no
-- positive number, and a bad message otherwise, also for an eighth word. A cancel request is a bad
-- message; it names no order unless its id is a positive number, and then that one, since not
-- exactly one word follows the id.
pub decode-IsRefusal : (line : Bytes) → Refuses (IsRefusal line) (decode line)
unfolding decode decode_message
decode-IsRefusal line = elim (Bool-cases (ltb max_message_length (length line))) [
  | inl long ↦ rw long (too_long (ltb→lt max_message_length (length line) long))
  | inr short ↦ elim (Bool-cases (is_empty (strip line))) [
    | inl empty_line ↦
        rw (short, empty_line)
          (of_words line (unexpected (anonymous RejectReason.invalid_message))
            (no_word (words_of_empty (strip line) empty_line)))
    | inr some_text ↦
        rw (short, some_text)
          (of_words line _ (decode_tokens-Refuses (strip line) (words (strip line)) refl))
  ]
]
