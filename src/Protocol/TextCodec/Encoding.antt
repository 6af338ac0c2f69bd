-- ===== src/Protocol/TextCodec/Encoding.antt =====
-- What is encoded can be told apart.

use sixchange.Protocol.Words.{words}
use sixchange.Protocol.Cursor.{is_blank}
use sixchange.Base.{
  ◌≡◌, ◌≢◌, refl, sym, ap, subst, ◌∙◌, List, [], ◌∷◌, Bytes, codes, same, to_string, to_string_inj,
  to_string-IsNumeral, ℕ, zero, suc, ◌<◌, ◌^◌, Option, none, some, Bool, true, false, ◌||◌, ◌==◌,
  if◌then◌else◌, Bool-cases, inl, inr, All, is_digit, arith,
}
use sixchange.Core.EnumNames
use sixchange.Protocol.Messages.{OutboundMessage, accepted, cancelled, rejected}
use sixchange.Protocol.TextCodec.{RejectReason, encode, id_text}
use sixchange.Protocol.TextCodec.Joining.{words-join, IsPlain, IsWord, join}
use sixchange.Protocol.TextCodec.Spelling.{to_string-IsWord}

-- The words of an outbound message.
abbrev reply : OutboundMessage → List Bytes
reply (accepted m) = codes "ACCEPTED" ∷ to_string m.client_order_id ∷ to_string m.order_id ∷ []
reply (cancelled m) = codes "CANCELLED" ∷ to_string m.client_order_id ∷ to_string m.order_id ∷ []
reply (rejected m) =
    codes "REJECTED" ∷ id_text m.client_order_id ∷ codes (EnumNames.reject_reason m.reason) ∷ []

encode-join : (m : OutboundMessage) → encode m ≡ join (reply m)
unfolding encode
encode-join (accepted m) = refl
encode-join (cancelled m) = refl
encode-join (rejected m) = refl

abbrev FitsOption : Option ℕ → Type 0
FitsOption none = Unit
FitsOption (some n) = n < 2 ^ 64

-- Identifiers that are words of 64 bits.
abbrev pub Fits : OutboundMessage → Type 0
Fits (accepted m) = (m.client_order_id < 2 ^ 64) × (m.order_id < 2 ^ 64)
Fits (cancelled m) = (m.client_order_id < 2 ^ 64) × (m.order_id < 2 ^ 64)
Fits (rejected m) = FitsOption m.client_order_id

-- A decision that a text is a word.
is_plain : Bytes → Bool
is_plain [] = true
is_plain (c ∷ s) = if is_blank c || c == b'\r' then false else is_plain s

is_word : Bytes → Bool
is_word [] = false
is_word (c ∷ s) = is_plain (c ∷ s)

All-is_plain : (s : Bytes) → is_plain s ≡ true → All IsPlain s
unfolding is_plain
All-is_plain [] e = tt
All-is_plain (c ∷ s) e = elim (Bool-cases (is_blank c || c == b'\r')) [
  | inl bad ↦ cc
  | inr good ↦ (ground arith, All-is_plain s cc)
]

is_word-IsWord : (s : Bytes) → is_word s ≡ true → IsWord s
unfolding is_word
is_word-IsWord [] e = cc
is_word-IsWord (c ∷ s) e = record { plain = All-is_plain (c ∷ s) e; nonempty = λ h. cc }

reject_reason-IsWord : (r : RejectReason) → IsWord (codes (EnumNames.reject_reason r))
unfolding is_word is_plain is_blank EnumNames.reject_reason
reject_reason-IsWord r =
    is_word-IsWord _ (elim r as (λ k. is_word (codes (EnumNames.reject_reason k)) ≡ true) [
      | RejectReason.none ↦ refl
      | RejectReason.invalid_message ↦ refl
      | RejectReason.unknown_symbol ↦ refl
      | RejectReason.invalid_price ↦ refl
      | RejectReason.invalid_quantity ↦ refl
      | RejectReason.duplicate_client_order_id ↦ refl
      | RejectReason.unknown_order ↦ refl
      | RejectReason.not_order_owner ↦ refl
      | RejectReason.unsupported_order_type ↦ refl
      | RejectReason.unsupported_time_in_force ↦ refl
      | RejectReason.gateway_error ↦ refl
      | RejectReason.capacity_exhausted ↦ refl
      | RejectReason.matching_engine_error ↦ refl
    ])

reasons : List RejectReason
reasons =
    RejectReason.invalid_message ∷ RejectReason.unknown_symbol ∷ RejectReason.invalid_price
    ∷ RejectReason.invalid_quantity ∷ RejectReason.duplicate_client_order_id
    ∷ RejectReason.unknown_order ∷ RejectReason.not_order_owner
    ∷ RejectReason.unsupported_order_type ∷ RejectReason.unsupported_time_in_force
    ∷ RejectReason.gateway_error ∷ RejectReason.capacity_exhausted
    ∷ RejectReason.matching_engine_error ∷ []

-- The reason with that name among those given, else `none`.
named : List RejectReason → Bytes → RejectReason
named [] s = RejectReason.none
named (r ∷ rs) s =
    let rest = named rs s in if same s (codes (EnumNames.reject_reason r)) then r else rest

named-reject_reason : (r : RejectReason) → named reasons (codes (EnumNames.reject_reason r)) ≡ r
unfolding named reasons EnumNames.reject_reason
named-reject_reason r = elim r as (λ k. named reasons (codes (EnumNames.reject_reason k)) ≡ k) [
  | RejectReason.none ↦ refl
  | RejectReason.invalid_message ↦ refl
  | RejectReason.unknown_symbol ↦ refl
  | RejectReason.invalid_price ↦ refl
  | RejectReason.invalid_quantity ↦ refl
  | RejectReason.duplicate_client_order_id ↦ refl
  | RejectReason.unknown_order ↦ refl
  | RejectReason.not_order_owner ↦ refl
  | RejectReason.unsupported_order_type ↦ refl
  | RejectReason.unsupported_time_in_force ↦ refl
  | RejectReason.gateway_error ↦ refl
  | RejectReason.capacity_exhausted ↦ refl
  | RejectReason.matching_engine_error ↦ refl
]

reject_reason_inj :
    (r r' : RejectReason)
    → codes (EnumNames.reject_reason r) ≡ codes (EnumNames.reject_reason r')
    → r ≡ r'
reject_reason_inj r r' e =
    sym (named-reject_reason r) ∙ ap (named reasons) e ∙ named-reject_reason r'

id_text-IsWord : (o : Option ℕ) → FitsOption o → IsWord (id_text o)
unfolding id_text is_word is_plain is_blank
id_text-IsWord none fits = is_word-IsWord _ refl
id_text-IsWord (some n) fits = to_string-IsWord n fits

-- A dash is no number.
to_string-dash : (n : ℕ) → n < 2 ^ 64 → to_string n ≢ codes "-"
to_string-dash n h e =
    let digits : All (λ c. is_digit c ≡ true) (codes "-") =
      subst (All (λ c. is_digit c ≡ true)) e (to_string-IsNumeral n h).digits in
    cc digits.0

id_text_inj : (o o' : Option ℕ) → FitsOption o → FitsOption o' → id_text o ≡ id_text o' → o ≡ o'
unfolding id_text
id_text_inj none none fits fits' e = refl
id_text_inj none (some n) fits fits' e = absurd (to_string-dash n fits' (sym e))
id_text_inj (some n) none fits fits' e = absurd (to_string-dash n fits e)
id_text_inj (some n) (some n') fits fits' e = ap some (to_string_inj n n' fits fits' e)

All-reply : (m : OutboundMessage) → Fits m → All IsWord (reply m)
unfolding is_word is_plain is_blank
All-reply (accepted m) (id, order) =
    (is_word-IsWord _ refl, (to_string-IsWord _ id, (to_string-IsWord _ order, tt)))
All-reply (cancelled m) (id, order) =
    (is_word-IsWord _ refl, (to_string-IsWord _ id, (to_string-IsWord _ order, tt)))
All-reply (rejected m) fits =
    (is_word-IsWord _ refl, (id_text-IsWord _ fits, (reject_reason-IsWord _, tt)))

reply-encode : (m : OutboundMessage) → Fits m → words (encode m) ≡ reply m
reply-encode m fits = ap words (encode-join m) ∙ words-join (reply m) (All-reply m fits)

-- The first byte of the first word.
abbrev initial : List Bytes → ℕ
initial [] = 0
initial ([] ∷ ws) = 0
initial ((c ∷ w) ∷ ws) = c

abbrev word_at : ℕ → List Bytes → Bytes
word_at k [] = []
word_at zero (w ∷ ws) = w
word_at (suc k) (w ∷ ws) = word_at k ws

reply_inj : (m n : OutboundMessage) → Fits m → Fits n → reply m ≡ reply n → m ≡ n
reply_inj (accepted m) (accepted n) fm fn e =
    let id = to_string_inj _ _ fm.0 fn.0 (ap (word_at 1) e) in
    let order = to_string_inj _ _ fm.1 fn.1 (ap (word_at 2) e) in cc
reply_inj (cancelled m) (cancelled n) fm fn e =
    let id = to_string_inj _ _ fm.0 fn.0 (ap (word_at 1) e) in
    let order = to_string_inj _ _ fm.1 fn.1 (ap (word_at 2) e) in cc
reply_inj (rejected m) (rejected n) fm fn e =
    let id = id_text_inj _ _ fm fn (ap (word_at 1) e) in
    let reason = reject_reason_inj _ _ (ap (word_at 2) e) in cc
reply_inj (accepted m) (cancelled n) fm fn e = absurd (omega (arith, ap initial e))
reply_inj (accepted m) (rejected n) fm fn e = absurd (omega (arith, ap initial e))
reply_inj (cancelled m) (accepted n) fm fn e = absurd (omega (arith, ap initial e))
reply_inj (cancelled m) (rejected n) fm fn e = absurd (omega (arith, ap initial e))
reply_inj (rejected m) (accepted n) fm fn e = absurd (omega (arith, ap initial e))
reply_inj (rejected m) (cancelled n) fm fn e = absurd (omega (arith, ap initial e))

-- Two outbound messages that are encoded as the same line are the same message. Their identifiers
-- are words of 64 bits.
pub encode_inj : (m n : OutboundMessage) → Fits m → Fits n → encode m ≡ encode n → m ≡ n
encode_inj m n fm fn e =
    reply_inj m n fm fn (sym (reply-encode m fm) ∙ ap words e ∙ reply-encode n fn)
