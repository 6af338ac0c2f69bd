-- ===== src/Protocol/TextCodec/Rejections.antt =====
-- Which word of a new order is at fault.
use sixchange.Base.{
  ℕ, ◌<◌, ◌≡◌, ◌⊎◌, inl, inr, refl, sym, ap, subst, ◌∙◌, Option, none, some, List, [], ◌∷◌, Bytes,
  Expected, value, unexpected, IsNumeral, if◌then◌else◌, not,
}
use sixchange.Core.Enums.{RejectReason}
use sixchange.Protocol.Messages.{OrderRejected}
use sixchange.Protocol.Cursor.{next, empty}
use sixchange.Protocol.Words.{words, empty-words}
use sixchange.Protocol.Parsing.{
  parse_side, parse_order_type, parse_time_in_force, side_text, order_type_text, time_in_force_text,
  parse_side-text, text-parse_side, parse_order_type-text, text-parse_order_type,
  parse_time_in_force-text, text-parse_time_in_force,
}
use sixchange.Protocol.TextCodec.{
  Decoder, decode_new_order, required, field, parsed, parse_positive, ◌>>=◌, reject,
}
use sixchange.Protocol.TextCodec.Reading.{
  parse_positive-IsNumeral, IsNumeral-parse_positive, required_read, required_none, >>=_step,
}

-- What holds of the rejection, if there is one.
abbrev pub Refuses : {A : Type 0} → (OrderRejected → Type 0) → Expected A OrderRejected → Type 0
Refuses R (value a) = Unit
Refuses R (unexpected r) = R r

abbrev pub anonymous : RejectReason → OrderRejected
anonymous reason = record { client_order_id = none; reason = reason }

abbrev pub IsPositive : Bytes → Type 0
IsPositive w = (n : ℕ) × IsNumeral w n × (0 < n)

abbrev pub AnyWord : Bytes → Type 0
AnyWord w = Unit

-- One of the texts.
abbrev pub IsText : {A : Type 0} → (A → Bytes) → Bytes → Type 0
IsText {A} text w = (x : A) × (w ≡ text x)

-- What a word must be, and the reason to refuse it if it is not.
abbrev pub Field : Type 1
Field = (Bytes → Type 0) × RejectReason

abbrev pub new_order_fields : List Field
new_order_fields =
    (IsPositive, RejectReason.invalid_message)
    ∷ (AnyWord, RejectReason.invalid_message)
    ∷ (IsText side_text, RejectReason.invalid_message)
    ∷ (IsText order_type_text, RejectReason.invalid_message)
    ∷ (IsText time_in_force_text, RejectReason.invalid_message)
    ∷ (IsPositive, RejectReason.invalid_price)
    ∷ (IsPositive, RejectReason.invalid_quantity)
    ∷ []

-- The reason for which words are refused as those fields: that of the first field that its word does
-- not suit, after good ones; a missing word and a word too many make a bad message.
abbrev pub Faulty : List Field → List Bytes → RejectReason → Type 0
Faulty [] [] reason = ⊥
Faulty [] (w ∷ ws) reason = reason ≡ RejectReason.invalid_message
Faulty (f ∷ fs) [] reason = reason ≡ RejectReason.invalid_message
Faulty (f ∷ fs) (w ∷ ws) reason = ((¬ f.0 w) × (reason ≡ f.1)) ⊎ (f.0 w × Faulty fs ws reason)

abbrev pub NamesFault : List Field → List Bytes → OrderRejected → Type 0
NamesFault fs ws r = (reason : RejectReason) × Faulty fs ws reason × (r ≡ anonymous reason)

-- What a step tells of the words: it reads one that suits its field, or there is none, or the one
-- there does not suit.
abbrev pub Outcome :
    {A : Type 0}
    → (Bytes → Type 0)
    → RejectReason
    → List Bytes
    → Expected (A × Bytes) OrderRejected
    → Type 0
Outcome Good reason ws (value (a, t)) = (w : Bytes) × (ws ≡ w ∷ words t) × Good w
Outcome Good reason ws (unexpected r) =
    ((ws ≡ []) × (r ≡ anonymous RejectReason.invalid_message))
    ⊎ ((w : Bytes) × (rest : List Bytes) × (ws ≡ w ∷ rest) × (¬ Good w) × (r ≡ anonymous reason))

Refuses-map :
    {A : Type 0} {R R' : OrderRejected → Type 0} (x : Expected A OrderRejected)
    → ((r : OrderRejected) → R r → R' r)
    → Refuses R x
    → Refuses R' x
Refuses-map (value a) f h = tt
Refuses-map (unexpected r) f h = f r h

module _ (Good : Bytes → Type 0) (reason : RejectReason) (fs : List Field) where
  of_outcome :
      (ws : List Bytes) (r : OrderRejected)
      → ((ws ≡ []) × (r ≡ anonymous RejectReason.invalid_message))
        ⊎ ((w : Bytes) × (rest : List Bytes) × (ws ≡ w ∷ rest)
            × (¬ Good w)
            × (r ≡ anonymous reason))
      → NamesFault ((Good, reason) ∷ fs) ws r
  of_outcome ws r (inl (none_left, e)) =
      subst (λ vs. NamesFault ((Good, reason) ∷ fs) vs r) (sym none_left)
        (RejectReason.invalid_message, refl, e)
  of_outcome ws r (inr (w, rest, e, bad, is)) =
      subst (λ vs. NamesFault ((Good, reason) ∷ fs) vs r) (sym e) (reason, inl (bad, refl), is)

  -- A step before others.
  chained :
      {A B : Type 0} (m : Decoder A) (f : A → Bytes → Expected B OrderRejected) (s : Bytes)
      → Outcome Good reason (words s) (m s)
      → ((a : A) (t : Bytes) → Refuses (NamesFault fs (words t)) (f a t))
      → Refuses (NamesFault ((Good, reason) ∷ fs) (words s)) ((m >>= f) s)
  unfolding ◌>>=◌
  chained {A} {B} m f s outcome later = by_step (m s) outcome
    where
      by_step :
          (x : Expected (A × Bytes) OrderRejected)
          → Outcome Good reason (words s) x
          → Refuses
              (NamesFault ((Good, reason) ∷ fs) (words s))
              (elim x [ value (a, rest) ↦ f a rest | unexpected r ↦ unexpected r ])
      by_step (value (a, t)) (w, e, good) =
          subst (λ vs. Refuses (NamesFault ((Good, reason) ∷ fs) vs) (f a t)) (sym e)
            (Refuses-map (f a t) (λ r (why, fault, is). (why, inr (good, fault), is)) (later a t))
      by_step (unexpected r) h = of_outcome (words s) r h

pub required-Outcome :
    (reason : RejectReason) (s : Bytes) → Outcome AnyWord reason (words s) (required s)
required-Outcome reason s = by_words (words s) refl
  where
    by_words : (ws : List Bytes) → words s ≡ ws → Outcome AnyWord reason ws (required s)
    by_words [] e = rw (required_none s e) (inl (refl, refl))
    by_words (w ∷ ws) e =
        let (read, rest) = required_read s w ws e in rw read (w, ap (λ vs. w ∷ vs) (sym rest), tt)

-- A parser that accepts exactly the good words.
abbrev pub Accepts : {A : Type 0} → (Bytes → Option A) → (Bytes → Type 0) → Type 0
Accepts {A} parse Good =
    ((w : Bytes) (a : A) → parse w ≡ some a → Good w) × ((w : Bytes) → parse w ≡ none → ¬ Good w)

>>=_fail :
    {A B : Type 0} (m : Decoder A) (f : A → Bytes → Expected B OrderRejected) (s : Bytes)
    (r : OrderRejected)
    → m s ≡ unexpected r
    → (m >>= f) s ≡ unexpected r
unfolding ◌>>=◌
>>=_fail m f s r e = rw (e, ◌>>=◌)

pub field-Outcome :
    {A : Type 0} (parse : Bytes → Option A) (Good : Bytes → Type 0) (reason : RejectReason)
    (s : Bytes)
    → Accepts parse Good
    → Outcome Good reason (words s) (field parse reason s)
unfolding field
field-Outcome {A} parse Good reason s accepts = by_words (words s) refl
  where
    by_parse :
        (w : Bytes) (ws : List Bytes) (t : Bytes)
        → ws ≡ words t
        → (o : Option A) → parse w ≡ o
        → Outcome Good reason (w ∷ ws) (parsed o reason t)
    by_parse w ws t e none p = unfold parsed in inr (w, ws, refl, accepts.1 w p, refl)
    by_parse w ws t e (some a) p = unfold parsed in (w, ap (λ vs. w ∷ vs) e, accepts.0 w a p)

    step : Bytes → Bytes → Expected (A × Bytes) OrderRejected
    step token = parsed (parse token) reason

    by_words : (ws : List Bytes) → words s ≡ ws → Outcome Good reason ws (field parse reason s)
    by_words [] e =
        subst (Outcome Good reason []) (sym (>>=_fail required step s _ (required_none s e)))
          (inl (refl, refl))
    by_words (w ∷ ws) e =
        let (read, rest) = required_read s w ws e in
        subst (Outcome Good reason (w ∷ ws)) (sym (>>=_step required step s w (next s).0 read))
          (by_parse w ws (next s).0 (sym rest) (parse w) refl)

pub parse_positive-Accepts : Accepts parse_positive IsPositive
parse_positive-Accepts = (
  λ w n e. let (numeral, positive) = IsNumeral-parse_positive w n e in (n, numeral, positive),
  λ w e (n, numeral, positive).
      let found = parse_positive-IsNumeral numeral positive in cc (found, e),
)

IsText-Accepts :
    {A : Type 0} (parse : Bytes → Option A) (text : A → Bytes)
    → ((w : Bytes) (a : A) → parse w ≡ some a → w ≡ text a)
    → ((a : A) → parse (text a) ≡ some a)
    → Accepts parse (IsText text)
IsText-Accepts parse text is found =
    (λ w a e. (a, is w a e), λ w e (a, h). let some_a = ap parse h ∙ found a in cc (some_a, e))

-- The fields behind each field.
abbrev from_quantity : List Field
from_quantity = (IsPositive, RejectReason.invalid_quantity) ∷ []

abbrev from_price : List Field
from_price = (IsPositive, RejectReason.invalid_price) ∷ from_quantity

abbrev from_tif : List Field
from_tif = (IsText time_in_force_text, RejectReason.invalid_message) ∷ from_price

abbrev from_type : List Field
from_type = (IsText order_type_text, RejectReason.invalid_message) ∷ from_tif

abbrev from_side : List Field
from_side = (IsText side_text, RejectReason.invalid_message) ∷ from_type

abbrev from_symbol : List Field
from_symbol = (AnyWord, RejectReason.invalid_message) ∷ from_side

pub decode_new_order-NamesFault :
    (s : Bytes) → Refuses (NamesFault new_order_fields (words s)) (decode_new_order s)
unfolding decode_new_order
decode_new_order-NamesFault s =
    chained IsPositive RejectReason.invalid_message from_symbol _ _ s
      (field-Outcome parse_positive _ _ s parse_positive-Accepts)
      (λ id s1.
        chained AnyWord RejectReason.invalid_message from_side _ _ s1 (required-Outcome _ s1)
          (λ symbol s2.
            chained (IsText side_text) RejectReason.invalid_message from_type _ _ s2
              (field-Outcome parse_side _ _ s2
                (IsText-Accepts parse_side side_text text-parse_side parse_side-text))
              (λ side s3.
                chained (IsText order_type_text) RejectReason.invalid_message from_tif _ _ s3
                  (field-Outcome parse_order_type _ _ s3 (
                    IsText-Accepts parse_order_type order_type_text text-parse_order_type
                      parse_order_type-text))
                  (λ order_type s4.
                    chained (IsText time_in_force_text) RejectReason.invalid_message from_price _ _
                      s4
                      (field-Outcome parse_time_in_force _ _ s4 (
                        IsText-Accepts parse_time_in_force time_in_force_text
                          text-parse_time_in_force parse_time_in_force-text))
                      (λ tif s5.
                        chained IsPositive RejectReason.invalid_price from_quantity _ _ s5
                          (field-Outcome parse_positive _ _ s5 parse_positive-Accepts)
                          (λ price s6.
                            chained IsPositive RejectReason.invalid_quantity [] _ _ s6
                              (field-Outcome parse_positive _ _ s6 parse_positive-Accepts)
                              (λ quantity s7. ended _ s7 (words s7) refl)))))))
  where
    ended :
        {B : Type 0} (b : B) (t : Bytes) (ws : List Bytes)
        → words t ≡ ws
        → Refuses
            (NamesFault [] (words t))
            (if not (empty t).1 then reject RejectReason.invalid_message else value b)
    ended b t [] e = rw (empty-words t, e) tt
    ended b t (w ∷ ws) e = rw (empty-words t, e) (RejectReason.invalid_message, refl, refl)
