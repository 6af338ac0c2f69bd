-- ===== src/Protocol/TextCodec/Reading.antt =====
-- The steps of the decoders as readers of words.

use sixchange.Base.{
  true, ℕ, zero, suc, ◌<◌, ◌≡◌, refl, sym, ap, subst, ◌∙◌, Option, none, some, List, [], ◌∷◌, arith,
  Bytes, IsNumeral, Expected, value, unexpected,
}
use sixchange.Core.Enums.{RejectReason}
use sixchange.Protocol.Messages.{OrderRejected}
use sixchange.Protocol.Cursor.{empty, next}
use sixchange.Protocol.Words.{no_words, empty-words, words, Reads, next-Reads}
use sixchange.Protocol.Parsing.{parse_unsigned, parse_unsigned-IsNumeral, IsNumeral-parse_unsigned}
use sixchange.Protocol.TextCodec.{
  reject, Decoder, ◌>>=◌, required, field, parsed, nonzero, parse_positive,
}

pub parse_positive-IsNumeral :
    {t : Bytes} {n : ℕ} → IsNumeral t n → 0 < n → parse_positive t ≡ some n
unfolding parse_positive
parse_positive-IsNumeral {n = zero} k pos = elim pos [ ]
parse_positive-IsNumeral {n = suc n} k pos = rw (parse_unsigned-IsNumeral k)

pub IsNumeral-parse_positive :
    (t : Bytes) (n : ℕ) → parse_positive t ≡ some n → IsNumeral t n × (0 < n)
unfolding parse_positive
IsNumeral-parse_positive t n e = positive (parse_unsigned t) refl e
  where
    positive : (o : Option ℕ) → parse_unsigned t ≡ o → nonzero o ≡ some n → IsNumeral t n × (0 < n)
    positive none h e = cc
    positive (some zero) h e = cc
    positive (some (suc m)) h e =
        let same_number : suc m ≡ n = cc in
        (IsNumeral-parse_unsigned t n (h ∙ e), omega (arith, same_number))

-- A chain that succeeds, and a step of a chain.
pub >>=-value :
    {A B : Type 0} (m : Decoder A) (f : A → Bytes → Expected B OrderRejected) (s : Bytes) (b : B)
    → (m >>= f) s ≡ value b
    → (a : A) × (rest : Bytes) × (m s ≡ value (a, rest)) × (f a rest ≡ value b)
unfolding ◌>>=◌
>>=-value {A} {B} m f s b e = after (m s) refl e
  where
    after :
        (o : Expected (A × Bytes) OrderRejected)
        → m s ≡ o
        → elim o [ value (a, rest) ↦ f a rest | unexpected r ↦ unexpected r ] ≡ value b
        → (a : A) × (rest : Bytes) × (m s ≡ value (a, rest)) × (f a rest ≡ value b)
    after (value (a, rest)) h e = (a, rest, h, e)
    after (unexpected r) h e = cc

pub >>=_step :
    {A B : Type 0} (m : Decoder A) (f : A → Bytes → Expected B OrderRejected) (s : Bytes) (a : A)
    (rest : Bytes)
    → m s ≡ value (a, rest)
    → (m >>= f) s ≡ f a rest
unfolding ◌>>=◌
>>=_step m f s a rest e = rw (e, ◌>>=◌)

pub required_read :
    (s w : Bytes) (ws : List Bytes)
    → words s ≡ w ∷ ws
    → (required s ≡ value (w, (next s).0)) × (words (next s).0 ≡ ws)
unfolding required
required_read s w ws e = let r = subst (λ vs. Reads vs (next s)) e (next-Reads s) in (rw r.0, r.1)

pub required_none : (s : Bytes) → words s ≡ [] → required s ≡ reject RejectReason.invalid_message
unfolding required
required_none s e = let r = subst (λ vs. Reads vs (next s)) e (next-Reads s) in rw r.0

pub required-value : (s t rest : Bytes) → required s ≡ value (t, rest) → words s ≡ t ∷ words rest
required-value s t rest e = by_words (words s) refl
  where
    by_words : (ws : List Bytes) → words s ≡ ws → words s ≡ t ∷ words rest
    by_words [] h = let none_left = required_none s h in cc
    by_words (w ∷ ws) h =
        let r = required_read s w ws h in
        let same_value : ◌≡◌ {A = Expected (Bytes × Bytes) OrderRejected} (value (w, (next s).0))
            (value (t, rest)) =
          sym r.0 ∙ e in
        let same_word : w ≡ t = cc in
        let same_rest : (next s).0 ≡ rest = cc in
        h ∙ ap (λ v. v ∷ ws) same_word ∙ ap (λ vs. t ∷ vs) (sym r.1 ∙ ap words same_rest)

module _ {A : Type 0} (parse : Bytes → Option A) (reason : RejectReason) where
  pub field_read :
      (s w : Bytes) (ws : List Bytes) (a : A)
      → words s ≡ w ∷ ws
      → parse w ≡ some a
      → (field parse reason s ≡ value (a, (next s).0)) × (words (next s).0 ≡ ws)
  unfolding field
  field_read s w ws a e p =
      let r = required_read s w ws e in
      (>>=_step required (λ token. parsed (parse token) reason) s w (next s).0 r.0 ∙ rw p, r.1)

  pub field-value :
      (s : Bytes) (a : A) (rest : Bytes)
      → field parse reason s ≡ value (a, rest)
      → (w : Bytes) × (words s ≡ w ∷ words rest) × (parse w ≡ some a)
  unfolding field
  field-value s a rest e =
      let (w, rest', read, done) =
        >>=-value required (λ token. parsed (parse token) reason) s (a, rest) e in
      parse_done w rest' read (parse w) refl done
    where
      parse_done :
          (w rest' : Bytes)
          → required s ≡ value (w, rest')
          → (o : Option A) → parse w ≡ o
          → parsed o reason rest' ≡ value (a, rest)
          → (w : Bytes) × (words s ≡ w ∷ words rest) × (parse w ≡ some a)
      parse_done w rest' read none h done = cc
      parse_done w rest' read (some b) h done =
          let same_value : b ≡ a = cc in
          let same_rest : rest' ≡ rest = cc in
          (
            w,
            required-value s w rest' read ∙ ap (λ t. w ∷ words t) same_rest,
            h ∙ ap (λ x. some x) same_value,
          )

pub end_of : (s : Bytes) → words s ≡ [] → (empty s).1 ≡ true
end_of s e = empty-words s ∙ ap no_words e

pub words-nil : (s : Bytes) → (empty s).1 ≡ true → words s ≡ []
words-nil s e = by_words (words s) refl (sym (empty-words s) ∙ e)
  where
    by_words : (ws : List Bytes) → words s ≡ ws → no_words ws ≡ true → words s ≡ []
    by_words [] h all = h
    by_words (w ∷ ws) h all = cc
