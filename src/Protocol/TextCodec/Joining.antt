-- ===== src/Protocol/TextCodec/Joining.antt =====
-- Words with one blank between two of them.

use mathlib.Core.Path.{ap₂}
use mathlib.Core.List.{append-nil}
use sixchange.Base.{ℕ, ◌≡◌, ◌≢◌, refl, sym, ap, ◌∙◌, false, List, [], ◌∷◌, ◌++◌, All, Bytes, ◌==◌}
use sixchange.Protocol.Cursor.{is_blank}
use sixchange.Protocol.Words.{words, words-blank, words-word, word_of, after_word}

-- A byte that is no blank and no carriage return.
abbrev pub IsPlain : ℕ → Type 0
IsPlain c = (is_blank c ≡ false) × ((c == b'\r') ≡ false)

pub record IsWord (w : Bytes) : Type 0 where
  pub plain : All IsPlain w
  pub nonempty : w ≢ []

-- The words of a line with one blank between two of them.
abbrev pub join : List Bytes → Bytes
join [] = []
join (w ∷ []) = w
join (w ∷ v ∷ ws) = w ++ (b' ' ∷ join (v ∷ ws))

-- What ends a word.
IsEnd : Bytes → Type 0
IsEnd e = (word_of e ≡ []) × (after_word e ≡ e)

word_of-append : (w e : Bytes) → All IsPlain w → IsEnd e → word_of (w ++ e) ≡ w
unfolding word_of IsEnd
word_of-append [] e all end = end.0
word_of-append (c ∷ w) e all end = rw all.0.0 (ap (λ v. c ∷ v) (word_of-append w e all.1 end))

after_word-append : (w e : Bytes) → All IsPlain w → IsEnd e → after_word (w ++ e) ≡ e
unfolding after_word IsEnd
after_word-append [] e all end = end.1
after_word-append (c ∷ w) e all end = rw all.0.0 (after_word-append w e all.1 end)

words-append : (w e : Bytes) → IsWord w → IsEnd e → words (w ++ e) ≡ w ∷ words e
words-append [] e k end = absurd (k.nonempty refl)
words-append (c ∷ w) e k end =
    words-word c (w ++ e) k.plain.0.0
    ∙ ap₂ (λ v r. (c ∷ v) ∷ words r) (word_of-append w e k.plain.1 end)
        (after_word-append w e k.plain.1 end)

words_one : (w : Bytes) → IsWord w → words w ≡ w ∷ []
unfolding IsEnd word_of after_word words
words_one w k = ap words (sym (append-nil w)) ∙ words-append w [] k (refl, refl)

words_first : (w s : Bytes) → IsWord w → words (w ++ (b' ' ∷ s)) ≡ w ∷ words s
unfolding IsEnd word_of after_word is_blank
words_first w s k =
    words-append w (b' ' ∷ s) k (refl, refl) ∙ ap (λ v. w ∷ v) (words-blank b' ' s refl)

-- The words of a joined line are its words.
pub words-join : (ws : List Bytes) → All IsWord ws → words (join ws) ≡ ws
words-join [] all = unfold words in refl
words-join (w ∷ []) all = words_one w all.0
words-join (w ∷ v ∷ ws) all =
    words_first w (join (v ∷ ws)) all.0 ∙ ap (λ vs. w ∷ vs) (words-join (v ∷ ws) all.1)
