-- ===== src/Protocol/Words.antt =====
-- The words of a line, and the cursor as a reader of words.
use sixchange.Base.{
  shifted, ℕ, Bytes, Bool, true, false, not, Option, none, some, List, [], ◌∷◌, ◌≡◌, refl, ap, ◌∙◌,
  inl, inr, if◌then◌else◌, Bool-cases, find_if,
}
use sixchange.Protocol.Cursor.{empty, cut, skip_to, is_blank, skip_whitespace, next}

-- Whether a word goes on at the start of the text.
abbrev goes_on : Bytes → Bool
goes_on [] = false
goes_on (c ∷ s) = not (is_blank c)

abbrev with_first : ℕ → List Bytes → List Bytes
with_first c [] = (c ∷ []) ∷ []
with_first c (w ∷ ws) = (c ∷ w) ∷ ws

-- The words of a text: its longest parts without blanks, in order.
unfoldable pub words : Bytes → List Bytes
words [] = []
words (c ∷ s) =
    let rest = words s in
    if is_blank c then rest else if goes_on s then with_first c rest else (c ∷ []) ∷ rest

-- The word at the start of a text, and what follows it.
unfoldable pub word_of : Bytes → Bytes
word_of [] = []
word_of (c ∷ s) = if is_blank c then [] else c ∷ word_of s

unfoldable pub after_word : Bytes → Bytes
after_word [] = []
after_word (c ∷ s) = if is_blank c then c ∷ s else after_word s

pub words-blank : (c : ℕ) (s : Bytes) → is_blank c ≡ true → words (c ∷ s) ≡ words s
unfolding words
words-blank c s blank = rw blank

words_end :
    (c : ℕ) (s : Bytes)
    → is_blank c ≡ false
    → goes_on s ≡ false
    → words (c ∷ s) ≡ (c ∷ []) ∷ words s
unfolding words
words_end c s plain ends = rw (plain, ends)

words_on :
    (c : ℕ) (s : Bytes)
    → is_blank c ≡ false
    → goes_on s ≡ true
    → words (c ∷ s) ≡ with_first c (words s)
unfolding words
words_on c s plain on = rw (plain, on)

pub words-word :
    (c : ℕ) (s : Bytes)
    → is_blank c ≡ false
    → words (c ∷ s) ≡ (c ∷ word_of s) ∷ words (after_word s)
unfolding word_of after_word
words-word c [] plain = words_end c [] plain refl
words-word c (d ∷ s) plain = elim (Bool-cases (is_blank d)) [
  | inl blank ↦ words_end c (d ∷ s) plain (rw blank) ∙ rw blank
  | inr more ↦
      words_on c (d ∷ s) plain (rw more) ∙ ap (with_first c) (words-word d s more) ∙ rw more
]

-- The cursor's views of a word are its parts.
cut-word : (s : Bytes) → cut s (find_if is_blank s) ≡ (after_word s, some (word_of s))
unfolding cut find_if word_of after_word
cut-word [] = refl
cut-word (c ∷ s) = elim (Bool-cases (is_blank c)) [
  | inl blank ↦ rw blank
  | inr more ↦ rw more (shift (find_if is_blank s) (cut-word s))
]
  where
    shift :
        (o : Option ℕ)
        → cut s o ≡ (after_word s, some (word_of s))
        → cut (c ∷ s) (shifted o) ≡ (after_word s, some (c ∷ word_of s))
    shift none e = cc
    shift (some n) e = cc

cut_plain :
    (c : ℕ) (s : Bytes)
    → is_blank c ≡ false
    → cut (c ∷ s) (find_if is_blank (c ∷ s)) ≡ (after_word s, some (c ∷ word_of s))
cut_plain c s plain = cut-word (c ∷ s) ∙ (unfold word_of after_word in rw plain)

skip_blank : (c : ℕ) (s : Bytes) → is_blank c ≡ true → skip_whitespace (c ∷ s) ≡ skip_whitespace s
unfolding skip_whitespace find_if
skip_blank c s blank = rw blank (shift (find_if (λ c. not (is_blank c)) s))
  where
    shift : (o : Option ℕ) → skip_to (c ∷ s) (shifted o) ≡ skip_to s o
    shift none = refl
    shift (some n) = refl

skip_plain : (c : ℕ) (s : Bytes) → is_blank c ≡ false → skip_whitespace (c ∷ s) ≡ c ∷ s
unfolding skip_whitespace find_if
skip_plain c s plain = rw plain

-- What `next` does to the words of the text: it takes the first one, if there is one.
abbrev pub Reads : List Bytes → Bytes × Option Bytes → Type 0
Reads [] (rest, token) = (token ≡ none) × (words rest ≡ [])
Reads (w ∷ ws) (rest, token) = (token ≡ some w) × (words rest ≡ ws)

pub next-Reads : (s : Bytes) → Reads (words s) (next s)
unfolding next
next-Reads [] = unfold words find_if in (refl, refl)
next-Reads (c ∷ s) = elim (Bool-cases (is_blank c)) [
  | inl blank ↦ rw (words-blank c s blank, skip_blank c s blank) (next-Reads s)
  | inr plain ↦
      rw (words-word c s plain, skip_plain c s plain)
        (ap (λ r. r.1) (cut_plain c s plain), ap (λ r. words r.0) (cut_plain c s plain))
]

-- `empty` tells whether no word is left.
abbrev pub no_words : List Bytes → Bool
no_words [] = true
no_words (w ∷ ws) = false

pub empty-words : (s : Bytes) → (empty s).1 ≡ no_words (words s)
unfolding empty
empty-words [] = unfold words find_if in refl
empty-words (c ∷ s) = elim (Bool-cases (is_blank c)) [
  | inl blank ↦ rw (words-blank c s blank, skip_blank c s blank) (empty-words s)
  | inr plain ↦ rw (words-word c s plain, skip_plain c s plain)
]
