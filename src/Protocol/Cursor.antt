-- ===== src/Protocol/Cursor.antt =====
-- `TokenCursor` of src/protocol/TextCodec.cpp. The cursor is the view of what remains; its
-- operations return the cursor after them.
use sixchange.Base.{
  ◌∷◌, ℕ, Bytes, Bool, true, false, not, ◌||◌, Option, none, some, ◌==◌, [], take, drop, find_if,
}

-- One of " \t".
unfoldable pub is_blank : ℕ → Bool
is_blank c = c == b' ' || c == b'\t'

-- std::string_view's `empty`.
abbrev pub is_empty : Bytes → Bool
is_empty [] = true
is_empty (c ∷ s) = false

unfoldable pub skip_to : Bytes → Option ℕ → Bytes
skip_to s none = []
skip_to s (some first) = drop first s

unfoldable pub skip_whitespace : Bytes → Bytes
unfolding skip_to is_blank
skip_whitespace remaining = skip_to remaining (find_if (λ c. not (is_blank c)) remaining)

unfoldable pub cut : Bytes → Option ℕ → Bytes × Option Bytes
cut remaining none = ([], some remaining)
cut remaining (some stop) = (drop stop remaining, some (take stop remaining))

-- `next` after its call of `skip_whitespace`.
unfoldable pub next_token : Bytes → Bytes × Option Bytes
unfolding cut
next_token [] = ([], none)
next_token (c ∷ s) = cut (c ∷ s) (find_if is_blank (c ∷ s))

unfoldable pub next : Bytes → Bytes × Option Bytes
unfolding skip_whitespace next_token
next remaining = next_token (skip_whitespace remaining)

unfoldable pub empty : Bytes → Bytes × Bool
unfolding skip_whitespace
empty remaining = let rest = skip_whitespace remaining in (rest, is_empty rest)
