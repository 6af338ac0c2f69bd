-- ===== src/Cli/Examples.antt =====
-- A session with a bad line between two orders.
use sixchange.Core.Config.{Platform}
use sixchange.Base.{true, List, [], ◌∷◌, Bytes, codes}

abbrev lines : List Bytes
lines = codes "N 1 AAPL S L GFD 100 20" ∷ codes "N 2 AAPL" ∷ codes "N 1 AAPL B L GFD 100 5" ∷ []

-- A debug build with memory for every book.
abbrev debug : Platform
debug = record { assertions = true; allocates = λ c. true }
