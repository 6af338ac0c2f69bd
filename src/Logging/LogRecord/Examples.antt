-- ===== src/Logging/LogRecord/Examples.antt =====
-- An inline string of three bytes.
use sixchange.Base.{◌≡◌, refl, codes, true}
use sixchange.Logging.LogRecord.{make_inline_string}
use sixchange.Logging.LogRecord.Bounds.{IsInline, make_inline_string-IsInline}

cuts_text : make_inline_string 3 (codes "AAPL") ≡ record { view = codes "AAP"; truncated = true }
unfolding make_inline_string
cuts_text = refl

make_inline_string-IsInline_example :
    IsInline 3 (codes "AAPL") (make_inline_string 3 (codes "AAPL"))
make_inline_string-IsInline_example = make_inline_string-IsInline 3 (codes "AAPL")
