-- ===== src/HttpUtils/Headers.antt =====
-- What the header readers find among the lines of a message: `getRawHeader`,
-- `parseContentLength` and `trimCopy`.
use mathlib.Core.List.{map-append}
use nipovpn.Base.{
  ℕ, ◌+◌, ◌^◌, ◌<◌, ◌≡◌, refl, sym, ap, ◌∙◌, true, false, some, List, [], ◌∷◌, ◌++◌, append_assoc,
  Bytes, All, codes, length, drop, drop_at, length-append, arith,
}
use nipovpn.Text.{starts_with}
use nipovpn.Text.Find.{starts_with-append}
use nipovpn.Text.Numbers.{to_string}
use nipovpn.Text.Numbers.RoundTrip.{stoull-to_string, to_string-IsDigit, IsDigit}
use nipovpn.Text.Lines.{with_crlf, lines-with_crlf}
use nipovpn.HttpUtils.{
  to_lower_copy, trim_front, trim_copy, content_length_in, raw_header_in, get_raw_header,
  parse_content_length,
}
use nipovpn.HttpUtils.Messages.{IsLine, IsLine-lf}

-- A header line as the program writes it: `name: value`.
abbrev pub header : Bytes → Bytes → Bytes
header name value = name ++ (codes ": " ++ value)

-- The line is not for this header.
abbrev pub Misses : Bytes → Bytes → Type 0
Misses name line = starts_with (to_lower_copy name ++ codes ":") (to_lower_copy line) ≡ false

starts_with-header :
    (name value : Bytes)
    → starts_with (to_lower_copy name ++ codes ":") (to_lower_copy (header name value)) ≡ true
unfolding to_lower_copy
starts_with-header name value =
    ap (starts_with (to_lower_copy name ++ codes ":")) (
      map-append _ name _
      ∙ sym (append_assoc (to_lower_copy name) (codes ":") (to_lower_copy (codes " " ++ value))))
    ∙ starts_with-append (to_lower_copy name ++ codes ":") (to_lower_copy (codes " " ++ value))

drop-header : (name value : Bytes) → drop (length name + 1) (header name value) ≡ codes " " ++ value
drop-header name value =
    ap (drop (length name + 1)) (sym (append_assoc name (codes ":") (codes " " ++ value)))
    ∙ drop_at (length name + 1) (name ++ codes ":") _
        (omega (arith, length-append name (codes ":")))

trim_copy-blank : (value : Bytes) → trim_copy (codes " " ++ value) ≡ trim_copy value
unfolding trim_copy
trim_copy-blank value = refl

-- The first line with the name gives the value, with the blanks around it taken off.
pub raw_header_in-header :
    (before : List Bytes) (name value : Bytes) (after : List Bytes)
    → All (Misses name) before
    → raw_header_in (before ++ header name value ∷ after) name ≡ trim_copy value
unfolding raw_header_in
raw_header_in-header [] name value after h =
    rw (starts_with-header name value)
      (ap trim_copy (drop-header name value) ∙ trim_copy-blank value)
raw_header_in-header (l ∷ before) name value after h =
    rw h.0 (raw_header_in-header before name value after h.1)

pub get_raw_header-with_crlf :
    (before : List Bytes) (name value : Bytes) (after : List Bytes) (rest : Bytes)
    → All IsLine (before ++ header name value ∷ after)
    → All (Misses name) before
    → get_raw_header (with_crlf (before ++ header name value ∷ after) ++ rest) name
      ≡ trim_copy value
get_raw_header-with_crlf before name value after rest h k =
    ap (λ ls. raw_header_in ls name)
      (lines-with_crlf _ rest (IsLine-lf _ h) ∙ append_assoc before _ _)
    ∙ raw_header_in-header before name value _ k

trim_front-to_string : (n : ℕ) → trim_front (to_string n) ≡ to_string n
unfolding trim_front
trim_front-to_string n = go (to_string n) (to_string-IsDigit n)
  where
    go : (s : Bytes) → All IsDigit s → trim_front s ≡ s
    go [] h = refl
    go (c ∷ s) h = ground arith

abbrev pub content_length : Bytes
content_length = codes "Content-Length"

content_length_in-header :
    (before : List Bytes) (n : ℕ) (after : List Bytes)
    → n < 2 ^ 64
    → All (Misses content_length) before
    → content_length_in (before ++ header content_length (to_string n) ∷ after) ≡ some n
unfolding content_length_in starts_with
content_length_in-header [] n after lt h = rw (trim_front-to_string n) (stoull-to_string n lt)
content_length_in-header (l ∷ before) n after lt h =
    rw h.0 (content_length_in-header before n after lt h.1)

-- Among header lines, each not empty and with no line break, `parseContentLength` gives the number
-- below 2^64 that the first `Content-Length` line announces in decimal digits, whatever text stands
-- behind them.
pub parse_content_length-with_crlf :
    (before : List Bytes) (n : ℕ) (after : List Bytes) (rest : Bytes)
    → n < 2 ^ 64
    → All IsLine (before ++ header content_length (to_string n) ∷ after)
    → All (Misses content_length) before
    → parse_content_length
        (with_crlf (before ++ header content_length (to_string n) ∷ after) ++ rest)
      ≡ some n
parse_content_length-with_crlf before n after rest lt h k =
    ap content_length_in (lines-with_crlf _ rest (IsLine-lf _ h) ∙ append_assoc before _ _)
    ∙ content_length_in-header before n _ lt k
