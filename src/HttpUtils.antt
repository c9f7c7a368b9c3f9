-- ===== src/HttpUtils.antt =====
-- core/src/http_utils.hpp, to which the `HttpUtils` structs of TCPConnection, TCPClient and
-- ServerHandler delegate: the text of HTTP messages.
pub mod Messages
pub mod Headers
use mathlib.Core.Bool.{not}
use nipovpn.Base.{
  ℕ, zero, suc, ◌+◌, Bool, true, false, ◌&&◌, ◌||◌, Option, none, some, List, [], ◌∷◌, ◌++◌, map,
  Bytes, codes, ◌==◌, leb, if◌then◌else◌, take, drop, length,
}
use nipovpn.Text.{starts_with, find, find_char, is_some}
use nipovpn.Text.Numbers.{to_string, stoull}
use nipovpn.Text.Lines.{get_lines, strip_cr, crlf}

abbrev pub header_end : Bytes
header_end = codes "\r\n\r\n"

abbrev pub front_is : ℕ → Bytes → Bool
front_is x [] = false
front_is x (c ∷ s) = c == x

abbrev pub back_is : ℕ → Bytes → Bool
back_is x [] = false
back_is x (c ∷ []) = c == x
back_is x (c ∷ d ∷ s) = back_is x (d ∷ s)

-- makeHostPort
unfoldable pub make_host_port : Bytes → ℕ → Bytes
make_host_port host port =
    if is_some (find_char b':' host)
      && not (leb 2 (length host) && (front_is b'[' host && back_is b']' host))
    then codes "[" ++ (host ++ (codes "]:" ++ to_string port))
    else host ++ (codes ":" ++ to_string port)

-- `std::tolower` in the C locale.
unfoldable pub to_lower : ℕ → ℕ
to_lower c = if leb b'A' c && leb c b'Z' then c + 32 else c

-- toLowerCopy
unfoldable pub to_lower_copy : Bytes → Bytes
unfolding to_lower
to_lower_copy = map to_lower

abbrev pub is_blank : ℕ → Bool
is_blank c = c == b' ' || c == b'\t'

abbrev pub is_trailing : ℕ → Bool
is_trailing c = c == b' ' || (c == b'\t' || (c == b'\r' || c == b'\n'))

-- The first loop of `trimCopy`; also `erase(0, find_first_not_of(" \t"))`.
unfoldable pub trim_front : Bytes → Bytes
trim_front [] = []
trim_front (c ∷ s) = let rest = trim_front s in if is_blank c then rest else c ∷ s

abbrev drop_back : ℕ → Bytes → Bytes
drop_back c [] = if is_trailing c then [] else c ∷ []
drop_back c (d ∷ s) = c ∷ d ∷ s

-- The second loop of `trimCopy`, from the end of the text.
unfoldable pub trim_back : Bytes → Bytes
trim_back [] = []
trim_back (c ∷ s) = drop_back c (trim_back s)

-- trimCopy
unfoldable pub trim_copy : Bytes → Bytes
unfolding trim_front trim_back
trim_copy s = trim_back (trim_front s)

-- extractHeaders: up to and with the empty line; nothing if there is none.
unfoldable pub extract_headers : Bytes → Bytes
extract_headers message = elim (find header_end message) [
  | none ↦ []
  | some i ↦ take (i + 4) message
]

-- extractBody
unfoldable pub extract_body : Bytes → Bytes
extract_body message = elim (find header_end message) [ none ↦ [] | some i ↦ drop (i + 4) message ]

-- The loops below go over the lines with the `\r` taken off.
abbrev pub header_lines : Bytes → List Bytes
header_lines headers = map strip_cr (get_lines headers)

-- parseContentLength; `none` is `false`. The first such line decides.
unfoldable pub content_length_in : List Bytes → Option ℕ
unfolding to_lower_copy trim_front
content_length_in [] = none
content_length_in (line ∷ ls) =
    let rest = content_length_in ls in
    if starts_with (codes "content-length:") (to_lower_copy line)
    then stoull 10 (trim_front (drop (length (codes "Content-Length:")) line))
    else rest

abbrev pub parse_content_length : Bytes → Option ℕ
parse_content_length headers = content_length_in (header_lines headers)

-- isChunked
unfoldable pub chunked_in : List Bytes → Bool
unfolding to_lower_copy
chunked_in [] = false
chunked_in (line ∷ ls) =
    let rest = chunked_in ls in
    if starts_with (codes "transfer-encoding:") (to_lower_copy line)
      && is_some (find (codes "chunked") (to_lower_copy line))
    then true
    else rest

abbrev pub is_chunked : Bytes → Bool
is_chunked headers = chunked_in (header_lines headers)

-- getRawHeader; the empty text if no line has the name.
unfoldable pub raw_header_in : List Bytes → Bytes → Bytes
unfolding to_lower_copy trim_copy
raw_header_in [] name = []
raw_header_in (line ∷ ls) name =
    let rest = raw_header_in ls name in
    if starts_with (to_lower_copy name ++ codes ":") (to_lower_copy line)
    then trim_copy (drop (length name + 1) line)
    else rest

abbrev pub get_raw_header : Bytes → Bytes → Bytes
get_raw_header headers name = raw_header_in (header_lines headers) name
