-- ===== src/Codec.antt =====
-- core/src/general.hpp: the text codings (hexadecimal and Base64) and `splitString`.
pub mod Hex
pub mod Base64
pub mod Split
use nipovpn.Base.{
  ℕ, zero, suc, ◌+◌, ◌-◌, ◌*◌, ◌/◌, ◌%◌, ◌^◌, Bool, true, false, ◌&&◌, Option, none, some, List, [],
  ◌∷◌, ◌++◌, Bytes, ◌==◌, leb, ltb, if◌then◌else◌, take, drop, length, replicate, is_empty, min,
}
use nipovpn.Text.{find}
use nipovpn.Text.Numbers.{stoull, bind, read_number, skip_space}

abbrev pub hex_digit : ℕ → ℕ
hex_digit d = if ltb d 10 then d + b'0' else d - 10 + b'a'

-- hexArrToStr: two lower-case digits for each byte.
unfoldable pub hex_arr_to_str : Bytes → Bytes
hex_arr_to_str [] = []
hex_arr_to_str (c ∷ rest) = hex_digit (c / 16) ∷ hex_digit (c % 16) ∷ hex_arr_to_str rest

-- The range of an `unsigned int`: the largest for a number that is too large, and a negative number
-- wraps around.
abbrev pub u32_of : Bool × ℕ → ℕ
u32_of (negative, n) =
    if leb (2 ^ 32) n then 2 ^ 32 - 1 else if negative then (2 ^ 32 - n) % 2 ^ 32 else n

-- hexToInt: the conversion of `istream >> std::hex` leaves 0 where it reads no digit.
unfoldable pub hex_to_int : Bytes → ℕ
hex_to_int s = elim (read_number 16 (skip_space s)) [ none ↦ 0 | some r ↦ u32_of r ]

-- hexToASCII: `std::stoul` of each pair of digits; `none` is the exception that it throws.
unfoldable pub hex_to_ascii : Bytes → Option Bytes
hex_to_ascii [] = some []
hex_to_ascii (c ∷ []) = bind (stoull 16 (c ∷ [])) (λ n. some ((n % 256) ∷ []))
hex_to_ascii (c ∷ d ∷ rest) =
    let tail = hex_to_ascii rest in
    bind (stoull 16 (c ∷ d ∷ [])) (λ n. bind tail (λ s. some ((n % 256) ∷ s)))

-- charToHex
unfoldable pub char_to_hex : ℕ → ℕ
char_to_hex c =
    if leb b'0' c && leb c b'9'
    then c - b'0'
    else if leb b'A' c && leb c b'F'
    then c - b'A' + 10
    else if leb b'a' c && leb c b'f'
    then c - b'a' + 10
    else 0

-- strToHexArr: a last character without a partner is dropped.
unfoldable pub str_to_hex_arr : Bytes → Bytes
unfolding char_to_hex
str_to_hex_arr [] = []
str_to_hex_arr (c ∷ []) = []
str_to_hex_arr (c ∷ d ∷ rest) = ((16 * char_to_hex c + char_to_hex d) % 256) ∷ str_to_hex_arr rest

-- A round of the loop of `splitString`: the piece, and what stands behind the delimiter. An empty
-- rest is one more piece and ends the loop.
abbrev pub split_next : Bytes → Bytes → (Bytes → Option (List Bytes)) → Option (List Bytes)
split_next piece [] again = some (piece ∷ [] ∷ [])
split_next piece (d ∷ r) again = bind (again (d ∷ r)) (λ pieces. some (piece ∷ pieces))

-- splitString. The fuel is for an empty delimiter, on which the loop of the source never ends;
-- `none` means that it ran out.
unfoldable pub split_loop : ℕ → Bytes → Bytes → Option (List Bytes)
split_loop zero delimiter s = none
split_loop (suc fuel) delimiter [] = some []
split_loop (suc fuel) delimiter (c ∷ s) = elim (find delimiter (c ∷ s)) [
  | none ↦ some ((c ∷ s) ∷ [])
  | some i ↦
      split_next (take i (c ∷ s)) (drop (i + length delimiter) (c ∷ s)) (split_loop fuel delimiter)
]

abbrev pub split_string : Bytes → Bytes → Option (List Bytes)
split_string s delimiter = split_loop (suc (length s)) delimiter s

-- The Base64 iterators of Boost, which turn bytes into symbols and back with no padding; decoding
-- throws on a byte that is no symbol.
pub record Base64Iterators : Type 0 where
  pub symbols_of : Bytes → Bytes
  pub bytes_of : Bytes → Option Bytes

abbrev drop_padding : ℕ → Bytes → Bytes
drop_padding c [] = if c == b'=' then [] else c ∷ []
drop_padding c (d ∷ r) = c ∷ d ∷ r

-- `trim_right_if(temp, is_any_of("="))`
unfoldable pub trim_padding : Bytes → Bytes
trim_padding [] = []
trim_padding (c ∷ s) = drop_padding c (trim_padding s)

-- decode64; `none` is the `runtime_error`.
unfoldable pub decode64 : Base64Iterators → Bytes → Option Bytes
unfolding trim_padding
decode64 b s = b.bytes_of (trim_padding s)

-- encode64
unfoldable pub encode64 : Base64Iterators → Bytes → Bytes
encode64 b s = b.symbols_of s ++ replicate ((3 - length s % 3) % 3) b'='
