-- ===== src/Codec/Hex.antt =====
-- Decoding what `hexArrToStr` wrote: `hexToASCII` on the server, `strToHexArr` and `hexToInt`.
use nipovpn.Base.{
  ℕ, ◌+◌, ◌*◌, ◌/◌, ◌%◌, ◌^◌, ◌<◌, ◌≡◌, refl, ap, ◌∙◌, false, some, [], ◌∷◌, Bytes, IsByte, All,
  arith, length, ◌≤◌, lt→ltb, ==_ne,
}
use nipovpn.Text.Numbers.{stoull, digit_value, scan, skip_prefix, skip_space, read_number}
use nipovpn.Text.Numbers.RoundTrip.{stoull-read}
use nipovpn.Codec.{hex_digit, hex_arr_to_str, hex_to_int, hex_to_ascii, char_to_hex, str_to_hex_arr}

-- Two digits for each byte.
pub length-hex_arr_to_str : (s : Bytes) → length (hex_arr_to_str s) ≡ 2 * length s
unfolding hex_arr_to_str
length-hex_arr_to_str [] = omega arith
length-hex_arr_to_str (c ∷ s) = omega (arith, length-hex_arr_to_str s)

hex_digit_bounds : (d : ℕ) → d < 16 → (b'0' ≤ hex_digit d) × (hex_digit d ≤ b'f')
hex_digit_bounds d h = ground arith

digit_value-hex_digit : (d : ℕ) → d < 16 → digit_value (hex_digit d) ≡ d
unfolding digit_value
digit_value-hex_digit d h = ground arith

pub scan-hex_digit :
    (n d : ℕ) (s : Bytes) → d < 16 → scan 16 n (hex_digit d ∷ s) ≡ scan 16 (n * 16 + d) s
unfolding scan
scan-hex_digit n d s h = rw (digit_value-hex_digit d h, lt→ltb d 16 h)

skip_prefix-digits :
    (x y : ℕ) (s : Bytes) → y ≤ b'f' → (y ≡ b'X' → ⊥) → skip_prefix 16 (x ∷ y ∷ s) ≡ x ∷ y ∷ s
unfolding skip_prefix
skip_prefix-digits x y [] h k = refl
skip_prefix-digits x y (c ∷ s) h k =
    rw (==_ne y b'x' (λ e. omega arith), ==_ne y b'X' k) (ground arith)

hex_digit-ne-X : (d : ℕ) → d < 16 → hex_digit d ≡ b'X' → ⊥
hex_digit-ne-X d h = ground arith

read_number-digits :
    (x : ℕ) (s : Bytes)
    → b'0' ≤ x
    → digit_value x < 16
    → skip_prefix 16 (x ∷ s) ≡ x ∷ s
    → read_number 16 (skip_space (x ∷ s)) ≡ some (false, scan 16 0 (x ∷ s))
unfolding read_number skip_space
read_number-digits x s h k e = ground arith

-- Two or more hexadecimal digits are read as their value.
read_number-hex_digits :
    (d e : ℕ) (s : Bytes)
    → d < 16
    → e < 16
    → read_number 16 (skip_space (hex_digit d ∷ hex_digit e ∷ s))
      ≡ some (false, scan 16 (d * 16 + e) s)
read_number-hex_digits d e s hd he =
    let value : scan 16 0 (hex_digit d ∷ hex_digit e ∷ s) ≡ scan 16 (d * 16 + e) s =
      scan-hex_digit 0 d (hex_digit e ∷ s) hd
      ∙ ap (λ n. scan 16 n (hex_digit e ∷ s)) (omega arith)
      ∙ scan-hex_digit d e s he in
    read_number-digits (hex_digit d) (hex_digit e ∷ s) (hex_digit_bounds d hd).0
      (omega (arith, digit_value-hex_digit d hd))
      (skip_prefix-digits _ _ s (hex_digit_bounds e he).1 (hex_digit-ne-X e he))
    ∙ ap (λ n. some (false, n)) value

scan-nil : (n : ℕ) → scan 16 n [] ≡ n
unfolding scan
scan-nil n = refl

read_number-hex_byte :
    (c : ℕ)
    → c < 256
    → read_number 16 (skip_space (hex_digit (c / 16) ∷ hex_digit (c % 16) ∷ [])) ≡ some (false, c)
read_number-hex_byte c h =
    read_number-hex_digits (c / 16) (c % 16) [] (omega arith) (omega arith)
    ∙ ap (λ n. some (false, n)) (scan-nil (c / 16 * 16 + c % 16) ∙ omega arith)

stoull-hex_byte :
    (c : ℕ) → c < 256 → stoull 16 (hex_digit (c / 16) ∷ hex_digit (c % 16) ∷ []) ≡ some c
stoull-hex_byte c h = stoull-read 16 _ c (read_number-hex_byte c h) (omega arith)

hex_to_int-some :
    (s : Bytes) (n : ℕ)
    → read_number 16 (skip_space s) ≡ some (false, n)
    → n < 2 ^ 16
    → hex_to_int s ≡ n
unfolding hex_to_int
hex_to_int-some s n e h = rw (e, hex_to_int) (ground arith)

-- One byte, and two bytes with the most significant first, as `hexToInt` reads them.
pub hex_to_int-byte : (n : ℕ) → n < 256 → hex_to_int (hex_arr_to_str (n ∷ [])) ≡ n
unfolding hex_arr_to_str
hex_to_int-byte n h = hex_to_int-some _ n (read_number-hex_byte n h) (omega arith)

abbrev pub u16_bytes : ℕ → Bytes
u16_bytes n = (n / 256) ∷ (n % 256) ∷ []

pub hex_to_int-u16_bytes : (n : ℕ) → n < 2 ^ 16 → hex_to_int (hex_arr_to_str (u16_bytes n)) ≡ n
unfolding hex_arr_to_str
hex_to_int-u16_bytes n h =
    let c = n % 256 / 16 in
    let d = n % 256 % 16 in
    let start = n / 256 / 16 * 16 + n / 256 % 16 in
    let value : scan 16 start (hex_digit c ∷ hex_digit d ∷ []) ≡ n =
      scan-hex_digit start c (hex_digit d ∷ []) (omega arith)
      ∙ scan-hex_digit (start * 16 + c) d [] (omega arith)
      ∙ scan-nil ((start * 16 + c) * 16 + d)
      ∙ omega arith in
    hex_to_int-some _ n
      (read_number-hex_digits (n / 256 / 16) (n / 256 % 16) (hex_digit c ∷ hex_digit d ∷ [])
          (omega arith) (omega arith)
        ∙ ap (λ m. some (false, m)) value)
      h

-- For bytes below 256, `hexToASCII` gives back what `hexArrToStr` wrote, and throws nothing.
pub hex_to_ascii-hex_arr_to_str :
    (s : Bytes) → All IsByte s → hex_to_ascii (hex_arr_to_str s) ≡ some s
unfolding hex_to_ascii hex_arr_to_str
hex_to_ascii-hex_arr_to_str [] h = refl
hex_to_ascii-hex_arr_to_str (c ∷ s) h =
    rw (stoull-hex_byte c h.0, hex_to_ascii-hex_arr_to_str s h.1) (ground arith)

char_to_hex-hex_digit : (d : ℕ) → d < 16 → char_to_hex (hex_digit d) ≡ d
unfolding char_to_hex
char_to_hex-hex_digit d h = ground arith

-- For bytes below 256, `strToHexArr` gives back what `hexArrToStr` wrote.
str_to_hex_arr-hex_arr_to_str : (s : Bytes) → All IsByte s → str_to_hex_arr (hex_arr_to_str s) ≡ s
unfolding str_to_hex_arr hex_arr_to_str
str_to_hex_arr-hex_arr_to_str [] h = refl
str_to_hex_arr-hex_arr_to_str (c ∷ s) h = ground (
  arith,
  char_to_hex-hex_digit (c / 16) (omega arith),
  char_to_hex-hex_digit (c % 16) (omega arith),
  str_to_hex_arr-hex_arr_to_str s h.1,
)

-- For bytes below 256, `hexToASCII` gives back what `hexArrToStr` wrote, and throws nothing, and
-- `strToHexArr` gives it back too.
pub hex_arr_to_str-read_back :
    (s : Bytes)
    → All IsByte s
    → (hex_to_ascii (hex_arr_to_str s) ≡ some s) × (str_to_hex_arr (hex_arr_to_str s) ≡ s)
hex_arr_to_str-read_back s h = (hex_to_ascii-hex_arr_to_str s h, str_to_hex_arr-hex_arr_to_str s h)
