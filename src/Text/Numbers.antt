-- ===== src/Text/Numbers.antt =====
-- `std::to_string` of an unsigned number, and `std::stoi`, `std::stoul`, `std::stoull`, which skip
-- white space, take a sign (and `0x` in base 16), read the longest run of digits, and throw
-- `invalid_argument` if there is none and `out_of_range` if the value does not fit: both are `none`.
pub mod RoundTrip
use nipovpn.Base.{
  ℕ, zero, suc, ◌+◌, ◌-◌, ◌*◌, ◌/◌, ◌%◌, ◌^◌, Bool, true, false, ◌&&◌, ◌||◌, Option, none, some,
  List, [], ◌∷◌, Bytes, ◌==◌, ltb, leb, if◌then◌else◌,
}
use mathlib.Core.Option
use nipovpn.Text.{is_space}

-- Fuel: a round divides `n` by ten, so `n + 1` rounds are enough.
unfoldable pub digits : ℕ → ℕ → Bytes → Bytes
digits zero n out = out
digits (suc fuel) n out =
    let out' : Bytes = (b'0' + n % 10) ∷ out in
    let rest = digits fuel (n / 10) out' in if n / 10 == 0 then out' else rest

unfoldable pub to_string : ℕ → Bytes
unfolding digits
to_string n = digits (suc n) n []

-- The value of a digit; 36 for a byte that is no digit in any base.
unfoldable pub digit_value : ℕ → ℕ
digit_value c =
    if leb b'0' c && leb c b'9'
    then c - 48
    else if leb b'A' c && leb c b'F'
    then c - 55
    else if leb b'a' c && leb c b'f'
    then c - 87
    else 36

unfoldable pub skip_space : Bytes → Bytes
skip_space [] = []
skip_space (c ∷ s) = if is_space c then skip_space s else c ∷ s

unfoldable pub scan : ℕ → ℕ → Bytes → ℕ
unfolding digit_value
scan base n [] = n
scan base n (c ∷ s) =
    let next = scan base (n * base + digit_value c) s in
    if ltb (digit_value c) base then next else n

unfoldable pub scan_digits : ℕ → Bytes → Option ℕ
unfolding scan digit_value
scan_digits base [] = none
scan_digits base (c ∷ s) = if ltb (digit_value c) base then some (scan base 0 (c ∷ s)) else none

-- `0x` is a prefix only before a hexadecimal digit; otherwise the `0` is the number.
unfoldable pub skip_prefix : ℕ → Bytes → Bytes
unfolding digit_value
skip_prefix base (z ∷ x ∷ c ∷ s) =
    if base == 16 && (z == b'0' && ((x == b'x' || x == b'X') && ltb (digit_value c) 16))
    then c ∷ s
    else z ∷ x ∷ c ∷ s
skip_prefix base s = s

-- The sign and the magnitude.
unfoldable pub read_number : ℕ → Bytes → Option (Bool × ℕ)
unfolding skip_prefix scan_digits
read_number base [] = none
read_number base (c ∷ s) =
    if c == b'-'
    then Option.map (λ n. (true, n)) (scan_digits base (skip_prefix base s))
    else if c == b'+'
    then Option.map (λ n. (false, n)) (scan_digits base (skip_prefix base s))
    else Option.map (λ n. (false, n)) (scan_digits base (skip_prefix base (c ∷ s)))

-- `stoul` and `stoull` (64 bits): a negative number wraps around.
abbrev pub u64_of : Bool × ℕ → Option ℕ
u64_of (negative, n) =
    if leb (2 ^ 64) n then none else some (if negative then (2 ^ 64 - n) % 2 ^ 64 else n)

abbrev pub bind {ℓ κ} : {A : Type ℓ} {B : Type κ} → Option A → (A → Option B) → Option B
bind none f = none
bind (some a) f = f a

unfoldable pub stoull : ℕ → Bytes → Option ℕ
unfolding read_number skip_space
stoull base s = bind (read_number base (skip_space s)) u64_of

-- `negsuc n` is -(n + 1).
pub data ℤ : Type 0 where
  pos : ℕ → ℤ
  negsuc : ℕ → ℤ

-- The range of a 32-bit `int`.
abbrev pub int_of : Bool × ℕ → Option ℤ
int_of (negative, n) =
    if negative
    then (if leb n (2 ^ 31) then some (if n == 0 then pos 0 else negsuc (n - 1)) else none)
    else if ltb n (2 ^ 31)
    then some (pos n)
    else none

unfoldable pub stoi : Bytes → Option ℤ
unfolding read_number skip_space
stoi s = bind (read_number 10 (skip_space s)) int_of
