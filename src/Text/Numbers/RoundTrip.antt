-- ===== src/Text/Numbers/RoundTrip.antt =====
-- Reading back what `std::to_string` prints.
use nipovpn.Base.{
  ℕ, zero, suc, ◌+◌, ◌-◌, ◌/◌, ◌%◌, ◌^◌, ◌≤◌, ◌<◌, ◌≡◌, ◌≢◌, refl, ◌∙◌, ap, false, some, [], ◌∷◌,
  Bytes, arith, All,
}
use nipovpn.Text.Numbers.{
  digits, to_string, digit_value, skip_space, scan, skip_prefix, read_number, stoull, stoi, pos,
}

abbrev pub IsDigit : ℕ → Type 0
IsDigit c = (b'0' ≤ c) × (c ≤ b'9')

pub digit_value-IsDigit : (c : ℕ) → IsDigit c → digit_value c ≡ c - 48
unfolding digit_value
digit_value-IsDigit c h = ground arith

digits-IsDigit : (f n : ℕ) (out : Bytes) → All IsDigit out → All IsDigit (digits f n out)
unfolding digits
digits-IsDigit zero n out h = h
digits-IsDigit (suc f) n out h =
    ground (arith, digits-IsDigit f (n / 10) ((b'0' + n % 10) ∷ out) (omega arith, h))

digits-ne-nil : (f n : ℕ) (out : Bytes) → out ≢ [] → digits f n out ≢ []
unfolding digits
digits-ne-nil zero n out h = h
digits-ne-nil (suc f) n out h =
    ground (arith, digits-ne-nil f (n / 10) ((b'0' + n % 10) ∷ out) (λ e. cc))

-- Reading the last digit of `n` behind the digits before it gives `n`.
scan_last : (n : ℕ) (out : Bytes) → scan 10 (n / 10) ((b'0' + n % 10) ∷ out) ≡ scan 10 n out
unfolding scan
scan_last n out = ground (arith, digit_value-IsDigit (b'0' + n % 10) (omega arith))

scan-digits : (f n : ℕ) (out : Bytes) → n < f → scan 10 0 (digits f n out) ≡ scan 10 n out
unfolding digits
scan-digits zero n out h = absurd (omega arith)
scan-digits (suc f) n out h =
    ground (arith, scan-digits f (n / 10) ((b'0' + n % 10) ∷ out), scan_last n out)

scan-digits_all : (n : ℕ) → scan 10 0 (digits (suc n) n []) ≡ n
unfolding scan
scan-digits_all n = scan-digits (suc n) n [] (omega arith)

digits-suc-ne-nil : (f n : ℕ) → digits (suc f) n [] ≢ []
unfolding digits
digits-suc-ne-nil f n = ground (arith, digits-ne-nil f (n / 10) ((b'0' + n % 10) ∷ []))

skip_prefix-ten : (s : Bytes) → skip_prefix 10 s ≡ s
unfolding skip_prefix
skip_prefix-ten (z ∷ x ∷ c ∷ s) = refl
skip_prefix-ten [] = refl
skip_prefix-ten _ = refl

-- A text of digits is read whole, as a number with no sign.
read_number-IsDigit :
    (c : ℕ) (s : Bytes)
    → All IsDigit (c ∷ s)
    → read_number 10 (skip_space (c ∷ s)) ≡ some (false, scan 10 0 (c ∷ s))
unfolding read_number skip_space
read_number-IsDigit c s h = ground (arith, skip_prefix-ten (c ∷ s), digit_value-IsDigit c h.0)

read_number-to_string : (n : ℕ) → read_number 10 (skip_space (to_string n)) ≡ some (false, n)
unfolding to_string
read_number-to_string n = go (digits (suc n) n []) refl (digits-IsDigit (suc n) n [] tt)
  where
    go :
        (s : Bytes)
        → digits (suc n) n [] ≡ s
        → All IsDigit s
        → read_number 10 (skip_space s) ≡ some (false, n)
    go [] e h = absurd (digits-suc-ne-nil n n e)
    go (c ∷ s) e h =
        read_number-IsDigit c s h ∙ ap (λ m. some (false, m)) (rw (← e) (scan-digits_all n))

pub stoull-read :
    (base : ℕ) (s : Bytes) (n : ℕ)
    → read_number base (skip_space s) ≡ some (false, n)
    → n < 2 ^ 64
    → stoull base s ≡ some n
unfolding stoull
stoull-read base s n e h = rw e (ground arith)

-- A 64-bit number is read back from its decimal print.
pub stoull-to_string : (n : ℕ) → n < 2 ^ 64 → stoull 10 (to_string n) ≡ some n
stoull-to_string n h = stoull-read 10 (to_string n) n (read_number-to_string n) h

-- So is a non-negative 32-bit `int`.
pub stoi-to_string : (n : ℕ) → n < 2 ^ 31 → stoi (to_string n) ≡ some (pos n)
unfolding stoi
stoi-to_string n h = rw (read_number-to_string n) (ground arith)

pub to_string-IsDigit : (n : ℕ) → All IsDigit (to_string n)
unfolding to_string
to_string-IsDigit n = digits-IsDigit (suc n) n [] tt
