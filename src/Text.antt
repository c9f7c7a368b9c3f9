-- ===== src/Text.antt =====
-- The operations of `std::string`, the number conversions and `std::getline` that the program
-- calls. A position is a number of bytes; `none` stands for `npos`.
pub mod Find
pub mod Numbers
pub mod Lines
use nipovpn.Base.{
  ℕ, zero, suc, Bool, true, false, ◌&&◌, ◌||◌, Option, none, some, List, [], ◌∷◌, Bytes, ◌==◌,
  if◌then◌else◌, leb,
}
use mathlib.Core.Option

-- `s.rfind(p, 0) == 0`.
unfoldable pub starts_with : Bytes → Bytes → Bool
starts_with [] s = true
starts_with (x ∷ p) [] = false
starts_with (x ∷ p) (c ∷ s) = x == c && starts_with p s

-- `s.find(p)`.
unfoldable pub find : Bytes → Bytes → Option ℕ
unfolding starts_with
find p [] = if starts_with p [] then some 0 else none
find p (c ∷ s) = if starts_with p (c ∷ s) then some 0 else Option.map suc (find p s)

abbrev pub is_some {ℓ} : {A : Type ℓ} → Option A → Bool
is_some none = false
is_some (some _) = true

-- `s.find(c)` and `s.rfind(c)` for one character.
unfoldable pub find_char : ℕ → Bytes → Option ℕ
find_char x [] = none
find_char x (c ∷ s) = if x == c then some 0 else Option.map suc (find_char x s)

abbrev later : Bool → Option ℕ → Option ℕ
later here (some i) = some (suc i)
later true none = some 0
later false none = none

unfoldable pub rfind_char : ℕ → Bytes → Option ℕ
rfind_char x [] = none
rfind_char x (c ∷ s) = later (x == c) (rfind_char x s)

-- `isspace` in the C locale.
abbrev pub is_space : ℕ → Bool
is_space c = c == 32 || (leb 9 c && leb c 13)
