-- ===== src/Base/Strings.antt =====
-- `std::string` and byte buffers: lists of numbers below 256, one for each byte.
use Prim.Native.Char.{code}
use Prim.Native.Nat.{ℕ, ◌<◌}
use Prim.Native.String.{String}
use mathlib.Core.Bool.{Bool, true, false}
use mathlib.Core.List.{List, [], ◌∷◌}
use mathlib.Core.Logic.{◌≢◌, ◌↔◌}
use mathlib.Core.Path.{◌≡◌, refl}
use native.Mathlib.Omega.{arith}
use nipovpn.Base.Lists.{All}
use nipovpn.Base.Tests.{◌==◌, if◌then◌else◌}

abbrev pub Bytes : Type 0
Bytes = List ℕ

-- The bytes of a literal: its code points, since every literal of the program is ASCII.
abbrev pub codes : String → Bytes
codes String.[] = []
codes (String.◌∷◌ c s) = code c ∷ codes s

abbrev pub IsByte : ℕ → Type 0
IsByte c = c < 256

abbrev pub Lacks : ℕ → Bytes → Type 0
Lacks b = All (λ c. c ≢ b)

-- `operator==` of two strings.
unfoldable pub equal : (s t : Bytes) → Bool
equal [] [] = true
equal [] (d ∷ t) = false
equal (c ∷ s) [] = false
equal (c ∷ s) (d ∷ t) = if c == d then equal s t else false

pub equal_iff : {s t : Bytes} → (equal s t ≡ true) ↔ (s ≡ t)
unfolding equal
equal_iff {s = []} {t = []} = ground arith
equal_iff {s = []} {t = d ∷ t} = ground arith
equal_iff {s = c ∷ s} {t = []} = ground arith
equal_iff {s = c ∷ s} {t = d ∷ t} = ground (arith, equal_iff {s = s} {t = t})

pub equal_refl : (a : Bytes) → equal a a ≡ true
equal_refl a = (equal_iff {s = a} {t = a}).1 refl

-- `std::string::empty`.
abbrev pub is_empty : Bytes → Bool
is_empty [] = true
is_empty (_ ∷ _) = false
