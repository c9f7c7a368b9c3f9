-- ===== src/Text/Lines.antt =====
-- `std::getline` over a string stream, and the removal of the `\r` that it leaves at a line's end.
use nipovpn.Base.{
  ℕ, ◌≡◌, refl, ◌∙◌, ap, List, [], ◌∷◌, ◌++◌, map, append_assoc, append-nil, Bytes, Lacks, All,
  ◌==◌, if◌then◌else◌, ==_ne, arith,
}

abbrev pub crlf : Bytes
crlf = b'\r' ∷ b'\n' ∷ []

-- A last line with no newline counts, unless it is empty.
abbrev last_line : Bytes → List Bytes
last_line [] = []
last_line (c ∷ s) = (c ∷ s) ∷ []

unfoldable pub lines_from : Bytes → Bytes → List Bytes
lines_from current [] = last_line current
lines_from current (c ∷ s) =
    let ended = current ∷ lines_from [] s in
    let longer = lines_from (current ++ (c ∷ [])) s in if c == b'\n' then ended else longer

-- What `while (std::getline(iss, line))` reads.
abbrev pub get_lines : Bytes → List Bytes
get_lines = lines_from []

-- `if (!line.empty() && line.back() == '\r') line.pop_back();`
unfoldable pub strip_cr : Bytes → Bytes
strip_cr [] = []
strip_cr (c ∷ []) = if c == b'\r' then [] else c ∷ []
strip_cr (c ∷ d ∷ s) = c ∷ strip_cr (d ∷ s)

-- Each line with `\r\n` behind it.
abbrev pub with_crlf : List Bytes → Bytes
with_crlf [] = []
with_crlf (l ∷ ls) = l ++ (crlf ++ with_crlf ls)

lines_from-append :
    (l current s : Bytes)
    → Lacks b'\n' l
    → lines_from current (l ++ b'\n' ∷ s) ≡ (current ++ l) ∷ lines_from [] s
unfolding lines_from
lines_from-append [] current s h = rw append-nil
lines_from-append (c ∷ l) current s h =
    rw (==_ne c b'\n' h.0) (lines_from-append l (current ++ (c ∷ [])) s h.1 ∙ rw append_assoc)

strip_cr-append : (l : Bytes) → strip_cr (l ++ b'\r' ∷ []) ≡ l
unfolding strip_cr
strip_cr-append [] = refl
strip_cr-append (c ∷ []) = refl
strip_cr-append (c ∷ d ∷ s) = ap (◌∷◌ c) (strip_cr-append (d ∷ s))

Lacks-concat : (b c : ℕ) (l : Bytes) → Lacks b l → (c ≡ b → ⊥) → Lacks b (l ++ c ∷ [])
Lacks-concat b c [] h k = (k, tt)
Lacks-concat b c (x ∷ l) h k = (h.0, Lacks-concat b c l h.1 k)

-- Lines that were written with `\r\n` are read back, whatever stands behind them.
pub lines-with_crlf :
    (ls : List Bytes) (rest : Bytes)
    → All (Lacks b'\n') ls
    → map strip_cr (get_lines (with_crlf ls ++ rest)) ≡ ls ++ map strip_cr (get_lines rest)
lines-with_crlf [] rest h = refl
lines-with_crlf (l ∷ ls) rest h =
    ap (map strip_cr) (
      ap get_lines (simp append_assoc)
      ∙ lines_from-append (l ++ b'\r' ∷ []) [] (with_crlf ls ++ rest)
          (Lacks-concat b'\n' b'\r' l h.0 (λ e. omega arith)))
    ∙ rw (strip_cr-append l, lines-with_crlf ls rest h.1)
