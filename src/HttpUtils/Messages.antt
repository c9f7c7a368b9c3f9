-- ===== src/HttpUtils/Messages.antt =====
-- Where an HTTP message is cut: `extractHeaders` and `extractBody` on any text, and on a message
-- that was written as header lines, an empty line and a body.
use mathlib.Core.Option
use nipovpn.Base.{
  ℕ, suc, ◌+◌, ◌≡◌, ◌≢◌, refl, sym, ap, ◌∙◌, none, some, List, [], ◌∷◌, ◌++◌, append_assoc, Bytes,
  Lacks, All, length, length-append, take, drop, take_at, drop_at, length-take, take-append_le,
  drop-append_le, take-append-drop, arith, Option-cases, inl, inr, ◌⊎◌, ==_ne,
}
use nipovpn.Text.{starts_with, find}
use nipovpn.Text.Find.{
  find-here, find-later, find-Lacks, starts_with-append, find-split, find-le, find-append,
}
use nipovpn.Text.Lines.{crlf, with_crlf}
use nipovpn.HttpUtils.{header_end, extract_headers, extract_body}

-- A line of a header: not empty, and with no line break inside.
abbrev pub IsLine : Bytes → Type 0
IsLine [] = ⊥
IsLine (c ∷ l) = Lacks b'\r' (c ∷ l) × Lacks b'\n' (c ∷ l)

pub IsLine-lf : (ls : List Bytes) → All IsLine ls → All (Lacks b'\n') ls
IsLine-lf [] h = tt
IsLine-lf ([] ∷ ls) h = absurd h.0
IsLine-lf ((c ∷ l) ∷ ls) h = (h.0.1, IsLine-lf ls h.1)

abbrev pub message : List Bytes → Bytes → Bytes
message ls body = with_crlf ls ++ (crlf ++ body)

pub message-cons :
    (l : Bytes) (ls : List Bytes) (body : Bytes)
    → message (l ∷ ls) body ≡ l ++ (crlf ++ message ls body)
message-cons l ls body = simp append_assoc

find-crlf :
    (d : ℕ) (s : Bytes)
    → d ≢ b'\r'
    → find header_end (crlf ++ d ∷ s) ≡ Option.map (λ i. suc (suc i)) (find header_end (d ∷ s))
unfolding starts_with
find-crlf d s h =
    find-later header_end b'\r' (b'\n' ∷ d ∷ s) (rw (==_ne b'\r' d (λ e. h (sym e))))
    ∙ rw (find-later header_end b'\n' (d ∷ s) refl)
        (ground (arith, Option-cases (find header_end (d ∷ s))))

-- The first empty line of a message is the one behind its header lines.
find_blank :
    (l : Bytes) (ls : List Bytes) (body : Bytes)
    → Lacks b'\r' l
    → All IsLine ls
    → find header_end (l ++ (crlf ++ message ls body)) ≡ some (length l + length (with_crlf ls))
find_blank l [] body h k =
    find-Lacks b'\r' _ l _ h
    ∙ rw (find-here header_end (crlf ++ (crlf ++ body)) (starts_with-append header_end body))
find_blank l ([] ∷ ls) body h k = absurd k.0
find_blank l ((d ∷ m) ∷ ls) body h k =
    find-Lacks b'\r' _ l _ h
    ∙ rw
        (
          message-cons (d ∷ m) ls body,
          find-crlf d (m ++ (crlf ++ message ls body)) k.0.0.0,
          find_blank (d ∷ m) ls body k.0.0 k.1,
        )
        (ap some (omega (arith, length-append m (crlf ++ with_crlf ls))))

cut_at :
    (s : Bytes) (i : ℕ)
    → find header_end s ≡ some i
    → (extract_headers s ≡ take (i + 4) s) × (extract_body s ≡ drop (i + 4) s)
unfolding extract_headers extract_body
cut_at s i e = (rw (e, extract_headers), rw (e, extract_body))

take-found :
    (s : Bytes) (i : ℕ) → find header_end s ≡ some i → take (i + 4) s ≡ take i s ++ header_end
take-found s i e =
    ap (take (i + 4)) (find-split header_end s i e ∙ sym (append_assoc (take i s) header_end _))
    ∙ take_at (i + 4) (take i s ++ header_end) _ (
        omega
          (arith, length-append (take i s) header_end, length-take i s, find-le header_end s i e))

-- A text with an empty line is its headers followed by its body, and the headers end with the first
-- empty line; of any other text both are empty.
pub headers-body_split :
    (s : Bytes)
    → ((find header_end s ≡ none) × (extract_headers s ≡ []) × (extract_body s ≡ []))
      ⊎ ((i : ℕ) × (find header_end s ≡ some i)
          × (extract_headers s ++ extract_body s ≡ s)
          × (extract_headers s ≡ take i s ++ header_end))
unfolding extract_headers extract_body
headers-body_split s = elim (Option-cases (find header_end s)) [
  | inl e ↦ inl (e, rw (e, extract_headers), rw (e, extract_body))
  | inr (i, e) ↦
      let (h, b) = cut_at s i e in
      inr (i, e, rw (h, b) (take-append-drop (i + 4) s), h ∙ take-found s i e)
]

-- Where the empty line of a message begins: two bytes before the end of its header lines.
pub find-message :
    (l : Bytes) (ls : List Bytes) (body : Bytes)
    → All IsLine (l ∷ ls)
    → (i : ℕ) × (find header_end (message (l ∷ ls) body) ≡ some i)
      × (i + 2 ≡ length (with_crlf (l ∷ ls)))
find-message [] ls body h = absurd h.0
find-message (c ∷ l) ls body h = (
  length (c ∷ l) + length (with_crlf ls),
  ap (find header_end) (message-cons (c ∷ l) ls body) ∙ find_blank (c ∷ l) ls body h.0.0 h.1,
  omega (arith, length-append l (crlf ++ with_crlf ls)),
)

-- Of a message that is written as header lines, an empty line and a body, where each header line is
-- not empty and holds no line break and there is at least one, `extractHeaders` gives the lines
-- with the empty line, and `extractBody` gives the body.
pub extract-message :
    (l : Bytes) (ls : List Bytes) (body : Bytes)
    → All IsLine (l ∷ ls)
    → (extract_headers (message (l ∷ ls) body) ≡ with_crlf (l ∷ ls) ++ crlf)
      × (extract_body (message (l ∷ ls) body) ≡ body)
extract-message l ls body h =
    let (i, at, e) = find-message l ls body h in
    let (hs, b) = cut_at (message (l ∷ ls) body) i at in
    let heads = with_crlf (l ∷ ls) in
    let size : i + 4 ≡ length (heads ++ crlf) = omega (arith, length-append heads crlf) in
    let regroup = sym (append_assoc heads crlf body) in
    (
      hs ∙ (ap (take (i + 4)) regroup ∙ take_at (i + 4) (heads ++ crlf) body size),
      b ∙ (ap (drop (i + 4)) regroup ∙ drop_at (i + 4) (heads ++ crlf) body size),
    )

-- What is read behind a message whose headers are complete belongs to its body.
pub extract-append :
    (s t : Bytes) (i : ℕ)
    → find header_end s ≡ some i
    → (extract_headers (s ++ t) ≡ extract_headers s) × (extract_body (s ++ t) ≡ extract_body s ++ t)
extract-append s t i e =
    let fits = find-le header_end s i e in
    let (hs, b) = cut_at s i e in
    let (hs', b') = cut_at (s ++ t) i (find-append header_end s t i e) in
    (
      hs' ∙ take-append_le (i + 4) s t fits ∙ sym hs,
      b' ∙ drop-append_le (i + 4) s t fits ∙ ap (λ x. x ++ t) (sym b),
    )
