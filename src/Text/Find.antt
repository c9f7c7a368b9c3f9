-- ===== src/Text/Find.antt =====
-- What `find` returns: the first place where the text stands, if there is one.
use mathlib.Core.Option
use nipovpn.Base.{
  ℕ, suc, ◌+◌, ◌≤◌, ◌≡◌, refl, sym, ap, ◌∙◌, true, false, none, some, [], ◌∷◌, ◌++◌, Bytes, Lacks,
  arith, length, length-append, take, drop, Bool-cases, Option-cases, ◌==◌, ==_refl, ==_ne, inl,
  inr,
}
use nipovpn.Text.{starts_with, find, find_char, rfind_char}

pub starts_with-append : (p s : Bytes) → starts_with p (p ++ s) ≡ true
unfolding starts_with
starts_with-append [] s = refl
starts_with-append (x ∷ p) s = rw (==_refl x) (starts_with-append p s)

pub starts_with-drop : (p s : Bytes) → starts_with p s ≡ true → s ≡ p ++ drop (length p) s
unfolding starts_with
starts_with-drop [] s h = refl
starts_with-drop (x ∷ p) [] h = cc
starts_with-drop (x ∷ p) (c ∷ s) h = ground (arith, starts_with-drop p s)

pub find-here : (p s : Bytes) → starts_with p s ≡ true → find p s ≡ some 0
unfolding find
find-here p [] h = rw h
find-here p (c ∷ s) h = rw h

pub find-later :
    (p : Bytes) (c : ℕ) (s : Bytes)
    → starts_with p (c ∷ s) ≡ false
    → find p (c ∷ s) ≡ Option.map suc (find p s)
unfolding find
find-later p c s h = rw h

find-later_some :
    (p : Bytes) (c : ℕ) (s : Bytes) {i : ℕ}
    → starts_with p (c ∷ s) ≡ false
    → find p (c ∷ s) ≡ some i
    → (j : ℕ) × (find p s ≡ some j) × (i ≡ suc j)
find-later_some p c s h e = elim (Option-cases (find p s)) [
  | inl no_more ↦ cc (find-later p c s h, no_more)
  | inr (j, f) ↦ (j, f, ground (arith, find-later p c s h))
]

-- A text that is found stands there.
pub find-split :
    (p s : Bytes) (i : ℕ) → find p s ≡ some i → s ≡ take i s ++ (p ++ drop (length p) (drop i s))
unfolding find
find-split p [] i h = elim (Bool-cases (starts_with p [])) [
  | inl here ↦ let e : i ≡ 0 = ground arith in rw e (starts_with-drop p [] here)
  | inr e ↦ ground arith
]
find-split p (c ∷ s) i h = elim (Bool-cases (starts_with p (c ∷ s))) [
  | inl here ↦ let e : i ≡ 0 = ground arith in rw e (starts_with-drop p (c ∷ s) here)
  | inr not_here ↦
      let (j, f, e) = find-later_some p c s not_here h in rw e (ap (◌∷◌ c) (find-split p s j f))
]

length-found : (p s : Bytes) (i : ℕ) → starts_with p s ≡ true → i ≡ 0 → i + length p ≤ length s
length-found p s i here e =
    omega (arith, ap length (starts_with-drop p s here), length-append p (drop (length p) s))

-- A place that is found lies within the text.
pub find-le : (p s : Bytes) (i : ℕ) → find p s ≡ some i → i + length p ≤ length s
unfolding find
find-le p [] i h = elim (Bool-cases (starts_with p [])) [
  | inl here ↦ length-found p [] i here (ground arith)
  | inr e ↦ ground arith
]
find-le p (c ∷ s) i h = elim (Bool-cases (starts_with p (c ∷ s))) [
  | inl here ↦ length-found p (c ∷ s) i here (ground arith)
  | inr not_here ↦
      let (j, f, e) = find-later_some p c s not_here h in omega (arith, find-le p s j f)
]

-- Bytes that cannot begin the text are passed over.
pub find-Lacks :
    (x : ℕ) (p l s : Bytes)
    → Lacks x l
    → find (x ∷ p) (l ++ s) ≡ Option.map (λ i. length l + i) (find (x ∷ p) s)
find-Lacks x p [] s h = ground (arith, Option-cases (find (x ∷ p) s))
find-Lacks x p (c ∷ l) s h =
    find-later (x ∷ p) c (l ++ s) (unfold starts_with in rw (==_ne x c (λ e. h.0 (sym e))))
    ∙ rw (find-Lacks x p l s h.1) (ground (arith, Option-cases (find (x ∷ p) s)))

pub find_char-append :
    (x : ℕ) (l s : Bytes) → Lacks x l → find_char x (l ++ x ∷ s) ≡ some (length l)
unfolding find_char
find_char-append x [] s h = rw (==_refl x)
find_char-append x (c ∷ l) s h = rw (==_ne x c (λ e. h.0 (sym e)), find_char-append x l s h.1)

pub find_char-Lacks : (x : ℕ) (l : Bytes) → Lacks x l → find_char x l ≡ none
unfolding find_char
find_char-Lacks x [] h = refl
find_char-Lacks x (c ∷ l) h = rw (==_ne x c (λ e. h.0 (sym e)), find_char-Lacks x l h.1)

pub rfind_char-Lacks : (x : ℕ) (l : Bytes) → Lacks x l → rfind_char x l ≡ none
unfolding rfind_char
rfind_char-Lacks x [] h = refl
rfind_char-Lacks x (c ∷ l) h = rw (rfind_char-Lacks x l h.1, ==_ne x c (λ e. h.0 (sym e)))

pub rfind_char-append :
    (x : ℕ) (l s : Bytes) → Lacks x s → rfind_char x (l ++ x ∷ s) ≡ some (length l)
unfolding rfind_char
rfind_char-append x [] s h = rw (rfind_char-Lacks x s h, ==_refl x)
rfind_char-append x (c ∷ l) s h = rw (rfind_char-append x l s h)

pub find_char-none : (x : ℕ) (l : Bytes) → find_char x l ≡ none → Lacks x l
unfolding find_char
find_char-none x [] h = tt
find_char-none x (c ∷ l) h = elim (Bool-cases (x == c)) [
  | inl e ↦ ground arith
  | inr e ↦ elim (Option-cases (find_char x l)) [
    | inl f ↦ ((λ z. ground arith), find_char-none x l f)
    | inr (i, f) ↦ ground arith
  ]
]

starts_with-longer : (p s t : Bytes) → starts_with p s ≡ true → starts_with p (s ++ t) ≡ true
unfolding starts_with
starts_with-longer [] s t h = refl
starts_with-longer (x ∷ p) [] t h = cc
starts_with-longer (x ∷ p) (c ∷ s) t h = ground (arith, starts_with-longer p s t)

starts_with-other :
    (p s t : Bytes) → length p ≤ length s → starts_with p s ≡ false → starts_with p (s ++ t) ≡ false
unfolding starts_with
starts_with-other [] s t h k = cc
starts_with-other (x ∷ p) [] t h k = absurd (omega arith)
starts_with-other (x ∷ p) (c ∷ s) t h k = ground (arith, starts_with-other p s t)

-- The first place stays the first when the text goes on.
pub find-append : (p s t : Bytes) (i : ℕ) → find p s ≡ some i → find p (s ++ t) ≡ some i
unfolding find
find-append p [] t i h = elim (Bool-cases (starts_with p [])) [
  | inl here ↦ let e : i ≡ 0 = ground arith in rw e (find-here p t (starts_with-longer p [] t here))
  | inr e ↦ ground arith
]
find-append p (c ∷ s) t i h = elim (Bool-cases (starts_with p (c ∷ s))) [
  | inl here ↦
      let e : i ≡ 0 = ground arith in
      rw e (find-here p (c ∷ (s ++ t)) (starts_with-longer p (c ∷ s) t here))
  | inr not_here ↦
      let (j, f, e) = find-later_some p c s not_here h in
      rw e (
        find-later p c (s ++ t)
          (starts_with-other p (c ∷ s) t (omega (arith, find-le p s j f)) not_here)
        ∙ ap (Option.map suc) (find-append p s t j f))
]
