-- ===== src/Codec/Split.antt =====
-- `splitString` ends for every delimiter that is not empty, and loses nothing.
use nipovpn.Base.{
  ℕ, zero, suc, ◌+◌, ◌<◌, ◌≡◌, ◌≢◌, refl, sym, ap, ◌∙◌, Option, some, List, [], ◌∷◌, ◌++◌, Bytes,
  arith, length, take, drop, drop_add, length-drop, Option-cases, inl, inr,
}
use nipovpn.Text.{find}
use nipovpn.Text.Find.{find-split}
use nipovpn.Codec.{split_next, split_loop, split_string}

-- The pieces with the delimiter between them.
abbrev pub join : Bytes → List Bytes → Bytes
join d [] = []
join d (p ∷ []) = p
join d (p ∷ q ∷ ps) = p ++ (d ++ join d (q ∷ ps))

join-cons :
    (d p : Bytes) (ps : List Bytes) → join d ps ≢ [] → join d (p ∷ ps) ≡ p ++ (d ++ join d ps)
join-cons d p [] h = absurd (h refl)
join-cons d p (q ∷ ps) h = refl

abbrev Splits : Bytes → Bytes → Option (List Bytes) → Type 0
Splits d s r = (ps : List Bytes) × (r ≡ some ps) × (join d ps ≡ s)

split_next-Splits :
    (d piece rest : Bytes) (again : Bytes → Option (List Bytes))
    → Splits d rest (again rest)
    → Splits d (piece ++ (d ++ rest)) (split_next piece rest again)
split_next-Splits d piece [] again (ps, e, j) = (piece ∷ [] ∷ [], refl, refl)
split_next-Splits d piece (c ∷ r) again (ps, e, j) =
    (piece ∷ ps, rw e, join-cons d piece ps (λ z. cc) ∙ rw j)

length-pos : (d : Bytes) → d ≢ [] → 0 < length d
length-pos [] h = absurd (h refl)
length-pos (c ∷ d) h = omega arith

split_loop-Splits :
    (fuel : ℕ) (d s : Bytes) → d ≢ [] → length s < fuel → Splits d s (split_loop fuel d s)
unfolding split_loop
split_loop-Splits zero d s ne h = absurd (omega arith)
split_loop-Splits (suc fuel) d [] ne h = ([], refl, refl)
split_loop-Splits (suc fuel) d (c ∷ s) ne h = elim (Option-cases (find d (c ∷ s))) [
  | inl e ↦ rw (e, split_loop) ((c ∷ s) ∷ [], refl, refl)
  | inr (i, e) ↦
      rw (e, split_loop)
        (let rest = drop (i + length d) (c ∷ s) in
          let (ps, taken, joined) = split_next-Splits d (take i (c ∷ s)) rest (split_loop fuel d) (
            split_loop-Splits fuel d rest ne
              (omega (arith, length-pos d ne, length-drop (i + length d) (c ∷ s)))) in
          (
            ps,
            taken,
            joined
                ∙ ap (λ t. take i (c ∷ s) ++ (d ++ t)) (drop_add i (length d) (c ∷ s))
                ∙ sym (find-split d (c ∷ s) i e),
          ))
]

-- `splitString` ends for every delimiter that is not empty, and its pieces with the delimiter
-- between them are the text.
pub split_string-join :
    (s d : Bytes) → d ≢ [] → (ps : List Bytes) × (split_string s d ≡ some ps) × (join d ps ≡ s)
split_string-join s d h = split_loop-Splits (suc (length s)) d s h (omega arith)
