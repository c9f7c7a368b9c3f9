-- ===== src/Connection/Body/Whole.antt =====
-- The rest of a body of announced length is read to its end and no further, or the call fails.
use nipovpn.Base.{
  ◌⊎◌, ℕ, zero, suc, ◌-◌, ◌≤◌, ◌<◌, ◌≡◌, refl, ap, ◌∙◌, Bool, true, false, Option, none, some, [],
  ◌++◌, Bytes, length, length-append, arith, ltb, ltb→lt, ltb→ge, Bool-cases, inl, inr,
}
use nipovpn.Text.{find}
use nipovpn.HttpUtils.Messages.{extract-append}
use nipovpn.HttpUtils.{header_end, extract_headers, extract_body, parse_content_length}
use nipovpn.Env.{Env, Read, got, failed, Stream}
use nipovpn.Env.Laws.{IsReader}
use nipovpn.Connection.Body.{missing_read, read_missing, with_missing, read_remaining}

-- The loop ended, with all the bytes or after an error.
abbrev Ends : {W : Type 0} → ℕ → Option (Option Bytes × W) → Type 0
Ends {W = W} size o =
    (r : Option Bytes × W) × (o ≡ some r)
    × ((r.0 ≡ none) ⊎ ((bytes : Bytes) × (r.0 ≡ some bytes) × (length bytes ≡ size)))

missing_read-Ends :
    {W : Type 0} (size : ℕ) (have : Bytes) (rd : Read) (w : W)
    (again : Bytes → W → Option (Option Bytes × W))
    → ((bytes : Bytes) → rd ≡ got bytes → Ends size (again (have ++ bytes) w))
    → Ends size (missing_read have (rd, w) again)
missing_read-Ends size have (failed error) w again h = ((none, w), refl, inl refl)
missing_read-Ends size have (got bytes) w again h = h bytes refl

module _ (e : Env) (stream : Stream) where
  read_missing-Ends :
      (fuel size : ℕ) (have : Bytes) (w : e.World)
      → IsReader e
      → length have ≤ size
      → size - length have < fuel
      → Ends size (read_missing e stream fuel size have w)
  unfolding read_missing
  read_missing-Ends zero size have w law h enough = absurd (omega arith)
  read_missing-Ends (suc fuel) size have w law h enough =
      elim (Bool-cases (ltb (length have) size)) [
        | inl more ↦
            let missing = ltb→lt (length have) size more in
            let n = size - length have in
            let rd = e.read_some stream n w in
            rw (more, read_missing)
              (missing_read-Ends size have rd.0 rd.1
                (λ have' w'. read_missing e stream fuel size have' w')
                (λ bytes g.
                  let (some_read, fits) = law.reads_some stream n w bytes (omega arith) g in
                  let longer = length-append have bytes in
                  read_missing-Ends fuel size (have ++ bytes) rd.1 law (omega arith) (omega arith)))
        | inr done ↦
            let full = ltb→ge (length have) size done in
            rw (done, read_missing) ((some have, w), refl, inr (have, refl, omega arith))
      ]

  -- Failed, or the headers as before and a body of the announced length.
  abbrev pub Whole : ℕ → Bytes → Option (Bool × Bytes × e.World) → Type 0
  Whole size buffer o =
      (r : Bool × Bytes × e.World) × (o ≡ some r)
      × ((r.0 ≡ false)
          ⊎ (r.0 ≡ true)
            × (extract_headers r.1 ≡ extract_headers buffer)
            × (length (extract_body r.1) ≡ size))

  with_missing-Whole :
      (i size : ℕ) (buffer : Bytes) (r : Option Bytes × e.World)
      → find header_end buffer ≡ some i
      → length (extract_body buffer) ≤ size
      → (r.0 ≡ none)
        ⊎ ((bytes : Bytes) × (r.0 ≡ some bytes)
            × (length bytes ≡ size - length (extract_body buffer)))
      → Whole size buffer (with_missing e stream buffer (some r))
  with_missing-Whole i size buffer (none, w) head covers how = ((false, buffer, w), refl, inl refl)
  with_missing-Whole i size buffer (some bytes, w) head covers (inl fail) = cc
  with_missing-Whole i size buffer (some bytes, w) head covers (inr (all, same, full)) =
      let (hs, b) = extract-append buffer bytes i head in
      let all_read : bytes ≡ all = cc in
      let whole = ap length all_read ∙ full in
      (
        (true, buffer ++ bytes, w),
        refl,
        inr (
          refl,
          hs,
          ap length b ∙ omega (arith, length-append (extract_body buffer) bytes, whole, covers),
        ),
      )

  -- Reading the rest of a request ends, with no fuel for chunks needed, where the headers are
  -- whole, announce a length, and no more than that length of the body came with them; it returns
  -- `false`, or `true` with the headers as they were and a body of exactly the announced length.
  -- The reads give at least one byte and no more than is asked for.
  pub read_remaining-Whole :
      (fuel i size : ℕ) (buffer : Bytes) (w : e.World)
      → IsReader e
      → find header_end buffer ≡ some i
      → parse_content_length (extract_headers buffer) ≡ some size
      → length (extract_body buffer) ≤ size
      → Whole size buffer (read_remaining e stream fuel buffer w)
  unfolding read_remaining
  read_remaining-Whole fuel i size buffer w law head sized covers =
      let have = length (extract_body buffer) in
      elim (Bool-cases (ltb have size)) [
        | inr done ↦
            let full = ltb→ge have size done in
            rw (sized, done) ((true, buffer, w), refl, inr (refl, refl, omega arith))
        | inl more ↦
            let (r, ran, how) =
              read_missing-Ends (suc (size - have)) (size - have) [] w law (omega arith)
                (omega arith) in
            rw (sized, more, ran) (with_missing-Whole i size buffer r head covers how)
      ]
