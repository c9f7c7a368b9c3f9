-- ===== src/Client/Message/Complete.antt =====
-- A body of announced length is read to its end and no further, or an error says why not.
use nipovpn.Base.{
  ◌⊎◌, ℕ, zero, suc, ◌-◌, ◌≤◌, ◌<◌, ◌≡◌, ◌≢◌, refl, sym, ap, ◌∙◌, Option, none, some, [], ◌∷◌, ◌++◌,
  Bytes, length, length-append, append_assoc, append-nil, arith, ltb, ltb→lt, ltb→ge, Bool-cases,
  Option-cases, inl, inr, min,
}
use nipovpn.Text.{find}
use nipovpn.HttpUtils.Messages.{extract-append}
use nipovpn.HttpUtils.{header_end, extract_headers, extract_body, parse_content_length}
use nipovpn.Env.{Env, NetError, Read, got, failed, Stream}
use nipovpn.Env.Laws.{IsReader}
use nipovpn.Client.Message.{Reading, finished, after_read, read_sized, read_http_message}

-- A read gives some bytes, and no more than `n`.
abbrev Within : ℕ → Read → Type 0
Within n rd = (bytes : Bytes) → rd ≡ got bytes → length bytes ≤ n

after_read-good :
    {W : Type 0} (out body : Bytes) (n : ℕ) (rd : Read) (w : W)
    (again : Bytes → Bytes → W → Option (Reading W)) (r : Reading W)
    → Within n rd
    → after_read out body (rd, w) again ≡ some r
    → r.error ≡ none
    → (bytes : Bytes) × (length bytes ≤ n) × (again (out ++ bytes) (body ++ bytes) w ≡ some r)
after_read-good out body n (failed error) w again r k h good = ground arith
after_read-good out body n (got []) w again r k h good = ground arith
after_read-good out body n (got (c ∷ bytes)) w again r k h good = (c ∷ bytes, k (c ∷ bytes) refl, h)

after_read-ne-none :
    {W : Type 0} (out body : Bytes) (rd : Read) (w : W)
    (again : Bytes → Bytes → W → Option (Reading W))
    → ((c : ℕ) (bytes : Bytes) → again (out ++ c ∷ bytes) (body ++ c ∷ bytes) w ≢ none)
    → after_read out body (rd, w) again ≢ none
after_read-ne-none out body (failed error) w again h = λ e. cc
after_read-ne-none out body (got []) w again h = λ e. cc
after_read-ne-none out body (got (c ∷ bytes)) w again h = h c bytes

module _ (e : Env) (stream : Stream) where
  -- Each read makes the body longer, so as many rounds as bytes are missing are enough.
  pub read_sized-ne-none :
      (fuel size : ℕ) (out body : Bytes) (w : e.World)
      → size - length body < fuel
      → read_sized e stream fuel size out body w ≢ none
  unfolding read_sized
  read_sized-ne-none zero size out body w h = absurd (omega arith)
  read_sized-ne-none (suc fuel) size out body w h = elim (Bool-cases (ltb (length body) size)) [
    | inl more ↦
        let rd = e.read_some stream (min 8192 (size - length body)) w in
        rw (more, read_sized)
          (after_read-ne-none out body rd.0 rd.1
            (λ out' body' w'. read_sized e stream fuel size out' body' w')
            (λ c bytes.
              read_sized-ne-none fuel size (out ++ c ∷ bytes) (body ++ c ∷ bytes) rd.1
                (omega (arith, ltb→lt (length body) size more, length-append body (c ∷ bytes)))))
    | inr done ↦ rw (done, read_sized) (λ x. cc)
  ]

  -- Without an error the body that was there is followed by exactly the bytes that were missing.
  pub read_sized-exact :
      (fuel size : ℕ) (out body : Bytes) (w : e.World) (r : Reading e.World)
      → IsReader e
      → length body ≤ size
      → read_sized e stream fuel size out body w ≡ some r
      → r.error ≡ none
      → (more : Bytes) × (r.out ≡ out ++ more) × (length (body ++ more) ≡ size)
  unfolding read_sized
  read_sized-exact zero size out body w r law h e' good = cc
  read_sized-exact (suc fuel) size out body w r law h e' good =
      elim (Bool-cases (ltb (length body) size)) [
        | inl more ↦
            let missing = ltb→lt (length body) size more in
            let n = min 8192 (size - length body) in
            let rd = e.read_some stream n w in
            let within : Within n rd.0 =
              λ bytes g. (law.reads_some stream n w bytes (omega arith) g).1 in
            let (bytes, fits, later) =
              after_read-good out body n rd.0 rd.1
                (λ out' body' w'. read_sized e stream fuel size out' body' w') r within
                (rw (more, read_sized) at e') good in
            let longer = length-append body bytes in
            let (rest, read, full) =
              read_sized-exact fuel size (out ++ bytes) (body ++ bytes) rd.1 r law (omega arith)
                later good in
            (
              bytes ++ rest,
              read ∙ append_assoc out bytes rest,
              ap length (sym (append_assoc body bytes rest)) ∙ full,
            )
        | inr done ↦
            let enough = ltb→ge (length body) size done in
            let stopped : some (finished out w) ≡ some r = rw (done, read_sized) at e' in
            ([], ground (arith, append-nil out), rw append-nil (omega arith))
      ]

  read_http_message-rest :
      (fuel i size : ℕ) (until : (Bytes × Option NetError) × e.World) (w : e.World)
      → e.read_until stream w ≡ until
      → until.0.1 ≡ none
      → find header_end until.0.0 ≡ some i
      → parse_content_length (extract_headers until.0.0) ≡ some size
      → read_http_message e stream fuel w
        ≡ read_sized e stream
            (suc (size - length (extract_body until.0.0)))
            size
            until.0.0
            (extract_body until.0.0)
            until.1
  unfolding read_http_message
  read_http_message-rest fuel i size ((out, none), w') w e' clean head sized =
      rw (e', read_http_message, sized)
  read_http_message-rest fuel i size ((out, some error), w') w e' clean head sized = cc

  -- Reading a message ends, with no fuel for chunks needed, where the headers were read, announce a
  -- length, and no more than that length of the body came with them; it ends with an error, or
  -- without one and then with the headers that were read first and a body of exactly the announced
  -- length. The reads give at least one byte and no more than is asked for.
  pub read_http_message-exact :
      (fuel i size : ℕ) (w : e.World)
      → IsReader e
      → (e.read_until stream w).0.1 ≡ none
      → find header_end (e.read_until stream w).0.0 ≡ some i
      → parse_content_length (extract_headers (e.read_until stream w).0.0) ≡ some size
      → length (extract_body (e.read_until stream w).0.0) ≤ size
      → (r : Reading e.World) × (read_http_message e stream fuel w ≡ some r)
        × (((error : NetError) × (r.error ≡ some error))
            ⊎ (r.error ≡ none)
              × (extract_headers r.out ≡ extract_headers (e.read_until stream w).0.0)
              × (length (extract_body r.out) ≡ size))
  read_http_message-exact fuel i size w law clean head sized covers =
      let until = e.read_until stream w in
      let out = until.0.0 in
      let body = extract_body out in
      let enough = suc (size - length body) in
      let same = read_http_message-rest fuel i size until w refl clean head sized in
      elim (Option-cases (read_sized e stream enough size out body until.1)) [
        | inl stuck ↦ absurd (read_sized-ne-none enough size out body until.1 (omega arith) stuck)
        | inr (r, ran) ↦ (
          r,
          same ∙ ran,
          elim (Option-cases r.error) [
            | inr error ↦ inl error
            | inl good ↦
                let (more, read, full) =
                  read_sized-exact enough size out body until.1 r law covers ran good in
                let (hs, b) = extract-append out more i head in
                inr (
                  good,
                  ap extract_headers read ∙ hs,
                  ap (λ t. length (extract_body t)) read ∙ ap length b ∙ full,
                )
          ],
        )
      ]
