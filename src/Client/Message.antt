-- ===== src/Client/Message.antt =====
-- `readHttpMessageImpl` of tcpclient.cpp: reading one message from a stream.
pub mod Complete
pub mod Ends
use nipovpn.Base.{
  ℕ, zero, suc, ◌+◌, ◌-◌, Bool, true, false, not, ◌&&◌, Option, none, some, [], ◌∷◌, ◌++◌, Bytes,
  codes, length, ltb, if◌then◌else◌, min,
}
use nipovpn.Text.{find, is_some}
use nipovpn.HttpUtils.{extract_headers, extract_body, parse_content_length, is_chunked}
use nipovpn.Env.{Env, NetError, eof, Read, got, failed, Stream}

-- What became of the call, and what stands in the buffer then.
pub record Reading (W : Type 0) : Type 0 where
  pub error : Option NetError
  pub out : Bytes
  pub world : W

abbrev pub finished : {W : Type 0} → Bytes → W → Reading W
finished out w = record { error = none; out = out; world = w }

abbrev pub broken : {W : Type 0} → NetError → Bytes → W → Reading W
broken error out w = record { error = some error; out = out; world = w }

-- One `readSome`: the rest of the loop on the new buffer and body, or the end of it.
abbrev pub after_read :
    {W : Type 0}
    → Bytes
    → Bytes
    → Read × W
    → (Bytes → Bytes → W → Option (Reading W))
    → Option (Reading W)
after_read out body (failed error, w) again = some (broken error out w)
after_read out body (got [], w) again = some (broken eof out w)
after_read out body (got (c ∷ bytes), w) again = again (out ++ c ∷ bytes) (body ++ c ∷ bytes) w

module _ (e : Env) (stream : Stream) where
  -- `while (body.size() < contentLength)`; `none` means that the fuel ran out.
  unfoldable pub read_sized : ℕ → ℕ → Bytes → Bytes → e.World → Option (Reading e.World)
  read_sized zero size out body w = none
  read_sized (suc fuel) size out body w = elim (ltb (length body) size) [
    | true ↦
        after_read out body (e.read_some stream (min 8192 (size - length body)) w)
          (λ out' body' w'. read_sized fuel size out' body' w')
    | false ↦ some (finished out w)
  ]

  -- The end of a chunked body, as the loop looks for it.
  abbrev pub chunks_ended : Bytes → Bool
  chunks_ended body = is_some (find (codes "\r\n0\r\n\r\n") body)

  abbrev pub last_chunk_seen : Bytes → Bool
  last_chunk_seen body = is_some (find (codes "\r\n0\r\n") body)

  unfoldable pub read_chunked : ℕ → Bytes → Bytes → e.World → Option (Reading e.World)
  read_chunked zero out body w = none
  read_chunked (suc fuel) out body w =
      elim (not (chunks_ended body) && not (last_chunk_seen body)) [
        | true ↦
            after_read out body (e.read_some stream 8192 w)
              (λ out' body' w'. read_chunked fuel out' body' w')
        | false ↦ some (finished out w)
      ]

  abbrev pub read_body : ℕ → Option ℕ → Bool → Bytes → Bytes → e.World → Option (Reading e.World)
  read_body fuel (some size) chunked out body w =
      read_sized (suc (size - length body)) size out body w
  read_body fuel none true out body w = read_chunked fuel out body w
  read_body fuel none false out body w = some (finished out w)

  abbrev pub read_rest : ℕ → (Bytes × Option NetError) × e.World → Option (Reading e.World)
  read_rest fuel ((out, some error), w) = some (broken error out w)
  read_rest fuel ((out, none), w) =
      read_body fuel (parse_content_length (extract_headers out)) (is_chunked (extract_headers out))
        out (extract_body out) w

  -- The fuel bounds the reads of a chunked body, whose end is up to the peer; a body of announced
  -- length needs none.
  unfoldable pub read_http_message : ℕ → e.World → Option (Reading e.World)
  unfolding read_sized read_chunked
  read_http_message fuel w = read_rest fuel (e.read_until stream w)
