-- ===== src/Relay/Handling.antt =====
-- A request of the agent at the server, up to the branch of `ServerHandler::handle` for its action.
use nipovpn.Base.{◌≡◌, refl, sym, ap, ◌∙◌, Bool, true, some, ◌++◌, Bytes, codes, if◌then◌else◌}
use nipovpn.Text.Lines.{with_crlf, crlf}
use nipovpn.HttpUtils.{extract_body, get_raw_header, trim_copy}
use nipovpn.Codec.{hex_arr_to_str, decode64}
use nipovpn.Codec.Base64.{IsBase64, decode64-encode64}
use nipovpn.Env.{Env, ok}
use nipovpn.Env.Laws.{IsCipher}
use nipovpn.Crypto.{success, aes256_encrypt, aes256_decrypt}
use nipovpn.Crypto.RoundTrip.{aes256_decrypt-encrypt_run, aes256_encrypt-IsByte}
use nipovpn.Config.{Config}
use nipovpn.Http.{Http, http, connect, new_http, parse_http, set_ip_port_as}
use nipovpn.Relay.{Fields, request_line, request_lines, request_text, relay_request}
use nipovpn.Relay.Texts.{IsText, IsClean, IsSendable}
use nipovpn.Relay.Lines.{
  request_text-cut, extract_body-request_text, get_raw_header-session, get_raw_header-action,
  relay_request-Sent,
}
use nipovpn.Server.Defs
use nipovpn.Relay.Arrival.{
  IsAccepted, set_ip_port-request, BeginsWithLetter, BeginsWithLetter-append, IsMethod-letter,
  detect_type-method, body_or-reported, outer_headers-cut,
}

module _ (e : Env) (sender receiver : Config) (uuid : Bytes) where
  detected-accepted :
      (s : Defs.Server e.World) (h : Http) (headers action session body : Bytes)
      → Defs.outer_headers e receiver uuid s.read_buffer ≡ headers
      → get_raw_header headers (codes "X-Nipo-Action") ≡ action
      → get_raw_header headers (codes "X-Nipo-Session") ≡ session
      → Defs.body_or e receiver uuid s.read_buffer h.request.body ≡ body
      → Defs.detected e receiver uuid s (ok (true, h))
        ≡ Defs.decoded e receiver uuid action session s (decode64 e.base64 body)
  detected-accepted s h headers action session body cut act sess b = rw (cut, act, sess, b)

  -- The server reads the action, the session and the body of a request.
  handle-request_text :
      (s : Defs.Server e.World) (f : Fields)
      → IsClean sender
      → IsSendable f
      → IsAccepted e (request_text e sender f) f.body
      → Defs.handle e receiver uuid (record s { read_buffer = request_text e sender f })
        ≡ Defs.decoded e receiver uuid
            (trim_copy f.action)
            (trim_copy f.session)
            (record s { read_buffer = request_text e sender f })
            (decode64 e.base64 f.body)
  unfolding Defs.handle parse_http
  handle-request_text s f clean sendable accepted =
      let raw = request_text e sender f in
      let (i, found, size) = request_text-cut e sender clean f sendable in
      let headers = with_crlf (request_lines e sender f) in
      let whole : raw ≡ headers ++ (crlf ++ f.body) = unfold request_text in refl in
      let letter : BeginsWithLetter raw =
        unfold request_text in
        BeginsWithLetter-append headers _ (
          BeginsWithLetter-append (request_line e sender f) _
            (BeginsWithLetter-append f.method _ (IsMethod-letter f.method sendable.method))) in
      let kind = if accepted.request.is_connect then connect else http in
      let read = record new_http { request = accepted.request; http_type = kind } in
      rw (detect_type-method e.parse_request raw new_http letter, accepted.parsed)
        (detected-accepted _ (set_ip_port_as kind read) headers _ _ f.body
          (outer_headers-cut e receiver uuid raw headers i (crlf ++ f.body) found whole size)
          (get_raw_header-action e sender clean f sendable)
          (get_raw_header-session e sender clean f sendable)
          (body_or-reported e receiver uuid raw (set_ip_port_as kind read).request.body f.body
            (extract_body-request_text e sender clean f sendable)
            (rw (set_ip_port-request kind read) accepted.reported)))

  decoded-encrypted :
      (s : Defs.Server e.World) (action session plain text : Bytes) (w : e.World)
      → IsCipher e
      → (aes256_encrypt e plain sender.general.token w).0 ≡ success text
      → receiver.general.token ≡ sender.general.token
      → (e.ctx_new s.world).0 ≡ true
      → Defs.decoded e receiver uuid action session s (some text)
        ≡ Defs.dispatch e receiver uuid action session plain
            (record s { world = (e.ctx_new s.world).1 })
  decoded-encrypted s action session plain text w cipher enc token made =
      ap (λ k. Defs.decrypted e receiver uuid action session s (aes256_decrypt e text k s.world))
        token
      ∙ ap (Defs.decrypted e receiver uuid action session s)
          (aes256_decrypt-encrypt_run e plain sender.general.token w s.world text cipher enc made)

  -- What the outside components have to do for a request to arrive: the cipher and the Base64
  -- iterators invert, both ends share the token, Beast accepts the request that was made, and the
  -- server gets a cipher context.
  pub record Arrives (raw : Bytes) (s : Defs.Server e.World) : Type 0 where
    pub cipher : IsCipher e
    pub base64 : IsBase64 e.base64
    pub shared : receiver.general.token ≡ sender.general.token
    pub accepted : IsAccepted e raw (extract_body raw)
    pub context : (e.ctx_new s.world).0 ≡ true

  -- What the server holds when it has taken the bytes out of a request.
  abbrev pub opened : Defs.Server e.World → Bytes → Defs.Server e.World
  opened s raw = record s { read_buffer = raw; world = (e.ctx_new s.world).1 }

  IsAccepted-fields :
      (raw : Bytes) (f : Fields)
      → IsClean sender
      → IsSendable f
      → raw ≡ request_text e sender f
      → IsAccepted e raw (extract_body raw)
      → IsAccepted e (request_text e sender f) f.body
  IsAccepted-fields raw f clean sendable layout a =
      let body = ap extract_body layout ∙ extract_body-request_text e sender clean f sendable in
      record {
        request = a.request;
        parsed = ap e.parse_request (sym layout) ∙ a.parsed;
        reported = rw (← body) a.reported;
      }

  -- The server runs the action of the agent, for its session, on the digits of the bytes that the
  -- agent enclosed.
  pub handle-relay_request :
      (session action : Bytes) (keep : Bool) (bytes : Bytes) (w : e.World) (raw : Bytes)
      (s : Defs.Server e.World)
      → IsClean sender
      → IsText session
      → IsText action
      → (relay_request e sender session action keep bytes w).0 ≡ some raw
      → Arrives raw s
      → Defs.handle e receiver uuid (record s { read_buffer = raw })
        ≡ Defs.dispatch e receiver uuid
            (trim_copy action)
            (trim_copy session)
            (hex_arr_to_str bytes)
            (opened s raw)
  handle-relay_request session action keep bytes w raw s clean st at made arrives =
      let sent = relay_request-Sent e sender clean session action keep bytes w raw st at made in
      let f = sent.fields in
      let s' = record s { read_buffer = request_text e sender f } in
      let text_bytes =
        (aes256_encrypt-IsByte e (hex_arr_to_str bytes) sender.general.token w sent.text
          arrives.cipher sent.encrypted).0 in
      ap (λ t. Defs.handle e receiver uuid (record s { read_buffer = t })) sent.layout
      ∙ handle-request_text s f clean sent.sendable
          (IsAccepted-fields raw f clean sent.sendable sent.layout arrives.accepted)
      ∙ ap (λ t. Defs.decoded e receiver uuid (trim_copy f.action) (trim_copy f.session) s' t)
          (ap (decode64 e.base64) sent.body
            ∙ decode64-encode64 e.base64 sent.text arrives.base64 text_bytes)
      ∙ decoded-encrypted s' (trim_copy f.action) (trim_copy f.session) (hex_arr_to_str bytes)
          sent.text w arrives.cipher sent.encrypted arrives.shared arrives.context
      ∙ (let back = sym sent.layout in
          λ i.
            Defs.dispatch e receiver uuid (trim_copy (sent.action_kept i))
              (trim_copy (sent.session_kept i)) (hex_arr_to_str bytes) (opened s (back i)))
