-- ===== src/Relay/Lines.antt =====
-- The lines of the agent's request, for a configuration whose texts hold no line break: each is a
-- line, and the server's header readers find the session and the action among them.
use nipovpn.Base.{
  Bool-cases, ℕ, ◌+◌, ◌≡◌, refl, sym, ap, ◌∙◌, Bool, some, [], ◌∷◌, ◌++◌, append-nil, Bytes, codes,
  All, arith, length, drop, inl, inr,
}
use nipovpn.Text.{starts_with, find}
use nipovpn.Text.Lines.{with_crlf}
use nipovpn.HttpUtils.{header_end, extract_body, get_raw_header, to_lower_copy, trim_copy}
use nipovpn.HttpUtils.Messages.{IsLine, find-message, extract-message}
use nipovpn.HttpUtils.Headers.{get_raw_header-with_crlf}
use nipovpn.Env.{Env}
use nipovpn.Config.{Config, random_fake_url, random_method, random_end_point}
use nipovpn.Codec.{hex_arr_to_str, encode64}
use nipovpn.Crypto.{BoolStr, success, aes256_encrypt}
use nipovpn.Relay.{
  with_method, enclose, relay_request, Fields, request_line, lines_before, lines_after,
  request_lines, request_text,
}
use nipovpn.Relay.Texts.{
  IsText, IsMethod, IsClean, IsText-append, choose-All, relay_host_header-IsText, to_string-IsText,
  IsSendable, IsText-connection, IsMethod-IsLine, starts_with-other_letter,
}

module _ (e : Env) (config : Config) (v : IsClean config) (f : Fields) (s : IsSendable f) where
  request_lines-IsLine : All IsLine (request_lines e config f)
  request_lines-IsLine = (
    IsMethod-IsLine f.method _ s.method (
        IsText-append (codes " /") _ (omega arith) (
          IsText-append f.end_point _ s.end_point (
            IsText-append (codes " HTTP/") config.agent.http_version (omega arith)
              v.http_version))),
    (
      IsText-append (codes "Host: ") f.host (omega arith) s.host,
      (
        IsText-append (codes "User-Agent: ") config.agent.user_agent (omega arith) v.user_agent,
        (
          omega arith,
          (
            omega arith,
            (
              IsText-append (codes "X-Nipo-Session: ") f.session (omega arith) s.session,
              (
                IsText-append (codes "X-Nipo-Action: ") f.action (omega arith) s.action,
                (
                  IsText-append (codes "Content-Length: ") _ (omega arith) (to_string-IsText _),
                  (
                    IsText-append (codes "Connection: ") _ (omega arith)
                        (IsText-connection f.keep_alive),
                    tt,
                  ),
                ),
              ),
            ),
          ),
        ),
      ),
    ),
  )

  -- Where the server cuts the request.
  pub request_text-cut :
      (i : ℕ) × (find header_end (request_text e config f) ≡ some i)
      × (i + 2 ≡ length (with_crlf (request_lines e config f)))
  unfolding request_text
  request_text-cut =
      find-message (request_line e config f) (drop 1 (request_lines e config f)) f.body
        request_lines-IsLine

  pub extract_body-request_text : extract_body (request_text e config f) ≡ f.body
  unfolding request_text
  extract_body-request_text =
      (extract-message (request_line e config f) (drop 1 (request_lines e config f)) f.body
        request_lines-IsLine).1

  -- The session and the action that the server reads, up to the blanks around them.
  pub get_raw_header-session :
      get_raw_header (with_crlf (request_lines e config f)) (codes "X-Nipo-Session")
      ≡ trim_copy f.session
  unfolding starts_with to_lower_copy
  get_raw_header-session =
      ap (λ t. get_raw_header t (codes "X-Nipo-Session")) (sym (append-nil _))
      ∙ get_raw_header-with_crlf (lines_before e config f) (codes "X-Nipo-Session") f.session
          ((codes "X-Nipo-Action: " ++ f.action) ∷ lines_after e config f) [] request_lines-IsLine
          (
            starts_with-other_letter f.method _ (to_lower_copy (codes "-Nipo-Session") ++ codes ":")
                s.method,
            (refl, (refl, (refl, (refl, tt)))),
          )

  pub get_raw_header-action :
      get_raw_header (with_crlf (request_lines e config f)) (codes "X-Nipo-Action")
      ≡ trim_copy f.action
  unfolding starts_with to_lower_copy
  get_raw_header-action =
      ap (λ t. get_raw_header t (codes "X-Nipo-Action")) (sym (append-nil _))
      ∙ get_raw_header-with_crlf
          (lines_before e config f ++ (codes "X-Nipo-Session: " ++ f.session) ∷ [])
          (codes "X-Nipo-Action") f.action (lines_after e config f) [] request_lines-IsLine
          (
            starts_with-other_letter f.method _ (to_lower_copy (codes "-Nipo-Action") ++ codes ":")
                s.method,
            (refl, (refl, (refl, (refl, (refl, tt))))),
          )

-- How a request that was made came about: its values, and the cipher text that it carries.
pub record Sent (e : Env) (config : Config) (session action bytes : Bytes) (w : e.World)
    (raw : Bytes) : Type 0 where
  pub fields : Fields
  pub text : Bytes
  pub layout : raw ≡ request_text e config fields
  pub body : fields.body ≡ encode64 e.base64 text
  pub session_kept : fields.session ≡ session
  pub action_kept : fields.action ≡ action
  pub sendable : IsSendable fields
  pub encrypted : (aes256_encrypt e (hex_arr_to_str bytes) config.general.token w).0 ≡ success text

module _ (e : Env) (config : Config) (v : IsClean config) where
  -- The values that are drawn can be sent.
  with_method-IsSendable :
      (session action body : Bytes) (keep : Bool) (w : e.World)
      → IsText session
      → IsText action
      → IsSendable (with_method e config session action keep body (random_method e config w)).0
  unfolding random_method random_end_point random_fake_url
  with_method-IsSendable session action body keep w s a =
      let drawn = random_method e config w in
      let placed = random_end_point e config drawn.1 in
      record {
        method =
            choose-All e IsMethod (codes "GET") config.general.methods w (omega arith) v.methods;
        end_point =
            choose-All e IsText (codes "api") config.general.end_points drawn.1 (omega arith)
              v.end_points;
        host = relay_host_header-IsText _ (
            choose-All e IsText (codes "www.google.com") config.general.fake_urls placed.1
              (omega arith) v.fake_urls);
        session = s;
        action = a;
      }

  -- Every request that is made can be sent, and holds the cipher text of the bytes.
  pub relay_request-Sent :
      (session action : Bytes) (keep : Bool) (bytes : Bytes) (w : e.World) (raw : Bytes)
      → IsText session
      → IsText action
      → (relay_request e config session action keep bytes w).0 ≡ some raw
      → Sent e config session action bytes w raw
  unfolding relay_request
  relay_request-Sent session action keep bytes w raw s a h =
      enclosed (aes256_encrypt e (hex_arr_to_str bytes) config.general.token w) refl h
    where
      enclosed :
          (r : BoolStr × e.World)
          → aes256_encrypt e (hex_arr_to_str bytes) config.general.token w ≡ r
          → (enclose e config session action keep r).0 ≡ some raw
          → Sent e config session action bytes w raw
      enclosed (r, w') e' h' = elim (Bool-cases r.good) [
        | inr bad ↦ absurd (cc (rw bad at h'))
        | inl good ↦
            let drawn =
              with_method e config session action keep (encode64 e.base64 r.text)
                (random_method e config w') in
            let made : some (request_text e config drawn.0) ≡ some raw = rw good at h' in
            record {
              fields = drawn.0;
              text = r.text;
              layout = cc;
              body = refl;
              session_kept = refl;
              action_kept = refl;
              sendable =
                  with_method-IsSendable session action (encode64 e.base64 r.text) keep w' s a;
              encrypted = ap (λ p. p.0) e' ∙ ground arith;
            }
      ]
