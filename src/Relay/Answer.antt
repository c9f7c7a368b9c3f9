-- ===== src/Relay/Answer.antt =====
-- What the server answers is what the agent reads: the response of `makeEncryptedHttpResponse`,
-- taken apart by the agent.
use nipovpn.Base.{
  ℕ, ◌≤◌, ◌≡◌, refl, ap, ◌∙◌, true, none, some, List, [], ◌∷◌, ◌++◌, Bytes, codes, All, arith,
  length, drop, Bool-cases, inl, inr, if◌then◌else◌,
}
use nipovpn.Text.{find}
use nipovpn.Text.Numbers.{to_string}
use nipovpn.HttpUtils.{header_end, extract_body}
use nipovpn.HttpUtils.Messages.{IsLine, find-message, extract-message}
use nipovpn.Env.{Env, ok}
use nipovpn.Env.Laws.{IsCipher}
use nipovpn.Crypto.{BoolStr, success, iv_length, aes256_encrypt, aes256_decrypt}
use nipovpn.Crypto.RoundTrip.{aes256_decrypt-encrypt_run, aes256_encrypt-IsByte}
use nipovpn.Config.{Config}
use nipovpn.Relay.{relay_answer, body_of_reply, deciphered}
use nipovpn.Relay.Texts.{IsText, IsText-append, to_string-IsText}
use nipovpn.Server.Defs

abbrev response_lines : Bytes → Bytes → Bytes → List Bytes
response_lines body status connection =
    (codes "HTTP/1.1 " ++ status)
    ∷ codes "Content-Type: application/text"
    ∷ (codes "Content-Length: " ++ to_string (length body))
    ∷ (codes "Connection: " ++ connection)
    ∷ []

response_lines-IsLine :
    (body status connection : Bytes)
    → IsText status
    → IsText connection
    → All IsLine (response_lines body status connection)
response_lines-IsLine body status connection s c = (
  IsText-append (codes "HTTP/1.1 ") status (omega arith) s,
  (
    omega arith,
    (
      IsText-append (codes "Content-Length: ") _ (omega arith) (to_string-IsText (length body)),
      (IsText-append (codes "Connection: ") connection (omega arith) c, tt),
    ),
  ),
)

module _ (e : Env) (sender receiver : Config) (uuid : Bytes) where
  relay_answer-body :
      (m : Bytes) (i : ℕ) (w : e.World)
      → find header_end m ≡ some i
      → relay_answer e receiver m w ≡ body_of_reply e receiver (extract_body m) w
  unfolding relay_answer extract_body
  relay_answer-body m i w h = rw (h, relay_answer, extract_body)

  relay_answer-response :
      (body status connection : Bytes) (w : e.World)
      → IsText status
      → IsText connection
      → relay_answer e receiver (Defs.plain_response e sender uuid body status connection) w
        ≡ body_of_reply e receiver body w
  relay_answer-response body status connection w s c =
      let head = codes "HTTP/1.1 " ++ status in
      let rest = drop 1 (response_lines body status connection) in
      let lines = response_lines-IsLine body status connection s c in
      let (i, found, _) = find-message head rest body lines in
      relay_answer-body _ i w found
      ∙ ap (λ b. body_of_reply e receiver b w) (extract-message head rest body lines).1

  body_of_reply-encrypted :
      (plain text : Bytes) (w w' : e.World)
      → IsCipher e
      → receiver.general.token ≡ sender.general.token
      → (aes256_encrypt e plain sender.general.token w).0 ≡ success text
      → (e.ctx_new w').0 ≡ true
      → iv_length ≤ length text
      → (body_of_reply e receiver text w').0 ≡ ok (some plain)
  body_of_reply-encrypted plain [] w w' law shared enc made long = absurd (omega arith)
  body_of_reply-encrypted plain (c ∷ text) w w' law shared enc made long =
      ap (λ p. (deciphered e receiver p).0)
        (ap (λ k. aes256_decrypt e (c ∷ text) k w') shared
          ∙ aes256_decrypt-encrypt_run e plain sender.general.token w w' (c ∷ text) law enc made)

  -- From the response that the server makes of a text the agent reads that text, if the server
  -- could encrypt it, and reads that there is no answer if not. It holds for a cipher as in
  -- `IsCipher`, one token at both ends, a status and a `Connection` value with no line break, and
  -- an agent that gets a cipher context.
  pub relay_answer-make_encrypted :
      (plain status connection : Bytes) (s : Defs.Server e.World) (w : e.World)
      → IsCipher e
      → receiver.general.token ≡ sender.general.token
      → IsText status
      → IsText connection
      → (e.ctx_new w).0 ≡ true
      → (relay_answer e receiver
          (Defs.make_encrypted_http_response e sender uuid plain status connection s).write_buffer
          w).0
        ≡ ok (
            if (aes256_encrypt e plain sender.general.token s.world).0.good
            then some plain
            else none)
  unfolding Defs.make_encrypted_http_response Defs.make_plain_http_response
  relay_answer-make_encrypted plain status connection s w law shared st ct made =
      made_of (aes256_encrypt e plain sender.general.token s.world) refl
    where
      made_of :
          (r : BoolStr × e.World)
          → aes256_encrypt e plain sender.general.token s.world ≡ r
          → (relay_answer e receiver
              (Defs.respond_encrypted e sender uuid status connection s r).write_buffer
              w).0
            ≡ ok (if r.0.good then some plain else none)
      made_of (r, w') same = elim (Bool-cases r.good) [
        | inr bad ↦ rw bad (
            ap (λ p. p.0)
              (relay_answer-response [] (codes "500 Internal Server Error") (codes "close") w
                (omega arith) (omega arith)))
        | inl good ↦
            let enc : (aes256_encrypt e plain sender.general.token s.world).0 ≡ success r.text =
              ap (λ p. p.0) same ∙ ground arith in
            rw good (
              ap (λ p. p.0) (relay_answer-response r.text status connection w st ct)
              ∙ body_of_reply-encrypted plain r.text s.world w law shared enc made
                  (aes256_encrypt-IsByte e plain sender.general.token s.world r.text law enc).1)
      ]
