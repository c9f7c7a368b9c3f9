-- ===== src/Http/Texts.antt =====
-- The texts that core/src/http.cpp writes: the requests with a hidden body, the response with one, and
-- the name of a TLS record. Nothing calls them.
use nipovpn.Base.{
  ◌^◌, ◌<◌, ◌≡◌, ◌++◌, some, List, [], ◌∷◌, Bytes, codes, All, drop, refl, length, arith,
}
use nipovpn.Text.{starts_with}
use nipovpn.Text.Lines.{crlf, with_crlf}
use nipovpn.Text.Numbers.{to_string}
use nipovpn.Relay.Texts.{IsText-append, to_string-IsText}
use nipovpn.HttpUtils.{extract_body, parse_content_length, to_lower_copy}
use nipovpn.HttpUtils.Messages.{IsLine, extract-message}
use nipovpn.HttpUtils.Headers.{parse_content_length-with_crlf}
use nipovpn.Env.{Env}
use nipovpn.Config.{Config, random_fake_url, random_method}
use nipovpn.Http.{TlsType, tls_handshake, change_cipher_spec, application_data}

-- The mark behind every text.
abbrev end_mark : Bytes
end_mark = codes "COMP\r\n\r\n"

abbrev url_encoded : Bytes
url_encoded = codes "Content-Type: application/x-www-form-urlencoded"

-- The lines that the response has in front of its body.
abbrev response_lines : Bytes → List Bytes
response_lines body =
    codes "HTTP/1.1 200 OK"
    ∷ url_encoded
    ∷ (codes "Content-Length: " ++ to_string (length body))
    ∷ codes "Connection: keep-alive"
    ∷ codes "Cache-Control: no-cache"
    ∷ codes "Pragma: no-cache"
    ∷ []

-- genHttpOkResString
unfoldable pub gen_http_ok_res_string : Bytes → Bytes
gen_http_ok_res_string body = with_crlf (response_lines body) ++ (crlf ++ (body ++ end_mark))

response_lines-IsLine : (body : Bytes) → All IsLine (response_lines body)
response_lines-IsLine body = (
  omega arith,
  (
    omega arith,
    (
      IsText-append (codes "Content-Length: ") _ (omega arith) (to_string-IsText (length body)),
      omega arith,
    ),
  ),
)

-- The body that is read is followed by the mark, which the announced length does not count.
gen_http_ok_res_string-parts :
    (body : Bytes)
    → length body < 2 ^ 64
    → (extract_body (gen_http_ok_res_string body) ≡ body ++ end_mark)
      × (parse_content_length (gen_http_ok_res_string body) ≡ some (length body))
unfolding gen_http_ok_res_string starts_with to_lower_copy
gen_http_ok_res_string-parts body h = (
  (extract-message (codes "HTTP/1.1 200 OK") (drop 1 (response_lines body)) (body ++ end_mark)
      (response_lines-IsLine body)).1,
  parse_content_length-with_crlf (codes "HTTP/1.1 200 OK" ∷ url_encoded ∷ []) (length body)
      (drop 3 (response_lines body)) (crlf ++ (body ++ end_mark)) h (response_lines-IsLine body)
      (refl, (refl, tt)),
)

module _ (e : Env) (config : Config) where
  -- The lines that both requests begin with, for a method and a URL.
  abbrev first_lines : Bytes → Bytes → List Bytes → List Bytes
  first_lines method url ls =
      (method ++ (codes " " ++ (url ++ (codes " HTTP/" ++ config.agent.http_version))))
      ∷ (codes "Host: " ++ url)
      ∷ (codes "User-Agent: " ++ config.agent.user_agent)
      ∷ codes "Accept: */*"
      ∷ codes "Connection: keep-alive"
      ∷ ls

  abbrev with_url : (Bytes → Bytes → Bytes) → Bytes × e.World → Bytes × e.World
  with_url text (url, w) = let (method, w') = random_method e config w in (text method url, w')

  -- genHttpPostReqString
  unfoldable pub gen_http_post_req_string : Bytes → e.World → Bytes × e.World
  unfolding random_method random_fake_url
  gen_http_post_req_string body w =
      with_url
        (λ method url.
          with_crlf (
            first_lines method url
              ((codes "Content-Length: " ++ to_string (length body)) ∷ url_encoded ∷ []))
          ++ (crlf ++ (body ++ end_mark)))
        (random_fake_url e config w)

  -- genHttpRestPostReqString
  unfoldable pub gen_http_rest_post_req_string : e.World → Bytes × e.World
  unfolding random_method random_fake_url
  gen_http_rest_post_req_string w =
      with_url
        (λ method url. with_crlf (first_lines method url (codes "Rest: yes" ∷ [])) ++ end_mark)
        (random_fake_url e config w)

-- tlsTypeToString
unfoldable pub tls_type_to_string : TlsType → Bytes
tls_type_to_string tls_handshake = codes "TLSHandshake"
tls_type_to_string change_cipher_spec = codes "ChangeCipherSpec"
tls_type_to_string application_data = codes "ApplicationData"
