-- ===== src/Tests/Text.antt =====
-- Codings, header readers and destinations at concrete texts.
use nipovpn.Base.{
  ℕ, ◌≡◌, ◌≢◌, refl, true, ◌⊎◌, none, some, List, [], ◌∷◌, ◌++◌, Bytes, codes, arith, replicate,
  take,
}
use nipovpn.Text.{find, starts_with, find_char}
use nipovpn.Text.Lines.{with_crlf, crlf}
use nipovpn.Text.Numbers.{to_string, stoi}
use nipovpn.Env.{ok, Request}
use nipovpn.Codec.{hex_arr_to_str, hex_to_ascii, str_to_hex_arr, decode64, encode64, split_string}
use nipovpn.Codec.Hex.{hex_arr_to_str-read_back}
use nipovpn.Codec.Base64.{decode64-encode64}
use nipovpn.Codec.Split.{join, split_string-join}
use nipovpn.Crypto.{success, aes256_encrypt, aes256_decrypt}
use nipovpn.Crypto.RoundTrip.{aes256_decrypt-encrypt}
use nipovpn.HttpUtils.{
  header_end, to_lower_copy, extract_headers, extract_body, parse_content_length, make_host_port,
}
use nipovpn.HttpUtils.Messages.{message, extract-message, headers-body_split}
use nipovpn.HttpUtils.Headers.{parse_content_length-with_crlf}
use nipovpn.Http.{
  http, connect, new_http, parse_host_port, parse_bracketed, parse_port, parse_http,
  client_hello_sni, set_ip_port_as,
}
use nipovpn.Http.Hosts.{IsPort, found, parse_host_port-valid}
use nipovpn.Http.Target.{parse_host_port-make, parse_http-make, set_ip_port_as-IsPort}
use nipovpn.Http.ClientHello.{ClientHello, encode}
use nipovpn.Http.Sni.{client_hello_sni-encode}
use nipovpn.Tests.World.{env, base64, base64-IsBase64, env-IsCipher}

hex_arr_to_str-read_back_example :
    (hex_to_ascii (hex_arr_to_str (255 ∷ 16 ∷ 0 ∷ [])) ≡ some (255 ∷ 16 ∷ 0 ∷ []))
    × (str_to_hex_arr (hex_arr_to_str (255 ∷ 16 ∷ 0 ∷ [])) ≡ 255 ∷ 16 ∷ 0 ∷ [])
hex_arr_to_str-read_back_example = hex_arr_to_str-read_back (255 ∷ 16 ∷ 0 ∷ []) (omega arith)

decode64-encode64_example : decode64 base64 (encode64 base64 (codes "abcd")) ≡ some (codes "abcd")
decode64-encode64_example = decode64-encode64 base64 (codes "abcd") base64-IsBase64 (omega arith)

split_string-join_example :
    (ps : List Bytes) × (split_string (codes "a, b, ") (codes ", ") ≡ some ps)
    × (join (codes ", ") ps ≡ codes "a, b, ")
split_string-join_example = split_string-join (codes "a, b, ") (codes ", ") (λ e. cc)

aes256_decrypt-encrypt_example :
    (aes256_decrypt env (replicate 16 0 ++ codes "secret") (codes "key") []).0
    ≡ ok (success (codes "secret"))
unfolding aes256_encrypt
aes256_decrypt-encrypt_example =
    aes256_decrypt-encrypt env (codes "secret") (codes "key") [] []
      (replicate 16 0 ++ codes "secret") env-IsCipher refl refl

abbrev heads : List Bytes
heads = codes "HTTP/1.1 200 OK" ∷ codes "X-Nipo-Action: send " ∷ codes "Content-Length: 5" ∷ []

extract-message_example :
    (extract_headers (message heads (codes "hello")) ≡ with_crlf heads ++ crlf)
    × (extract_body (message heads (codes "hello")) ≡ codes "hello")
extract-message_example =
    extract-message (codes "HTTP/1.1 200 OK")
      (codes "X-Nipo-Action: send " ∷ codes "Content-Length: 5" ∷ []) (codes "hello") (omega arith)

headers-body_split_example :
    ((find header_end (codes "a\r\n\r\nb") ≡ none)
      × (extract_headers (codes "a\r\n\r\nb") ≡ [])
      × (extract_body (codes "a\r\n\r\nb") ≡ []))
    ⊎ ((i : ℕ) × (find header_end (codes "a\r\n\r\nb") ≡ some i)
        × (extract_headers (codes "a\r\n\r\nb") ++ extract_body (codes "a\r\n\r\nb")
            ≡ codes "a\r\n\r\nb")
        × (extract_headers (codes "a\r\n\r\nb") ≡ take i (codes "a\r\n\r\nb") ++ header_end))
headers-body_split_example = headers-body_split (codes "a\r\n\r\nb")

parse_content_length-with_crlf_example : parse_content_length (with_crlf heads ++ crlf) ≡ some 5
unfolding to_string starts_with to_lower_copy
parse_content_length-with_crlf_example =
    parse_content_length-with_crlf (codes "HTTP/1.1 200 OK" ∷ codes "X-Nipo-Action: send " ∷ []) 5
      [] crlf (omega arith) (omega arith) (refl, (refl, tt))

parse_host_port-make_example :
    parse_host_port (make_host_port (codes "2001:db8::1") 8080) 443
    ≡ found (codes "2001:db8::1") 8080
parse_host_port-make_example =
    parse_host_port-make (codes "2001:db8::1") 8080 443 ((λ e. cc), omega arith, omega arith)
      (omega arith)

abbrev connect_request : Request
connect_request = record {
  is_connect = true;
  target = codes "example.org:8443";
  host = none;
  body = [];
}

parse_http-make_example : (parse_http (some connect_request) new_http).1 ≡ record new_http {
  request = connect_request;
  http_type = connect;
  dst_ip = codes "example.org";
  dst_port = 8443;
}
unfolding make_host_port find_char to_string
parse_http-make_example =
    parse_http-make new_http connect_request (codes "example.org") 8443
      ((λ e. cc), omega arith, omega arith) (omega arith) refl refl

set_ip_port_as-IsPort_example : IsPort (set_ip_port_as http new_http).dst_port
set_ip_port_as-IsPort_example = set_ip_port_as-IsPort http new_http

parse_host_port-valid_example :
    ((parse_host_port (codes "[::1]:99") 80).host ≢ [])
    × IsPort (parse_host_port (codes "[::1]:99") 80).port
unfolding parse_host_port parse_bracketed find_char parse_port stoi
parse_host_port-valid_example = parse_host_port-valid (codes "[::1]:99") 80 (omega arith) refl

abbrev hello : ClientHello
hello = record {
  intro = replicate 43 1;
  session = 1 ∷ 2 ∷ [];
  suites = 0 ∷ 47 ∷ [];
  methods = 0 ∷ [];
  extensions_size = 20;
  kinds = 0 ∷ 16 ∷ 0 ∷ 14 ∷ 0 ∷ [];
  name = codes "example.org";
  rest = [];
}

client_hello_sni-encode_example :
    client_hello_sni (hex_arr_to_str (encode hello)) ≡ ok (some (codes "example.org"))
client_hello_sni-encode_example = client_hello_sni-encode hello (omega arith)
