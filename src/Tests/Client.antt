-- ===== src/Tests/Client.antt =====
-- The methods of a client over the example network.
use nipovpn.Base.{
  ◌≡◌, refl, Bool, true, false, ◌⊎◌, none, some, [], ◌∷◌, codes, arith, length, is_empty,
  if◌then◌else◌,
}
use nipovpn.Env.{NetError, tcp}
use nipovpn.Text.{find}
use nipovpn.Text.Lines.{lines_from, strip_cr}
use nipovpn.Text.Numbers.{stoull}
use nipovpn.HttpUtils.{content_length_in, extract_headers, extract_body}
use nipovpn.Client.Defs.{
  Client, new_client, is_open, socket_open, ssl_open, socket_shutdown, do_connect,
  do_handshake_client, do_write, do_read_agent, enable_tls_client,
}
use nipovpn.Client.Invariant.{IsConsistent, enable_tls_client-IsConsistent}
use nipovpn.Client.Message.{Reading, read_http_message}
use nipovpn.Client.Message.Complete.{read_http_message-exact}
use nipovpn.Client.Results.{
  is_open-connect_write, do_handshake_client-is_open, do_read_agent-is_open, socket_shutdown-down,
}
use nipovpn.Client.Runs.{
  Reach, constructed, next, connects, shuts, Reach-IsConsistent, Reach-closed,
}
use nipovpn.Tests.World.{env, config, env-IsReader}

-- A response in two pieces.
abbrev pieces : env.World
pieces = codes "HTTP/1.1 200 OK\r\nContent-Length: 5\r\n\r\nhe" ∷ codes "llo" ∷ []

read_http_message-exact_example :
    (r : Reading env.World) × (read_http_message env (tcp 7) 0 pieces ≡ some r)
    × (((error : NetError) × (r.error ≡ some error))
        ⊎ (r.error ≡ none)
          × (extract_headers r.out ≡ extract_headers (env.read_until (tcp 7) pieces).0.0)
          × (length (extract_body r.out) ≡ 5))
unfolding find extract_headers extract_body content_length_in lines_from strip_cr stoull
read_http_message-exact_example =
    read_http_message-exact env (tcp 7) 0 34 5 pieces env-IsReader refl refl refl (omega arith)

pub new_client-IsConsistent : IsConsistent new_client
new_client-IsConsistent = ground arith

abbrev open_client : Client
open_client = record new_client { socket = some 7 }

open_client-IsConsistent : IsConsistent open_client
open_client-IsConsistent = ground arith

abbrev tls_client : Client
tls_client = (enable_tls_client env config new_client []).1

is_open-connect_write_example :
    (is_open (do_connect env config (codes "example.org") 443 open_client []).1
      ≡ (do_connect env config (codes "example.org") 443 open_client []).0)
    × (is_open (do_write env config (codes "hi") open_client []).1
        ≡ (do_write env config (codes "hi") open_client []).0)
is_open-connect_write_example =
    is_open-connect_write env config (codes "example.org") 443 (codes "hi") open_client []
      open_client-IsConsistent

abbrev got_answer : Bool × Client × env.World
got_answer = (
  true,
  record open_client {
    buffer = codes "HTTP/1.1 200 OK\r\nContent-Length: 5\r\n\r\nhello";
    read_buffer = codes "HTTP/1.1 200 OK\r\nContent-Length: 5\r\n\r\nhello";
  },
  [],
)

do_read_agent-is_open_example :
    (is_open got_answer.1 ≡ true)
    × ((true ≡ false)
        ⊎ (is_empty got_answer.1.read_buffer ≡ false)
          × (got_answer.1.buffer ≡ got_answer.1.read_buffer))
unfolding do_read_agent read_http_message content_length_in lines_from extract_headers find strip_cr
    stoull extract_body
do_read_agent-is_open_example =
    do_read_agent-is_open env config 0 open_client pieces got_answer open_client-IsConsistent refl

do_handshake_client-is_open_example :
    is_open (do_handshake_client env config tls_client []).1
    ≡ (if (do_handshake_client env config tls_client []).0 then is_open tls_client else false)
do_handshake_client-is_open_example =
    do_handshake_client-is_open env config tls_client []
      (enable_tls_client-IsConsistent env config new_client [] new_client-IsConsistent)

socket_shutdown-down_example :
    (socket_open (socket_shutdown env config open_client []).0.socket ≡ false)
    × (ssl_open (socket_shutdown env config open_client []).0.ssl ≡ false)
    × ((socket_shutdown env config open_client []).0.closed ≡ true)
    × (is_open (socket_shutdown env config open_client []).0 ≡ false)
socket_shutdown-down_example =
    socket_shutdown-down env config open_client [] open_client-IsConsistent

abbrev run :
    Reach env config
      (socket_shutdown env config
        (do_connect env config (codes "example.org") 443 new_client []).1
        []).0
run = next (next constructed (connects (codes "example.org") 443 [] refl)) (shuts [] refl)

Reach-IsConsistent_example :
    IsConsistent
      (socket_shutdown env config
        (do_connect env config (codes "example.org") 443 new_client []).1
        []).0
Reach-IsConsistent_example = Reach-IsConsistent env config run

Reach-closed_example :
    is_open
      (socket_shutdown env config
        (do_connect env config (codes "example.org") 443 new_client []).1
        []).0
    ≡ false
unfolding socket_shutdown do_connect
Reach-closed_example = Reach-closed env config run refl
