-- ===== src/Tests/Server.antt =====
-- Single requests at the server, whole and refused.
use nipovpn.Base.{◌≡◌, refl, [], ◌∷◌, Bytes, codes, equal}
use nipovpn.Text.{find, find_char, starts_with}
use nipovpn.Text.Lines.{lines_from, strip_cr}
use nipovpn.Text.Numbers.{to_string, stoull}
use nipovpn.HttpUtils.{raw_header_in, extract_body}
use nipovpn.Http.{Http, new_http, detect_type, parse_http, set_ip_port_as, host_of_request}
use nipovpn.Config.{random_method, random_end_point, random_fake_url, relay_host_header}
use nipovpn.Relay.{relay_request}
use nipovpn.Crypto.{aes256_encrypt}
use nipovpn.Codec.{hex_arr_to_str, decode64, encode64, hex_to_ascii}
use nipovpn.Server.Sessions.{lookup}
use nipovpn.Server.Defs
use nipovpn.Server.Actions.{after}
use nipovpn.Server.Isolation.{handle_isolated}
use nipovpn.Server.Responses.{AllReturned, Responds, handle-Responds}
use nipovpn.Server.Requests.{
  Rejected, IsName, SessionKept, Forwarded, handle-foreign, connect_session-stored,
  forward-open_same,
}
use nipovpn.Tests.World.{env, config}
use nipovpn.Tests.Relay.{session, payload, raw_of, target, server}

abbrev uuid : Bytes
uuid = codes "u-1"

-- Two sessions, and a request to close the first.
abbrev closing : Defs.Server env.World
closing = record server {
  read_buffer = raw_of (codes "close");
  sessions = (session, target) ∷ (codes "s-2", target) ∷ [];
}

handle_isolated_example :
    lookup (codes "s-2") (after (Defs.handle env config uuid closing)).sessions
    ≡ lookup (codes "s-2") closing.sessions
unfolding aes256_encrypt equal raw_header_in lines_from Defs.outer_headers find relay_request
    hex_arr_to_str random_method random_end_point relay_host_header find_char random_fake_url
    to_string encode64 strip_cr
handle_isolated_example =
    handle_isolated env config uuid closing (codes "s-2") (record { named = refl; stored = refl })

handle-Responds_example : AllReturned (Responds config) (Defs.handle env config uuid closing)
unfolding detect_type equal hex_arr_to_str relay_request aes256_encrypt random_method parse_http
handle-Responds_example = handle-Responds env config uuid closing _ refl

-- A body that is no Base64.
abbrev foreign : Defs.Server env.World
foreign = record server { read_buffer = codes "POST / HTTP/1.1\r\n\r\n!" }

handle-foreign_example : Rejected env config uuid foreign (Defs.handle env config uuid foreign)
unfolding detect_type equal hex_arr_to_str parse_http decode64 hex_to_ascii set_ip_port_as
    starts_with host_of_request extract_body find stoull
handle-foreign_example = handle-foreign env config uuid foreign _ refl tt

abbrev to_example : Http
to_example = record new_http { dst_ip = codes "example.org"; dst_port = 443 }

connect_session-stored_example :
    (name : Bytes) × IsName env config uuid session name
    × SessionKept env config uuid 7 name
        (codes "hi")
        []
        server
        (Defs.connect_session env config uuid session (codes "hi") to_example server)
connect_session-stored_example =
    connect_session-stored env config uuid session (codes "hi") to_example server 7 [] [] refl refl

abbrev kept_open : Defs.Server env.World
kept_open = record server { read_buffer = payload; client = target }

forward-open_same_example :
    Forwarded env config uuid 7 kept_open (Defs.forward env config uuid to_example kept_open)
    × (Defs.forward env config uuid to_example kept_open
        ≡ Defs.forward env config uuid
            (record new_http { dst_ip = codes "example.net"; dst_port = 80 })
            kept_open)
forward-open_same_example =
    forward-open_same env config uuid to_example
      (record new_http { dst_ip = codes "example.net"; dst_port = 80 }) kept_open 7
      (record { socket = refl; stream = refl; tls = refl; is_up = refl })
