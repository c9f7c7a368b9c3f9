-- ===== src/Tests/Sessions.antt =====
-- The sessions over requests at the server: one that closes a session, and one that opens a session
-- on an empty server.
use nipovpn.Base.{◌≡◌, refl, true, none, Option, some, [], ◌∷◌, Bytes, codes, equal}
use nipovpn.Text.{find, find_char, starts_with, rfind_char}
use nipovpn.Text.Lines.{lines_from, strip_cr}
use nipovpn.Text.Numbers.{to_string, stoull, stoi}
use nipovpn.HttpUtils.{raw_header_in, extract_body, trim_copy}
use nipovpn.Http.{
  detect_type, parse_http, set_ip_port_as, host_of_request, parse_host_port, parse_plain,
  parse_port,
}
use nipovpn.Config.{random_method, random_end_point, random_fake_url, relay_host_header}
use nipovpn.Relay.{relay_request}
use nipovpn.Crypto.{aes256_encrypt, aes256_decrypt}
use nipovpn.Codec.{hex_arr_to_str, decode64, encode64, hex_to_ascii}
use nipovpn.Client.Defs.{Client, new_client, do_connect}
use nipovpn.Server.Sessions.{lookup, insert}
use nipovpn.Server.Defs
use nipovpn.Server.Actions.{after}
use nipovpn.Server.View.{view, Step}
use nipovpn.Server.Refinement.{action_of, session_of, handle_refines}
use nipovpn.Server.Lifetimes.{IsPlain, started, handled, lookup-served}
use nipovpn.Tests.World.{env, config}
use nipovpn.Tests.Relay.{session, raw_of, target, server}

abbrev pub uuid : Bytes
uuid = codes "u-1"

abbrev closing : Defs.Server env.World
closing = record server {
  read_buffer = raw_of (codes "close");
  sessions = (session, target) ∷ (codes "s-2", target) ∷ [];
}

handle_refines_example :
    Step env config uuid
      (action_of env config uuid closing.read_buffer)
      (session_of env config uuid closing.read_buffer)
      (view closing.sessions)
      (view (after (Defs.handle env config uuid closing)).sessions)
handle_refines_example = handle_refines env config uuid closing

abbrev pub opening : Defs.Server env.World
opening = record server { read_buffer = raw; sessions = [] }
  where
    or_none : Option Bytes → Bytes
    or_none (some r) = r
    or_none none = []

    raw : Bytes
    raw =
        or_none
          (relay_request env config session (codes "open") true
            (codes "CONNECT example.org:443 HTTP/1.1\r\n\r\n") []).0

abbrev connected : Client
connected = record new_client { uuid = uuid; socket = some 7 }

opened_session :
    lookup session (after (Defs.handle env config uuid opening)).sessions ≡ some connected
unfolding lookup insert equal Defs.handle detect_type relay_request hex_arr_to_str aes256_encrypt
    random_method random_end_point relay_host_header find_char random_fake_url to_string encode64
    raw_header_in lines_from Defs.outer_headers find strip_cr extract_body starts_with
    host_of_request parse_http set_ip_port_as decode64 hex_to_ascii aes256_decrypt stoull trim_copy
    do_connect Defs.handle_inner Defs.dispatch Defs.make_encrypted_http_response parse_host_port
    parse_plain rfind_char parse_port stoi
opened_session = refl

lookup-served_example : IsPlain connected
lookup-served_example =
    lookup-served env config session connected (handled uuid opening started) opened_session
