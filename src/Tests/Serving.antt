-- ===== src/Tests/Serving.antt =====
-- A connection at the server, from its acceptance to a request whose read fails.
use nipovpn.Base.{◌≡◌, refl, equal, true, Option, none, some, [], ◌∷◌, codes}
use nipovpn.Env.{eof}
use nipovpn.Connection
use nipovpn.Connection.{Connection}
use nipovpn.Connection.Accepting.{named, accept_server}
use nipovpn.Connection.Serving
use nipovpn.Connection.Serving.{
  request_read, request_arrived, response_write, response_written, agent_read, target_read,
  target_write, agent_sent,
}
use nipovpn.Connection.Serving.Runs
use nipovpn.Connection.Serving.Runs.{
  Reach, IsAlive, Reach-IsAlive, completed, request, response, from_agent,
}
use nipovpn.Text.{find, find_char, rfind_char, starts_with}
use nipovpn.Text.Lines.{lines_from, strip_cr}
use nipovpn.Text.Numbers.{to_string, stoull, stoi}
use nipovpn.HttpUtils.{raw_header_in, extract_body, extract_headers, content_length_in, trim_copy}
use nipovpn.Http.{
  detect_type, parse_http, set_ip_port_as, host_of_request, parse_host_port, parse_plain,
  parse_port,
}
use nipovpn.Config.{random_method, random_end_point, random_fake_url, relay_host_header}
use nipovpn.Relay.{relay_request}
use nipovpn.Crypto.{aes256_encrypt, aes256_decrypt}
use nipovpn.Codec.{hex_arr_to_str, decode64, encode64, hex_to_ascii}
use nipovpn.Client.Defs.{do_connect, is_open}
use nipovpn.Server.Defs
use nipovpn.Connection.Body.{read_remaining}
use nipovpn.Connection.Serving.Directions.{upward}
use nipovpn.Connection.Serving.Order.{InOrder, Reach-InOrder}
use nipovpn.Tests.World.{env, config}
use nipovpn.Tests.Connection.{accepted}
use nipovpn.Tests.Sessions.{opening, uuid}
use nipovpn.Config.{Config}

abbrev served : Connection env.World
served =
    (Serving.do_read_server env config (codes "u-1") [] (named env config (codes "u-1") accepted)).2

abbrev failed : Connection env.World
failed = Connection.socket_shutdown env config (Connection.cancel_timeout env config served)

failed-Reach :
    Reach env config
      (codes "u-1")
      (request_arrived [] (some eof) ∷ [])
      (request_read ∷ [])
      []
      failed
unfolding accept_server Serving.complete Serving.handle_read_server
failed-Reach =
    completed [] (request_read ∷ []) [] [] request_read (request_arrived [] (some eof)) 0 [] served
      [] [] failed (Runs.accepted [] accepted refl) request refl

Reach-IsAlive_example : IsAlive env config (codes "u-1") [] failed
Reach-IsAlive_example = Reach-IsAlive env config (codes "u-1") failed-Reach

-- A direct tunnel, over which the agent sends two bytes.
abbrev tunnel_config : Config
tunnel_config = record config { general = record config.general { tunnel_enable = true } }

abbrev result : Option (Serving.Next env tunnel_config uuid) → Serving.Next env tunnel_config uuid
result (some n) = n
result none = ([], [], accepted)

abbrev start : Serving.Next env tunnel_config uuid
start = accept_server env tunnel_config uuid none [] accepted

abbrev asked : Serving.Next env tunnel_config uuid
asked = result (
    Serving.complete env tunnel_config uuid 0 (request_arrived opening.read_buffer none) [] start.2)

abbrev answered : Serving.Next env tunnel_config uuid
answered =
    result (Serving.complete env tunnel_config uuid 0 (response_written none) asked.1 asked.2)

asked_ops :
    Serving.complete env tunnel_config uuid 0 (request_arrived opening.read_buffer none) [] start.2
    ≡ some (response_write ∷ [], asked.1, asked.2)
unfolding Serving.complete Serving.handle_read_server accept_server read_remaining content_length_in
    lines_from extract_headers find relay_request aes256_encrypt hex_arr_to_str random_method
    random_end_point relay_host_header find_char random_fake_url to_string encode64 Defs.handle
    detect_type raw_header_in Defs.outer_headers strip_cr extract_body starts_with host_of_request
    parse_http set_ip_port_as decode64 hex_to_ascii aes256_decrypt stoull trim_copy do_connect
    Defs.handle_inner Defs.dispatch Defs.make_encrypted_http_response parse_host_port parse_plain
    rfind_char parse_port stoi equal
asked_ops = refl

answered_ops :
    Serving.complete env tunnel_config uuid 0 (response_written none) asked.1 asked.2
    ≡ some (agent_read ∷ target_read ∷ [], answered.1, answered.2)
unfolding Serving.complete Serving.handle_read_server accept_server read_remaining content_length_in
    lines_from extract_headers find relay_request aes256_encrypt hex_arr_to_str random_method
    random_end_point relay_host_header find_char random_fake_url to_string encode64 Defs.handle
    detect_type raw_header_in Defs.outer_headers strip_cr extract_body starts_with host_of_request
    parse_http set_ip_port_as decode64 hex_to_ascii aes256_decrypt stoull trim_copy do_connect
    Defs.handle_inner Defs.dispatch Defs.make_encrypted_http_response parse_host_port parse_plain
    rfind_char parse_port stoi equal is_open
answered_ops = refl

tunnel-Reach :
    Reach env tunnel_config uuid
      (request_arrived opening.read_buffer none
        ∷ response_written none
        ∷ agent_sent (codes "hi") none
        ∷ [])
      (request_read ∷ response_write ∷ agent_read ∷ target_read ∷ target_write (codes "hi") ∷ [])
      (target_read ∷ target_write (codes "hi") ∷ [])
      answered.2
unfolding accept_server Serving.complete
tunnel-Reach =
    completed _ _ [] (target_read ∷ []) agent_read (agent_sent (codes "hi") none) 0 answered.1
      answered.2 (target_write (codes "hi") ∷ []) answered.1 answered.2
      (completed _ _ [] [] response_write (response_written none) 0 asked.1 asked.2
        (agent_read ∷ target_read ∷ []) answered.1 answered.2
        (completed [] (request_read ∷ []) [] [] request_read
          (request_arrived opening.read_buffer none) 0 [] start.2 (response_write ∷ []) asked.1
          asked.2 (Runs.accepted [] accepted refl) request asked_ops)
        response answered_ops)
      from_agent refl

Reach-InOrder_example :
    InOrder env tunnel_config uuid upward
      (request_arrived opening.read_buffer none
        ∷ response_written none
        ∷ agent_sent (codes "hi") none
        ∷ [])
      (request_read ∷ response_write ∷ agent_read ∷ target_read ∷ target_write (codes "hi") ∷ [])
      (target_read ∷ target_write (codes "hi") ∷ [])
Reach-InOrder_example = Reach-InOrder env tunnel_config uuid upward tunnel-Reach
