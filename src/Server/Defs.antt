-- ===== src/Server/Defs.antt =====
-- `ServerHandler::handle` and the responses that it makes. The locks and the log lines are left
-- out: one request is handled at a time.
use nipovpn.Base.{
  ℕ, Bool, true, false, not, Option, none, some, [], ◌∷◌, ◌++◌, ◌+◌, Bytes, codes, equal, is_empty,
  length, take, drop, if◌then◌else◌, min, ◌==◌,
}
use nipovpn.Text.{find}
use nipovpn.Text.Lines.{crlf, with_crlf}
use nipovpn.Text.Numbers.{to_string}
use nipovpn.HttpUtils.{header_end, extract_body, get_raw_header}
use nipovpn.Codec.{hex_to_ascii, decode64}
pub use nipovpn.Env.{Outcome, returned, threw}
use nipovpn.Env.{Env, Except, ok, throw, Read, got, failed, tcp}
use nipovpn.Crypto.{BoolStr, aes256_encrypt, aes256_decrypt}
use nipovpn.Config.{Config}
use nipovpn.Http.{Http, HttpType, https, http, connect, new_http, detect_type}
use nipovpn.Client.Defs.{
  Client, new_client, is_open, socket_open, socket_shutdown, do_connect, do_write, do_read_server,
  close_socket,
}
use nipovpn.Server.Sessions.{Sessions, lookup, insert, erase}

-- The members of a handler that change, with the sessions that all handlers share.
pub record Server (W : Type 0) : Type 0 where
  pub read_buffer : Bytes
  pub write_buffer : Bytes
  pub client : Client
  pub sessions : Sessions
  pub end_flag : Bool
  pub connect_flag : Bool
  pub world : W

module _ (e : Env) (config : Config) (uuid : Bytes) where
  abbrev S : Type 0
  S = Server e.World

  -- makePlainHttpResponse
  abbrev pub plain_response : Bytes → Bytes → Bytes → Bytes
  plain_response body status connection =
      with_crlf (
        (codes "HTTP/1.1 " ++ status)
        ∷ codes "Content-Type: application/text"
        ∷ (codes "Content-Length: " ++ to_string (length body))
        ∷ (codes "Connection: " ++ connection)
        ∷ [])
      ++ (crlf ++ body)

  unfoldable pub make_plain_http_response : Bytes → Bytes → Bytes → S → S
  make_plain_http_response body status connection s = record s {
    write_buffer = plain_response body status connection;
    end_flag = false;
    connect_flag = false;
  }

  abbrev pub respond_encrypted : Bytes → Bytes → S → BoolStr × e.World → S
  respond_encrypted status connection s (r, w) =
      if not r.good
      then make_plain_http_response [] (codes "500 Internal Server Error") (codes "close")
          (record s { world = w })
      else make_plain_http_response r.text status connection (record s { world = w })

  -- makeEncryptedHttpResponse
  unfoldable pub make_encrypted_http_response : Bytes → Bytes → Bytes → S → S
  unfolding make_plain_http_response
  make_encrypted_http_response plain status connection s =
      respond_encrypted status connection s (aes256_encrypt e plain config.general.token s.world)

  abbrev pub kept : Bytes
  kept = if config.general.connection_reuse then codes "keep-alive" else codes "close"

  -- The response with which most branches end: `200 OK`.
  abbrev pub respond_ok : Bytes → S → S
  respond_ok plain = make_encrypted_http_response plain (codes "200 OK") kept

  abbrev pub bad_request : S → S
  bad_request = make_plain_http_response [] (codes "400 Bad Request") (codes "close")

  abbrev pub inner_bad_request : S → S
  inner_bad_request = make_encrypted_http_response [] (codes "400 Bad Request") (codes "close")

  -- `client_->socket().close()`
  unfoldable pub close_client : S → S
  close_client s = record s {
    client = record s.client { socket = none };
    world = close_socket e config s.client.socket s.world;
  }

  abbrev pub store : Bytes → S → Bool × Client × e.World → S
  store session s (_, c, w) = record s { sessions = insert session c s.sessions; world = w }

  abbrev pub send_to : Bytes → Client → Option Bytes → S → Outcome S
  send_to session target none s = threw s
  send_to session target (some bytes) s =
      returned (respond_ok [] (store session s (do_write e config bytes target s.world)))

  -- The action `send`.
  unfoldable pub handle_send : Bytes → Bytes → Option Client → S → Outcome S
  handle_send session text none s = returned (respond_ok [] s)
  handle_send session text (some target) s =
      if not (is_open target)
      then returned (respond_ok [] s)
      else send_to session target (hex_to_ascii text) s

  abbrev pub received : S → Read × e.World → S
  received s (failed error, w) = respond_ok [] (record s { world = w })
  received s (got [], w) = respond_ok [] (record s { world = w })
  received s (got (b ∷ bytes), w) = respond_ok (b ∷ bytes) (record s { world = w })

  abbrev pub receive_available : ℕ → S → Option ℕ × e.World → S
  receive_available fd s (none, w) = respond_ok [] (record s { world = w })
  receive_available fd s (some n, w) =
      if n == 0
      then respond_ok [] (record s { world = w })
      else received s (e.read_some (tcp fd) (min n config.general.buffer_size) w)

  abbrev pub receive_from : Option ℕ → S → S
  receive_from none s = respond_ok [] s
  receive_from (some fd) s = receive_available fd s (e.available fd s.world)

  -- The action `recv`.
  unfoldable pub handle_recv : Option Client → S → S
  handle_recv none s = respond_ok [] s
  handle_recv (some target) s =
      if not (is_open target) then respond_ok [] s else receive_from target.socket s

  abbrev pub drop_session : Bytes → Option Client → S → S
  drop_session session none s = s
  drop_session session (some target) s =
      let (c, w) = socket_shutdown e config target s.world in
      record s { sessions = erase session s.sessions; world = w }

  -- The action `close`.
  unfoldable pub handle_close : Bytes → Option Client → S → S
  handle_close session target s = respond_ok [] (drop_session session target s)

  abbrev pub bad_gateway : S → S
  bad_gateway =
      make_encrypted_http_response (codes "HTTP/1.1 502 Bad Gateway\r\n\r\n")
        (codes "502 Bad Gateway") (codes "close")

  abbrev pub established : S → S
  established =
      make_encrypted_http_response (codes "HTTP/1.1 200 Connection Established\r\n\r\n")
        (codes "200 OK") (codes "keep-alive")

  -- CONNECT with `tunnelEnable`: the handler's own client goes to the target.
  abbrev pub direct_connected : S → Bool × Client × e.World → S
  direct_connected s (false, c, w) = bad_gateway (record s { client = c; world = w })
  direct_connected s (true, c, w) = record (established (record s { client = c; world = w })) {
    connect_flag = true;
  }

  abbrev pub connect_direct : Http → S → S
  connect_direct inner s =
      direct_connected s (do_connect e config inner.dst_ip inner.dst_port s.client s.world)

  abbrev pub session_name : Bytes → Bytes
  session_name session = if is_empty session then uuid else session

  abbrev pub flush_pending : Bytes → Client → e.World → Bool × Client × e.World
  flush_pending [] c w = (true, c, w)
  flush_pending (b ∷ bytes) c w = do_write e config (b ∷ bytes) c w

  -- CONNECT without it: a new client goes to the target and is kept as a session.
  abbrev pub session_connected : Bytes → Bytes → S → Bool × Client × e.World → S
  session_connected session pending s (false, c, w) = bad_gateway (record s { world = w })
  session_connected session pending s (true, c, w) =
      established (store (session_name session) s (flush_pending pending c w))

  abbrev pub connect_session : Bytes → Bytes → Http → S → S
  connect_session session pending inner s =
      session_connected session pending s (
        do_connect e config inner.dst_ip inner.dst_port (record new_client { uuid = uuid }) s.world)

  -- What the target answered to a plain request.
  abbrev pub relay_answer : S → S
  relay_answer s =
      if is_empty s.client.read_buffer
      then respond_ok [] (close_client s)
      else respond_ok s.client.read_buffer s

  abbrev pub read_answer : S → Bool × Client × e.World → S
  read_answer s (_, c, w) =
      let (c', w') = do_read_server e config c w in
      relay_answer (record s { read_buffer = []; client = c'; world = w' })

  abbrev pub ask : S → S
  ask s = read_answer s (do_write e config s.read_buffer s.client s.world)

  abbrev pub asked : S → Bool × Client × e.World → S
  asked s (true, c, w) = ask (record s { client = c; world = w })
  asked s (false, c, w) =
      make_encrypted_http_response [] (codes "502 Bad Gateway") (codes "close")
        (close_client (record s { client = c; world = w }))

  -- A plain request, which goes over the handler's own client.
  abbrev pub forward : Http → S → S
  forward inner s =
      if not (socket_open s.client.socket)
      then asked s (do_connect e config inner.dst_ip inner.dst_port s.client s.world)
      else ask s

  abbrev pub by_type : HttpType → Bytes → Bytes → Bytes → Http → S → S
  by_type connect session request pending inner s =
      if config.general.tunnel_enable
      then connect_direct inner s
      else connect_session session pending inner s
  by_type http session request pending inner s = forward inner (record s { read_buffer = request })
  by_type https session request pending inner s = forward inner (record s { read_buffer = request })

  abbrev pub inner_detected : Bytes → Bytes → Bytes → S → Except (Bool × Http) → Outcome S
  inner_detected session request pending s throw = threw s
  inner_detected session request pending s (ok (false, inner)) = returned (inner_bad_request s)
  inner_detected session request pending s (ok (true, inner)) =
      returned (by_type inner.http_type session request pending inner s)

  -- The inner request: its headers decide, and what stands behind them is pending data.
  unfoldable pub handle_inner : Bytes → Bytes → S → Outcome S
  handle_inner session request s = elim (find header_end request) [
    | none ↦ returned (inner_bad_request s)
    | some i ↦
        inner_detected session request (drop (i + 4) request)
          (record s { read_buffer = take (i + 4) request })
          (detect_type e.parse_request (take (i + 4) request) new_http)
  ]

  abbrev pub handle_open : Bytes → Option Bytes → S → Outcome S
  handle_open session none s = threw s
  handle_open session (some request) s = handle_inner session request s

  -- The branches of `handle` behind the decryption.
  unfoldable pub dispatch : Bytes → Bytes → Bytes → S → Outcome S
  dispatch action session text s =
      if equal action (codes "send")
      then handle_send session text (lookup session s.sessions) s
      else if equal action (codes "recv")
      then returned (handle_recv (lookup session s.sessions) s)
      else if equal action (codes "close")
      then returned (handle_close session (lookup session s.sessions) s)
      else handle_open session (hex_to_ascii text) s

  abbrev pub decrypted : Bytes → Bytes → S → Except BoolStr × e.World → Outcome S
  decrypted action session s (throw, w) = returned (bad_request (record s { world = w }))
  decrypted action session s (ok r, w) =
      if not r.good
      then returned (bad_request (record s { world = w }))
      else dispatch action session r.text (record s { world = w })

  abbrev pub decoded : Bytes → Bytes → S → Option Bytes → Outcome S
  decoded action session s none = returned (bad_request s)
  decoded action session s (some text) =
      decrypted action session s (aes256_decrypt e text config.general.token s.world)

  -- The headers of the outer request, up to and with the last line break.
  unfoldable pub outer_headers : Bytes → Bytes
  outer_headers raw = elim (find header_end raw) [ none ↦ [] | some i ↦ take (i + 2) raw ]

  abbrev pub body_or : Bytes → Bytes → Bytes
  body_or raw body = if is_empty body then extract_body raw else body

  abbrev pub detected : S → Except (Bool × Http) → Outcome S
  detected s throw = threw s
  detected s (ok (false, outer)) = returned (close_client s)
  detected s (ok (true, outer)) =
      let headers = outer_headers s.read_buffer in
      decoded (get_raw_header headers (codes "X-Nipo-Action"))
        (get_raw_header headers (codes "X-Nipo-Session")) s
        (decode64 e.base64 (body_or s.read_buffer outer.request.body))

  -- handle
  unfoldable pub handle : S → Outcome S
  handle s = detected s (detect_type e.parse_request s.read_buffer new_http)
