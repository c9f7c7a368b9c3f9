-- ===== src/Connection/Tunnel.antt =====
-- `postTunnelAction` of tcpconnection.cpp: one exchange of a tunnel with the server, and
-- `closeTunnelSession`.
pub mod Posted
use nipovpn.Base.{
  ℕ, Bool, true, false, not, ◌&&◌, Option, none, some, [], ◌∷◌, Bytes, codes, equal, is_empty,
  if◌then◌else◌,
}
use nipovpn.Env.{Env, Except, ok, throw, Outcome, returned, threw}
use nipovpn.Config.{Config}
use nipovpn.Client.Defs
use nipovpn.Client.Defs.{
  Client, is_open, enable_tls_client, do_connect, do_handshake_client, do_write, do_read_agent,
}
use nipovpn.Relay.{relay_request, relay_answer}
use nipovpn.Connection.{Connection}

module _ (e : Env) (config : Config) (uuid : Bytes) where
  -- The text of a response, or nothing, with the client and the world; `none` if the fuel for a
  -- chunked response runs out.
  abbrev pub Response : Type 0
  Response = Option (Bytes × Client × e.World)

  abbrev pub keeps_alive : Bytes → Bool
  keeps_alive action = config.general.connection_reuse && not (equal action (codes "close"))

  -- `client_->socketShutdown(); return "";`
  abbrev pub shut_empty : Client → e.World → Bytes × Client × e.World
  shut_empty c w = let (c', w') = Defs.socket_shutdown e config c w in ([], c', w')

  abbrev pub shut_after : Bytes → Client → e.World → Bytes × Client × e.World
  shut_after response c w = let (c', w') = Defs.socket_shutdown e config c w in (response, c', w')

  abbrev pub finished : Bytes → Client → e.World → Bytes × Client × e.World
  finished action c w =
      if is_empty c.read_buffer
      then shut_empty c w
      else if not (keeps_alive action)
      then shut_after c.read_buffer c w
      else (c.read_buffer, c, w)

  abbrev pub response_read : Bytes → Option (Bool × Client × e.World) → Response
  response_read action none = none
  response_read action (some (false, c, w)) = some (shut_empty c w)
  response_read action (some (true, c, w)) = some (finished action c w)

  abbrev pub request_written : ℕ → Bytes → Bool × Client × e.World → Response
  request_written fuel action (false, c, w) = some (shut_empty c w)
  request_written fuel action (true, c, w) = response_read action (do_read_agent e config fuel c w)

  abbrev pub request_made : ℕ → Bytes → Client → Option Bytes × e.World → Response
  request_made fuel action c (none, w) = some ([], c, w)
  request_made fuel action c (some raw, w) = request_written fuel action (do_write e config raw c w)

  -- The exchange over an open connection.
  abbrev pub exchange : ℕ → Bytes → Bytes → Client → e.World → Response
  exchange fuel action raw c w =
      request_made fuel action c (relay_request e config uuid action (keeps_alive action) raw w)

  abbrev pub handshaken : ℕ → Bytes → Bytes → Bool × Client × e.World → Response
  handshaken fuel action raw (false, c, w) = some ([], c, w)
  handshaken fuel action raw (true, c, w) = exchange fuel action raw c w

  abbrev pub connected : ℕ → Bytes → Bytes → Bool × Client × e.World → Response
  connected fuel action raw (false, c, w) = some ([], c, w)
  connected fuel action raw (true, c, w) =
      if c.tls_enabled
      then handshaken fuel action raw (do_handshake_client e config c w)
      else exchange fuel action raw c w

  abbrev pub secured : ℕ → Bytes → Bytes → Bool × Client × e.World → Response
  secured fuel action raw (false, c, w) = some ([], c, w)
  secured fuel action raw (true, c, w) =
      connected fuel action raw
        (do_connect e config config.agent.server_ip config.agent.server_port c w)

  -- sendOnce
  unfoldable pub send_once : ℕ → Bytes → Bytes → Client → e.World → Response
  send_once fuel action raw c w =
      if is_open c
      then exchange fuel action raw c w
      else if config.general.tls_enable
      then secured fuel action raw (enable_tls_client e config c w)
      else secured fuel action raw (true, c, w)

  abbrev pub K : Type 0
  K = Connection e.World

  -- A text, or an exception from the decryption of the answer.
  abbrev pub decrypted : K → Except (Option Bytes) × e.World → Except Bytes × K
  decrypted s (throw, w) = (throw, record s { world = w })
  decrypted s (ok none, w) = (ok [], record s { world = w })
  decrypted s (ok (some text), w) = (ok text, record s { world = w })

  abbrev pub responded : K → Response → Option (Except Bytes × K)
  responded s none = none
  responded s (some (response, c, w)) =
      some (decrypted (record s { client = c }) (relay_answer e config response w))

  -- A second try, on a new connection, if the first gave nothing.
  abbrev pub retried : ℕ → Bytes → Bytes → K → Response → Option (Except Bytes × K)
  retried fuel action raw s none = none
  retried fuel action raw s (some (response, c, w)) =
      if is_empty response && keeps_alive action
      then (let (c', w') = Defs.socket_shutdown e config c w in
          responded s (send_once fuel action raw c' w'))
      else responded s (some (response, c, w))

  -- postTunnelAction
  unfoldable pub post_tunnel_action : ℕ → Bytes → Bytes → K → Option (Except Bytes × K)
  post_tunnel_action fuel action raw s =
      retried fuel action raw s
        (send_once fuel action raw (record s.client { uuid = uuid }) s.world)

  abbrev pub outcome : Except Bytes × K → Outcome K
  outcome (throw, s) = threw s
  outcome (ok text, s) = returned s

  abbrev pub closed_with : Option (Except Bytes × K) → Option (Outcome K)
  closed_with none = none
  closed_with (some r) = some (outcome r)

  -- closeTunnelSession
  unfoldable pub close_tunnel_session : ℕ → K → Option (Outcome K)
  close_tunnel_session fuel s =
      if s.tunnel_closed
      then some (returned s)
      else closed_with (
          post_tunnel_action fuel (codes "close") []
            (record s { tunnel_closed = true; poll_timer = false }))
