-- ===== src/Agent.antt =====
-- core/src/agenthandler.cpp and agenthandler.hpp: the agent's side of the relay. The lock and the
-- log lines are left out.
pub mod Exchange
pub mod Termination
use nipovpn.Base.{
  ℕ, Bool, true, false, not, ◌&&◌, ◌||◌, Option, none, some, [], ◌∷◌, Bytes, codes, is_empty,
  if◌then◌else◌,
}
use nipovpn.Env.{Env, Except, ok, throw, Outcome, returned, threw}
use nipovpn.Config.{Config}
use nipovpn.Http.{Http, HttpType, https, http, connect, new_http, detect_type}
use nipovpn.Client.Defs.{
  Client, is_open, socket_shutdown, enable_tls_client, do_connect, do_handshake_client, do_write,
  do_read_agent,
}
use nipovpn.Relay.{relay_request, relay_answer}

-- The members of a handler that change.
pub record AgentHandler (W : Type 0) : Type 0 where
  pub read_buffer : Bytes
  pub write_buffer : Bytes
  pub client : Client
  pub end_flag : Bool
  pub connect_flag : Bool
  pub world : W

abbrev pub is_connect : HttpType → Bool
is_connect connect = true
is_connect _ = false

module _ (e : Env) (config : Config) (uuid : Bytes) where
  abbrev pub A : Type 0
  A = AgentHandler e.World

  -- `client_->socketShutdown(); return;`
  abbrev pub shut : A → A
  shut s =
      let (c, w) = socket_shutdown e config s.client s.world in record s { client = c; world = w }

  abbrev pub at_client : A → Bool × Client × e.World → A
  at_client s (_, c, w) = record s { client = c; world = w }

  -- The end of the call, on what the server's response held.
  abbrev pub answered : HttpType → A → Except (Option Bytes) × e.World → Outcome A
  answered type s (throw, w) = threw (record s { world = w })
  answered type s (ok none, w) = returned (shut (record s { world = w }))
  answered type s (ok (some plain), w) = returned (record s {
    world = w;
    write_buffer = plain;
    connect_flag = is_connect type;
    end_flag = false;
  })

  abbrev pub read_reply : HttpType → A → Outcome A
  read_reply type s =
      if is_empty s.client.read_buffer && not config.general.connection_reuse
      then returned (shut s)
      else answered type s (relay_answer e config s.client.read_buffer s.world)

  -- `doWrite` and `doReadAgent`, whose results are not looked at.
  abbrev pub reply_read : HttpType → A → Option (Bool × Client × e.World) → Option (Outcome A)
  reply_read type s none = none
  reply_read type s (some r) = some (read_reply type (at_client s r))

  abbrev pub ask : ℕ → HttpType → Bytes → A → Option (Outcome A)
  ask fuel type raw s =
      let asked = record (at_client s (do_write e config raw s.client s.world)) {
        read_buffer = [];
      } in
      reply_read type asked (do_read_agent e config fuel asked.client asked.world)

  abbrev pub requested : ℕ → HttpType → A → Option Bytes × e.World → Option (Outcome A)
  requested fuel type s (none, w) = some (returned (shut (record s { world = w })))
  requested fuel type s (some raw, w) = ask fuel type raw (record s { world = w })

  abbrev pub action_of : HttpType → Bytes
  action_of type = if is_connect type then codes "open" else codes "request"

  abbrev pub keeps_alive : HttpType → Bool
  keeps_alive type =
      config.general.connection_reuse || (config.general.tunnel_enable && is_connect type)

  -- The exchange with the server, over an open connection.
  unfoldable pub exchange : ℕ → HttpType → A → Option (Outcome A)
  unfolding socket_shutdown
  exchange fuel type s =
      requested fuel type s
        (relay_request e config uuid (action_of type) (keeps_alive type) s.read_buffer s.world)

  abbrev pub after_handshake : ℕ → HttpType → A → Bool × Client × e.World → Option (Outcome A)
  after_handshake fuel type s (false, c, w) = some (returned (shut (at_client s (false, c, w))))
  after_handshake fuel type s (true, c, w) = exchange fuel type (at_client s (true, c, w))

  abbrev pub after_connect : ℕ → HttpType → A → Bool × Client × e.World → Option (Outcome A)
  after_connect fuel type s (false, c, w) = some (returned (shut (at_client s (false, c, w))))
  after_connect fuel type s (true, c, w) =
      if c.tls_enabled
      then after_handshake fuel type s (do_handshake_client e config c w)
      else exchange fuel type (at_client s (true, c, w))

  -- A client that is not connected goes to the server.
  abbrev pub connected : ℕ → HttpType → A → Option (Outcome A)
  connected fuel type s =
      if not (is_open s.client)
      then after_connect fuel type s
          (do_connect e config config.agent.server_ip config.agent.server_port s.client s.world)
      else exchange fuel type s

  abbrev pub after_tls : ℕ → HttpType → A → Bool × Client × e.World → Option (Outcome A)
  after_tls fuel type s (false, c, w) = some (returned (shut (at_client s (false, c, w))))
  after_tls fuel type s (true, c, w) = connected fuel type (at_client s (true, c, w))

  abbrev pub secured : ℕ → HttpType → A → Option (Outcome A)
  secured fuel type s =
      if config.general.tls_enable && not s.client.tls_enabled
      then after_tls fuel type s (enable_tls_client e config s.client s.world)
      else connected fuel type s

  abbrev pub detected : ℕ → A → Except (Bool × Http) → Option (Outcome A)
  detected fuel s throw = some (threw s)
  detected fuel s (ok (false, request)) = some (returned (shut s))
  detected fuel s (ok (true, request)) = secured fuel request.http_type s

  -- handle; `none` if the fuel for a chunked response runs out.
  unfoldable pub handle : ℕ → A → Option (Outcome A)
  unfolding exchange
  handle fuel s = detected fuel s (detect_type e.parse_request s.read_buffer new_http)
