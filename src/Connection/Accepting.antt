-- ===== src/Connection/Accepting.antt =====
-- The acceptance of a connection: `handleAccept` of core/src/tcpserver.cpp, with the methods of
-- `TCPConnection` that it calls: `initTlsServerContext`, `doHandshakeServer`, `startServer` and
-- `startAgent`.
use nipovpn.Base.{ℕ, Bool, true, false, Option, none, some, [], Bytes, if◌then◌else◌}
use nipovpn.Env.{Env, NetError, Except, ok, throw}
use nipovpn.Config.{Config, server, agent}
use nipovpn.Client.Defs.{closed_stream, open_stream, Ssl}
use nipovpn.Server.Sessions.{Sessions}
use nipovpn.Connection
use nipovpn.Connection.{Connection}
use nipovpn.Connection.Serving
use nipovpn.Connection.Asking

-- What the acceptance of a connection comes to, by the mode.
pub data Accepted (A B : Type 0) : Type 0 where
  serving : A → Accepted A B
  asking : B → Accepted A B

module _ (e : Env) (config : Config) (uuid : Bytes) where
  abbrev pub K : Type 0
  K = Connection e.World

  abbrev pub at_world : K → e.World → K
  at_world s w = record s { world = w }

  abbrev pub with_ciphers : K → Bool × e.World → Bool × K
  with_ciphers s (false, w) = (false, at_world s w)
  with_ciphers s (true, w) = (true, record s { tls = closed_stream; closed = false; world = w })

  abbrev pub with_checked_key : K → Bool × e.World → Bool × K
  with_checked_key s (false, w) = (false, at_world s w)
  with_checked_key s (true, w) = with_ciphers s (e.set_ciphers w)

  abbrev pub with_key : K → Except {0} Unit × e.World → Bool × K
  with_key s (throw, w) = (false, at_world s w)
  with_key s (ok _, w) = with_checked_key s (e.check_private_key w)

  abbrev pub with_certificate : K → Except {0} Unit × e.World → Bool × K
  with_certificate s (throw, w) = (false, at_world s w)
  with_certificate s (ok _, w) = with_key s (e.use_private_key config.general.tls_key_file w)

  abbrev pub with_context : K → Except {0} Unit × e.World → Bool × K
  with_context s (throw, w) = (false, at_world s w)
  with_context s (ok _, w) = with_certificate s (e.use_certificate config.general.tls_cert_file w)

  -- initTlsServerContext
  unfoldable pub init_tls_server_context : K → Bool × K
  init_tls_server_context s = with_context s (e.new_server_context s.world)

  abbrev pub after_handshake : K → Bool × e.World → Bool × K
  after_handshake s (true, w) = (true, Connection.cancel_timeout e config (at_world s w))
  after_handshake s (false, w) = (
    false,
    Connection.socket_shutdown e config (Connection.cancel_timeout e config (at_world s w)),
  )

  -- On a stream whose lowest layer is closed the handshake fails.
  abbrev pub handshake_over : Ssl → K → Bool × K
  handshake_over (open_stream fd) s = after_handshake s (e.handshake_server fd s.world)
  handshake_over _ s = after_handshake s (false, s.world)

  -- doHandshakeServer
  unfoldable pub do_handshake_server : K → Bool × K
  unfolding Connection.reset_timeout Connection.cancel_timeout Connection.socket_shutdown
  do_handshake_server s = handshake_over s.tls (Connection.reset_timeout e config s)

  -- `tlsSocket().lowest_layer() = std::move(socket())`
  abbrev pub moved : Option ℕ → K → K
  moved none s = record s { tls = closed_stream; socket = none }
  moved (some fd) s = record s { tls = open_stream fd; socket = none }

  abbrev pub named : K → K
  named s = record s { client = record s.client { uuid = uuid } }

  -- startServer, startAgent
  unfoldable pub start_server : Sessions → K → Serving.Next e config uuid
  unfolding Serving.do_read_server
  start_server m s = Serving.do_read_server e config uuid m (named s)

  unfoldable pub start_agent : K → Asking.Next e config uuid
  unfolding Asking.do_read_agent
  start_agent s = Asking.do_read_agent e config uuid (named s)

  abbrev pub handshaken : Sessions → Bool × K → Serving.Next e config uuid
  handshaken m (false, s) = Serving.shut e config uuid m s
  handshaken m (true, s) = start_server m s

  abbrev pub secured : Sessions → Bool × K → Serving.Next e config uuid
  secured m (false, s) = Serving.shut e config uuid m s
  secured m (true, s) = handshaken m (do_handshake_server (moved s.socket s))

  -- The two modes of handleAccept. A connection that could not be accepted is dropped.
  unfoldable pub accept_server : Option NetError → Sessions → K → Serving.Next e config uuid
  unfolding init_tls_server_context do_handshake_server start_server
  accept_server (some error) m s = ([], m, s)
  accept_server none m s =
      if config.general.tls_enable then secured m (init_tls_server_context s) else start_server m s

  unfoldable pub accept_agent : Option NetError → K → Asking.Next e config uuid
  unfolding start_agent
  accept_agent (some error) s = ([], s)
  accept_agent none s = start_agent s

  -- handleAccept, behind the start of the next accept.
  unfoldable pub handle_accept :
      Option NetError
      → Sessions
      → K
      → Accepted (Serving.Next e config uuid) (Asking.Next e config uuid)
  unfolding accept_server accept_agent
  handle_accept error m s = elim config.run_mode [
    | server ↦ serving (accept_server error m s)
    | agent ↦ asking (accept_agent error s)
  ]
