-- ===== src/Connection/Serving.antt =====
-- The connection of an agent at the server: `doReadServer`, `handleReadServer`, and the callbacks of
-- the writes and of the direct tunnel. Each callback is a function that returns the operations which it
-- starts. `tunnelMode_` is only ever written and has no counterpart.
pub mod Lives
pub mod Runs
pub mod Directions
pub mod Order
use nipovpn.Base.{
  ℕ, zero, suc, Bool, true, false, not, ◌&&◌, ◌||◌, Option, none, some, List, [], ◌∷◌, ◌++◌, Bytes,
  is_empty, if◌then◌else◌,
}
use nipovpn.Env.{Env, NetError, Stream, tcp, tls, Outcome, returned, threw}
use nipovpn.Config.{Config}
use nipovpn.Client.Defs.{Ssl, no_stream, closed_stream, open_stream, socket_stream, is_open, fd_of}
use nipovpn.Server.Sessions.{Sessions}
use nipovpn.Server.Defs
use nipovpn.Server.Defs.{Server}
use nipovpn.Connection
use nipovpn.Connection.{Connection}
use nipovpn.Connection.Body.{read_remaining}

-- An operation that is under way: reading a request, writing a response, and the two directions of a
-- direct tunnel.
pub data Started : Type 0 where
  request_read response_write : Started
  agent_read target_read : Started
  target_write agent_write : Bytes → Started

-- An operation that came to its end, with its error, and with what the buffer holds or the bytes that
-- were read.
pub data Completed : Type 0 where
  request_arrived : Bytes → Option NetError → Completed
  response_written : Option NetError → Completed
  agent_sent target_sent : Bytes → Option NetError → Completed
  agent_written target_written : Option NetError → Completed

module _ (e : Env) (config : Config) (uuid : Bytes) where
  abbrev pub K : Type 0
  K = Connection e.World

  -- What a callback starts, and what it leaves.
  abbrev pub Next : Type 0
  Next = List Started × Sessions × K

  -- `socketShutdown(); return;`
  abbrev pub shut : Sessions → K → Next
  shut m s = ([], m, Connection.socket_shutdown e config s)

  abbrev pub starts : Started → Sessions → K → Next
  starts op m s = (op ∷ [], m, s)

  -- doReadServer
  unfoldable pub do_read_server : Sessions → K → Next
  do_read_server m s =
      starts request_read m
        (Connection.reset_timeout e config (record s { read_buffer = []; write_buffer = [] }))

  abbrev pub tls_stream : Ssl → Option Stream
  tls_stream (open_stream fd) = some (tls fd)
  tls_stream _ = none

  abbrev pub stream_of : K → Option Stream
  stream_of s =
      if config.general.tls_enable then tls_stream s.tls else socket_stream e config s.socket

  -- The handler shares the buffers and the client with the connection.
  abbrev pub server_of : Sessions → K → Server e.World
  server_of m s = record {
    read_buffer = s.read_buffer;
    write_buffer = s.write_buffer;
    client = s.client;
    sessions = m;
    end_flag = false;
    connect_flag = false;
    world = s.world;
  }

  abbrev pub back_from : Server e.World → K → K
  back_from h s = record s {
    read_buffer = h.read_buffer;
    write_buffer = h.write_buffer;
    client = h.client;
    world = h.world;
  }

  abbrev pub respond : Sessions → K → Next
  respond m s =
      if is_empty s.write_buffer
      then shut m s
      else starts response_write m (Connection.reset_timeout e config s)

  abbrev pub handled : K → Outcome (Server e.World) → Next
  handled s (threw h) = shut h.sessions (back_from h s)
  handled s (returned h) =
      respond h.sessions
        (record (back_from h s) { end_flag = h.end_flag; connect_flag = h.connect_flag })

  -- The log line names the peer, which throws if it is gone.
  abbrev pub peer_named : Sessions → K → Bool × e.World → Next
  peer_named m s (false, w) = shut m (record s { world = w })
  peer_named m s (true, w) =
      handled s (Defs.handle e config uuid (server_of m (record s { world = w })))

  abbrev pub body_read : Sessions → K → Stream → Option (Bool × Bytes × e.World) → Option Next
  body_read m s stream none = none
  body_read m s stream (some (false, buffer, w)) =
      some (shut m (record s { read_buffer = buffer; world = w }))
  body_read m s stream (some (true, buffer, w)) = some (
      peer_named m (record s { read_buffer = buffer; world = w })
        (e.has_peer (fd_of e config stream) w))

  -- On a closed stream the read fails, or, with nothing left to read, naming the peer does.
  abbrev pub request_from : ℕ → Sessions → K → Option Stream → Option Next
  request_from fuel m s none = some (shut m s)
  request_from fuel m s (some stream) =
      body_read m s stream (read_remaining e stream fuel s.read_buffer s.world)

  -- handleReadServer
  unfoldable pub handle_read_server : ℕ → Option NetError → Sessions → K → Option Next
  handle_read_server fuel (some error) m s = some (shut m (Connection.cancel_timeout e config s))
  handle_read_server fuel none m s =
      request_from fuel m (Connection.cancel_timeout e config s) (stream_of s)

  -- relayAgentToTarget, relayTargetToAgent
  abbrev pub relay : Started → Sessions → K → Next
  relay op m s = if s.tunnel_closed || not (is_open s.client) then shut m s else starts op m s

  abbrev pub and_then : Next → (Sessions → K → Next) → Next
  and_then (ops, m, s) k = let (ops', m', s') = k m s in (ops ++ ops', m', s')

  -- The callback of the response's write.
  abbrev pub go_on : Sessions → K → Next
  go_on m s =
      if s.connect_flag && config.general.tunnel_enable
      then and_then (relay agent_read m s) (relay target_read)
      else if config.general.connection_reuse
      then do_read_server m s
      else shut m s

  abbrev pub after_response : Option NetError → Sessions → K → Next
  after_response (some error) m s = shut m s
  after_response none m s = go_on m s

  -- The callbacks of a tunnel's reads and writes.
  abbrev pub after_relay_read : (Bytes → Started) → Bytes → Option NetError → Sessions → K → Next
  after_relay_read op bytes (some error) m s = shut m s
  after_relay_read op [] none m s = shut m s
  after_relay_read op (b ∷ bytes) none m s = starts (op (b ∷ bytes)) m s

  abbrev pub after_relay_write : Started → Option NetError → Sessions → K → Next
  after_relay_write op (some error) m s = shut m s
  after_relay_write op none m s = relay op m s

  -- What follows the end of an operation; `none` if the fuel for a chunked request runs out.
  unfoldable pub complete : ℕ → Completed → Sessions → K → Option Next
  complete fuel (request_arrived buffer error) m s =
      handle_read_server fuel error m (record s { read_buffer = buffer })
  complete fuel (response_written error) m s =
      some (after_response error m (Connection.cancel_timeout e config s))
  complete fuel (agent_sent bytes error) m s = some (after_relay_read target_write bytes error m s)
  complete fuel (target_sent bytes error) m s = some (after_relay_read agent_write bytes error m s)
  complete fuel (target_written error) m s = some (after_relay_write agent_read error m s)
  complete fuel (agent_written error) m s = some (after_relay_write target_read error m s)
