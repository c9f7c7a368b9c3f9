-- ===== src/Connection/Asking.antt =====
-- The connection of a local client at the agent: `doReadAgent`, `handleReadAgent`, and the callbacks of
-- the writes and of both kinds of tunnel. Each callback is a function that returns the operations which
-- it starts, or throws out of the event loop, which goes on with the next callback.
pub mod Sound
pub mod Waits
pub mod Lives
pub mod Requests
pub mod Callbacks
pub mod Runs
use nipovpn.Base.{
  ℕ, zero, suc, ◌-◌, Bool, true, false, not, ◌&&◌, ◌||◌, Option, none, some, List, [], ◌∷◌, ◌++◌,
  Bytes, codes, equal, is_empty, length, ltb, if◌then◌else◌,
}
use nipovpn.Text.{find, is_some, starts_with}
use nipovpn.HttpUtils.{header_end, extract_headers, extract_body, parse_content_length}
use nipovpn.Env.{Env, NetError, eof, tcp, Except, ok, throw, Outcome, returned, threw}
use nipovpn.Config.{Config}
use nipovpn.Client.Defs
use nipovpn.Client.Defs.{is_open, socket_open}
use nipovpn.Agent
use nipovpn.Agent.{AgentHandler}
use nipovpn.Connection
use nipovpn.Connection.{Connection}
use nipovpn.Connection.Socks.{Part, goes_on, refuses, throws, handle_socks5_handshake}
use nipovpn.Connection.Tunnel.{post_tunnel_action, close_tunnel_session}

-- An operation that is under way: reading a request, writing an answer, the two directions of a direct
-- tunnel, and the reads, the waits and the writes of one that goes through exchanges.
pub data Started : Type 0 where
  request_read answer_write : Started
  client_read server_read : Started
  server_write client_write : Bytes → Started
  tunnel_read poll_wait poll_write : Started

-- An operation that came to its end.
pub data Completed : Type 0 where
  request_arrived : Bytes → Option NetError → Completed
  answer_written : Option NetError → Completed
  client_sent server_sent : Bytes → Option NetError → Completed
  client_written server_written : Option NetError → Completed
  tunnel_sent : Bytes → Option NetError → Completed
  poll_due poll_written : Option NetError → Completed

module _ (e : Env) (config : Config) (uuid : Bytes) where
  abbrev pub K : Type 0
  K = Connection e.World

  abbrev pub Next : Type 0
  Next = List Started × K

  -- `socketShutdown(); return;`
  abbrev pub shut : K → Next
  shut s = ([], Connection.socket_shutdown e config s)

  abbrev pub starts : Started → K → Next
  starts op s = (op ∷ [], s)

  -- doReadAgent
  unfoldable pub do_read_agent : K → Next
  do_read_agent s =
      starts request_read
        (Connection.reset_timeout e config (record s { read_buffer = []; write_buffer = [] }))

  abbrev pub is_socks5 : Bool
  is_socks5 = equal config.general.protocol (codes "socks5")

  -- The reply of SOCKS5 for a connection that was made.
  abbrev pub socks5_ok : Bytes
  socks5_ok = 5 ∷ 0 ∷ 0 ∷ 1 ∷ 0 ∷ 0 ∷ 0 ∷ 0 ∷ 0 ∷ 0 ∷ []

  abbrev pub agent_of : K → AgentHandler e.World
  agent_of s = record {
    read_buffer = s.read_buffer;
    write_buffer = s.write_buffer;
    client = s.client;
    end_flag = false;
    connect_flag = false;
    world = s.world;
  }

  abbrev pub back_from : AgentHandler e.World → K → K
  back_from h s = record s {
    read_buffer = h.read_buffer;
    write_buffer = h.write_buffer;
    client = h.client;
    world = h.world;
  }

  abbrev pub answer : K → Next
  answer s =
      if is_empty s.write_buffer
      then shut s
      else starts answer_write (Connection.reset_timeout e config s)

  abbrev pub handled : K → Option (Outcome (AgentHandler e.World)) → Option Next
  handled s none = none
  handled s (some (threw h)) = some (shut (back_from h s))
  handled s (some (returned h)) =
      let s' = record (back_from h s) { end_flag = h.end_flag; connect_flag = h.connect_flag } in
      some (
        answer (if is_socks5 && h.connect_flag then record s' { write_buffer = socks5_ok } else s'))

  -- The log line names the peer, which throws if it is gone.
  abbrev pub peer_named : ℕ → K → Bool × e.World → Option Next
  peer_named fuel s (false, w) = some (shut (record s { world = w }))
  peer_named fuel s (true, w) =
      handled s (Agent.handle e config uuid fuel (agent_of (record s { world = w })))

  -- An error other than the end of the stream.
  abbrev pub is_fatal : Option NetError → Bool
  is_fatal none = false
  is_fatal (some eof) = false
  is_fatal (some _) = true

  abbrev pub named : ℕ → ℕ → K → Option Next
  named fuel fd s = peer_named fuel s (e.has_peer fd s.world)

  abbrev pub body_read : ℕ → ℕ → K → (Bytes × Option NetError) × e.World → Option Next
  body_read fuel fd s ((bytes, error), w) =
      let s' = record s { read_buffer = s.read_buffer ++ bytes; world = w } in
      if is_fatal error then some (shut s') else named fuel fd s'

  abbrev pub is_connect : Bytes → Bool
  is_connect headers =
      starts_with (codes "CONNECT ") headers || starts_with (codes "connect ") headers

  abbrev pub announced : ℕ → ℕ → K → Option ℕ → Option Next
  announced fuel fd s none = named fuel fd s
  announced fuel fd s (some size) =
      let have = length (extract_body s.read_buffer) in
      if ltb have size
      then body_read fuel fd s (e.read_exact (tcp fd) (size - have) s.world)
      else named fuel fd s

  abbrev pub with_headers : ℕ → ℕ → K → Option Next
  with_headers fuel fd s =
      let headers = extract_headers s.read_buffer in
      if is_connect headers
      then named fuel fd s
      else announced fuel fd s (parse_content_length headers)

  abbrev pub headers_read : ℕ → ℕ → K → (Bytes × Option NetError) × e.World → Option Next
  headers_read fuel fd s ((text, error), w) =
      let s' = record s { read_buffer = text; world = w } in
      if is_fatal error then some (shut s') else with_headers fuel fd s'

  -- On a socket that is closed the reads fail, or naming the peer does.
  abbrev pub request_from : ℕ → K → Option ℕ → Option Next
  request_from fuel s none = some (shut s)
  request_from fuel s (some fd) =
      if is_some (find header_end s.read_buffer)
      then with_headers fuel fd s
      else headers_read fuel fd s (e.read_more (tcp fd) s.read_buffer s.world)

  abbrev pub shaken : ℕ → Part K Unit → Option Next
  shaken fuel (goes_on _ s) = request_from fuel s s.socket
  shaken fuel (refuses s) = some (shut s)
  shaken fuel (throws s) = some (shut s)

  abbrev pub arrived : ℕ → K → Option Next
  arrived fuel s =
      if is_socks5 then shaken fuel (handle_socks5_handshake e s) else request_from fuel s s.socket

  -- handleReadAgent
  unfoldable pub handle_read_agent : ℕ → Option NetError → K → Option Next
  handle_read_agent fuel (some error) s = some (shut (Connection.cancel_timeout e config s))
  handle_read_agent fuel none s = arrived fuel (Connection.cancel_timeout e config s)

  -- relayClientToServer, relayServerToClient
  abbrev pub relay : Started → K → Next
  relay op s =
      if s.tunnel_closed || (not (socket_open s.socket) || not (is_open s.client))
      then shut s
      else starts op s

  abbrev pub and_then : Next → (K → Next) → Next
  and_then (ops, s) k = let (ops', s') = k s in (ops ++ ops', s')

  -- startTunnelReadFromClient
  unfoldable pub start_tunnel_read : K → Next
  start_tunnel_read s =
      if s.tunnel_closed || not (socket_open s.socket) then ([], s) else starts tunnel_read s

  -- startTunnelPollServer
  unfoldable pub start_tunnel_poll : K → Next
  start_tunnel_poll s =
      if s.tunnel_closed || (not (socket_open s.socket) || s.poll_in_progress)
      then ([], s)
      else starts poll_wait (record s { poll_in_progress = true; poll_timer = true })

  abbrev pub shut_client : K → K
  shut_client s =
      let (c, w) = Defs.socket_shutdown e config s.client s.world in
      record s { client = c; world = w }

  abbrev pub open_tunnel : K → Next
  open_tunnel s =
      if config.general.tunnel_enable
      then and_then (relay client_read s) (relay server_read)
      else and_then
          (start_tunnel_read (if not config.general.connection_reuse then shut_client s else s))
          start_tunnel_poll

  -- The callback of the answer's write.
  abbrev pub after_answer : Option NetError → K → Next
  after_answer (some error) s = shut s
  after_answer none s =
      if s.connect_flag then open_tunnel (record s { tunnel_closed = false }) else do_read_agent s

  abbrev pub after_relay_read : (Bytes → Started) → Bytes → Option NetError → K → Next
  after_relay_read op bytes (some error) s = shut s
  after_relay_read op [] none s = shut s
  after_relay_read op (b ∷ bytes) none s = starts (op (b ∷ bytes)) s

  abbrev pub after_relay_write : Started → Option NetError → K → Next
  after_relay_write op (some error) s = shut s
  after_relay_write op none s = relay op s

  -- `closeTunnelSession(); socketShutdown(); return;`
  abbrev pub shut_tunnel : Option (Outcome K) → Option (Outcome Next)
  shut_tunnel none = none
  shut_tunnel (some (threw s)) = some (threw ([], s))
  shut_tunnel (some (returned s)) = some (returned (shut s))

  abbrev pub close_tunnel : ℕ → K → Option (Outcome Next)
  close_tunnel fuel s = shut_tunnel (close_tunnel_session e config uuid fuel s)

  abbrev pub after_send : Option (Except Bytes × K) → Option (Outcome Next)
  after_send none = none
  after_send (some (throw, s)) = some (threw ([], s))
  after_send (some (ok _, s)) = some (returned (start_tunnel_read s))

  abbrev pub after_tunnel_read : ℕ → Bytes → Option NetError → K → Option (Outcome Next)
  after_tunnel_read fuel bytes (some error) s = close_tunnel fuel s
  after_tunnel_read fuel [] none s = close_tunnel fuel s
  after_tunnel_read fuel (b ∷ bytes) none s =
      after_send (post_tunnel_action e config uuid fuel (codes "send") (b ∷ bytes) s)

  abbrev pub polled : Option (Except Bytes × K) → Option (Outcome Next)
  polled none = none
  polled (some (throw, s)) = some (threw ([], s))
  polled (some (ok [], s)) = some (returned (start_tunnel_poll s))
  polled (some (ok (b ∷ bytes), s)) = some (returned (starts poll_write s))

  abbrev pub after_poll_wait : ℕ → Option NetError → K → Option (Outcome Next)
  after_poll_wait fuel (some error) s = some (returned ([], s))
  after_poll_wait fuel none s =
      if s.tunnel_closed || not (socket_open s.socket)
      then some (returned ([], s))
      else polled (post_tunnel_action e config uuid fuel (codes "recv") [] s)

  abbrev pub after_poll_write : ℕ → Option NetError → K → Option (Outcome Next)
  after_poll_write fuel (some error) s = close_tunnel fuel s
  after_poll_write fuel none s = some (returned (start_tunnel_poll s))

  abbrev pub guarded : Option Next → Option (Outcome Next)
  guarded none = none
  guarded (some n) = some (returned n)

  -- What follows the end of an operation; `none` if the fuel for a chunked response runs out.
  unfoldable pub complete : ℕ → Completed → K → Option (Outcome Next)
  complete fuel (request_arrived buffer error) s =
      guarded (handle_read_agent fuel error (record s { read_buffer = buffer }))
  complete fuel (answer_written error) s =
      some (returned (after_answer error (Connection.cancel_timeout e config s)))
  complete fuel (client_sent bytes error) s =
      some (returned (after_relay_read server_write bytes error s))
  complete fuel (server_sent bytes error) s =
      some (returned (after_relay_read client_write bytes error s))
  complete fuel (server_written error) s = some (returned (after_relay_write client_read error s))
  complete fuel (client_written error) s = some (returned (after_relay_write server_read error s))
  complete fuel (tunnel_sent bytes error) s = after_tunnel_read fuel bytes error s
  complete fuel (poll_due error) s =
      after_poll_wait fuel error (record s { poll_in_progress = false; poll_timer = false })
  complete fuel (poll_written error) s = after_poll_write fuel error s
