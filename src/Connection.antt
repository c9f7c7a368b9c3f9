-- ===== src/Connection.antt =====
-- core/src/tcpconnection.cpp and tcpconnection.hpp: the connection that a client, or an agent, opened
-- to this program. Its state, its timer and its shutdown.
pub mod Body
pub mod Serving
pub mod Asking
pub mod Accepting
pub mod Socks
pub mod Tunnel
use nipovpn.Base.{
  ℕ, Bool, true, false, not, ◌||◌, Option, none, some, [], ◌∷◌, Bytes, ◌==◌, if◌then◌else◌,
}
use nipovpn.Env.{Env, NetError, Stream, tcp}
use nipovpn.Config.{Config}
use nipovpn.Client.Defs
use nipovpn.Client.Defs.{Client, Ssl, no_stream, close_ssl, close_socket}

pub record Connection (W : Type 0) : Type 0 where
  pub socket : Option ℕ
  pub tls : Ssl
  pub client : Client
  pub read_buffer : Bytes
  pub write_buffer : Bytes
  pub end_flag : Bool
  pub connect_flag : Bool
  pub tunnel_closed : Bool
  pub poll_in_progress : Bool
  pub closed : Bool
  -- Whether each timer is running.
  pub timer : Bool
  pub poll_timer : Bool
  pub world : W

-- The constructor; the acceptor opens the socket.
abbrev pub new_connection : {W : Type 0} → Client → W → Connection W
new_connection client w = record {
  socket = none;
  tls = no_stream;
  client = client;
  read_buffer = [];
  write_buffer = [];
  end_flag = false;
  connect_flag = false;
  tunnel_closed = false;
  poll_in_progress = false;
  closed = false;
  timer = false;
  poll_timer = false;
  world = w;
}

module _ (e : Env) (config : Config) where
  abbrev pub K : Type 0
  K = Connection e.World

  -- resetTimeout, cancelTimeout
  unfoldable pub reset_timeout : K → K
  reset_timeout s = if config.general.timeout == 0 || s.closed then s else record s { timer = true }

  unfoldable pub cancel_timeout : K → K
  cancel_timeout s = if config.general.timeout == 0 then s else record s { timer = false }

  -- The client is shut down last.
  abbrev pub shut_client : K → K
  shut_client s =
      let (c, w) = Defs.socket_shutdown e config s.client s.world in
      record s { client = c; world = w }

  -- socketShutdown
  unfoldable pub socket_shutdown : K → K
  unfolding Defs.socket_shutdown
  socket_shutdown s =
      if s.closed
      then s
      else (let (tls', w) = close_ssl e config s.tls s.world in
          shut_client (record s {
            closed = true;
            poll_timer = false;
            timer = false;
            tls = tls';
            socket = none;
            world = close_socket e config s.socket w;
          }))

  -- onTimeout, by the error that ended the wait.
  unfoldable pub on_timeout : Option NetError → K → K
  unfolding socket_shutdown
  on_timeout (some error) s = s
  on_timeout none s = if s.connect_flag || s.closed then s else socket_shutdown s
