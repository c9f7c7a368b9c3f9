-- ===== src/Client/Invariant.antt =====
-- What every method of a `TCPClient` keeps true of it.
use nipovpn.Base.{ℕ, ◌≡◌, Bool, true, false, Option, some, Bytes, arith}
use nipovpn.Env.{Env, NetError}
use nipovpn.Config.{Config}
use nipovpn.Client.Defs.{
  Client, ssl_open, has_ssl, socket_open, socket_shutdown, on_timeout, enable_tls_client,
  do_connect, do_handshake_client, do_write, do_read_agent, do_read_server,
}

-- A client that was shut down has nothing open, and TLS is enabled only with a stream for it.
pub record IsConsistent (c : Client) : Type 0 where
  pub closed_socket : c.closed ≡ true → socket_open c.socket ≡ false
  pub closed_ssl : c.closed ≡ true → ssl_open c.ssl ≡ false
  pub tls_stream : c.tls_enabled ≡ true → has_ssl c.ssl ≡ true

module _ (e : Env) (config : Config) where
  pub socket_shutdown-IsConsistent :
      (c : Client) (w : e.World) → IsConsistent c → IsConsistent (socket_shutdown e config c w).0
  unfolding socket_shutdown
  socket_shutdown-IsConsistent c w v = ground arith

  pub enable_tls_client-IsConsistent :
      (c : Client) (w : e.World) → IsConsistent c → IsConsistent (enable_tls_client e config c w).1
  unfolding enable_tls_client
  enable_tls_client-IsConsistent c w v = ground arith

  pub do_connect-IsConsistent :
      (dst : Bytes) (port : ℕ) (c : Client) (w : e.World)
      → IsConsistent c
      → IsConsistent (do_connect e config dst port c w).1
  unfolding do_connect
  do_connect-IsConsistent dst port c w v = ground arith

  pub do_write-IsConsistent :
      (bytes : Bytes) (c : Client) (w : e.World)
      → IsConsistent c
      → IsConsistent (do_write e config bytes c w).1
  unfolding do_write
  do_write-IsConsistent bytes c w v = ground arith

  pub do_handshake_client-IsConsistent :
      (c : Client) (w : e.World)
      → IsConsistent c
      → IsConsistent (do_handshake_client e config c w).1
  unfolding do_handshake_client
  do_handshake_client-IsConsistent c w v = ground arith

  pub do_read_agent-IsConsistent :
      (fuel : ℕ) (c : Client) (w : e.World) (r : Bool × Client × e.World)
      → IsConsistent c
      → do_read_agent e config fuel c w ≡ some r
      → IsConsistent r.1
  unfolding do_read_agent
  do_read_agent-IsConsistent fuel c w r v h = ground arith

  pub do_read_server-IsConsistent :
      (c : Client) (w : e.World) → IsConsistent c → IsConsistent (do_read_server e config c w).0
  unfolding do_read_server
  do_read_server-IsConsistent c w v = ground arith

  pub on_timeout-IsConsistent :
      (error : Option NetError) (c : Client) (w : e.World)
      → IsConsistent c
      → IsConsistent (on_timeout e config error c w).0
  unfolding on_timeout socket_shutdown
  on_timeout-IsConsistent error c w v = ground arith
