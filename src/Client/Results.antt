-- ===== src/Client/Results.antt =====
-- What the result of a method says of the connection behind it.
use nipovpn.Base.{◌⊎◌, is_empty, ℕ, if◌then◌else◌, ◌≡◌, Bool, true, false, some, Bytes, arith}
use nipovpn.Env.{Env}
use nipovpn.Config.{Config}
use nipovpn.Client.Defs.{
  Client, is_open, socket_open, ssl_open, socket_shutdown, do_connect, do_handshake_client,
  do_write, do_read_agent,
}
use nipovpn.Client.Invariant.{IsConsistent}

module _ (e : Env) (config : Config) where
  -- After a shutdown of a consistent client nothing of it is open, also if it had been shut down
  -- before.
  pub is_open-socket_shutdown :
      (c : Client) (w : e.World) → IsConsistent c → is_open (socket_shutdown e config c w).0 ≡ false
  unfolding is_open socket_shutdown
  is_open-socket_shutdown c w v = ground arith

  -- After a shutdown of a consistent client neither its socket nor its TLS stream is open, the
  -- shutdown is on record, and `isOpen` is `false`, also if it had been shut down before.
  pub socket_shutdown-down :
      (c : Client) (w : e.World)
      → IsConsistent c
      → (socket_open (socket_shutdown e config c w).0.socket ≡ false)
        × (ssl_open (socket_shutdown e config c w).0.ssl ≡ false)
        × ((socket_shutdown e config c w).0.closed ≡ true)
        × (is_open (socket_shutdown e config c w).0 ≡ false)
  unfolding is_open socket_shutdown
  socket_shutdown-down c w v = ground arith

  -- Of a consistent client, `doConnect` returns `true` exactly if the client is open afterwards.
  do_connect-is_open :
      (dst : Bytes) (port : ℕ) (c : Client) (w : e.World)
      → IsConsistent c
      → is_open (do_connect e config dst port c w).1 ≡ (do_connect e config dst port c w).0
  unfolding is_open do_connect
  do_connect-is_open dst port c w v = ground arith

  -- Of a consistent client, `doWrite` returns `true` exactly if the client is open afterwards.
  do_write-is_open :
      (bytes : Bytes) (c : Client) (w : e.World)
      → IsConsistent c
      → is_open (do_write e config bytes c w).1 ≡ (do_write e config bytes c w).0
  unfolding is_open do_write
  do_write-is_open bytes c w v = ground arith

  -- Of a consistent client, `doConnect` returns `true` exactly if the client is open afterwards,
  -- and so does `doWrite`.
  pub is_open-connect_write :
      (dst : Bytes) (port : ℕ) (bytes : Bytes) (c : Client) (w : e.World)
      → IsConsistent c
      → (is_open (do_connect e config dst port c w).1 ≡ (do_connect e config dst port c w).0)
        × (is_open (do_write e config bytes c w).1 ≡ (do_write e config bytes c w).0)
  is_open-connect_write dst port bytes c w v =
      (do_connect-is_open dst port c w v, do_write-is_open bytes c w v)

  -- Whenever `doReadAgent` of a consistent client comes to an end, it returns `true` exactly if the
  -- client is open afterwards, and with `true` both of its buffers hold the same text, which is not
  -- empty.
  pub do_read_agent-is_open :
      (fuel : ℕ) (c : Client) (w : e.World) (r : Bool × Client × e.World)
      → IsConsistent c
      → do_read_agent e config fuel c w ≡ some r
      → (is_open r.1 ≡ r.0)
        × ((r.0 ≡ false) ⊎ (is_empty r.1.read_buffer ≡ false) × (r.1.buffer ≡ r.1.read_buffer))
  unfolding is_open do_read_agent
  do_read_agent-is_open fuel c w r v h = ground arith

  -- Of a consistent client, `doHandshakeClient` leaves the client as open as it was if it returns
  -- `true`, and closed if it returns `false`.
  pub do_handshake_client-is_open :
      (c : Client) (w : e.World)
      → IsConsistent c
      → is_open (do_handshake_client e config c w).1
        ≡ (if (do_handshake_client e config c w).0 then is_open c else false)
  unfolding is_open do_handshake_client
  do_handshake_client-is_open c w v = ground arith
