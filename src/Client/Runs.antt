-- ===== src/Client/Runs.antt =====
-- The states that a `TCPClient` can reach, by its methods and its timer in any order, from the state
-- that the constructor leaves.
use nipovpn.Base.{ℕ, ◌≡◌, Bool, true, false, Option, none, some, Bytes, arith}
use nipovpn.Env.{Env, NetError}
use nipovpn.Config.{Config}
use nipovpn.Client.Defs.{
  Client, new_client, is_open, socket_shutdown, on_timeout, enable_tls_client, do_connect,
  do_handshake_client, do_write, do_read_agent, do_read_server,
}
use nipovpn.Client.Invariant.{
  IsConsistent, socket_shutdown-IsConsistent, on_timeout-IsConsistent,
  enable_tls_client-IsConsistent, do_connect-IsConsistent, do_handshake_client-IsConsistent,
  do_write-IsConsistent, do_read_agent-IsConsistent, do_read_server-IsConsistent,
}

module _ (e : Env) (config : Config) where
  -- A call of a method, with the world that it meets, or the server's `client_->socket().close()`.
  pub data Step (c d : Client) : Type 0 where
    shuts : (w : e.World) → d ≡ (socket_shutdown e config c w).0 → Step c d
    expires :
        (error : Option NetError) (w : e.World) → d ≡ (on_timeout e config error c w).0 → Step c d
    enables : (w : e.World) → d ≡ (enable_tls_client e config c w).1 → Step c d
    connects :
        (dst : Bytes) (port : ℕ) (w : e.World) → d ≡ (do_connect e config dst port c w).1 → Step c d
    handshakes : (w : e.World) → d ≡ (do_handshake_client e config c w).1 → Step c d
    writes : (bytes : Bytes) (w : e.World) → d ≡ (do_write e config bytes c w).1 → Step c d
    reads_agent :
        (fuel : ℕ) (w : e.World) (r : Bool × Client × e.World)
        → do_read_agent e config fuel c w ≡ some r
        → d ≡ r.1
        → Step c d
    reads_server : (w : e.World) → d ≡ (do_read_server e config c w).0 → Step c d
    closes : d ≡ record c { socket = none } → Step c d

  pub data Reach : Client → Type 0 where
    constructed : Reach new_client
    next : {c d : Client} → Reach c → Step c d → Reach d

  Step-IsConsistent : (c d : Client) → Step c d → IsConsistent c → IsConsistent d
  Step-IsConsistent c d (shuts w p) v = rw p (socket_shutdown-IsConsistent e config c w v)
  Step-IsConsistent c d (expires error w p) v = rw p (on_timeout-IsConsistent e config error c w v)
  Step-IsConsistent c d (enables w p) v = rw p (enable_tls_client-IsConsistent e config c w v)
  Step-IsConsistent c d (connects dst port w p) v =
      rw p (do_connect-IsConsistent e config dst port c w v)
  Step-IsConsistent c d (handshakes w p) v = rw p (do_handshake_client-IsConsistent e config c w v)
  Step-IsConsistent c d (writes bytes w p) v = rw p (do_write-IsConsistent e config bytes c w v)
  Step-IsConsistent c d (reads_agent fuel w r h p) v =
      rw p (do_read_agent-IsConsistent e config fuel c w r v h)
  Step-IsConsistent c d (reads_server w p) v = rw p (do_read_server-IsConsistent e config c w v)
  Step-IsConsistent c d (closes p) v = rw p (closed c v)
    where
      closed : (c : Client) → IsConsistent c → IsConsistent (record c { socket = none })
      closed c v = ground arith

  -- In every state that a `TCPClient` can reach from its constructor, by its methods and its timer
  -- in any order, a client that was shut down has neither socket open, and TLS is enabled only with
  -- a stream for it.
  pub Reach-IsConsistent : {c : Client} → Reach c → IsConsistent c
  Reach-IsConsistent constructed = ground arith
  Reach-IsConsistent (next {c = c} {d = d} r s) = Step-IsConsistent c d s (Reach-IsConsistent r)

  -- So a client that was shut down counts as closed, whatever happened before.
  pub Reach-closed : {c : Client} → Reach c → c.closed ≡ true → is_open c ≡ false
  unfolding is_open
  Reach-closed r h = ground (arith, Reach-IsConsistent r)
