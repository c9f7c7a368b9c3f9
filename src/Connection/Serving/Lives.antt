-- ===== src/Connection/Serving/Lives.antt =====
-- A connection at the server either has an operation under way or is shut down.
use nipovpn.Base.{
  nothing, ℕ, ◌≡◌, refl, Bool, true, false, not, ◌&&◌, ◌||◌, ◌⊎◌, inl, inr, Option, none, some, [],
  ◌∷◌, Bytes, is_empty, if_split, arith,
}
use nipovpn.Env.{Env, NetError, Stream, Outcome, returned, threw}
use nipovpn.Config.{Config}
use nipovpn.Client.Defs.{socket_open, ssl_open, is_open}
use nipovpn.Server.Sessions.{Sessions}
use nipovpn.Server.Defs
use nipovpn.Server.Defs.{Server}
use nipovpn.Connection
use nipovpn.Connection.{Connection}
use nipovpn.Connection.Serving
use nipovpn.Connection.Serving.{
  Started, agent_read, target_read, target_write, agent_write, Completed, request_arrived,
  response_written, agent_sent, target_sent, agent_written, target_written,
}

-- A connection that was shut down has no open socket, and with TLS the plain socket is never open.
pub record IsShut {W : Type 0} (with_tls : Bool) (s : Connection W) : Type 0 where
  pub closed_socket : s.closed ≡ true → socket_open s.socket ≡ false
  pub closed_tls : s.closed ≡ true → ssl_open s.tls ≡ false
  pub secured : with_tls ≡ true → socket_open s.socket ≡ false

module _ (e : Env) (config : Config) (uuid : Bytes) where
  abbrev K : Type 0
  K = Connection e.World

  abbrev pub with_tls : Bool
  with_tls = config.general.tls_enable

  abbrev pub Lives : Serving.Next e config uuid → Type 0
  Lives (ops, m, s) = IsShut with_tls s × ((nothing ops ≡ false) ⊎ (s.closed ≡ true))

  abbrev pub LivesIfDone : Option (Serving.Next e config uuid) → Type 0
  LivesIfDone none = Unit
  LivesIfDone (some n) = Lives n

  pub socket_shutdown-IsShut :
      (s : K)
      → IsShut with_tls s
      → IsShut with_tls (Connection.socket_shutdown e config s)
        × ((Connection.socket_shutdown e config s).closed ≡ true)
  unfolding Connection.socket_shutdown
  socket_shutdown-IsShut s v = ground arith

  pub reset_timeout-IsShut :
      (s : K) → IsShut with_tls s → IsShut with_tls (Connection.reset_timeout e config s)
  unfolding Connection.reset_timeout
  reset_timeout-IsShut s v = ground arith

  pub cancel_timeout-IsShut :
      (s : K) → IsShut with_tls s → IsShut with_tls (Connection.cancel_timeout e config s)
  unfolding Connection.cancel_timeout
  cancel_timeout-IsShut s v = ground arith

  pub shut-Lives :
      (m : Sessions) (s : K) → IsShut with_tls s → Lives (Serving.shut e config uuid m s)
  shut-Lives m s v = let (v', closed) = socket_shutdown-IsShut s v in (v', inr closed)

  starts-Lives :
      (op : Started) (m : Sessions) (s : K)
      → IsShut with_tls s
      → Lives (Serving.starts e config uuid op m s)
  starts-Lives op m s v = (v, inl refl)

  relay-Lives :
      (op : Started) (m : Sessions) (s : K)
      → IsShut with_tls s
      → Lives (Serving.relay e config uuid op m s)
  relay-Lives op m s v =
      if_split Lives (s.tunnel_closed || not (is_open s.client)) (shut-Lives m s v)
        (starts-Lives op m s v)

  and_then-Lives :
      (n : Serving.Next e config uuid) (k : Sessions → K → Serving.Next e config uuid)
      → Lives n
      → ((m : Sessions) (s : K) → IsShut with_tls s → Lives (k m s))
      → Lives (Serving.and_then e config uuid n k)
  and_then-Lives ([], m, s) k h g = g m s h.0
  and_then-Lives (op ∷ ops, m, s) k h g = ((g m s h.0).0, inl refl)

  pub do_read_server-Lives :
      (m : Sessions) (s : K) → IsShut with_tls s → Lives (Serving.do_read_server e config uuid m s)
  unfolding Serving.do_read_server
  do_read_server-Lives m s v = (
    reset_timeout-IsShut (record s { read_buffer = []; write_buffer = [] })
        (record {
          closed_socket = v.closed_socket;
          closed_tls = v.closed_tls;
          secured = v.secured;
        }),
    inl refl,
  )

  respond-Lives :
      (m : Sessions) (s : K) → IsShut with_tls s → Lives (Serving.respond e config uuid m s)
  respond-Lives m s v =
      if_split Lives (is_empty s.write_buffer) (shut-Lives m s v)
        (reset_timeout-IsShut s v, inl refl)

  handled-Lives :
      (s : K) (o : Outcome (Server e.World))
      → IsShut with_tls s
      → Lives (Serving.handled e config uuid s o)
  handled-Lives s (threw h) v =
      shut-Lives h.sessions _
        (record { closed_socket = v.closed_socket; closed_tls = v.closed_tls; secured = v.secured })
  handled-Lives s (returned h) v =
      respond-Lives h.sessions _
        (record { closed_socket = v.closed_socket; closed_tls = v.closed_tls; secured = v.secured })

  peer_named-Lives :
      (m : Sessions) (s : K) (r : Bool × e.World)
      → IsShut with_tls s
      → Lives (Serving.peer_named e config uuid m s r)
  peer_named-Lives m s (false, w) v =
      shut-Lives m (record s { world = w })
        (record { closed_socket = v.closed_socket; closed_tls = v.closed_tls; secured = v.secured })
  peer_named-Lives m s (true, w) v = handled-Lives s (Defs.handle e config uuid _) v

  body_read-Lives :
      (m : Sessions) (s : K) (stream : Stream) (r : Option (Bool × Bytes × e.World))
      → IsShut with_tls s
      → LivesIfDone (Serving.body_read e config uuid m s stream r)
  body_read-Lives m s stream none v = tt
  body_read-Lives m s stream (some (false, buffer, w)) v =
      shut-Lives m (record s { read_buffer = buffer; world = w })
        (record { closed_socket = v.closed_socket; closed_tls = v.closed_tls; secured = v.secured })
  body_read-Lives m s stream (some (true, buffer, w)) v =
      peer_named-Lives m (record s { read_buffer = buffer; world = w }) _
        (record { closed_socket = v.closed_socket; closed_tls = v.closed_tls; secured = v.secured })

  request_from-Lives :
      (fuel : ℕ) (m : Sessions) (s : K) (stream : Option Stream)
      → IsShut with_tls s
      → LivesIfDone (Serving.request_from e config uuid fuel m s stream)
  request_from-Lives fuel m s none v = shut-Lives m s v
  request_from-Lives fuel m s (some stream) v = body_read-Lives m s stream _ v

  handle_read_server-Lives :
      (fuel : ℕ) (error : Option NetError) (m : Sessions) (s : K)
      → IsShut with_tls s
      → LivesIfDone (Serving.handle_read_server e config uuid fuel error m s)
  unfolding Serving.handle_read_server
  handle_read_server-Lives fuel (some error) m s v = shut-Lives m _ (cancel_timeout-IsShut s v)
  handle_read_server-Lives fuel none m s v =
      request_from-Lives fuel m _ _ (cancel_timeout-IsShut s v)

  go_on-Lives : (m : Sessions) (s : K) → IsShut with_tls s → Lives (Serving.go_on e config uuid m s)
  go_on-Lives m s v =
      if_split Lives (s.connect_flag && config.general.tunnel_enable)
        (and_then-Lives _ (Serving.relay e config uuid target_read) (relay-Lives agent_read m s v)
          (relay-Lives target_read))
        (if_split Lives config.general.connection_reuse (do_read_server-Lives m s v)
          (shut-Lives m s v))

  after_response-Lives :
      (error : Option NetError) (m : Sessions) (s : K)
      → IsShut with_tls s
      → Lives (Serving.after_response e config uuid error m s)
  after_response-Lives (some error) m s v = shut-Lives m s v
  after_response-Lives none m s v = go_on-Lives m s v

  after_relay_read-Lives :
      (op : Bytes → Started) (bytes : Bytes) (error : Option NetError) (m : Sessions) (s : K)
      → IsShut with_tls s
      → Lives (Serving.after_relay_read e config uuid op bytes error m s)
  after_relay_read-Lives op bytes (some error) m s v = shut-Lives m s v
  after_relay_read-Lives op [] none m s v = shut-Lives m s v
  after_relay_read-Lives op (b ∷ bytes) none m s v = starts-Lives (op (b ∷ bytes)) m s v

  after_relay_write-Lives :
      (op : Started) (error : Option NetError) (m : Sessions) (s : K)
      → IsShut with_tls s
      → Lives (Serving.after_relay_write e config uuid op error m s)
  after_relay_write-Lives op (some error) m s v = shut-Lives m s v
  after_relay_write-Lives op none m s v = relay-Lives op m s v

  -- Whichever operation of a server's connection comes to an end, if the callback comes to an end
  -- too, then it starts another operation or leaves the connection shut down; and a connection that
  -- is shut down has no open socket of its own, if that was so before.
  pub complete-Lives :
      (fuel : ℕ) (event : Completed) (m : Sessions) (s : K)
      → IsShut with_tls s
      → LivesIfDone (Serving.complete e config uuid fuel event m s)
  unfolding Serving.complete
  complete-Lives fuel (request_arrived buffer error) m s v =
      handle_read_server-Lives fuel error m _
        (record { closed_socket = v.closed_socket; closed_tls = v.closed_tls; secured = v.secured })
  complete-Lives fuel (response_written error) m s v =
      after_response-Lives error m _ (cancel_timeout-IsShut s v)
  complete-Lives fuel (agent_sent bytes error) m s v =
      after_relay_read-Lives target_write bytes error m s v
  complete-Lives fuel (target_sent bytes error) m s v =
      after_relay_read-Lives agent_write bytes error m s v
  complete-Lives fuel (target_written error) m s v = after_relay_write-Lives _ error m s v
  complete-Lives fuel (agent_written error) m s v = after_relay_write-Lives _ error m s v
