-- ===== src/Connection/Serving/Runs.antt =====
-- A connection at the server from its acceptance on: the operations that are under way, and the
-- callbacks by which they come to their ends, in any order. Between two callbacks the other
-- connections may change the sessions and the world.
use nipovpn.Base.{
  [], nothing, nothing-append, ℕ, ◌≡◌, refl, Bool, true, false, ◌⊎◌, inl, inr, Option, none, some,
  List, ◌∷◌, ◌++◌, Bytes, if_cases, if_split, subst, ◌||◌, arith,
}
use nipovpn.Env.{Env, NetError}
use nipovpn.Config.{Config}
use nipovpn.Client.Defs.{Ssl, no_stream, closed_stream, open_stream}
use nipovpn.Server.Sessions.{Sessions}
use nipovpn.Connection
use nipovpn.Connection.{Connection}
use nipovpn.Connection.Accepting
use nipovpn.Connection.Accepting.{accept_server}
use nipovpn.Connection.Serving
use nipovpn.Connection.Serving.{
  Started, request_read, response_write, agent_read, target_write, target_read, agent_write,
  Completed, request_arrived, response_written, agent_sent, target_sent, agent_written,
  target_written,
}
use nipovpn.Connection.Serving.Lives.{
  IsShut, Lives, LivesIfDone, complete-Lives, shut-Lives, do_read_server-Lives,
  socket_shutdown-IsShut, reset_timeout-IsShut, cancel_timeout-IsShut,
}

-- The end of an operation.
pub data Ends : Started → Completed → Type 0 where
  request :
      {bytes : Bytes} {error : Option NetError} → Ends request_read (request_arrived bytes error)
  response : {error : Option NetError} → Ends response_write (response_written error)
  from_agent : {bytes : Bytes} {error : Option NetError} → Ends agent_read (agent_sent bytes error)
  from_target :
      {bytes : Bytes} {error : Option NetError} → Ends target_read (target_sent bytes error)
  to_agent :
      {bytes : Bytes} {error : Option NetError} → Ends (agent_write bytes) (agent_written error)
  to_target :
      {bytes : Bytes} {error : Option NetError} → Ends (target_write bytes) (target_written error)

module _ (e : Env) (config : Config) (uuid : Bytes) where
  abbrev K : Type 0
  K = Connection e.World

  -- The events so far, the operations that were started so far, those that are under way, and the
  -- connection.
  pub data Reach : List Completed → List Started → List Started → K → Type 0 where
    accepted :
        (m : Sessions) (s : K)
        → s.closed ≡ false
        → Reach []
            (accept_server e config uuid none m s).0
            (accept_server e config uuid none m s).0
            (accept_server e config uuid none m s).2
    completed :
        (events : List Completed) (issued before after : List Started) (op : Started)
        (event : Completed) (fuel : ℕ) (m : Sessions) (s : K) (new : List Started) (m' : Sessions)
        (s' : K)
        → Reach events issued (before ++ (op ∷ after)) s
        → Ends op event
        → Serving.complete e config uuid fuel event m s ≡ some (new, m', s')
        → Reach (events ++ (event ∷ [])) (issued ++ new) (before ++ (after ++ new)) s'
    timed_out :
        (events : List Completed) (issued ops : List Started) (error : Option NetError) (s : K)
        → Reach events issued ops s
        → Reach events issued ops (Connection.on_timeout e config error s)
    elsewhere :
        (events : List Completed) (issued ops : List Started) (s : K) (w : e.World)
        → Reach events issued ops s
        → Reach events issued ops (record s { world = w })

  -- An operation is under way, or the connection is shut down.
  pub record IsAlive (ops : List Started) (s : K) : Type 0 where
    pub shut : IsShut config.general.tls_enable s
    pub goes_on : (nothing ops ≡ false) ⊎ (s.closed ≡ true)

  -- The acceptance, step by step: the connection is not shut down until one of them fails.
  shut_fresh-Lives :
      (m : Sessions) (s : K)
      → s.closed ≡ false
      → Lives e config uuid (Serving.shut e config uuid m s)
  unfolding Connection.socket_shutdown
  shut_fresh-Lives m s h = rw h (
    record { closed_socket = λ _. refl; closed_tls = λ _. ground arith; secured = λ _. refl },
    inr refl,
  )

  start_server-Lives :
      (m : Sessions) (s : K)
      → IsShut config.general.tls_enable s
      → Lives e config uuid (Accepting.start_server e config uuid m s)
  unfolding Accepting.start_server
  start_server-Lives m s v =
      do_read_server-Lives e config uuid m (Accepting.named e config uuid s)
        (record { closed_socket = v.closed_socket; closed_tls = v.closed_tls; secured = v.secured })

  init_tls_server_context-open :
      (s : K)
      → s.closed ≡ false
      → (Accepting.init_tls_server_context e config uuid s).1.closed ≡ false
  unfolding Accepting.init_tls_server_context
  init_tls_server_context-open s h = ground arith

  moved-IsShut :
      (fd : Option ℕ) (s : K)
      → s.closed ≡ false
      → IsShut config.general.tls_enable (Accepting.moved e config uuid fd s)
  moved-IsShut none s h = ground arith
  moved-IsShut (some fd) s h = ground arith

  at_world-IsShut :
      (s : K) (w : e.World)
      → IsShut config.general.tls_enable s
      → IsShut config.general.tls_enable (record s { world = w })
  at_world-IsShut s w v = record {
    closed_socket = v.closed_socket;
    closed_tls = v.closed_tls;
    secured = v.secured;
  }

  after_handshake-IsShut :
      (s : K) (r : Bool × e.World)
      → IsShut config.general.tls_enable s
      → IsShut config.general.tls_enable (Accepting.after_handshake e config uuid s r).1
  after_handshake-IsShut s (true, w) v =
      cancel_timeout-IsShut e config uuid _ (at_world-IsShut s w v)
  after_handshake-IsShut s (false, w) v =
      (socket_shutdown-IsShut e config uuid _
        (cancel_timeout-IsShut e config uuid _ (at_world-IsShut s w v))).0

  handshake_over-IsShut :
      (t : Ssl) (s : K)
      → IsShut config.general.tls_enable s
      → IsShut config.general.tls_enable (Accepting.handshake_over e config uuid t s).1
  handshake_over-IsShut no_stream s v = after_handshake-IsShut s (false, s.world) v
  handshake_over-IsShut closed_stream s v = after_handshake-IsShut s (false, s.world) v
  handshake_over-IsShut (open_stream fd) s v =
      after_handshake-IsShut s (e.handshake_server fd s.world) v

  do_handshake_server-IsShut :
      (s : K)
      → IsShut config.general.tls_enable s
      → IsShut config.general.tls_enable (Accepting.do_handshake_server e config uuid s).1
  unfolding Accepting.do_handshake_server
  do_handshake_server-IsShut s v =
      handshake_over-IsShut s.tls _ (reset_timeout-IsShut e config uuid s v)

  handshaken-Lives :
      (m : Sessions) (r : Bool × K)
      → IsShut config.general.tls_enable r.1
      → Lives e config uuid (Accepting.handshaken e config uuid m r)
  handshaken-Lives m (false, s) v = shut-Lives e config uuid m s v
  handshaken-Lives m (true, s) v = start_server-Lives m s v

  secured-Lives :
      (m : Sessions) (r : Bool × K)
      → r.1.closed ≡ false
      → Lives e config uuid (Accepting.secured e config uuid m r)
  secured-Lives m (false, s) h = shut_fresh-Lives m s h
  secured-Lives m (true, s) h =
      handshaken-Lives m _ (do_handshake_server-IsShut _ (moved-IsShut s.socket s h))

  accept_server-Lives :
      (m : Sessions) (s : K)
      → s.closed ≡ false
      → Lives e config uuid (accept_server e config uuid none m s)
  unfolding accept_server
  accept_server-Lives m s h =
      if_cases (Lives e config uuid) config.general.tls_enable
        (λ on. secured-Lives m _ (init_tls_server_context-open s h))
        (λ off. start_server-Lives m s (record {
          closed_socket = λ k. ground arith;
          closed_tls = λ k. ground arith;
          secured = λ k. ground arith;
        }))

  on_timeout-IsAlive :
      (ops : List Started) (error : Option NetError) (s : K)
      → IsAlive ops s
      → IsAlive ops (Connection.on_timeout e config error s)
  unfolding Connection.on_timeout
  on_timeout-IsAlive ops (some error) s a = a
  on_timeout-IsAlive ops none s a = if_split (IsAlive ops) (s.connect_flag || s.closed) a (
      let (v, closed) = socket_shutdown-IsShut e config uuid s a.shut in
      record { shut = v; goes_on = inr closed })

  completed-IsAlive :
      (before after : List Started) (o : Option (Serving.Next e config uuid)) (new : List Started)
      (m : Sessions) (s : K)
      → LivesIfDone e config uuid o
      → o ≡ some (new, m, s)
      → IsAlive (before ++ (after ++ new)) s
  completed-IsAlive before after o new m s l h =
      let v : Lives e config uuid (new, m, s) = subst (LivesIfDone e config uuid) h l in
      record {
        shut = v.0;
        goes_on = elim v.1 [
          | inl going ↦ inl (nothing-append before after new going)
          | inr closed ↦ inr closed
        ];
      }

  -- In every state that a connection at the server can reach from its acceptance, by the callbacks
  -- of its operations and its timer in any order, and whatever the other connections do in between,
  -- an operation is under way or the connection is shut down; a connection that is shut down has no
  -- open socket of its own, and where the settings enable TLS its plain socket is never open.
  pub Reach-IsAlive :
      {events : List Completed} {issued ops : List Started} {s : K}
      → Reach events issued ops s
      → IsAlive ops s
  Reach-IsAlive (accepted m s h) =
      let v = accept_server-Lives m s h in record { shut = v.0; goes_on = v.1 }
  Reach-IsAlive (completed events issued before after op event fuel m s new m' s' r ends h) =
      completed-IsAlive before after (Serving.complete e config uuid fuel event m s) new m' s'
        (complete-Lives e config uuid fuel event m s (Reach-IsAlive r).shut) h
  Reach-IsAlive (timed_out events issued ops error s r) =
      on_timeout-IsAlive ops error s (Reach-IsAlive r)
  Reach-IsAlive (elsewhere events issued ops s w r) =
      let a = Reach-IsAlive r in record { shut = at_world-IsShut s w a.shut; goes_on = a.goes_on }
