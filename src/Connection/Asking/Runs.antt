-- ===== src/Connection/Asking/Runs.antt =====
-- A connection at the agent from its acceptance on, over the callbacks of its operations in any order.
-- A callback that throws starts nothing, and the event loop goes on.
use nipovpn.Base.{
  nothing, nothing-append, ℕ, ◌+◌, ◌≡◌, refl, sym, ap, ◌∙◌, subst, Bool, true, false, not, ◌||◌,
  ◌⊎◌, inl, inr, Option, none, some, List, [], ◌∷◌, ◌++◌, Bytes, if_split, arith, Bool-cases,
}
use nipovpn.Env.{Env, NetError, returned, threw}
use nipovpn.Config.{Config}
use nipovpn.Client.Defs.{socket_open}
use nipovpn.Connection
use nipovpn.Connection.{Connection}
use nipovpn.Connection.Accepting
use nipovpn.Connection.Accepting.{accept_agent}
use nipovpn.Connection.Asking
use nipovpn.Connection.Asking.{
  Started, request_read, answer_write, client_read, server_write, server_read, client_write,
  tunnel_read, poll_wait, poll_write, Completed, request_arrived, answer_written, client_sent,
  server_sent, client_written, server_written, tunnel_sent, poll_due, poll_written,
}
use nipovpn.Connection.Asking.Sound.{IsSound, socket_shutdown-IsSound}
use nipovpn.Connection.Asking.Waits.{flag, wait, waits, waits-append, waits-split, nothing-waits}
use nipovpn.Connection.Asking.Lives.{
  is_cancelled, Rests, Lives, LivesIfReturned, quiet-Lives, do_read_agent-Lives,
}
use nipovpn.Connection.Asking.Callbacks.{kept, complete-LivesIfReturned}

-- The end of an operation.
pub data Ends : Started → Completed → Type 0 where
  request :
      {bytes : Bytes} {error : Option NetError} → Ends request_read (request_arrived bytes error)
  answer : {error : Option NetError} → Ends answer_write (answer_written error)
  from_client :
      {bytes : Bytes} {error : Option NetError} → Ends client_read (client_sent bytes error)
  from_server :
      {bytes : Bytes} {error : Option NetError} → Ends server_read (server_sent bytes error)
  to_client :
      {bytes : Bytes} {error : Option NetError} → Ends (client_write bytes) (client_written error)
  to_server :
      {bytes : Bytes} {error : Option NetError} → Ends (server_write bytes) (server_written error)
  tunnelled : {bytes : Bytes} {error : Option NetError} → Ends tunnel_read (tunnel_sent bytes error)
  waited : {error : Option NetError} → Ends poll_wait (poll_due error)
  poll_sent : {error : Option NetError} → Ends poll_write (poll_written error)

module _ (e : Env) (config : Config) (uuid : Bytes) where
  abbrev K : Type 0
  K = Connection e.World

  -- Whether a callback has thrown, the operations that are under way, and the connection. The wait
  -- between two polls is cancelled by `socketShutdown`, which sets `closed_`, and by
  -- `closeTunnelSession`, which sets `tunnelClosed_`, also where that throws afterwards.
  pub data Reach : Bool → List Started → K → Type 0 where
    accepted :
        (s : K)
        → IsSound false s
        → Reach false (accept_agent e config uuid none s).0 (accept_agent e config uuid none s).1
    completed :
        (thrown : Bool) (before after : List Started) (op : Started) (event : Completed) (fuel : ℕ)
        (s : K) (new : List Started) (s' : K)
        → Reach thrown (before ++ (op ∷ after)) s
        → Ends op event
        → (is_cancelled event ≡ true → (s.closed || s.tunnel_closed) ≡ true)
        → Asking.complete e config uuid fuel event s ≡ some (returned (new, s'))
        → Reach thrown (before ++ (after ++ new)) s'
    threw_out :
        (thrown : Bool) (before after : List Started) (op : Started) (event : Completed) (fuel : ℕ)
        (s : K) (new : List Started) (s' : K)
        → Reach thrown (before ++ (op ∷ after)) s
        → Ends op event
        → (is_cancelled event ≡ true → (s.closed || s.tunnel_closed) ≡ true)
        → Asking.complete e config uuid fuel event s ≡ some (threw (new, s'))
        → Reach true (before ++ after) s'
    timed_out :
        (thrown : Bool) (ops : List Started) (error : Option NetError) (s : K)
        → Reach thrown ops s
        → Reach thrown ops (Connection.on_timeout e config error s)
    elsewhere :
        (thrown : Bool) (ops : List Started) (s : K) (w : e.World)
        → Reach thrown ops s
        → Reach thrown ops (record s { world = w })

  -- The socket is open until the connection is shut down; the flag of the poll is set exactly while
  -- one wait for the next poll is under way; and unless a callback has thrown, an operation is
  -- under way, or the connection is shut down, or its tunnel is over.
  pub record GoesOn (thrown : Bool) (ops : List Started) (s : K) : Type 0 where
    pub sound : socket_open s.socket ≡ not s.closed
    pub polls : flag s.poll_in_progress ≡ waits ops
    pub goes_on : thrown ≡ false → (nothing ops ≡ false) ⊎ ((s.closed || s.tunnel_closed) ≡ true)

  -- The cancelled wait starts nothing, and resets the flag.
  cancelled-Lives :
      (fuel : ℕ) (event : Completed) (s : K)
      → socket_open s.socket ≡ not s.closed
      → is_cancelled event ≡ true
      → (s.closed || s.tunnel_closed) ≡ true
      → LivesIfReturned e config uuid
          (kept e config uuid event s.poll_in_progress)
          (Asking.complete e config uuid fuel event s)
  unfolding Asking.complete
  cancelled-Lives fuel (poll_due (some error)) s v h over =
      quiet-Lives e config uuid [] _ (v, refl) refl (inr (record { rests = ground arith }))
  cancelled-Lives fuel (poll_due none) s v h over = cc
  cancelled-Lives fuel (request_arrived bytes error) s v h over = cc
  cancelled-Lives fuel (answer_written error) s v h over = cc
  cancelled-Lives fuel (client_sent bytes error) s v h over = cc
  cancelled-Lives fuel (server_sent bytes error) s v h over = cc
  cancelled-Lives fuel (client_written error) s v h over = cc
  cancelled-Lives fuel (server_written error) s v h over = cc
  cancelled-Lives fuel (tunnel_sent bytes error) s v h over = cc
  cancelled-Lives fuel (poll_written error) s v h over = cc

  any-Lives :
      (fuel : ℕ) (event : Completed) (s : K)
      → socket_open s.socket ≡ not s.closed
      → (is_cancelled event ≡ true → (s.closed || s.tunnel_closed) ≡ true)
      → LivesIfReturned e config uuid
          (kept e config uuid event s.poll_in_progress)
          (Asking.complete e config uuid fuel event s)
  any-Lives fuel event s v c = elim (Bool-cases (is_cancelled event)) [
    | inl cancelled ↦ cancelled-Lives fuel event s v cancelled (c cancelled)
    | inr ended ↦ complete-LivesIfReturned e config uuid fuel event s v ended
  ]

  -- The waits that are left when an operation has ended.
  waits-ended :
      (op : Started) (event : Completed) (p : Bool) (a b : ℕ)
      → Ends op event
      → flag p ≡ a + (wait op + b)
      → flag (kept e config uuid event p) ≡ a + b
  waits-ended _ _ p a b request h = omega (arith, h)
  waits-ended _ _ p a b answer h = omega (arith, h)
  waits-ended _ _ p a b from_client h = omega (arith, h)
  waits-ended _ _ p a b from_server h = omega (arith, h)
  waits-ended _ _ p a b to_client h = omega (arith, h)
  waits-ended _ _ p a b to_server h = omega (arith, h)
  waits-ended _ _ p a b tunnelled h = omega (arith, h)
  waits-ended _ _ false a b waited h = omega (arith, h)
  waits-ended _ _ true a b waited h = omega (arith, h)
  waits-ended _ _ p a b poll_sent h = omega (arith, h)

  waits-left :
      (before after : List Started) (op : Started) (event : Completed) (p : Bool)
      → Ends op event
      → flag p ≡ waits (before ++ (op ∷ after))
      → flag (kept e config uuid event p) ≡ waits before + waits after
  waits-left before after op event p ends h =
      waits-ended op event p (waits before) (waits after) ends
        (h ∙ waits-append before (op ∷ after))

  Rests-GoesOn :
      (ops : List Started) (s : K)
      → flag s.poll_in_progress ≡ waits ops
      → Rests e config uuid s
      → (nothing ops ≡ false) ⊎ ((s.closed || s.tunnel_closed) ≡ true)
  Rests-GoesOn ops s h r = elim (Bool-cases s.poll_in_progress) [
    | inl waiting ↦ inl (nothing-waits ops (sym h ∙ ap flag waiting))
    | inr free ↦ inr (ground (arith, r.rests))
  ]

  completed-GoesOn :
      (thrown : Bool) (before after new : List Started) (p : Bool) (s : K)
      → flag p ≡ waits before + waits after
      → Lives e config uuid p (new, s)
      → GoesOn thrown (before ++ (after ++ new)) s
  completed-GoesOn thrown before after new p s h v =
      let polls : flag s.poll_in_progress ≡ waits (before ++ (after ++ new)) =
        v.1 ∙ rw (waits-split before after new) (omega (arith, h)) in
      record {
        sound = v.0;
        polls = polls;
        goes_on = λ _. elim v.2 [
          | inl going ↦ inl (nothing-append before after new going)
          | inr rests ↦ Rests-GoesOn (before ++ (after ++ new)) s polls rests
        ];
      }

  threw-GoesOn :
      (before after : List Started) (p : Bool) (s : K)
      → flag p ≡ waits before + waits after
      → IsSound p s
      → GoesOn true (before ++ after) s
  threw-GoesOn before after p s h v = record {
    sound = v.0;
    polls = ap flag v.1 ∙ (h ∙ sym (waits-append before after));
    goes_on = λ absent. ground arith;
  }

  on_timeout-GoesOn :
      (thrown : Bool) (ops : List Started) (error : Option NetError) (s : K)
      → GoesOn thrown ops s
      → GoesOn thrown ops (Connection.on_timeout e config error s)
  unfolding Connection.on_timeout
  on_timeout-GoesOn thrown ops (some error) s a = a
  on_timeout-GoesOn thrown ops none s a =
      if_split (GoesOn thrown ops) (s.connect_flag || s.closed) a (
        let (v, closed) = socket_shutdown-IsSound e config uuid s (a.sound, refl) in
        record { sound = v.0; polls = ap flag v.1 ∙ a.polls; goes_on = λ _. inr (rw closed refl) })

  -- In every state that a connection at the agent can reach from its acceptance, by the callbacks
  -- of its operations and its timer in any order, the socket is open exactly until the connection
  -- is shut down; the flag `pollInProgress_` is set exactly while one wait for the next poll is
  -- under way, and there is never a second; and unless a callback has thrown, an operation is under
  -- way, or the connection is shut down, or its tunnel is over. A wait for the next poll ends with
  -- an error only if it was cancelled, by the shutdown or by the end of the tunnel, and then one of
  -- their flags is set.
  pub Reach-GoesOn :
      {thrown : Bool} {ops : List Started} {s : K} → Reach thrown ops s → GoesOn thrown ops s
  unfolding accept_agent
  Reach-GoesOn (accepted s v) =
      let l = do_read_agent-Lives e config uuid (Accepting.named e config uuid s) v in
      record { sound = l.0; polls = l.1; goes_on = λ _. inl refl }
  Reach-GoesOn (completed thrown before after op event fuel s new s' r ends c h) =
      let a = Reach-GoesOn r in
      completed-GoesOn thrown before after new (kept e config uuid event s.poll_in_progress) s'
        (waits-left before after op event s.poll_in_progress ends a.polls)
        (subst (LivesIfReturned e config uuid (kept e config uuid event s.poll_in_progress)) h
          (any-Lives fuel event s a.sound c))
  Reach-GoesOn (threw_out thrown before after op event fuel s new s' r ends c h) =
      let a = Reach-GoesOn r in
      threw-GoesOn before after (kept e config uuid event s.poll_in_progress) s'
        (waits-left before after op event s.poll_in_progress ends a.polls)
        (subst (LivesIfReturned e config uuid (kept e config uuid event s.poll_in_progress)) h
          (any-Lives fuel event s a.sound c))
  Reach-GoesOn (timed_out thrown ops error s r) =
      on_timeout-GoesOn thrown ops error s (Reach-GoesOn r)
  Reach-GoesOn (elsewhere thrown ops s w r) =
      let a = Reach-GoesOn r in record { sound = a.sound; polls = a.polls; goes_on = a.goes_on }
