-- ===== src/Connection/Asking/Callbacks.antt =====
-- Every callback of a connection at the agent, the exchanges of its tunnel included.
use nipovpn.Base.{
  ℕ, ◌≡◌, Bool, refl, false, not, ◌||◌, inl, inr, Option, none, some, [], ◌∷◌, Bytes, codes,
  if_cases, arith,
}
use nipovpn.Env.{Env, NetError, Except, ok, throw, Outcome, returned, threw}
use nipovpn.Config.{Config}
use nipovpn.Client.Defs.{socket_open}
use nipovpn.Connection.{Connection}
use nipovpn.Connection.Asking
use nipovpn.Connection.Asking.{
  Completed, request_arrived, answer_written, client_sent, server_sent, client_read, server_read,
  poll_write, server_write, client_write, client_written, server_written, tunnel_sent, poll_due,
  poll_written,
}
use nipovpn.Connection.Asking.Sound.{
  IsSound, IsSoundIfDone, IsSoundAfter, cancel_timeout-IsSound, post_tunnel_action-IsSound,
  close_tunnel_session-IsSound,
}
use nipovpn.Connection.Asking.Lives.{
  is_cancelled, LivesIfReturned, shut-Lives, quiet-Lives, start_tunnel_read-Lives,
  start_tunnel_poll-Lives, after_answer-Lives, after_relay_read-Lives, after_relay_write-Lives,
  guarded-Lives,
}
use nipovpn.Connection.Asking.Requests.{handle_read_agent-Lives}

module _ (e : Env) (config : Config) (uuid : Bytes) where
  shut_tunnel-Lives :
      (p : Bool) (o : Option (Outcome (Connection e.World)))
      → IsSoundAfter p o
      → LivesIfReturned e config uuid p (Asking.shut_tunnel e config uuid o)
  shut_tunnel-Lives p none v = tt
  shut_tunnel-Lives p (some (threw s)) v = v
  shut_tunnel-Lives p (some (returned s)) v = shut-Lives e config uuid s v

  close_tunnel-Lives :
      (p : Bool) (fuel : ℕ) (s : Connection e.World)
      → IsSound p s
      → LivesIfReturned e config uuid p (Asking.close_tunnel e config uuid fuel s)
  close_tunnel-Lives p fuel s v =
      shut_tunnel-Lives p _ (close_tunnel_session-IsSound e config uuid fuel s v)

  after_send-Lives :
      (p : Bool) (r : Option (Except Bytes × Connection e.World))
      → IsSoundIfDone p r
      → LivesIfReturned e config uuid p (Asking.after_send e config uuid r)
  after_send-Lives p none v = tt
  after_send-Lives p (some (throw, s)) v = v
  after_send-Lives p (some (ok text, s)) v = start_tunnel_read-Lives e config uuid s v

  after_tunnel_read-Lives :
      (p : Bool) (fuel : ℕ) (bytes : Bytes) (error : Option NetError) (s : Connection e.World)
      → IsSound p s
      → LivesIfReturned e config uuid p (Asking.after_tunnel_read e config uuid fuel bytes error s)
  after_tunnel_read-Lives p fuel bytes (some error) s v = close_tunnel-Lives p fuel s v
  after_tunnel_read-Lives p fuel [] none s v = close_tunnel-Lives p fuel s v
  after_tunnel_read-Lives p fuel (b ∷ bytes) none s v =
      after_send-Lives p _ (post_tunnel_action-IsSound e config uuid fuel (codes "send") _ s v)

  polled-Lives :
      (p : Bool) (r : Option (Except Bytes × Connection e.World))
      → IsSoundIfDone p r
      → LivesIfReturned e config uuid p (Asking.polled e config uuid r)
  polled-Lives p none v = tt
  polled-Lives p (some (throw, s)) v = v
  polled-Lives p (some (ok [], s)) v = start_tunnel_poll-Lives e config uuid s v
  polled-Lives p (some (ok (b ∷ bytes), s)) v =
      quiet-Lives e config uuid (poll_write ∷ []) _ v refl (inl refl)

  after_poll_wait-Lives :
      (p : Bool) (fuel : ℕ) (s : Connection e.World)
      → IsSound p s
      → LivesIfReturned e config uuid p (Asking.after_poll_wait e config uuid fuel none s)
  after_poll_wait-Lives p fuel s v =
      if_cases (LivesIfReturned e config uuid p) (s.tunnel_closed || not (socket_open s.socket))
        (λ over. quiet-Lives e config uuid [] _ v refl (inr (record { rests = ground arith })))
        (λ going.
          polled-Lives p _ (post_tunnel_action-IsSound e config uuid fuel (codes "recv") [] s v))

  after_poll_write-Lives :
      (p : Bool) (fuel : ℕ) (error : Option NetError) (s : Connection e.World)
      → IsSound p s
      → LivesIfReturned e config uuid p (Asking.after_poll_write e config uuid fuel error s)
  after_poll_write-Lives p fuel (some error) s v = close_tunnel-Lives p fuel s v
  after_poll_write-Lives p fuel none s v = start_tunnel_poll-Lives e config uuid s v

  -- The flag of the poll as a callback finds it: that of the wait is reset at its start.
  abbrev pub kept : Completed → Bool → Bool
  kept (poll_due _) p = false
  kept _ p = p

  -- The end of an operation that is no cancelled wait starts another, or leaves a connection that
  -- rests, and sets the flag of the poll exactly with a wait. Where the callback throws, the flag
  -- stays as the callback found it.
  pub complete-LivesIfReturned :
      (fuel : ℕ) (event : Completed) (s : Connection e.World)
      → socket_open s.socket ≡ not s.closed
      → is_cancelled event ≡ false
      → LivesIfReturned e config uuid
          (kept event s.poll_in_progress)
          (Asking.complete e config uuid fuel event s)
  unfolding Asking.complete
  complete-LivesIfReturned fuel (request_arrived buffer error) s v h =
      guarded-Lives e config uuid _ _ (handle_read_agent-Lives e config uuid fuel error _ (v, refl))
  complete-LivesIfReturned fuel (answer_written error) s v h =
      after_answer-Lives e config uuid error _ (cancel_timeout-IsSound e config uuid s (v, refl))
  complete-LivesIfReturned fuel (client_sent bytes error) s v h =
      after_relay_read-Lives e config uuid server_write bytes error s (λ b. refl) (v, refl)
  complete-LivesIfReturned fuel (server_sent bytes error) s v h =
      after_relay_read-Lives e config uuid client_write bytes error s (λ b. refl) (v, refl)
  complete-LivesIfReturned fuel (server_written error) s v h =
      after_relay_write-Lives e config uuid client_read error s refl (v, refl)
  complete-LivesIfReturned fuel (client_written error) s v h =
      after_relay_write-Lives e config uuid server_read error s refl (v, refl)
  complete-LivesIfReturned fuel (tunnel_sent bytes error) s v h =
      after_tunnel_read-Lives _ fuel bytes error s (v, refl)
  complete-LivesIfReturned fuel (poll_due none) s v h = after_poll_wait-Lives _ fuel _ (v, refl)
  complete-LivesIfReturned fuel (poll_due (some error)) s v h = cc
  complete-LivesIfReturned fuel (poll_written error) s v h =
      after_poll_write-Lives _ fuel error s (v, refl)
