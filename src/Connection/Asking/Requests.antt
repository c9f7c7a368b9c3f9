-- ===== src/Connection/Asking/Requests.antt =====
-- The read of a request at the agent, from its end to the answer's write.
use nipovpn.Base.{
  ℕ, refl, Bool, true, false, ◌&&◌, inl, Option, none, some, [], ◌∷◌, Bytes, is_empty, if_split,
  length, ltb,
}
use nipovpn.Text.{find, is_some}
use nipovpn.HttpUtils.{header_end, extract_headers, extract_body}
use nipovpn.Env.{Env, NetError, Outcome, returned, threw}
use nipovpn.Config.{Config}
use nipovpn.Agent.{AgentHandler}
use nipovpn.Connection.{Connection}
use nipovpn.Connection.Socks.{Part, goes_on, refuses, throws}
use nipovpn.Connection.Asking
use nipovpn.Connection.Asking.Sound.{
  IsSound, IsSoundPart, handle_socks5_handshake-IsSoundPart, reset_timeout-IsSound,
  cancel_timeout-IsSound,
}
use nipovpn.Connection.Asking.{
  Started, request_read, answer_write, tunnel_read, poll_wait, client_read, server_read,
  client_write, server_write, Completed, request_arrived, answer_written, client_sent, server_sent,
  client_written, server_written, tunnel_sent, poll_due, poll_written,
}
use nipovpn.Connection.Asking.Lives.{LivesIfDone, quiet-Lives, shut-Lives}
use nipovpn.Connection.Asking.Lives

module _ (e : Env) (config : Config) (uuid : Bytes) {p : Bool} where
  answer-Lives :
      (s : Connection e.World)
      → IsSound p s
      → Lives.Lives e config uuid p (Asking.answer e config uuid s)
  answer-Lives s v =
      if_split (Lives.Lives e config uuid p) (is_empty s.write_buffer)
        (shut-Lives e config uuid s v)
        (quiet-Lives e config uuid (answer_write ∷ []) _ (reset_timeout-IsSound e config uuid s v)
          refl (inl refl))

  handled-Lives :
      (s : Connection e.World) (o : Option (Outcome (AgentHandler e.World)))
      → IsSound p s
      → LivesIfDone e config uuid p (Asking.handled e config uuid s o)
  handled-Lives s none v = tt
  handled-Lives s (some (threw h)) v =
      shut-Lives e config uuid (Asking.back_from e config uuid h s) v
  handled-Lives s (some (returned h)) v = answer-Lives _ (
      if_split {A = Connection e.World} (IsSound p)
        (Asking.is_socks5 e config uuid && h.connect_flag) v v)

  named-Lives :
      (fuel fd : ℕ) (s : Connection e.World)
      → IsSound p s
      → LivesIfDone e config uuid p (Asking.named e config uuid fuel fd s)
  named-Lives fuel fd s v = peer_named-Lives (e.has_peer fd s.world)
    where
      peer_named-Lives :
          (r : Bool × e.World)
          → LivesIfDone e config uuid p (Asking.peer_named e config uuid fuel s r)
      peer_named-Lives (false, w) = shut-Lives e config uuid (record s { world = w }) v
      peer_named-Lives (true, w) = handled-Lives s _ v

  body_read-Lives :
      (fuel fd : ℕ) (s : Connection e.World) (r : (Bytes × Option NetError) × e.World)
      → IsSound p s
      → LivesIfDone e config uuid p (Asking.body_read e config uuid fuel fd s r)
  body_read-Lives fuel fd s ((bytes, error), w) v =
      if_split (LivesIfDone e config uuid p) (Asking.is_fatal e config uuid error)
        (shut-Lives e config uuid _ v) (named-Lives fuel fd _ v)

  announced-Lives :
      (fuel fd : ℕ) (s : Connection e.World) (size : Option ℕ)
      → IsSound p s
      → LivesIfDone e config uuid p (Asking.announced e config uuid fuel fd s size)
  announced-Lives fuel fd s none v = named-Lives fuel fd s v
  announced-Lives fuel fd s (some size) v =
      if_split (LivesIfDone e config uuid p) (ltb (length (extract_body s.read_buffer)) size)
        (body_read-Lives fuel fd s _ v) (named-Lives fuel fd s v)

  with_headers-Lives :
      (fuel fd : ℕ) (s : Connection e.World)
      → IsSound p s
      → LivesIfDone e config uuid p (Asking.with_headers e config uuid fuel fd s)
  with_headers-Lives fuel fd s v =
      if_split (LivesIfDone e config uuid p)
        (Asking.is_connect e config uuid (extract_headers s.read_buffer)) (named-Lives fuel fd s v)
        (announced-Lives fuel fd s _ v)

  headers_read-Lives :
      (fuel fd : ℕ) (s : Connection e.World) (r : (Bytes × Option NetError) × e.World)
      → IsSound p s
      → LivesIfDone e config uuid p (Asking.headers_read e config uuid fuel fd s r)
  headers_read-Lives fuel fd s ((text, error), w) v =
      if_split (LivesIfDone e config uuid p) (Asking.is_fatal e config uuid error)
        (shut-Lives e config uuid _ v) (with_headers-Lives fuel fd _ v)

  request_from-Lives :
      (fuel : ℕ) (s : Connection e.World) (socket : Option ℕ)
      → IsSound p s
      → LivesIfDone e config uuid p (Asking.request_from e config uuid fuel s socket)
  request_from-Lives fuel s none v = shut-Lives e config uuid s v
  request_from-Lives fuel s (some fd) v =
      if_split (LivesIfDone e config uuid p) (is_some (find header_end s.read_buffer))
        (with_headers-Lives fuel fd s v) (headers_read-Lives fuel fd s _ v)

  arrived-Lives :
      (fuel : ℕ) (s : Connection e.World)
      → IsSound p s
      → LivesIfDone e config uuid p (Asking.arrived e config uuid fuel s)
  arrived-Lives fuel s v =
      if_split (LivesIfDone e config uuid p) (Asking.is_socks5 e config uuid)
        (shaken-Lives _ (handle_socks5_handshake-IsSoundPart e s v))
        (request_from-Lives fuel s s.socket v)
    where
      shaken-Lives :
          (q : Part (Connection e.World) Unit)
          → IsSoundPart p q
          → LivesIfDone e config uuid p (Asking.shaken e config uuid fuel q)
      shaken-Lives (goes_on _ s) v = request_from-Lives fuel s s.socket v
      shaken-Lives (refuses s) v = shut-Lives e config uuid s v
      shaken-Lives (throws s) v = shut-Lives e config uuid s v

  pub handle_read_agent-Lives :
      (fuel : ℕ) (error : Option NetError) (s : Connection e.World)
      → IsSound p s
      → LivesIfDone e config uuid p (Asking.handle_read_agent e config uuid fuel error s)
  unfolding Asking.handle_read_agent
  handle_read_agent-Lives fuel (some error) s v =
      shut-Lives e config uuid _ (cancel_timeout-IsSound e config uuid s v)
  handle_read_agent-Lives fuel none s v =
      arrived-Lives fuel _ (cancel_timeout-IsSound e config uuid s v)
