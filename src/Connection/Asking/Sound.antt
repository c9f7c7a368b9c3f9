-- ===== src/Connection/Asking/Sound.antt =====
-- The calls that a callback makes leave the socket and the closed flag of its connection in step, and do
-- not touch the flag of the poll.
use nipovpn.Base.{
  ℕ, ◌-◌, ◌≡◌, Bool, true, false, not, ◌&&◌, ◌||◌, Option, none, some, [], ◌∷◌, Bytes, codes,
  is_empty, if_split, length, take, drop, arith, ◌==◌,
}
use nipovpn.Env.{
  Env, NetError, Except, ok, throw, Outcome, returned, threw, tcp, Written, sent, stopped,
}
use nipovpn.Config.{Config}
use nipovpn.Client.Defs.{socket_open}
use nipovpn.Connection
use nipovpn.Connection.{Connection}
use nipovpn.Connection.Socks
use nipovpn.Connection.Socks.{
  Part, Talk, goes_on, refuses, throws, followed, ◌>>=◌, read_exact_from_client, write_reply,
  read_host, handle_socks5_handshake,
}
use nipovpn.Connection.Tunnel

-- The socket is open until the connection is shut down, and the flag of the poll is as it was.
abbrev pub IsSound : {W : Type 0} → Bool → Connection W → Type 0
IsSound p s = (socket_open s.socket ≡ not s.closed) × (s.poll_in_progress ≡ p)

abbrev pub IsSoundPart : {W A : Type 0} → Bool → Part (Connection W) A → Type 0
IsSoundPart p (goes_on a s) = IsSound p s
IsSoundPart p (refuses s) = IsSound p s
IsSoundPart p (throws s) = IsSound p s

-- A part of the handshake that keeps the connection sound.
abbrev Keeps : {W A : Type 0} → Bool → Talk (Connection W) A → Type 0
Keeps {W = W} p m = (s : Connection W) → IsSound p s → IsSoundPart p (m s)

followed-Keeps :
    {W A B : Type 0} {p : Bool} (q : Part (Connection W) A) (k : A → Talk (Connection W) B)
    → IsSoundPart p q
    → ((a : A) → Keeps p (k a))
    → IsSoundPart p (followed q k)
followed-Keeps (goes_on a s) k h g = g a s h
followed-Keeps (refuses s) k h g = h
followed-Keeps (throws s) k h g = h

module _ (e : Env) {p : Bool} where
  read_exact-Keeps : (n : ℕ) → Keeps p (read_exact_from_client e n)
  unfolding read_exact_from_client
  read_exact-Keeps n s v = if_split (IsSoundPart p) (length (take n s.read_buffer) == n) v (
      rest (n - length (take n s.read_buffer)) (take n s.read_buffer) s.socket
        (record s { read_buffer = drop n s.read_buffer }) v)
    where
      after :
          (copied : Bytes) (s : Connection e.World) (r : (Bytes × Option NetError) × e.World)
          → IsSound p s
          → IsSoundPart p (Socks.after_read e copied s r)
      after copied s ((bytes, none), w) v = v
      after copied s ((bytes, some error), w) v = v

      rest :
          (n : ℕ) (copied : Bytes) (socket : Option ℕ) (s : Connection e.World)
          → IsSound p s
          → IsSoundPart p (Socks.read_rest e n copied s socket)
      rest n copied none s v = v
      rest n copied (some fd) s v = after copied s (e.read_exact (tcp fd) n s.world) v

  write_reply-Keeps : (bytes : Bytes) → Keeps p (write_reply e bytes)
  unfolding write_reply
  write_reply-Keeps bytes s v = on s.socket s v
    where
      after :
          (s : Connection e.World) (r : Written × e.World)
          → IsSound p s
          → IsSoundPart p (Socks.after_write e s r)
      after s (sent, w) v = v
      after s (stopped n, w) v = v

      on :
          (socket : Option ℕ) (s : Connection e.World)
          → IsSound p s
          → IsSoundPart p (Socks.write_on e bytes s socket)
      on none s v = v
      on (some fd) s v = after s (e.write (tcp fd) bytes s.world) v

  read_host-Keeps : (kind : ℕ) → Keeps p (read_host e kind)
  unfolding read_host
  read_host-Keeps kind s v =
      if_split (λ (m : Talk (Connection e.World) Bytes). IsSoundPart p (m s)) (kind == 1)
        (followed-Keeps _ _ (read_exact-Keeps 4 s v) (λ ip t u. u))
        (if_split (λ (m : Talk (Connection e.World) Bytes). IsSoundPart p (m s)) (kind == 3)
          (followed-Keeps _ _ (read_exact-Keeps 1 s v)
            (λ size. read_exact-Keeps (Socks.byte_at 0 size)))
          (if_split (λ (m : Talk (Connection e.World) Bytes). IsSoundPart p (m s)) (kind == 4)
            (followed-Keeps _ _ (read_exact-Keeps 16 s v) (λ ip t u. u)) v))

  require-Keeps : (b : Bool) → Keeps p (Socks.require e b)
  require-Keeps true s v = v
  require-Keeps false s v = v

  require_connect-Keeps : (req : Bytes) → Keeps p (Socks.require_connect e req)
  require_connect-Keeps req s v =
      if_split (λ (m : Talk (Connection e.World) Unit). IsSoundPart p (m s))
        (not (Socks.byte_at 0 req == 5) || not (Socks.byte_at 1 req == 1))
        (followed-Keeps _ _ (write_reply-Keeps _ s v) (λ _ t u. u)) v

  read_request-Keeps : Keeps p (Socks.read_request e)
  read_request-Keeps s v = followed-Keeps _ _ (read_exact-Keeps 4 s v) (λ req t u.
      followed-Keeps _ _ (require_connect-Keeps req t u) (λ _ t u.
        followed-Keeps _ _ (read_host-Keeps (Socks.byte_at 3 req) t u)
          (λ host t u. followed-Keeps _ _ (read_exact-Keeps 2 t u) (λ port t u. u))))

  pub handle_socks5_handshake-IsSoundPart :
      (s : Connection e.World) → IsSound p s → IsSoundPart p (handle_socks5_handshake e s)
  unfolding handle_socks5_handshake
  handle_socks5_handshake-IsSoundPart s v =
      followed-Keeps _ _ (read_exact-Keeps 2 s v) (λ header t u.
        followed-Keeps _ _ (require-Keeps (Socks.byte_at 0 header == 5) t u) (λ _ t u.
          followed-Keeps _ _ (read_exact-Keeps (Socks.byte_at 1 header) t u) (λ methods t u.
            followed-Keeps _ _ (write_reply-Keeps (5 ∷ 0 ∷ []) t u)
              (λ _ t u. read_request-Keeps t u))))

abbrev pub IsSoundIfDone : {W : Type 0} → Bool → Option (Except Bytes × Connection W) → Type 0
IsSoundIfDone p none = Unit
IsSoundIfDone p (some (_, s)) = IsSound p s

abbrev pub IsSoundAfter : {W : Type 0} → Bool → Option (Outcome (Connection W)) → Type 0
IsSoundAfter p none = Unit
IsSoundAfter p (some (threw s)) = IsSound p s
IsSoundAfter p (some (returned s)) = IsSound p s

module _ (e : Env) (config : Config) (uuid : Bytes) where
  closed_with-IsSound :
      (p : Bool) (r : Option (Except Bytes × Connection e.World))
      → IsSoundIfDone p r
      → IsSoundAfter p (Tunnel.closed_with e config uuid r)
  closed_with-IsSound p none v = tt
  closed_with-IsSound p (some (throw, s)) v = v
  closed_with-IsSound p (some (ok text, s)) v = v

module _ (e : Env) (config : Config) (uuid : Bytes) {p : Bool} where
  pub socket_shutdown-IsSound :
      (s : Connection e.World)
      → IsSound p s
      → IsSound p (Connection.socket_shutdown e config s)
        × ((Connection.socket_shutdown e config s).closed ≡ true)
  unfolding Connection.socket_shutdown
  socket_shutdown-IsSound s v = ground arith

  pub reset_timeout-IsSound :
      (s : Connection e.World) → IsSound p s → IsSound p (Connection.reset_timeout e config s)
  unfolding Connection.reset_timeout
  reset_timeout-IsSound s v = ground arith

  pub cancel_timeout-IsSound :
      (s : Connection e.World) → IsSound p s → IsSound p (Connection.cancel_timeout e config s)
  unfolding Connection.cancel_timeout
  cancel_timeout-IsSound s v = ground arith

  decrypted-IsSound :
      (s : Connection e.World) (r : Except (Option Bytes) × e.World)
      → IsSound p s
      → IsSoundIfDone p (some (Tunnel.decrypted e config uuid s r))
  decrypted-IsSound s (throw, w) v = v
  decrypted-IsSound s (ok none, w) v = v
  decrypted-IsSound s (ok (some text), w) v = v

  responded-IsSound :
      (s : Connection e.World) (r : Tunnel.Response e config uuid)
      → IsSound p s
      → IsSoundIfDone p (Tunnel.responded e config uuid s r)
  responded-IsSound s none v = tt
  responded-IsSound s (some (response, c, w)) v = decrypted-IsSound (record s { client = c }) _ v

  retried-IsSound :
      (fuel : ℕ) (action raw : Bytes) (s : Connection e.World) (r : Tunnel.Response e config uuid)
      → IsSound p s
      → IsSoundIfDone p (Tunnel.retried e config uuid fuel action raw s r)
  retried-IsSound fuel action raw s none v = tt
  retried-IsSound fuel action raw s (some (response, c, w)) v =
      if_split (IsSoundIfDone p) (is_empty response && Tunnel.keeps_alive e config uuid action)
        (responded-IsSound s _ v) (responded-IsSound s (some (response, c, w)) v)

  pub post_tunnel_action-IsSound :
      (fuel : ℕ) (action raw : Bytes) (s : Connection e.World)
      → IsSound p s
      → IsSoundIfDone p (Tunnel.post_tunnel_action e config uuid fuel action raw s)
  unfolding Tunnel.post_tunnel_action
  post_tunnel_action-IsSound fuel action raw s v = retried-IsSound fuel action raw s _ v

  pub close_tunnel_session-IsSound :
      (fuel : ℕ) (s : Connection e.World)
      → IsSound p s
      → IsSoundAfter p (Tunnel.close_tunnel_session e config uuid fuel s)
  unfolding Tunnel.close_tunnel_session
  close_tunnel_session-IsSound fuel s v = if_split (IsSoundAfter p) s.tunnel_closed v (
      closed_with-IsSound e config uuid p _ (
        post_tunnel_action-IsSound fuel (codes "close") []
          (record s { tunnel_closed = true; poll_timer = false }) v))
