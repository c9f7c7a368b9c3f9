-- ===== src/Connection/Asking/Lives.antt =====
-- A connection at the agent either has an operation under way, or is shut down, or its tunnel is over.
use nipovpn.Base.{
  nothing, List, ◌+◌, ◌≡◌, refl, ◌∙◌, Bool, true, false, not, ◌||◌, ◌⊎◌, inl, inr, Option, none,
  some, [], ◌∷◌, ◌++◌, Bytes, if_split, arith, Bool-cases,
}
use nipovpn.Env.{Env, NetError, Outcome, returned, threw}
use nipovpn.Config.{Config}
use nipovpn.Client.Defs.{socket_open, is_open}
use nipovpn.Connection.{Connection}
use nipovpn.Connection.Asking
use nipovpn.Connection.Asking.Waits.{flag, wait, waits, waits-append}
use nipovpn.Connection.Asking.Sound.{IsSound, socket_shutdown-IsSound, reset_timeout-IsSound}
use nipovpn.Connection.Asking.{
  Started, request_read, answer_write, tunnel_read, poll_wait, client_read, server_read,
  client_write, server_write, Completed, request_arrived, answer_written, client_sent, server_sent,
  client_written, server_written, tunnel_sent, poll_due, poll_written,
}

-- The wait between two polls was cancelled.
abbrev pub is_cancelled : Completed → Bool
is_cancelled (poll_due (some _)) = true
is_cancelled _ = false

module _ (e : Env) (config : Config) (uuid : Bytes) where
  abbrev K : Type 0
  K = Connection e.World

  -- What a callback that started nothing leaves: a connection that is shut down, a tunnel that is
  -- over, or one whose next poll is already waiting.
  pub record Rests (s : K) : Type 0 where
    pub rests : (s.closed || (s.tunnel_closed || s.poll_in_progress)) ≡ true

  -- What a callback leaves that began with the poll's flag at `p`: it started a wait exactly if it
  -- set the flag.
  abbrev pub Lives : Bool → Asking.Next e config uuid → Type 0
  Lives p (ops, s) =
      (socket_open s.socket ≡ not s.closed)
      × (flag s.poll_in_progress ≡ waits ops + flag p)
      × ((nothing ops ≡ false) ⊎ Rests s)

  abbrev pub LivesIfDone : Bool → Option (Asking.Next e config uuid) → Type 0
  LivesIfDone p none = Unit
  LivesIfDone p (some n) = Lives p n

  abbrev pub LivesIfReturned : Bool → Option (Outcome (Asking.Next e config uuid)) → Type 0
  LivesIfReturned p none = Unit
  LivesIfReturned p (some (threw n)) = IsSound p n.1
  LivesIfReturned p (some (returned n)) = Lives p n

module _ (e : Env) (config : Config) (uuid : Bytes) {p : Bool} where
  -- What starts no wait leaves the flag.
  pub quiet-Lives :
      (ops : List Started) (s : Connection e.World)
      → IsSound p s
      → waits ops ≡ 0
      → (nothing ops ≡ false) ⊎ Rests e config uuid s
      → Lives e config uuid p (ops, s)
  quiet-Lives ops s v h r = (v.0, rw (h, v.1) (omega arith), r)

  pub shut-Lives :
      (s : Connection e.World) → IsSound p s → Lives e config uuid p (Asking.shut e config uuid s)
  shut-Lives s v =
      let (v', closed) = socket_shutdown-IsSound e config uuid s v in
      quiet-Lives [] _ v' refl (inr (record { rests = rw closed refl }))

  relay-Lives :
      (op : Started) (s : Connection e.World)
      → wait op ≡ 0
      → IsSound p s
      → Lives e config uuid p (Asking.relay e config uuid op s)
  relay-Lives op s h v =
      if_split (Lives e config uuid p)
        (s.tunnel_closed || (not (socket_open s.socket) || not (is_open s.client))) (shut-Lives s v)
        (quiet-Lives (op ∷ []) s v (rw h refl) (inl refl))

  pub do_read_agent-Lives :
      (s : Connection e.World)
      → IsSound p s
      → Lives e config uuid p (Asking.do_read_agent e config uuid s)
  unfolding Asking.do_read_agent
  do_read_agent-Lives s v =
      quiet-Lives (request_read ∷ []) _
        (reset_timeout-IsSound e config uuid (record s { read_buffer = []; write_buffer = [] }) v)
        refl (inl refl)

  pub start_tunnel_read-Lives :
      (s : Connection e.World)
      → IsSound p s
      → Lives e config uuid p (Asking.start_tunnel_read e config uuid s)
  unfolding Asking.start_tunnel_read
  start_tunnel_read-Lives s v = elim (Bool-cases s.tunnel_closed) [
    | inl over ↦ rw over (quiet-Lives [] _ v refl (inr (record { rests = ground arith })))
    | inr going ↦ rw going (elim (Bool-cases (socket_open s.socket)) [
      | inl up ↦ rw up (quiet-Lives (tunnel_read ∷ []) _ v refl (inl refl))
      | inr down ↦ rw down (quiet-Lives [] _ v refl (inr (record { rests = ground arith })))
    ])
  ]

  pub start_tunnel_poll-Lives :
      (s : Connection e.World)
      → IsSound p s
      → Lives e config uuid p (Asking.start_tunnel_poll e config uuid s)
  unfolding Asking.start_tunnel_poll
  start_tunnel_poll-Lives s v = elim (Bool-cases s.tunnel_closed) [
    | inl over ↦ rw over (quiet-Lives [] _ v refl (inr (record { rests = ground arith })))
    | inr going ↦ rw going (elim (Bool-cases (socket_open s.socket)) [
      | inr down ↦ rw down (quiet-Lives [] _ v refl (inr (record { rests = ground arith })))
      | inl up ↦ rw up (elim (Bool-cases s.poll_in_progress) [
        | inl waiting ↦ rw waiting (v.0, ground arith, inr (record { rests = ground arith }))
        | inr free ↦ rw free (v.0, ground arith, inl refl)
      ])
    ])
  ]

module _ (e : Env) (config : Config) (uuid : Bytes) where
  pub guarded-Lives :
      (p : Bool) (n : Option (Asking.Next e config uuid))
      → LivesIfDone e config uuid p n
      → LivesIfReturned e config uuid p (Asking.guarded e config uuid n)
  guarded-Lives p none v = tt
  guarded-Lives p (some n) v = v

  and_then-Lives :
      (p : Bool) (n : Asking.Next e config uuid)
      (k : Connection e.World → Asking.Next e config uuid)
      → Lives e config uuid p n
      → ((q : Bool) (s : Connection e.World) → IsSound q s → Lives e config uuid q (k s))
      → Lives e config uuid p (Asking.and_then e config uuid n k)
  and_then-Lives p (ops, s) k h g = (
    (g s.poll_in_progress s (h.0, refl)).0,
    rw (waits-append ops (k s).0) ((g s.poll_in_progress s (h.0, refl)).1 ∙ omega (arith, h.1)),
    going ops h (g s.poll_in_progress s (h.0, refl)),
  )
    where
      going :
          (ops : List Started)
          → Lives e config uuid p (ops, s)
          → Lives e config uuid s.poll_in_progress (k s)
          → (nothing (ops ++ (k s).0) ≡ false) ⊎ Rests e config uuid (k s).1
      going [] h g = g.2
      going (op ∷ ops) h g = inl refl

  open_tunnel-Lives :
      (p : Bool) (s : Connection e.World)
      → IsSound p s
      → Lives e config uuid p (Asking.open_tunnel e config uuid s)
  open_tunnel-Lives p s v =
      if_split (Lives e config uuid p) config.general.tunnel_enable
        (and_then-Lives p _ (Asking.relay e config uuid server_read)
          (relay-Lives e config uuid client_read s refl v)
          (λ q t u. relay-Lives e config uuid server_read t refl u))
        (and_then-Lives p _ (Asking.start_tunnel_poll e config uuid)
          (start_tunnel_read-Lives e config uuid _ (
            if_split {A = Connection e.World} (IsSound p) (not config.general.connection_reuse) v
              v))
          (λ q t u. start_tunnel_poll-Lives e config uuid t u))

module _ (e : Env) (config : Config) (uuid : Bytes) {p : Bool} where
  pub after_answer-Lives :
      (error : Option NetError) (s : Connection e.World)
      → IsSound p s
      → Lives e config uuid p (Asking.after_answer e config uuid error s)
  after_answer-Lives (some error) s v = shut-Lives e config uuid s v
  after_answer-Lives none s v =
      if_split (Lives e config uuid p) s.connect_flag
        (open_tunnel-Lives e config uuid p (record s { tunnel_closed = false }) v)
        (do_read_agent-Lives e config uuid s v)

  pub after_relay_read-Lives :
      (op : Bytes → Started) (bytes : Bytes) (error : Option NetError) (s : Connection e.World)
      → ((bytes : Bytes) → wait (op bytes) ≡ 0)
      → IsSound p s
      → Lives e config uuid p (Asking.after_relay_read e config uuid op bytes error s)
  after_relay_read-Lives op bytes (some error) s h v = shut-Lives e config uuid s v
  after_relay_read-Lives op [] none s h v = shut-Lives e config uuid s v
  after_relay_read-Lives op (b ∷ bytes) none s h v =
      quiet-Lives e config uuid (op (b ∷ bytes) ∷ []) s v (rw (h (b ∷ bytes)) refl) (inl refl)

  pub after_relay_write-Lives :
      (op : Started) (error : Option NetError) (s : Connection e.World)
      → wait op ≡ 0
      → IsSound p s
      → Lives e config uuid p (Asking.after_relay_write e config uuid op error s)
  after_relay_write-Lives op (some error) s h v = shut-Lives e config uuid s v
  after_relay_write-Lives op none s h v = relay-Lives e config uuid op s h v
