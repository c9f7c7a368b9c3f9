-- ===== src/Agent/Exchange.antt =====
-- How `AgentHandler::handle` ends: with the server's answer in its buffer, or with its connection shut
-- and nothing else to show.
use nipovpn.Base.{
  ℕ, ◌≡◌, refl, Bool, true, false, not, ◌&&◌, ◌⊎◌, inl, inr, Option, none, some, [], Bytes,
  is_empty, if_split, ap,
}
use nipovpn.Env.{Env, Except, ok, throw, Outcome, returned, threw}
use nipovpn.Config.{Config}
use nipovpn.Http.{Http, HttpType, new_http, detect_type}
use nipovpn.Client.Defs.{Client, is_open, do_write, do_read_agent}
use nipovpn.Client.Invariant.{
  IsConsistent, enable_tls_client-IsConsistent, do_connect-IsConsistent, do_write-IsConsistent,
  do_handshake_client-IsConsistent, do_read_agent-IsConsistent, socket_shutdown-IsConsistent,
}
use nipovpn.Client.Results.{is_open-socket_shutdown}
use nipovpn.Relay.{relay_answer}
use nipovpn.Agent

module _ (e : Env) (config : Config) (uuid : Bytes) where
  abbrev A : Type 0
  A = Agent.AgentHandler e.World

  -- Nothing was answered: the connection to the server is shut.
  pub record Failed (before after : A) : Type 0 where
    pub shut : is_open after.client ≡ false
    pub same_answer : after.write_buffer ≡ before.write_buffer
    pub same_flag : after.connect_flag ≡ before.connect_flag

  -- The buffer holds what the response that was read last decrypts to.
  pub record Answered (type : HttpType) (after : A) : Type 0 where
    pub decrypted :
        (w : e.World) × ((relay_answer e config after.client.read_buffer w).0
          ≡ ok (some after.write_buffer))
    pub flag : after.connect_flag ≡ Agent.is_connect type
    pub open_ended : after.end_flag ≡ false

  -- The client stays consistent, and a call that returns ends in one of the two ways.
  abbrev pub Ends : HttpType → A → Outcome A → Type 0
  Ends type s (returned t) = IsConsistent t.client × (Failed s t ⊎ Answered type t)
  Ends type s (threw t) = IsConsistent t.client

  abbrev pub EndsIfDone : HttpType → A → Option (Outcome A) → Type 0
  EndsIfDone type s none = Unit
  EndsIfDone type s (some o) = Ends type s o

  -- The states that a call goes through before it ends.
  record Along (s t : A) : Type 0 where
    sound : IsConsistent t.client
    same_answer : t.write_buffer ≡ s.write_buffer
    same_flag : t.connect_flag ≡ s.connect_flag

  shut-Ends :
      (type : HttpType) (s t : A) → Along s t → Ends type s (returned (Agent.shut e config uuid t))
  shut-Ends type s t a = (
    socket_shutdown-IsConsistent e config t.client t.world a.sound,
    inl (record {
      shut = is_open-socket_shutdown e config t.client t.world a.sound;
      same_answer = a.same_answer;
      same_flag = a.same_flag;
    }),
  )

  answered-Ends :
      (type : HttpType) (s t : A) (r : Except (Option Bytes) × e.World)
      → Along s t
      → (w : e.World) → relay_answer e config t.client.read_buffer w ≡ r
      → Ends type s (Agent.answered e config uuid type t r)
  answered-Ends type s t (throw, w) a w' h = a.sound
  answered-Ends type s t (ok none, w) a w' h =
      shut-Ends type s (record t { world = w })
        (record { sound = a.sound; same_answer = a.same_answer; same_flag = a.same_flag })
  answered-Ends type s t (ok (some plain), w) a w' h =
      (a.sound, inr (record { decrypted = (w', ap (λ p. p.0) h); flag = refl; open_ended = refl }))

  read_reply-Ends :
      (type : HttpType) (s t : A) → Along s t → Ends type s (Agent.read_reply e config uuid type t)
  read_reply-Ends type s t a =
      if_split (Ends type s) (is_empty t.client.read_buffer && not config.general.connection_reuse)
        (shut-Ends type s t a) (answered-Ends type s t _ a t.world refl)

  reply_read-Ends :
      (fuel : ℕ) (type : HttpType) (s t : A) (r : Option (Bool × Client × e.World))
      → Along s t
      → do_read_agent e config fuel t.client t.world ≡ r
      → EndsIfDone type s (Agent.reply_read e config uuid type t r)
  reply_read-Ends fuel type s t none a h = tt
  reply_read-Ends fuel type s t (some r) a h =
      read_reply-Ends type s (Agent.at_client e config uuid t r) (record {
        sound = do_read_agent-IsConsistent e config fuel t.client t.world r a.sound h;
        same_answer = a.same_answer;
        same_flag = a.same_flag;
      })

  requested-Ends :
      (fuel : ℕ) (type : HttpType) (s t : A) (r : Option Bytes × e.World)
      → Along s t
      → EndsIfDone type s (Agent.requested e config uuid fuel type t r)
  requested-Ends fuel type s t (none, w) a =
      shut-Ends type s (record t { world = w })
        (record { sound = a.sound; same_answer = a.same_answer; same_flag = a.same_flag })
  requested-Ends fuel type s t (some raw, w) a =
      reply_read-Ends fuel type s
        (record (Agent.at_client e config uuid t (do_write e config raw t.client w)) {
          read_buffer = [];
        })
        _
        (record {
          sound = do_write-IsConsistent e config raw t.client w a.sound;
          same_answer = a.same_answer;
          same_flag = a.same_flag;
        })
        refl

  exchange-Ends :
      (fuel : ℕ) (type : HttpType) (s t : A)
      → Along s t
      → EndsIfDone type s (Agent.exchange e config uuid fuel type t)
  unfolding Agent.exchange
  exchange-Ends fuel type s t a = requested-Ends fuel type s t _ a

  after_handshake-Ends :
      (fuel : ℕ) (type : HttpType) (s t : A) (r : Bool × Client × e.World)
      → Along s (Agent.at_client e config uuid t r)
      → EndsIfDone type s (Agent.after_handshake e config uuid fuel type t r)
  after_handshake-Ends fuel type s t (false, c, w) a = shut-Ends type s _ a
  after_handshake-Ends fuel type s t (true, c, w) a = exchange-Ends fuel type s _ a

  after_connect-Ends :
      (fuel : ℕ) (type : HttpType) (s t : A) (r : Bool × Client × e.World)
      → Along s (Agent.at_client e config uuid t r)
      → EndsIfDone type s (Agent.after_connect e config uuid fuel type t r)
  after_connect-Ends fuel type s t (false, c, w) a = shut-Ends type s _ a
  after_connect-Ends fuel type s t (true, c, w) a =
      if_split (EndsIfDone type s) c.tls_enabled
        (after_handshake-Ends fuel type s t _ (record {
          sound = do_handshake_client-IsConsistent e config c w a.sound;
          same_answer = a.same_answer;
          same_flag = a.same_flag;
        }))
        (exchange-Ends fuel type s _ a)

  connected-Ends :
      (fuel : ℕ) (type : HttpType) (s t : A)
      → Along s t
      → EndsIfDone type s (Agent.connected e config uuid fuel type t)
  connected-Ends fuel type s t a =
      if_split (EndsIfDone type s) (not (is_open t.client))
        (after_connect-Ends fuel type s t _ (record {
          sound =
              do_connect-IsConsistent e config config.agent.server_ip config.agent.server_port
                t.client t.world a.sound;
          same_answer = a.same_answer;
          same_flag = a.same_flag;
        }))
        (exchange-Ends fuel type s t a)

  after_tls-Ends :
      (fuel : ℕ) (type : HttpType) (s t : A) (r : Bool × Client × e.World)
      → Along s (Agent.at_client e config uuid t r)
      → EndsIfDone type s (Agent.after_tls e config uuid fuel type t r)
  after_tls-Ends fuel type s t (false, c, w) a = shut-Ends type s _ a
  after_tls-Ends fuel type s t (true, c, w) a = connected-Ends fuel type s _ a

  secured-Ends :
      (fuel : ℕ) (type : HttpType) (s : A)
      → IsConsistent s.client
      → EndsIfDone type s (Agent.secured e config uuid fuel type s)
  secured-Ends fuel type s v =
      if_split (EndsIfDone type s) (config.general.tls_enable && not s.client.tls_enabled)
        (after_tls-Ends fuel type s s _ (record {
          sound = enable_tls_client-IsConsistent e config s.client s.world v;
          same_answer = refl;
          same_flag = refl;
        }))
        (connected-Ends fuel type s s (record { sound = v; same_answer = refl; same_flag = refl }))

  -- From a consistent client and a request that is recognised, every call of `AgentHandler::handle`
  -- that comes to an end leaves the client consistent; if it returns, then either the connection to
  -- the server is closed with the buffer and the tunnel flag as they were, or the buffer holds what
  -- the response that was read last decrypts to, the tunnel flag tells whether the request was a
  -- CONNECT, and the end flag is clear.
  pub handle-Ends :
      (fuel : ℕ) (s : A) (request : Http)
      → IsConsistent s.client
      → detect_type e.parse_request s.read_buffer new_http ≡ ok (true, request)
      → EndsIfDone request.http_type s (Agent.handle e config uuid fuel s)
  unfolding Agent.handle
  handle-Ends fuel s request v recognised = rw recognised (secured-Ends fuel request.http_type s v)
