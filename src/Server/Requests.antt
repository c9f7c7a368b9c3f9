-- ===== src/Server/Requests.antt =====
-- Single branches of `ServerHandler::handle` through the whole handler: a request that does not
-- decrypt, a CONNECT that is kept as a session, and a plain request over a connection that is open.
use nipovpn.Base.{
  ℕ, ◌≡◌, ◌≢◌, refl, sym, ◌∙◌, ap, subst, ◌⊎◌, inl, inr, Bool, true, false, not, Option, none, some,
  [], ◌∷◌, Bytes, codes, equal_iff, is_empty, if◌then◌else◌,
}
use nipovpn.Codec.{decode64}
use nipovpn.Env.{Env, Except, ok, throw, connected}
use nipovpn.Crypto.{BoolStr, aes256_decrypt}
use nipovpn.Config.{Config}
use nipovpn.Http.{Http, new_http, detect_type}
use nipovpn.Client.Defs.{Client, socket_open, do_connect, do_write, do_read_server}
use nipovpn.Client.Written.{IsPlain, Wrote, Heard, Wrote-Heard, do_write-Wrote, do_connect-IsPlain}
use nipovpn.Server.Sessions.{lookup, insert, lookup-insert}
use nipovpn.Server.Defs
use nipovpn.Server.Actions.{sessions-make_encrypted}

-- A decryption that threw or failed.
abbrev pub IsRefused : Except BoolStr → Type 0
IsRefused throw = Unit
IsRefused (ok r) = r.good ≡ false

module _ (e : Env) (config : Config) (uuid : Bytes) where
  -- A body that is no Base64, or does not decrypt under the token.
  abbrev pub IsForeign : Defs.Server e.World → Option Bytes → Type 0
  IsForeign s none = Unit
  IsForeign s (some text) = IsRefused (aes256_decrypt e text config.general.token s.world).0

  -- What is left of the state: all but the response and the world.
  pub record Rejected (s : Defs.Server e.World) (o : Defs.Outcome (Defs.Server e.World))
      : Type 0 where
    pub state : Defs.Server e.World
    pub answered : o ≡ Defs.returned state
    pub response :
        state.write_buffer
        ≡ Defs.plain_response e config uuid [] (codes "400 Bad Request") (codes "close")
    pub sessions : state.sessions ≡ s.sessions
    pub client : state.client ≡ s.client
    pub read_buffer : state.read_buffer ≡ s.read_buffer

  bad_request-Rejected :
      (s : Defs.Server e.World) (w : e.World)
      → Rejected s (Defs.returned (Defs.bad_request e config uuid (record s { world = w })))
  unfolding Defs.make_plain_http_response
  bad_request-Rejected s w = record {
    state = _;
    answered = refl;
    response = refl;
    sessions = refl;
    client = refl;
    read_buffer = refl;
  }

  decrypted-Rejected :
      (action session : Bytes) (s : Defs.Server e.World) (d : Except BoolStr × e.World)
      → IsRefused d.0
      → Rejected s (Defs.decrypted e config uuid action session s d)
  decrypted-Rejected action session s (throw, w) h = bad_request-Rejected s w
  decrypted-Rejected action session s (ok r, w) h = rw h (bad_request-Rejected s w)

  decoded-Rejected :
      (action session : Bytes) (s : Defs.Server e.World) (text : Option Bytes)
      → IsForeign s text
      → Rejected s (Defs.decoded e config uuid action session s text)
  decoded-Rejected action session s none h = bad_request-Rejected s s.world
  decoded-Rejected action session s (some text) h = decrypted-Rejected action session s _ h

  -- A request that is recognised, but whose body is no Base64, is too short to hold a vector, or
  -- does not decrypt under the token, is answered with a plain `400 Bad Request`, and the sessions,
  -- the client and the request's bytes are as before.
  pub handle-foreign :
      (s : Defs.Server e.World) (outer : Http)
      → detect_type e.parse_request s.read_buffer new_http ≡ ok (true, outer)
      → IsForeign s
          (decode64 e.base64 (Defs.body_or e config uuid s.read_buffer outer.request.body))
      → Rejected s (Defs.handle e config uuid s)
  unfolding Defs.handle
  handle-foreign s outer recognised foreign = rw recognised (decoded-Rejected _ _ s _ foreign)

  -- The name under which a session is kept.
  abbrev pub IsName : Bytes → Bytes → Type 0
  IsName session name = (session ≡ []) × (name ≡ uuid) ⊎ (session ≢ []) × (name ≡ session)

  session_name-IsName : (session : Bytes) → IsName session (Defs.session_name e config uuid session)
  session_name-IsName [] = inl (refl, refl)
  session_name-IsName (c ∷ session) = inr ((λ h. cc), refl)

  -- A connection that was made, behind its pending data: as it was where there is none, and else as
  -- the write of all of it left it.
  abbrev pub IsFlushed : ℕ → Bytes → e.World → Client → e.World → Type 0
  IsFlushed fd pending w c w' =
      (pending ≡ []) × (w' ≡ w) × IsPlain fd c ⊎ (pending ≢ []) × Wrote e config fd pending w c w'

  -- A session that is kept, and the state with the answer.
  pub record SessionKept (fd : ℕ) (name pending : Bytes) (w : e.World) (s s' : Defs.Server e.World)
      : Type 0 where
    pub client : Client
    pub world : e.World
    pub flushed : IsFlushed fd pending w client world
    pub found : lookup name s'.sessions ≡ some client
    pub answered :
        s'
        ≡ Defs.make_encrypted_http_response e config uuid
            (codes "HTTP/1.1 200 Connection Established\r\n\r\n")
            (codes "200 OK")
            (codes "keep-alive")
            (record s { sessions = insert name client s.sessions; world = world })

  flush_pending-IsFlushed :
      (fd : ℕ) (pending : Bytes) (c : Client) (w : e.World)
      → IsPlain fd c
      → IsFlushed fd pending w
          (Defs.flush_pending e config uuid pending c w).1
          (Defs.flush_pending e config uuid pending c w).2
  flush_pending-IsFlushed fd [] c w v = inl (refl, refl, v)
  flush_pending-IsFlushed fd (b ∷ bytes) c w v =
      inr ((λ h. cc), do_write-Wrote e config (b ∷ bytes) c w fd v)

  session_connected-SessionKept :
      (fd : ℕ) (session pending : Bytes) (s : Defs.Server e.World) (w : e.World)
      (r : Bool × Client × e.World)
      → (r.0 ≡ true) × IsPlain fd r.1 × (r.2 ≡ w)
      → SessionKept fd
          (Defs.session_name e config uuid session)
          pending
          w
          s
          (Defs.session_connected e config uuid session pending s r)
  session_connected-SessionKept fd session pending s w (done, c, w') (h, v, same) = rw h (
      let name = Defs.session_name e config uuid session in
      let flushed = Defs.flush_pending e config uuid pending c w' in
      record {
        client = flushed.1;
        world = flushed.2;
        flushed =
            subst (λ x. IsFlushed fd pending x flushed.1 flushed.2) same
              (flush_pending-IsFlushed fd pending c w' v);
        found =
            ap (lookup name) (sessions-make_encrypted e config uuid _ _ _ _)
            ∙ lookup-insert name name flushed.1 s.sessions
            ∙ rw ((equal_iff {s = name} {t = name}).1 refl);
        answered = refl;
      })

  -- If the target of a CONNECT resolves and can be connected to, the answer is what
  -- `makeEncryptedHttpResponse` makes of a `200 Connection Established`, and the connection over
  -- the socket that was made is kept under the session's name, or under that of the handler's own
  -- connection where the request names none, beside the other sessions as they were. Where there
  -- are pending data, all of them are written to that socket in one write first; if that fails, the
  -- socket is closed, and the client is kept shut down.
  pub connect_session-stored :
      (session pending : Bytes) (inner : Http) (s : Defs.Server e.World) (fd : ℕ) (w1 w2 : e.World)
      → e.resolve inner.dst_ip inner.dst_port s.world ≡ (true, w1)
      → e.connect inner.dst_ip inner.dst_port w1 ≡ (connected fd, w2)
      → (name : Bytes) × IsName session name
        × SessionKept fd name pending w2 s
            (Defs.connect_session e config uuid session pending inner s)
  connect_session-stored session pending inner s fd w1 w2 resolves connects = (
    Defs.session_name e config uuid session,
    session_name-IsName session,
    session_connected-SessionKept fd session pending s w2 _ (
        do_connect-IsPlain e config inner.dst_ip inner.dst_port fd uuid s.world w1 w2 resolves
          connects),
  )

  -- A request that went out over the handler's own connection, and the answer: what is read from it
  -- next, and where that is nothing, an empty one, with the connection closed.
  pub record Forwarded (fd : ℕ) (s s' : Defs.Server e.World) : Type 0 where
    pub client : Client
    pub world : e.World
    pub wrote : Wrote e config fd s.read_buffer s.world client world
    pub heard : Heard e config fd client world (do_read_server e config client world).0.read_buffer
    pub answered :
        (let (c, w) = do_read_server e config client world in
          let read = record s { read_buffer = []; client = c; world = w } in
          (s'
            ≡ Defs.make_encrypted_http_response e config uuid c.read_buffer
                (codes "200 OK")
                (if config.general.connection_reuse then codes "keep-alive" else codes "close")
                (if is_empty c.read_buffer then Defs.close_client e config uuid read else read)))

  relay_answer-read :
      (bytes : Bytes) (t : Defs.Server e.World)
      → (if is_empty bytes
          then Defs.respond_ok e config uuid [] (Defs.close_client e config uuid t)
          else Defs.respond_ok e config uuid bytes t)
        ≡ Defs.respond_ok e config uuid bytes
            (if is_empty bytes then Defs.close_client e config uuid t else t)
  relay_answer-read [] t = refl
  relay_answer-read (b ∷ bytes) t = refl

  ask-Forwarded :
      (s : Defs.Server e.World) (fd : ℕ)
      → IsPlain fd s.client
      → Forwarded fd s (Defs.ask e config uuid s)
  ask-Forwarded s fd v = record {
    client = (do_write e config s.read_buffer s.client s.world).1;
    world = (do_write e config s.read_buffer s.client s.world).2;
    wrote = do_write-Wrote e config s.read_buffer s.client s.world fd v;
    heard =
        Wrote-Heard e config fd s.read_buffer s.world _ _
          (do_write-Wrote e config s.read_buffer s.client s.world fd v);
    answered = relay_answer-read _ _;
  }

  forward-ask :
      (inner : Http) (s : Defs.Server e.World) (fd : ℕ)
      → IsPlain fd s.client
      → Defs.forward e config uuid inner s ≡ Defs.ask e config uuid s
  forward-ask inner s fd v =
      ap
        (λ k.
          if not (socket_open k)
          then Defs.asked e config uuid s
              (do_connect e config inner.dst_ip inner.dst_port s.client s.world)
          else Defs.ask e config uuid s)
        v.socket

  -- While the handler's own connection is open, without TLS, a plain request is written whole to
  -- the socket of that connection, in one write; the answer is what `makeEncryptedHttpResponse`
  -- makes, with `200 OK`, of what is read from it next, and where that is nothing, as after a write
  -- that failed and closed the socket, of an empty text, and the connection is closed. For requests
  -- to any two destinations the state and the answer are the same: the destination of a request is
  -- not looked at.
  pub forward-open_same :
      (inner other : Http) (s : Defs.Server e.World) (fd : ℕ)
      → IsPlain fd s.client
      → Forwarded fd s (Defs.forward e config uuid inner s)
        × (Defs.forward e config uuid inner s ≡ Defs.forward e config uuid other s)
  forward-open_same inner other s fd v = (
    subst (Forwarded fd s) (sym (forward-ask inner s fd v)) (ask-Forwarded s fd v),
    forward-ask inner s fd v ∙ sym (forward-ask other s fd v),
  )
