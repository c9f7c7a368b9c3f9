-- ===== src/Relay/Delivery.antt =====
-- What the agent encloses in a request is what the server takes out of it: `ServerHandler::handle`
-- on a request of the agent acts on the bytes, the session and the action that the agent meant.
use nipovpn.Base.{
  ℕ, ◌≡◌, refl, ap, ◌∙◌, Bool, ◌⊎◌, inl, inr, some, [], Bytes, codes, equal, IsByte, All, arith,
  if◌then◌else◌,
}
use nipovpn.HttpUtils.{trim_copy}
use nipovpn.Codec.{hex_arr_to_str}
use nipovpn.Codec.Hex.{hex_to_ascii-hex_arr_to_str}
use nipovpn.Env.{Env}
use nipovpn.Config.{Config}
use nipovpn.Relay.{relay_request}
use nipovpn.Relay.Texts.{IsText, IsClean}
use nipovpn.Client.Defs.{Client, do_write}
use nipovpn.Client.Written.{IsPlain, Wrote, is_open-plain, do_write-Wrote}
use nipovpn.Server.Sessions.{lookup, insert}
use nipovpn.Server.Defs
use nipovpn.Relay.Handling.{Arrives, opened, handle-relay_request}

module _ (e : Env) (sender receiver : Config) (uuid : Bytes) where
  dispatch-inner :
      (action session bytes : Bytes) (s : Defs.Server e.World)
      → (action ≡ codes "open") ⊎ (action ≡ codes "request")
      → All IsByte bytes
      → Defs.dispatch e receiver uuid action session (hex_arr_to_str bytes) s
        ≡ Defs.handle_inner e receiver uuid session bytes s
  unfolding Defs.dispatch equal
  dispatch-inner action session bytes s (inl a) h = rw (a, hex_to_ascii-hex_arr_to_str bytes h)
  dispatch-inner action session bytes s (inr a) h = rw (a, hex_to_ascii-hex_arr_to_str bytes h)

  -- A request that the agent made with the action `open` or `request` is handled by the server as
  -- the very bytes that the agent's client had sent, under the session that the agent named. It
  -- holds for a configuration of the agent whose texts hold no line break and whose methods begin
  -- with a letter that is not `X`, a session name in one line with no blanks around it, bytes below
  -- 256, and outside components as in `Arrives`.
  pub handle-relayed :
      (session action : Bytes) (keep : Bool) (bytes : Bytes) (w : e.World) (raw : Bytes)
      (s : Defs.Server e.World)
      → IsClean sender
      → IsText session
      → trim_copy session ≡ session
      → (action ≡ codes "open") ⊎ (action ≡ codes "request")
      → All IsByte bytes
      → (relay_request e sender session action keep bytes w).0 ≡ some raw
      → Arrives e sender receiver uuid raw s
      → Defs.handle e receiver uuid (record s { read_buffer = raw })
        ≡ Defs.handle_inner e receiver uuid session bytes (opened e sender receiver uuid s raw)
  unfolding trim_copy
  handle-relayed session action keep bytes w raw s clean st trimmed kind b made arrives =
      handle-relay_request e sender receiver uuid session action keep bytes w raw s clean st
        (action_text kind) made arrives
      ∙ ap
          (λ t.
            Defs.dispatch e receiver uuid (trim_copy action) t (hex_arr_to_str bytes)
              (opened e sender receiver uuid s raw))
          trimmed
      ∙ dispatch-inner (trim_copy action) session bytes (opened e sender receiver uuid s raw)
          (action_trimmed kind) b
    where
      action_text : (action ≡ codes "open") ⊎ (action ≡ codes "request") → IsText action
      action_text (inl a) = rw a (omega arith)
      action_text (inr a) = rw a (omega arith)

      action_trimmed :
          (action ≡ codes "open") ⊎ (action ≡ codes "request")
          → (trim_copy action ≡ codes "open") ⊎ (trim_copy action ≡ codes "request")
      action_trimmed (inl a) = inl (ap trim_copy a)
      action_trimmed (inr a) = inr (ap trim_copy a)

  -- The session's connection after a `send`, and the whole state of the server with its answer.
  pub record SessionWrites (fd : ℕ) (session bytes : Bytes) (s : Defs.Server e.World)
      (o : Defs.Outcome (Defs.Server e.World)) : Type 0 where
    pub client : Client
    pub world : e.World
    pub wrote : Wrote e receiver fd bytes s.world client world
    pub answered :
        o
        ≡ Defs.returned (
            Defs.make_encrypted_http_response e receiver uuid []
              (codes "200 OK")
              (if receiver.general.connection_reuse then codes "keep-alive" else codes "close")
              (record s { sessions = insert session client s.sessions; world = world }))

  -- For a request that the agent made with the action `send`, the server writes the very bytes, all
  -- in one write, to the socket of the session's connection, and the connection stays open; or that
  -- write fails, or there are no bytes, and the socket is closed and the client shut down. The
  -- client is stored as that left it, the other sessions stay, and the answer is what
  -- `makeEncryptedHttpResponse` makes of an empty text with `200 OK`. It holds where the server
  -- keeps a session of that name with an open connection without TLS, and under the conditions of
  -- `handle-relayed` on the configuration, the session name, the bytes and the outside components.
  pub handle-sent :
      (session : Bytes) (keep : Bool) (bytes : Bytes) (w : e.World) (raw : Bytes)
      (s : Defs.Server e.World) (target : Client) (fd : ℕ)
      → IsClean sender
      → IsText session
      → trim_copy session ≡ session
      → All IsByte bytes
      → (relay_request e sender session (codes "send") keep bytes w).0 ≡ some raw
      → Arrives e sender receiver uuid raw s
      → lookup session s.sessions ≡ some target
      → IsPlain fd target
      → SessionWrites fd session bytes
          (opened e sender receiver uuid s raw)
          (Defs.handle e receiver uuid (record s { read_buffer = raw }))
  unfolding Defs.dispatch Defs.handle_send trim_copy equal
  handle-sent session keep bytes w raw s target fd clean st trimmed b made arrives found plain =
      record {
        client = (do_write e receiver bytes target (e.ctx_new s.world).1).1;
        world = (do_write e receiver bytes target (e.ctx_new s.world).1).2;
        wrote = do_write-Wrote e receiver bytes target (e.ctx_new s.world).1 fd plain;
        answered =
            handle-relay_request e sender receiver uuid session (codes "send") keep bytes w raw s
              clean st (omega arith) made arrives
            ∙ ap
                (λ t.
                  Defs.dispatch e receiver uuid (codes "send") t (hex_arr_to_str bytes)
                    (opened e sender receiver uuid s raw))
                trimmed
            ∙ rw
                (
                  found,
                  is_open-plain e receiver target fd plain,
                  hex_to_ascii-hex_arr_to_str bytes b,
                )
                refl;
      }
