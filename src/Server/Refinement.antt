-- ===== src/Server/Refinement.antt =====
-- `ServerHandler::handle` does to the sessions, seen as a function, what the header with the action
-- allows, on every path through the handler.
use nipovpn.Base.{
  ℕ, ◌+◌, ◌≡◌, ◌≢◌, refl, ◌∙◌, ap, Bool, true, false, Option, none, some, Bytes, codes, equal,
  equal_iff, if_cases, Bool-cases, Option-cases, arith, inl, inr, take,
}
use nipovpn.Text.{find}
use nipovpn.HttpUtils.{header_end, get_raw_header}
use nipovpn.Env.{Env, Except, ok, throw}
use nipovpn.Crypto.{BoolStr}
use nipovpn.Config.{Config}
use nipovpn.Codec.{hex_to_ascii}
use nipovpn.Http.{Http, HttpType, https, http, connect, new_http, detect_type}
use nipovpn.Client.Defs.{is_open, do_connect, do_write}
use nipovpn.Server.Sessions.{lookup}
use nipovpn.Server.Defs
use nipovpn.Server.Actions.{
  after, sessions-make_encrypted, sessions-make_plain, sessions-handle_recv,
}
use nipovpn.Server.Isolation.{sessions-forward, sessions-direct_connected}
use nipovpn.Server.View.{
  view, view-insert, view-erase, Step, kept, opened, written, closed, connection_to,
}

module _ (e : Env) (config : Config) (uuid : Bytes) where
  abbrev Steps : Bytes → Bytes → Defs.Server e.World → Defs.Outcome (Defs.Server e.World) → Type 0
  Steps action session s o =
      Step e config uuid action session (view s.sessions) (view (after o).sessions)

  -- An action that is none of those on a session that is kept.
  record Opens (action : Bytes) : Type 0 where
    not_send : action ≢ codes "send"
    not_recv : action ≢ codes "recv"
    not_close : action ≢ codes "close"

  handle_send-Steps :
      (session text : Bytes) (s : Defs.Server e.World)
      → Steps
          (codes "send")
          session
          s
          (Defs.handle_send e config uuid session text (lookup session s.sessions) s)
  unfolding Defs.handle_send
  handle_send-Steps session text s = elim (Option-cases (lookup session s.sessions)) [
    | inl missing ↦ rw missing (kept (ap view (sessions-make_encrypted e config uuid _ _ _ s)))
    | inr (c, present) ↦ elim (Bool-cases (is_open c)) [
      | inr shut ↦
          rw (present, shut) (kept (ap view (sessions-make_encrypted e config uuid _ _ _ s)))
      | inl up ↦ elim (Option-cases (hex_to_ascii text)) [
        | inl bad ↦ rw (present, up, bad) (kept refl)
        | inr (bytes, good) ↦
            rw (present, up, good)
              (written c bytes s.world refl present up (
                ap view (sessions-make_encrypted e config uuid _ _ _ _)
                ∙ view-insert session (do_write e config bytes c s.world).1 s.sessions))
      ]
    ]
  ]

  handle_close-Steps :
      (session : Bytes) (s : Defs.Server e.World)
      → Steps
          (codes "close")
          session
          s
          (Defs.returned (Defs.handle_close e config uuid session (lookup session s.sessions) s))
  unfolding Defs.handle_close
  handle_close-Steps session s = elim (Option-cases (lookup session s.sessions)) [
    | inl missing ↦ rw missing (kept (ap view (sessions-make_encrypted e config uuid _ _ _ s)))
    | inr (c, present) ↦ rw present (
        closed c refl present
          (ap view (sessions-make_encrypted e config uuid _ _ _ _) ∙ view-erase session s.sessions))
  ]

  session_connected-Steps :
      (action session pending dst : Bytes) (port : ℕ) (w : e.World) (s : Defs.Server e.World)
      → Opens action
      → config.general.tunnel_enable ≡ false
      → Steps action session s (
          Defs.returned (
            Defs.session_connected e config uuid session pending s
              (connection_to e config uuid dst port w)))
  session_connected-Steps action session pending dst port w s o off =
      elim (Bool-cases (connection_to e config uuid dst port w).0) [
        | inr down ↦ rw down (kept (ap view (sessions-make_encrypted e config uuid _ _ _ _)))
        | inl up ↦ rw up (
            opened dst port pending w o.not_send o.not_recv o.not_close off up (
              ap view (sessions-make_encrypted e config uuid _ _ _ _)
              ∙ view-insert (Defs.session_name e config uuid session)
                  (Defs.flush_pending e config uuid pending
                    (connection_to e config uuid dst port w).1
                    (connection_to e config uuid dst port w).2).1
                  s.sessions))
      ]

  by_type-Steps :
      (t : HttpType) (action session request pending : Bytes) (inner : Http)
      (s : Defs.Server e.World)
      → Opens action
      → Steps action session s
          (Defs.returned (Defs.by_type e config uuid t session request pending inner s))
  by_type-Steps connect action session request pending inner s o =
      if_cases {A = Defs.Server e.World}
        (λ t. Step e config uuid action session (view s.sessions) (view t.sessions))
        config.general.tunnel_enable
        (λ on. kept (
          ap view (
            sessions-direct_connected e config uuid s
              (do_connect e config inner.dst_ip inner.dst_port s.client s.world))))
        (λ off.
          session_connected-Steps action session pending inner.dst_ip inner.dst_port s.world s o
            off)
  by_type-Steps http action session request pending inner s o =
      kept (ap view (sessions-forward e config uuid inner (record s { read_buffer = request })))
  by_type-Steps https action session request pending inner s o =
      kept (ap view (sessions-forward e config uuid inner (record s { read_buffer = request })))

  inner_detected-Steps :
      (action session request pending : Bytes) (s : Defs.Server e.World) (d : Except (Bool × Http))
      → Opens action
      → Steps action session s (Defs.inner_detected e config uuid session request pending s d)
  inner_detected-Steps action session request pending s throw o = kept refl
  inner_detected-Steps action session request pending s (ok (false, inner)) o =
      kept (ap view (sessions-make_encrypted e config uuid _ _ _ _))
  inner_detected-Steps action session request pending s (ok (true, inner)) o =
      by_type-Steps inner.http_type action session request pending inner s o

  handle_inner-Steps :
      (action session request : Bytes) (s : Defs.Server e.World)
      → Opens action
      → Steps action session s (Defs.handle_inner e config uuid session request s)
  unfolding Defs.handle_inner
  handle_inner-Steps action session request s o = elim (Option-cases (find header_end request)) [
    | inl missing ↦
        rw (missing, Defs.handle_inner)
          (kept (ap view (sessions-make_encrypted e config uuid _ _ _ _)))
    | inr (i, there) ↦
        rw (there, Defs.handle_inner)
          (inner_detected-Steps action session request _
            (record s { read_buffer = take (i + 4) request }) _ o)
  ]

  handle_open-Steps :
      (action session : Bytes) (request : Option Bytes) (s : Defs.Server e.World)
      → Opens action
      → Steps action session s (Defs.handle_open e config uuid session request s)
  handle_open-Steps action session none s o = kept refl
  handle_open-Steps action session (some request) s o =
      handle_inner-Steps action session request s o

  dispatch-Steps :
      (action session text : Bytes) (s : Defs.Server e.World)
      → Steps action session s (Defs.dispatch e config uuid action session text s)
  unfolding Defs.dispatch
  dispatch-Steps action session text s = elim (Bool-cases (equal action (codes "send"))) [
    | inl a ↦ rw a (rw (equal_iff.0 a) (handle_send-Steps session text s))
    | inr a ↦ rw a (elim (Bool-cases (equal action (codes "recv"))) [
      | inl b ↦ rw b (kept (ap view (sessions-handle_recv e config uuid _ s)))
      | inr b ↦ rw b (elim (Bool-cases (equal action (codes "close"))) [
        | inl c ↦ rw c (rw (equal_iff.0 c) (handle_close-Steps session s))
        | inr c ↦
            let none_of : Opens action = record {
              not_send = λ k. ground (arith, equal_iff.1 k);
              not_recv = λ k. ground (arith, equal_iff.1 k);
              not_close = λ k. ground (arith, equal_iff.1 k);
            } in
            rw c (handle_open-Steps action session (hex_to_ascii text) s none_of)
      ])
    ])
  ]

  decrypted-Steps :
      (action session : Bytes) (s : Defs.Server e.World) (d : Except BoolStr × e.World)
      → Steps action session s (Defs.decrypted e config uuid action session s d)
  decrypted-Steps action session s (throw, w) =
      kept (ap view (sessions-make_plain e config uuid _ _ _ _))
  decrypted-Steps action session s (ok r, w) = elim (Bool-cases r.good) [
    | inl g ↦ rw g (dispatch-Steps action session r.text (record s { world = w }))
    | inr b ↦ rw b (kept (ap view (sessions-make_plain e config uuid _ _ _ _)))
  ]

  decoded-Steps :
      (action session : Bytes) (s : Defs.Server e.World) (text : Option Bytes)
      → Steps action session s (Defs.decoded e config uuid action session s text)
  decoded-Steps action session s none = kept (ap view (sessions-make_plain e config uuid _ _ _ _))
  decoded-Steps action session s (some text) = decrypted-Steps action session s _

  -- The headers that the handler goes by.
  abbrev pub action_of : Bytes → Bytes
  action_of raw = get_raw_header (Defs.outer_headers e config uuid raw) (codes "X-Nipo-Action")

  abbrev pub session_of : Bytes → Bytes
  session_of raw = get_raw_header (Defs.outer_headers e config uuid raw) (codes "X-Nipo-Session")

  detected-Steps :
      (s : Defs.Server e.World) (d : Except (Bool × Http))
      → Steps
          (action_of s.read_buffer)
          (session_of s.read_buffer)
          s
          (Defs.detected e config uuid s d)
  detected-Steps s throw = kept refl
  detected-Steps s (ok (false, outer)) = unfold Defs.close_client in kept refl
  detected-Steps s (ok (true, outer)) = decoded-Steps _ _ s _

  -- Whatever request the server handles, and whether the call returns or throws, the sessions, seen
  -- as a function of their names, change as their specification `Step` allows for the action and
  -- the session in the request's headers: not at all, or by a connection that was opened, written
  -- to or closed.
  pub handle_refines :
      (s : Defs.Server e.World)
      → Step e config uuid
          (action_of s.read_buffer)
          (session_of s.read_buffer)
          (view s.sessions)
          (view (after (Defs.handle e config uuid s)).sessions)
  unfolding Defs.handle
  handle_refines s = detected-Steps s (detect_type e.parse_request s.read_buffer new_http)
