-- ===== src/Server/Isolation.antt =====
-- No request touches the session of another: whatever `handle` does, and also where it throws, only
-- the entry under the request's own session name can change.
use nipovpn.Base.{
  ◌≡◌, refl, ◌∙◌, ap, Bool, true, false, Option, none, some, Bytes, codes, equal, Bool-cases,
  Option-cases, if_split, inl, inr, is_empty, take, ◌+◌,
}
use nipovpn.Text.{find}
use nipovpn.HttpUtils.{header_end, get_raw_header}
use nipovpn.Env.{Env, Except, ok, throw}
use nipovpn.Crypto.{BoolStr}
use nipovpn.Config.{Config}
use nipovpn.Codec.{hex_to_ascii}
use nipovpn.Http.{Http, HttpType, https, http, connect, new_http, detect_type}
use nipovpn.Client.Defs.{Client, new_client, socket_open, do_connect}
use nipovpn.Server.Sessions.{lookup, lookup-insert}
use nipovpn.Server.Defs
use nipovpn.Server.Actions.{
  after, AgreeBut, sessions-make_encrypted, sessions-make_plain, sessions-respond_closed,
  handle_send-AgreeBut, sessions-handle_recv, handle_close-AgreeBut,
}

module _ (e : Env) (config : Config) (uuid : Bytes) where
  sessions-ask : (s : Defs.Server e.World) → (Defs.ask e config uuid s).sessions ≡ s.sessions
  sessions-ask s = sessions-relay_answer _
    where
      sessions-relay_answer :
          (t : Defs.Server e.World) → (Defs.relay_answer e config uuid t).sessions ≡ t.sessions
      sessions-relay_answer t =
          if_split {A = Defs.Server e.World} (λ u. u.sessions ≡ t.sessions)
            (is_empty t.client.read_buffer) (sessions-respond_closed e config uuid _ _ _ t)
            (sessions-make_encrypted e config uuid _ _ _ t)

  sessions-asked :
      (s : Defs.Server e.World) (r : Bool × Client × e.World)
      → (Defs.asked e config uuid s r).sessions ≡ s.sessions
  sessions-asked s (true, c, w) = sessions-ask (record s { client = c; world = w })
  sessions-asked s (false, c, w) = sessions-respond_closed e config uuid _ _ _ _

  pub sessions-forward :
      (inner : Http) (s : Defs.Server e.World)
      → (Defs.forward e config uuid inner s).sessions ≡ s.sessions
  sessions-forward inner s = elim (Bool-cases (socket_open s.client.socket)) [
    | inl up ↦ rw up (sessions-ask s)
    | inr shut ↦
        rw shut
          (sessions-asked s (do_connect e config inner.dst_ip inner.dst_port s.client s.world))
  ]

  pub sessions-direct_connected :
      (s : Defs.Server e.World) (r : Bool × Client × e.World)
      → (Defs.direct_connected e config uuid s r).sessions ≡ s.sessions
  sessions-direct_connected s (false, c, w) = sessions-make_encrypted e config uuid _ _ _ _
  sessions-direct_connected s (true, c, w) = sessions-make_encrypted e config uuid _ _ _ _

  session_connected-AgreeBut :
      (session pending : Bytes) (s : Defs.Server e.World) (r : Bool × Client × e.World)
      → AgreeBut
          (Defs.session_name e config uuid session)
          s.sessions
          (Defs.session_connected e config uuid session pending s r).sessions
  session_connected-AgreeBut session pending s (false, c, w) j h =
      ap (lookup j) (sessions-make_encrypted e config uuid _ _ _ _)
  session_connected-AgreeBut session pending s (true, c, w) j h =
      ap (lookup j) (sessions-make_encrypted e config uuid _ _ _ _)
      ∙ lookup-insert (Defs.session_name e config uuid session) j
          (Defs.flush_pending e config uuid pending c w).1 s.sessions
      ∙ rw h

  -- The names that a request may change: that of its session, and that of its connection.
  pub record Another (session j : Bytes) : Type 0 where
    pub named : equal session j ≡ false
    pub stored : equal (Defs.session_name e config uuid session) j ≡ false

  abbrev Keeps : Bytes → Defs.Server e.World → Defs.Outcome (Defs.Server e.World) → Type 0
  Keeps session s o =
      (j : Bytes) → Another session j → lookup j (after o).sessions ≡ lookup j s.sessions

  by_type-Keeps :
      (t : HttpType) (session request pending : Bytes) (inner : Http) (s : Defs.Server e.World)
      → Keeps session s
          (Defs.returned (Defs.by_type e config uuid t session request pending inner s))
  by_type-Keeps connect session request pending inner s j h =
      if_split {A = Defs.Server e.World} (λ t. lookup j t.sessions ≡ lookup j s.sessions)
        config.general.tunnel_enable
        (ap (lookup j) (
          sessions-direct_connected s
            (do_connect e config inner.dst_ip inner.dst_port s.client s.world)))
        (session_connected-AgreeBut session pending s
          (do_connect e config inner.dst_ip inner.dst_port (record new_client { uuid = uuid })
            s.world)
          j h.stored)
  by_type-Keeps http session request pending inner s j h =
      ap (lookup j) (sessions-forward inner (record s { read_buffer = request }))
  by_type-Keeps https session request pending inner s j h =
      ap (lookup j) (sessions-forward inner (record s { read_buffer = request }))

  inner_detected-Keeps :
      (session request pending : Bytes) (s : Defs.Server e.World) (d : Except (Bool × Http))
      → Keeps session s (Defs.inner_detected e config uuid session request pending s d)
  inner_detected-Keeps session request pending s throw j h = refl
  inner_detected-Keeps session request pending s (ok (false, inner)) j h =
      ap (lookup j) (sessions-make_encrypted e config uuid _ _ _ _)
  inner_detected-Keeps session request pending s (ok (true, inner)) j h =
      by_type-Keeps inner.http_type session request pending inner s j h

  handle_inner-Keeps :
      (session request : Bytes) (s : Defs.Server e.World)
      → Keeps session s (Defs.handle_inner e config uuid session request s)
  unfolding Defs.handle_inner
  handle_inner-Keeps session request s j h = elim (Option-cases (find header_end request)) [
    | inl e' ↦
        rw (e', Defs.handle_inner) (ap (lookup j) (sessions-make_encrypted e config uuid _ _ _ _))
    | inr (i, e') ↦
        rw (e', Defs.handle_inner)
          (inner_detected-Keeps session request _ (record s { read_buffer = take (i + 4) request })
            _ j h)
  ]

  handle_open-Keeps :
      (session : Bytes) (request : Option Bytes) (s : Defs.Server e.World)
      → Keeps session s (Defs.handle_open e config uuid session request s)
  handle_open-Keeps session none s j h = refl
  handle_open-Keeps session (some request) s j h = handle_inner-Keeps session request s j h

  dispatch-Keeps :
      (action session text : Bytes) (s : Defs.Server e.World)
      → Keeps session s (Defs.dispatch e config uuid action session text s)
  unfolding Defs.dispatch
  dispatch-Keeps action session text s j h =
      let target = lookup session s.sessions in
      elim (Bool-cases (equal action (codes "send"))) [
        | inl a ↦ rw a (handle_send-AgreeBut e config uuid session text target s j h.named)
        | inr a ↦ rw a (elim (Bool-cases (equal action (codes "recv"))) [
          | inl b ↦ rw b (ap (lookup j) (sessions-handle_recv e config uuid target s))
          | inr b ↦ rw b (elim (Bool-cases (equal action (codes "close"))) [
            | inl c ↦ rw c (handle_close-AgreeBut e config uuid session target s j h.named)
            | inr c ↦ rw c (handle_open-Keeps session (hex_to_ascii text) s j h)
          ])
        ])
      ]

  decrypted-Keeps :
      (action session : Bytes) (s : Defs.Server e.World) (d : Except BoolStr × e.World)
      → Keeps session s (Defs.decrypted e config uuid action session s d)
  decrypted-Keeps action session s (throw, w) j h =
      ap (lookup j) (sessions-make_plain e config uuid _ _ _ _)
  decrypted-Keeps action session s (ok r, w) j h = elim (Bool-cases r.good) [
    | inl g ↦ rw g (dispatch-Keeps action session r.text (record s { world = w }) j h)
    | inr b ↦ rw b (ap (lookup j) (sessions-make_plain e config uuid _ _ _ _))
  ]

  decoded-Keeps :
      (action session : Bytes) (s : Defs.Server e.World) (text : Option Bytes)
      → Keeps session s (Defs.decoded e config uuid action session s text)
  decoded-Keeps action session s none j h =
      ap (lookup j) (sessions-make_plain e config uuid _ _ _ _)
  decoded-Keeps action session s (some text) j h = decrypted-Keeps action session s _ j h

  detected-Keeps :
      (s : Defs.Server e.World) (d : Except (Bool × Http))
      → Keeps
          (get_raw_header (Defs.outer_headers e config uuid s.read_buffer) (codes "X-Nipo-Session"))
          s
          (Defs.detected e config uuid s d)
  detected-Keeps s throw j h = refl
  detected-Keeps s (ok (false, outer)) j h = unfold Defs.close_client in refl
  detected-Keeps s (ok (true, outer)) j h = decoded-Keeps _ _ s _ j h

  -- Whatever request the server handles, and whether the call returns or throws, every session
  -- keeps its client but the one that the `X-Nipo-Session` header names and, where that is empty,
  -- the one that is named after the connection.
  pub handle_isolated :
      (s : Defs.Server e.World) (j : Bytes)
      → Another
          (get_raw_header (Defs.outer_headers e config uuid s.read_buffer) (codes "X-Nipo-Session"))
          j
      → lookup j (after (Defs.handle e config uuid s)).sessions ≡ lookup j s.sessions
  unfolding Defs.handle
  handle_isolated s j h = detected-Keeps s (detect_type e.parse_request s.read_buffer new_http) j h
