-- ===== src/Server/Responses.antt =====
-- What the two response functions change, and that every request which is recognised gets a
-- response, errors included.
use nipovpn.Base.{
  ◌⊎◌, ◌≡◌, Bool, true, false, Option, none, some, Bytes, codes, equal, is_empty, arith, Bool-cases,
  Option-cases, inl, inr,
}
use nipovpn.Text.{starts_with, find}
use nipovpn.HttpUtils.{header_end}
use nipovpn.Env.{Env, Except, ok, throw}
use nipovpn.Crypto.{BoolStr}
use nipovpn.Config.{Config}
use nipovpn.Codec.{hex_to_ascii}
use nipovpn.Http.{Http, HttpType, https, http, connect, new_http, detect_type}
use nipovpn.Client.Defs.{Client, is_open, socket_open, do_connect}
use nipovpn.Server.Sessions.{lookup}
use nipovpn.Server.Defs

-- The handler answered: its buffer holds a response, it is not at its end, and it asks for a direct
-- tunnel only if the configuration allows one.
pub record Responds (config : Config) {W : Type 0} (s : Defs.Server W) : Type 0 where
  pub status_line : starts_with (codes "HTTP/1.1 ") s.write_buffer ≡ true
  pub open_ended : s.end_flag ≡ false
  pub tunnel : (s.connect_flag ≡ false) ⊎ (config.general.tunnel_enable ≡ true)

abbrev pub AllReturned : {S : Type 0} → (S → Type 0) → Defs.Outcome S → Type 0
AllReturned P (Defs.returned s) = P s
AllReturned P (Defs.threw s) = Unit

module _ (e : Env) (config : Config) (uuid : Bytes) where
  make_plain_http_response-Responds :
      (body status connection : Bytes) (s : Defs.Server e.World)
      → Responds config (Defs.make_plain_http_response e config uuid body status connection s)
  unfolding Defs.make_plain_http_response starts_with
  make_plain_http_response-Responds body status connection s = ground arith

  pub make_encrypted_http_response-Responds :
      (plain status connection : Bytes) (s : Defs.Server e.World)
      → Responds config (Defs.make_encrypted_http_response e config uuid plain status connection s)
  unfolding Defs.make_encrypted_http_response starts_with
  make_encrypted_http_response-Responds plain status connection s = ground arith

  handle_send-Responds :
      (session text : Bytes) (target : Option Client) (s : Defs.Server e.World)
      → AllReturned (Responds config) (Defs.handle_send e config uuid session text target s)
  unfolding Defs.handle_send
  handle_send-Responds session text none s = make_encrypted_http_response-Responds _ _ _ _
  handle_send-Responds session text (some target) s = elim (Bool-cases (is_open target)) [
    | inl e' ↦ rw e' (elim (Option-cases (hex_to_ascii text)) [
      | inl bad ↦ rw bad tt
      | inr (bytes, good) ↦ rw good (make_encrypted_http_response-Responds _ _ _ _)
    ])
    | inr e' ↦ rw e' (make_encrypted_http_response-Responds _ _ _ _)
  ]

  handle_recv-Responds :
      (target : Option Client) (s : Defs.Server e.World)
      → Responds config (Defs.handle_recv e config uuid target s)
  unfolding Defs.handle_recv
  handle_recv-Responds target s = grind (arith, make_encrypted_http_response-Responds)

  handle_close-Responds :
      (session : Bytes) (target : Option Client) (s : Defs.Server e.World)
      → Responds config (Defs.handle_close e config uuid session target s)
  unfolding Defs.handle_close
  handle_close-Responds session target s = make_encrypted_http_response-Responds _ _ _ _

  relay_answer-Responds :
      (s : Defs.Server e.World) → Responds config (Defs.relay_answer e config uuid s)
  relay_answer-Responds s = elim (Bool-cases (is_empty s.client.read_buffer)) [
    | inl b ↦ rw b (make_encrypted_http_response-Responds _ _ _ _)
    | inr b ↦ rw b (make_encrypted_http_response-Responds _ _ _ _)
  ]

  ask-Responds : (s : Defs.Server e.World) → Responds config (Defs.ask e config uuid s)
  ask-Responds s = relay_answer-Responds _

  asked-Responds :
      (s : Defs.Server e.World) (r : Bool × Client × e.World)
      → Responds config (Defs.asked e config uuid s r)
  asked-Responds s (true, c, w) = ask-Responds (record s { client = c; world = w })
  asked-Responds s (false, c, w) = make_encrypted_http_response-Responds _ _ _ _

  forward-Responds :
      (inner : Http) (s : Defs.Server e.World)
      → Responds config (Defs.forward e config uuid inner s)
  forward-Responds inner s = elim (Bool-cases (socket_open s.client.socket)) [
    | inl up ↦ rw up (ask-Responds s)
    | inr shut ↦
        rw shut
          (asked-Responds s (do_connect e config inner.dst_ip inner.dst_port s.client s.world))
  ]

  connect-Responds :
      (session request pending : Bytes) (inner : Http) (s : Defs.Server e.World)
      → Responds config (Defs.by_type e config uuid connect session request pending inner s)
  connect-Responds session request pending inner s =
      grind (arith, make_encrypted_http_response-Responds)

  by_type-Responds :
      (t : HttpType) (session request pending : Bytes) (inner : Http) (s : Defs.Server e.World)
      → Responds config (Defs.by_type e config uuid t session request pending inner s)
  by_type-Responds connect session request pending inner s =
      connect-Responds session request pending inner s
  by_type-Responds http session request pending inner s = forward-Responds inner _
  by_type-Responds https session request pending inner s = forward-Responds inner _

  inner_detected-Responds :
      (session request pending : Bytes) (s : Defs.Server e.World) (d : Except (Bool × Http))
      → AllReturned
          (Responds config)
          (Defs.inner_detected e config uuid session request pending s d)
  inner_detected-Responds session request pending s throw = tt
  inner_detected-Responds session request pending s (ok (false, inner)) =
      make_encrypted_http_response-Responds _ _ _ _
  inner_detected-Responds session request pending s (ok (true, inner)) =
      by_type-Responds inner.http_type session request pending inner s

  handle_inner-Responds :
      (session request : Bytes) (s : Defs.Server e.World)
      → AllReturned (Responds config) (Defs.handle_inner e config uuid session request s)
  unfolding Defs.handle_inner
  handle_inner-Responds session request s = elim (Option-cases (find header_end request)) [
    | inl e' ↦ rw (e', Defs.handle_inner) (make_encrypted_http_response-Responds _ _ _ _)
    | inr (i, e') ↦ rw (e', Defs.handle_inner) (inner_detected-Responds session request _ _ _)
  ]

  handle_open-Responds :
      (session : Bytes) (request : Option Bytes) (s : Defs.Server e.World)
      → AllReturned (Responds config) (Defs.handle_open e config uuid session request s)
  handle_open-Responds session none s = tt
  handle_open-Responds session (some request) s = handle_inner-Responds session request s

  dispatch-Responds :
      (action session text : Bytes) (s : Defs.Server e.World)
      → AllReturned (Responds config) (Defs.dispatch e config uuid action session text s)
  unfolding Defs.dispatch
  dispatch-Responds action session text s = elim (Bool-cases (equal action (codes "send"))) [
    | inl a ↦ rw a (handle_send-Responds session text (lookup session s.sessions) s)
    | inr a ↦ rw a (elim (Bool-cases (equal action (codes "recv"))) [
      | inl b ↦ rw b (handle_recv-Responds (lookup session s.sessions) s)
      | inr b ↦ rw b (elim (Bool-cases (equal action (codes "close"))) [
        | inl c ↦ rw c (handle_close-Responds session (lookup session s.sessions) s)
        | inr c ↦ rw c (handle_open-Responds session (hex_to_ascii text) s)
      ])
    ])
  ]

  decrypted-Responds :
      (action session : Bytes) (s : Defs.Server e.World) (d : Except BoolStr × e.World)
      → AllReturned (Responds config) (Defs.decrypted e config uuid action session s d)
  decrypted-Responds action session s (throw, w) = make_plain_http_response-Responds _ _ _ _
  decrypted-Responds action session s (ok r, w) = elim (Bool-cases r.good) [
    | inl g ↦ rw g (dispatch-Responds action session r.text (record s { world = w }))
    | inr b ↦ rw b (make_plain_http_response-Responds _ _ _ _)
  ]

  decoded-Responds :
      (action session : Bytes) (s : Defs.Server e.World) (text : Option Bytes)
      → AllReturned (Responds config) (Defs.decoded e config uuid action session s text)
  decoded-Responds action session s none = make_plain_http_response-Responds _ _ _ _
  decoded-Responds action session s (some text) = decrypted-Responds action session s _

  -- Whenever `handle` returns from a request that it recognises, the buffer holds a response that
  -- begins with `HTTP/1.1 `, the end flag is clear, and the flag for a direct tunnel is set only if
  -- the configuration enables tunnels.
  pub handle-Responds :
      (s : Defs.Server e.World) (h : Http)
      → detect_type e.parse_request s.read_buffer new_http ≡ ok (true, h)
      → AllReturned (Responds config) (Defs.handle e config uuid s)
  unfolding Defs.handle
  handle-Responds s h recognised = rw recognised (decoded-Responds _ _ s _)
