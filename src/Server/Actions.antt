-- ===== src/Server/Actions.antt =====
-- What a request does to the sessions: each of the four actions on its own session, and no request
-- on another one.
use nipovpn.Base.{
  ◌≡◌, refl, ◌∙◌, ap, false, Option, none, some, Bytes, equal, equal_iff, arith, Bool-cases,
  Option-cases, inl, inr,
}
use nipovpn.Env.{Env}
use nipovpn.Config.{Config}
use nipovpn.Codec.{hex_to_ascii}
use nipovpn.Client.Defs.{Client, is_open, do_write}
use nipovpn.Server.Sessions.{Sessions, lookup, insert, erase, lookup-insert, lookup-erase}
use nipovpn.Server.Defs

-- The state that a call leaves, whether it returned or threw.
abbrev pub after : {S : Type 0} → Defs.Outcome S → S
after (Defs.returned s) = s
after (Defs.threw s) = s

-- Two maps agree at every name but one.
abbrev pub AgreeBut : Bytes → Sessions → Sessions → Type 0
AgreeBut k m n = (j : Bytes) → equal k j ≡ false → lookup j n ≡ lookup j m

insert-AgreeBut : (k : Bytes) (c : Client) (m : Sessions) → AgreeBut k m (insert k c m)
insert-AgreeBut k c m j h = lookup-insert k j c m ∙ rw h

erase-AgreeBut : (k : Bytes) (m : Sessions) → AgreeBut k m (erase k m)
erase-AgreeBut k m j h = lookup-erase k j m ∙ rw h

module _ (e : Env) (config : Config) (uuid : Bytes) where
  -- Making a response leaves the sessions and the client alone.
  pub sessions-make_encrypted :
      (plain status connection : Bytes) (s : Defs.Server e.World)
      → (Defs.make_encrypted_http_response e config uuid plain status connection s).sessions
        ≡ s.sessions
  unfolding Defs.make_encrypted_http_response
  sessions-make_encrypted plain status connection s = ground arith

  pub sessions-respond_closed :
      (plain status connection : Bytes) (s : Defs.Server e.World)
      → (Defs.make_encrypted_http_response e config uuid plain status connection
          (Defs.close_client e config uuid s)).sessions
        ≡ s.sessions
  unfolding Defs.close_client
  sessions-respond_closed plain status connection s = sessions-make_encrypted _ _ _ _

  pub sessions-make_plain :
      (body status connection : Bytes) (s : Defs.Server e.World)
      → (Defs.make_plain_http_response e config uuid body status connection s).sessions ≡ s.sessions
  unfolding Defs.make_plain_http_response
  sessions-make_plain body status connection s = refl

  pub handle_send-AgreeBut :
      (session text : Bytes) (target : Option Client) (s : Defs.Server e.World)
      → AgreeBut session s.sessions
          (after (Defs.handle_send e config uuid session text target s)).sessions
  unfolding Defs.handle_send
  handle_send-AgreeBut session text none s j h = ap (lookup j) (sessions-make_encrypted _ _ _ s)
  handle_send-AgreeBut session text (some target) s j h = elim (Bool-cases (is_open target)) [
    | inr shut ↦ rw shut (ap (lookup j) (sessions-make_encrypted _ _ _ s))
    | inl up ↦ rw up (elim (Option-cases (hex_to_ascii text)) [
      | inl bad ↦ rw bad
      | inr (bytes, good) ↦ rw good (
          ap (lookup j) (sessions-make_encrypted _ _ _ _)
          ∙ insert-AgreeBut session (do_write e config bytes target s.world).1 s.sessions j h)
    ])
  ]

  pub sessions-handle_recv :
      (target : Option Client) (s : Defs.Server e.World)
      → (Defs.handle_recv e config uuid target s).sessions ≡ s.sessions
  unfolding Defs.handle_recv
  sessions-handle_recv target s = grind (arith, sessions-make_encrypted)

  pub handle_close-AgreeBut :
      (session : Bytes) (target : Option Client) (s : Defs.Server e.World)
      → AgreeBut session s.sessions (Defs.handle_close e config uuid session target s).sessions
  unfolding Defs.handle_close
  handle_close-AgreeBut session none s j h = ap (lookup j) (sessions-make_encrypted _ _ _ s)
  handle_close-AgreeBut session (some target) s j h =
      ap (lookup j) (sessions-make_encrypted _ _ _ _) ∙ erase-AgreeBut session s.sessions j h

  -- After the action `close` the server keeps no session of that name, whether it kept one before
  -- or not.
  handle_close-gone :
      (session : Bytes) (s : Defs.Server e.World)
      → lookup session
          (Defs.handle_close e config uuid session (lookup session s.sessions) s).sessions
        ≡ none
  unfolding Defs.handle_close
  handle_close-gone session s = elim (Option-cases (lookup session s.sessions)) [
    | inl missing ↦ rw missing (ap (lookup session) (sessions-make_encrypted _ _ _ s) ∙ missing)
    | inr (target, present) ↦ rw present (
        ap (lookup session) (sessions-make_encrypted _ _ _ _)
        ∙ lookup-erase session session s.sessions
        ∙ rw ((equal_iff {s = session} {t = session}).1 refl))
  ]
