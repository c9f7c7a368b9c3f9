-- ===== src/Server/Lifetimes.antt =====
-- The sessions over a run of the server: any number of requests, over any connections, each handled
-- by a handler in whatever state of its own.
use nipovpn.Base.{
  some_inj, ℕ, ◌≡◌, refl, sym, false, none, some, [], ◌∷◌, Bytes, equal, arith, Bool-cases, inl,
  inr,
}
use nipovpn.Env.{Env}
use nipovpn.Config.{Config}
use nipovpn.Client.Defs.{Client, new_client, no_stream, do_connect, do_write}
use nipovpn.Client.Invariant.{IsConsistent, do_connect-IsConsistent, do_write-IsConsistent}
use nipovpn.Server.Sessions.{Sessions, lookup}
use nipovpn.Server.Defs
use nipovpn.Server.Actions.{after}
use nipovpn.Server.View.{View, view, update, Step, kept, opened, written, closed}
use nipovpn.Server.Refinement.{handle_refines}

-- A connection without TLS, in a state that the methods of a client keep.
pub record IsPlain (c : Client) : Type 0 where
  pub consistent : IsConsistent c
  pub no_tls : c.tls_enabled ≡ false
  pub no_ssl : c.ssl ≡ no_stream

pub AllPlain : View → Type 0
AllPlain v = (k : Bytes) (c : Client) → v k ≡ some c → IsPlain c

new_client-IsPlain : (uuid : Bytes) → IsPlain (record new_client { uuid = uuid })
new_client-IsPlain uuid = record { consistent = ground arith; no_tls = refl; no_ssl = refl }

update-AllPlain :
    (k : Bytes) (d : Client) (v : View) → IsPlain d → AllPlain v → AllPlain (update k (some d) v)
unfolding AllPlain
update-AllPlain k d v p all j c = elim (Bool-cases (equal k j)) [
  | inl same ↦ rw same (λ h. rw (sym (some_inj h)) p)
  | inr other ↦ rw other (all j c)
]

update-none-AllPlain : (k : Bytes) (v : View) → AllPlain v → AllPlain (update k none v)
unfolding AllPlain
update-none-AllPlain k v all j c = elim (Bool-cases (equal k j)) [
  | inl same ↦ rw same (λ h. ground arith)
  | inr other ↦ rw other (all j c)
]

module _ (e : Env) (config : Config) where
  do_connect-IsPlain :
      (dst : Bytes) (port : ℕ) (c : Client) (w : e.World)
      → IsPlain c
      → IsPlain (do_connect e config dst port c w).1
  unfolding do_connect
  do_connect-IsPlain dst port c w p = record {
    consistent = do_connect-IsConsistent e config dst port c w p.consistent;
    no_tls = ground (arith, p.no_tls, p.no_ssl);
    no_ssl = ground (arith, p.no_tls, p.no_ssl);
  }

  do_write-IsPlain :
      (bytes : Bytes) (c : Client) (w : e.World)
      → IsPlain c
      → IsPlain (do_write e config bytes c w).1
  unfolding do_write
  do_write-IsPlain bytes c w p = record {
    consistent = do_write-IsConsistent e config bytes c w p.consistent;
    no_tls = ground (arith, p.no_tls, p.no_ssl);
    no_ssl = ground (arith, p.no_tls, p.no_ssl);
  }

  flush_pending-IsPlain :
      (uuid pending : Bytes) (c : Client) (w : e.World)
      → IsPlain c
      → IsPlain (Defs.flush_pending e config uuid pending c w).1
  flush_pending-IsPlain uuid [] c w p = p
  flush_pending-IsPlain uuid (b ∷ bytes) c w p = do_write-IsPlain (b ∷ bytes) c w p

  Step-AllPlain :
      (uuid action session : Bytes) (v v' : View)
      → Step e config uuid action session v v'
      → AllPlain v
      → AllPlain v'
  unfolding AllPlain
  Step-AllPlain uuid action session v v' (kept same) all = rw same all
  Step-AllPlain uuid action session v v' (opened dst port pending w _ _ _ _ _ same) all =
      let connected = do_connect-IsPlain dst port _ w (new_client-IsPlain uuid) in
      rw same (update-AllPlain _ _ v (flush_pending-IsPlain uuid pending _ _ connected) all)
  Step-AllPlain uuid action session v v' (written d bytes w _ there _ same) all =
      rw same (update-AllPlain session _ v (do_write-IsPlain bytes d w (all session d there)) all)
  Step-AllPlain uuid action session v v' (closed d _ _ same) all =
      rw same (update-none-AllPlain session v all)

  -- The sessions after some requests.
  pub data Served : Sessions → Type 0 where
    started : Served []
    handled :
        (uuid : Bytes) (s : Defs.Server e.World)
        → Served s.sessions
        → Served (after (Defs.handle e config uuid s)).sessions

  Served-AllPlain : {m : Sessions} → Served m → AllPlain (view m)
  unfolding lookup AllPlain
  Served-AllPlain started = λ k c h. ground arith
  Served-AllPlain (handled uuid s r) =
      Step-AllPlain uuid _ _ _ _ (handle_refines e config uuid s) (Served-AllPlain r)

  -- Whatever requests the server has handled, over any connections, each connection that it keeps
  -- as a session is in a consistent state and without TLS.
  pub lookup-served :
      {m : Sessions} (k : Bytes) (c : Client) → Served m → lookup k m ≡ some c → IsPlain c
  unfolding AllPlain
  lookup-served k c r h = Served-AllPlain r k c h
