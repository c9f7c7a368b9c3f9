-- ===== src/Server/View.antt =====
-- What the server's sessions are to a client: a function from names to connections, without the
-- order and the repetitions of the list, and the ways in which one request may change it.
use nipovpn.Base.{
  ℕ, ◌≡◌, ◌≢◌, Bool, true, false, Option, none, some, Bytes, codes, equal, if◌then◌else◌,
}
use nipovpn.Env.{Env}
use nipovpn.Config.{Config}
use nipovpn.Client.Defs.{Client, new_client, is_open, do_connect, do_write}
use nipovpn.Server.Sessions.{Sessions, lookup, insert, erase, lookup-insert, lookup-erase}
use nipovpn.Server.Defs

abbrev pub View : Type 0
View = Bytes → Option Client

abbrev pub view : Sessions → View
view m k = lookup k m

abbrev pub update : Bytes → Option Client → View → View
update k o v j = if equal k j then o else v j

pub view-insert :
    (k : Bytes) (c : Client) (m : Sessions) → view (insert k c m) ≡ update k (some c) (view m)
view-insert k c m = λ i j. lookup-insert k j c m i

pub view-erase : (k : Bytes) (m : Sessions) → view (erase k m) ≡ update k none (view m)
view-erase k m = λ i j. lookup-erase k j m i

module _ (e : Env) (config : Config) (uuid : Bytes) where
  -- The connection that a CONNECT opens.
  abbrev pub connection_to : Bytes → ℕ → e.World → Bool × Client × e.World
  connection_to dst port = do_connect e config dst port (record new_client { uuid = uuid })

  -- A request changes nothing, or opens a connection under its session's name, or that of the
  -- connection it came over, or writes to its session's connection, or closes that.
  pub data Step (action session : Bytes) (v v' : View) : Type 0 where
    kept : v' ≡ v → Step action session v v'
    opened :
        (dst : Bytes) (port : ℕ) (pending : Bytes) (w : e.World)
        → action ≢ codes "send"
        → action ≢ codes "recv"
        → action ≢ codes "close"
        → config.general.tunnel_enable ≡ false
        → (connection_to dst port w).0 ≡ true
        → v'
          ≡ update
              (Defs.session_name e config uuid session)
              (some
                (Defs.flush_pending e config uuid pending
                  (connection_to dst port w).1
                  (connection_to dst port w).2).1)
              v
        → Step action session v v'
    written :
        (c : Client) (bytes : Bytes) (w : e.World)
        → action ≡ codes "send"
        → v session ≡ some c
        → is_open c ≡ true
        → v' ≡ update session (some (do_write e config bytes c w).1) v
        → Step action session v v'
    closed :
        (c : Client)
        → action ≡ codes "close"
        → v session ≡ some c
        → v' ≡ update session none v
        → Step action session v v'
