-- ===== src/Connection/Tunnel/Posted.antt =====
-- What an exchange of a tunnel leaves: an answer that was read over a connection which stays open
-- exactly if it is to be kept, or nothing.
use nipovpn.Base.{◌≡◌, false, ◌⊎◌, Option, none, some, [], Bytes, is_empty}
use nipovpn.Env.{Env, Except, ok, throw}
use nipovpn.Config.{Config}
use nipovpn.Client.Defs
use nipovpn.Client.Defs.{
  Client, is_open, enable_tls_client, do_connect, do_handshake_client, do_write,
}
use nipovpn.Client.Invariant.{IsConsistent}
use nipovpn.Relay.{relay_answer}
use nipovpn.Connection.{Connection}
use nipovpn.Connection.Tunnel

module _ (e : Env) (config : Config) (uuid : Bytes) where
  -- The response that was read last, which is not empty, over a connection that is open exactly if it
  -- is kept alive.
  pub record Received (action response : Bytes) (c : Client) : Type 0 where
    pub read : response ≡ c.read_buffer
    pub filled : is_empty response ≡ false
    pub kept : is_open c ≡ Tunnel.keeps_alive e config uuid action

  abbrev pub Responds : Bytes → Tunnel.Response e config uuid → Type 0
  Responds action none = Unit
  Responds action (some (response, c, w)) =
      IsConsistent c × ((response ≡ []) ⊎ Received action response c)

  abbrev K : Type 0
  K = Connection e.World

  -- The answer that the last response decrypts to.
  pub record Decrypted (action text : Bytes) (s : K) : Type 0 where
    pub answer : (w : e.World) × ((relay_answer e config s.client.read_buffer w).0 ≡ ok (some text))
    pub kept : is_open s.client ≡ Tunnel.keeps_alive e config uuid action

  abbrev pub Posts : Bytes → Option (Except Bytes × K) → Type 0
  Posts action none = Unit
  Posts action (some (throw, s)) = IsConsistent s.client
  Posts action (some (ok text, s)) = IsConsistent s.client × ((text ≡ []) ⊎ Decrypted action text s)
