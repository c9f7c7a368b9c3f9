-- ===== src/Agent/Termination.antt =====
-- `AgentHandler::handle` comes to an end, whatever the fuel, where the server announces the lengths of
-- its bodies.
use nipovpn.Base.{
  ℕ, refl, ◌≢◌, [], Bool, true, false, not, ◌&&◌, Option, none, some, Bytes, if_split,
}
use nipovpn.Env.{Env, Except, ok, throw, Outcome}
use nipovpn.Config.{Config}
use nipovpn.Http.{Http, HttpType, detect_type, new_http}
use nipovpn.Client.Defs.{
  Client, is_open, do_connect, enable_tls_client, do_handshake_client, do_write,
}
use nipovpn.Client.Message.Ends.{IsUnchunked, do_read_agent-ne-none}
use nipovpn.Agent

module _ (e : Env) (config : Config) (uuid : Bytes) (law : IsUnchunked e) where
  abbrev A : Type 0
  A = Agent.AgentHandler e.World

  abbrev Done : Option (Outcome A) → Type 0
  Done o = o ≢ none

  reply_read-Done :
      (type : HttpType) (s : A) (r : Option (Bool × Client × e.World))
      → r ≢ none
      → Done (Agent.reply_read e config uuid type s r)
  reply_read-Done type s none h = absurd (h refl)
  reply_read-Done type s (some r) h = λ x. cc

  requested-Done :
      (fuel : ℕ) (type : HttpType) (s : A) (r : Option Bytes × e.World)
      → Done (Agent.requested e config uuid fuel type s r)
  requested-Done fuel type s (none, w) = λ x. cc
  requested-Done fuel type s (some raw, w) =
      let t = record (Agent.at_client e config uuid s (do_write e config raw s.client w)) {
        read_buffer = [];
      } in
      reply_read-Done type t _ (do_read_agent-ne-none e config fuel t.client t.world law)

  exchange-Done :
      (fuel : ℕ) (type : HttpType) (s : A) → Done (Agent.exchange e config uuid fuel type s)
  unfolding Agent.exchange
  exchange-Done fuel type s = requested-Done fuel type s _

  after_handshake-Done :
      (fuel : ℕ) (type : HttpType) (s : A) (r : Bool × Client × e.World)
      → Done (Agent.after_handshake e config uuid fuel type s r)
  after_handshake-Done fuel type s (false, c, w) = λ x. cc
  after_handshake-Done fuel type s (true, c, w) = exchange-Done fuel type _

  after_connect-Done :
      (fuel : ℕ) (type : HttpType) (s : A) (r : Bool × Client × e.World)
      → Done (Agent.after_connect e config uuid fuel type s r)
  after_connect-Done fuel type s (false, c, w) = λ x. cc
  after_connect-Done fuel type s (true, c, w) =
      if_split Done c.tls_enabled
        (after_handshake-Done fuel type s (do_handshake_client e config c w))
        (exchange-Done fuel type _)

  connected-Done :
      (fuel : ℕ) (type : HttpType) (s : A) → Done (Agent.connected e config uuid fuel type s)
  connected-Done fuel type s =
      if_split Done (not (is_open s.client))
        (after_connect-Done fuel type s
          (do_connect e config config.agent.server_ip config.agent.server_port s.client s.world))
        (exchange-Done fuel type s)

  after_tls-Done :
      (fuel : ℕ) (type : HttpType) (s : A) (r : Bool × Client × e.World)
      → Done (Agent.after_tls e config uuid fuel type s r)
  after_tls-Done fuel type s (false, c, w) = λ x. cc
  after_tls-Done fuel type s (true, c, w) = connected-Done fuel type _

  secured-Done :
      (fuel : ℕ) (type : HttpType) (s : A) → Done (Agent.secured e config uuid fuel type s)
  secured-Done fuel type s =
      if_split Done (config.general.tls_enable && not s.client.tls_enabled)
        (after_tls-Done fuel type s (enable_tls_client e config s.client s.world))
        (connected-Done fuel type s)

  detected-Done :
      (fuel : ℕ) (s : A) (d : Except (Bool × Http)) → Done (Agent.detected e config uuid fuel s d)
  detected-Done fuel s throw = λ x. cc
  detected-Done fuel s (ok (false, request)) = λ x. cc
  detected-Done fuel s (ok (true, request)) = secured-Done fuel request.http_type s

  -- Where no headers that are read from the network announce a chunked body, every call of
  -- `AgentHandler::handle` comes to an end, whatever the fuel.
  pub handle-ne-none : (fuel : ℕ) (s : A) → Agent.handle e config uuid fuel s ≢ none
  unfolding Agent.handle
  handle-ne-none fuel s = detected-Done fuel s (detect_type e.parse_request s.read_buffer new_http)
