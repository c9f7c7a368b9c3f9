-- ===== src/Connection/Serving/Order.antt =====
-- The direct tunnel of a connection at the server, `relayAgentToTarget` and `relayTargetToAgent`: what
-- is read at one end is what is written at the other, in its order.
use nipovpn.Base.{
  ℕ, ◌≤◌, ◌≡◌, refl, sym, ◌∙◌, ap, subst, Bool, true, false, Option, none, some, List, [], ◌∷◌,
  ◌++◌, append-nil, Bytes, if_split, arith,
}
use nipovpn.Env.{Env, NetError, Stream, Outcome, returned, threw}
use nipovpn.Config.{Config}
use nipovpn.Server.Sessions.{Sessions}
use nipovpn.Server.Defs
use nipovpn.Server.Defs.{Server}
use nipovpn.Connection
use nipovpn.Connection.{Connection}
use nipovpn.Connection.Accepting
use nipovpn.Connection.Accepting.{accept_server}
use nipovpn.Connection.Serving
use nipovpn.Connection.Serving.{
  Started, request_read, response_write, agent_read, target_write, target_read, agent_write,
  Completed, request_arrived, response_written, agent_sent, target_sent, agent_written,
  target_written,
}
use nipovpn.Connection.Serving.Runs.{
  Ends, request, response, from_agent, from_target, to_agent, to_target, Reach, accepted, completed,
  timed_out, elsewhere,
}
use nipovpn.Connection.Serving.Directions.{
  Direction, upward, downward, written, read, load, written-append, read-append, load-append,
  bytes_in-request, bytes_in-response, Passes,
}

module _ (e : Env) (config : Config) (uuid : Bytes) where
  agent_sent-Passes :
      (d : Direction) (bytes : Bytes) (error : Option NetError) (m : Sessions)
      (s : Connection e.World)
      → Passes d agent_read
          (agent_sent bytes error)
          (Serving.after_relay_read e config uuid target_write bytes error m s).0
  agent_sent-Passes upward bytes (some error) m s = (refl, omega arith)
  agent_sent-Passes upward [] none m s = (refl, omega arith)
  agent_sent-Passes upward (b ∷ bytes) none m s = (append-nil (b ∷ bytes), omega arith)
  agent_sent-Passes downward bytes (some error) m s = (refl, omega arith)
  agent_sent-Passes downward [] none m s = (refl, omega arith)
  agent_sent-Passes downward (b ∷ bytes) none m s = (refl, omega arith)

  target_sent-Passes :
      (d : Direction) (bytes : Bytes) (error : Option NetError) (m : Sessions)
      (s : Connection e.World)
      → Passes d target_read
          (target_sent bytes error)
          (Serving.after_relay_read e config uuid agent_write bytes error m s).0
  target_sent-Passes downward bytes (some error) m s = (refl, omega arith)
  target_sent-Passes downward [] none m s = (refl, omega arith)
  target_sent-Passes downward (b ∷ bytes) none m s = (append-nil (b ∷ bytes), omega arith)
  target_sent-Passes upward bytes (some error) m s = (refl, omega arith)
  target_sent-Passes upward [] none m s = (refl, omega arith)
  target_sent-Passes upward (b ∷ bytes) none m s = (refl, omega arith)

  target_written-Passes :
      (d : Direction) (bytes : Bytes) (error : Option NetError) (m : Sessions)
      (s : Connection e.World)
      → Passes d
          (target_write bytes)
          (target_written error)
          (Serving.after_relay_write e config uuid agent_read error m s).0
  target_written-Passes upward bytes error m s = ground arith
  target_written-Passes downward bytes error m s = ground arith

  agent_written-Passes :
      (d : Direction) (bytes : Bytes) (error : Option NetError) (m : Sessions)
      (s : Connection e.World)
      → Passes d
          (agent_write bytes)
          (agent_written error)
          (Serving.after_relay_write e config uuid target_read error m s).0
  agent_written-Passes upward bytes error m s = ground arith
  agent_written-Passes downward bytes error m s = ground arith

module _ (e : Env) (config : Config) (uuid : Bytes) (d : Direction) where
  abbrev K : Type 0
  K = Connection e.World

  -- What a callback starts writes nothing, and needs no more than one of the buffers.
  abbrev Quiet : Serving.Next e config uuid → Type 0
  Quiet (ops, m, s) = (written d ops ≡ []) × (load d ops ≤ 1)

  abbrev QuietIfDone : Option (Serving.Next e config uuid) → Type 0
  QuietIfDone none = Unit
  QuietIfDone (some n) = Quiet n

  do_read_server-Quiet : (m : Sessions) (s : K) → Quiet (Serving.do_read_server e config uuid m s)
  unfolding Serving.do_read_server
  do_read_server-Quiet m s = ground arith

  respond-Quiet : (m : Sessions) (s : K) → Quiet (Serving.respond e config uuid m s)
  respond-Quiet m s = ground arith

  handled-Quiet : (s : K) (o : Outcome (Server e.World)) → Quiet (Serving.handled e config uuid s o)
  handled-Quiet s (threw h) = (refl, omega arith)
  handled-Quiet s (returned h) =
      respond-Quiet h.sessions (record (Serving.back_from e config uuid h s) {
        end_flag = h.end_flag;
        connect_flag = h.connect_flag;
      })

  peer_named-Quiet :
      (m : Sessions) (s : K) (r : Bool × e.World) → Quiet (Serving.peer_named e config uuid m s r)
  peer_named-Quiet m s (false, w) = (refl, omega arith)
  peer_named-Quiet m s (true, w) =
      handled-Quiet (record s { world = w }) (Defs.handle e config uuid _)

  body_read-Quiet :
      (m : Sessions) (s : K) (stream : Stream) (r : Option (Bool × Bytes × e.World))
      → QuietIfDone (Serving.body_read e config uuid m s stream r)
  body_read-Quiet m s stream none = tt
  body_read-Quiet m s stream (some (false, buffer, w)) = (refl, omega arith)
  body_read-Quiet m s stream (some (true, buffer, w)) =
      peer_named-Quiet m (record s { read_buffer = buffer; world = w }) _

  request_from-Quiet :
      (fuel : ℕ) (m : Sessions) (s : K) (stream : Option Stream)
      → QuietIfDone (Serving.request_from e config uuid fuel m s stream)
  request_from-Quiet fuel m s none = (refl, omega arith)
  request_from-Quiet fuel m s (some stream) = body_read-Quiet m s stream _

  handle_read_server-Quiet :
      (fuel : ℕ) (error : Option NetError) (m : Sessions) (s : K)
      → QuietIfDone (Serving.handle_read_server e config uuid fuel error m s)
  unfolding Serving.handle_read_server
  handle_read_server-Quiet fuel (some error) m s = (refl, omega arith)
  handle_read_server-Quiet fuel none m s =
      request_from-Quiet fuel m (Connection.cancel_timeout e config s)
        (Serving.stream_of e config uuid s)

  go_on-Quiet : (m : Sessions) (s : K) → Quiet (Serving.go_on e config uuid m s)
  unfolding Serving.do_read_server
  go_on-Quiet m s = ground arith

  abbrev PassesIfDone : Started → Completed → Option (Serving.Next e config uuid) → Type 0
  PassesIfDone op event none = Unit
  PassesIfDone op event (some n) = Passes d op event n.0

  request-Passes :
      (bytes : Bytes) (error : Option NetError) (o : Option (Serving.Next e config uuid))
      → QuietIfDone o
      → PassesIfDone request_read (request_arrived bytes error) o
  request-Passes bytes error none q = tt
  request-Passes bytes error (some n) q = (q.0 ∙ sym (bytes_in-request d bytes error), q.1)

  response-Passes :
      (error : Option NetError) (m : Sessions) (s : K)
      → Passes d response_write
          (response_written error)
          (Serving.after_response e config uuid error m s).0
  response-Passes (some error) m s = (sym (bytes_in-response d (some error)), omega arith)
  response-Passes none m s = let q = go_on-Quiet m s in (q.0 ∙ sym (bytes_in-response d none), q.1)

  complete-Passes :
      {op : Started} (fuel : ℕ) (event : Completed) (m : Sessions) (s : K)
      → Ends op event
      → PassesIfDone op event (Serving.complete e config uuid fuel event m s)
  unfolding Serving.complete
  complete-Passes fuel (request_arrived bytes error) m s request =
      request-Passes bytes error _
        (handle_read_server-Quiet fuel error m (record s { read_buffer = bytes }))
  complete-Passes fuel (response_written error) m s response =
      response-Passes error m (Connection.cancel_timeout e config s)
  complete-Passes fuel (agent_sent bytes error) m s from_agent =
      agent_sent-Passes e config uuid d bytes error m s
  complete-Passes fuel (target_sent bytes error) m s from_target =
      target_sent-Passes e config uuid d bytes error m s
  complete-Passes fuel (target_written error) m s (to_target {bytes = bytes}) =
      target_written-Passes e config uuid d bytes error m s
  complete-Passes fuel (agent_written error) m s (to_agent {bytes = bytes}) =
      agent_written-Passes e config uuid d bytes error m s

  -- The acceptance.
  handshaken-Quiet : (m : Sessions) (r : Bool × K) → Quiet (Accepting.handshaken e config uuid m r)
  unfolding Accepting.start_server
  handshaken-Quiet m (false, s) = (refl, omega arith)
  handshaken-Quiet m (true, s) = do_read_server-Quiet m (Accepting.named e config uuid s)

  secured-Quiet : (m : Sessions) (r : Bool × K) → Quiet (Accepting.secured e config uuid m r)
  secured-Quiet m (false, s) = (refl, omega arith)
  secured-Quiet m (true, s) =
      handshaken-Quiet m
        (Accepting.do_handshake_server e config uuid (Accepting.moved e config uuid s.socket s))

  accept_server-Quiet : (m : Sessions) (s : K) → Quiet (accept_server e config uuid none m s)
  unfolding accept_server Accepting.start_server
  accept_server-Quiet m s =
      if_split Quiet config.general.tls_enable
        (secured-Quiet m (Accepting.init_tls_server_context e config uuid s))
        (do_read_server-Quiet m (Accepting.named e config uuid s))

  -- What was handed to the writes of the direction is what was read for it, and one operation at most
  -- uses its buffer.
  pub record InOrder (events : List Completed) (issued ops : List Started) : Type 0 where
    pub delivered : written d issued ≡ read d events
    pub alone : load d ops ≤ 1

  completed-InOrder :
      (events : List Completed) (issued before after : List Started) (op : Started)
      (event : Completed) (new : List Started)
      → InOrder events issued (before ++ (op ∷ after))
      → Passes d op event new
      → InOrder (events ++ (event ∷ [])) (issued ++ new) (before ++ (after ++ new))
  completed-InOrder events issued before after op event new o p = record {
    delivered =
        written-append d issued new
        ∙ ap (◌++◌ (written d issued)) p.0
        ∙ rw (o.delivered, read-append d events (event ∷ [])) (simp append-nil);
    alone = omega (
      arith,
      o.alone,
      p.1,
      load-append d before (op ∷ after),
      load-append d before (after ++ new),
      load-append d after new,
    );
  }

  -- In every state that a connection at the server can reach from its acceptance, and in either
  -- direction of its direct tunnel, the bytes that were handed to the writes at one end are those
  -- that were read at the other, in their order, and at most one operation that uses the
  -- direction's buffer, or leads to one, is under way.
  pub Reach-InOrder :
      {events : List Completed} {issued ops : List Started} {s : K}
      → Reach e config uuid events issued ops s
      → InOrder events issued ops
  Reach-InOrder (accepted m s h) =
      let q = accept_server-Quiet m s in record { delivered = q.0; alone = q.1 }
  Reach-InOrder (completed events issued before after op event fuel m s new m' s' r ends h) =
      completed-InOrder events issued before after op event new (Reach-InOrder r)
        (subst (PassesIfDone op event) h (complete-Passes fuel event m s ends))
  Reach-InOrder (timed_out events issued ops error s r) =
      let o = Reach-InOrder r in record { delivered = o.delivered; alone = o.alone }
  Reach-InOrder (elsewhere events issued ops s w r) =
      let o = Reach-InOrder r in record { delivered = o.delivered; alone = o.alone }
