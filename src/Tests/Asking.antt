-- ===== src/Tests/Asking.antt =====
-- A connection at the agent, from its acceptance to a request whose read fails.
use nipovpn.Base.{refl, false, some, [], codes, arith}
use nipovpn.Env.{eof}
use nipovpn.Connection
use nipovpn.Connection.{Connection}
use nipovpn.Connection.Accepting.{named, accept_agent}
use nipovpn.Connection.Asking
use nipovpn.Connection.Asking.{request_read, request_arrived}
use nipovpn.Connection.Asking.Runs
use nipovpn.Connection.Asking.Runs.{Reach, GoesOn, Reach-GoesOn, completed, request}
use nipovpn.Tests.World.{env, config}
use nipovpn.Tests.Connection.{accepted}

abbrev asked : Connection env.World
asked = (Asking.do_read_agent env config (codes "u-1") (named env config (codes "u-1") accepted)).1

abbrev failed : Connection env.World
failed = Connection.socket_shutdown env config (Connection.cancel_timeout env config asked)

failed-Reach : Reach env config (codes "u-1") false [] failed
unfolding accept_agent Asking.complete Asking.handle_read_agent Connection.reset_timeout
failed-Reach =
    completed false [] [] request_read (request_arrived [] (some eof)) 0 asked [] failed
      (Runs.accepted accepted (refl, refl)) request (λ h. ground arith) refl

Reach-GoesOn_example : GoesOn env config (codes "u-1") false [] failed
Reach-GoesOn_example = Reach-GoesOn env config (codes "u-1") failed-Reach
