-- ===== src/Tests/Agent.antt =====
-- An exchange of the agent with a server that gives no proper answer.
use nipovpn.Base.{equal, false, refl, [], ◌∷◌, codes}
use nipovpn.Agent
use nipovpn.Agent.{AgentHandler}
use nipovpn.Agent.Exchange.{EndsIfDone, handle-Ends}
use nipovpn.Client.Defs.{new_client}
use nipovpn.Http.{http, detect_type, parse_http, set_ip_port_as, host_of_request}
use nipovpn.Text.{starts_with}
use nipovpn.Codec.{hex_arr_to_str}
use nipovpn.Base.{none, ◌≢◌}
use nipovpn.Text.{find}
use nipovpn.Text.Lines.{lines_from, strip_cr}
use nipovpn.HttpUtils.{extract_headers, chunked_in, to_lower_copy}
use nipovpn.Env.{Env}
use nipovpn.Client.Message.Ends.{IsUnchunked}
use nipovpn.Agent.Termination.{handle-ne-none}
use nipovpn.Tests.World.{env, config}
use nipovpn.Tests.Client.{new_client-IsConsistent}

abbrev handler : AgentHandler env.World
handler = record {
  read_buffer = codes "GET / HTTP/1.1\r\nHost: example.org\r\n\r\n";
  write_buffer = [];
  client = new_client;
  end_flag = false;
  connect_flag = false;
  world = codes "HTTP/1.1 200 OK\r\nContent-Length: 2\r\n\r\n00" ∷ [];
}

handle-Ends_example :
    EndsIfDone env config
      (codes "u-1")
      http
      handler
      (Agent.handle env config (codes "u-1") 0 handler)
unfolding detect_type equal hex_arr_to_str parse_http set_ip_port_as starts_with host_of_request
handle-Ends_example = handle-Ends env config (codes "u-1") 0 handler _ new_client-IsConsistent refl

-- A server that always answers the same.
abbrev constant : Env
constant = record env {
  read_until = λ s w. ((codes "HTTP/1.1 200 OK\r\nContent-Length: 2\r\n\r\n00", none), w);
}

constant-IsUnchunked : IsUnchunked constant
unfolding find extract_headers chunked_in lines_from strip_cr starts_with to_lower_copy
constant-IsUnchunked = record { unchunked = λ s w. refl }

handle-ne-none_example : Agent.handle constant config (codes "u-1") 0 handler ≢ none
handle-ne-none_example = handle-ne-none constant config (codes "u-1") constant-IsUnchunked 0 handler
