-- ===== src/Tests/Connection.antt =====
-- The handshake of a SOCKS5 client, and an exchange of its tunnel.
use nipovpn.Base.{◌≡◌, refl, some, [], ◌∷◌, ◌++◌, codes, arith}
use nipovpn.Http.{parse_host_port}
use nipovpn.Http.Hosts.{found}
use nipovpn.Client.Defs.{new_client}
use nipovpn.Connection.{Connection, new_connection}
use nipovpn.Connection.Socks.{goes_on, handle_socks5_handshake, socks_target}
use nipovpn.Connection.Socks.Requests.{
  domain, greeting, request, connect_text, handle_socks5_handshake-connect,
  parse_host_port-socks_target,
}
use nipovpn.Connection.Tunnel
use nipovpn.Env.{tcp}
use nipovpn.Base.{Bytes, refl}
use nipovpn.HttpUtils.{extract_headers, extract_body, content_length_in}
use nipovpn.Text.{find}
use nipovpn.Text.Lines.{lines_from, strip_cr}
use nipovpn.Text.Numbers.{stoull}
use nipovpn.Connection.Body.{read_remaining}
use nipovpn.Connection.Body.Whole.{Whole, read_remaining-Whole}
use nipovpn.Tests.World.{env, env-IsReader}

abbrev pub accepted : Connection env.World
accepted = record (new_connection new_client []) { socket = some 3 }

handle_socks5_handshake-connect_example :
    handle_socks5_handshake env (record accepted {
      read_buffer =
          greeting (0 ∷ 2 ∷ []) ++ (request (domain (codes "example.org")) 443 ++ codes "more");
    })
    ≡ goes_on tt
        (record accepted { read_buffer = connect_text (codes "example.org") 443; world = [] })
handle_socks5_handshake-connect_example =
    handle_socks5_handshake-connect env 3 (0 ∷ 2 ∷ []) (domain (codes "example.org")) 443
      (codes "more") accepted [] (omega arith) (omega arith) refl refl

parse_host_port-socks_target_example :
    parse_host_port (socks_target env (codes "2001:db8::1") 443) 80
    ≡ found (codes "2001:db8::1") 443
parse_host_port-socks_target_example =
    parse_host_port-socks_target env (codes "2001:db8::1") 443 80
      ((λ e. cc), omega arith, omega arith) (omega arith)

abbrev tunnelling : Connection env.World
tunnelling = record accepted { world = codes "HTTP/1.1 200 OK\r\nContent-Length: 2\r\n\r\n00" ∷ [] }

-- A message whose body came in part.
abbrev begun : Bytes
begun = codes "POST / HTTP/1.1\r\nContent-Length: 5\r\n\r\nhe"

read_remaining-Whole_example :
    Whole env (tcp 3) 5 begun (read_remaining env (tcp 3) 0 begun (codes "llo" ∷ []))
unfolding find extract_headers extract_body content_length_in lines_from strip_cr stoull
read_remaining-Whole_example =
    read_remaining-Whole env (tcp 3) 0 34 5 begun (codes "llo" ∷ []) env-IsReader refl refl
      (omega arith)
