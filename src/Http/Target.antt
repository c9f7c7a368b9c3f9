-- ===== src/Http/Target.antt =====
-- Where a request is sent: `setIPPort` on the targets that `makeHostPort` writes, and on requests
-- that name no host.
use nipovpn.Base.{
  ℕ, ◌≡◌, ◌≢◌, refl, true, none, some, [], ◌∷◌, ◌++◌, Bytes, Lacks, codes, arith, Option-cases,
  Bool-cases, inl, inr, ==_ne,
}
use nipovpn.Text.{find_char}
use nipovpn.Text.Find.{find_char-none}
use nipovpn.Text.Numbers.{to_string}
use nipovpn.HttpUtils.{make_host_port}
use nipovpn.Env.{Request}
use nipovpn.Http.{
  Http, HttpType, https, http, connect, parse_host_port, parse_http, set_dst, set_ip_port_as,
  host_of_request,
}
use nipovpn.Http.Hosts.{
  IsPort, found, parse_host_port-plain, parse_host_port-bracketed, parse_host_port-IsDestination,
}

-- A host name or address, with no bracket in it.
abbrev pub IsHost : Bytes → Type 0
IsHost host = (host ≢ []) × Lacks b'[' host × Lacks b']' host

make_host_port-brackets :
    (c i : ℕ) (host : Bytes) (port : ℕ)
    → c ≢ b'['
    → find_char b':' (c ∷ host) ≡ some i
    → make_host_port (c ∷ host) port ≡ codes "[" ++ ((c ∷ host) ++ (codes "]:" ++ to_string port))
unfolding make_host_port
make_host_port-brackets c i host port h e = rw (e, ==_ne c b'[' h) (ground arith)

make_host_port-plain :
    (host : Bytes) (port : ℕ)
    → find_char b':' host ≡ none
    → make_host_port host port ≡ host ++ (codes ":" ++ to_string port)
unfolding make_host_port
make_host_port-plain host port e = rw e

-- `parseHostPort` reads back the host and the port that `makeHostPort` wrote, names and IPv6
-- addresses alike, for a host that is not empty and has no bracket, and a port between 1 and 65535.
pub parse_host_port-make :
    (host : Bytes) (port default : ℕ)
    → IsHost host
    → IsPort port
    → parse_host_port (make_host_port host port) default ≡ found host port
parse_host_port-make [] port default h p = absurd (h.0 refl)
parse_host_port-make (c ∷ host) port default h p = elim (Option-cases (find_char b':' (c ∷ host))) [
  | inl e ↦
      rw (make_host_port-plain (c ∷ host) port e)
        (parse_host_port-plain c host port default h.1.0 (find_char-none b':' (c ∷ host) e) p)
  | inr (i, e) ↦
      rw (make_host_port-brackets c i host port h.1.0 e)
        (parse_host_port-bracketed c host port default h.2 p)
]

-- A CONNECT whose target is written by `makeHostPort` is taken as a CONNECT to that host and port,
-- for a host that is not empty and has no bracket, and a port between 1 and 65535.
pub parse_http-make :
    (h : Http) (r : Request) (host : Bytes) (port : ℕ)
    → IsHost host
    → IsPort port
    → r.is_connect ≡ true
    → r.target ≡ make_host_port host port
    → (parse_http (some r) h).1
      ≡ record h { request = r; http_type = connect; dst_ip = host; dst_port = port }
unfolding parse_http set_ip_port_as
parse_http-make h r host port hh hp c t = ground (arith, parse_host_port-make host port 443 hh hp)

set_dst-IsPort :
    (h : Http) (input : Bytes) (default : ℕ)
    → IsPort default
    → IsPort (set_dst h default (parse_host_port input default)).dst_port
set_dst-IsPort h input default d = elim (Bool-cases (parse_host_port input default).valid) [
  | inl e ↦ rw e (parse_host_port-IsDestination input default d e).1
  | inr e ↦ rw e d
]

-- Whatever the request, and of whichever type it is taken, the port that `setIPPort` chooses is
-- between 1 and 65535.
pub set_ip_port_as-IsPort : (t : HttpType) (h : Http) → IsPort (set_ip_port_as t h).dst_port
unfolding set_ip_port_as
set_ip_port_as-IsPort https h = set_dst-IsPort h h.sni 443 (omega arith)
set_ip_port_as-IsPort connect h = set_dst-IsPort h h.request.target 443 (omega arith)
set_ip_port_as-IsPort http h = elim (Option-cases (host_of_request h.request)) [
  | inl e ↦ rw e (omega arith)
  | inr (host_port, e) ↦ rw e (set_dst-IsPort h host_port 80 (omega arith))
]
