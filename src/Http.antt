-- ===== src/Http.antt =====
-- core/src/http.cpp and http.hpp: which kind of request a buffer holds, and where it is to go.
pub mod Hosts
pub mod Target
pub mod ClientHello
pub mod Sni
pub mod Texts
use nipovpn.Base.{
  ℕ, zero, suc, ◌+◌, ◌-◌, ◌*◌, ◌%◌, ◌^◌, Bool, true, false, not, ◌||◌, Option, none, some, List, [],
  ◌∷◌, ◌++◌, Bytes, codes, equal, is_empty, ◌==◌, ltb, if◌then◌else◌, length, take, drop, get_elem?,
}
use nipovpn.Text.{starts_with, find_char, rfind_char}
use nipovpn.Text.Numbers.{ℤ, pos, negsuc, stoi}
use nipovpn.Codec.{hex_arr_to_str, hex_to_int, hex_to_ascii}
use nipovpn.Env.{Except, ok, throw, ◌>>=◌, ◌>>◌, from_option, Request}

-- What `parseHostPort` returns and leaves in `host` and `port`.
pub record HostPort : Type 0 where
  pub valid : Bool
  pub host : Bytes
  pub port : ℕ

-- parsePort; `none` is `false`, which leaves the port as it was.
abbrev port_of : Option ℤ → Option ℕ
port_of none = none
port_of (some (negsuc _)) = none
port_of (some (pos p)) = if ltb p 1 || ltb 65535 p then none else some p

unfoldable pub parse_port : Bytes → Option ℕ
parse_port value = port_of (stoi value)

-- Valid with the port that was read, or not valid with the port as it was.
abbrev pub with_port : Bytes → ℕ → Option ℕ → HostPort
with_port host port none = record { valid = false; host = host; port = port }
with_port host port (some p) = record { valid = not (is_empty host); host = host; port = p }

-- The part for an address in brackets, by the place of the `]`.
unfoldable pub parse_bracketed : Bytes → ℕ → Option ℕ → HostPort
parse_bracketed input default none = record { valid = false; host = []; port = default }
parse_bracketed input default (some close) =
    let host : Bytes = take (close - 1) (drop 1 input) in
    elim (get_elem? input (close + 1)) [
      | none ↦ record { valid = not (is_empty host); host = host; port = default }
      | some c ↦
          if not (c == b':')
          then record { valid = false; host = host; port = default }
          else with_port host default (parse_port (drop (close + 2) input))
    ]

-- Several colons: the last part is a port if it reads as one, and the whole is a host if not.
abbrev pub host_or_port : Bytes → ℕ → ℕ → Option ℕ → HostPort
host_or_port input default colon none = record { valid = true; host = input; port = default }
host_or_port input default colon (some p) = record {
  valid = not (is_empty (take colon input));
  host = take colon input;
  port = p;
}

-- The part for a name, by the places of the first and the last colon.
unfoldable pub parse_plain : Bytes → ℕ → Option ℕ → Option ℕ → HostPort
parse_plain input default (some first) (some last) =
    if not (first == last)
    then host_or_port input default last (parse_port (drop (last + 1) input))
    else with_port (take last input) default (parse_port (drop (last + 1) input))
parse_plain input default none (some last) =
    with_port (take last input) default (parse_port (drop (last + 1) input))
parse_plain input default _ none = record {
  valid = not (is_empty input);
  host = input;
  port = default;
}

-- parseHostPort
unfoldable pub parse_host_port : Bytes → ℕ → HostPort
parse_host_port [] default = record { valid = false; host = []; port = default }
parse_host_port (c ∷ s) default =
    if c == b'['
    then parse_bracketed (c ∷ s) default (find_char b']' (c ∷ s))
    else parse_plain (c ∷ s) default (find_char b':' (c ∷ s)) (rfind_char b':' (c ∷ s))

pub data HttpType : Type 0 where
  https http connect : HttpType

pub data TlsType : Type 0 where
  tls_handshake change_cipher_spec application_data : TlsType

-- The parsed state of an `HTTP`; the buffer is an argument of the methods.
pub record Http : Type 0 where
  pub http_type : HttpType
  pub dst_ip : Bytes
  pub dst_port : ℕ
  pub request : Request
  pub sni : Bytes
  pub body : Bytes
  pub tls_type : TlsType

-- The constructor; it leaves `dstPort_` unset, for which 0 stands here.
abbrev pub new_http : Http
new_http = record {
  http_type = https;
  dst_ip = [];
  dst_port = 0;
  request = record { is_connect = false; target = []; host = none; body = [] };
  sni = [];
  body = [];
  tls_type = tls_handshake;
}

-- The host and port that were read, or none with the default port.
abbrev pub set_dst : Http → ℕ → HostPort → Http
set_dst h default r =
    if r.valid
    then record h { dst_ip = r.host; dst_port = r.port }
    else record h { dst_ip = []; dst_port = default }

abbrev pub upto_slash : Bytes → Bytes
upto_slash s = elim (find_char b'/' s) [ none ↦ s | some i ↦ take i s ]

-- Where a plain request goes: the target's authority if it has a scheme, else its `Host` header.
unfoldable pub host_of_request : Request → Option Bytes
host_of_request r =
    if starts_with (codes "http://") r.target
    then some (upto_slash (drop (length (codes "http://")) r.target))
    else if starts_with (codes "https://") r.target
    then some (upto_slash (drop (length (codes "https://")) r.target))
    else r.host

abbrev pub set_dst_http : Http → Option Bytes → Http
set_dst_http h none = record h { dst_ip = []; dst_port = 80 }
set_dst_http h (some host_port) = set_dst h 80 (parse_host_port host_port 80)

-- setIPPort
unfoldable pub set_ip_port_as : HttpType → Http → Http
set_ip_port_as https h = set_dst h 443 (parse_host_port h.sni 443)
set_ip_port_as http h = set_dst_http h (host_of_request h.request)
set_ip_port_as connect h = set_dst h 443 (parse_host_port h.request.target 443)

abbrev pub set_ip_port : Http → Http
set_ip_port h = set_ip_port_as h.http_type h

-- parseHttp, on what Beast made of the buffer.
unfoldable pub parse_http : Option Request → Http → Bool × Http
parse_http none h = (false, h)
parse_http (some r) h = (
  true,
  set_ip_port (record h { request = r; http_type = if r.is_connect then connect else http }),
)

-- `substr(pos, n)`, which throws `out_of_range`.
unfoldable pub substr : Bytes → ℕ → ℕ → Except Bytes
substr s at n = if ltb (length s) at then throw else ok (take n (drop at s))

-- `unsigned short` arithmetic.
abbrev pub u16 : ℕ → ℕ
u16 n = n % 2 ^ 16

-- The name behind the headers of the server name extension.
abbrev pub server_name : Bytes → ℕ → Except (Option Bytes)
server_name body at = do
  size ← substr body at 4
  name ← substr body (u16 (at + 4)) (u16 (hex_to_int size) * 2)
  sni ← from_option (hex_to_ascii name)
  ok (some sni)

-- The part of `parseTls` for a ClientHello: the server name, if the first extension is that one.
-- Positions count hexadecimal digits.
unfoldable pub client_hello_sni : Bytes → Except (Option Bytes)
client_hello_sni body = do
  session_size ← substr body 86 2
  let session = u16 (hex_to_int session_size)
  substr body 88 session
  let suites_at = u16 (88 + session * 2)
  suites_size ← substr body suites_at 4
  let methods_at = u16 (u16 (suites_at + 4) + u16 (hex_to_int suites_size) * 2)
  methods_size ← substr body methods_at 2
  let extensions_at = u16 (u16 (methods_at + 2) + u16 (hex_to_int methods_size) * 2)
  substr body extensions_at 4
  let type_at = u16 (extensions_at + 4)
  type ← substr body type_at 4
  if hex_to_int type == 0 then server_name body (u16 (type_at + 14)) else ok none

abbrev pub store_sni : Http → Option Bytes → Http
store_sni h none = h
store_sni h (some name) = record h { sni = name }

-- The handshake record of `parseTls`.
unfoldable pub parse_handshake : Http → Except (Bool × Http)
parse_handshake h = do
  type ← substr h.body 10 2
  h' ←
      if equal type (codes "01")
      then (client_hello_sni h.body >>= λ name. ok (store_sni h name))
      else ok h
  ok (true, set_ip_port h')

-- parseTls
unfoldable pub parse_tls : Http → Except (Bool × Http)
unfolding parse_handshake
parse_tls h = do
  type ← substr h.body 0 2
  if equal type (codes "16")
      then parse_handshake (record h { tls_type = tls_handshake })
      else if equal type (codes "14")
      then ok (true, set_ip_port (record h { tls_type = change_cipher_spec }))
      else if equal type (codes "17")
      then ok (true, set_ip_port (record h { tls_type = application_data }))
      else ok (false, h)

-- detectType, on the bytes of the buffer and what Beast makes of them.
unfoldable pub detect_type : (Bytes → Option Request) → Bytes → Http → Except (Bool × Http)
detect_type parse buffer h =
    let digits = hex_arr_to_str buffer in
    let type = take 2 digits in
    if equal type (codes "16") || (equal type (codes "14") || equal type (codes "17"))
    then parse_tls (record h { http_type = https; body = digits })
    else ok (parse_http (parse buffer) h)
