-- ===== src/Connection/Socks/Requests.antt =====
-- What the handshake makes of a client's greeting and request, when both stand in the buffer.
use nipovpn.Base.{
  ℕ, ◌<◌, Bool, true, false, ◌||◌, codes, ◌==◌, if◌then◌else◌, ◌^◌, ◌≡◌, refl, sym, ◌∙◌, ap, some,
  [], ◌∷◌, ◌++◌, append_assoc, Bytes, IsByte, All, arith, length, take_at, drop_at, ==_ne,
}
use nipovpn.Text.{find_char, is_some}
use nipovpn.Text.Lines.{with_crlf, crlf}
use nipovpn.Text.Numbers.{to_string}
use nipovpn.Codec.Hex.{u16_bytes}
use nipovpn.HttpUtils.{make_host_port}
use nipovpn.Http.{parse_host_port}
use nipovpn.Http.Hosts.{IsPort, found}
use nipovpn.Http.Target.{IsHost, parse_host_port-make}
use nipovpn.Env.{Env, tcp, sent}
use nipovpn.Connection.{Connection}
use nipovpn.Connection.Socks.{
  goes_on, byte_at, followed, write_on, after_write, read_exact_from_client, write_reply, read_host,
  port_of, dotted, socks_target, connect_request, read_request, handle_socks5_handshake,
}

-- Where a client wants to go, as the protocol has it.
pub data Destination : Type 0 where
  ipv4 : (a b c d : ℕ) → Destination
  domain : Bytes → Destination
  ipv6 : Bytes → Destination

-- Sizes that fit their fields.
abbrev pub IsEncodable : Destination → Type 0
IsEncodable (ipv4 a b c d) = All IsByte (a ∷ b ∷ c ∷ d ∷ [])
IsEncodable (domain name) = length name < 256
IsEncodable (ipv6 ip) = length ip ≡ 16

abbrev pub kind_of : Destination → ℕ
kind_of (ipv4 a b c d) = 1
kind_of (domain name) = 3
kind_of (ipv6 ip) = 4

abbrev pub address_of : Destination → Bytes
address_of (ipv4 a b c d) = a ∷ b ∷ c ∷ d ∷ []
address_of (domain name) = length name ∷ name
address_of (ipv6 ip) = ip

abbrev pub greeting : Bytes → Bytes
greeting methods = 5 ∷ length methods ∷ methods

-- A CONNECT request.
abbrev pub request : Destination → ℕ → Bytes
request d port = (5 ∷ 1 ∷ 0 ∷ kind_of d ∷ []) ++ (address_of d ++ u16_bytes port)

port_of-u16_bytes : (e : Env) (p : ℕ) → p < 2 ^ 16 → port_of e (u16_bytes p) ≡ p
port_of-u16_bytes e p h = omega arith

abbrev has_colon : Bytes → Bool
has_colon [] = false
has_colon (c ∷ s) = c == b':' || has_colon s

find_char-has_colon : (s : Bytes) → is_some (find_char b':' s) ≡ has_colon s
unfolding find_char
find_char-has_colon [] = refl
find_char-has_colon (c ∷ s) = grind (arith, find_char-has_colon s)

-- A host and a port, as RFC 3986 writes them.
abbrev pub authority : Bytes → ℕ → Bytes
authority host port =
    (if has_colon host then codes "[" ++ (host ++ codes "]") else host)
    ++ (codes ":" ++ to_string port)

-- The request to CONNECT to a host and a port: two header lines and an empty line.
abbrev pub connect_text : Bytes → ℕ → Bytes
connect_text host port =
    with_crlf (
      (codes "CONNECT " ++ (authority host port ++ codes " HTTP/1.1"))
      ∷ (codes "Host: " ++ authority host port)
      ∷ [])
    ++ crlf

module _ (e : Env) where
  abbrev K : Type 0
  K = Connection e.World

  -- The name or the number that the address stands for.
  abbrev pub host_of : Destination → Bytes
  host_of (ipv4 a b c d) =
      to_string a
      ++ (codes "." ++ (to_string b ++ (codes "." ++ (to_string c ++ (codes "." ++ to_string d)))))
  host_of (domain name) = name
  host_of (ipv6 ip) = e.ipv6_text ip

  -- What stands in the buffer is read from it.
  read_exact-buffered :
      (n : ℕ) (a b : Bytes) (s : K)
      → n ≡ length a
      → read_exact_from_client e n (record s { read_buffer = a ++ b })
        ≡ goes_on a (record s { read_buffer = b })
  unfolding read_exact_from_client
  read_exact-buffered n a b s h = rw (take_at n a b h, drop_at n a b h, ← h) (ground arith)

  read_host-destination :
      (d : Destination) (rest : Bytes) (s : K)
      → IsEncodable d
      → read_host e (kind_of d) (record s { read_buffer = address_of d ++ rest })
        ≡ goes_on (host_of d) (record s { read_buffer = rest })
  unfolding read_host
  read_host-destination (ipv4 a b c d) rest s h =
      ap (λ p. followed p (λ ip. goes_on (dotted e ip)))
        (read_exact-buffered 4 (a ∷ b ∷ c ∷ d ∷ []) rest s refl)
  read_host-destination (domain name) rest s h =
      ap (λ p. followed p (λ size. read_exact_from_client e (byte_at 0 size)))
        (read_exact-buffered 1 (length name ∷ []) (name ++ rest) s refl)
      ∙ read_exact-buffered (length name) name rest s refl
  read_host-destination (ipv6 ip) rest s h =
      ap (λ p. followed p (λ ip. goes_on (e.ipv6_text ip)))
        (read_exact-buffered 16 ip rest s (sym h))

  read_request-runs :
      (d : Destination) (port : ℕ) (rest : Bytes) (s : K)
      → IsEncodable d
      → port < 2 ^ 16
      → read_request e (record s { read_buffer = request d port ++ rest })
        ≡ goes_on tt
            (record s { read_buffer = connect_request e (socks_target e (host_of d) port) })
  read_request-runs d port rest s h p =
      rw
        (
          append_assoc (5 ∷ 1 ∷ 0 ∷ kind_of d ∷ []) (address_of d ++ u16_bytes port) rest,
          read_exact-buffered 4 (5 ∷ 1 ∷ 0 ∷ kind_of d ∷ [])
              ((address_of d ++ u16_bytes port) ++ rest) s refl,
          append_assoc (address_of d) (u16_bytes port) rest,
          read_host-destination d (u16_bytes port ++ rest) s h,
          read_exact-buffered 2 (u16_bytes port) rest s refl,
          port_of-u16_bytes e port p,
        )
        refl

  write_reply-sent :
      (fd : ℕ) (bytes : Bytes) (s : K) (w : e.World)
      → s.socket ≡ some fd
      → e.write (tcp fd) bytes s.world ≡ (sent, w)
      → write_reply e bytes s ≡ goes_on tt (record s { world = w })
  unfolding write_reply
  write_reply-sent fd bytes s w is_open written =
      ap (write_on e bytes s) is_open ∙ ap (after_write e s) written

  socks_target-authority :
      (host : Bytes) (port : ℕ) → socks_target e host port ≡ authority host port
  unfolding socks_target
  socks_target-authority host port = rw (find_char-has_colon host) (bracketed (has_colon host))
    where
      bracketed :
          (b : Bool)
          → (if b
              then codes "[" ++ (host ++ (codes "]:" ++ to_string port))
              else host ++ (codes ":" ++ to_string port))
            ≡ (if b then codes "[" ++ (host ++ codes "]") else host)
              ++ (codes ":" ++ to_string port)
      bracketed true = simp append_assoc
      bracketed false = refl

  connect_request-text :
      (host : Bytes) (port : ℕ)
      → connect_request e (socks_target e host port) ≡ connect_text host port
  connect_request-text host port =
      rw (socks_target-authority host port) (lines (authority host port))
    where
      lines :
          (t : Bytes)
          → connect_request e t
            ≡ with_crlf
                ((codes "CONNECT " ++ (t ++ codes " HTTP/1.1")) ∷ (codes "Host: " ++ t) ∷ [])
              ++ crlf
      lines t = simp append_assoc

  -- The handshake with a SOCKS5 client whose greeting and CONNECT request stand in the buffer, for
  -- an address of any of the three kinds, succeeds, answers the greeting with `5 0`, and leaves in
  -- the buffer the HTTP request to CONNECT to that host and port, whatever stood behind the
  -- client's request: the line with `CONNECT`, the line with `Host`, and an empty line, with the
  -- four numbers of an IPv4 address in decimal and between dots, and a host with a colon in
  -- brackets. The connection's socket is open, the answer can be written, the address fits its
  -- field, and the port is below 2^16.
  pub handle_socks5_handshake-connect :
      (fd : ℕ) (methods : Bytes) (d : Destination) (port : ℕ) (rest : Bytes) (s : K) (w : e.World)
      → IsEncodable d
      → port < 2 ^ 16
      → s.socket ≡ some fd
      → e.write (tcp fd) (5 ∷ 0 ∷ []) s.world ≡ (sent, w)
      → handle_socks5_handshake e
          (record s { read_buffer = greeting methods ++ (request d port ++ rest) })
        ≡ goes_on tt (record s { read_buffer = connect_text (host_of d) port; world = w })
  unfolding handle_socks5_handshake
  handle_socks5_handshake-connect fd methods d port rest s w h p is_open written =
      let tail = request d port ++ rest in
      rw
        (
          read_exact-buffered 2 (5 ∷ length methods ∷ []) (methods ++ tail) s refl,
          read_exact-buffered (length methods) methods tail s refl,
          write_reply-sent fd (5 ∷ 0 ∷ []) (record s { read_buffer = tail }) w is_open written,
        )
        (read_request-runs d port rest (record s { world = w }) h p)
      ∙ ap (λ t. goes_on tt (record s { read_buffer = t; world = w }))
          (connect_request-text (host_of d) port)

  socks_target-make_host_port :
      (host : Bytes) (port : ℕ) → IsHost host → socks_target e host port ≡ make_host_port host port
  unfolding socks_target make_host_port
  socks_target-make_host_port [] port h = absurd (h.0 refl)
  socks_target-make_host_port (c ∷ host) port h = rw (==_ne c b'[' h.1.0) (ground arith)

  -- `parseHostPort` reads back the host and the port from the target that the SOCKS5 handshake
  -- writes, for a host that is not empty and has no bracket, and a port between 1 and 65535.
  pub parse_host_port-socks_target :
      (host : Bytes) (port default : ℕ)
      → IsHost host
      → IsPort port
      → parse_host_port (socks_target e host port) default ≡ found host port
  parse_host_port-socks_target host port default h p =
      rw (socks_target-make_host_port host port h) (parse_host_port-make host port default h p)
