-- ===== src/Connection/Socks.antt =====
-- `handleSocks5Handshake`: the agent's talk with a SOCKS5 client, which it turns into a CONNECT.
pub mod Requests
use nipovpn.Base.{
  ℕ, ◌+◌, ◌-◌, ◌*◌, ◌%◌, ◌^◌, Bool, true, false, not, ◌||◌, Option, none, some, [], ◌∷◌, ◌++◌,
  Bytes, codes, ◌==◌, leb, if◌then◌else◌, length, take, drop, get_elem?,
}
use nipovpn.Text.{find_char, is_some}
use nipovpn.Text.Numbers.{to_string}
use nipovpn.Env.{Env, NetError, tcp, Written, sent, stopped}
use nipovpn.Config.{Config}
use nipovpn.Connection.{Connection}

-- A part of the handshake goes on with a value, returns `false`, or throws.
pub data Part (S A : Type 0) : Type 0 where
  goes_on : A → S → Part S A
  refuses : S → Part S A
  throws : S → Part S A

abbrev pub Talk : (S A : Type 0) → Type 0
Talk S A = S → Part S A

abbrev pub followed : {S A B : Type 0} → Part S A → (A → Talk S B) → Part S B
followed (goes_on a s) k = k a s
followed (refuses s) k = refuses s
followed (throws s) k = throws s

infixl 5 ◌>>=◌ ◌>>◌
abbrev pub ◌>>=◌ : {S A B : Type 0} → Talk S A → (A → Talk S B) → Talk S B
(m >>= k) s = followed (m s) k

abbrev pub ◌>>◌ : {S A B : Type 0} → Talk S A → Talk S B → Talk S B
m >> k = m >>= λ _. k

abbrev pub byte_at : ℕ → Bytes → ℕ
byte_at i s = elim (get_elem? s i) [ none ↦ 0 | some b ↦ b ]

module _ (e : Env) where
  abbrev pub K : Type 0
  K = Connection e.World

  abbrev pub after_read : Bytes → K → (Bytes × Option NetError) × e.World → Part K Bytes
  after_read copied s ((bytes, none), w) = goes_on (copied ++ bytes) (record s { world = w })
  after_read copied s ((bytes, some error), w) = refuses (record s { world = w })

  abbrev pub read_rest : ℕ → Bytes → K → Option ℕ → Part K Bytes
  read_rest n copied s none = refuses s
  read_rest n copied s (some fd) = after_read copied s (e.read_exact (tcp fd) n s.world)

  -- readExactFromClient: what the buffer holds, and the rest from the socket.
  unfoldable pub read_exact_from_client : ℕ → Talk K Bytes
  read_exact_from_client size s =
      let copied : Bytes = take size s.read_buffer in
      let left : K = record s { read_buffer = drop size s.read_buffer } in
      if length copied == size
      then goes_on copied left
      else read_rest (size - length copied) copied left s.socket

  abbrev pub after_write : K → Written × e.World → Part K Unit
  after_write s (sent, w) = goes_on tt (record s { world = w })
  after_write s (stopped n, w) = throws (record s { world = w })

  abbrev pub write_on : Bytes → K → Option ℕ → Part K Unit
  write_on bytes s none = throws s
  write_on bytes s (some fd) = after_write s (e.write (tcp fd) bytes s.world)

  -- `boost::asio::write` without an error code.
  unfoldable pub write_reply : Bytes → Talk K Unit
  write_reply bytes s = write_on bytes s s.socket

  abbrev pub require : Bool → Talk K Unit
  require true s = goes_on tt s
  require false s = refuses s

  -- Only CONNECT is served.
  abbrev pub require_connect : Bytes → Talk K Unit
  require_connect req =
      if not (byte_at 0 req == 5) || not (byte_at 1 req == 1)
      then (write_reply (5 ∷ 7 ∷ 0 ∷ 1 ∷ 0 ∷ 0 ∷ 0 ∷ 0 ∷ 0 ∷ 0 ∷ []) >> refuses)
      else goes_on tt

  abbrev pub dotted : Bytes → Bytes
  dotted ip =
      to_string (byte_at 0 ip)
      ++ (codes "."
          ++ (to_string (byte_at 1 ip)
              ++ (codes "."
                  ++ (to_string (byte_at 2 ip) ++ (codes "." ++ to_string (byte_at 3 ip))))))

  -- The host, by the type of the address.
  unfoldable pub read_host : ℕ → Talk K Bytes
  read_host kind =
      if kind == 1
      then (read_exact_from_client 4 >>= λ ip. goes_on (dotted ip))
      else if kind == 3
      then (read_exact_from_client 1 >>= λ size. read_exact_from_client (byte_at 0 size))
      else if kind == 4
      then (read_exact_from_client 16 >>= λ ip. goes_on (e.ipv6_text ip))
      else refuses

  -- `(portBytes[0] << 8) | portBytes[1]`, whose parts have no bit in common.
  abbrev pub port_of : Bytes → ℕ
  port_of bytes = (byte_at 0 bytes * 2 ^ 8 + byte_at 1 bytes) % 2 ^ 16

  unfoldable pub socks_target : Bytes → ℕ → Bytes
  socks_target host port =
      if is_some (find_char b':' host)
      then codes "[" ++ (host ++ (codes "]:" ++ to_string port))
      else host ++ (codes ":" ++ to_string port)

  abbrev pub connect_request : Bytes → Bytes
  connect_request target =
      codes "CONNECT " ++ (target ++ (codes " HTTP/1.1\r\nHost: " ++ (target ++ codes "\r\n\r\n")))

  -- The request takes the place of whatever the buffer still held.
  abbrev pub put_request : Bytes → Talk K Unit
  put_request request s = goes_on tt (record s { read_buffer = request })

  -- The part behind the greeting.
  abbrev pub read_request : Talk K Unit
  read_request = do
    req ← read_exact_from_client 4
    require_connect req
    host ← read_host (byte_at 3 req)
    port ← read_exact_from_client 2
    put_request (connect_request (socks_target host (port_of port)))

  -- handleSocks5Handshake
  unfoldable pub handle_socks5_handshake : Talk K Unit
  handle_socks5_handshake = do
    header ← read_exact_from_client 2
    require (byte_at 0 header == 5)
    read_exact_from_client (byte_at 1 header)
    write_reply (5 ∷ 0 ∷ [])
    read_request
