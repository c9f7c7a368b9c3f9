-- ===== src/Client/Written.antt =====
-- What `doConnect` and `doWrite` of a client without TLS do, described by the calls that they make of
-- the network.
use nipovpn.Base.{
  ℕ, ◌≡◌, ◌⊎◌, inl, inr, refl, subst, sym, drop, true, false, none, some, [], ◌∷◌, Bytes, arith,
}
use nipovpn.Env.{Env, tcp, Written, sent, stopped, connected, Stream, Read, got, failed}
use nipovpn.Config.{Config}
use nipovpn.Client.Defs.{
  Client, ssl_open, new_client, is_open, socket_shutdown, stream_of, after_write, write_to,
  cancel_timeout, reset_timeout, shut_false, do_connect, do_write, do_read_server, after_read_some,
}

-- Neither of the sockets is open, the shutdown is on record, and TLS is off.
pub record IsShut (c : Client) : Type 0 where
  pub socket : c.socket ≡ none
  pub stream : ssl_open c.ssl ≡ false
  pub closed : c.closed ≡ true
  pub tls : c.tls_enabled ≡ false

-- A plain connection over a socket, with nothing else open.
pub record IsPlain (fd : ℕ) (c : Client) : Type 0 where
  pub socket : c.socket ≡ some fd
  pub stream : ssl_open c.ssl ≡ false
  pub tls : c.tls_enabled ≡ false
  pub is_up : c.closed ≡ false

module _ (e : Env) (config : Config) where
  -- All of the bytes go out in one write to the socket, and the connection stays; or the write
  -- fails, or there is nothing to write, and the socket is closed.
  pub data Wrote (fd : ℕ) (bytes : Bytes) (w : e.World) : Client → e.World → Type 0 where
    whole :
        (c : Client) (w' : e.World)
        → e.write (tcp fd) bytes w ≡ (sent, w')
        → c.write_buffer ≡ []
        → IsPlain fd c
        → Wrote fd bytes w c w'
    broken :
        (n : ℕ) (c : Client) (w' : e.World)
        → e.write (tcp fd) bytes w ≡ (stopped n, w')
        → IsShut c
        → Wrote fd bytes w c (e.close fd w')
    nothing_to_write : (c : Client) → bytes ≡ [] → IsShut c → Wrote fd bytes w c (e.close fd w)

  socket_shutdown-IsShut :
      (c : Client) (w : e.World) (fd : ℕ)
      → IsPlain fd c
      → IsShut (socket_shutdown e config c w).0 × ((socket_shutdown e config c w).1 ≡ e.close fd w)
  unfolding socket_shutdown
  socket_shutdown-IsShut c w fd v = ground (arith, v.socket, v.stream, v.tls, v.is_up)

  with_buffer-IsPlain :
      (bytes : Bytes) (c : Client) (fd : ℕ)
      → IsPlain fd c
      → IsPlain fd (record c { write_buffer = bytes })
  with_buffer-IsPlain bytes c fd v = record {
    socket = v.socket;
    stream = v.stream;
    tls = v.tls;
    is_up = v.is_up;
  }

  shut_false-Wrote :
      (bytes : Bytes) (w w' : e.World) (fd : ℕ) (c : Client)
      → IsPlain fd c
      → ((c : Client) → IsShut c → Wrote fd bytes w c (e.close fd w'))
      → Wrote fd bytes w (shut_false e config c w').1 (shut_false e config c w').2
  shut_false-Wrote bytes w w' fd c v k =
      let (shut, closed) = socket_shutdown-IsShut c w' fd v in
      subst (Wrote fd bytes w (shut_false e config c w').1) (sym closed) (k _ shut)

  cancel_timeout-IsPlain :
      (c : Client) (fd : ℕ) → IsPlain fd c → IsPlain fd (cancel_timeout e config c)
  cancel_timeout-IsPlain c fd v = ground (arith, v.socket, v.stream, v.tls, v.is_up)

  reset_timeout-IsPlain :
      (c : Client) (fd : ℕ) → IsPlain fd c → IsPlain fd (reset_timeout e config c)
  reset_timeout-IsPlain c fd v = ground (arith, v.socket, v.stream, v.tls, v.is_up)

  after_write-Wrote :
      (bytes : Bytes) (w : e.World) (fd : ℕ) (c : Client) (r : Written × e.World)
      → IsPlain fd c
      → e.write (tcp fd) bytes w ≡ r
      → Wrote fd bytes w (after_write e config c r).1 (after_write e config c r).2
  after_write-Wrote bytes w fd c (sent, w') v h =
      whole _ w' h (ground arith) (cancel_timeout-IsPlain _ fd (with_buffer-IsPlain [] c fd v))
  after_write-Wrote bytes w fd c (stopped n, w') v h =
      shut_false-Wrote bytes w w' fd _
        (cancel_timeout-IsPlain _ fd (with_buffer-IsPlain (drop n c.write_buffer) c fd v))
        (λ d shut. broken n d w' h shut)

  write_to-Wrote :
      (bytes : Bytes) (c : Client) (w : e.World) (fd : ℕ)
      → IsPlain fd c
      → Wrote fd bytes w
          (write_to e config (some (tcp fd)) (record c { write_buffer = bytes }) w).1
          (write_to e config (some (tcp fd)) (record c { write_buffer = bytes }) w).2
  write_to-Wrote [] c w fd v =
      shut_false-Wrote [] w w fd _ (with_buffer-IsPlain [] c fd v)
        (λ d shut. nothing_to_write d refl shut)
  write_to-Wrote (b ∷ bytes) c w fd v =
      after_write-Wrote (b ∷ bytes) w fd _ _
        (reset_timeout-IsPlain _ fd (with_buffer-IsPlain (b ∷ bytes) c fd v)) refl

  stream_of-plain : (c : Client) (fd : ℕ) → IsPlain fd c → stream_of e config c ≡ some (tcp fd)
  unfolding stream_of
  stream_of-plain c fd v = rw (v.tls, v.socket) refl

  pub is_open-plain : (c : Client) (fd : ℕ) → IsPlain fd c → is_open c ≡ true
  unfolding is_open
  is_open-plain c fd v = rw (v.tls, v.socket) refl

  -- `doWrite` of a plain connection hands its bytes to the socket.
  pub do_write-Wrote :
      (bytes : Bytes) (c : Client) (w : e.World) (fd : ℕ)
      → IsPlain fd c
      → Wrote fd bytes w (do_write e config bytes c w).1 (do_write e config bytes c w).2
  unfolding do_write
  do_write-Wrote bytes c w fd v = rw (stream_of-plain c fd v) (write_to-Wrote bytes c w fd v)

  -- A new client that reaches the target is a plain connection over the socket that it got.
  pub do_connect-IsPlain :
      (dst : Bytes) (port fd : ℕ) (uuid : Bytes) (w w1 w2 : e.World)
      → e.resolve dst port w ≡ (true, w1)
      → e.connect dst port w1 ≡ (connected fd, w2)
      → ((do_connect e config dst port (record new_client { uuid = uuid }) w).0 ≡ true)
        × IsPlain fd (do_connect e config dst port (record new_client { uuid = uuid }) w).1
        × ((do_connect e config dst port (record new_client { uuid = uuid }) w).2 ≡ w2)
  unfolding do_connect
  do_connect-IsPlain dst port fd uuid w w1 w2 resolves connects =
      rw (resolves, connects) (ground arith)

  -- What a read gave.
  abbrev pub bytes_of : Read → Bytes
  bytes_of (failed error) = []
  bytes_of (got bytes) = bytes

  -- A plain connection is read once, and one that is shut down not at all.
  abbrev pub Heard : ℕ → Client → e.World → Bytes → Type 0
  Heard fd c w text =
      IsShut c × (text ≡ []) ⊎ IsPlain fd c × (text ≡ bytes_of (e.read_some (tcp fd) 16384 w).0)

  after_read_some-read :
      (s : Stream) (c : Client) (r : Read × e.World)
      → c.read_buffer ≡ []
      → (after_read_some e config s c r).0.read_buffer ≡ bytes_of r.0
  unfolding socket_shutdown
  after_read_some-read s c (failed error, w) h = ground arith
  after_read_some-read s c (got [], w) h = ground arith
  after_read_some-read s c (got (b ∷ bytes), w) h = ground arith

  reset_timeout-read :
      (c : Client) → c.read_buffer ≡ [] → (reset_timeout e config c).read_buffer ≡ []
  reset_timeout-read c h = ground arith

  read_plain :
      (c : Client) (w : e.World) (fd : ℕ)
      → IsPlain fd c
      → (do_read_server e config c w).0.read_buffer ≡ bytes_of (e.read_some (tcp fd) 16384 w).0
  unfolding do_read_server
  read_plain c w fd v = rw (stream_of-plain c fd v) (
      after_read_some-read (tcp fd) _ (e.read_some (tcp fd) 16384 w)
        (reset_timeout-read (record c { ended = false; read_buffer = [] }) refl))

  read_shut :
      (c : Client) (w : e.World) → IsShut c → (do_read_server e config c w).0.read_buffer ≡ []
  unfolding do_read_server stream_of
  read_shut c w v = rw (v.tls, v.socket) refl

  pub Wrote-Heard :
      (fd : ℕ) (bytes : Bytes) (w w' : e.World) (c : Client)
      → Wrote fd bytes w c w'
      → Heard fd c w' (do_read_server e config c w').0.read_buffer
  Wrote-Heard fd bytes w _ _ (whole c w' h empty v) = inr (v, read_plain c w' fd v)
  Wrote-Heard fd bytes w _ _ (broken n c w' h v) = inl (v, read_shut c _ v)
  Wrote-Heard fd bytes w _ _ (nothing_to_write c h v) = inl (v, read_shut c _ v)
