-- ===== src/Client/Defs.antt =====
-- The state of a `TCPClient` and its methods, each with the new state and its result.
use nipovpn.Base.{
  ℕ, Bool, true, false, not, ◌&&◌, Option, none, some, [], ◌∷◌, ◌++◌, Bytes, is_empty, drop, ◌==◌,
  if◌then◌else◌,
}
use nipovpn.Env.{
  Env, NetError, aborted, Stream, tcp, tls, Connected, connected, refused, Read, got, failed,
  Written, sent, stopped,
}
use nipovpn.Config.{Config, random_fake_url, sni_host}
use nipovpn.Client.Message.{Reading, read_http_message}

-- `sslSocket_`: null, or a stream whose lowest layer is closed or open.
pub data Ssl : Type 0 where
  no_stream closed_stream : Ssl
  open_stream : ℕ → Ssl

pub record Client : Type 0 where
  pub uuid : Bytes
  pub socket : Option ℕ
  pub ssl : Ssl
  pub tls_enabled : Bool
  pub buffer : Bytes
  pub write_buffer : Bytes
  pub read_buffer : Bytes
  pub ended : Bool
  pub closed : Bool
  -- Whether the timer is running.
  pub timer : Bool

-- The constructor.
abbrev pub new_client : Client
new_client = record {
  uuid = [];
  socket = none;
  ssl = no_stream;
  tls_enabled = false;
  buffer = [];
  write_buffer = [];
  read_buffer = [];
  ended = false;
  closed = false;
  timer = false;
}

abbrev pub ssl_open : Ssl → Bool
ssl_open (open_stream _) = true
ssl_open _ = false

abbrev pub has_ssl : Ssl → Bool
has_ssl no_stream = false
has_ssl _ = true

abbrev pub socket_open : Option ℕ → Bool
socket_open none = false
socket_open (some _) = true

-- isOpen
unfoldable pub is_open : Client → Bool
is_open c = if c.tls_enabled && has_ssl c.ssl then ssl_open c.ssl else socket_open c.socket

module _ (e : Env) (config : Config) where
  open e use {World}

  abbrev timed : Bool
  timed = not (config.general.timeout == 0)

  -- resetTimeout, cancelTimeout
  abbrev pub reset_timeout : Client → Client
  reset_timeout c = if timed then record c { timer = true } else c

  abbrev pub cancel_timeout : Client → Client
  cancel_timeout c = if timed then record c { timer = false } else c

  abbrev pub close_ssl : Ssl → World → Ssl × World
  close_ssl no_stream w = (no_stream, w)
  close_ssl closed_stream w = (closed_stream, w)
  close_ssl (open_stream fd) w = (closed_stream, e.close fd w)

  abbrev pub close_socket : Option ℕ → World → World
  close_socket none w = w
  close_socket (some fd) w = e.close fd w

  -- socketShutdown
  unfoldable pub socket_shutdown : Client → World → Client × World
  socket_shutdown c w =
      if c.closed
      then (c, w)
      else (let (ssl', w') = close_ssl c.ssl w in
          (
            record (cancel_timeout c) {
              closed = true;
              ssl = ssl';
              socket = none;
              tls_enabled = false;
            },
            close_socket c.socket w',
          ))

  -- The common end of a failed call: shut down, and `false`.
  abbrev pub shut_false : Client → World → Bool × Client × World
  shut_false c w = let (c', w') = socket_shutdown c w in (false, c', w')

  -- onTimeout, by the error that ended the wait.
  unfoldable pub on_timeout : Option NetError → Client → World → Client × World
  on_timeout (some aborted) c w = (c, w)
  on_timeout _ c w = socket_shutdown c w

  -- enableTlsClient. The stream that it replaces closes as it is destroyed.
  abbrev pub tls_started : Client → Bool × World → Bool × Client × World
  tls_started c (false, w) = (false, c, w)
  tls_started c (true, w) =
      (true, record c { ssl = closed_stream; tls_enabled = true }, (close_ssl c.ssl w).1)

  unfoldable pub enable_tls_client : Client → World → Bool × Client × World
  enable_tls_client c w = if c.tls_enabled then (true, c, w) else tls_started c (e.init_tls w)

  abbrev pub put_stream : Bool → Client → Option ℕ → Client
  put_stream false c fd = record c { socket = fd }
  put_stream true c none = record c { ssl = closed_stream }
  put_stream true c (some fd) = record c { ssl = open_stream fd }

  abbrev pub after_connect : Client → Connected × World → Bool × Client × World
  after_connect c (connected fd, w) =
      (true, cancel_timeout (put_stream c.tls_enabled c (some fd)), w)
  after_connect c (refused left, w) =
      shut_false (cancel_timeout (put_stream c.tls_enabled c left)) w

  -- The new stream or socket, and the connection.
  abbrev pub after_resolve : Client → Bytes → ℕ → Bool × World → Bool × Client × World
  after_resolve c dst port (false, w) = (false, c, w)
  after_resolve c dst port (true, w) =
      after_connect (put_stream c.tls_enabled (record (reset_timeout c) { closed = false }) none)
        (e.connect dst port w)

  -- doConnect
  unfoldable pub do_connect : Bytes → ℕ → Client → World → Bool × Client × World
  unfolding socket_shutdown
  do_connect dst port c w =
      if c.tls_enabled && ssl_open c.ssl
      then (true, c, w)
      else if not c.tls_enabled && socket_open c.socket
      then (true, c, w)
      else after_resolve c dst port (e.resolve dst port w)

  abbrev pub after_handshake : Client → Bool × World → Bool × Client × World
  after_handshake c (true, w) = (true, cancel_timeout c, w)
  after_handshake c (false, w) = shut_false (cancel_timeout c) w

  abbrev pub start_handshake : ℕ → Client → World → Bool × Client × World
  start_handshake fd c w = after_handshake (reset_timeout c) (e.handshake fd w)

  abbrev pub after_alpn : ℕ → Client → Bool × World → Bool × Client × World
  after_alpn fd c (true, w) = start_handshake fd c w
  after_alpn fd c (false, w) = shut_false c w

  abbrev pub after_host_name : ℕ → Client → Bool × World → Bool × Client × World
  after_host_name fd c (true, w) = after_alpn fd c (e.set_alpn w)
  after_host_name fd c (false, w) = shut_false c w

  -- A name that is empty is not announced.
  abbrev pub announce : ℕ → Client → Bytes × World → Bool × Client × World
  announce fd c (url, w) =
      if is_empty (sni_host url)
      then start_handshake fd c w
      else after_host_name fd c (e.set_host_name (sni_host url) w)

  abbrev pub handshake_on : Ssl → Client → World → Bool × Client × World
  handshake_on no_stream c w = (true, c, w)
  handshake_on closed_stream c w = shut_false c w
  handshake_on (open_stream fd) c w = announce fd c (random_fake_url e config w)

  -- doHandshakeClient
  unfoldable pub do_handshake_client : Client → World → Bool × Client × World
  unfolding socket_shutdown random_fake_url sni_host
  do_handshake_client c w = if not c.tls_enabled then (true, c, w) else handshake_on c.ssl c w

  -- The stream that reads and writes go through, if there is an open one.
  abbrev pub socket_stream : Option ℕ → Option Stream
  socket_stream none = none
  socket_stream (some fd) = some (tcp fd)

  abbrev pub ssl_stream : Ssl → Option ℕ → Option Stream
  ssl_stream no_stream fd = socket_stream fd
  ssl_stream closed_stream fd = none
  ssl_stream (open_stream fd) _ = some (tls fd)

  unfoldable pub stream_of : Client → Option Stream
  stream_of c = if c.tls_enabled then ssl_stream c.ssl c.socket else socket_stream c.socket

  abbrev pub after_write : Client → Written × World → Bool × Client × World
  after_write c (sent, w) = (true, cancel_timeout (record c { write_buffer = [] }), w)
  after_write c (stopped n, w) =
      shut_false (cancel_timeout (record c { write_buffer = drop n c.write_buffer })) w

  abbrev pub write_to : Option Stream → Client → World → Bool × Client × World
  write_to none c w = shut_false c w
  write_to (some s) c w =
      if is_empty c.write_buffer
      then shut_false c w
      else after_write (reset_timeout c) (e.write s c.write_buffer w)

  -- doWrite. The caller's buffer is empty afterwards.
  unfoldable pub do_write : Bytes → Client → World → Bool × Client × World
  unfolding socket_shutdown stream_of
  do_write bytes c w = write_to (stream_of c) (record c { write_buffer = bytes }) w

  -- The end of doReadAgent, on what was read.
  abbrev pub after_message : Client → Reading World → Bool × Client × World
  after_message c reading =
      let read = record (cancel_timeout c) { read_buffer = reading.out } in
      elim reading.error [
        | some error ↦ shut_false read reading.world
        | none ↦
            if is_empty reading.out
            then shut_false read reading.world
            else (true, record read { buffer = reading.out }, reading.world)
      ]

  abbrev pub read_message_from : ℕ → Option Stream → Client → World → Option (Bool × Client × World)
  read_message_from fuel none c w = some (false, c, w)
  read_message_from fuel (some s) c w = elim (read_http_message e s fuel w) [
    | none ↦ none
    | some r ↦ some (after_message (reset_timeout c) r)
  ]

  -- `if (!sslSocket_)` behind `isOpen()`: TLS was enabled, and the plain socket is the open one.
  abbrev pub is_torn : Client → Bool
  is_torn c = c.tls_enabled && (not (has_ssl c.ssl) && socket_open c.socket)

  -- doReadAgent; `none` if the fuel runs out in a chunked body.
  unfoldable pub do_read_agent : ℕ → Client → World → Option (Bool × Client × World)
  unfolding socket_shutdown stream_of
  do_read_agent fuel c w =
      let cleared = record c { read_buffer = []; buffer = [] } in
      if is_torn c
      then some (shut_false (cancel_timeout (reset_timeout cleared)) w)
      else read_message_from fuel (stream_of c) cleared w

  -- The log line names the peer, which throws if it is gone: `false`.
  abbrev pub after_peer : Client → Bool × World → Client × World
  after_peer c (true, w) = (record c { buffer = c.buffer ++ c.read_buffer }, w)
  after_peer c (false, w) = socket_shutdown c w

  abbrev pub fd_of : Stream → ℕ
  fd_of (tcp fd) = fd
  fd_of (tls fd) = fd

  abbrev pub after_read_some : Stream → Client → Read × World → Client × World
  after_read_some s c (failed error, w) = socket_shutdown (cancel_timeout c) w
  after_read_some s c (got [], w) = (record (cancel_timeout c) { ended = true }, w)
  after_read_some s c (got (b ∷ bytes), w) =
      after_peer (record (cancel_timeout c) { read_buffer = b ∷ bytes; ended = false })
        (e.has_peer (fd_of s) w)

  abbrev pub read_some_from : Option Stream → Client → World → Client × World
  read_some_from none c w = (c, w)
  read_some_from (some s) c w = after_read_some s (reset_timeout c) (e.read_some s 16384 w)

  -- doReadServer
  unfoldable pub do_read_server : Client → World → Client × World
  unfolding socket_shutdown stream_of
  do_read_server c w = read_some_from (stream_of c) (record c { ended = false; read_buffer = [] }) w
