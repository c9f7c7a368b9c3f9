-- ===== src/Config/Loading.antt =====
-- The constructors of `Config`: from a parsed file, where most entries have a default, and from
-- another configuration, whose file is parsed again.
pub mod Loaded
pub mod Valid
use nipovpn.Base.{ℕ, Bool, false, List, [], Bytes, codes}
use nipovpn.Host.{Host, Yields, value, or_default, ◌>>=◌}
use nipovpn.Config.{Config, General, Log, Server, Agent, RunMode, server, agent}

module _ (h : Host) where
  open h use {World, Node, at, as_string, as_strings, as_unsigned, as_short, as_bool}

  -- `node[block][key].as<T>()`
  abbrev pub string_at : Node → Bytes → Bytes → Yields Bytes
  string_at n block key = at n block key >>= as_string

  abbrev pub strings_at : Node → Bytes → Bytes → Yields (List Bytes)
  strings_at n block key = at n block key >>= as_strings

  abbrev pub unsigned_at : Node → Bytes → Bytes → Yields ℕ
  unsigned_at n block key = at n block key >>= as_unsigned

  abbrev pub short_at : Node → Bytes → Bytes → Yields ℕ
  short_at n block key = at n block key >>= as_short

  abbrev pub bool_at : Node → Bytes → Bytes → Yields Bool
  bool_at n block key = at n block key >>= as_bool

  -- `node[block][key].as<T>(fallback)`, which throws only where the entry cannot be reached.
  abbrev pub string_or : Bytes → Node → Bytes → Bytes → Yields Bytes
  string_or d n block key = at n block key >>= λ x. value (or_default d (as_string x))

  abbrev pub unsigned_or : ℕ → Node → Bytes → Bytes → Yields ℕ
  unsigned_or d n block key = at n block key >>= λ x. value (or_default d (as_unsigned x))

  abbrev pub short_or : ℕ → Node → Bytes → Bytes → Yields ℕ
  short_or d n block key = at n block key >>= λ x. value (or_default d (as_short x))

  abbrev pub bool_or : Node → Bytes → Bytes → Yields Bool
  bool_or n block key = at n block key >>= λ x. value (or_default false (as_bool x))

  -- The initialiser of `general_`.
  unfoldable pub load_general : Node → Yields General
  load_general n = do
    token ← string_at n (codes "general") (codes "token")
    protocol ← string_or [] n (codes "general") (codes "protocol")
    buffer_size ← unsigned_or 65536 n (codes "general") (codes "bufferSize")
    fake_urls ← strings_at n (codes "general") (codes "fakeUrls")
    methods ← strings_at n (codes "general") (codes "methods")
    end_points ← strings_at n (codes "general") (codes "endPoints")
    timeout ← short_or 10 n (codes "general") (codes "timeout")
    pull_timeout ← short_or 1 n (codes "general") (codes "pullTimeout")
    tunnel_enable ← bool_or n (codes "general") (codes "tunnelEnable")
    connection_reuse ← bool_or n (codes "general") (codes "connectionReuse")
    tls_enable ← bool_or n (codes "general") (codes "tlsEnable")
    tls_verify_peer ← bool_or n (codes "general") (codes "tlsVerifyPeer")
    tls_cert_file ← string_or [] n (codes "general") (codes "tlsCertFile")
    tls_key_file ← string_or [] n (codes "general") (codes "tlsKeyFile")
    tls_ca_file ← string_or [] n (codes "general") (codes "tlsCaFile")
    value (record {
      token = token;
      protocol = protocol;
      buffer_size = buffer_size;
      fake_urls = fake_urls;
      methods = methods;
      end_points = end_points;
      timeout = timeout;
      pull_timeout = pull_timeout;
      tunnel_enable = tunnel_enable;
      connection_reuse = connection_reuse;
      tls_enable = tls_enable;
      tls_verify_peer = tls_verify_peer;
      tls_cert_file = tls_cert_file;
      tls_key_file = tls_key_file;
      tls_ca_file = tls_ca_file;
    })

  -- The initialiser of `log_`.
  unfoldable pub load_log : Node → Yields Log
  load_log n = do
    level ← string_or (codes "INFO") n (codes "log") (codes "logLevel")
    file ← string_at n (codes "log") (codes "logFile")
    value (record { level = level; file = file })

  -- The initialiser of `server_`.
  unfoldable pub load_server : Node → Yields Server
  load_server n = do
    threads ← short_or 2 n (codes "server") (codes "threads")
    listen_ip ← string_or (codes "127.0.0.1") n (codes "server") (codes "listenIp")
    listen_port ← short_or 8080 n (codes "server") (codes "listenPort")
    value (record { threads = threads; listen_ip = listen_ip; listen_port = listen_port })

  -- The initialiser of `agent_`.
  unfoldable pub load_agent : Node → Yields Agent
  load_agent n = do
    threads ← short_or 2 n (codes "agent") (codes "threads")
    listen_ip ← string_or (codes "127.0.0.1") n (codes "agent") (codes "listenIp")
    listen_port ← short_or 8080 n (codes "agent") (codes "listenPort")
    server_ip ← string_or (codes "127.0.0.1") n (codes "agent") (codes "serverIp")
    server_port ← short_or 8080 n (codes "agent") (codes "serverPort")
    http_version ← string_or (codes "1.1") n (codes "agent") (codes "httpVersion")
    user_agent ← string_or (codes "NipoAgent") n (codes "agent") (codes "userAgent")
    value (record {
      threads = threads;
      listen_ip = listen_ip;
      listen_port = listen_port;
      server_ip = server_ip;
      server_port = server_port;
      http_version = http_version;
      user_agent = user_agent;
    })

  -- The body of the constructor: the threads and the address of the mode.
  abbrev pub with_mode : RunMode → Bytes → General → Log → Server → Agent → Config
  with_mode server path g l s a = record {
    run_mode = server;
    file_path = path;
    threads = s.threads;
    listen_ip = s.listen_ip;
    listen_port = s.listen_port;
    general = g;
    log = l;
    server = s;
    agent = a;
  }
  with_mode agent path g l s a = record {
    run_mode = agent;
    file_path = path;
    threads = a.threads;
    listen_ip = a.listen_ip;
    listen_port = a.listen_port;
    general = g;
    log = l;
    server = s;
    agent = a;
  }

  -- The constructor, behind the load of the file.
  unfoldable pub load_config : RunMode → Bytes → Node → Yields Config
  unfolding load_general load_log load_server load_agent
  load_config mode path n = do
    g ← load_general n
    l ← load_log n
    s ← load_server n
    a ← load_agent n
    value (with_mode mode path g l s a)

  -- The constructor from a mode and a path.
  unfoldable pub new_config : RunMode → Bytes → World → Yields Config × World
  unfolding load_config
  new_config mode path w = let (n, w') = h.load_file path w in (n >>= load_config mode path, w')

  -- The constructor from another configuration: the file is loaded, and its content not used.
  unfoldable pub copy_config : Config → World → Yields Config × World
  copy_config config w =
      let (n, w') = h.load_file config.file_path w in (n >>= λ _. value config, w')
