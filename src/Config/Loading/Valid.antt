-- ===== src/Config/Loading/Valid.antt =====
-- The constructor of `Config` on a file that `validateConfig` accepted: core/src/config.cpp behind
-- core/src/general.hpp.
use nipovpn.Base.{ℕ, ◌≤◌, ◌≡◌, refl, sym, ◌∙◌, ◌⊎◌, inl, inr, false, [], Bytes, codes, arith}
use nipovpn.Host.{Host, Yields, value, raised, or_default, ◌>>=◌, value_inj}
use nipovpn.Config.{Config, General, Log, Server, Agent, RunMode, server, agent}
use nipovpn.Config.Loading
use nipovpn.Config.Loading.{string_at, strings_at, unsigned_at, short_at, bool_at}
use nipovpn.Config.Validation.Accepted.{Gives, IsValid}
use nipovpn.Config.Loading.Loaded.{IsYaml, GeneralOf, LogOf, ServerOf, AgentOf, IsLoaded}

bind-value : {A B : Type 0} (r : Yields A) (f : A → Yields B) → Gives (r >>= f) → Gives r
bind-value (value a) f e = (a, refl)
bind-value (raised what) f e = ground arith

-- A default is not used where the entry has a value.
given :
    {A B : Type 0} (r : Yields A) (f : A → Yields B) (d v : B)
    → r >>= f ≡ value v
    → (r >>= λ x. value (or_default d (f x))) ≡ value v
given (value a) f d v e = rw e refl
given (raised what) f d v e = ground arith

defaulted :
    {A B : Type 0} (r : Yields A) (f : A → Yields B) (d : B)
    → Gives r
    → Gives (r >>= λ x. value (or_default d (f x)))
defaulted r f d (a, e) = rw e (_, refl)

module _ (h : Host) where
  open h use {World, Node}

  module _ (yaml : IsYaml h) where
    string_given :
        (n : Node) (block key d v : Bytes)
        → string_at h n block key ≡ value v
        → Loading.string_or h d n block key ≡ value v
    string_given n block key = given (h.at n block key) h.as_string

    short_given :
        (n : Node) (block key : Bytes) (d v : ℕ)
        → short_at h n block key ≡ value v
        → Loading.short_or h d n block key ≡ value v
    short_given n block key = given (h.at n block key) h.as_short

    load_log-valid :
        (n : Node) → IsValid h n → (l : Log) × (Loading.load_log h n ≡ value l) × LogOf h n l
    unfolding Loading.load_log
    load_log-valid n v =
        let (file, e) = v.log.0 in
        let (level, e') = v.log.1.0 in
        (
          record { level = level; file = file },
          rw (string_given n _ _ (codes "INFO") level e', e) refl,
          record { level = e'; file = e },
        )

    load_server-valid :
        (n : Node)
        → IsValid h n
        → (s : Server) × (Loading.load_server h n ≡ value s) × ServerOf h n s
    unfolding Loading.load_server
    load_server-valid n v =
        let (ip, e) = v.server.0 in
        let (port, e') = v.server.1.0 in
        let (threads, t) =
          defaulted (h.at n (codes "server") (codes "threads")) h.as_short 2
            (yaml.reaches n _ _ _ (bind-value _ h.as_string (ip, e))) in
        (
          record { threads = threads; listen_ip = ip; listen_port = port },
          rw (t, string_given n _ _ (codes "127.0.0.1") ip e, short_given n _ _ 8080 port e') refl,
          record { listen_ip = e; listen_port = e' },
        )

    load_agent-valid :
        (n : Node) → IsValid h n → (a : Agent) × (Loading.load_agent h n ≡ value a) × AgentOf h n a
    unfolding Loading.load_agent
    load_agent-valid n v =
        let (ip, e) = v.agent.0 in
        let (port, e') = v.agent.1.0 in
        let (server_ip, f) = v.agent.1.1.0 in
        let (server_port, f') = v.agent.1.1.1.0 in
        let (version, g) = v.agent.1.1.1.1.0 in
        let (user, g') = v.agent.1.1.1.1.1.0 in
        let (threads, t) =
          defaulted (h.at n (codes "agent") (codes "threads")) h.as_short 2
            (yaml.reaches n _ _ _ (bind-value _ h.as_string (ip, e))) in
        (
          record {
            threads = threads;
            listen_ip = ip;
            listen_port = port;
            server_ip = server_ip;
            server_port = server_port;
            http_version = version;
            user_agent = user;
          },
          rw
              (
                t,
                string_given n _ _ (codes "127.0.0.1") ip e,
                short_given n _ _ 8080 port e',
                string_given n _ _ (codes "127.0.0.1") server_ip f,
                short_given n _ _ 8080 server_port f',
                string_given n _ _ (codes "1.1") version g,
                string_given n _ _ (codes "NipoAgent") user g',
              )
              refl,
          record {
            listen_ip = e;
            listen_port = e';
            server_ip = f;
            server_port = f';
            http_version = g;
            user_agent = g';
          },
        )

    -- The entries of `general` that are not required.
    absent_string :
        (n : Node) (key d : Bytes)
        → IsValid h n
        → Gives (Loading.string_or h d n (codes "general") key)
    absent_string n key d v =
        defaulted (h.at n (codes "general") key) h.as_string d
          (yaml.reaches n _ (codes "token") _ (bind-value _ h.as_string v.general.0))

    absent_bool :
        (n : Node) (key : Bytes) → IsValid h n → Gives (Loading.bool_or h n (codes "general") key)
    absent_bool n key v =
        defaulted (h.at n (codes "general") key) h.as_bool false
          (yaml.reaches n _ (codes "token") _ (bind-value _ h.as_string v.general.0))

    load_general-valid :
        (n : Node)
        → IsValid h n
        → (g : General) × (Loading.load_general h n ≡ value g) × GeneralOf h n g
    unfolding Loading.load_general
    load_general-valid n v =
        let (token, e0) = v.general.0 in
        let (protocol, e1) = v.general.1.0 in
        let (size, e2) = v.general.1.1.0 in
        let (urls, e3) = v.general.1.1.1.0 in
        let (methods, e4) = v.general.1.1.1.1.0 in
        let (points, e5) = v.general.1.1.1.1.1.0 in
        let (timeout, e6) = v.general.1.1.1.1.1.1.0 in
        let (pull, e7) = v.general.1.1.1.1.1.1.1.0 in
        let (tunnel, e8) = v.general.1.1.1.1.1.1.1.1.0 in
        let (reuse, t0) = absent_bool n (codes "connectionReuse") v in
        let (enable, t1) = absent_bool n (codes "tlsEnable") v in
        let (verify, t2) = absent_bool n (codes "tlsVerifyPeer") v in
        let (cert, t3) = absent_string n (codes "tlsCertFile") [] v in
        let (key, t4) = absent_string n (codes "tlsKeyFile") [] v in
        let (ca, t5) = absent_string n (codes "tlsCaFile") [] v in
        (
          record {
            token = token;
            protocol = protocol;
            buffer_size = size;
            fake_urls = urls;
            methods = methods;
            end_points = points;
            timeout = timeout;
            pull_timeout = pull;
            tunnel_enable = tunnel;
            connection_reuse = reuse;
            tls_enable = enable;
            tls_verify_peer = verify;
            tls_cert_file = cert;
            tls_key_file = key;
            tls_ca_file = ca;
          },
          rw
              (
                e0,
                string_given n _ _ [] protocol e1,
                given (h.at n (codes "general") (codes "bufferSize")) h.as_unsigned 65536 size e2,
                e3,
                e4,
                e5,
                short_given n _ _ 10 timeout e6,
                short_given n _ _ 1 pull e7,
                given (h.at n (codes "general") (codes "tunnelEnable")) h.as_bool false tunnel e8,
                t0,
                t1,
                t2,
                t3,
                t4,
                t5,
              )
              refl,
          record {
            token = e0;
            protocol = e1;
            buffer_size = e2;
            fake_urls = e3;
            methods = e4;
            end_points = e5;
            timeout = e6;
            pull_timeout = e7;
            tunnel_enable = e8;
          },
        )

    with_mode-IsLoaded :
        (mode : RunMode) (path : Bytes) (n : Node) (g : General) (l : Log) (s : Server) (a : Agent)
        → IsValid h n
        → GeneralOf h n g
        → LogOf h n l
        → ServerOf h n s
        → AgentOf h n a
        → IsLoaded h mode path n (Loading.with_mode h mode path g l s a)
    with_mode-IsLoaded mode path n g l s a v g' l' s' a' = by_mode mode
      where
        known : (g.protocol ≡ codes "http") ⊎ (g.protocol ≡ codes "socks5")
        known = elim v.protocol [
          | inl k ↦ inl (value_inj (sym g'.protocol ∙ k))
          | inr k ↦ inr (value_inj (sym g'.protocol ∙ k))
        ]

        range : (1 ≤ g.buffer_size) × (g.buffer_size ≤ 65536)
        range = rw (value_inj (sym g'.buffer_size ∙ v.size_read)) v.size_range

        by_mode : (m : RunMode) → IsLoaded h m path n (Loading.with_mode h m path g l s a)
        by_mode server = record {
          run_mode = refl;
          file_path = refl;
          listens = refl;
          general_of = g';
          log_of = l';
          server_of = s';
          agent_of = a';
          protocol = known;
          buffer_size = range;
        }
        by_mode agent = record {
          run_mode = refl;
          file_path = refl;
          listens = refl;
          general_of = g';
          log_of = l';
          server_of = s';
          agent_of = a';
          protocol = known;
          buffer_size = range;
        }

    -- Of a file that `validateConfig` accepts the constructor of `Config` makes the settings.
    pub load_config-valid :
        (mode : RunMode) (path : Bytes) (n : Node)
        → IsValid h n
        → (c : Config) × (Loading.load_config h mode path n ≡ value c) × IsLoaded h mode path n c
    unfolding Loading.load_config
    load_config-valid mode path n v =
        let (g, eg, g') = load_general-valid n v in
        let (l, el, l') = load_log-valid n v in
        let (s, es, s') = load_server-valid n v in
        let (a, ea, a') = load_agent-valid n v in
        (
          Loading.with_mode h mode path g l s a,
          rw (eg, el, es, ea) refl,
          with_mode-IsLoaded mode path n g l s a v g' l' s' a',
        )
