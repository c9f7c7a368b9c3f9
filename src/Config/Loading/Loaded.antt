-- ===== src/Config/Loading/Loaded.antt =====
-- The settings that core/src/config.cpp makes of a file, described by the entries of the file.
use nipovpn.Base.{ℕ, ◌≤◌, ◌≡◌, ◌⊎◌, Bytes, codes}
use nipovpn.Host.{Host, value}
use nipovpn.Config.{Config, General, Log, Server, Agent, RunMode, server, agent}
use nipovpn.Config.Loading.{string_at, strings_at, unsigned_at, short_at, bool_at}
use nipovpn.Config.Validation.Accepted.{Gives}

-- `node[block][key]` throws for a scalar in place of a block, and then for every key.
pub record IsYaml (h : Host) : Type 0 where
  pub reaches :
      (n : h.Node) (block key other : Bytes) → Gives (h.at n block key) → Gives (h.at n block other)

module _ (h : Host) where
  open h use {World, Node}

  -- The settings that are those of the file.
  pub record GeneralOf (n : Node) (g : General) : Type 0 where
    pub token : string_at h n (codes "general") (codes "token") ≡ value g.token
    pub protocol : string_at h n (codes "general") (codes "protocol") ≡ value g.protocol
    pub buffer_size : unsigned_at h n (codes "general") (codes "bufferSize") ≡ value g.buffer_size
    pub fake_urls : strings_at h n (codes "general") (codes "fakeUrls") ≡ value g.fake_urls
    pub methods : strings_at h n (codes "general") (codes "methods") ≡ value g.methods
    pub end_points : strings_at h n (codes "general") (codes "endPoints") ≡ value g.end_points
    pub timeout : short_at h n (codes "general") (codes "timeout") ≡ value g.timeout
    pub pull_timeout : short_at h n (codes "general") (codes "pullTimeout") ≡ value g.pull_timeout
    pub tunnel_enable : bool_at h n (codes "general") (codes "tunnelEnable") ≡ value g.tunnel_enable

  pub record LogOf (n : Node) (l : Log) : Type 0 where
    pub level : string_at h n (codes "log") (codes "logLevel") ≡ value l.level
    pub file : string_at h n (codes "log") (codes "logFile") ≡ value l.file

  pub record ServerOf (n : Node) (s : Server) : Type 0 where
    pub listen_ip : string_at h n (codes "server") (codes "listenIp") ≡ value s.listen_ip
    pub listen_port : short_at h n (codes "server") (codes "listenPort") ≡ value s.listen_port

  pub record AgentOf (n : Node) (a : Agent) : Type 0 where
    pub listen_ip : string_at h n (codes "agent") (codes "listenIp") ≡ value a.listen_ip
    pub listen_port : short_at h n (codes "agent") (codes "listenPort") ≡ value a.listen_port
    pub server_ip : string_at h n (codes "agent") (codes "serverIp") ≡ value a.server_ip
    pub server_port : short_at h n (codes "agent") (codes "serverPort") ≡ value a.server_port
    pub http_version : string_at h n (codes "agent") (codes "httpVersion") ≡ value a.http_version
    pub user_agent : string_at h n (codes "agent") (codes "userAgent") ≡ value a.user_agent

  -- What a mode listens on, and with how many threads.
  abbrev pub listening : RunMode → Config → Bytes × ℕ × ℕ
  listening server c = (c.server.listen_ip, c.server.listen_port, c.server.threads)
  listening agent c = (c.agent.listen_ip, c.agent.listen_port, c.agent.threads)

  -- The settings of a mode, a path and a file.
  pub record IsLoaded (mode : RunMode) (path : Bytes) (n : Node) (c : Config) : Type 0 where
    pub run_mode : c.run_mode ≡ mode
    pub file_path : c.file_path ≡ path
    pub listens : (c.listen_ip, c.listen_port, c.threads) ≡ listening mode c
    pub general_of : GeneralOf n c.general
    pub log_of : LogOf n c.log
    pub server_of : ServerOf n c.server
    pub agent_of : AgentOf n c.agent
    pub protocol : (c.general.protocol ≡ codes "http") ⊎ (c.general.protocol ≡ codes "socks5")
    pub buffer_size : (1 ≤ c.general.buffer_size) × (c.general.buffer_size ≤ 65536)
