-- ===== src/Config.antt =====
-- core/src/config.hpp and config.cpp: the settings that the other parts read, and the choices
-- among them. The mutex around each accessor has no counterpart: the accessors are the fields.
pub mod Loading
pub mod Validation
pub mod Printing
use nipovpn.Base.{
  ℕ, Bool, Option, none, some, List, [], ◌∷◌, ◌+◌, Bytes, codes, length, get_elem?, take, drop,
}
use nipovpn.Text.{find, find_char}
use nipovpn.Env.{Env}

pub data RunMode : Type 0 where
  server agent : RunMode

pub record General : Type 0 where
  pub token : Bytes
  pub protocol : Bytes
  pub buffer_size : ℕ
  pub fake_urls : List Bytes
  pub methods : List Bytes
  pub end_points : List Bytes
  pub timeout : ℕ
  pub pull_timeout : ℕ
  pub tunnel_enable : Bool
  pub connection_reuse : Bool
  pub tls_enable : Bool
  pub tls_verify_peer : Bool
  pub tls_cert_file : Bytes
  pub tls_key_file : Bytes
  pub tls_ca_file : Bytes

pub record Log : Type 0 where
  pub level : Bytes
  pub file : Bytes

pub record Server : Type 0 where
  pub threads : ℕ
  pub listen_ip : Bytes
  pub listen_port : ℕ

pub record Agent : Type 0 where
  pub threads : ℕ
  pub listen_ip : Bytes
  pub listen_port : ℕ
  pub server_ip : Bytes
  pub server_port : ℕ
  pub http_version : Bytes
  pub user_agent : Bytes

-- The members of `Config`, without the parsed file, which only the constructor reads.
pub record Config : Type 0 where
  pub run_mode : RunMode
  pub file_path : Bytes
  pub threads : ℕ
  pub listen_ip : Bytes
  pub listen_port : ℕ
  pub general : General
  pub log : Log
  pub server : Server
  pub agent : Agent

-- modeToString
unfoldable pub mode_to_string : RunMode → Bytes
mode_to_string server = codes "server"
mode_to_string agent = codes "agent"

abbrev pub or_else : Bytes → Option Bytes → Bytes
or_else s none = s
or_else s (some t) = t

-- What `uniform_int_distribution` chose among the values, or the fallback for no values.
abbrev pub chosen : {W : Type 0} → Bytes → List Bytes → ℕ × W → Bytes × W
chosen fallback xs (i, w) = (or_else fallback (get_elem? xs i), w)

abbrev pub choose : (e : Env) → Bytes → List Bytes → e.World → Bytes × e.World
choose e fallback [] w = (fallback, w)
choose e fallback (x ∷ xs) w = chosen fallback (x ∷ xs) (e.pick (length (x ∷ xs)) w)

module _ (e : Env) (config : Config) where
  -- randomFakeUrl
  unfoldable pub random_fake_url : e.World → Bytes × e.World
  random_fake_url = choose e (codes "www.google.com") config.general.fake_urls

  -- randomMethod
  unfoldable pub random_method : e.World → Bytes × e.World
  random_method = choose e (codes "GET") config.general.methods

  -- randomEndPoint
  unfoldable pub random_end_point : e.World → Bytes × e.World
  random_end_point = choose e (codes "api") config.general.end_points

-- The text behind `://`, and the text before a character.
abbrev pub behind_scheme : Bytes → Bytes
behind_scheme s = elim (find (codes "://") s) [ none ↦ s | some i ↦ drop (i + 3) s ]

abbrev pub upto : ℕ → Bytes → Bytes
upto x s = elim (find_char x s) [ none ↦ s | some i ↦ take i s ]

-- relayHostHeader of AgentHandler, and makeRelayHostHeader of TCPConnection, on the chosen URL.
unfoldable pub relay_host_header : Bytes → Bytes
relay_host_header url = upto b'/' (behind_scheme url)

-- The name that `doHandshakeClient` announces, on the chosen URL.
unfoldable pub sni_host : Bytes → Bytes
sni_host url = upto b':' (upto b'/' (behind_scheme url))
