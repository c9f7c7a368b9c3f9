-- ===== src/Config/Validation/Accepted.antt =====
-- What `validateConfig` of core/src/general.hpp accepts, as a condition on the arguments and on the
-- entries of the file.
use nipovpn.Base.{ℕ, ◌≤◌, ◌≡◌, ◌⊎◌, true, List, [], ◌∷◌, Bytes, codes, All}
use nipovpn.Host.{Host, Yields, value}
use nipovpn.Config.Loading.{string_at, strings_at, unsigned_at, short_at, bool_at}

-- The type that an entry is read as.
pub data Kind : Type 0 where
  text texts unsigned short bool : Kind

abbrev pub Required : Type 0
Required = Kind × Bytes × Bytes

abbrev pub required_general : List Required
required_general =
    (text, codes "general", codes "token")
    ∷ (text, codes "general", codes "protocol")
    ∷ (unsigned, codes "general", codes "bufferSize")
    ∷ (texts, codes "general", codes "fakeUrls")
    ∷ (texts, codes "general", codes "methods")
    ∷ (texts, codes "general", codes "endPoints")
    ∷ (short, codes "general", codes "timeout")
    ∷ (short, codes "general", codes "pullTimeout")
    ∷ (bool, codes "general", codes "tunnelEnable")
    ∷ []

abbrev pub required_log : List Required
required_log = (text, codes "log", codes "logFile") ∷ (text, codes "log", codes "logLevel") ∷ []

abbrev pub required_server : List Required
required_server =
    (text, codes "server", codes "listenIp") ∷ (short, codes "server", codes "listenPort") ∷ []

abbrev pub required_agent : List Required
required_agent =
    (text, codes "agent", codes "listenIp")
    ∷ (short, codes "agent", codes "listenPort")
    ∷ (text, codes "agent", codes "serverIp")
    ∷ (short, codes "agent", codes "serverPort")
    ∷ (text, codes "agent", codes "httpVersion")
    ∷ (text, codes "agent", codes "userAgent")
    ∷ []

-- A call that does not throw.
abbrev pub Gives : {A : Type 0} → Yields A → Type 0
Gives {A} r = (a : A) × (r ≡ value a)

module _ (h : Host) where
  open h use {World, Node}

  abbrev pub Holds : Node → Required → Type 0
  Holds n (text, block, key) = Gives (string_at h n block key)
  Holds n (texts, block, key) = Gives (strings_at h n block key)
  Holds n (unsigned, block, key) = Gives (unsigned_at h n block key)
  Holds n (short, block, key) = Gives (short_at h n block key)
  Holds n (bool, block, key) = Gives (bool_at h n block key)

  -- A file with every entry that is required, each of its type, and two values in their range.
  pub record IsValid (n : Node) : Type 0 where
    pub general : All (Holds n) required_general
    pub log : All (Holds n) required_log
    pub server : All (Holds n) required_server
    pub agent : All (Holds n) required_agent
    pub protocol :
        (string_at h n (codes "general") (codes "protocol") ≡ value (codes "http"))
        ⊎ (string_at h n (codes "general") (codes "protocol") ≡ value (codes "socks5"))
    pub size : ℕ
    pub size_read : unsigned_at h n (codes "general") (codes "bufferSize") ≡ value size
    pub size_range : (1 ≤ size) × (size ≤ 65536)

  -- Two arguments, of which the first is a mode and the second a path to a valid file.
  pub record IsAccepted (args : List Bytes) (w : World) : Type 0 where
    pub name : Bytes
    pub mode : Bytes
    pub path : Bytes
    pub node : Node
    pub arguments : args ≡ name ∷ mode ∷ path ∷ []
    pub mode_known : (mode ≡ codes "server") ⊎ (mode ≡ codes "agent")
    pub readable : (h.readable path w).0 ≡ true
    pub loaded : (h.load_file path (h.readable path w).1).0 ≡ value node
    pub valid : IsValid node
