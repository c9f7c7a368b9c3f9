-- ===== src/Tests/Program.antt =====
-- The start of the program on example files: a whole one, and one with a protocol that is not known.
use nipovpn.Base.{
  ℕ, ◌≡◌, ◌↔◌, refl, Bool, true, List, [], ◌∷◌, ◌&&◌, Bytes, codes, equal, if◌then◌else◌,
}
use nipovpn.Crypto.{BoolStr}
use nipovpn.Host.{Host, Yields, value, raised}
use nipovpn.Config.Loading.{new_config}
use nipovpn.Config.Validation.{validate_config}
use nipovpn.Config.Validation.Accepted.{IsAccepted}
use nipovpn.Config.Validation.Arguments.{validate_config_iff}
use nipovpn.Program

-- An entry of a file.
data Entry : Type 0 where
  text : Bytes → Entry
  texts : List Bytes → Entry
  number : ℕ → Entry
  truth : Bool → Entry
  undefined : Entry

abbrev File : Type 0
File = List (Bytes × Bytes × Entry)

abbrev entry : File → Bytes → Bytes → Entry
entry [] b k = undefined
entry ((block, key, x) ∷ n) b k = if equal block b && equal key k then x else entry n b k

abbrev text_of : Entry → Yields Bytes
text_of (text s) = value s
text_of _ = raised (codes "bad conversion")

abbrev texts_of : Entry → Yields (List Bytes)
texts_of (texts s) = value s
texts_of _ = raised (codes "bad conversion")

abbrev number_of : Entry → Yields ℕ
number_of (number n) = value n
number_of _ = raised (codes "bad conversion")

abbrev truth_of : Entry → Yields Bool
truth_of (truth b) = value b
truth_of _ = raised (codes "bad conversion")

-- A host with one file, whose world is what was printed.
abbrev host : File → Host
host file = record {
  World = List Bytes;
  Node = File;
  Entry = Entry;
  readable = λ path w. (true, w);
  load_file = λ path w. (value file, w);
  at = λ n block key. value (entry n block key);
  as_string = text_of;
  as_strings = texts_of;
  as_unsigned = number_of;
  as_short = number_of;
  as_bool = truth_of;
  open_append = λ path w. (true, w);
  append = λ path line w. w;
  timestamp = λ w. (codes "2024-01-01_00:00:00", w);
  cout = λ line w. line ∷ w;
  cerr = λ line w. line ∷ w;
  listen = λ ip port w. (value tt, w);
  run_threads = λ n w. codes "served" ∷ w;
}

abbrev file : Bytes → File
file protocol =
    (codes "general", codes "token", text (codes "secret"))
    ∷ (codes "general", codes "protocol", text protocol)
    ∷ (codes "general", codes "bufferSize", number 4096)
    ∷ (codes "general", codes "fakeUrls", texts (codes "http://fake.example/" ∷ []))
    ∷ (codes "general", codes "methods", texts (codes "GET" ∷ []))
    ∷ (codes "general", codes "endPoints", texts (codes "api" ∷ []))
    ∷ (codes "general", codes "timeout", number 10)
    ∷ (codes "general", codes "pullTimeout", number 1)
    ∷ (codes "general", codes "tunnelEnable", truth true)
    ∷ (codes "log", codes "logFile", text (codes "/var/log/nipovpn.log"))
    ∷ (codes "log", codes "logLevel", text (codes "INFO"))
    ∷ (codes "server", codes "listenIp", text (codes "0.0.0.0"))
    ∷ (codes "server", codes "listenPort", number 80)
    ∷ (codes "agent", codes "listenIp", text (codes "127.0.0.1"))
    ∷ (codes "agent", codes "listenPort", number 8080)
    ∷ (codes "agent", codes "serverIp", text (codes "192.0.2.1"))
    ∷ (codes "agent", codes "serverPort", number 80)
    ∷ (codes "agent", codes "httpVersion", text (codes "1.1"))
    ∷ (codes "agent", codes "userAgent", text (codes "NipoAgent"))
    ∷ []

abbrev arguments : List Bytes
arguments = codes "nipovpn" ∷ codes "agent" ∷ codes "nipovpn.yaml" ∷ []

abbrev whole : Host
whole = host (file (codes "http"))

starts : (Program.main whole arguments []).0 ≡ Program.exited 0
unfolding Program.main validate_config equal new_config
starts = refl

refuses : (Program.main (host (file (codes "ftp"))) arguments []).0 ≡ Program.exited 1
unfolding Program.main validate_config equal new_config
refuses = refl

validate_config_iff_example :
    (b : BoolStr) × ((validate_config whole arguments []).0 ≡ value b)
    × ((b.good ≡ true) ↔ IsAccepted whole arguments [])
validate_config_iff_example = validate_config_iff whole arguments []
