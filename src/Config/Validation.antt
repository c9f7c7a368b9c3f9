-- ===== src/Config/Validation.antt =====
-- `validateConfig` of core/src/general.hpp: the arguments of the program, and the entries that the
-- file has to hold.
pub mod Accepted
pub mod Entries
pub mod Arguments
use nipovpn.Base.{
  Bool, true, false, not, ◌&&◌, ◌||◌, List, [], ◌∷◌, ◌++◌, Bytes, codes, equal, ltb, if◌then◌else◌,
}
use nipovpn.Crypto.{BoolStr}
use nipovpn.Host.{Host, Yields, value, raised, ◌>>=◌, ◌>>◌}
use nipovpn.Config.Loading.{string_at, strings_at, unsigned_at, short_at, bool_at}

abbrev pub failed : Bytes → BoolStr
failed message = record { good = false; text = message }

module _ (h : Host) where
  open h use {World, Node}

  -- The four `try` blocks, each up to the first entry that throws.
  unfoldable pub read_general : Node → Yields Unit
  read_general n = do
    string_at h n (codes "general") (codes "token")
    string_at h n (codes "general") (codes "protocol")
    unsigned_at h n (codes "general") (codes "bufferSize")
    strings_at h n (codes "general") (codes "fakeUrls")
    strings_at h n (codes "general") (codes "methods")
    strings_at h n (codes "general") (codes "endPoints")
    short_at h n (codes "general") (codes "timeout")
    short_at h n (codes "general") (codes "pullTimeout")
    bool_at h n (codes "general") (codes "tunnelEnable")
    value tt

  unfoldable pub read_log : Node → Yields Unit
  read_log n = do
    string_at h n (codes "log") (codes "logFile")
    string_at h n (codes "log") (codes "logLevel")
    value tt

  unfoldable pub read_server : Node → Yields Unit
  read_server n = do
    string_at h n (codes "server") (codes "listenIp")
    short_at h n (codes "server") (codes "listenPort")
    value tt

  unfoldable pub read_agent : Node → Yields Unit
  read_agent n = do
    string_at h n (codes "agent") (codes "listenIp")
    short_at h n (codes "agent") (codes "listenPort")
    string_at h n (codes "agent") (codes "serverIp")
    short_at h n (codes "agent") (codes "serverPort")
    string_at h n (codes "agent") (codes "httpVersion")
    string_at h n (codes "agent") (codes "userAgent")
    value tt

  -- `catch (const std::exception &e)`: a message in place of what stands behind the block.
  abbrev pub caught : {A : Type 0} → Bytes → Yields A → (A → Yields BoolStr) → Yields BoolStr
  caught message (value a) rest = rest a
  caught message (raised what) rest = value (failed (message ++ (what ++ codes "\n")))

  -- The tests on the values, which stand behind the blocks.
  unfoldable pub check_values : Node → Yields BoolStr
  check_values n = do
    protocol ← string_at h n (codes "general") (codes "protocol")
    if not (equal protocol (codes "http")) && not (equal protocol (codes "socks5"))
        then value (failed (codes "protocol must be one of [http|socks5]\n"))
        else (do
          size ← unsigned_at h n (codes "general") (codes "bufferSize")
          if ltb size 1 || ltb 65536 size
              then value (failed (codes "bufferSize must be between 1 and 65536\n"))
              else value (record { good = true; text = codes "OK" }))

  abbrev pub check_agent : Node → Yields BoolStr
  check_agent n = caught (codes "Error in 'agent' block: ") (read_agent n) (λ _. check_values n)

  abbrev pub check_server : Node → Yields BoolStr
  check_server n = caught (codes "Error in 'server' block: ") (read_server n) (λ _. check_agent n)

  abbrev pub check_log : Node → Yields BoolStr
  check_log n = caught (codes "Error in 'log' block: ") (read_log n) (λ _. check_server n)

  unfoldable pub check_node : Node → Yields BoolStr
  unfolding read_general read_log read_server read_agent check_values
  check_node n = caught (codes "Error in 'general' block: ") (read_general n) (λ _. check_log n)

  abbrev pub check_loaded : Yields Node × World → Yields BoolStr × World
  check_loaded (n, w) = (caught (codes "Error parsing config file: ") n check_node, w)

  abbrev pub check_readable : Bytes → Bool × World → Yields BoolStr × World
  check_readable path (false, w) =
      (value (failed (codes "Config file " ++ (path ++ codes " does not exist\n"))), w)
  check_readable path (true, w) = check_loaded (h.load_file path w)

  -- validateConfig, on the texts of `argv`.
  unfoldable pub validate_config : List Bytes → World → Yields BoolStr × World
  unfolding check_node
  validate_config (name ∷ mode ∷ path ∷ []) w =
      if not (equal mode (codes "server")) && not (equal mode (codes "agent"))
      then (value (failed (codes "First argument must be one of [server|agent]\n")), w)
      else check_readable path (h.readable path w)
  validate_config _ w = (
    value (
        failed (
          codes
            "Requires 2 arguments: mode [server|agent] and config file path\nExample: nipovpn server config.yaml\n")),
    w,
  )
