-- ===== src/Log.antt =====
-- core/src/log.hpp and log.cpp: which messages reach the log file, and as which lines. The mutex
-- around a write has no counterpart: one message is written at a time.
use nipovpn.Base.{
  ℕ, Bool, true, false, ◌||◌, [], ◌++◌, Bytes, codes, equal, leb, ◌==◌, if◌then◌else◌,
}
use nipovpn.Host.{Host}
use nipovpn.Config.{Config, RunMode, server, agent}

-- Log::Level, in the order of its values.
pub data Level : Type 0 where
  info trace error debug : Level

abbrev pub rank : Level → ℕ
rank info = 0
rank trace = 1
rank error = 2
rank debug = 3

-- levelToString
unfoldable pub level_to_string : Level → Bytes
level_to_string info = codes "INFO"
level_to_string trace = codes "TRACE"
level_to_string error = codes "ERROR"
level_to_string debug = codes "DEBUG"

pub record Log : Type 0 where
  pub config : Config
  pub level : Level
  pub mode : Bytes

abbrev mode_name : RunMode → Bytes
mode_name server = codes "SERVER"
mode_name agent = codes "AGENT"

module _ (h : Host) where
  open h use {World}

  -- What both the constructor and a write report for a file that does not open.
  abbrev pub report_file : Bytes → World → World
  report_file path = h.cerr (
      codes "Error opening log file: "
      ++ (path ++ codes ". Make sure the directory and file exist.\n"))

  abbrev opened : Bytes → Bool × World → World
  opened path (true, w) = w
  opened path (false, w) = report_file path w

  -- The level of the settings. One that is not known is reported, and leaves the level at `INFO`.
  abbrev with_level : Bytes → World → Level × World
  with_level level w =
      if equal level (codes "INFO")
      then (info, w)
      else if equal level (codes "TRACE")
      then (trace, w)
      else if equal level (codes "DEBUG")
      then (debug, w)
      else (
        info,
        h.cerr
            (codes "Invalid log level: "
              ++ (level ++ codes ". It should be one of [INFO|TRACE|DEBUG].\n"))
            w,
      )

  -- The constructor.
  unfoldable pub new_log : Config → World → Log × World
  new_log c w =
      let (level, w') = with_level c.log.level (opened c.log.file (h.open_append c.log.file w)) in
      (record { config = c; level = level; mode = mode_name c.run_mode }, w')

  -- The constructor from another log, which leaves the mode empty.
  unfoldable pub copy_log : Log → Log
  copy_log log = record { config = log.config; level = log.level; mode = [] }

  -- The test of `write`: every error, and what is not beyond the level.
  unfoldable pub is_written : Log → Level → Bool
  is_written log level = leb (rank level) (rank log.level) || (rank level == rank error)

  abbrev pub log_line : Log → Bytes → Level → Bytes → Bytes
  log_line log message level time =
      time
      ++ (codes " ["
          ++ (log.mode
              ++ (codes "] ["
                  ++ (level_to_string level ++ (codes "] " ++ (message ++ codes "\n"))))))

  abbrev put_line : Bytes → Bytes → World → World
  put_line path line w = h.cout line (h.append path line w)

  abbrev stamped : Log → Bytes → Level → Bytes × World → World
  stamped log message level (time, w) =
      put_line log.config.log.file (log_line log message level time) w

  abbrev write_opened : Log → Bytes → Level → Bool × World → World
  write_opened log message level (true, w) = stamped log message level (h.timestamp w)
  write_opened log message level (false, w) = report_file log.config.log.file w

  -- write
  unfoldable pub write : Log → Bytes → Level → World → World
  unfolding is_written level_to_string
  write log message level w =
      if is_written log level
      then write_opened log message level (h.open_append log.config.log.file w)
      else w
