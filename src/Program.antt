-- ===== src/Program.antt =====
-- The program from its start: `main` of core/src/main.cpp and `run` of core/src/runner.cpp. The
-- threads of the pool, which run the callbacks of the other parts, are one call of `Host`.
pub mod Exits
use nipovpn.Base.{
  ℕ, Bool, true, false, not, List, [], ◌∷◌, ◌++◌, Bytes, codes, equal, if◌then◌else◌,
}
use nipovpn.Crypto.{BoolStr}
use nipovpn.Host.{Host, Yields, value, raised}
use nipovpn.Config.{Config, RunMode, server, agent, mode_to_string}
use nipovpn.Config.Loading.{new_config}
use nipovpn.Config.Printing.{config_text}
use nipovpn.Config.Validation.{validate_config}
use nipovpn.Log.{Log, info, error, new_log, write}

-- The end of the program: with an exit status, or by an exception that nothing catches.
pub data Exit : Type 0 where
  exited : ℕ → Exit
  terminated : Exit

module _ (h : Host) where
  open h use {World}

  abbrev pub listened : Config → Log → Yields Unit × World → World
  listened c log (value _, w) = h.run_threads c.threads w
  listened c log (raised what, w) = write h log (codes "[Runner run] " ++ what) error w

  -- Runner::run
  unfoldable pub run : Config → Log → World → World
  unfolding write config_text mode_to_string
  run c log w =
      let w1 =
        write h log (codes "Config initialized in " ++ (mode_to_string c.run_mode ++ codes " mode"))
          info w in
      let w2 = write h log (config_text c) info w1 in
      listened c log (h.listen c.listen_ip c.listen_port w2)

  abbrev pub start : Yields Config × World → Exit × World
  start (raised what, w) = (terminated, w)
  start (value c, w) = let (log, w') = new_log h c w in (exited 0, run c log w')

  -- `(mode == "agent") ? RunMode::agent : RunMode::server`
  abbrev pub mode_of : Bytes → RunMode
  mode_of mode = if equal mode (codes "agent") then agent else server

  abbrev pub validated : Bytes → Bytes → Yields BoolStr × World → Exit × World
  validated mode path (raised what, w) = (terminated, w)
  validated mode path (value b, w) =
      if not b.good
      then (
        exited 1,
        h.cerr (codes "Configuration validation failed: " ++ (b.text ++ codes "\n")) w,
      )
      else start (new_config h (mode_of mode) path w)

  abbrev pub usage : Bytes → World → Exit × World
  usage name w =
      (exited 1, h.cerr (codes "Usage: " ++ (name ++ codes " <mode> <config_file_path>\n")) w)

  -- main, on the texts of `argv`. Without any text the usage has no name to print.
  unfoldable pub main : List Bytes → World → Exit × World
  unfolding validate_config new_config new_log run
  main [] w = usage [] w
  main (name ∷ []) w = usage name w
  main (name ∷ mode ∷ []) w = usage name w
  main (name ∷ mode ∷ path ∷ rest) w =
      validated mode path (validate_config h (name ∷ mode ∷ path ∷ rest) w)
