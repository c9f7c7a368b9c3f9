-- ===== src/Program/Exits.antt =====
-- How the program ends: `main` of core/src/main.cpp over `validateConfig` and the constructor of
-- `Config`, which parses the file a second time.
use nipovpn.Base.{◌≡◌, ◌++◌, codes, ◌⊎◌, List, Bytes, arith, arith}
use nipovpn.Host.{Host, value, raised}
use nipovpn.Config.{Config, RunMode, server, agent, mode_to_string}
use nipovpn.Config.Loading.Loaded.{IsLoaded}
use nipovpn.Config.Printing.{config_text}
use nipovpn.Config.Validation
use nipovpn.Config.Validation.Accepted.{IsAccepted}
use nipovpn.Log.{Log, info, error, new_log, write}
use nipovpn.Program
use nipovpn.Program.{exited}

-- A file that is parsed twice in a row has the same content.
pub record IsStill (h : Host) : Type 0 where
  pub reloads :
      (path : Bytes) (w : h.World)
      → (h.load_file path (h.load_file path w).1).0 ≡ (h.load_file path w).0

module _ (h : Host) where
  open h use {World}

  -- The run of the program on settings that are loaded.
  abbrev pub runs : Config → World → Program.Exit × World
  runs c w = let (log, w') = new_log h c w in (exited 0, Program.run h c log w')

  -- The run on the settings that an accepted file leads to.
  record RunsOn (args : List Bytes) (w : World) (a : IsAccepted h args w) : Type 0 where
    pub config : Config
    pub world : World
    pub loaded : IsLoaded h (Program.mode_of h a.mode) a.path a.node config
    pub run : Program.main h args w ≡ runs config world

  -- The mode that a name stands for.
  abbrev pub IsNamed : Bytes → RunMode → Type 0
  IsNamed name mode =
      (name ≡ codes "server") × (mode ≡ server) ⊎ (name ≡ codes "agent") × (mode ≡ agent)

  -- The program listened where its settings say, and all of its threads ran to their end; or
  -- listening failed, and the log says so.
  abbrev pub IsServed : Config → Log → World → World → Type 0
  IsServed c log before after =
      ((h.listen c.listen_ip c.listen_port before).0 ≡ value tt)
        × (after ≡ h.run_threads c.threads (h.listen c.listen_ip c.listen_port before).1)
      ⊎ ((what : Bytes) × ((h.listen c.listen_ip c.listen_port before).0 ≡ raised what)
          × (after
              ≡ write h log (codes "[Runner run] " ++ what) error
                  (h.listen c.listen_ip c.listen_port before).1))

  -- The run that an accepted file leads to.
  pub record Starts (args : List Bytes) (w : World) (a : IsAccepted h args w) : Type 0 where
    pub mode : RunMode
    pub config : Config
    pub log : Log
    pub before : World
    pub named : IsNamed a.mode mode
    pub loaded : IsLoaded h mode a.path a.node config
    pub logs_to : log.config ≡ config
    pub status : (Program.main h args w).0 ≡ exited 0
    pub served : IsServed config log before (Program.main h args w).1

  -- The world as listening begins: the two lines of the log are written.
  abbrev introduced : Config → Log → World → World
  introduced c log w = write h log (config_text c) info (
      write h log (codes "Config initialized in " ++ (mode_to_string c.run_mode ++ codes " mode"))
        info w)
