-- ===== src/Main/Launch.antt =====
-- main of main.go, up to the controllers: parseCli, cfgValidation, and the set-up of dnsManage.
pub mod Given
pub mod Laws
pub mod Configured
mod Examples
use dnslb.Base.{Option, none, some, List, Str, Result, ok, err, wrap_err}
use dnslb.Dns.{DnsTypes}
use dnslb.Metrics.{Collector}
use dnslb.Main.Store.{ViperLib}
use dnslb.Main.Config.{Fatal, cfg_validation}
use dnslb.Main.Cli.{FlagLib, Occurrence, parse_cli}
use dnslb.Main.Setup.{SetupError, SetupEnv, Wiring, set_up}

-- How the process can end before its controllers run.
pub data Exit : Type 0 where
  bad_flags : Exit
  invalid : Fatal → Exit
  failed : SetupError → Exit

module _ {V S R : Type 0} {T : DnsTypes} (lib : ViperLib V) (flags : FlagLib) (env : SetupEnv T S)
    (register : Collector → R → Result Str (Unit {0}) × R) where
  -- What follows parseCli.
  unfoldable pub after_cli : Option V → S → R → Result Exit (Wiring T S × S × R)
  unfolding cfg_validation set_up
  after_cli none s r = err bad_flags
  after_cli (some v) s r = elim (cfg_validation (lib.view v)) [
    | some fatal ↦ err (invalid fatal)
    | none ↦ wrap_err failed (set_up env register (lib.view v) s r)
  ]

  -- The process, in a world, with the registry of the metrics, the flags' texts and the host's name.
  unfoldable pub launch : Str → List Occurrence → V → S → R → Result Exit (Wiring T S × S × R)
  unfolding after_cli parse_cli
  launch hostname found v s r = after_cli (parse_cli lib flags hostname found v) s r
