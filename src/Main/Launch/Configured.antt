-- ===== src/Main/Launch/Configured.antt =====
-- From the command line to what the DNS controller wants.
use dnslb.Base.{some, List, [], ◌∷◌, map, Str, Dict, All, Result, ok, ◌≡◌, ◌↔◌, sym, ◌∙◌}
use mathlib.Core.Path.{subst}
use mathlib.Core.List.{Memᴰ}
use dnslb.Go.Decimal.{ℤ}
use dnslb.Loadbalancer.{Loadbalancer, LoadbalancerList}
use dnslb.EtcdController.{EtcdEnv}
use dnslb.Dns.{DnsTypes}
use dnslb.DnsController.{DnsEnv}
use dnslb.Metrics.{unset, Collector, init}
use dnslb.System.{System, start, Steps}
use dnslb.System.Parts.{PartOf}
use dnslb.System.Configured.{start-IsConfigured}
use dnslb.Main.Store.{ViperLib, ViperLaws, IsFresh}
use dnslb.Main.Cli.{FlagValue, flag_table, FlagLib, Occurrence, parse_flags}
use dnslb.Main.Cli.Balancers.{table_entry}
use dnslb.Main.Setup.{SetupEnv, Wiring}
use dnslb.Main.Launch.{launch}
use dnslb.Main.Launch.Laws.{IsCommandLine, launch_autodns}

PartOf-mono :
    (wanted others : List Loadbalancer) (ls : List Loadbalancer)
    → ((b : Loadbalancer) → Memᴰ b wanted → Memᴰ b others)
    → All (PartOf wanted) ls
    → All (PartOf others) ls
PartOf-mono wanted others [] f h = tt
PartOf-mono wanted others (l ∷ ls) f ((full, inside, name, subset, used), h) =
    ((full, f full inside, name, subset, used), PartOf-mono wanted others ls f h)

-- The process started by a command line with the provider autodns, the election singleton and load
-- balancers, as in launch_autodns: from there on, in whatever order the loops, the deliveries and the
-- outside world take turns, and whatever the agents report, the DNS controller only ever wants load
-- balancers that a flag -lb gave, each with at least one endpoint and none but those of the flag.
pub launch-PartOf :
    {V S R : Type 0} {T : DnsTypes} (lib : ViperLib V) (flags : FlagLib) (env : SetupEnv T S)
    (register : Collector → R → Result Str (Unit {0}) × R) (etcd_env : EtcdEnv S)
    (dns_env : DnsEnv T S) (laws : ViperLaws lib) (v : V) (s s' : S) (r r' : R) (hostname : Str)
    (found : List Occurrence) (vars : Dict FlagValue) (user secret etcd agent : Str)
    (etcds agents : List Str) (lb : Loadbalancer) (lbs : List Loadbalancer) (w : Wiring T S)
    (interval : ℤ) (y : System T S) (wanted : LoadbalancerList)
    → IsFresh laws v
    → parse_flags flags found (flag_table hostname) ≡ some vars
    → IsCommandLine found user secret (etcd ∷ etcds) (agent ∷ agents) (lb ∷ lbs)
    → ((x : Str × List Str)
        → Memᴰ x (env.range (map table_entry (lb ∷ lbs))) ↔ Memᴰ x (map table_entry (lb ∷ lbs)))
    → (init register unset r).0 ≡ ok tt
    → (env.etcd.init (etcd ∷ etcds) s).0 ≡ ok tt
    → launch lib flags env register hostname found v s r ≡ ok (w, s', r')
    → Steps etcd_env dns_env (start w.agents w.loadbalancers (some []) (some []) interval s') y
    → y.dns.wanted_lbs ≡ some wanted
    → All (PartOf (lb ∷ lbs)) wanted.loadbalancers
launch-PartOf lib flags env register etcd_env dns_env laws v s s' r r' hostname found vars user
      secret etcd agent etcds agents lb lbs w interval y wanted fresh parsed line range registered
      connected launched steps e =
    let (w₂, launched₂, _, _, same) =
      launch_autodns lib flags env register laws v s r hostname found vars user secret etcd agent
        etcds agents lb lbs fresh parsed line range registered connected in
    let eq : w₂ ≡ w = wiring_eq _ _ _ _ _ _ (sym launched₂ ∙ launched) in
    let (parts, _) =
      start-IsConfigured etcd_env dns_env w.agents w.loadbalancers (some []) (some []) interval s' y
        wanted steps e in
    PartOf-mono w.loadbalancers (lb ∷ lbs) wanted.loadbalancers
      (λ b m. (same b).0 (subst (λ (u : Wiring _ _). Memᴰ b u.loadbalancers) (sym eq) m)) parts
  where
    wiring_eq :
        {A B C E : Type 0} (a a' : A) (b b' : B) (c c' : C)
        → (let q : Result E (A × B × C) = ok (a, b, c) in q) ≡ ok (a', b', c')
        → a ≡ a'
    wiring_eq a a' b b' c c' h = cc
