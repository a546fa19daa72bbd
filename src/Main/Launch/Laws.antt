-- ===== src/Main/Launch/Laws.antt =====
-- From the command line to the arguments of the controllers.
use dnslb.Base.{
  true, false, none, some, List, [], ◌∷◌, map, Str, bytes, Dict, lookup, is_empty, All, Result, ok,
  wrap_err, ◌≡◌, ◌↔◌, refl, ◌∙◌, ap,
}
use mathlib.Core.List.{Memᴰ}
use dnslb.Loadbalancer.{Loadbalancer}
use dnslb.Flags.{str_in_str_slice}
use dnslb.Dns.{DnsTypes}
use dnslb.Metrics.{unset, Collector, init}
use dnslb.Main.Store.{Viper, ViperLib, ViperLaws, IsFresh}
use dnslb.Main.Config.{cfg_validation, fatal_if, provider_validation, election_validation}
use dnslb.Main.Cli.{
  FlagValue, flag_table, FlagLib, Occurrence, parse_flags, is_flag_passed, parse_cli, map_option,
}
use dnslb.Main.Cli.Laws.{after}
use dnslb.Main.Cli.Texts.{texts_of}
use dnslb.Main.Cli.Balancers.{lb_text, IsLine, different, table_entry}
use dnslb.Main.Setup.{
  SetupEnv, Wiring, wiring_of, plain, choose_provider, parse_loadbalancers, set_up,
}
use dnslb.Main.Setup.Laws.{parse_loadbalancers_lem}
use dnslb.Main.Launch.{launch, after_cli, failed}
use dnslb.Main.Launch.Given.{state, given_string, given_slice, given_lbs, given_no_debug}

-- A command line with the provider autodns, the election singleton, an etcd, an agent and load
-- balancers with different names; it may have other flags, but neither -cfg nor -debug.
pub record IsCommandLine (found : List Occurrence) (user secret : Str)
    (etcd_list agent_list : List Str) (lb_list : List Loadbalancer) : Type 0 where
  pub provider : texts_of (bytes "provider") found ≡ bytes "autodns" ∷ []
  pub election : texts_of (bytes "election") found ≡ bytes "singleton" ∷ []
  pub username : texts_of (bytes "autodns-username") found ≡ user ∷ []
  pub has_username : is_empty user ≡ false
  pub password : texts_of (bytes "autodns-password") found ≡ secret ∷ []
  pub has_password : is_empty secret ≡ false
  pub etcds : texts_of (bytes "etcd") found ≡ etcd_list
  pub agents : texts_of (bytes "agent") found ≡ agent_list
  pub lbs : texts_of (bytes "lb") found ≡ map lb_text lb_list
  pub lines : All IsLine lb_list
  pub names : different [] lb_list ≡ true
  pub no_file : is_flag_passed found (bytes "cfg") ≡ false
  pub no_debug : is_flag_passed found (bytes "debug") ≡ false

-- What the rest of the program reads then.
record IsStored (viper : Viper) (user secret : Str) (etcd_list agent_list : List Str)
    (rows : Dict (List Str)) : Type 0 where
  provider : viper.get_string (bytes "dnsProvider") ≡ bytes "autodns"
  election : viper.get_string (bytes "election") ≡ bytes "singleton"
  username : viper.get_string (bytes "autodns-username") ≡ user
  password : viper.get_string (bytes "autodns-password") ≡ secret
  etcds : viper.get_string_slice (bytes "etcEndpoint") ≡ etcd_list
  agents : viper.get_string_slice (bytes "agents") ≡ agent_list
  lbs : viper.get_string_map_string_slice (bytes "lb") ≡ rows
  no_debug : viper.get_bool (bytes "debug") ≡ false

IsCommandLine-IsStored :
    {V : Type 0} (lib : ViperLib V) (laws : ViperLaws lib) (v : V) (fresh : IsFresh laws v)
    (flags : FlagLib) (hostname : Str) (found : List Occurrence) (vars : Dict FlagValue)
    (parsed : parse_flags flags found (flag_table hostname) ≡ some vars)
    (user secret etcd agent : Str) (etcds agents : List Str) (lb : Loadbalancer)
    (lbs : List Loadbalancer)
    → IsCommandLine found user secret (etcd ∷ etcds) (agent ∷ agents) (lb ∷ lbs)
    → IsStored
        (lib.view (state lib laws v fresh flags hostname found vars parsed))
        user
        secret
        (etcd ∷ etcds)
        (agent ∷ agents)
        (map table_entry (lb ∷ lbs))
unfolding lookup
IsCommandLine-IsStored lib laws v fresh flags hostname found vars parsed user secret etcd agent
      etcds agents lb lbs line =
    record {
      provider =
          given_string lib laws v fresh flags hostname found vars parsed 4 _ _ _ _ refl refl
            line.provider;
      election =
          given_string lib laws v fresh flags hostname found vars parsed 7 _ _ _ _ refl refl
            line.election;
      username =
          given_string lib laws v fresh flags hostname found vars parsed 21 _ _ _ _ refl refl
            line.username;
      password =
          given_string lib laws v fresh flags hostname found vars parsed 22 _ _ _ _ refl refl
            line.password;
      etcds =
          given_slice lib laws v fresh flags hostname found vars parsed 5 _ _ _ _ refl refl
            line.etcds;
      agents =
          given_slice lib laws v fresh flags hostname found vars parsed 2 _ _ _ _ refl refl
            line.agents;
      lbs =
          given_lbs lib laws v fresh flags hostname found vars parsed lb lbs line.lbs line.lines
            line.names;
      no_debug =
          given_no_debug lib laws v fresh flags hostname found vars parsed line.no_debug
            line.no_file;
    }

cfg_validation_autodns :
    (viper : Viper) (user secret etcd : Str) (etcds agents : List Str) (rows : Dict (List Str))
    → IsStored viper user secret (etcd ∷ etcds) agents rows
    → is_empty user ≡ false
    → is_empty secret ≡ false
    → cfg_validation viper ≡ none
unfolding cfg_validation provider_validation election_validation fatal_if str_in_str_slice
cfg_validation_autodns viper user secret etcd etcds agents rows h u w =
    rw (h.provider, h.election, h.username, u, h.password, w, h.etcds)

module _ {V S R : Type 0} {T : DnsTypes} (lib : ViperLib V) (flags : FlagLib) (env : SetupEnv T S)
    (register : Collector → R → Result Str (Unit {0}) × R) where
  set_up_autodns :
      (viper : Viper) (s : S) (r : R) (user secret : Str) (etcds agents : List Str)
      (rows : Dict (List Str)) (rs : List Loadbalancer)
      → IsStored viper user secret etcds agents rows
      → parse_loadbalancers env [] (env.range rows) ≡ ok rs
      → (init register unset r).0 ≡ ok tt
      → (env.etcd.init etcds s).0 ≡ ok tt
      → set_up env register viper s r
        ≡ ok (
          wiring_of env viper (some (env.autodns_provider user secret)) rs,
          (env.etcd.init etcds s).1,
          (init register unset r).2,
        )
  unfolding set_up choose_provider
  set_up_autodns viper s r user secret etcds agents rows rs h parsed i d =
      rw (h.provider, h.username, h.password, h.etcds, h.lbs, parsed, i, d)

  after_cli_valid :
      (v : V) (s : S) (r : R)
      → cfg_validation (lib.view v) ≡ none
      → after_cli lib flags env register (some v) s r
        ≡ wrap_err failed (set_up env register (lib.view v) s r)
  unfolding after_cli
  after_cli_valid v s r h = rw h

  -- On a viper in which nothing is set, a command line that gives the provider autodns, a user name
  -- and a password that are not empty and the election singleton, each of these four flags once, at
  -- least one etcd, one agent and one load balancer, these with different names, but neither -cfg
  -- nor -debug, starts the process, if flag.Parse accepts it, the metrics can be registered and
  -- etcd can be reached. Each text of -lb has to be a name with no `=`, and at least one endpoint
  -- as EndpointProtocol is printed, with an IPv4 address, a port of 16 bits and a protocol with no
  -- colon, comma or `=`; and `range` has to visit the entries of the map of the load balancers and
  -- no others. Then the provider is the one with these credentials, and the agents and the load
  -- balancers of the controllers are exactly those of the flags, the load balancers in any order.
  pub launch_autodns :
      (laws : ViperLaws lib) (v : V) (s : S) (r : R) (hostname : Str) (found : List Occurrence)
      (vars : Dict FlagValue) (user secret etcd agent : Str) (etcds agents : List Str)
      (lb : Loadbalancer) (lbs : List Loadbalancer)
      → IsFresh laws v
      → parse_flags flags found (flag_table hostname) ≡ some vars
      → IsCommandLine found user secret (etcd ∷ etcds) (agent ∷ agents) (lb ∷ lbs)
      → ((x : Str × List Str)
          → Memᴰ x (env.range (map table_entry (lb ∷ lbs))) ↔ Memᴰ x (map table_entry (lb ∷ lbs)))
      → (init register unset r).0 ≡ ok tt
      → (env.etcd.init (etcd ∷ etcds) s).0 ≡ ok tt
      → (w : Wiring T S) × (launch lib flags env register hostname found v s r
          ≡ ok (w, (env.etcd.init (etcd ∷ etcds) s).1, (init register unset r).2))
        × (w.provider ≡ plain (env.autodns_provider user secret))
        × (w.agents ≡ agent ∷ agents)
        × ((b : Loadbalancer) → Memᴰ b w.loadbalancers ↔ Memᴰ b (lb ∷ lbs))
  unfolding launch parse_cli
  launch_autodns laws v s r hostname found vars user secret etcd agent etcds agents lb lbs fresh
        parsed line range registered connected =
      let y : V = state lib laws v fresh flags hostname found vars parsed in
      let stored =
        IsCommandLine-IsStored lib laws v fresh flags hostname found vars parsed user secret etcd
          agent etcds agents lb lbs line in
      let (rs, read, same) = parse_loadbalancers_lem env (lb ∷ lbs) line.lines range in
      (
        wiring_of env (lib.view y) (some (env.autodns_provider user secret)) rs,
        ap
              (λ o.
                after_cli lib flags env register
                  (map_option (after lib laws v fresh hostname found) o) s r)
              parsed
            ∙ after_cli_valid y s r (
                cfg_validation_autodns (lib.view y) user secret etcd etcds (agent ∷ agents) _ stored
                  line.has_username line.has_password)
            ∙ ap (wrap_err failed) (
                set_up_autodns (lib.view y) s r user secret (etcd ∷ etcds) (agent ∷ agents) _ rs
                  stored read registered connected),
        rw stored.no_debug,
        stored.agents,
        same,
      )
