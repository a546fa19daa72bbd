-- ===== src/Main/Setup.antt =====
-- dnsManage of main.go up to the health check: the provider, the metrics, the load balancers, etcd
-- and the arguments of the two controllers.
pub mod Laws
use dnslb.Base.{
  ℕ, ◌+◌, ◌-◌, ◌*◌, ◌%◌, ◌^◌, Bool, true, false, Option, none, some, List, [], ◌∷◌, ◌++◌, Str,
  bytes, str_eq, Dict, Result, ok, err, ◌>>=◌, wrap_err, ltb, if◌then◌else◌,
}
use dnslb.Go.Decimal.{ℤ, pos, negsuc}
use dnslb.Net.{ParseError}
use dnslb.Flags.{parse_loadbalancer_endpoint_list}
use dnslb.Loadbalancer.{Loadbalancer}
use dnslb.Etcd.{EtcdError, EtcdProvider}
use dnslb.Dns.{DnsTypes, Zone, DnsProvider}
use dnslb.Dns.Debug.{LogEntry, debug_provider}
use dnslb.Metrics.{unset, Collector, InitError, init}
use dnslb.Main.Store.{Viper}

-- An int64 of the low 64 bits.
abbrev int64 : ℕ → ℤ
int64 n = if ltb n (2 ^ 63) then pos n else negsuc (2 ^ 64 - 1 - n)

-- `time.Duration(i) * time.Second`, in nanoseconds
unfoldable pub seconds : ℤ → ℤ
seconds (pos n) = int64 (n * 10 ^ 9 % 2 ^ 64)
seconds (negsuc n) = int64 ((2 ^ 64 - (n + 1) * 10 ^ 9 % 2 ^ 64) % 2 ^ 64)

-- What logrus.Fatal is called with in the set-up: the end of the process.
pub data SetupError : Type 0 where
  mock_not_read mock_not_decoded : Str → Str → SetupError
  no_metrics : InitError → SetupError
  bad_endpoints : List Str → Str → ParseError → SetupError
  no_etcd : List Str → EtcdError → SetupError

module _ (T : DnsTypes) (S : Type 0) where
  -- The variable dnsProvider: nil, a provider, or one behind the provider that logs.
  pub data Provided : Type 0 where
    nil_provider debugged_nil : Provided
    plain : DnsProvider T S → Provided
    debugged : DnsProvider T (S × List (LogEntry T)) → Provided

  -- What the set-up calls and does not implement: ReadFile and the YAML decoder, the constructors of
  -- the three providers, etcd, and the order in which `range` visits a map.
  pub record SetupEnv : Type 0 where
    pub read_file : Str → S → Result Str Str
    pub unmarshal : Str → Result Str (List (Zone T))
    pub autodns_provider : Str → Str → DnsProvider T S
    pub mock_provider : List (Zone T) → DnsProvider T S
    pub mockjson_provider : List (Zone T) → Str → DnsProvider T S
    pub etcd : EtcdProvider S
    pub range : Dict (List Str) → Dict (List Str)

  -- The arguments of NewETCDController and NewDNSController.
  pub record Wiring : Type 0 where
    pub provider : Provided
    pub agents : List Str
    pub loadbalancers : List Loadbalancer
    pub monitor_interval : ℤ
    pub status_interval : ℤ
    pub sync_upload : ℤ
    pub sync_download : ℤ

module _ {T : DnsTypes} {S : Type 0} (env : SetupEnv T S) where
  -- Reads and decodes the zones of the mock.
  unfoldable pub load_zones : Str → S → Result SetupError (List (Zone T))
  load_zones path s = wrap_err (mock_not_read path) (env.read_file path s) >>= λ buf.
      wrap_err (mock_not_decoded path) (env.unmarshal buf)

  -- The switch over the provider; `none` is nil.
  unfoldable pub choose_provider : Viper → S → Result SetupError (Option (DnsProvider T S))
  unfolding load_zones
  choose_provider viper s =
      let mock = load_zones (viper.get_string (bytes "mockZonePath")) s in
      if str_eq (viper.get_string (bytes "dnsProvider")) (bytes "autodns")
      then ok (
          some (
            env.autodns_provider (viper.get_string (bytes "autodns-username"))
              (viper.get_string (bytes "autodns-password"))))
      else if str_eq (viper.get_string (bytes "dnsProvider")) (bytes "mock")
      then (mock >>= λ zones. ok (some (env.mock_provider zones)))
      else if str_eq (viper.get_string (bytes "dnsProvider")) (bytes "mockjson")
      then (mock >>= λ zones.
          ok (some (env.mockjson_provider zones (viper.get_string (bytes "mockZoneStatePath")))))
      else ok none

  -- `if viper.GetBool("debug") { … }`
  abbrev pub with_debug : Bool → Option (DnsProvider T S) → Provided T S
  with_debug true none = debugged_nil
  with_debug true (some p) = debugged (debug_provider p)
  with_debug false none = nil_provider
  with_debug false (some p) = plain p

  -- The loop over the load balancers of the configuration.
  unfoldable pub parse_loadbalancers :
      List Loadbalancer → Dict (List Str) → Result SetupError (List Loadbalancer)
  unfolding parse_loadbalancer_endpoint_list
  parse_loadbalancers loadbalancers [] = ok loadbalancers
  parse_loadbalancers loadbalancers ((key, value) ∷ rest) =
      wrap_err (bad_endpoints value key) (parse_loadbalancer_endpoint_list key value) >>= λ lb.
      parse_loadbalancers (loadbalancers ++ lb ∷ []) rest

  -- The calls of NewETCDController and NewDNSController.
  abbrev pub wiring_of : Viper → Option (DnsProvider T S) → List Loadbalancer → Wiring T S
  wiring_of viper provider loadbalancers = record {
    provider = with_debug (viper.get_bool (bytes "debug")) provider;
    agents = viper.get_string_slice (bytes "agents");
    loadbalancers = loadbalancers;
    monitor_interval = seconds (viper.get_int (bytes "etcd-interval-monitoring"));
    status_interval = seconds (pos 2);
    sync_upload = seconds (viper.get_int (bytes "zone-sync-interval-upload"));
    sync_download = seconds (viper.get_int (bytes "zone-sync-interval-download"));
  }

  module _ {R : Type 0} (register : Collector → R → Result Str (Unit {0}) × R) where
    -- The set-up, in the state of the world and the registry: the first error ends the process.
    unfoldable pub set_up : Viper → S → R → Result SetupError (Wiring T S × S × R)
    unfolding choose_provider parse_loadbalancers init
    set_up viper s r = choose_provider viper s >>= λ provider.
        wrap_err no_metrics (init register unset r).0 >>= λ done.
        parse_loadbalancers [] (env.range (viper.get_string_map_string_slice (bytes "lb")))
        >>= λ lbs.
            wrap_err (no_etcd (viper.get_string_slice (bytes "etcEndpoint")))
              (env.etcd.init (viper.get_string_slice (bytes "etcEndpoint")) s).0
            >>= λ done. ok (
              wiring_of viper provider lbs,
              (env.etcd.init (viper.get_string_slice (bytes "etcEndpoint")) s).1,
              (init register unset r).2,
            )
