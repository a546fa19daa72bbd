-- ===== src/Main/Launch/Examples.antt =====
-- A command line that starts a process with the provider autodns.
mod Running
use dnslb.Base.{
  none, some, List, [], ◌∷◌, Str, bytes, Dict, lookup, insert, value_or, Result, ok, err, wrap_err,
  str_eq, arith, ◌≡◌, ◌≢◌, ◌↔◌, refl, if◌then◌else◌,
}
use mathlib.Core.List.{Memᴰ}
use dnslb.Go.Strings.{split, split_from, has_prefix, join}
use dnslb.Go.Decimal.{itoa, digits_before}
use dnslb.Go.Ip.{ip_string}
use dnslb.Net.{EndpointProtocol, endpoint_string, endpoint_protocol_string}
use dnslb.Net.RoundTrip.{IsItem}
use dnslb.Loadbalancer.{Loadbalancer}
use dnslb.Flags.{string_map_set, string_slice_set, str_in_str_slice}
use dnslb.DnsController.Examples.Provider.{Types}
use dnslb.DnsController.Examples.Provider
use dnslb.Metrics.{unset, Collector, full_name, collectors, register_all, init}
use dnslb.Main.Store.{Viper}
use dnslb.Main.Config.{cfg_validation, fatal_if, provider_validation, election_validation}
use dnslb.Main.Cli.{FlagValue, flag_table, Occurrence, set_flag, parse_flags, is_flag_passed}
use dnslb.Main.Cli.Balancers.{IsLine}
use dnslb.Main.Cli.Examples.{viper, viper-laws, empty, empty-IsFresh, flags}
use dnslb.Main.Setup.{
  SetupEnv, Wiring, plain, no_metrics, no_etcd, choose_provider, parse_loadbalancers, set_up,
}
use dnslb.Main.Setup.Laws.{choose_provider_lem}
use dnslb.Main.Launch.{launch}
use dnslb.Main.Launch.Laws.{IsCommandLine, launch_autodns}
use dnslb.Dns.{Zone}

abbrev pub endpoint : EndpointProtocol
endpoint = record {
  endpoint = record { ip = 10 ∷ 0 ∷ 0 ∷ 1 ∷ []; port = 80 };
  protocol = bytes "tcp";
}

abbrev www : Loadbalancer
www = record { name = bytes "www.x"; endpoints = endpoint ∷ endpoint ∷ [] }

abbrev api : Loadbalancer
api = record { name = bytes "api.x"; endpoints = endpoint ∷ [] }

abbrev found : List Occurrence
found =
    (bytes "provider", bytes "autodns")
    ∷ (bytes "lb", bytes "www.x=tcp://10.0.0.1:80,tcp://10.0.0.1:80")
    ∷ (bytes "autodns-username", bytes "me")
    ∷ (bytes "autodns-password", bytes "pw")
    ∷ (bytes "election", bytes "singleton")
    ∷ (bytes "etcd", bytes "e1")
    ∷ (bytes "agent", bytes "x")
    ∷ (bytes "lb", bytes "api.x=tcp://10.0.0.1:80")
    ∷ (bytes "agent", bytes "y")
    ∷ []

abbrev vars : Dict FlagValue
vars = value_or [] (parse_flags flags found (flag_table (bytes "host")))

parsed : parse_flags flags found (flag_table (bytes "host")) ≡ some vars
unfolding parse_flags set_flag string_slice_set string_map_set split split_from has_prefix lookup
    insert
parsed = refl

pub endpoint-IsItem : IsItem endpoint
endpoint-IsItem = record {
  address = record {
    four = (omega arith, omega arith, omega arith, omega arith);
    in_range = omega arith;
  };
  no_colon = omega arith;
  no_comma = omega arith;
}

www-IsLine : IsLine www
www-IsLine = record {
  name = omega arith;
  first = endpoint;
  others = endpoint ∷ [];
  endpoints = refl;
  items = (endpoint-IsItem, (endpoint-IsItem, tt));
  protocols = omega arith;
}

api-IsLine : IsLine api
api-IsLine = record {
  name = omega arith;
  first = endpoint;
  others = [];
  endpoints = refl;
  items = (endpoint-IsItem, tt);
  protocols = omega arith;
}

line :
    IsCommandLine found
      (bytes "me")
      (bytes "pw")
      (bytes "e1" ∷ [])
      (bytes "x" ∷ bytes "y" ∷ [])
      (www ∷ api ∷ [])
unfolding endpoint_protocol_string endpoint_string ip_string itoa digits_before join is_flag_passed
line = record {
  provider = refl;
  election = refl;
  username = refl;
  has_username = refl;
  password = refl;
  has_password = refl;
  etcds = refl;
  agents = refl;
  lbs = refl;
  lines = (www-IsLine, (api-IsLine, tt));
  names = refl;
  no_file = refl;
  no_debug = refl;
}

abbrev env : SetupEnv Types (List (Zone Types))
env = record {
  read_file = λ path s. err (bytes "no such file");
  unmarshal = λ t. ok [];
  autodns_provider = λ user password. Provider.provider;
  mock_provider = λ zones. Provider.provider;
  mockjson_provider = λ zones path. Provider.provider;
  etcd = record {
    init = λ endpoints s. (ok tt, s);
    set = λ k v s. (ok tt, s);
    get = λ k s. (err (bytes "key not found"), s);
  };
  range = λ rows. rows;
}

abbrev register : Collector → List Str → Result Str (Unit {0}) × List Str
register c r = (ok tt, full_name c ∷ r)

registered : (init register unset []).0 ≡ ok tt
unfolding init register_all collectors
registered = refl

launch_autodns_example :
    (w : Wiring Types (List (Zone Types))) × (launch viper flags env register
        (bytes "host")
        found
        empty
        []
        []
      ≡ ok (w, [], (init register unset []).2))
    × (w.provider ≡ plain Provider.provider)
    × (w.agents ≡ bytes "x" ∷ bytes "y" ∷ [])
    × ((b : Loadbalancer) → Memᴰ b w.loadbalancers ↔ Memᴰ b (www ∷ api ∷ []))
launch_autodns_example =
    launch_autodns viper flags env register viper-laws empty [] [] (bytes "host") found vars
      (bytes "me") (bytes "pw") (bytes "e1") (bytes "x") [] (bytes "y" ∷ []) www (api ∷ [])
      empty-IsFresh parsed line (λ x. (λ m. m, λ m. m)) registered refl

-- A configuration with the provider mock.
abbrev mock_settings : Str → Str
mock_settings key =
    if str_eq key (bytes "dnsProvider")
    then bytes "mock"
    else if str_eq key (bytes "election")
    then bytes "singleton"
    else bytes "zones.yaml"

abbrev mock_viper : Viper
mock_viper = record (viper.view empty) {
  get_string = mock_settings;
  get_string_slice = λ key. bytes "e1" ∷ [];
}

mock_valid : cfg_validation mock_viper ≡ none
unfolding cfg_validation fatal_if provider_validation election_validation str_in_str_slice
mock_valid = refl

choose_provider_lem_example : choose_provider env mock_viper [] ≢ ok none
choose_provider_lem_example = choose_provider_lem env mock_viper [] mock_valid
