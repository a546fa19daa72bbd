-- ===== src/Main/Launch/Examples/Running.antt =====
-- A process that a command line starts, up to a list that its DNS controller wants.
use dnslb.Base.{
  ◌*◌, ◌^◌, some, List, [], ◌∷◌, Str, bytes, Dict, lookup, insert, value_or, All, Result, ok, err,
  arith, ◌≡◌, refl,
}
use dnslb.Go.Strings.{split, split_from, has_prefix, join}
use dnslb.Go.Decimal.{pos, itoa, digits_before, atoi, read_signed, read_ℕ, read_digits}
use dnslb.Go.Ip.{ip_string, parse_ip, parse_ipv4, dtoi, dtoi_loop, to4}
use dnslb.Net.{
  endpoint_string, endpoint_protocol_string, try_parse_endpoint, try_parse_endpoint_protocol,
  parse_items, try_parse_endpoint_protocols,
}
use dnslb.Flags.{
  string_map_set, string_slice_set, str_in_str_slice, parse_endpoint_values,
  parse_loadbalancer_endpoint_list,
}
use dnslb.DnsController.Examples.Provider.{Types}
use dnslb.DnsController.Examples.Zones.{balancer}
use dnslb.Metrics.{unset, Collector, full_name, collectors, register_all, init}
use dnslb.System.Parts.{PartOf}
use dnslb.System.Examples.{World, world, etcd_world, dns_world, agreed, a_run}
use dnslb.Main.Cli.{
  FlagValue, flag_table, Occurrence, set_flag, parse_flags, is_flag_passed, set_defaults,
  set_passed, read_config, parse_cli,
}
use dnslb.Main.Config.{cfg_validation, fatal_if, provider_validation, election_validation}
use dnslb.Main.Cli.Balancers.{IsLine}
use dnslb.Main.Cli.Examples.{viper, viper-laws, empty, empty-IsFresh, flags}
use dnslb.Main.Setup.{
  SetupEnv, Wiring, plain, set_up, choose_provider, load_zones, seconds, parse_loadbalancers,
}
use dnslb.Main.Launch.{launch, after_cli}
use dnslb.Main.Launch.Laws.{IsCommandLine}
use dnslb.Main.Launch.Configured.{launch-PartOf}
use dnslb.Main.Launch.Examples.{endpoint-IsItem}

abbrev found : List Occurrence
found =
    (bytes "provider", bytes "autodns")
    ∷ (bytes "lb", bytes "a.b.example=tcp://10.0.0.1:80")
    ∷ (bytes "autodns-username", bytes "me")
    ∷ (bytes "autodns-password", bytes "pw")
    ∷ (bytes "election", bytes "singleton")
    ∷ (bytes "etcd", bytes "e1")
    ∷ (bytes "agent", bytes "x")
    ∷ []

abbrev vars : Dict FlagValue
vars = value_or [] (parse_flags flags found (flag_table (bytes "host")))

parsed : parse_flags flags found (flag_table (bytes "host")) ≡ some vars
unfolding parse_flags set_flag string_slice_set string_map_set split split_from has_prefix lookup
    insert
parsed = refl

balancer-IsLine : IsLine balancer
balancer-IsLine = record {
  name = omega arith;
  first = _;
  others = [];
  endpoints = refl;
  items = (endpoint-IsItem, tt);
  protocols = omega arith;
}

line :
    IsCommandLine found (bytes "me") (bytes "pw") (bytes "e1" ∷ []) (bytes "x" ∷ []) (balancer ∷ [])
unfolding endpoint_protocol_string endpoint_string ip_string itoa digits_before join is_flag_passed
line = record {
  provider = refl;
  election = refl;
  username = refl;
  has_username = refl;
  password = refl;
  has_password = refl;
  etcds = refl;
  agents = refl;
  lbs = refl;
  lines = (balancer-IsLine, tt);
  names = refl;
  no_file = refl;
  no_debug = refl;
}

abbrev env : SetupEnv Types World
env = record {
  read_file = λ path s. err (bytes "no such file");
  unmarshal = λ t. ok [];
  autodns_provider = λ user password. dns_world.provider;
  mock_provider = λ zones. dns_world.provider;
  mockjson_provider = λ zones path. dns_world.provider;
  etcd = etcd_world.etcd;
  range = λ rows. rows;
}

abbrev register : Collector → List Str → Result Str (Unit {0}) × List Str
register c r = (ok tt, full_name c ∷ r)

registered : (init register unset []).0 ≡ ok tt
unfolding init register_all collectors
registered = refl

abbrev wiring : Wiring Types World
wiring = record {
  provider = plain dns_world.provider;
  agents = bytes "x" ∷ [];
  loadbalancers = balancer ∷ [];
  monitor_interval = pos 0;
  status_interval = pos (2 * 10 ^ 9);
  sync_upload = pos (60 * 10 ^ 9);
  sync_download = pos (3600 * 10 ^ 9);
}

launched :
    launch viper flags env register (bytes "host") found empty world []
    ≡ ok (wiring, world, (init register unset []).2)
unfolding launch after_cli parse_cli set_passed read_config set_defaults is_flag_passed parse_flags
    set_flag string_slice_set string_map_set str_in_str_slice split split_from has_prefix lookup
    insert cfg_validation fatal_if provider_validation election_validation set_up choose_provider
    load_zones seconds parse_loadbalancers parse_loadbalancer_endpoint_list parse_endpoint_values
    try_parse_endpoint_protocols parse_items try_parse_endpoint_protocol try_parse_endpoint atoi
    read_signed read_ℕ read_digits parse_ip parse_ipv4 dtoi dtoi_loop to4 init register_all
    collectors
launched = refl

launch-PartOf_example : All (PartOf (balancer ∷ [])) agreed.loadbalancers
launch-PartOf_example =
    launch-PartOf viper flags env register etcd_world dns_world viper-laws empty world world [] _
      (bytes "host") found vars (bytes "me") (bytes "pw") (bytes "e1") (bytes "x") [] [] balancer []
      wiring (pos (3600 * 10 ^ 9)) a_run.0 agreed empty-IsFresh parsed line (λ x. (λ m. m, λ m. m))
      registered refl launched a_run.1 a_run.2
