-- ===== src/System/Examples.antt =====
-- A whole process: one agent, an etcd that is a map, and a provider that is a list of zones.
use dnslb.Base.{
  ◌*◌, ◌^◌, ◌≤◌, true, false, Option, none, some, List, [], ◌∷◌, Str, bytes, str_eq, str_eq_iff,
  Dict, lookup, insert, Result, ok, err, if◌then◌else◌, ◌≡◌, refl, sym, arith, Bool-cases, inl, inr,
}
use mathlib.Core.Option
use mathlib.Core.Path.{subst}
use dnslb.Go.Strings.{has_prefix, contains, trim_suffix, join}
use dnslb.Go.Decimal.{pos, itoa, itoa_int}
use dnslb.Go.Ip.{ip_string}
use dnslb.Net.{endpoint_string}
use dnslb.Loadbalancer.{LoadbalancerList, new_loadbalancer_list}
use dnslb.Etcd.{EtcdError}
use dnslb.EtcdController.{HealthStatus, AgentStatus, EtcdEnv, new_etcd_controller}
use dnslb.EtcdController.Report.{get_status_from_agent}
use dnslb.EtcdController.Status.{status_key, sync_status}
use dnslb.EtcdController.Votes.{healthy_entries, reports, NoDuplicates}
use dnslb.EtcdController.Published.{published, round_reports}
use dnslb.Dns.{Zone}
use dnslb.DnsController.{DnsEnv, new_dns_controller}
use dnslb.DnsController.Match.{first_zone}
use dnslb.DnsController.Wanted.{wanted_zone}
use dnslb.DnsController.Reliable.{IsReliable}
use dnslb.DnsController.Examples.Provider.{
  Types, lib, lib-laws, hold, listed, provider, env-IsReliable,
}
use dnslb.DnsController.Examples.Zones.{balancer, old_zone}
use dnslb.System.{System, start, Steps}
use dnslb.System.Parts.{IsConfigured}
use dnslb.System.Configured.{start-IsConfigured}
use dnslb.System.EndToEnd.{majority_list, reported, majority_zone, reports_reach_provider}

-- etcd, and the zones of the provider.
abbrev pub World : Type 0
World = Dict Str × List (Zone Types)

abbrev web_up : HealthStatus
web_up = record { ip = 10 ∷ 0 ∷ 0 ∷ 1 ∷ []; port = pos 80; healthy = true }

abbrev found : Option Str → Result EtcdError Str
found none = err (bytes "key not found")
found (some v) = ok v

abbrev decode : Str → Result Str AgentStatus
decode val =
    if str_eq val (bytes "up")
    then ok (record { status = web_up ∷ []; time = 100 })
    else err (bytes "unexpected end of JSON input")

abbrev pub etcd_world : EtcdEnv World
etcd_world = record {
  etcd = record {
    init = λ endpoints w. (ok tt, w);
    set = λ k v w. (ok tt, (insert k v w.0, w.1));
    get = λ k w. (found (lookup k w.0), w);
  };
  now = λ w. 120 * 10 ^ 9;
  unmarshal = decode;
  xxhash = λ s. 5;
}

abbrev on_zones : {A : Type 0} → (List (Zone Types) → A × List (Zone Types)) → World → A × World
on_zones call w = ((call w.1).0, (w.0, (call w.1).1))

abbrev pub dns_world : DnsEnv Types World
dns_world = record {
  lib = lib;
  provider = record {
    create_zone = λ z. on_zones (provider.create_zone z);
    get_zone = λ k. on_zones (provider.get_zone k);
    list_zones = on_zones provider.list_zones;
    update_zone = λ z. on_zones (provider.update_zone z);
    delete_zone = λ k. on_zones (provider.delete_zone k);
  };
  now = λ w. 1000;
  sort_by_length = λ l. l;
  range_keys = λ w l. l;
}

abbrev pub hold_in : World → Str → Option (Zone Types)
hold_in w = hold w.1

abbrev pub listed_in : World → List Str
listed_in w = listed w.1

pub dns_world-IsReliable : IsReliable dns_world hold_in listed_in
dns_world-IsReliable = record {
  list_ok = λ w. refl;
  listed_held = λ w. env-IsReliable.listed_held w.1;
  hold-list = λ w. refl;
  get_ok = λ k w. env-IsReliable.get_ok k w.1;
  hold-get = λ k w. refl;
  update_ok = λ z y w. env-IsReliable.update_ok z y w.1;
  hold-update = λ z y w. env-IsReliable.hold-update z y w.1;
  has_key-sort = λ k l. refl;
  has_key-range = λ w k l. refl;
}

abbrev pub world : World
world = ((bytes "x", bytes "up") ∷ [], old_zone ∷ [])

abbrev pub process : System Types World
process = record {
  etcd = record {
    metrics = some [];
    agents = bytes "x" ∷ [];
    wanted = balancer ∷ [];
    current = [];
    last_monitor_hash = 0;
    updates = [];
    max_status_age = 45 * 10 ^ 9;
    last_cycle = [];
  };
  dns = record {
    metrics = some [];
    current_zones_enforce_sync = false;
    current_zones = [];
    current_zones_hash = 0;
    current_zones_hash_map = [];
    current_zone_names = [];
    wanted_zones = [];
    wanted_zones_hash = 0;
    wanted_zones_lb_hash = 0;
    wanted_lbs = none;
    wanted_lbs_candidate = none;
    last_current_zone_sync = none;
    current_zone_sync_enforce_interval = pos (3600 * 10 ^ 9);
    last_cycle = [];
  };
  world = world;
}

-- It is the process at its start.
process_lem :
    start (bytes "x" ∷ []) (balancer ∷ []) (some []) (some []) (pos (3600 * 10 ^ 9)) world ≡ process
unfolding start new_etcd_controller new_dns_controller
process_lem = refl

single_report : round_reports etcd_world process.etcd world ≡ some (web_up ∷ []) ∷ []
unfolding reports get_status_from_agent lookup
single_report = refl

single_entry : (key : Str) → healthy_entries key (web_up ∷ []) ≤ 1
unfolding healthy_entries
single_entry key = ground arith

no_duplicates : NoDuplicates (round_reports etcd_world process.etcd world)
no_duplicates = rw single_report (λ key. (single_entry key, tt))

abbrev zone_for : Str → Zone Types → Zone Types
zone_for =
    majority_zone etcd_world dns_world lib-laws hold_in listed_in dns_world-IsReliable process

abbrev after_reports : World
after_reports =
    reported etcd_world dns_world lib-laws hold_in listed_in dns_world-IsReliable process

reported_same : after_reports ≡ world
unfolding sync_status get_status_from_agent lookup
reported_same = refl

only_zone :
    (k : Str) (z : Zone Types)
    → hold (old_zone ∷ []) k ≡ some z
    → (bytes "b.example" ≡ k) × (old_zone ≡ z)
only_zone k z h = elim (Bool-cases (str_eq (bytes "b.example") k)) [
  | inl same ↦ ((str_eq_iff (bytes "b.example") k).0 same, cc (rw same at h))
  | inr other ↦ cc (rw other at h)
]

hash_differs : lib.zone_hash old_zone ≡ lib.zone_hash (zone_for (bytes "b.example") old_zone) → ⊥
unfolding sync_status get_status_from_agent lookup new_loadbalancer_list published reports
    healthy_entries status_key endpoint_string itoa itoa_int ip_string join wanted_zone first_zone
    contains has_prefix trim_suffix
hash_differs e = omega arith

distinct :
    (k : Str) (z : Zone Types)
    → hold_in after_reports k ≡ some z
    → lib.zone_hash z ≡ lib.zone_hash (zone_for k z)
    → z ≡ zone_for k z
distinct k z h e =
    let (name, zone) = only_zone k z (rw reported_same at h) in
    absurd (
      subst (λ (j : Str). lib.zone_hash old_zone ≡ lib.zone_hash (zone_for j old_zone) → ⊥) name
        hash_differs (rw (sym zone) at e))

abbrev pub agreed : LoadbalancerList
agreed = majority_list etcd_world dns_world lib-laws hold_in listed_in dns_world-IsReliable process

-- A run of the process from its start, to a state in which the DNS controller wants a list.
pub a_run :
    (end : System Types World) × Steps etcd_world dns_world
      (start (bytes "x" ∷ []) (balancer ∷ []) (some []) (some []) (pos (3600 * 10 ^ 9)) world)
      end
    × (end.dns.wanted_lbs ≡ some agreed)
unfolding start new_etcd_controller new_dns_controller
a_run =
    let (end, steps, _, wants, _) =
      reports_reach_provider etcd_world dns_world lib-laws hold_in listed_in dns_world-IsReliable
        process no_duplicates refl distinct in
    (end, steps, wants)

start-IsConfigured_example : IsConfigured (λ s. 5) (balancer ∷ []) agreed
start-IsConfigured_example =
    start-IsConfigured etcd_world dns_world (bytes "x" ∷ []) (balancer ∷ []) (some []) (some [])
      (pos (3600 * 10 ^ 9)) world a_run.0 agreed a_run.1 a_run.2
