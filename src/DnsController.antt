-- ===== src/DnsController.antt =====
-- dnsController.go: the controller that compares the zones of the DNS provider with the load
-- balancers and updates the zones that differ.
pub mod Match
pub mod Current
pub mod Mapping
pub mod Wanted
pub mod Records
pub mod Answers
pub mod Names
pub mod Sync
pub mod Loop
pub mod Reliable
pub mod Push
pub mod Reconcile
pub mod Settled
pub mod Rounds
pub mod Delivery
pub mod Lifecycle
pub mod Debugged
pub mod Examples
use dnslb.Base.{ℕ, ◌+◌, Bool, true, false, Option, none, some, List, [], ◌∷◌, ◌++◌, Str, Dict, ltb}
use dnslb.Go.Decimal.{ℤ}
use dnslb.Dns.{DnsTypes, Zone, DnsLib, DnsProvider}
use dnslb.Loadbalancer.{LoadbalancerList}

-- What the controller calls and does not implement, over the state `S` of the outside world: the
-- package dns, the provider and the clock; and what Go leaves open, the order in which sort.Slice
-- leaves zone names of one length, and the order in which `range` visits the keys of a map, which
-- may be another one at every visit.
pub record DnsEnv (T : DnsTypes) (S : Type 0) : Type 0 where
  pub lib : DnsLib T
  pub provider : DnsProvider T S
  pub now : S → ℕ
  pub sort_by_length : List Str → List Str
  pub range_keys : S → List Str → List Str

-- The calls on the Prometheus metrics that the controller makes.
pub data Sample : Type 0 where
  lb_updates_total errors_total errors_dns dns_sync_time : Sample
  dns_zone_updates : Str → Sample

abbrev pub Metrics : Type 0
Metrics = Option (List Sample)

abbrev pub observe : Sample → Metrics → Metrics
observe x none = none
observe x (some l) = some (l ++ x ∷ [])

pub record DnsController (T : DnsTypes) : Type 0 where
  pub metrics : Metrics
  pub current_zones_enforce_sync : Bool
  pub current_zones : List (Zone T)
  pub current_zones_hash : ℕ
  pub current_zones_hash_map : Dict ℕ
  pub current_zone_names : List Str
  pub wanted_zones : List (Zone T)
  pub wanted_zones_hash : ℕ
  pub wanted_zones_lb_hash : ℕ
  pub wanted_lbs : Option LoadbalancerList
  pub wanted_lbs_candidate : Option LoadbalancerList
  -- `none` is the zero time.
  pub last_current_zone_sync : Option ℕ
  pub current_zone_sync_enforce_interval : ℤ
  -- The times that were sent on the channel `lastCycle`.
  pub last_cycle : List ℕ

-- NewDNSController
unfoldable pub new_dns_controller : {T : DnsTypes} → Metrics → ℤ → DnsController T
new_dns_controller metrics interval = record {
  metrics = metrics;
  current_zones_enforce_sync = false;
  current_zones = [];
  current_zones_hash = 0;
  current_zones_hash_map = [];
  current_zone_names = [];
  wanted_zones = [];
  wanted_zones_hash = 0;
  wanted_zones_lb_hash = 0;
  wanted_lbs = none;
  wanted_lbs_candidate = none;
  last_current_zone_sync = none;
  current_zone_sync_enforce_interval = interval;
  last_cycle = [];
}
