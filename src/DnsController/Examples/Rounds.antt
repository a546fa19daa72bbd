-- ===== src/DnsController/Examples/Rounds.antt =====
-- Rounds of the controller at one zone of the provider.
use dnslb.Base.{
  true, false, Option, none, some, List, [], ◌∷◌, Str, bytes, str_eq, str_eq_iff, err, ◌≡◌, ◌≢◌,
  refl, sym, arith, Bool-cases, inl, inr,
}
use mathlib.Core.Option
use mathlib.Core.Path.{subst}
use dnslb.Go.Strings.{has_prefix, contains, trim_suffix, join}
use dnslb.Go.Decimal.{pos, itoa}
use dnslb.Go.Ip.{ip_string}
use dnslb.Loadbalancer.{LoadbalancerList}
use dnslb.Dns.{Zone}
use dnslb.DnsController.{DnsEnv, DnsController}
use dnslb.DnsController.Match.{first_zone}
use dnslb.DnsController.Current.{list_failed, update_current_zones}
use dnslb.DnsController.Wanted.{wanted_zone}
use dnslb.DnsController.Mapping.{zone_lbs}
use dnslb.DnsController.Loop.{receive, promote, tick}
use dnslb.DnsController.Rounds.{tick_total, receive_stale}
use dnslb.DnsController.Delivery.{tick_reconciles}
use dnslb.DnsController.Debugged.{without_log, debug_env, tick-debug_env}
use dnslb.DnsController.Examples.Provider.{
  Types, lib, lib-laws, hold, listed, provider, env, env-IsReliable,
}
use dnslb.DnsController.Examples.Zones.{balancer, old_zone}

abbrev pub lbs : LoadbalancerList
lbs = record { loadbalancers = balancer ∷ []; hash = 5 }

abbrev no_lbs : LoadbalancerList
no_lbs = record { loadbalancers = []; hash = 6 }

-- A controller with a wanted list, and nothing else.
abbrev pub controller : Option LoadbalancerList → DnsController Types
controller wanted = record {
  metrics = none;
  current_zones_enforce_sync = false;
  current_zones = [];
  current_zones_hash = 0;
  current_zones_hash_map = [];
  current_zone_names = [];
  wanted_zones = [];
  wanted_zones_hash = 0;
  wanted_zones_lb_hash = 5;
  wanted_lbs = wanted;
  wanted_lbs_candidate = none;
  last_current_zone_sync = some 1000;
  current_zone_sync_enforce_interval = pos 60;
  last_cycle = [];
}

abbrev held : List (Zone Types)
held = old_zone ∷ []

abbrev in_zone : Str → Zone Types → Zone Types
in_zone k = wanted_zone lib (zone_lbs (listed held) (balancer ∷ []) k)

only_zone :
    (k : Str) (z : Zone Types) → hold held k ≡ some z → (bytes "b.example" ≡ k) × (old_zone ≡ z)
only_zone k z h = elim (Bool-cases (str_eq (bytes "b.example") k)) [
  | inl same ↦ ((str_eq_iff (bytes "b.example") k).0 same, cc (rw same at h))
  | inr other ↦ cc (rw other at h)
]

hash_differs : lib.zone_hash old_zone ≡ lib.zone_hash (in_zone (bytes "b.example") old_zone) → ⊥
unfolding wanted_zone first_zone contains has_prefix trim_suffix ip_string itoa join
hash_differs e = omega arith

distinct :
    (k : Str) (z : Zone Types)
    → hold held k ≡ some z
    → lib.zone_hash z ≡ lib.zone_hash (in_zone k z)
    → z ≡ in_zone k z
distinct k z h e =
    let (name, zone) = only_zone k z h in
    absurd (
      subst (λ (j : Str). lib.zone_hash old_zone ≡ lib.zone_hash (in_zone j old_zone) → ⊥) name
        hash_differs (rw (sym zone) at e))

tick_reconciles_example :
    (c' : DnsController Types) × (s' : List (Zone Types)) × (tick env
        (receive lbs (controller none))
        held
      ≡ some (c', s'))
    × ((k : Str) → hold s' k ≡ Option.map (in_zone k) (hold held k))
tick_reconciles_example =
    tick_reconciles env lib-laws hold listed env-IsReliable lbs held (controller none) refl distinct

tick_total_example :
    (r : DnsController Types × List (Zone Types)) × (tick env (controller (some lbs)) held ≡ some r)
tick_total_example = tick_total env (controller (some lbs)) held

tick-debug_env_example :
    without_log (tick (debug_env env) (controller (some lbs)) (held, []))
    ≡ tick env (controller (some lbs)) held
tick-debug_env_example = tick-debug_env env (controller (some lbs)) held []

-- A provider that cannot list its zones.
abbrev silent : DnsEnv Types (List (Zone Types))
silent = record env { provider = record provider { list_zones = λ s. (err (bytes "timeout"), s) } }

unread :
    (update_current_zones silent (record (controller (some lbs)) { last_cycle = 1000 ∷ [] }) held).0
    ≡ err (list_failed (bytes "timeout"))
unfolding update_current_zones
unread = refl

different : no_lbs.hash ≢ lbs.hash
different e = absurd (omega arith)

receive_stale_example :
    ((promote (receive lbs (receive no_lbs (controller (some lbs))))).0.wanted_lbs ≡ some no_lbs)
    × ((promote (receive lbs (receive no_lbs (controller (some lbs))))).1 ≡ true)
receive_stale_example = receive_stale (controller (some lbs)) lbs lbs no_lbs refl refl different
