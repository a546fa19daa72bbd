-- ===== src/DnsController/Examples/Settled.antt =====
-- A forced sync at a provider that already has the records of the load balancer.
use dnslb.Base.{
  true, false, some, List, [], ◌∷◌, Str, bytes, str_eq, str_eq_iff, ◌≡◌, refl, Bool-cases, inl, inr,
}
use mathlib.Core.Path.{subst}
use dnslb.Go.Strings.{has_prefix, contains, trim_suffix, join}
use dnslb.Go.Decimal.{itoa}
use dnslb.Go.Ip.{ip_string}
use dnslb.Dns.{Zone}
use dnslb.DnsController.{DnsController}
use dnslb.DnsController.Current.{update_current_zones}
use dnslb.DnsController.Match.{first_zone}
use dnslb.DnsController.Wanted.{wanted_zone}
use dnslb.DnsController.Mapping.{zone_lbs}
use dnslb.DnsController.Sync.{sync}
use dnslb.DnsController.Settled.{sync_settled}
use dnslb.DnsController.Examples.Provider.{Types, lib, lib-laws, hold, listed, env, env-IsReliable}
use dnslb.DnsController.Examples.Zones.{balancer}
use dnslb.DnsController.Examples.Rounds.{lbs, controller}

abbrev new_zone : Zone Types
new_zone = record {
  name = bytes "b.example";
  records =
      record { class = tt; name = []; ttl = 60; type = 15; value = bytes "mail"; preference = 10 }
      ∷ record {
        class = tt;
        name = bytes "a";
        ttl = 60;
        type = 1;
        value = bytes "10.0.0.1";
        preference = 0;
      }
      ∷ [];
  rest = tt;
}

abbrev held : List (Zone Types)
held = new_zone ∷ []

abbrev in_zone : Str → Zone Types → Zone Types
in_zone k = wanted_zone lib (zone_lbs (listed held) (balancer ∷ []) k)

new_zone_wanted : in_zone (bytes "b.example") new_zone ≡ new_zone
unfolding wanted_zone first_zone contains has_prefix trim_suffix ip_string itoa join
new_zone_wanted = refl

all_wanted : (k : Str) (z : Zone Types) → hold held k ≡ some z → in_zone k z ≡ z
all_wanted k z h = elim (Bool-cases (str_eq (bytes "b.example") k)) [
  | inl same ↦
      let zone : new_zone ≡ z = cc (rw same at h) in
      subst (λ (j : Str). in_zone j z ≡ z) ((str_eq_iff (bytes "b.example") k).0 same)
        (subst (λ (y : Zone Types). in_zone (bytes "b.example") y ≡ y) zone new_zone_wanted)
  | inr other ↦ cc (rw other at h)
]

sync_settled_example :
    (c' : DnsController Types) × (s' : List (Zone Types)) × (sync env true
        (controller (some lbs))
        held
      ≡ some (c', s'))
    × ((update_current_zones env (controller (some lbs)) held).2 ≡ s')
    × (hold s' ≡ hold held)
    × (c'.current_zones_enforce_sync ≡ false)
sync_settled_example =
    sync_settled env lib-laws hold listed env-IsReliable lbs held (controller (some lbs)) refl
      all_wanted
