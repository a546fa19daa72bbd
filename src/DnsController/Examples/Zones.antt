-- ===== src/DnsController/Examples/Zones.antt =====
-- Zone names, record names and wanted zones at concrete load balancers.
use dnslb.Base.{
  true, false, some, List, [], ◌∷◌, ◌++◌, map, Str, bytes, lookup, insert, value_or, keep, ◌≡◌, ◌≢◌,
  refl, arith, str_eq_iff,
}
use mathlib.Core.List.{Memᴰ}
use dnslb.Go.Strings.{has_prefix, contains, has_suffix, trim_suffix, join}
use dnslb.Go.Decimal.{itoa}
use dnslb.Go.Ip.{ip_string}
use dnslb.Net.{EndpointProtocol}
use dnslb.Loadbalancer.{Loadbalancer, new_loadbalancer}
use dnslb.Dns.{Zone}
use dnslb.DnsController.Match.{first_zone, map_lbs_to_zones}
use dnslb.DnsController.Mapping.{IsSorted, Longest, map_lbs_to_zones-Longest}
use dnslb.DnsController.Names.{map_lbs_to_zones_misplaced}
use dnslb.DnsController.Wanted.{a_name, wanted_zone}
use dnslb.DnsController.Records.{is_a}
use dnslb.DnsController.Answers.{addresses, has_a_name, wanted_zone_answers}
use dnslb.DnsController.Examples.Provider.{Types, lib, lib-laws}

abbrev pub web : EndpointProtocol
web = record { endpoint = record { ip = 10 ∷ 0 ∷ 0 ∷ 1 ∷ []; port = 80 }; protocol = bytes "tcp" }

abbrev pub balancer : Loadbalancer
balancer = new_loadbalancer (bytes "a.b.example") (web ∷ [])

-- It is in neither zone, but its name has one of them in it.
abbrev stray : Loadbalancer
stray = new_loadbalancer (bytes "b.example.org") (web ∷ [])

abbrev zone_names : List Str
zone_names = bytes "b.example" ∷ bytes "example" ∷ []

abbrev pub old_zone : Zone Types
old_zone = record {
  name = bytes "b.example";
  records =
      record {
        class = tt;
        name = bytes "a";
        ttl = 60;
        type = 1;
        value = bytes "10.0.0.9";
        preference = 0;
      }
      ∷ record { class = tt; name = []; ttl = 60; type = 15; value = bytes "mail"; preference = 10 }
      ∷ [];
  rest = tt;
}

first : first_zone (bytes "a.b.example") zone_names ≡ some (bytes "b.example")
unfolding first_zone contains has_prefix
first = refl

grouped :
    map_lbs_to_zones (balancer ∷ stray ∷ []) zone_names
    ≡ (bytes "b.example", balancer ∷ stray ∷ []) ∷ []
unfolding map_lbs_to_zones first_zone contains has_prefix lookup insert
grouped = refl

zone_names-IsSorted : IsSorted zone_names
zone_names-IsSorted = ((omega arith, tt), (tt, tt))

inside :
    Memᴰ balancer
      (value_or [] (lookup (bytes "b.example") (map_lbs_to_zones (balancer ∷ []) zone_names)))
unfolding map_lbs_to_zones first_zone contains has_prefix lookup insert
inside = Memᴰ.head refl

map_lbs_to_zones-Longest_example :
    Memᴰ balancer (balancer ∷ [])
    × (contains (bytes "a.b.example") (bytes "b.example") ≡ true)
    × Longest (bytes "a.b.example") (bytes "b.example") zone_names
map_lbs_to_zones-Longest_example =
    map_lbs_to_zones-Longest (balancer ∷ []) zone_names (bytes "b.example") balancer
      zone_names-IsSorted inside

stray_first : first_zone (bytes "b.example.org") zone_names ≡ some (bytes "b.example")
unfolding first_zone contains has_prefix
stray_first = refl

stray_other : ◌≢◌ {A = Str} (bytes "b.example.org") (bytes "b.example")
stray_other e =
    absurd (ground (arith, (str_eq_iff (bytes "b.example.org") (bytes "b.example")).1 e))

stray_outside : has_suffix (bytes "b.example.org") (bytes "." ++ bytes "b.example") ≡ false
unfolding has_suffix
stray_outside = refl

map_lbs_to_zones_misplaced_example :
    Memᴰ stray (value_or [] (lookup (bytes "b.example") (map_lbs_to_zones (stray ∷ []) zone_names)))
    × (a_name stray (bytes "b.example") ≡ bytes "b.example.org")
map_lbs_to_zones_misplaced_example =
    map_lbs_to_zones_misplaced (stray ∷ []) zone_names (bytes "b.example") stray (Memᴰ.head refl)
      stray_first stray_other stray_outside

new_records :
    map (λ r. r.value) (wanted_zone lib (balancer ∷ []) old_zone).records
    ≡ bytes "mail" ∷ bytes "10.0.0.1" ∷ []
unfolding wanted_zone a_name trim_suffix ip_string itoa join
new_records = refl

named : has_a_name (bytes "a") (bytes "b.example") (balancer ∷ []) ≡ true
unfolding a_name trim_suffix
named = refl

wanted_zone_answers_example :
    map
      (λ r. r.value)
      (keep (is_a lib lib-laws (bytes "a")) (wanted_zone lib (balancer ∷ []) old_zone).records)
    ≡ addresses (bytes "a") (bytes "b.example") (balancer ∷ [])
wanted_zone_answers_example =
    wanted_zone_answers lib lib-laws (bytes "a") (balancer ∷ []) old_zone named
