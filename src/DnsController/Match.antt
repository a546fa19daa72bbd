-- ===== src/DnsController/Match.antt =====
-- Which zone a load balancer belongs to: the loops over the zone names in updateCurrentZones and in
-- mapLBsToZones.
use dnslb.Base.{
  Option, none, some, List, [], ◌∷◌, ◌++◌, Str, str_eq, Dict, lookup, insert, value_or,
  if◌then◌else◌,
}
use dnslb.Go.Strings.{contains}
use dnslb.Loadbalancer.{Loadbalancer}

-- The first zone name that the load balancer's name contains.
unfoldable pub first_zone : Str → List Str → Option Str
first_zone name [] = none
first_zone name (zone ∷ zones) = if contains name zone then some zone else first_zone name zones

-- A key is in a set once.
unfoldable pub add_key : Str → List Str → List Str
add_key k [] = k ∷ []
add_key k (j ∷ keys) = if str_eq j k then j ∷ keys else j ∷ add_key k keys

abbrev pub add_zone : Option Str → List Str → List Str
add_zone none keys = keys
add_zone (some zone) keys = add_key zone keys

-- The keys of the map `zoneNames` of updateCurrentZones, in the order in which they were stored.
unfoldable pub zones_in_use : List Str → List Loadbalancer → List Str → List Str
unfolding first_zone add_key
zones_in_use names [] keys = keys
zones_in_use names (lb ∷ lbs) keys =
    zones_in_use names lbs (add_zone (first_zone lb.name names) keys)

abbrev pub append_lb :
    Option Str → Loadbalancer → Dict (List Loadbalancer) → Dict (List Loadbalancer)
append_lb none lb m = m
append_lb (some zone) lb m = insert zone (value_or [] (lookup zone m) ++ lb ∷ []) m

-- The loop of mapLBsToZones.
unfoldable pub map_lbs :
    List Str → List Loadbalancer → Dict (List Loadbalancer) → Dict (List Loadbalancer)
unfolding first_zone
map_lbs names [] m = m
map_lbs names (lb ∷ lbs) m = map_lbs names lbs (append_lb (first_zone lb.name names) lb m)

unfoldable pub map_lbs_to_zones : List Loadbalancer → List Str → Dict (List Loadbalancer)
unfolding map_lbs
map_lbs_to_zones lbs zone_names = map_lbs zone_names lbs []
