-- ===== src/DnsController/Current.antt =====
-- updateCurrentZones: what the provider holds of the zones that the load balancers need.
use dnslb.Base.{
  ℕ, false, Option, none, some, List, [], ◌∷◌, ◌++◌, Str, Dict, insert, Result, ok, err,
}
use dnslb.Dns.{DnsTypes, Zone, DnsError}
use dnslb.Loadbalancer.{LoadbalancerList}
use dnslb.DnsController.{DnsEnv, DnsController}
use dnslb.DnsController.Match.{zones_in_use}

-- The errors, with what the messages quote.
pub data UpdateError : Type 0 where
  missing_lbs : UpdateError
  list_failed : DnsError → UpdateError
  zone_failed : Str → DnsError → UpdateError

module _ {T : DnsTypes} {S : Type 0} (env : DnsEnv T S) where
  -- The loop over the keys of `zoneNames`; the first error ends it.
  unfoldable pub fetch_zones : List Str → List (Zone T) → S → Result UpdateError (List (Zone T)) × S
  fetch_zones [] zones s = (ok zones, s)
  fetch_zones (name ∷ names) zones s = elim (env.provider.get_zone name s).0 [
    | ok zone ↦ fetch_zones names (zones ++ zone ∷ []) (env.provider.get_zone name s).1
    | err e ↦ (err (zone_failed name e), (env.provider.get_zone name s).1)
  ]

  unfoldable pub hash_zones : Dict ℕ → List (Zone T) → Dict ℕ
  hash_zones m [] = m
  hash_zones m (z ∷ zones) = hash_zones (insert z.name (env.lib.zone_hash z) m) zones

  -- The fields that are set after all zones have been read.
  abbrev pub with_zones : DnsController T → List Str → List (Zone T) → S → DnsController T
  with_zones c names zones s = record c {
    current_zones = zones;
    current_zone_names = names;
    current_zones_hash = env.lib.zones_hash zones;
    current_zones_hash_map = hash_zones [] zones;
    current_zones_enforce_sync = false;
    last_current_zone_sync = some (env.now s);
  }

  abbrev pub after_fetch :
      DnsController T
      → List Str
      → Result UpdateError (List (Zone T)) × S
      → Result UpdateError (Unit {0}) × DnsController T × S
  after_fetch c names (err e, s) = (err e, c, s)
  after_fetch c names (ok zones, s) = (ok tt, with_zones c names zones s, s)

  abbrev pub after_list :
      DnsController T
      → LoadbalancerList
      → Result DnsError (List Str) × S
      → Result UpdateError (Unit {0}) × DnsController T × S
  after_list c lbs (err e, s) = (err (list_failed e), c, s)
  after_list c lbs (ok names, s) =
      let sorted = env.sort_by_length names in
      let keys = zones_in_use sorted lbs.loadbalancers [] in
      after_fetch c sorted (fetch_zones (env.range_keys s keys) [] s)

  abbrev pub update_for :
      DnsController T
      → Option LoadbalancerList
      → S
      → Result UpdateError (Unit {0}) × DnsController T × S
  update_for c none s = (err missing_lbs, c, s)
  update_for c (some lbs) s = after_list c lbs (env.provider.list_zones s)

  -- updateCurrentZones
  unfoldable pub update_current_zones :
      DnsController T → S → Result UpdateError (Unit {0}) × DnsController T × S
  unfolding fetch_zones hash_zones
  update_current_zones c s = update_for c c.wanted_lbs s
