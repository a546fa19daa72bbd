-- ===== src/DnsController/Wanted.antt =====
-- updateWantedZones: the zones as they shall be, with an A record for each endpoint.
use dnslb.Base.{
  List, [], ◌∷◌, ◌++◌, Str, bytes, str_eq, Dict, lookup, value_or, is_empty, if◌then◌else◌,
}
use dnslb.Go.Strings.{trim_suffix}
use dnslb.Go.Ip.{ip_string}
use dnslb.Net.{EndpointProtocol}
use dnslb.Loadbalancer.{Loadbalancer, LoadbalancerList}
use dnslb.Dns.{DnsTypes, Record, Zone, DnsLib}
use dnslb.DnsController.{DnsController}
use dnslb.DnsController.Match.{map_lbs_to_zones}

-- The name of a load balancer's records in its zone.
unfoldable pub a_name : Loadbalancer → Str → Str
a_name lb zone = if str_eq lb.name zone then [] else trim_suffix lb.name (bytes "." ++ zone)

module _ {T : DnsTypes} (lib : DnsLib T) where
  abbrev pub a_record : Str → EndpointProtocol → Record T
  a_record name endpoint = record {
    class = lib.class_in;
    name = name;
    ttl = 60;
    type = lib.type_a;
    value = ip_string endpoint.ip;
    preference = 0;
  }

  -- The first loop over the load balancers of a zone: their A records go.
  unfoldable pub remove_records : List Loadbalancer → Zone T → Zone T
  unfolding a_name
  remove_records [] zone = zone
  remove_records (lb ∷ lbs) zone =
      remove_records lbs (lib.remove_records_with_name (a_name lb zone.name) lib.type_a zone)

  unfoldable pub add_endpoints : Str → List EndpointProtocol → Zone T → Zone T
  add_endpoints name [] zone = zone
  add_endpoints name (e ∷ es) zone =
      add_endpoints name es (record zone { records = zone.records ++ a_record name e ∷ [] })

  -- The second loop: a record for each endpoint.
  unfoldable pub add_records : List Loadbalancer → Zone T → Zone T
  unfolding a_name add_endpoints
  add_records [] zone = zone
  add_records (lb ∷ lbs) zone =
      add_records lbs (add_endpoints (a_name lb zone.name) lb.endpoints zone)

  -- The body of the loop over the zones.
  unfoldable pub wanted_zone : List Loadbalancer → Zone T → Zone T
  unfolding remove_records add_records
  wanted_zone lbs zone = if is_empty lbs then zone else add_records lbs (remove_records lbs zone)

  unfoldable pub zones_wanted : Dict (List Loadbalancer) → List (Zone T) → List (Zone T)
  unfolding wanted_zone
  zones_wanted lb_map [] = []
  zones_wanted lb_map (zone ∷ zones) =
      wanted_zone (value_or [] (lookup zone.name lb_map)) zone ∷ zones_wanted lb_map zones

  -- updateWantedZones for the wanted load balancers, which are not nil; it returns no error.
  unfoldable pub update_wanted_zones : LoadbalancerList → DnsController T → DnsController T
  unfolding zones_wanted
  update_wanted_zones lbs c =
      let wanted =
        zones_wanted (map_lbs_to_zones lbs.loadbalancers c.current_zone_names)
          (lib.copy c.current_zones) in
      record c {
        wanted_zones = wanted;
        wanted_zones_hash = lib.zones_hash wanted;
        wanted_zones_lb_hash = lbs.hash;
      }
