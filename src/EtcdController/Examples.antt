-- ===== src/EtcdController/Examples.antt =====
-- The controller at three agents and an etcd that is a map.
use dnslb.Base.{
  ℕ, ◌+◌, ◌*◌, ◌^◌, ◌≤◌, ◌<◌, true, Option, none, some, [], ◌∷◌, ◌++◌, Str, bytes, str_eq, Dict,
  lookup, insert, lookup-insert, str_eq_refl, Result, ok, err, if◌then◌else◌, ◌≡◌, ◌↔◌, refl, arith,
}
use mathlib.Core.List.{Memᴰ}
use dnslb.Go.Strings.{join}
use dnslb.Go.Decimal.{pos, itoa, itoa_int}
use dnslb.Go.Ip.{ip_string}
use dnslb.Net.{EndpointProtocol, endpoint_string}
use dnslb.Loadbalancer.{Loadbalancer, LoadbalancerList, new_loadbalancer, new_loadbalancer_list}
use dnslb.Etcd.{EtcdError, EtcdProvider}
use dnslb.EtcdController.{HealthStatus, AgentStatus, EtcdEnv, EtcdController, new_etcd_controller}
use dnslb.EtcdController.Report.{get_status_from_agent}
use dnslb.EtcdController.Status.{status_key, count_statuses, majority_healthy, sync_status}
use dnslb.EtcdController.Votes.{Report, report_entries, healthy_entries, reports, NoDuplicates}
use dnslb.EtcdController.Published.{published, round_reports, has_majority, sync_status_majority}
use dnslb.EtcdController.Trust.{
  Trusted, PublishedAs, get_status_from_agent_iff, sync_status_one_report,
}
use dnslb.EtcdController.Monitors.{
  IsStore, monitors_key, get_wanted_monitors_as_string, sync_monitors, sync_monitors_lem,
}

abbrev found : Option Str → Result EtcdError Str
found none = err (bytes "key not found")
found (some v) = ok v

abbrev map_etcd : EtcdProvider (Dict Str)
map_etcd = record {
  init = λ endpoints s. (ok tt, []);
  set = λ k v s. (ok tt, insert k v s);
  get = λ k s. (found (lookup k s), s);
}

-- An etcd that refuses every write.
abbrev read_only_etcd : EtcdProvider (Dict Str)
read_only_etcd = record map_etcd { set = λ k v s. (err (bytes "read only"), s) }

abbrev web_up : HealthStatus
web_up = record { ip = 10 ∷ 0 ∷ 0 ∷ 1 ∷ []; port = pos 80; healthy = true }

-- The reports of the example: one entry, two entries for one endpoint, or no report.
abbrev decode : Str → Result Str AgentStatus
decode val =
    if str_eq val (bytes "up")
    then ok (record { status = web_up ∷ []; time = 100 })
    else if str_eq val (bytes "twice")
    then ok (record { status = web_up ∷ web_up ∷ []; time = 100 })
    else err (bytes "unexpected end of JSON input")

abbrev tiny_hash : Str → ℕ
tiny_hash [] = 0
tiny_hash (b ∷ s) = b + 257 * tiny_hash s + 1

abbrev world : EtcdEnv (Dict Str)
world = record { etcd = map_etcd; now = λ s. 120 * 10 ^ 9; unmarshal = decode; xxhash = tiny_hash }

abbrev read_only : EtcdEnv (Dict Str)
read_only = record world { etcd = read_only_etcd }

abbrev web : EndpointProtocol
web = record { endpoint = record { ip = 10 ∷ 0 ∷ 0 ∷ 1 ∷ []; port = 80 }; protocol = bytes "tcp" }

abbrev other : EndpointProtocol
other = record { endpoint = record { ip = 10 ∷ 0 ∷ 0 ∷ 2 ∷ []; port = 80 }; protocol = bytes "tcp" }

abbrev balancer : Loadbalancer
balancer = new_loadbalancer (bytes "a.example") (web ∷ other ∷ [])

abbrev controller : EtcdController
controller = record {
  metrics = none;
  agents = bytes "x" ∷ bytes "y" ∷ bytes "z" ∷ [];
  wanted = balancer ∷ [];
  current = [];
  last_monitor_hash = 0;
  updates = [];
  max_status_age = 45 * 10 ^ 9;
  last_cycle = [];
}

-- It is what the constructor gives.
controller_lem :
    new_etcd_controller (bytes "x" ∷ bytes "y" ∷ bytes "z" ∷ []) (balancer ∷ []) none ≡ controller
unfolding new_etcd_controller
controller_lem = refl

abbrev two_up : Dict Str
two_up = (bytes "x", bytes "up") ∷ (bytes "y", bytes "up") ∷ []

abbrev one_up : Dict Str
one_up = (bytes "x", bytes "up") ∷ []

abbrev one_twice : Dict Str
one_twice = (bytes "x", bytes "twice") ∷ []

-- Two of three agents are enough, and the endpoint that none of them names is left out.
two_of_three :
    (sync_status world controller two_up).0.current
    ≡ new_loadbalancer (bytes "a.example") (web ∷ []) ∷ []
unfolding sync_status get_status_from_agent lookup insert status_key itoa itoa_int ip_string
    endpoint_string count_statuses majority_healthy join
two_of_three = refl

one_of_three : (sync_status world controller one_up).0.current ≡ []
unfolding sync_status get_status_from_agent lookup insert status_key itoa itoa_int ip_string
    endpoint_string count_statuses majority_healthy join
one_of_three = refl

abbrev up_report : Report
up_report = some (web_up ∷ [])

two_up_reports : round_reports world controller two_up ≡ up_report ∷ up_report ∷ none ∷ []
unfolding reports get_status_from_agent lookup
two_up_reports = refl

single_entry : (key : Str) → healthy_entries key (web_up ∷ []) ≤ 1
unfolding healthy_entries
single_entry key = ground arith

two_up-NoDuplicates : NoDuplicates (round_reports world controller two_up)
two_up-NoDuplicates =
    rw two_up_reports (λ key. (single_entry key, (single_entry key, (omega arith, tt))))

sync_status_majority_example :
    (sync_status world controller two_up).0.updates
    ≡ controller.updates
      ++ new_loadbalancer_list world.xxhash
          (published (has_majority world controller two_up) (balancer ∷ []))
        ∷ []
sync_status_majority_example = sync_status_majority world controller two_up two_up-NoDuplicates

get_status_from_agent_iff_example :
    ((get_status_from_agent world (45 * 10 ^ 9) (bytes "x") none two_up).0 ≡ ok (web_up ∷ []))
    ↔ Trusted world (45 * 10 ^ 9) (bytes "x") two_up (web_up ∷ [])
get_status_from_agent_iff_example =
    get_status_from_agent_iff world (45 * 10 ^ 9) (bytes "x") none two_up (web_up ∷ [])

abbrev twice_report : Report
twice_report = some (web_up ∷ web_up ∷ [])

one_twice_reports : round_reports world controller one_twice ≡ twice_report ∷ none ∷ none ∷ []
unfolding reports get_status_from_agent lookup
one_twice_reports = refl

twice_often : 3 < 2 * report_entries (endpoint_string web.endpoint) twice_report
unfolding healthy_entries status_key endpoint_string itoa itoa_int ip_string join
twice_often = omega arith

sync_status_one_report_example :
    (lbs : LoadbalancerList) × ((sync_status world controller one_twice).0.updates
      ≡ controller.updates ++ lbs ∷ [])
    × PublishedAs balancer web lbs.loadbalancers
sync_status_one_report_example =
    sync_status_one_report world controller one_twice balancer web twice_report (Memᴰ.head refl)
      (Memᴰ.head refl) (rw one_twice_reports (Memᴰ.head refl)) twice_often

world-IsStore : IsStore world
world-IsStore = record {
  get-set = λ k v s h. rw (lookup-insert k k v s, str_eq_refl k);
  get-get = λ k j s. refl;
}

first_write : (sync_monitors world controller []).0 ≡ ok tt
unfolding sync_monitors lookup
first_write = refl

first_remembered :
    (v : Str)
    → found (lookup monitors_key []) ≡ ok v
    → tiny_hash v ≡ 0
    → v ≡ get_wanted_monitors_as_string controller
unfolding lookup
first_remembered v q e = cc

sync_monitors_lem_example :
    (map_etcd.get monitors_key (sync_monitors world controller []).2).0
    ≡ ok (get_wanted_monitors_as_string controller)
sync_monitors_lem_example =
    sync_monitors_lem world world-IsStore controller [] first_remembered first_write

refused : (sync_monitors read_only controller []).0 ≡ err (bytes "read only")
unfolding sync_monitors lookup
refused = refl
