-- ===== src/DnsController/Loop.antt =====
-- The two loops of the controller: lbUpdateLoop receives a list of load balancers, and Run's loop
-- takes the candidate over and syncs.
use dnslb.Base.{Bool, true, false, Option, none, some, ◌==◌, if◌then◌else◌}
use dnslb.Dns.{DnsTypes}
use dnslb.Loadbalancer.{LoadbalancerList}
use dnslb.DnsController.{DnsEnv, lb_updates_total, dns_sync_time, observe, DnsController}
use dnslb.DnsController.Sync.{sync}

abbrev pub same_hash : Option LoadbalancerList → LoadbalancerList → Bool
same_hash none new_lbs = false
same_hash (some lbs) new_lbs = new_lbs.hash == lbs.hash

-- lbUpdateLoop, at a list from the channel `updates`
unfoldable pub receive : {T : DnsTypes} → LoadbalancerList → DnsController T → DnsController T
receive new_lbs c = if same_hash c.wanted_lbs new_lbs then c else record c {
  metrics = observe lb_updates_total c.metrics;
  wanted_lbs_candidate = some new_lbs;
}

-- The candidate becomes the wanted list, under the lock: the controller, and `force`.
abbrev pub promote_candidate :
    {T : DnsTypes} → Option LoadbalancerList → DnsController T → DnsController T × Bool
promote_candidate none c = (c, false)
promote_candidate (some lbs) c =
    (record c { wanted_lbs = some lbs; wanted_lbs_candidate = none }, true)

unfoldable pub promote : {T : DnsTypes} → DnsController T → DnsController T × Bool
promote c = promote_candidate c.wanted_lbs_candidate c

module _ {T : DnsTypes} {S : Type 0} (env : DnsEnv T S) where
  abbrev pub observe_sync : Option (DnsController T × S) → Option (DnsController T × S)
  observe_sync none = none
  observe_sync (some (c, s)) = some (record c { metrics = observe dns_sync_time c.metrics }, s)

  abbrev pub sync_if_wanted :
      Option LoadbalancerList → Bool → DnsController T → S → Option (DnsController T × S)
  sync_if_wanted none force c s = some (c, s)
  sync_if_wanted (some lbs) force c s = observe_sync (sync env force c s)

  -- Run's loop, when the interval has passed; `none` is a panic
  unfoldable pub tick : DnsController T → S → Option (DnsController T × S)
  unfolding promote sync
  tick c s = let (c', force) = promote c in sync_if_wanted c'.wanted_lbs force c' s
