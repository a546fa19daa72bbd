-- ===== src/System/EndToEnd.antt =====
-- From the agents' reports to the provider's zones.
use dnslb.Base.{false, Option, some, List, [], ◌∷◌, ◌++◌, Str, ◌≡◌, refl, ◌∙◌}
use mathlib.Core.Option
use dnslb.Loadbalancer.{LoadbalancerList, new_loadbalancer_list}
use dnslb.EtcdController.{EtcdEnv}
use dnslb.EtcdController.Status.{sync_status}
use dnslb.EtcdController.Votes.{NoDuplicates}
use dnslb.EtcdController.Published.{published, round_reports, has_majority, sync_status_majority}
use dnslb.Dns.{DnsTypes, Zone, DnsLaws}
use dnslb.DnsController.{DnsEnv}
use dnslb.DnsController.Loop.{same_hash, receive, promote}
use dnslb.DnsController.Reliable.{IsReliable}
use dnslb.DnsController.Delivery.{wanted_for, tick_reconciles}
use dnslb.System.Kept.{tick-promote}
use dnslb.System.{
  System, observe_status, after_status, Step, Steps, actions, does_status, does_deliver, does_round,
}

module _ {T : DnsTypes} {S : Type 0} (env : EtcdEnv S) (denv : DnsEnv T S) (laws : DnsLaws denv.lib)
    (hold : S → Str → Option (Zone T)) (listed : S → List Str)
    (reliable : IsReliable denv hold listed) (y : System T S) where
  -- What the agents' majority leaves of the configuration, and the world after their reports.
  abbrev pub majority_list : LoadbalancerList
  majority_list =
      new_loadbalancer_list env.xxhash (published (has_majority env y.etcd y.world) y.etcd.wanted)

  abbrev pub reported : S
  reported = (sync_status env y.etcd y.world).1

  -- The zone of a name with the records of that list.
  abbrev pub majority_zone : Str → Zone T → Zone T
  majority_zone k = wanted_for denv laws hold listed reliable majority_list reported k

  waiting-after_status :
      NoDuplicates (round_reports env y.etcd y.world)
      → (after_status env denv y).etcd.updates ≡ y.etcd.updates ++ majority_list ∷ []
  unfolding sync_status observe_status
  waiting-after_status h = sync_status_majority env y.etcd y.world h

  promoted :
      same_hash y.dns.wanted_lbs majority_list ≡ false
      → (promote (receive majority_list y.dns)).0.wanted_lbs ≡ some majority_list
  unfolding promote receive
  promoted new = rw new

  pub reports_reach_provider :
      NoDuplicates (round_reports env y.etcd y.world)
      → same_hash y.dns.wanted_lbs majority_list ≡ false
      → ((k : Str) (z : Zone T)
          → hold reported k ≡ some z
          → denv.lib.zone_hash z ≡ denv.lib.zone_hash (majority_zone k z)
          → z ≡ majority_zone k z)
      → (end : System T S) × (steps : Steps env denv y end) × (actions env denv y end steps
          ≡ does_status ∷ does_deliver ∷ does_round ∷ [])
        × (end.dns.wanted_lbs ≡ some majority_list)
        × ((k : Str) → hold end.world k ≡ Option.map (majority_zone k) (hold reported k))
  reports_reach_provider h new distinct =
      let (c, s, run, held) =
        tick_reconciles denv laws hold listed reliable majority_list reported y.dns new distinct in
      let y₁ = after_status env denv y in
      let y₂ : System T S = record y₁ {
        etcd = record y₁.etcd { updates = y.etcd.updates ++ [] };
        dns = receive majority_list y₁.dns;
      } in
      let y₃ : System T S = record y₂ { dns = c; world = s } in
      (
        y₃,
        Steps.next y y₁ y₃ (Step.status y) (
            Steps.next y₁ y₂ y₃
              (Step.deliver y₁ y.etcd.updates [] majority_list (waiting-after_status h))
              (Steps.next y₂ y₃ y₃ (Step.round y₂ c s run) (Steps.done y₃))),
        refl,
        (tick-promote denv (receive majority_list y.dns) c reported s run).0 ∙ promoted new,
        held,
      )
