-- ===== src/DnsController/Delivery.antt =====
-- From a list that lbUpdateLoop receives to the provider's zones.
use dnslb.Base.{false, Option, none, some, List, Str, ◌≡◌, refl, ap}
use mathlib.Core.Option
use dnslb.Loadbalancer.{LoadbalancerList}
use dnslb.Dns.{DnsTypes, Zone, DnsLaws}
use dnslb.DnsController.{DnsEnv, lb_updates_total, dns_sync_time, DnsController, observe}
use dnslb.DnsController.Wanted.{wanted_zone}
use dnslb.DnsController.Loop.{same_hash, receive, observe_sync, tick}
use dnslb.DnsController.Reliable.{IsReliable}
use dnslb.DnsController.Reconcile.{in_zone, sync_reconciles}

module _ {T : DnsTypes} {S : Type 0} (env : DnsEnv T S) (laws : DnsLaws env.lib)
    (hold : S → Str → Option (Zone T)) (listed : S → List Str)
    (reliable : IsReliable env hold listed) (lbs : LoadbalancerList) (s : S) where
  abbrev pub wanted_for : Str → Zone T → Zone T
  wanted_for k = wanted_zone env.lib (in_zone env laws hold listed reliable lbs s k)

  -- If the provider is reliable and the hash tells each held zone from the one that it shall be, a
  -- list of load balancers that is received, and is not the wanted one by its hash, is at the
  -- provider after the next round, whatever the state of the controller: the round does not panic,
  -- every zone that the provider held has the records of that list, the zones of no load balancer
  -- are as they were, and no zone appears.
  pub tick_reconciles :
      (c : DnsController T)
      → same_hash c.wanted_lbs lbs ≡ false
      → ((k : Str) (z : Zone T)
          → hold s k ≡ some z
          → env.lib.zone_hash z ≡ env.lib.zone_hash (wanted_for k z)
          → z ≡ wanted_for k z)
      → (c' : DnsController T) × (s' : S) × (tick env (receive lbs c) s ≡ some (c', s'))
        × ((k : Str) → hold s' k ≡ Option.map (wanted_for k) (hold s k))
  unfolding tick receive
  tick_reconciles c new distinct =
      let c₁ : DnsController T = record c {
        metrics = observe lb_updates_total c.metrics;
        wanted_lbs = some lbs;
        wanted_lbs_candidate = none;
      } in
      let (c', s', run, held) =
        sync_reconciles env laws hold listed reliable lbs s c₁ refl distinct in
      (
        record c' { metrics = observe dns_sync_time c'.metrics },
        s',
        rw new (ap (observe_sync env) run),
        held,
      )
