-- ===== src/System.antt =====
-- The whole process between start and stop: the loops of the two controllers (statusLoop and
-- monitorLoop of etcdController.go, lbUpdateLoop and Run's loop of dnsController.go) over one outside
-- world, as steps in any order.
pub mod Kept
pub mod Parts
pub mod Configured
pub mod EndToEnd
pub mod Examples
use dnslb.Base.{ℕ, Option, none, some, List, [], ◌∷◌, ◌++◌, Str, Result, ok, err, ◌≡◌}
use dnslb.Go.Decimal.{ℤ}
use dnslb.Loadbalancer.{Loadbalancer, LoadbalancerList}
use dnslb.Etcd.{EtcdError}
use dnslb.EtcdController
use dnslb.EtcdController.{EtcdEnv, EtcdController, new_etcd_controller}
use dnslb.EtcdController.Status.{sync_status}
use dnslb.EtcdController.Monitors.{sync_monitors}
use dnslb.Dns.{DnsTypes}
use dnslb.DnsController
use dnslb.DnsController.{DnsEnv, DnsController, new_dns_controller}
use dnslb.DnsController.Loop.{receive, tick}

-- The controllers, and the world that both of them act on. The lists in `etcd.updates` are those of
-- the goroutines that wait to send on the channel.
pub record System (T : DnsTypes) (S : Type 0) : Type 0 where
  pub etcd : EtcdController
  pub dns : DnsController T
  pub world : S

-- What statusLoop does after a round, at the time `now`.
unfoldable pub observe_status : ℕ → EtcdController → EtcdController
observe_status now c = record c {
  metrics = EtcdController.observe EtcdController.etcd_sync_time c.metrics;
  last_cycle = c.last_cycle ++ now ∷ [];
}

-- How monitorLoop counts the outcome of a round.
unfoldable pub observe_monitors : Result EtcdError (Unit {0}) → EtcdController → EtcdController
observe_monitors (ok u) c = record c {
  metrics = EtcdController.observe EtcdController.etcd_monitor_sync_time c.metrics;
}
observe_monitors (err e) c = record c {
  metrics =
      EtcdController.observe EtcdController.errors_etcd
        (EtcdController.observe EtcdController.errors_total c.metrics);
}

-- The controllers as dnsManage makes them.
unfoldable pub start :
    {T : DnsTypes} {S : Type 0}
    → List Str
    → List Loadbalancer
    → EtcdController.Metrics
    → DnsController.Metrics
    → ℤ
    → S
    → System T S
unfolding new_etcd_controller new_dns_controller
start agents wanted em dm interval s = record {
  etcd = new_etcd_controller agents wanted em;
  dns = new_dns_controller dm interval;
  world = s;
}

-- What a step is.
pub data Action : Type 0 where
  does_status does_monitors does_deliver does_round is_outside : Action

module _ {T : DnsTypes} {S : Type 0} (env : EtcdEnv S) (denv : DnsEnv T S) where
  abbrev pub after_status : System T S → System T S
  after_status y =
      let (c, s) = sync_status env y.etcd y.world in
      record y { etcd = observe_status (env.now s) c; world = s }

  abbrev pub after_monitors : System T S → System T S
  after_monitors y =
      let (r, c, s) = sync_monitors env y.etcd y.world in
      record y { etcd = observe_monitors r c; world = s }

  -- One step: a round of one of the loops, the delivery of one of the waiting lists, whichever of the
  -- goroutines comes first, or a change of the outside world by somebody else.
  pub data Step : System T S → System T S → Type 0 where
    status : (y : System T S) → Step y (after_status y)
    monitors : (y : System T S) → Step y (after_monitors y)
    deliver :
        (y : System T S) (before after : List LoadbalancerList) (lbs : LoadbalancerList)
        → y.etcd.updates ≡ before ++ lbs ∷ after
        → Step y (record y {
          etcd = record y.etcd { updates = before ++ after };
          dns = receive lbs y.dns;
        })
    round :
        (y : System T S) (c : DnsController T) (s : S)
        → tick denv y.dns y.world ≡ some (c, s)
        → Step y (record y { dns = c; world = s })
    outside : (y : System T S) (s : S) → Step y (record y { world = s })

  abbrev pub action : (y z : System T S) → Step y z → Action
  action _ _ (Step.status y) = does_status
  action _ _ (Step.monitors y) = does_monitors
  action _ _ (Step.deliver y before after lbs e) = does_deliver
  action _ _ (Step.round y c s e) = does_round
  action _ _ (Step.outside y s) = is_outside

  -- Any number of steps.
  pub data Steps : System T S → System T S → Type 0 where
    done : (y : System T S) → Steps y y
    next : (x y z : System T S) → Step x y → Steps y z → Steps x z

  abbrev pub actions : (y z : System T S) → Steps y z → List Action
  actions _ _ (Steps.done y) = []
  actions _ _ (Steps.next x y z s more) = action x y s ∷ actions y z more
