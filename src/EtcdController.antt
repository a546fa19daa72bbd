-- ===== src/EtcdController.antt =====
-- etcdController.go: the controller that reads the agents' health reports from etcd, decides by
-- majority which endpoints are healthy, and passes the load balancers on to the DNS controller.
pub mod Report
pub mod Status
pub mod Votes
pub mod Published
pub mod Trust
pub mod Untouched
pub mod Monitors
pub mod Lifecycle
mod Examples
use dnslb.Base.{
  ℕ, ◌+◌, ◌*◌, ◌^◌, ◌-◌, Bool, true, false, Option, none, some, List, [], ◌∷◌, ◌++◌, Str, Result,
  ltb, if◌then◌else◌,
}
use dnslb.Go.Decimal.{ℤ}
use dnslb.Etcd.{EtcdProvider}
use dnslb.Loadbalancer.{Loadbalancer, LoadbalancerList}

-- health.HealthCheckStatus of package github.com/NectGmbH/health, as far as the controller reads it.
pub record HealthStatus : Type 0 where
  pub ip : List ℕ
  pub port : ℤ
  pub healthy : Bool

-- The struct that an agent's value is decoded into; `time` is a uint64 of seconds.
pub record AgentStatus : Type 0 where
  pub status : List HealthStatus
  pub time : ℕ

-- What the controller calls and does not implement, over the state `S` of the outside world: etcd;
-- the clock, in nanoseconds of Unix time; json.Unmarshal into the struct above, whose items are of a
-- type of package health; and Sum64 of package xxhash over what was written.
pub record EtcdEnv (S : Type 0) : Type 0 where
  pub etcd : EtcdProvider S
  pub now : S → ℕ
  pub unmarshal : Str → Result Str AgentStatus
  pub xxhash : Str → ℕ

-- The calls on the Prometheus metrics that the controller makes.
pub data Sample : Type 0 where
  agents_total agents_up agents_down : ℕ → Sample
  agents_status_age : Str → ℕ → ℕ → Sample
  agents_to_healthy_endpoints : Str → ℕ → Sample
  lb_total_endpoints lb_healthy_endpoints lb_unhealthy_endpoints : Str → ℕ → Sample
  errors_total errors_etcd etcd_sync_time etcd_monitor_sync_time : Sample

-- `metrics` may be nil; otherwise the calls are listed in their order.
abbrev pub Metrics : Type 0
Metrics = Option (List Sample)

abbrev pub observe : Sample → Metrics → Metrics
observe x none = none
observe x (some l) = some (l ++ x ∷ [])

pub record EtcdController : Type 0 where
  pub metrics : Metrics
  pub agents : List Str
  pub wanted : List Loadbalancer
  pub current : List Loadbalancer
  pub last_monitor_hash : ℕ
  -- The lists that goroutines of syncStatus hold, waiting to send them on the channel `updates`.
  pub updates : List LoadbalancerList
  -- In nanoseconds.
  pub max_status_age : ℕ
  -- The times that were sent on the channel `lastCycle`.
  pub last_cycle : List ℕ

-- NewETCDController; the intervals of the loops are no part of a single round.
unfoldable pub new_etcd_controller : List Str → List Loadbalancer → Metrics → EtcdController
new_etcd_controller agents wanted metrics = record {
  metrics = metrics;
  agents = agents;
  wanted = wanted;
  current = [];
  last_monitor_hash = 0;
  updates = [];
  max_status_age = 45 * 10 ^ 9;
  last_cycle = [];
}
