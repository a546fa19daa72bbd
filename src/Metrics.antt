-- ===== src/Metrics.antt =====
-- Metrics.Init of metrics.go: the collectors, in the order in which they are registered.
pub mod Laws
mod Examples
use dnslb.Base.{ℕ, suc, Dict, insert, List, [], ◌∷◌, ◌++◌, Str, bytes, Result, ok, err}

pub data Kind : Type 0 where
  counter gauge histogram : Kind

-- A field of the struct Metrics, and the collector that it is set to. The help texts and the
-- histograms' buckets are left out.
pub record Collector : Type 0 where
  pub field : Str
  pub kind : Kind
  pub subsystem : Str
  pub name : Str
  pub labels : List Str

abbrev general_collector : Str → Kind → Str → List Str → Collector
general_collector field kind name labels = record {
  field = field;
  kind = kind;
  subsystem = bytes "general";
  name = name;
  labels = labels;
}

abbrev dns_collector : Str → Kind → Str → List Str → Collector
dns_collector field kind name labels = record {
  field = field;
  kind = kind;
  subsystem = bytes "dnscontroller";
  name = name;
  labels = labels;
}

abbrev etcd_collector : Str → Kind → Str → List Str → Collector
etcd_collector field kind name labels = record {
  field = field;
  kind = kind;
  subsystem = bytes "etcdcontroller";
  name = name;
  labels = labels;
}

unfoldable pub collectors : List Collector
collectors =
    general_collector (bytes "ErrorsTotal") counter (bytes "errors_total") []
    ∷ dns_collector (bytes "ErrorsDNS") counter (bytes "errors_dns") []
    ∷ etcd_collector (bytes "ErrorsETCD") counter (bytes "errors_etcd") []
    ∷ dns_collector (bytes "LBUpdatesTotal") counter (bytes "lb_updates_total") []
    ∷ dns_collector (bytes "DNSZoneUpdates") counter (bytes "zone_updates_by_name")
        (bytes "zone" ∷ [])
    ∷ etcd_collector (bytes "AgentsTotal") gauge (bytes "agents_total") []
    ∷ etcd_collector (bytes "AgentsUp") gauge (bytes "agents_up") []
    ∷ etcd_collector (bytes "AgentsDown") gauge (bytes "agents_down") []
    ∷ etcd_collector (bytes "AgentsStatusAge") gauge (bytes "agents_status_age")
        (bytes "agent" ∷ [])
    ∷ etcd_collector (bytes "AgentsToHealthyEndpoints") gauge (bytes "agent_healthy_endpoints")
        (bytes "agent" ∷ [])
    ∷ etcd_collector (bytes "LBTotalEndpoints") gauge (bytes "lb_total_endpoints") (bytes "lb" ∷ [])
    ∷ etcd_collector (bytes "LBHealthyEndpoints") gauge (bytes "lb_healthy_endpoints")
        (bytes "lb" ∷ [])
    ∷ etcd_collector (bytes "LBUnhealthyEndpoints") gauge (bytes "lb_unhealthy_endpoints")
        (bytes "lb" ∷ [])
    ∷ dns_collector (bytes "DNSSyncTime") histogram (bytes "dns_sync_time") []
    ∷ etcd_collector (bytes "ETCDSyncTime") histogram (bytes "etcd_sync_time") []
    ∷ etcd_collector (bytes "ETCDMonitorSyncTime") histogram (bytes "etcd_monitor_sync_time") []
    ∷ []

-- The name under which Prometheus has a collector.
abbrev pub full_name : Collector → Str
full_name c = c.subsystem ++ (bytes "_" ++ c.name)

-- The error names the field.
pub data InitError : Type 0 where
  not_registered : Str → Str → InitError

-- The struct Metrics: the fields that are set, with the number of the collector that each holds; the
-- collectors are numbered as the functions New… of package prometheus make them.
pub record Metrics : Type 0 where
  pub made : ℕ
  pub held : Dict ℕ

abbrev pub unset : Metrics
unset = record { made = 0; held = [] }

-- `m.Field = prometheus.New…(…)`
abbrev pub assign : Collector → Metrics → Metrics
assign c m = record { made = suc m.made; held = insert c.field m.made m.held }

-- `register` is Register of package prometheus, over its registry.
module _ {R : Type 0} (register : Collector → R → Result Str (Unit {0}) × R) where
  -- One block of Init after another; the first error ends it.
  unfoldable pub register_all :
      List Collector → Metrics → R → Result InitError (Unit {0}) × Metrics × R
  register_all [] m r = (ok tt, m, r)
  register_all (c ∷ cs) m r = elim (register c r).0 [
    | ok u ↦ register_all cs (assign c m) (register c r).1
    | err e ↦ (err (not_registered c.field e), assign c m, (register c r).1)
  ]

  -- Metrics.Init, but for the handler of /metrics
  unfoldable pub init : Metrics → R → Result InitError (Unit {0}) × Metrics × R
  unfolding register_all collectors
  init m r = register_all collectors m r
