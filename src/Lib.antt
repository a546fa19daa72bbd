-- ===== src/Lib.antt =====
-- dnslb: a DNS load balancer. Agents check endpoints and report their health in etcd; one process
-- decides by majority which endpoints are up, and keeps the A records of its load balancers in the
-- zones of a DNS provider. This library models that process and proves what its parts promise.
--
-- The parts, and how they interact:
-- - EtcdController (etcdController.go). A round of syncStatus (`sync_status`, over
--   `get_status_from_agent` for getStatusFromAgent) reads the agents' reports from etcd, counts the
--   healthy entries and passes a list of load balancers on; a round of syncMonitors (`sync_monitors`)
--   writes to etcd what the agents shall check. The state is the record EtcdController; `updates` are
--   the lists that wait to be sent, in their order.
-- - DnsController (dnsController.go). `receive` is what lbUpdateLoop does with a list, `tick` is the
--   body of Run's loop: it takes the received list over (`promote`) and calls `sync`, which reads the
--   zones (`update_current_zones`, in DnsController/Current), computes what they shall be
--   (`update_wanted_zones`, in DnsController/Wanted, by the grouping of mapLBsToZones in
--   DnsController/Match) and updates the zones that differ (`push_zones`). The state is the record
--   DnsController, and `none` is a panic.
-- - System: the loops of both controllers over one outside world, as steps in any order (`Step`): a
--   round of statusLoop or monitorLoop (etcdController.go), the delivery of one of the lists that wait
--   to be sent, a round of the DNS controller, or a change of the world by somebody else.
-- - Loadbalancer (loadbalancer.go): load balancers, and the list of them with its checksum, by which
--   the DNS controller tells lists apart.
-- - Net (net.go): endpoints, their texts and the parsers. Flags (util.go and main.go): the values of
--   the flags, and parseLoadbalancerEndpointList.
-- - Etcd (etcd.go): the interface ETCDProvider, the provider over the client library in Etcd/Client,
--   and the mock in Etcd/Mock. Dns/Debug (debugDnsProvider.go): the provider that logs;
--   DnsController/Debugged has the DNS controller with it.
-- - Main (main.go): the command line in Main/Cli (`parse_cli` for parseCli, over package viper, whose
--   calls and documentation are in Main/Store), cfgValidation in Main/Config, dnsManage up to the
--   controllers in Main/Setup (`set_up`), and `launch`, which is main, in Main/Launch. Main/Health has
--   the state behind /healthz, what changes it, and the handler; Main/Election has what the elections
--   and the signals do to the controllers and to that state, and Main/Election/Leader the goroutine
--   that receives from raft's leader channel, in steps beside those of both Lifecycles. In
--   Main/Election/Whole the rounds and deliveries of System are joined with these steps.
-- - DnsController/Lifecycle and EtcdController/Lifecycle: Run and Stop of the controllers as steps of
--   the goroutines that call them and of the loops, with the stop channels; `none` is a panic.
-- - Raft (grpcRaft.go, stateRaft.go): the raft controller (`new_raft_controller`, `new_raft`, `run`,
--   `stop`) and the empty state that raft replicates.
-- - Metrics (metrics.go): the collectors that Metrics.Init sets the fields to and registers (`init`,
--   over the struct with its fields and the registry of Prometheus).
-- - Base has lists, strings of bytes, maps, tests and results; Go has what is used of Go's packages
--   strings, strconv, net and encoding/json, by their documentation.
--
-- How code becomes definitions: a method with a pointer receiver takes the record and returns it,
-- the outside world is a state `S` that every call threads, and a `(T, error)` is a Result whose
-- error keeps what the message quotes. Numbers are natural numbers, and integers where the code
-- reads them from the configuration, like the intervals: the ports of Net are cut to 16 bits where
-- the code converts, times are Unix times in nanoseconds, or in seconds where the code stores
-- seconds. Calls on the metrics are listed as samples. Logging is left out.
--
-- Parameters: package github.com/NectGmbH/dns and the providers (DnsLib, DnsProvider; DnsLaws has
-- what its documentation says), etcd and its client library, xxhash, the decoder of the agents'
-- reports, the clock, viper, the texts that package flag finds, the registry of Prometheus, raft
-- and gRPC, the functions of client-go, the order that sort.Slice leaves among names of one length,
-- and the order of a `range` over a map. Theorems that need more of them say so in their
-- hypotheses; each is applied at a concrete world in the module Examples of its part.
--
-- Loops are structural recursions over the lists that the code ranges over. Only the printing of
-- decimals (Go/Decimal) has fuel: n + 1 for the number n, which is above the number of its digits.
--
-- Not modelled: steps that overlap: a round is one step, while the code runs the loops in parallel,
-- and System begins with the loops running; only in the branch for raft are its rounds joined with
-- the steps of Run and Stop. A Run of the etcd controller while a goroutine of an earlier Run or
-- Stop is left is no step. The callbacks for Kubernetes are whole events, and the elections
-- themselves belong to the libraries. Logging, initDumpHTTP, the HTTP server and the handler of
-- /metrics are left out.
pub mod Base
pub mod Go
pub mod Net
pub mod Flags
pub mod Loadbalancer
pub mod Etcd
pub mod EtcdController
pub mod Dns
pub mod DnsController
pub mod Main
pub mod Metrics
pub mod Raft
pub mod System
