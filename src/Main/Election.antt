-- ===== src/Main/Election.antt =====
-- The elections of dnsManage of main.go: what their callbacks, the leader channel of raft and the
-- signals do to the controllers and to the state behind /healthz. A call of Run or Stop is taken as
-- a whole here; its steps are those of DnsController/Lifecycle and EtcdController/Lifecycle.
pub mod Laws
pub mod Leader
pub mod Inner
pub mod Leading
pub mod Resting
pub mod Whole
mod Examples
use dnslb.Base.{
  ℕ, Bool, true, false, not, Option, none, some, List, [], ◌∷◌, Str, bytes, str_eq, Result, ok, err,
  if◌then◌else◌,
}
use dnslb.Go.Strings.{contains}
use dnslb.Main.Store.{Viper}
use dnslb.Main.Health.{HealthState, started_leading, stopped_leading, on_event}
use dnslb.Main.Health

-- Whether the controllers run, and whether the context of the election was cancelled.
pub record Process : Type 0 where
  pub health : HealthState
  pub etcd_runs : Bool
  pub dns_runs : Bool
  pub cancelled : Bool

abbrev pub initial : Process
initial = record { health = Health.initial; etcd_runs = false; dns_runs = false; cancelled = false }

-- etcdCtrl.Run() and dnsCtrl.Run()
abbrev pub run_controllers : Process → Process
run_controllers p = record p { etcd_runs = true; dns_runs = true }

-- dnsCtrl.Stop() and etcdCtrl.Stop()
abbrev pub stop_controllers : Process → Process
stop_controllers p = record p { dns_runs = false; etcd_runs = false }

-- A change of leadership, for k8s the callbacks OnStartedLeading and OnStoppedLeading, for raft a value
-- of the leader channel; `now` is in seconds.
unfoldable pub lead : Process → Process
unfolding on_event
lead p = run_controllers (record p { health = on_event started_leading p.health })

unfoldable pub follow : ℕ → Process → Process
unfolding on_event
follow now p = stop_controllers (record p { health = on_event (stopped_leading now) p.health })

-- The goroutine of the branch for k8s that waits for a signal.
unfoldable pub on_signal : Process → Process
on_signal p = record (stop_controllers p) { cancelled = true }

-- What happens to a process that takes part in an election: it is elected or not any more, or it
-- learns who is the leader, or a signal arrives.
pub data Event : Type 0 where
  elected : Event
  deposed : ℕ → Event
  new_leader : Str → Event
  interrupt : Event

-- The branch for k8s.
unfoldable pub on_k8s : Event → Process → Process
unfolding lead follow on_signal
on_k8s elected p = lead p
on_k8s (deposed now) p = follow now p
on_k8s (new_leader identity) p = p
on_k8s interrupt p = on_signal p

-- The branch for raft; no signal reaches signalCh, since signal.Notify is not called.
unfoldable pub on_raft : Event → Process → Process
unfolding lead follow
on_raft elected p = lead p
on_raft (deposed now) p = follow now p
on_raft (new_leader identity) p = p
on_raft interrupt p = p

-- The branch for a singleton: the start, and the signal.
unfoldable pub start_singleton : Process → Process
start_singleton p = run_controllers p

unfoldable pub stop_singleton : Process → Process
stop_singleton p = stop_controllers p

unfoldable pub run_election : (Event → Process → Process) → List Event → Process → Process
run_election on [] p = p
run_election on (e ∷ es) p = run_election on es (on e p)

-- The end of the branch for k8s: a call with the cancelled context has to fail with the message of
-- the shutdown; otherwise the process ends with logrus.Fatal.
unfoldable pub ends_well : Result Str (Unit {0}) → Bool
ends_well (ok lease) = false
ends_well (err e) = contains e (bytes "the leader is shutting down")

-- buildKubeconfig, over the two functions of client-go.
unfoldable pub build_kubeconfig :
    {C : Type 0} → (Str → Str → Result Str C) → Result Str C → Str → Result Str C
build_kubeconfig from_flags in_cluster [] = in_cluster
build_kubeconfig from_flags in_cluster (c ∷ kubeconfig) = from_flags [] (c ∷ kubeconfig)
