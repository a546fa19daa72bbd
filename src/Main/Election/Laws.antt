-- ===== src/Main/Election/Laws.antt =====
-- Who runs the controllers in an election, and what /healthz says of it.
use dnslb.Base.{List, [], ◌∷◌, All, ◌≡◌, refl}
use dnslb.Main.Health.{on_event}
use dnslb.Main.Election.{
  Process, initial, Event, elected, deposed, new_leader, interrupt, lead, follow, on_k8s, on_raft,
  run_election,
}

-- The process runs both controllers exactly while it takes itself for the leader.
pub record IsConsistent (p : Process) : Type 0 where
  pub etcd : p.etcd_runs ≡ p.health.is_leading
  pub dns : p.dns_runs ≡ p.health.is_leading

abbrev pub IsNoSignal : Event → Type 0
IsNoSignal interrupt = ⊥
IsNoSignal _ = Unit

on_raft-IsConsistent : (e : Event) (p : Process) → IsConsistent p → IsConsistent (on_raft e p)
unfolding on_raft lead follow on_event
on_raft-IsConsistent elected p h = record { etcd = refl; dns = refl }
on_raft-IsConsistent (deposed now) p h = record { etcd = refl; dns = refl }
on_raft-IsConsistent (new_leader identity) p h = h
on_raft-IsConsistent interrupt p h = h

on_k8s-IsConsistent :
    (e : Event) (p : Process) → IsNoSignal e → IsConsistent p → IsConsistent (on_k8s e p)
unfolding on_k8s lead follow on_event
on_k8s-IsConsistent elected p n h = record { etcd = refl; dns = refl }
on_k8s-IsConsistent (deposed now) p n h = record { etcd = refl; dns = refl }
on_k8s-IsConsistent (new_leader identity) p n h = h
on_k8s-IsConsistent interrupt p n h = absurd n

run_raft-IsConsistent :
    (es : List Event) (p : Process) → IsConsistent p → IsConsistent (run_election on_raft es p)
unfolding run_election
run_raft-IsConsistent [] p h = h
run_raft-IsConsistent (e ∷ es) p h =
    run_raft-IsConsistent es (on_raft e p) (on_raft-IsConsistent e p h)

run_k8s-IsConsistent :
    (es : List Event) (p : Process)
    → All IsNoSignal es
    → IsConsistent p
    → IsConsistent (run_election on_k8s es p)
unfolding run_election
run_k8s-IsConsistent [] p n h = h
run_k8s-IsConsistent (e ∷ es) p n h =
    run_k8s-IsConsistent es (on_k8s e p) n.1 (on_k8s-IsConsistent e p n.0 h)

-- Whatever happens in an election by raft, and in one by k8s as long as no signal arrives, both
-- controllers run exactly while the process takes itself for the leader.
pub run_election-IsConsistent :
    (es : List Event)
    → IsConsistent (run_election on_raft es initial)
      × (All IsNoSignal es → IsConsistent (run_election on_k8s es initial))
run_election-IsConsistent es = (
  run_raft-IsConsistent es initial (record { etcd = refl; dns = refl }),
  λ n. run_k8s-IsConsistent es initial n (record { etcd = refl; dns = refl }),
)
