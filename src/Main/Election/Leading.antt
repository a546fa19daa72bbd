-- ===== src/Main/Election/Leading.antt =====
-- In the branch for raft the controllers run exactly while the process is the leader.
use dnslb.Base.{Bool, true, false, ◌≡◌, ◌≢◌, ◌⊎◌, inl, inr, refl, sym, ◌∙◌, if_elim}
use mathlib.Core.Path.{subst}
use dnslb.Main.Health.{on_event}
use dnslb.DnsController.Lifecycle
use dnslb.EtcdController.Lifecycle as EtcdLifecycle
use dnslb.Main.Election.Leader.{
  Pc, receiving, run_etcd, run_dns, stop_dns, in_dns_stop, in_etcd_stop, Process, initial, Step,
  Steps,
}
use dnslb.Main.Election.Inner.{IsKept, inner-IsKept, IsEtcdKept, inner-IsEtcdKept}

-- A controller out of every call, with its flag; out of every call; and in a call of Stop, or behind
-- it with the flag reset.
abbrev pub IsOut : Bool → Lifecycle.Lifecycle → Type 0
IsOut b y = (y.second ≡ Lifecycle.idle) × (y.first ≡ Lifecycle.idle) × (y.running ≡ b)

abbrev pub IsFree : Lifecycle.Lifecycle → Type 0
IsFree y = (y.second ≡ Lifecycle.idle) × (y.first ≡ Lifecycle.idle)

abbrev IsReturning : Lifecycle.Lifecycle → Type 0
IsReturning y = (y.second ≡ Lifecycle.idle) × ((y.first ≢ Lifecycle.idle) ⊎ (y.running ≡ false))

abbrev IsEtcdOut : Bool → EtcdLifecycle.Lifecycle → Type 0
IsEtcdOut b y = (y.second ≡ EtcdLifecycle.idle) × (y.first ≡ EtcdLifecycle.idle) × (y.running ≡ b)

abbrev IsEtcdFree : EtcdLifecycle.Lifecycle → Type 0
IsEtcdFree y = (y.second ≡ EtcdLifecycle.idle) × (y.first ≡ EtcdLifecycle.idle)

abbrev IsEtcdReturning : EtcdLifecycle.Lifecycle → Type 0
IsEtcdReturning y =
    (y.second ≡ EtcdLifecycle.idle) × ((y.first ≢ EtcdLifecycle.idle) ⊎ (y.running ≡ false))

run-IsOut : (y : Lifecycle.Lifecycle) → IsFree y → IsOut true (Lifecycle.run y)
unfolding Lifecycle.run
run-IsOut y (s, f) = if_elim (IsOut true) y.running y _ (λ on. (s, f, on)) (λ off. (s, f, refl))

stop-IsReturning :
    (y : Lifecycle.Lifecycle) → IsFree y → IsReturning (Lifecycle.stop Lifecycle.one y)
unfolding Lifecycle.stop
stop-IsReturning y (s, f) =
    if_elim IsReturning y.running _ y (λ on. (s, inl (λ e. cc))) (λ off. (s, inr off))

run-IsEtcdOut : (y : EtcdLifecycle.Lifecycle) → IsEtcdFree y → IsEtcdOut true (EtcdLifecycle.run y)
unfolding EtcdLifecycle.run
run-IsEtcdOut y (s, f) =
    if_elim (IsEtcdOut true) y.running y _ (λ on. (s, f, on)) (λ off. (s, f, refl))

stop-IsEtcdReturning :
    (y : EtcdLifecycle.Lifecycle)
    → IsEtcdFree y
    → IsEtcdReturning (EtcdLifecycle.stop EtcdLifecycle.one y)
unfolding EtcdLifecycle.stop
stop-IsEtcdReturning y (s, f) =
    if_elim IsEtcdReturning y.running _ y (λ on. (s, inl (λ e. cc))) (λ off. (s, inr off))

-- Where the controllers are, by where the goroutine is and whether the process is the leader.
abbrev pub InPlace : Pc → Bool → EtcdLifecycle.Lifecycle → Lifecycle.Lifecycle → Type 0
InPlace receiving b e d = IsEtcdOut b e × IsOut b d
InPlace run_etcd b e d = (b ≡ true) × IsEtcdFree e × IsFree d
InPlace run_dns b e d = (b ≡ true) × IsEtcdOut true e × IsFree d
InPlace stop_dns b e d = (b ≡ false) × IsEtcdFree e × IsFree d
InPlace in_dns_stop b e d = (b ≡ false) × IsEtcdFree e × IsReturning d
InPlace in_etcd_stop b e d = (b ≡ false) × IsEtcdReturning e × IsOut false d

abbrev pub Good : Process → Type 0
Good p = InPlace p.pc p.health.is_leading p.etcd p.dns

dns_same : (b : Bool) (y z : Lifecycle.Lifecycle) → IsKept y z → IsOut b y → IsOut b z
dns_same b y z k (s, f, r) = let (f', r') = k.idle f in (k.alone, f', r' ∙ r)

dns_kept :
    (pc : Pc) (b : Bool) (e : EtcdLifecycle.Lifecycle) (d z : Lifecycle.Lifecycle)
    → IsKept d z
    → InPlace pc b e d
    → InPlace pc b e z
dns_kept receiving b e d z k (x, o) = (x, dns_same b d z k o)
dns_kept run_etcd b e d z k (l, x, f) = (l, x, (k.alone, (k.idle f.1).0))
dns_kept run_dns b e d z k (l, x, f) = (l, x, (k.alone, (k.idle f.1).0))
dns_kept stop_dns b e d z k (l, x, f) = (l, x, (k.alone, (k.idle f.1).0))
dns_kept in_dns_stop b e d z k (l, x, r) = (l, x, (k.alone, k.returning r.1))
dns_kept in_etcd_stop b e d z k (l, x, o) = (l, x, dns_same false d z k o)

etcd_same :
    (b : Bool) (y z : EtcdLifecycle.Lifecycle) → IsEtcdKept y z → IsEtcdOut b y → IsEtcdOut b z
etcd_same b y z k (s, f, r) = let (f', r') = k.idle f in (k.alone, f', r' ∙ r)

etcd_kept :
    (pc : Pc) (b : Bool) (e z : EtcdLifecycle.Lifecycle) (d : Lifecycle.Lifecycle)
    → IsEtcdKept e z
    → InPlace pc b e d
    → InPlace pc b z d
etcd_kept receiving b e z d k (x, o) = (etcd_same b e z k x, o)
etcd_kept run_etcd b e z d k (l, x, f) = (l, (k.alone, (k.idle x.1).0), f)
etcd_kept run_dns b e z d k (l, x, f) = (l, etcd_same true e z k x, f)
etcd_kept stop_dns b e z d k (l, x, f) = (l, (k.alone, (k.idle x.1).0), f)
etcd_kept in_dns_stop b e z d k (l, x, r) = (l, (k.alone, (k.idle x.1).0), r)
etcd_kept in_etcd_stop b e z d k (l, x, o) = (l, (k.alone, k.returning x.1), o)

-- The second caller of neither controller is in a call.
pub alone_of :
    (pc : Pc) (b : Bool) (e : EtcdLifecycle.Lifecycle) (d : Lifecycle.Lifecycle)
    → InPlace pc b e d
    → (e.second ≡ EtcdLifecycle.idle) × (d.second ≡ Lifecycle.idle)
alone_of receiving b e d (x, o) = (x.0, o.0)
alone_of run_etcd b e d (l, x, f) = (x.0, f.0)
alone_of run_dns b e d (l, x, f) = (x.0, f.0)
alone_of stop_dns b e d (l, x, f) = (x.0, f.0)
alone_of in_dns_stop b e d (l, x, r) = (x.0, r.0)
alone_of in_etcd_stop b e d (l, x, o) = (x.0, o.0)

returned : (y : Lifecycle.Lifecycle) → IsReturning y → y.first ≡ Lifecycle.idle → IsOut false y
returned y (s, inl n) e = absurd (n e)
returned y (s, inr off) e = (s, e, off)

etcd_returned :
    (y : EtcdLifecycle.Lifecycle)
    → IsEtcdReturning y
    → y.first ≡ EtcdLifecycle.idle
    → IsEtcdOut false y
etcd_returned y (s, inl n) e = absurd (n e)
etcd_returned y (s, inr off) e = (s, e, off)

module _ (p : Process) (h : Good p) where
  good_at : (pc : Pc) → p.pc ≡ pc → InPlace pc p.health.is_leading p.etcd p.dns
  good_at pc e = subst (λ c. InPlace c p.health.is_leading p.etcd p.dns) e h

Step-Good : (p q : Process) → Step p q → Good p → Good q
unfolding on_event
Step-Good _ _ (Step.elected p e) h =
    let (x, o) = good_at p h receiving e in (refl, (x.0, x.1), (o.0, o.1))
Step-Good _ _ (Step.runs_etcd p e f q) h =
    let (l, x, y) = good_at p h run_etcd e in (l, run-IsEtcdOut p.etcd x, y)
Step-Good _ _ (Step.runs_dns p e f) h =
    let (l, x, y) = good_at p h run_dns e in
    subst (λ b. InPlace receiving b p.etcd (Lifecycle.run p.dns)) (sym l) (x, run-IsOut p.dns y)
Step-Good _ _ (Step.deposed p now e) h =
    let (x, o) = good_at p h receiving e in (refl, (x.0, x.1), (o.0, o.1))
Step-Good _ _ (Step.stops_dns p e f) h =
    let (l, x, y) = good_at p h stop_dns e in (l, x, stop-IsReturning p.dns y)
Step-Good _ _ (Step.stops_etcd p e f g) h =
    let (l, x, y) = good_at p h in_dns_stop e in
    (l, stop-IsEtcdReturning p.etcd x, returned p.dns y f)
Step-Good _ _ (Step.stopped p e f) h =
    let (l, x, y) = good_at p h in_etcd_stop e in
    subst (λ b. InPlace receiving b p.etcd p.dns) (sym l) (etcd_returned p.etcd x f, y)
Step-Good _ _ (Step.dns_moves p z s i) h =
    dns_kept p.pc p.health.is_leading p.etcd p.dns z
      (inner-IsKept p.dns z s i (alone_of p.pc p.health.is_leading p.etcd p.dns h).1) h
Step-Good _ _ (Step.etcd_moves p z s i) h =
    etcd_kept p.pc p.health.is_leading p.etcd z p.dns
      (inner-IsEtcdKept p.etcd z s i (alone_of p.pc p.health.is_leading p.etcd p.dns h).0) h

pub Steps-Good : (p q : Process) → Steps p q → Good p → Good q
Steps-Good _ _ (Steps.here p) h = h
Steps-Good _ _ (Steps.then_step p q r steps s) h = Step-Good q r s (Steps-Good p q steps h)

pub initial-Good : Good initial
initial-Good = ((refl, refl, refl), (refl, refl, refl))

-- In an election by raft, in whatever order the goroutine of the leader channel and the loops of the
-- controllers take turns, as long as nothing panics and the etcd controller is not run while a
-- goroutine of an earlier call is left: whenever the goroutine waits for the next change of the
-- leadership, both controllers are out of every call of Run and Stop, and run exactly if the process
-- is the leader.
pub leader_runs :
    (p : Process)
    → Steps initial p
    → p.pc ≡ receiving
    → (p.etcd.first ≡ EtcdLifecycle.idle)
      × (p.etcd.running ≡ p.health.is_leading)
      × (p.dns.first ≡ Lifecycle.idle)
      × (p.dns.running ≡ p.health.is_leading)
leader_runs p steps e =
    let h : Good p = Steps-Good initial p steps initial-Good in
    let (x, o) = good_at p h receiving e in (x.1, x.2, o.1, o.2)
