-- ===== src/Main/Health/Laws.antt =====
-- The answers of /healthz (main.go) after the events of each election mode.
use dnslb.Base.{ℕ, ◌+◌, ◌*◌, ◌^◌, ◌≤◌, ◌<◌, List, [], ◌∷◌, ◌≡◌, ◌↔◌, refl, arith, All, ◌⊎◌}
use dnslb.Main.Health.{
  HealthState, initial, HealthEvent, etcd_cycle, dns_cycle, started_leading, stopped_leading,
  on_event, run_events, healthz, IsCycle,
}

-- The cycles of the controllers leave alone what the election sets.
abbrev SameElection : HealthState → HealthState → Type 0
SameElection h k = (h.is_leading ≡ k.is_leading) × (h.leading_stopped_at ≡ k.leading_stopped_at)

run_cycles-SameElection :
    (es : List HealthEvent) (h : HealthState) → All IsCycle es → SameElection (run_events es h) h
unfolding run_events
run_cycles-SameElection [] h c = (refl, refl)
run_cycles-SameElection (etcd_cycle t ∷ es) h c =
    run_cycles-SameElection es (record h { last_etcd_cycle = t }) c.1
run_cycles-SameElection (dns_cycle t ∷ es) h c =
    run_cycles-SameElection es (record h { last_dns_cycle = t }) c.1
run_cycles-SameElection (started_leading ∷ es) h c = absurd c.0
run_cycles-SameElection (stopped_leading t ∷ es) h c = absurd c.0

-- A process that is a singleton answers 500 as long as one of its controllers works: after any cycles
-- of the two controllers, up to a minute after the last cycle of either.
pub healthz_singleton :
    (es : List HealthEvent) (now : ℕ)
    → All IsCycle es
    → let h = run_events es initial in
      (now ≤ (h.last_dns_cycle + 60) * 10 ^ 9) ⊎ (now ≤ (h.last_etcd_cycle + 60) * 10 ^ 9)
      → (healthz now h).0 ≡ 500
unfolding healthz
healthz_singleton es now c recent =
    let (leading, stopped) = run_cycles-SameElection es initial c in ground arith

-- From the moment in which the process becomes the leader, and whatever it was before, it answers 200
-- exactly while the last cycle of each controller is less than a minute ago.
pub healthz_leader :
    (h : HealthState) (es : List HealthEvent) (now : ℕ)
    → All IsCycle es
    → let k = run_events es (on_event started_leading h) in
      ((healthz now k).0 ≡ 200)
      ↔ ((now < (k.last_dns_cycle + 60) * 10 ^ 9) × (now < (k.last_etcd_cycle + 60) * 10 ^ 9))
unfolding healthz on_event
healthz_leader h es now c =
    let (leading, stopped) = run_cycles-SameElection es (on_event started_leading h) c in
    ground arith

-- After it stopped leading at `t` it answers 200 exactly when two minutes have passed and the last
-- cycle of each controller is more than a minute ago.
pub healthz_follower :
    (h : HealthState) (t : ℕ) (es : List HealthEvent) (now : ℕ)
    → All IsCycle es
    → let k = run_events es (on_event (stopped_leading t) h) in
      ((healthz now k).0 ≡ 200) ↔ (
        ((t + 120) * 10 ^ 9 < now)
        × ((k.last_dns_cycle + 60) * 10 ^ 9 < now)
        × ((k.last_etcd_cycle + 60) * 10 ^ 9 < now))
unfolding healthz on_event
healthz_follower h t es now c =
    let (leading, stopped) = run_cycles-SameElection es (on_event (stopped_leading t) h) c in
    ground arith
