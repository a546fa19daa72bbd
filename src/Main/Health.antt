-- ===== src/Main/Health.antt =====
-- The state behind /healthz in dnsManage of main.go, and the handler.
pub mod Laws
use dnslb.Base.{
  ℕ, ◌+◌, ◌*◌, ◌^◌, Bool, true, false, ◌&&◌, List, [], ◌∷◌, Str, bytes, ltb, if◌then◌else◌,
}

-- The atomics; the stamps are Unix times in seconds, 0 at first.
pub record HealthState : Type 0 where
  pub is_leading : Bool
  pub leading_stopped_at : ℕ
  pub last_dns_cycle : ℕ
  pub last_etcd_cycle : ℕ

abbrev pub initial : HealthState
initial = record {
  is_leading = false;
  leading_stopped_at = 0;
  last_dns_cycle = 0;
  last_etcd_cycle = 0;
}

-- What changes the state: a cycle of a controller, and the callbacks of the election.
pub data HealthEvent : Type 0 where
  etcd_cycle dns_cycle : ℕ → HealthEvent
  started_leading : HealthEvent
  stopped_leading : ℕ → HealthEvent

unfoldable pub on_event : HealthEvent → HealthState → HealthState
on_event (etcd_cycle t) h = record h { last_etcd_cycle = t }
on_event (dns_cycle t) h = record h { last_dns_cycle = t }
on_event started_leading h = record h { is_leading = true }
on_event (stopped_leading t) h = record h { is_leading = false; leading_stopped_at = t }

unfoldable pub run_events : List HealthEvent → HealthState → HealthState
unfolding on_event
run_events [] h = h
run_events (e ∷ es) h = run_events es (on_event e h)

-- One minute, in nanoseconds.
abbrev pub grace_period : ℕ
grace_period = 60 * 10 ^ 9

-- `time.Since(time.Unix(t, 0)) < d` and `> d`, at `now` nanoseconds
abbrev pub younger : ℕ → ℕ → ℕ → Bool
younger now t d = ltb now (t * 10 ^ 9 + d)

abbrev pub older : ℕ → ℕ → ℕ → Bool
older now t d = ltb (t * 10 ^ 9 + d) now

unfoldable pub is_healthy : ℕ → HealthState → Bool
is_healthy now h =
    if h.is_leading
    then younger now h.last_dns_cycle grace_period && younger now h.last_etcd_cycle grace_period
    else if older now h.leading_stopped_at (grace_period * 2)
    then older now h.last_dns_cycle grace_period && older now h.last_etcd_cycle grace_period
    else false

-- The handler of /healthz: the status code and the body.
unfoldable pub healthz : ℕ → HealthState → ℕ × Str
unfolding is_healthy
healthz now h =
    if is_healthy now h
    then (200, bytes "{ \"status\": \"healthy\" }")
    else (500, bytes "{ \"status\": \"unhealthy\" }")

-- The events of a singleton, which takes part in no election.
abbrev pub IsCycle : HealthEvent → Type 0
IsCycle (etcd_cycle t) = Unit
IsCycle (dns_cycle t) = Unit
IsCycle _ = ⊥
