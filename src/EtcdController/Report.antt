-- ===== src/EtcdController/Report.antt =====
-- getStatusFromAgent: one agent's report, if it can be read and is not too old.
use dnslb.Base.{ℕ, ◌+◌, ◌*◌, ◌^◌, ◌-◌, Bool, List, Str, Result, ok, err, ltb, if◌then◌else◌}
use dnslb.Etcd.{EtcdError}
use dnslb.EtcdController.{HealthStatus, AgentStatus, EtcdEnv, Metrics, observe, agents_status_age}

-- The errors, with the agent that the messages name.
pub data AgentError : Type 0 where
  no_value : Str → EtcdError → AgentError
  bad_value : Str → Str → AgentError
  too_old : Str → AgentError

-- The seconds up to which time.Unix does not overflow.
abbrev pub unix_limit : ℕ
unix_limit = 2 ^ 63 - 62135596800

-- The largest time.Duration, in nanoseconds.
abbrev pub max_duration : ℕ
max_duration = 2 ^ 63 - 1

-- `since > max`, where `since` is the time between `now` and the instant of int64(time) seconds. From
-- the limit on time.Unix overflows, the instant lies before year 1, and `since` is the largest
-- duration; from 2 ^ 63 on the seconds are negative, and the instant lies before 1970.
unfoldable pub exceeds_age : ℕ → ℕ → ℕ → Bool
exceeds_age max time now =
    if ltb time unix_limit
    then ltb (time * 10 ^ 9 + max) now
    else if ltb time (2 ^ 63)
    then ltb max max_duration
    else ltb max (now + (2 ^ 64 - time) * 10 ^ 9)

module _ {S : Type 0} (env : EtcdEnv S) where
  abbrev pub check_age :
      Str → ℕ → Metrics → S → AgentStatus → Result AgentError (List HealthStatus) × Metrics × S
  unfolding exceeds_age
  check_age agent max m s st =
      let m' = observe (agents_status_age agent (env.now s) st.time) m in
      if exceeds_age max st.time (env.now s)
      then (err (too_old agent), m', s)
      else (ok st.status, m', s)

  abbrev pub decode :
      Str
      → ℕ
      → Metrics
      → S
      → Result Str AgentStatus
      → Result AgentError (List HealthStatus) × Metrics × S
  unfolding exceeds_age
  decode agent max m s (err e) = (err (bad_value agent e), m, s)
  decode agent max m s (ok st) = check_age agent max m s st

  abbrev pub with_value :
      Str
      → ℕ
      → Metrics
      → S
      → Result EtcdError Str
      → Result AgentError (List HealthStatus) × Metrics × S
  unfolding exceeds_age
  with_value agent max m s (err e) = (err (no_value agent e), m, s)
  with_value agent max m s (ok val) = decode agent max m s (env.unmarshal val)

  -- getStatusFromAgent, at the maximal age `max`
  unfoldable pub get_status_from_agent :
      ℕ → Str → Metrics → S → Result AgentError (List HealthStatus) × Metrics × S
  unfolding exceeds_age
  get_status_from_agent max agent m s =
      let (val, s') = env.etcd.get agent s in with_value agent max m s' val
