-- ===== src/EtcdController/Trust.antt =====
-- getStatusFromAgent and syncStatus of etcdController.go: the weight of a report.
use dnslb.Base.{
  ℕ, ◌+◌, ◌*◌, ◌^◌, ◌≤◌, ◌<◌, Bool, true, false, List, [], ◌∷◌, ◌++◌, Str, ok, Result-cases, lt→ltb,
  ltb→lt, le→ltb_false, ltb_false→le, ltb, ◌-◌, ◌⊎◌, Bool-cases, length, is_empty, keep, keep-Mem,
  if◌then◌else◌, ◌≡◌, ◌↔◌, refl, ap, sym, arith, inl, inr,
}
use mathlib.Core.List.{Memᴰ}
use mathlib.Core.Path.{subst}
use dnslb.Net.{EndpointProtocol, endpoint_string}
use dnslb.Loadbalancer.{Loadbalancer, LoadbalancerList, new_loadbalancer, new_loadbalancer_list}
use dnslb.EtcdController.{HealthStatus, AgentStatus, EtcdEnv, Metrics, EtcdController}
use dnslb.EtcdController.Report.{unix_limit, max_duration, exceeds_age, get_status_from_agent}
use dnslb.EtcdController.Status.{sync_status}
use dnslb.EtcdController.Votes.{Report, report_entries, total_entries}
use dnslb.EtcdController.Published.{published, round_reports, has_entries, updates-sync_status}

-- A report of the second `time` is no older than `max` nanoseconds at `now`. The second is a uint64
-- that is read as an int64: it is negative from 2 ^ 63 on, and below that, where time.Unix cannot
-- hold it, the report counts as older than any duration but the largest.
abbrev pub IsFresh : ℕ → ℕ → ℕ → Type 0
IsFresh max time now =
    ((time < unix_limit) × (now ≤ time * 10 ^ 9 + max))
    ⊎ ((unix_limit ≤ time) × (time < 2 ^ 63) × (max_duration ≤ max))
    ⊎ ((2 ^ 63 ≤ time) × (now + (2 ^ 64 - time) * 10 ^ 9 ≤ max))

exceeds_age-IsFresh : (max time now : ℕ) → (exceeds_age max time now ≡ false) ↔ IsFresh max time now
unfolding exceeds_age
exceeds_age-IsFresh max time now = (sound, complete)
  where
    sound : exceeds_age max time now ≡ false → IsFresh max time now
    sound h = elim (Bool-cases (ltb time unix_limit)) [
      | inl e ↦ inl (ltb→lt time unix_limit e, ltb_false→le (time * 10 ^ 9 + max) now (rw e at h))
      | inr e ↦ elim (Bool-cases (ltb time (2 ^ 63))) [
        | inl f ↦ inr (
            inl (
              ltb_false→le time unix_limit e,
              ltb→lt time (2 ^ 63) f,
              ltb_false→le max max_duration (rw (e, f) at h),
            ))
        | inr f ↦ inr (
            inr (
              ltb_false→le time (2 ^ 63) f,
              ltb_false→le max (now + (2 ^ 64 - time) * 10 ^ 9) (rw (e, f) at h),
            ))
      ]
    ]

    complete : IsFresh max time now → exceeds_age max time now ≡ false
    complete (inl (e, age)) =
        rw (lt→ltb time unix_limit e) (le→ltb_false (time * 10 ^ 9 + max) now age)
    complete (inr (inl (e, f, age))) =
        rw (le→ltb_false time unix_limit e, lt→ltb time (2 ^ 63) f)
          (le→ltb_false max max_duration age)
    complete (inr (inr (f, age))) =
        rw (le→ltb_false time unix_limit (omega arith), le→ltb_false time (2 ^ 63) f)
          (le→ltb_false max (now + (2 ^ 64 - time) * 10 ^ 9) age)

module _ {S : Type 0} (env : EtcdEnv S) where
  -- The agent has a value in etcd, which decodes to a report, and at the time of the check the report
  -- is no older than `max` nanoseconds.
  abbrev pub Trusted : ℕ → Str → S → List HealthStatus → Type 0
  Trusted max agent s l =
      (val : Str) × (st : AgentStatus) × ((env.etcd.get agent s).0 ≡ ok val)
      × (env.unmarshal val ≡ ok st)
      × IsFresh max st.time (env.now (env.etcd.get agent s).1)
      × (st.status ≡ l)

  get_status_sound :
      (max : ℕ) (agent : Str) (m : Metrics) (s : S) (l : List HealthStatus)
      → (get_status_from_agent env max agent m s).0 ≡ ok l
      → Trusted max agent s l
  unfolding get_status_from_agent
  get_status_sound max agent m s l h = elim (Result-cases (env.etcd.get agent s).0) [
    | inr (e, q) ↦ absurd (ground arith)
    | inl (val, q) ↦ elim (Result-cases (env.unmarshal val)) [
      | inr (e, r) ↦ absurd (ground arith)
      | inl (st, r) ↦
          let (young, same) : (exceeds_age max st.time (env.now (env.etcd.get agent s).1) ≡ false)
              × (st.status ≡ l) =
            ground arith in
          (val, st, q, r, (exceeds_age-IsFresh max st.time _).0 young, same)
    ]
  ]

  get_status_complete :
      (max : ℕ) (agent : Str) (m : Metrics) (s : S) (l : List HealthStatus)
      → Trusted max agent s l
      → (get_status_from_agent env max agent m s).0 ≡ ok l
  unfolding get_status_from_agent
  get_status_complete max agent m s l (val, st, q, r, fresh, same) =
      ground (arith, (exceeds_age-IsFresh max st.time (env.now (env.etcd.get agent s).1)).1 fresh)

  -- getStatusFromAgent returns statuses exactly if the agent's value can be read and decoded and
  -- the report is not too old, its second being read as an int64; they are then those of the
  -- decoded report.
  pub get_status_from_agent_iff :
      (max : ℕ) (agent : Str) (m : Metrics) (s : S) (l : List HealthStatus)
      → ((get_status_from_agent env max agent m s).0 ≡ ok l) ↔ Trusted max agent s l
  get_status_from_agent_iff max agent m s l =
      (get_status_sound max agent m s l, get_status_complete max agent m s l)

-- A load balancer with one of its endpoints is published under its name.
abbrev pub PublishedAs : Loadbalancer → EndpointProtocol → List Loadbalancer → Type 0
PublishedAs lb e lbs =
    (lb' : Loadbalancer) × Memᴰ lb' lbs × (lb'.name ≡ lb.name) × Memᴰ e lb'.endpoints

published-Mem :
    (p : EndpointProtocol → Bool) (lbs : List Loadbalancer) (lb : Loadbalancer)
    (e : EndpointProtocol)
    → Memᴰ lb lbs
    → Memᴰ e lb.endpoints
    → p e ≡ true
    → PublishedAs lb e (published p lbs)
unfolding published
published-Mem p [] lb e m here up = elim m [ ]
published-Mem p (x ∷ lbs) lb e (Memᴰ.head q) here up =
    first (keep p x.endpoints) (published p lbs)
      (keep-Mem p x.endpoints e (subst (λ (l : Loadbalancer). Memᴰ e l.endpoints) q here) up)
  where
    first :
        (kept : List EndpointProtocol) (rest : List Loadbalancer)
        → Memᴰ e kept
        → PublishedAs lb e (if is_empty kept then rest else new_loadbalancer x.name kept ∷ rest)
    first [] rest m = elim m [ ]
    first (k ∷ kept) rest m = (
      new_loadbalancer x.name (k ∷ kept),
      Memᴰ.head refl,
      ap (λ (l : Loadbalancer). l.name) (sym q),
      m,
    )
published-Mem p (x ∷ lbs) lb e (Memᴰ.tail m) here up =
    later (is_empty (keep p x.endpoints)) (new_loadbalancer x.name (keep p x.endpoints))
      (published p lbs) (published-Mem p lbs lb e m here up)
  where
    later :
        (b : Bool) (y : Loadbalancer) (rest : List Loadbalancer)
        → PublishedAs lb e rest
        → PublishedAs lb e (if b then rest else y ∷ rest)
    later true y rest found = found
    later false y rest (lb', inside, name, there) = (lb', Memᴰ.tail inside, name, there)

report_entries-le :
    (key : Str) (rs : List Report) (r : Report)
    → Memᴰ r rs
    → report_entries key r ≤ total_entries key rs
report_entries-le key [] r m = elim m [ ]
report_entries-le key (x ∷ rs) r (Memᴰ.head q) = omega (arith, ap (report_entries key) q)
report_entries-le key (x ∷ rs) r (Memᴰ.tail m) = omega (arith, report_entries-le key rs r m)

-- Healthy entries are counted, not agents: a single report that calls a configured endpoint healthy
-- more often than half the number of the configured agents has it in the list that syncStatus sends on
-- the channel, behind those that still wait, under the name of its load balancer, whatever the other
-- agents say.
pub sync_status_one_report :
    {S : Type 0} (env : EtcdEnv S) (c : EtcdController) (s : S) (lb : Loadbalancer)
    (e : EndpointProtocol) (r : Report)
    → Memᴰ lb c.wanted
    → Memᴰ e lb.endpoints
    → Memᴰ r (round_reports env c s)
    → length c.agents < 2 * report_entries (endpoint_string e.endpoint) r
    → (lbs : LoadbalancerList) × ((sync_status env c s).0.updates ≡ c.updates ++ lbs ∷ [])
      × PublishedAs lb e lbs.loadbalancers
unfolding new_loadbalancer_list
sync_status_one_report env c s lb e r inside here said often = (
  new_loadbalancer_list env.xxhash (published (has_entries env c s) c.wanted),
  updates-sync_status env c s,
  published-Mem (has_entries env c s) c.wanted lb e inside here (
      lt→ltb (length c.agents) _ (
        omega
          (arith, report_entries-le (endpoint_string e.endpoint) (round_reports env c s) r said))),
)
