-- ===== src/EtcdController/Votes.antt =====
-- What the tally of syncStatus counts, against the agents' reports.
use dnslb.Base.{
  ℕ, zero, suc, ◌+◌, ◌≤◌, ◌&&◌, Option, none, some, List, [], ◌∷◌, Str, Dict, lookup, value_or,
  lookup-insert, str_eq, str_eq_iff, Result, ok, err, length, if◌then◌else◌, ◌≡◌, refl, ap, ◌∙◌,
  arith, All,
}
use dnslb.EtcdController.{HealthStatus, EtcdEnv, Metrics}
use dnslb.EtcdController.Report.{AgentError, get_status_from_agent}
use dnslb.EtcdController.Status.{
  status_key, count_status, count_statuses, Tally, after_report, tally_agents,
}

-- What an agent said: nothing that can be used, or the statuses of its report.
abbrev pub Report : Type 0
Report = Option (List HealthStatus)

abbrev pub report_of : Result AgentError (List HealthStatus) → Report
report_of (err e) = none
report_of (ok l) = some l

-- The entries of a report that call an endpoint healthy.
unfoldable pub healthy_entries : Str → List HealthStatus → ℕ
healthy_entries key [] = 0
healthy_entries key (st ∷ l) =
    let rest = healthy_entries key l in
    if st.healthy && str_eq (status_key st) key then suc rest else rest

abbrev pub report_entries : Str → Report → ℕ
report_entries key none = 0
report_entries key (some l) = healthy_entries key l

abbrev pub total_entries : Str → List Report → ℕ
total_entries key [] = 0
total_entries key (r ∷ rs) = report_entries key r + total_entries key rs

-- 1 for a number that is not 0
abbrev pub one_if_pos : ℕ → ℕ
one_if_pos zero = 0
one_if_pos (suc n) = 1

-- The agents that call an endpoint healthy.
abbrev pub votes : Str → List Report → ℕ
votes key [] = 0
votes key (r ∷ rs) = one_if_pos (report_entries key r) + votes key rs

abbrev pub is_down : Report → ℕ
is_down none = 1
is_down (some l) = 0

abbrev pub downs : List Report → ℕ
downs [] = 0
downs (r ∷ rs) = is_down r + downs rs

-- No report has two healthy entries for one endpoint.
abbrev pub NoDuplicates : List Report → Type 0
NoDuplicates rs = (key : Str) → All (λ r. report_entries key r ≤ 1) rs

module _ {S : Type 0} (env : EtcdEnv S) (max : ℕ) where
  -- One agent's report, and the world after it was read.
  abbrev pub poll : Str → S → Report × S
  poll agent s = let (r, m, s') = get_status_from_agent env max agent none s in (report_of r, s')

  unfoldable pub reports : List Str → S → List Report
  reports [] s = []
  reports (agent ∷ agents) s = (poll agent s).0 ∷ reports agents (poll agent s).1

  -- The metrics do not change what is read.
  get_status-metrics :
      (agent : Str) (m : Metrics) (s : S)
      → (get_status_from_agent env max agent m s).0 ≡ (get_status_from_agent env max agent none s).0
  unfolding get_status_from_agent
  get_status-metrics agent m s = ground arith

  get_status-metrics_world :
      (agent : Str) (m : Metrics) (s : S)
      → (get_status_from_agent env max agent m s).2 ≡ (get_status_from_agent env max agent none s).2
  unfolding get_status_from_agent
  get_status-metrics_world agent m s = ground arith

abbrev pub count_of : Str → Dict ℕ → ℕ
count_of key counts = value_or 0 (lookup key counts)

count_of-count_status :
    (key : Str) (st : HealthStatus) (acc : ℕ × Dict ℕ)
    → count_of key (count_status st acc).1 ≡ count_of key acc.1 + healthy_entries key (st ∷ [])
unfolding healthy_entries
count_of-count_status key st (n, counts) = ground (
  arith,
  lookup-insert (status_key st) key (value_or 0 (lookup (status_key st) counts) + 1) counts,
  str_eq_iff (status_key st) key,
)

healthy_entries-cons :
    (key : Str) (st : HealthStatus) (l : List HealthStatus)
    → healthy_entries key (st ∷ l) ≡ healthy_entries key (st ∷ []) + healthy_entries key l
unfolding healthy_entries
healthy_entries-cons key st l = ground arith

count_of-count_statuses :
    (key : Str) (l : List HealthStatus) (acc : ℕ × Dict ℕ)
    → count_of key (count_statuses l acc).1 ≡ count_of key acc.1 + healthy_entries key l
unfolding count_statuses
count_of-count_statuses key [] acc = unfold healthy_entries in omega arith
count_of-count_statuses key (st ∷ l) acc = omega (
  arith,
  count_of-count_statuses key l (count_status st acc),
  count_of-count_status key st acc,
  healthy_entries-cons key st l,
)

module _ {S : Type 0} (env : EtcdEnv S) (max : ℕ) where
  count_of-after_report :
      (key agent : Str) (t : Tally S) (r : Result AgentError (List HealthStatus)) (m : Metrics)
      (s : S)
      → count_of key (after_report agent t (r, m, s)).endpoint_to_healthy
        ≡ count_of key t.endpoint_to_healthy + report_entries key (report_of r)
  count_of-after_report key agent t (err e) m s = omega arith
  count_of-after_report key agent t (ok l) m s =
      count_of-count_statuses key l (0, t.endpoint_to_healthy)

  down-after_report :
      (agent : Str) (t : Tally S) (r : Result AgentError (List HealthStatus)) (m : Metrics) (s : S)
      → (after_report agent t (r, m, s)).down_agents ≡ t.down_agents + is_down (report_of r)
  down-after_report agent t (err e) m s = refl
  down-after_report agent t (ok l) m s = omega arith

  world-after_report :
      (agent : Str) (t : Tally S) (r : Result AgentError (List HealthStatus)) (m : Metrics) (s : S)
      → (after_report agent t (r, m, s)).world ≡ s
  world-after_report agent t (err e) m s = refl
  world-after_report agent t (ok l) m s = refl

  -- The tally after one agent, in terms of the agent's report.
  abbrev next_tally : Str → Tally S → Tally S
  next_tally agent t = after_report agent t (get_status_from_agent env max agent t.metrics t.world)

  world-next_tally :
      (agent : Str) (t : Tally S) → (next_tally agent t).world ≡ (poll env max agent t.world).1
  world-next_tally agent t =
      world-after_report agent t _ _ _ ∙ get_status-metrics_world env max agent t.metrics t.world

  count_of-next_tally :
      (key agent : Str) (t : Tally S)
      → count_of key (next_tally agent t).endpoint_to_healthy
        ≡ count_of key t.endpoint_to_healthy + report_entries key (poll env max agent t.world).0
  count_of-next_tally key agent t =
      count_of-after_report key agent t _ _ _
      ∙ ap (λ r. count_of key t.endpoint_to_healthy + report_entries key (report_of r))
          (get_status-metrics env max agent t.metrics t.world)

  down-next_tally :
      (agent : Str) (t : Tally S)
      → (next_tally agent t).down_agents ≡ t.down_agents + is_down (poll env max agent t.world).0
  down-next_tally agent t =
      down-after_report agent t _ _ _
      ∙ ap (λ r. t.down_agents + is_down (report_of r))
          (get_status-metrics env max agent t.metrics t.world)

  pub count_of-tally_agents :
      (key : Str) (agents : List Str) (t : Tally S)
      → count_of key (tally_agents env max agents t).endpoint_to_healthy
        ≡ count_of key t.endpoint_to_healthy + total_entries key (reports env max agents t.world)
  unfolding tally_agents reports
  count_of-tally_agents key [] t = omega arith
  count_of-tally_agents key (agent ∷ agents) t =
      let later = count_of-tally_agents key agents (next_tally agent t) in
      let same =
        ap (λ s. total_entries key (reports env max agents s)) (world-next_tally agent t) in
      omega (arith, later, same, count_of-next_tally key agent t)

  pub down-tally_agents :
      (agents : List Str) (t : Tally S)
      → (tally_agents env max agents t).down_agents
        ≡ t.down_agents + downs (reports env max agents t.world)
  unfolding tally_agents reports
  down-tally_agents [] t = omega arith
  down-tally_agents (agent ∷ agents) t =
      let later = down-tally_agents agents (next_tally agent t) in
      let same = ap (λ s. downs (reports env max agents s)) (world-next_tally agent t) in
      omega (arith, later, same, down-next_tally agent t)

  pub length-reports :
      (agents : List Str) (s : S) → length (reports env max agents s) ≡ length agents
  unfolding reports
  length-reports [] s = refl
  length-reports (agent ∷ agents) s = ap suc (length-reports agents (poll env max agent s).1)

-- Where no report has duplicates, the entries are the votes.
pub total_entries-eq-votes :
    (key : Str) (rs : List Report)
    → All (λ r. report_entries key r ≤ 1) rs
    → total_entries key rs ≡ votes key rs
total_entries-eq-votes key [] h = refl
total_entries-eq-votes key (r ∷ rs) h =
    omega (arith, total_entries-eq-votes key rs h.1, at_most_one (report_entries key r) h.0)
  where
    at_most_one : (n : ℕ) → n ≤ 1 → n ≡ one_if_pos n
    at_most_one zero h = refl
    at_most_one (suc zero) h = refl
    at_most_one (suc (suc n)) h = absurd (omega arith)

-- Whoever is down does not vote.
pub votes-downs : (key : Str) (rs : List Report) → votes key rs + downs rs ≤ length rs
votes-downs key [] = omega arith
votes-downs key (none ∷ rs) = omega (arith, votes-downs key rs)
votes-downs key (some l ∷ rs) =
    omega (arith, votes-downs key rs, at_most_one (healthy_entries key l))
  where
    at_most_one : (n : ℕ) → one_if_pos n ≤ 1
    at_most_one zero = omega arith
    at_most_one (suc n) = omega arith

pub downs-le : (rs : List Report) → downs rs ≤ length rs
downs-le [] = omega arith
downs-le (none ∷ rs) = omega (arith, downs-le rs)
downs-le (some l ∷ rs) = omega (arith, downs-le rs)
