-- ===== src/EtcdController/Untouched.antt =====
-- What the rounds of etcdController.go keep of the world: all that the calls on etcd keep.
use dnslb.Base.{ℕ, List, [], ◌∷◌, Str, Result, ok, err, Bool-cases, inl, inr, ◌≡◌, refl, ap, ◌∙◌}
use dnslb.Etcd.{EtcdError}
use dnslb.EtcdController.{HealthStatus, AgentStatus, EtcdEnv, EtcdController}
use dnslb.EtcdController
use dnslb.EtcdController.Report.{AgentError, decode, with_value, get_status_from_agent, exceeds_age}
use dnslb.EtcdController.Status.{Tally, after_report, tally_agents, sync_status}
use dnslb.EtcdController.Monitors.{
  get_wanted_monitors_as_string, after_set, is_unchanged, monitors_key, sync_monitors,
}

-- The calls on etcd keep what is seen of the world.
pub record KeepsView {S A : Type 0} (env : EtcdEnv S) (view : S → A) : Type 0 where
  pub view-get : (k : Str) (s : S) → view (env.etcd.get k s).1 ≡ view s
  pub view-set : (k v : Str) (s : S) → view (env.etcd.set k v s).1 ≡ view s

module _ {S A : Type 0} (env : EtcdEnv S) (view : S → A) (keeps : KeepsView env view) where
  decode-world :
      (agent : Str) (max : ℕ) (m : EtcdController.Metrics) (s : S) (st : Result Str AgentStatus)
      → (decode env agent max m s st).2 ≡ s
  unfolding exceeds_age
  decode-world agent max m s (err e) = refl
  decode-world agent max m s (ok st) = elim (Bool-cases (exceeds_age max st.time (env.now s))) [
    | inl old ↦ rw old refl
    | inr fresh ↦ rw fresh refl
  ]

  with_value-world :
      (agent : Str) (max : ℕ) (m : EtcdController.Metrics) (s : S) (v : Result EtcdError Str)
      → (with_value env agent max m s v).2 ≡ s
  unfolding exceeds_age
  with_value-world agent max m s (err e) = refl
  with_value-world agent max m s (ok val) = decode-world agent max m s (env.unmarshal val)

  after_report-world :
      (agent : Str) (t : Tally S)
      (r : Result AgentError (List HealthStatus) × EtcdController.Metrics × S)
      → (after_report agent t r).world ≡ r.2
  after_report-world agent t (err e, m, s) = refl
  after_report-world agent t (ok statuses, m, s) = refl

  get_status_from_agent-view :
      (max : ℕ) (agent : Str) (m : EtcdController.Metrics) (s : S)
      → view (get_status_from_agent env max agent m s).2 ≡ view s
  unfolding get_status_from_agent
  get_status_from_agent-view max agent m s =
      ap view (with_value-world agent max m (env.etcd.get agent s).1 (env.etcd.get agent s).0)
      ∙ keeps.view-get agent s

  tally_agents-view :
      (max : ℕ) (agents : List Str) (t : Tally S)
      → view (tally_agents env max agents t).world ≡ view t.world
  unfolding tally_agents
  tally_agents-view max [] t = refl
  tally_agents-view max (agent ∷ agents) t =
      let r = get_status_from_agent env max agent t.metrics t.world in
      tally_agents-view max agents (after_report agent t r)
      ∙ ap view (after_report-world agent t r)
      ∙ get_status_from_agent-view max agent t.metrics t.world

  pub sync_status-view : (c : EtcdController) (s : S) → view (sync_status env c s).1 ≡ view s
  unfolding sync_status
  sync_status-view c s = tally_agents-view c.max_status_age c.agents _

  after_set-world :
      (c : EtcdController) (local : Str) (w : Result EtcdError (Unit {0}) × S)
      → (after_set env c local w).2 ≡ w.1
  after_set-world c local (err e, s) = refl
  after_set-world c local (ok u, s) = refl

  pub sync_monitors-view : (c : EtcdController) (s : S) → view (sync_monitors env c s).2 ≡ view s
  unfolding sync_monitors
  sync_monitors-view c s =
      let s' = (env.etcd.get monitors_key s).1 in
      let local = get_wanted_monitors_as_string c in
      elim (Bool-cases
        (is_unchanged env.xxhash c.last_monitor_hash (env.etcd.get monitors_key s).0)) [
          | inl same ↦ rw same (keeps.view-get monitors_key s)
          | inr other ↦ rw other (
              ap view (after_set-world c local (env.etcd.set monitors_key local s'))
              ∙ keeps.view-set monitors_key local s'
              ∙ keeps.view-get monitors_key s)
        ]
