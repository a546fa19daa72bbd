-- ===== src/System/Configured.antt =====
-- What the DNS controller can come to want, over the steps of the process.
use dnslb.Base.{
  Option, none, some, List, [], ◌∷◌, ◌++◌, Str, All, Result, ok, err, ◌≡◌, refl, sym, ◌∙◌,
  Bool-cases, inl, inr,
}
use mathlib.Core.Path.{subst}
use dnslb.Go.Decimal.{ℤ}
use dnslb.Loadbalancer.{Loadbalancer, LoadbalancerList, new_loadbalancer_list}
use dnslb.Etcd.{EtcdError}
use dnslb.EtcdController
use dnslb.EtcdController.{EtcdEnv, EtcdController, new_etcd_controller}
use dnslb.EtcdController.Status.{sync_status}
use dnslb.EtcdController.Monitors.{after_set, is_unchanged, monitors_key, sync_monitors}
use dnslb.EtcdController.Published.{has_entries, sync_status_entries}
use dnslb.Dns.{DnsTypes}
use dnslb.DnsController
use dnslb.DnsController.{DnsEnv, DnsController, new_dns_controller}
use dnslb.DnsController.Loop.{same_hash, receive, promote, promote_candidate}
use dnslb.System.{
  System, observe_status, observe_monitors, start, after_status, after_monitors, Step, Steps,
}
use dnslb.System.Kept.{tick-promote}
use dnslb.System.Parts.{IsConfigured, IfAny, published-PartOf}

All-append {ℓ κ} :
    {A : Type ℓ} (P : A → Type κ) (xs ys : List A) → All P xs → All P ys → All P (xs ++ ys)
All-append P [] ys h k = k
All-append P (x ∷ xs) ys (p, h) k = (p, All-append P xs ys h k)

All-append_without {ℓ κ} :
    {A : Type ℓ} (P : A → Type κ) (xs ys : List A) (y : A)
    → All P (xs ++ y ∷ ys)
    → P y × All P (xs ++ ys)
All-append_without P [] ys y (p, h) = (p, h)
All-append_without P (x ∷ xs) ys y (p, h) =
    let (q, k) = All-append_without P xs ys y h in (q, (p, k))

IfAny-subst :
    (P : LoadbalancerList → Type 0) (o o' : Option LoadbalancerList)
    → o' ≡ o
    → IfAny P o
    → IfAny P o'
IfAny-subst P o o' e h = subst (IfAny P) (sym e) h

module _ {T : DnsTypes} {S : Type 0} (env : EtcdEnv S) (denv : DnsEnv T S)
    (wanted : List Loadbalancer) where
  abbrev Good : LoadbalancerList → Type 0
  Good lbs = IsConfigured env.xxhash wanted lbs

  -- The etcd controller has the configuration, and every list that waits for the DNS controller, that
  -- it received, or that it wants is a part of the configuration.
  pub record IsGood (y : System T S) : Type 0 where
    pub config : y.etcd.wanted ≡ wanted
    pub waiting : All Good y.etcd.updates
    pub received : IfAny Good y.dns.wanted_lbs_candidate
    pub taken : IfAny Good y.dns.wanted_lbs

  status-IsGood : (y : System T S) → IsGood y → IsGood (after_status env denv y)
  unfolding sync_status observe_status new_loadbalancer_list
  status-IsGood y good = record {
    config = good.config;
    waiting = All-append Good y.etcd.updates _ good.waiting (
      (
        (rw (sync_status_entries env y.etcd y.world, good.config)
            (published-PartOf (has_entries env y.etcd y.world) wanted)),
        refl,
      ),
      tt,
    );
    received = good.received;
    taken = good.taken;
  }

  after_set-wanted :
      (c : EtcdController) (local : Str) (w : Result EtcdError (Unit {0}) × S)
      → ((after_set env c local w).1.wanted ≡ c.wanted)
        × ((after_set env c local w).1.updates ≡ c.updates)
  after_set-wanted c local (err e, s) = (refl, refl)
  after_set-wanted c local (ok u, s) = (refl, refl)

  sync_monitors-wanted :
      (c : EtcdController) (s : S)
      → ((sync_monitors env c s).1.wanted ≡ c.wanted)
        × ((sync_monitors env c s).1.updates ≡ c.updates)
  unfolding sync_monitors
  sync_monitors-wanted c s =
      elim (Bool-cases
        (is_unchanged env.xxhash c.last_monitor_hash (env.etcd.get monitors_key s).0)) [
          | inl same ↦ rw same (refl, refl)
          | inr other ↦ rw other (after_set-wanted c _ _)
        ]

  observe_monitors-wanted :
      (r : Result EtcdError (Unit {0})) (c : EtcdController)
      → ((observe_monitors r c).wanted ≡ c.wanted) × ((observe_monitors r c).updates ≡ c.updates)
  unfolding observe_monitors
  observe_monitors-wanted (ok u) c = (refl, refl)
  observe_monitors-wanted (err e) c = (refl, refl)

  monitors-IsGood : (y : System T S) → IsGood y → IsGood (after_monitors env denv y)
  monitors-IsGood y good =
      let (config, updates) = sync_monitors-wanted y.etcd y.world in
      let (config', updates') =
        observe_monitors-wanted (sync_monitors env y.etcd y.world).0
          (sync_monitors env y.etcd y.world).1 in
      record {
        config = config' ∙ config ∙ good.config;
        waiting = subst (All Good) (sym (updates' ∙ updates)) good.waiting;
        received = good.received;
        taken = good.taken;
      }

  receive-IfAny :
      (lbs : LoadbalancerList) (c : DnsController T)
      → Good lbs
      → IfAny Good c.wanted_lbs_candidate
      → IfAny Good (receive lbs c).wanted_lbs_candidate
        × ((receive lbs c).wanted_lbs ≡ c.wanted_lbs)
  unfolding receive
  receive-IfAny lbs c new old = elim (Bool-cases (same_hash c.wanted_lbs lbs)) [
    | inl same ↦ rw same (old, refl)
    | inr other ↦ rw other (new, refl)
  ]

  promote_candidate-IfAny :
      (o : Option LoadbalancerList) (c : DnsController T)
      → IfAny Good o
      → IfAny Good c.wanted_lbs
      → IfAny Good c.wanted_lbs_candidate
      → IfAny Good (promote_candidate o c).0.wanted_lbs
        × IfAny Good (promote_candidate o c).0.wanted_lbs_candidate
  promote_candidate-IfAny none c h taken received = (taken, received)
  promote_candidate-IfAny (some lbs) c h taken received = (h, tt)

  Step-IsGood : (y z : System T S) → Step env denv y z → IsGood y → IsGood z
  unfolding promote
  Step-IsGood _ _ (Step.status y) good = status-IsGood y good
  Step-IsGood _ _ (Step.monitors y) good = monitors-IsGood y good
  Step-IsGood _ _ (Step.outside y s) good = record {
    config = good.config;
    waiting = good.waiting;
    received = good.received;
    taken = good.taken;
  }
  Step-IsGood _ _ (Step.deliver y before after lbs e) good =
      let (this, others) =
        All-append_without Good before after lbs (subst (All Good) e good.waiting) in
      let (received, same) = receive-IfAny lbs y.dns this good.received in
      record {
        config = good.config;
        waiting = others;
        received = received;
        taken = IfAny-subst Good y.dns.wanted_lbs _ same good.taken;
      }
  Step-IsGood _ _ (Step.round y c s e) good =
      let (same, same') = tick-promote denv y.dns c y.world s e in
      let (taken, received) =
        promote_candidate-IfAny y.dns.wanted_lbs_candidate y.dns good.received good.taken
          good.received in
      record {
        config = good.config;
        waiting = good.waiting;
        received = IfAny-subst Good _ _ same' received;
        taken = IfAny-subst Good _ _ same taken;
      }

  pub Steps-IsGood : (y z : System T S) → Steps env denv y z → IsGood y → IsGood z
  Steps-IsGood _ _ (Steps.done y) good = good
  Steps-IsGood _ _ (Steps.next x y z one more) good =
      Steps-IsGood y z more (Step-IsGood x y one good)

-- From the start on, in whatever order the loops, the deliveries and the outside world take turns,
-- and whatever the agents report: a list that the DNS controller wants has only load balancers of the
-- configuration, each with at least one endpoint and no endpoint that the configuration does not give
-- it, and it carries its own checksum.
pub start-IsConfigured :
    {T : DnsTypes} {S : Type 0} (env : EtcdEnv S) (denv : DnsEnv T S) (agents : List Str)
    (wanted : List Loadbalancer) (em : EtcdController.Metrics) (dm : DnsController.Metrics)
    (interval : ℤ) (s : S) (y : System T S) (lbs : LoadbalancerList)
    → Steps env denv (start agents wanted em dm interval s) y
    → y.dns.wanted_lbs ≡ some lbs
    → IsConfigured env.xxhash wanted lbs
unfolding start new_etcd_controller new_dns_controller
start-IsConfigured env denv agents wanted em dm interval s y lbs steps e =
    let good =
      Steps-IsGood env denv wanted (start agents wanted em dm interval s) y steps
        (record { config = refl; waiting = tt; received = tt; taken = tt }) in
    subst (IfAny (IsConfigured env.xxhash wanted)) e good.taken
