-- ===== src/Main/Election/Inner.antt =====
-- What the steps within a call, and those of the loops, do to `running`.
use dnslb.Base.{false, Option, none, some, ◌≡◌, ◌≢◌, ◌⊎◌, inl, inr, refl, sym, ◌∙◌}
use dnslb.DnsController.Lifecycle
use dnslb.DnsController.Lifecycle.{one, two}
use dnslb.EtcdController.Lifecycle as EtcdLifecycle
use dnslb.EtcdController.Lifecycle.{Which, monitor_loop, status_loop, loop_of}
use dnslb.Main.Election.Leader.{IsInner, IsEtcdInner}

-- What a state promises to the goroutine: out of a call the flag stays as it is, and when a call of
-- Stop has returned the flag is reset.
pub record IsKept (y z : Lifecycle.Lifecycle) : Type 0 where
  pub alone : z.second ≡ Lifecycle.idle
  pub idle : y.first ≡ Lifecycle.idle → (z.first ≡ Lifecycle.idle) × (z.running ≡ y.running)
  pub returning :
      (y.first ≢ Lifecycle.idle) ⊎ (y.running ≡ false)
      → (z.first ≢ Lifecycle.idle) ⊎ (z.running ≡ false)

abbrev pub OnSome : {A : Type 0} → (A → Type 0) → Option A → Type 0
OnSome P none = Unit
OnSome P (some z) = P z

-- A step that changes neither the callers nor the flag.
same-IsKept :
    (y z : Lifecycle.Lifecycle)
    → y.second ≡ Lifecycle.idle
    → z.first ≡ y.first
    → z.second ≡ y.second
    → z.running ≡ y.running
    → IsKept y z
same-IsKept y z alone f s r = record {
  alone = s ∙ alone;
  idle = λ e. (f ∙ e, r);
  returning = λ h. elim h [ inl n ↦ inl (λ e. n (sym f ∙ e)) | inr off ↦ inr (r ∙ off) ];
}

rounds-IsKept :
    (y : Lifecycle.Lifecycle) (o : Option Lifecycle.Loop)
    → y.second ≡ Lifecycle.idle
    → OnSome (IsKept y) (Lifecycle.with_rounds y o)
rounds-IsKept y none alone = tt
rounds-IsKept y (some l) alone = same-IsKept y _ alone refl refl refl

lists-IsKept :
    (y : Lifecycle.Lifecycle) (o : Option Lifecycle.Loop)
    → y.second ≡ Lifecycle.idle
    → OnSome (IsKept y) (Lifecycle.with_lists y o)
lists-IsKept y none alone = tt
lists-IsKept y (some l) alone = same-IsKept y _ alone refl refl refl

not_idle :
    (y : Lifecycle.Lifecycle) (k : Lifecycle.Call)
    → y.second ≡ Lifecycle.idle
    → y.second ≡ k
    → k ≢ Lifecycle.idle
    → ⊥
not_idle y k alone e n = n (sym e ∙ alone)

inner_step :
    (y : Lifecycle.Lifecycle) (o : Option Lifecycle.Lifecycle) (s : Lifecycle.Step y o)
    → IsInner y o s
    → y.second ≡ Lifecycle.idle
    → OnSome (IsKept y) o
inner_step _ _ (Lifecycle.Step.call_run w y e) p h = absurd p
inner_step _ _ (Lifecycle.Step.call_stop w y e) p h = absurd p
inner_step _ _ (Lifecycle.Step.send_stop one y e a c) p h = record {
  alone = h;
  idle = λ i. cc;
  returning = λ i. inl (λ x. cc);
}
inner_step _ _ (Lifecycle.Step.send_stop two y e a c) p h = absurd (not_idle y _ h e (λ x. cc))
inner_step _ _ (Lifecycle.Step.send_lb_stop one y e a c) p h = record {
  alone = h;
  idle = λ i. cc;
  returning = λ i. inl (λ x. cc);
}
inner_step _ _ (Lifecycle.Step.send_lb_stop two y e a c) p h = absurd (not_idle y _ h e (λ x. cc))
inner_step _ _ (Lifecycle.Step.reset one y e) p h = record {
  alone = h;
  idle = λ i. cc;
  returning = λ i. inr refl;
}
inner_step _ _ (Lifecycle.Step.reset two y e) p h = absurd (not_idle y _ h e (λ x. cc))
inner_step _ _ (Lifecycle.Step.send_stop_closed w y n e c) p h = tt
inner_step _ _ (Lifecycle.Step.send_lb_stop_closed w y n e c) p h = tt
inner_step _ _ (Lifecycle.Step.receive_closed y a c) p h = same-IsKept y _ h refl refl refl
inner_step _ _ (Lifecycle.Step.receive_lb_closed y a c) p h = same-IsKept y _ h refl refl refl
inner_step _ _ (Lifecycle.Step.close_stop y a) p h = rounds-IsKept y _ h
inner_step _ _ (Lifecycle.Step.close_lb_stop y a) p h = lists-IsKept y _ h
inner_step _ _ (Lifecycle.Step.close_leftover y m e) p h = rounds-IsKept y _ h
inner_step _ _ (Lifecycle.Step.close_lb_leftover y m e) p h = lists-IsKept y _ h
inner_step _ _ (Lifecycle.Step.work y a) p h = same-IsKept y _ h refl refl refl
inner_step _ _ (Lifecycle.Step.rest y a) p h = same-IsKept y _ h refl refl refl
inner_step _ _ (Lifecycle.Step.lb_work y a) p h = same-IsKept y _ h refl refl refl
inner_step _ _ (Lifecycle.Step.lb_rest y a) p h = same-IsKept y _ h refl refl refl

pub inner-IsKept :
    (y z : Lifecycle.Lifecycle) (s : Lifecycle.Step y (some z))
    → IsInner y (some z) s
    → y.second ≡ Lifecycle.idle
    → IsKept y z
inner-IsKept y z s p h = inner_step y (some z) s p h

-- The same for the etcd controller.
pub record IsEtcdKept (y z : EtcdLifecycle.Lifecycle) : Type 0 where
  pub alone : z.second ≡ EtcdLifecycle.idle
  pub idle : y.first ≡ EtcdLifecycle.idle → (z.first ≡ EtcdLifecycle.idle) × (z.running ≡ y.running)
  pub returning :
      (y.first ≢ EtcdLifecycle.idle) ⊎ (y.running ≡ false)
      → (z.first ≢ EtcdLifecycle.idle) ⊎ (z.running ≡ false)

set_loop-IsEtcdKept :
    (i : Which) (l : EtcdLifecycle.Loop) (y : EtcdLifecycle.Lifecycle)
    → y.second ≡ EtcdLifecycle.idle
    → IsEtcdKept y (EtcdLifecycle.set_loop i l y)
set_loop-IsEtcdKept monitor_loop l y h = record {
  alone = h;
  idle = λ e. (e, refl);
  returning = λ r. r;
}
set_loop-IsEtcdKept status_loop l y h = record {
  alone = h;
  idle = λ e. (e, refl);
  returning = λ r. r;
}

with_loop-IsEtcdKept :
    (i : Which) (o : Option EtcdLifecycle.Loop) (y : EtcdLifecycle.Lifecycle)
    → y.second ≡ EtcdLifecycle.idle
    → OnSome (IsEtcdKept y) (EtcdLifecycle.with_loop i y o)
with_loop-IsEtcdKept i none y h = tt
with_loop-IsEtcdKept i (some l) y h = set_loop-IsEtcdKept i l y h

etcd_inner_step :
    (y : EtcdLifecycle.Lifecycle) (o : Option EtcdLifecycle.Lifecycle) (s : EtcdLifecycle.Step y o)
    → IsEtcdInner y o s
    → y.second ≡ EtcdLifecycle.idle
    → OnSome (IsEtcdKept y) o
etcd_inner_step _ _ (EtcdLifecycle.Step.call_run w y e q) p h = absurd p
etcd_inner_step _ _ (EtcdLifecycle.Step.call_stop w y e) p h = absurd p
etcd_inner_step _ _ (EtcdLifecycle.Step.leave EtcdLifecycle.one y e m s) p h = record {
  alone = h;
  idle = λ i. cc;
  returning = λ i. inr refl;
}
etcd_inner_step _ _ (EtcdLifecycle.Step.leave EtcdLifecycle.two y e m s) p h = cc (h, e)
etcd_inner_step _ _ (EtcdLifecycle.Step.begins i y e) p h = set_loop-IsEtcdKept i _ y h
etcd_inner_step _ _ (EtcdLifecycle.Step.receives i y m e c n) p h = set_loop-IsEtcdKept i _ y h
etcd_inner_step _ _ (EtcdLifecycle.Step.sends_closed i y m c n) p h = tt
etcd_inner_step _ _ (EtcdLifecycle.Step.finishes i y e) p h = with_loop-IsEtcdKept i _ y h
etcd_inner_step _ _ (EtcdLifecycle.Step.works i y e) p h = set_loop-IsEtcdKept i _ y h
etcd_inner_step _ _ (EtcdLifecycle.Step.rests i y e) p h = set_loop-IsEtcdKept i _ y h

pub inner-IsEtcdKept :
    (y z : EtcdLifecycle.Lifecycle) (s : EtcdLifecycle.Step y (some z))
    → IsEtcdInner y (some z) s
    → y.second ≡ EtcdLifecycle.idle
    → IsEtcdKept y z
inner-IsEtcdKept y z s p h = etcd_inner_step y (some z) s p h
