-- ===== src/DnsController/Lifecycle/Orderly.antt =====
-- Run and Stop of dnsController.go when one goroutine calls them, and Run only once the loops of the
-- last Run have returned: there is no panic, and no round after Stop.
use dnslb.Base.{ℕ, Bool, true, false, Option, none, some, ◌≡◌, ◌≢◌, inl, inr, refl, sym, ◌∙◌}
use mathlib.Core.Path.{subst}
use dnslb.DnsController.Lifecycle.{
  Call, idle, at_stop, at_lb_stop, at_reset, at_select, at_work, Loop, Lifecycle, initial, one, two,
  call_of, with_rounds, with_lists, Step, moved,
}
use dnslb.DnsController.Lifecycle.Invariant.{
  IsOrderly, OrderlySteps, IsAlive, IsEnding, InPhase, phase_at, IsOrdered, Good, finish-gone,
  run-Good, stop-Good, send_stop-Good, send_lb_stop-Good, reset-Good, send_stop-open,
  send_lb_stop-open,
}
use dnslb.DnsController.Lifecycle.Moves.{
  not_at_close, not-IsEnding, rounds-Good, lists-Good, rounds_open, lists_open,
}

second_idle : (y : Lifecycle) (k : Call) → IsOrdered y → call_of two y ≡ k → k ≢ idle → ⊥
second_idle y k h e q = q (sym e ∙ h.alone)

-- An orderly step keeps the invariant, and is no panic.
pub Step-Good :
    (y : Lifecycle) (o : Option Lifecycle) (s : Step y o) → IsOrderly s → IsOrdered y → Good o
Step-Good _ _ (Step.call_run one y e) q h = run-Good y h e q.1
Step-Good _ _ (Step.call_run two y e) q h = cc (q.0)
Step-Good _ _ (Step.call_stop one y e) q h = stop-Good y h e
Step-Good _ _ (Step.call_stop two y e) q h = cc q
Step-Good _ _ (Step.send_stop one y e a c) q h = send_stop-Good y h e c
Step-Good _ _ (Step.send_stop two y e a c) q h = absurd (second_idle y _ h e (λ x. cc))
Step-Good _ _ (Step.send_lb_stop one y e a c) q h = send_lb_stop-Good y h e c
Step-Good _ _ (Step.send_lb_stop two y e a c) q h = absurd (second_idle y _ h e (λ x. cc))
Step-Good _ _ (Step.reset one y e) q h = reset-Good y h e
Step-Good _ _ (Step.reset two y e) q h = absurd (second_idle y _ h e (λ x. cc))
Step-Good _ _ (Step.send_stop_closed one y n e c) q h = cc (send_stop-open y h n e)
Step-Good _ _ (Step.send_stop_closed two y n e c) q h = absurd (second_idle y _ h e (λ x. cc))
Step-Good _ _ (Step.send_lb_stop_closed one y n e c) q h = cc (send_lb_stop-open y h n e)
Step-Good _ _ (Step.send_lb_stop_closed two y n e c) q h = absurd (second_idle y _ h e (λ x. cc))
Step-Good _ _ (Step.receive_closed y a c) q h = cc (rounds_open y h (λ x. cc))
Step-Good _ _ (Step.receive_lb_closed y a c) q h = cc (lists_open y h (λ x. cc))
Step-Good _ _ (Step.close_stop y a) q h =
    let (l, e, here, tidy) =
      finish-gone y.number y.rounds h.rounds_tidy (rounds_open y h (λ x. cc)) in
    subst (λ o. Good (with_rounds y o)) (sym e)
      (rounds-Good y h l tidy (not_at_close y.number y.rounds l a) (λ x. inl here))
Step-Good _ _ (Step.close_lb_stop y a) q h =
    let (l, e, here, tidy) = finish-gone y.number y.lists h.lists_tidy (lists_open y h (λ x. cc)) in
    subst (λ o. Good (with_lists y o)) (sym e)
      (lists-Good y h l tidy (not_at_close y.number y.lists l a) (λ x. inl here))
Step-Good _ _ (Step.close_leftover y m e) q h = cc (h.rounds_tidy.0)
Step-Good _ _ (Step.close_lb_leftover y m e) q h = cc (h.lists_tidy.0)
Step-Good _ _ (Step.work y a) q h =
    rounds-Good y h (moved at_work y.rounds) h.rounds_tidy (λ x. (x.0, inr refl))
      (not-IsEnding y.number y.rounds (moved at_work y.rounds) (inl a))
Step-Good _ _ (Step.rest y a) q h =
    rounds-Good y h (moved at_select y.rounds) h.rounds_tidy (λ x. (x.0, inl refl))
      (not-IsEnding y.number y.rounds (moved at_select y.rounds) (inr a))
Step-Good _ _ (Step.lb_work y a) q h =
    lists-Good y h (moved at_work y.lists) h.lists_tidy (λ x. (x.0, inr refl))
      (not-IsEnding y.number y.lists (moved at_work y.lists) (inl a))
Step-Good _ _ (Step.lb_rest y a) q h =
    lists-Good y h (moved at_select y.lists) h.lists_tidy (λ x. (x.0, inl refl))
      (not-IsEnding y.number y.lists (moved at_select y.lists) (inr a))

pub OrderlySteps-Good :
    (x : Lifecycle) (o : Option Lifecycle) → OrderlySteps x o → IsOrdered x → Good o
OrderlySteps-Good _ _ (OrderlySteps.here y) h = h
OrderlySteps-Good _ _ (OrderlySteps.then_step x y o steps s q) h =
    Step-Good y o s q (OrderlySteps-Good x (some y) steps h)

pub initial-IsOrdered : IsOrdered initial
initial-IsOrdered = record {
  alone = refl;
  rounds_tidy = (refl, tt);
  lists_tidy = (refl, tt);
  phase = (inl refl, inl refl);
}

-- The loop runs no round, and begins none.
abbrev pub IsStopped : Loop → Type 0
IsStopped l = (l.at ≢ at_select) × (l.at ≢ at_work)

pub ending-IsStopped : (n : ℕ) (l : Loop) → IsEnding n l → IsStopped l
ending-IsStopped n l h = elim h [ inl q ↦ (λ x. cc, λ x. cc) | inr q ↦ (λ x. cc, λ x. cc) ]

pub phase_off :
    (b : Bool) (k : Call) (n : ℕ) (r l : Loop)
    → InPhase b k n r l
    → b ≡ false
    → IsEnding n r × IsEnding n l
phase_off true idle n r l p e = cc
phase_off false idle n r l p e = p
phase_off b (at_stop m) n r l p e = cc (p.0)
phase_off b (at_lb_stop m) n r l p e = cc (p.0)
phase_off b at_reset n r l p e = cc (p.0)

pub phase_on :
    (b : Bool) (k : Call) (n : ℕ) (r l : Loop)
    → InPhase b k n r l
    → b ≡ true
    → k ≡ idle
    → IsAlive n r × IsAlive n l
phase_on b k n r l p eb ek = phase_at b true k idle n r l eb ek p

-- If only one goroutine calls Run and Stop, and Run only once the loops of the last Run have returned,
-- there is no panic: the process goes on. While `running` is false, that is also after Stop has
-- returned, neither loop runs a round or begins one; and while it is true and no Stop is on its way,
-- both loops are there, with open stop channels.
pub orderly_safe :
    (o : Option Lifecycle)
    → OrderlySteps initial o
    → (y : Lifecycle) × (o ≡ some y)
      × (y.running ≡ false → IsStopped y.rounds × IsStopped y.lists)
      × (y.running ≡ true → y.first ≡ idle → IsAlive y.number y.rounds × IsAlive y.number y.lists)
orderly_safe o steps = go o (OrderlySteps-Good initial o steps initial-IsOrdered)
  where
    go :
        (o : Option Lifecycle)
        → Good o
        → (y : Lifecycle) × (o ≡ some y)
          × (y.running ≡ false → IsStopped y.rounds × IsStopped y.lists)
          × (y.running ≡ true
              → y.first ≡ idle
              → IsAlive y.number y.rounds × IsAlive y.number y.lists)
    go none h = absurd h
    go (some y) h = (
      y,
      refl,
      λ off.
          let (r, l) = phase_off y.running y.first y.number y.rounds y.lists h.phase off in
          (ending-IsStopped y.number y.rounds r, ending-IsStopped y.number y.lists l),
      phase_on y.running y.first y.number y.rounds y.lists h.phase,
    )
