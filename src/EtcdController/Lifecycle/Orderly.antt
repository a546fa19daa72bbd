-- ===== src/EtcdController/Lifecycle/Orderly.antt =====
-- Run and Stop of etcdController.go when one goroutine calls them, and Stop only once both loops have
-- begun: Stop blocks until both are down.
use dnslb.Base.{Bool, true, false, Option, none, some, ◌≡◌, ◌⊎◌, inl, inr, refl, sym, Bool-cases}
use mathlib.Core.Path.{subst}
use dnslb.EtcdController.Lifecycle.{
  Call, idle, waiting, at_select, at_work, Loop, Lifecycle, initial, one, two, call_of, set_call,
  Which, monitor_loop, status_loop, loop_of, set_loop, spawn, run, one_sender, stop, with_loop,
  Step, IsQuiet,
}
use dnslb.EtcdController.Lifecycle.Phases.{
  IsOrderly, OrderlySteps, IsDown, InPhase, IsOrdered, Good, if_true, if_false, begins-phase,
  receives-phase, sends-phase, finished, finishes-phase, moves-phase, run-phase, stop-phase,
  leave-phase,
}

both_loops : (P : Which → Type 0) → P monitor_loop → P status_loop → (i : Which) → P i
both_loops P m s monitor_loop = m
both_loops P m s status_loop = s

-- Ordered, by the phase of each of the two loops.
ordered :
    (y : Lifecycle)
    → y.second ≡ idle
    → InPhase y.running y.first y.monitor
    → InPhase y.running y.first y.status
    → IsOrdered y
ordered y e m s = record {
  alone = e;
  phase = both_loops (λ i. InPhase y.running y.first (loop_of i y)) m s;
}

module _ (y : Lifecycle) (h : IsOrdered y) where
  pub phase_at :
      (b : Bool) (k : Call) (i : Which) → y.running ≡ b → y.first ≡ k → InPhase b k (loop_of i y)
  phase_at b k i eb ek =
      subst (λ c. InPhase c k (loop_of i y)) eb
        (subst (λ j. InPhase y.running j (loop_of i y)) ek (h.phase i))

  -- One loop moves.
  set_loop-Good : (i : Which) (l : Loop) → InPhase y.running y.first l → IsOrdered (set_loop i l y)
  set_loop-Good monitor_loop l p =
      ordered (set_loop monitor_loop l y) h.alone p (h.phase status_loop)
  set_loop-Good status_loop l p =
      ordered (set_loop status_loop l y) h.alone (h.phase monitor_loop) p

  run-Good : y.first ≡ idle → (y.running ≡ true) ⊎ IsQuiet y → IsOrdered (run y)
  unfolding run
  run-Good e q = elim (Bool-cases y.running) [
    | inl on ↦ subst IsOrdered (sym (if_true y.running y _ on)) h
    | inr off ↦ elim q [
      | inl on ↦ cc
      | inr (m, ms, s, ss) ↦ subst IsOrdered (sym (if_false y.running y _ off)) (
          ordered (record y { running = true; monitor = spawn y.monitor; status = spawn y.status })
            h.alone
            (subst (λ k. InPhase true k (spawn y.monitor)) (sym e)
              (run-phase y.monitor m ms (phase_at false idle monitor_loop off e)))
            (subst (λ k. InPhase true k (spawn y.status)) (sym e)
              (run-phase y.status s ss (phase_at false idle status_loop off e))))
    ]
  ]

  stop-Good :
      y.first ≡ idle
      → (y.running ≡ false) ⊎ ((y.monitor.started ≡ true) × (y.status.started ≡ true))
      → IsOrdered (stop one y)
  unfolding stop
  stop-Good e q = elim (Bool-cases y.running) [
    | inr off ↦ subst IsOrdered (sym (if_false y.running _ y off)) h
    | inl on ↦ elim q [
      | inl off ↦ cc
      | inr (m, s) ↦ subst IsOrdered (sym (if_true y.running _ y on)) (
          ordered
            (record y {
              monitor = one_sender y.monitor;
              status = one_sender y.status;
              first = waiting;
            })
            h.alone
            (subst (λ b. InPhase b waiting (one_sender y.monitor)) (sym on)
              (stop-phase y.monitor m (phase_at true idle monitor_loop on e)))
            (subst (λ b. InPhase b waiting (one_sender y.status)) (sym on)
              (stop-phase y.status s (phase_at true idle status_loop on e))))
    ]
  ]

  leave-Good :
      y.first ≡ waiting
      → y.monitor.started ≡ false
      → y.status.started ≡ false
      → IsOrdered (set_call one idle (record y { running = false }))
  leave-Good e m s =
      ordered (set_call one idle (record y { running = false })) h.alone
        (leave-phase y.running y.monitor m (phase_at y.running waiting monitor_loop refl e))
        (leave-phase y.running y.status s (phase_at y.running waiting status_loop refl e))

second_idle : (y : Lifecycle) → IsOrdered y → call_of two y ≡ waiting → ⊥
second_idle y h e = cc (h.alone, e)

-- An orderly step keeps the invariant, and is no panic.
pub Step-Good :
    (y : Lifecycle) (o : Option Lifecycle) (s : Step y o) → IsOrderly s → IsOrdered y → Good o
Step-Good _ _ (Step.call_run one y e q) p h = run-Good y h e q
Step-Good _ _ (Step.call_run two y e q) p h = cc p
Step-Good _ _ (Step.call_stop one y e) p h = stop-Good y h e p.1
Step-Good _ _ (Step.call_stop two y e) p h = cc (p.0)
Step-Good _ _ (Step.leave one y e m s) p h = leave-Good y h e m s
Step-Good _ _ (Step.leave two y e m s) p h = absurd (second_idle y h e)
Step-Good _ _ (Step.begins i y e) p h =
    set_loop-Good y h i _ (begins-phase y.running y.first (loop_of i y) e (h.phase i))
Step-Good _ _ (Step.receives i y m e c n) p h =
    set_loop-Good y h i _ (receives-phase y.running y.first (loop_of i y) m e n (h.phase i))
Step-Good _ _ (Step.sends_closed i y m c n) p h =
    sends-phase y.running y.first (loop_of i y) m c n (h.phase i)
Step-Good _ _ (Step.finishes i y e) p h =
    let (done, q) = finishes-phase y.running y.first (loop_of i y) e (h.phase i) in
    subst (λ o. Good (with_loop i y o)) (sym done) (set_loop-Good y h i (finished (loop_of i y)) q)
Step-Good _ _ (Step.works i y e) p h =
    set_loop-Good y h i _
      (moves-phase y.running y.first (loop_of i y) at_work (inl e) (inr refl) (h.phase i))
Step-Good _ _ (Step.rests i y e) p h =
    set_loop-Good y h i _
      (moves-phase y.running y.first (loop_of i y) at_select (inr e) (inl refl) (h.phase i))

pub OrderlySteps-Good :
    (x : Lifecycle) (o : Option Lifecycle) → OrderlySteps x o → IsOrdered x → Good o
OrderlySteps-Good _ _ (OrderlySteps.here y) h = h
OrderlySteps-Good _ _ (OrderlySteps.then_step x y o steps s q) h =
    Step-Good y o s q (OrderlySteps-Good x (some y) steps h)

pub initial-IsOrdered : IsOrdered initial
initial-IsOrdered = ordered initial refl (refl, refl, refl) (refl, refl, refl)

pub off-IsDown : (b : Bool) (k : Call) (l : Loop) → InPhase b k l → b ≡ false → IsDown l
off-IsDown true idle l h e = cc
off-IsDown false idle l h e = h
off-IsDown b waiting l h e = cc (h.0)

-- If only one goroutine calls Run and Stop, and Stop only once both loops have begun, there is no
-- panic, and while `running` is false, that is also after Stop has returned, both loops are down: no
-- goroutine of theirs is left, and none that waits to send on their stop channels.
pub stop_blocks :
    (o : Option Lifecycle)
    → OrderlySteps initial o
    → (y : Lifecycle) × (o ≡ some y) × (y.running ≡ false → (i : Which) → IsDown (loop_of i y))
stop_blocks o steps = go o (OrderlySteps-Good initial o steps initial-IsOrdered)
  where
    go :
        (o : Option Lifecycle)
        → Good o
        → (y : Lifecycle) × (o ≡ some y) × (y.running ≡ false → (i : Which) → IsDown (loop_of i y))
    go none h = absurd h
    go (some y) h = (y, refl, λ off i. off-IsDown y.running y.first (loop_of i y) (h.phase i) off)
