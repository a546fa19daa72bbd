-- ===== src/EtcdController/Lifecycle/Returns.antt =====
-- Stop of etcdController.go comes to its end.
use dnslb.Base.{true, false, some, ◌≡◌, ◌≢◌, inl, inr, refl, ◌∙◌, ap}
use mathlib.Core.Path.{subst}
use dnslb.EtcdController.Lifecycle.{
  idle, waiting, at_select, at_close, Loop, Lifecycle, initial, one, set_call, Which, monitor_loop,
  status_loop, loop_of, set_loop, stop, receive_stop, moved, with_loop, Step,
}
use dnslb.EtcdController.Lifecycle.Phases.{
  OrderlySteps, IsDown, IsStopping, IsOrdered, if_true, finished, finishes-phase,
}
use dnslb.EtcdController.Lifecycle.Orderly.{
  Step-Good, OrderlySteps-Good, initial-IsOrdered, off-IsDown, phase_at,
}

-- Steps after which one loop is down, and the other is where it was.
abbrev GoesDown : Lifecycle → Which → Lifecycle → Type 0
GoesDown x i y =
    (z : Lifecycle) × OrderlySteps x (some z)
    × (z.first ≡ y.first)
    × ((loop_of i z).started ≡ false)
    × ((j : Which) → j ≢ i → loop_of j z ≡ loop_of j y)

loop_set : (i : Which) (l : Loop) (y : Lifecycle) → loop_of i (set_loop i l y) ≡ l
loop_set monitor_loop l y = refl
loop_set status_loop l y = refl

loop_other :
    (i j : Which) (l : Loop) (y : Lifecycle) → j ≢ i → loop_of j (set_loop i l y) ≡ loop_of j y
loop_other monitor_loop monitor_loop l y n = absurd (n refl)
loop_other monitor_loop status_loop l y n = refl
loop_other status_loop monitor_loop l y n = refl
loop_other status_loop status_loop l y n = absurd (n refl)

first_set_loop : (i : Which) (l : Loop) (y : Lifecycle) → (set_loop i l y).first ≡ y.first
first_set_loop monitor_loop l y = refl
first_set_loop status_loop l y = refl

module _ (x : Lifecycle) (i : Which) where
  closes-GoesDown :
      (y : Lifecycle)
      → OrderlySteps x (some y)
      → IsOrdered y
      → (loop_of i y).at ≡ at_close
      → GoesDown x i y
  closes-GoesDown y steps h a =
      let (done, _) = finishes-phase y.running y.first (loop_of i y) a (h.phase i) in
      let z : Lifecycle = set_loop i (finished (loop_of i y)) y in
      let reached : OrderlySteps x (some z) =
        subst (λ o. OrderlySteps x (with_loop i y o)) done
          (OrderlySteps.then_step x y _ steps (Step.finishes i y a) tt) in
      (
        z,
        reached,
        first_set_loop i _ y,
        ap (λ (l : Loop). l.started) (loop_set i (finished (loop_of i y)) y),
        λ j n. loop_other i j _ y n,
      )

  -- What is reached from a state in which only this loop has moved.
  from_moved :
      (y y' : Lifecycle)
      → y'.first ≡ y.first
      → ((j : Which) → j ≢ i → loop_of j y' ≡ loop_of j y)
      → GoesDown x i y'
      → GoesDown x i y
  from_moved y y' f o (z, steps, g, s, p) = (z, steps, g ∙ f, s, λ j n. p j n ∙ o j n)

  receives-GoesDown :
      (y : Lifecycle)
      → OrderlySteps x (some y)
      → IsOrdered y
      → (loop_of i y).at ≡ at_select
      → (loop_of i y).closed ≡ false
      → (loop_of i y).senders ≡ 1
      → GoesDown x i y
  receives-GoesDown y steps h a c n =
      let y' : Lifecycle = set_loop i (receive_stop 0 (loop_of i y)) y in
      from_moved y y' (first_set_loop i _ y) (λ j m. loop_other i j _ y m)
        (closes-GoesDown y' (OrderlySteps.then_step x y _ steps (Step.receives i y 0 a c n) tt)
          (Step-Good y _ (Step.receives i y 0 a c n) tt h)
          (ap (λ (l : Loop). l.at) (loop_set i _ y)))

  stopping-GoesDown :
      (y : Lifecycle)
      → OrderlySteps x (some y)
      → IsOrdered y
      → IsStopping (loop_of i y)
      → GoesDown x i y
  stopping-GoesDown y steps h (inl (n, c, (inl a, t))) = receives-GoesDown y steps h a c n
  stopping-GoesDown y steps h (inl (n, c, (inr a, t))) =
      let y' : Lifecycle = set_loop i (moved at_select (loop_of i y)) y in
      from_moved y y' (first_set_loop i _ y) (λ j m. loop_other i j _ y m)
        (receives-GoesDown y' (OrderlySteps.then_step x y _ steps (Step.rests i y a) tt)
          (Step-Good y _ (Step.rests i y a) tt h) (ap (λ (l : Loop). l.at) (loop_set i _ y))
          (ap (λ (l : Loop). l.closed) (loop_set i _ y) ∙ c)
          (ap (λ (l : Loop). l.senders) (loop_set i _ y) ∙ n))
  stopping-GoesDown y steps h (inr (inl (n, c, a, t))) = closes-GoesDown y steps h a
  stopping-GoesDown y steps h (inr (inr (n, a, t))) = (y, steps, refl, t, λ j m. refl)

stop_phase :
    (y : Lifecycle) (h : IsOrdered y) (i : Which) → y.first ≡ waiting → IsStopping (loop_of i y)
stop_phase y h i e = (phase_at y h y.running waiting i refl e).1

stop_first : (y : Lifecycle) → y.running ≡ true → (stop one y).first ≡ waiting
unfolding stop
stop_first y on = ap (λ (z : Lifecycle). z.first) (if_true y.running _ y on)

-- A Stop is never stuck: if one goroutine calls Run and Stop, and Stop only once both loops have begun,
-- then from every state in which the controller runs and a Stop can be called there are steps that
-- call it and lead out of it, even when the loops are in the middle of a round; `running` is false
-- then, and both loops are down.
pub etcd_stop_returns :
    (y : Lifecycle)
    → OrderlySteps initial (some y)
    → y.running ≡ true
    → y.first ≡ idle
    → y.monitor.started ≡ true
    → y.status.started ≡ true
    → (z : Lifecycle) × OrderlySteps (stop one y) (some z)
      × (z.running ≡ false)
      × (z.first ≡ idle)
      × ((i : Which) → IsDown (loop_of i z))
etcd_stop_returns y steps on e m s =
    let x : Lifecycle = stop one y in
    let h : IsOrdered y = OrderlySteps-Good initial (some y) steps initial-IsOrdered in
    let h' : IsOrdered x = Step-Good y _ (Step.call_stop one y e) (refl, inr (m, s)) h in
    let w : x.first ≡ waiting = stop_first y on in
    let (y₁, steps₁, w₁, m₁, same₁) =
      stopping-GoesDown x monitor_loop x (OrderlySteps.here x) h'
        (stop_phase x h' monitor_loop w) in
    let h₁ : IsOrdered y₁ = OrderlySteps-Good x (some y₁) steps₁ h' in
    let (y₂, steps₂, w₂, s₂, same₂) =
      stopping-GoesDown x status_loop y₁ steps₁ h₁ (stop_phase y₁ h₁ status_loop (w₁ ∙ w)) in
    let m₂ : y₂.monitor.started ≡ false =
      ap (λ (l : Loop). l.started) (same₂ monitor_loop (λ q. cc)) ∙ m₁ in
    let z : Lifecycle = set_call one idle (record y₂ { running = false }) in
    let reached : OrderlySteps x (some z) =
      OrderlySteps.then_step x y₂ _ steps₂ (Step.leave one y₂ (w₂ ∙ w₁ ∙ w) m₂ s₂) tt in
    let h₂ : IsOrdered z = OrderlySteps-Good x (some z) reached h' in
    (z, reached, refl, refl, λ i. off-IsDown z.running z.first (loop_of i z) (h₂.phase i) refl)
