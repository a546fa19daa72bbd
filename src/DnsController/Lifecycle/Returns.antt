-- ===== src/DnsController/Lifecycle/Returns.antt =====
-- Stop of dnsController.go comes to its end.
use dnslb.Base.{true, false, some, ◌≡◌, inl, inr, refl, sym, ◌∙◌, ap}
use dnslb.DnsController.Lifecycle.{
  idle, at_stop, at_lb_stop, at_reset, at_select, at_close, Lifecycle, initial, one, set_call,
  is_closed, stop, Step, moved,
}
use dnslb.DnsController.Lifecycle.Invariant.{OrderlySteps, IsOrdered, phase, if_true}
use dnslb.DnsController.Lifecycle.Orderly.{
  Step-Good, OrderlySteps-Good, initial-IsOrdered, IsStopped, phase_off, ending-IsStopped,
}

-- There are steps after which the caller is out of Stop, and `running` is false.
abbrev Returns : Lifecycle → Type 0
Returns x = (z : Lifecycle) × OrderlySteps x (some z) × (z.running ≡ false) × (z.first ≡ idle)

module _ (x : Lifecycle) where
  reset-Returns : (y : Lifecycle) → OrderlySteps x (some y) → y.first ≡ at_reset → Returns x
  reset-Returns y steps e = (
    set_call one idle (record y { running = false }),
    OrderlySteps.then_step x y _ steps (Step.reset one y e) tt,
    refl,
    refl,
  )

  lb_select-Returns :
      (y : Lifecycle)
      → OrderlySteps x (some y)
      → y.first ≡ at_lb_stop y.number
      → y.lists.at ≡ at_select
      → is_closed y.number y.lists ≡ false
      → Returns x
  lb_select-Returns y steps e a c =
      reset-Returns (set_call one at_reset (record y { lists = moved at_close y.lists }))
        (OrderlySteps.then_step x y _ steps (Step.send_lb_stop one y e a c) tt) refl

  lb-Returns :
      (y : Lifecycle)
      → OrderlySteps x (some y)
      → IsOrdered y
      → y.first ≡ at_lb_stop y.number
      → Returns x
  lb-Returns y steps h e =
      let (_, _, _, (c, at)) = phase y h y.running (at_lb_stop y.number) refl e in
      elim at [
        | inl a ↦ lb_select-Returns y steps e a c
        | inr a ↦
            lb_select-Returns (record y { lists = moved at_select y.lists })
              (OrderlySteps.then_step x y _ steps (Step.lb_rest y a) tt) e refl c
      ]

  select-Returns :
      (y : Lifecycle)
      → OrderlySteps x (some y)
      → IsOrdered y
      → y.first ≡ at_stop y.number
      → y.rounds.at ≡ at_select
      → is_closed y.number y.rounds ≡ false
      → Returns x
  select-Returns y steps h e a c =
      lb-Returns
        (set_call one (at_lb_stop y.number) (record y { rounds = moved at_close y.rounds }))
        (OrderlySteps.then_step x y _ steps (Step.send_stop one y e a c) tt)
        (Step-Good y _ (Step.send_stop one y e a c) tt h) refl

  stop-Returns :
      (y : Lifecycle)
      → OrderlySteps x (some y)
      → IsOrdered y
      → y.first ≡ at_stop y.number
      → Returns x
  stop-Returns y steps h e =
      let (_, _, (c, at), _) = phase y h y.running (at_stop y.number) refl e in
      elim at [
        | inl a ↦ select-Returns y steps h e a c
        | inr a ↦
            select-Returns (record y { rounds = moved at_select y.rounds })
              (OrderlySteps.then_step x y _ steps (Step.rest y a) tt)
              (Step-Good y _ (Step.rest y a) tt h) e refl c
      ]

stop_first :
    (y : Lifecycle)
    → y.running ≡ true
    → ((stop one y).first ≡ at_stop y.number) × ((stop one y).number ≡ y.number)
unfolding stop
stop_first y on =
    let e = if_true y.running (set_call one (at_stop y.number) y) y on in
    (ap (λ (z : Lifecycle). z.first) e, ap (λ (z : Lifecycle). z.number) e)

-- A Stop is never stuck: if one goroutine calls Run and Stop, and Run only once the loops of the last
-- Run have returned, then from every state in which the controller runs and a Stop can be called there
-- are steps that call it and lead out of it, even when a loop is in the middle of its work; `running`
-- is false then, and neither loop runs a round or begins one.
pub stop_returns :
    (y : Lifecycle)
    → OrderlySteps initial (some y)
    → y.running ≡ true
    → y.first ≡ idle
    → (z : Lifecycle) × OrderlySteps (stop one y) (some z)
      × (z.running ≡ false)
      × (z.first ≡ idle)
      × IsStopped z.rounds
      × IsStopped z.lists
stop_returns y steps on e =
    let h : IsOrdered y = OrderlySteps-Good initial (some y) steps initial-IsOrdered in
    let h' : IsOrdered (stop one y) = Step-Good y _ (Step.call_stop one y e) refl h in
    let (call, number) = stop_first y on in
    let (z, more, off, back) =
      stop-Returns (stop one y) (stop one y) (OrderlySteps.here (stop one y)) h'
        (call ∙ ap at_stop (sym number)) in
    let good : IsOrdered z = OrderlySteps-Good (stop one y) (some z) more h' in
    let (r, l) = phase_off z.running z.first z.number z.rounds z.lists good.phase off in
    (z, more, off, back, ending-IsStopped z.number z.rounds r, ending-IsStopped z.number z.lists l)
