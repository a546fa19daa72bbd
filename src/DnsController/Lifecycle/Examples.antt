-- ===== src/DnsController/Lifecycle/Examples.antt =====
-- Run and Stop of dnsController.go at concrete states.
use dnslb.Base.{true, false, none, some, ◌≡◌, inr, refl}
use dnslb.DnsController.Lifecycle.{idle, Lifecycle, initial, one, run, stop, Step, Steps}
use dnslb.DnsController.Lifecycle.Invariant.{IsAlive, OrderlySteps}
use dnslb.DnsController.Lifecycle.Orderly.{IsStopped, orderly_safe}
use dnslb.DnsController.Lifecycle.Returns.{stop_returns}
use dnslb.DnsController.Lifecycle.Races.{
  IsNoRun, IsSolo, IsRunning, two_stops_panic, early_run_panics,
}

-- Run, and then Stop.
started : OrderlySteps initial (some (run initial))
started =
    OrderlySteps.then_step initial initial _ (OrderlySteps.here initial)
      (Step.call_run one initial refl) (refl, inr (refl, refl))

first_idle : (run initial).first ≡ idle
unfolding run
first_idle = refl

on : (run initial).running ≡ true
unfolding run
on = refl

stopping : OrderlySteps initial (some (stop one (run initial)))
stopping =
    OrderlySteps.then_step initial (run initial) _ started
      (Step.call_stop one (run initial) first_idle) refl

orderly_safe_example :
    (y : Lifecycle) × (some (stop one (run initial)) ≡ some y)
    × (y.running ≡ false → IsStopped y.rounds × IsStopped y.lists)
    × (y.running ≡ true → y.first ≡ idle → IsAlive y.number y.rounds × IsAlive y.number y.lists)
orderly_safe_example = orderly_safe (some (stop one (run initial))) stopping

stop_returns_example :
    (z : Lifecycle) × OrderlySteps (stop one (run initial)) (some z)
    × (z.running ≡ false)
    × (z.first ≡ idle)
    × IsStopped z.rounds
    × IsStopped z.lists
stop_returns_example = stop_returns (run initial) started on first_idle

running : IsRunning (run initial)
unfolding run
running = record {
  on = refl;
  rounds_at = refl;
  rounds_open = refl;
  lists_at = refl;
  lists_open = refl;
  first_idle = refl;
  second_idle = refl;
  fresh = refl;
}

two_stops_panic_example : Steps IsNoRun (some (run initial)) none
two_stops_panic_example = two_stops_panic (run initial) running

early_run_panics_example : Steps IsSolo (some (run initial)) none
early_run_panics_example = early_run_panics (run initial) running
