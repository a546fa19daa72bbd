-- ===== src/EtcdController/Lifecycle/Examples.antt =====
-- Run and Stop of etcdController.go at concrete states.
use dnslb.Base.{false, some, ◌≡◌, inr, refl}
use dnslb.EtcdController.Lifecycle.{
  idle, at_work, Lifecycle, initial, one, Which, monitor_loop, status_loop, loop_of, set_loop,
  begin, run, stop, Step, Steps,
}
use dnslb.EtcdController.Lifecycle.Phases.{IsDown, OrderlySteps}
use dnslb.EtcdController.Lifecycle.Orderly.{stop_blocks}
use dnslb.EtcdController.Lifecycle.Early.{early_stop_returns}

-- Run, both loops begin, and Stop.
abbrev begun_one : Lifecycle
begun_one = set_loop monitor_loop (begin (loop_of monitor_loop (run initial))) (run initial)

abbrev begun_both : Lifecycle
begun_both = set_loop status_loop (begin (loop_of status_loop begun_one)) begun_one

stopping : OrderlySteps initial (some (stop one begun_both))
unfolding run
stopping =
    OrderlySteps.then_step initial begun_both _
      (OrderlySteps.then_step initial begun_one _
        (OrderlySteps.then_step initial (run initial) _
          (OrderlySteps.then_step initial initial _ (OrderlySteps.here initial)
            (Step.call_run one initial refl (inr (refl, refl, refl, refl))) refl)
          (Step.begins monitor_loop (run initial) refl) tt)
        (Step.begins status_loop begun_one refl) tt)
      (Step.call_stop one begun_both refl) (refl, inr (refl, refl))

stop_blocks_example :
    (y : Lifecycle) × (some (stop one begun_both) ≡ some y)
    × (y.running ≡ false → (i : Which) → IsDown (loop_of i y))
stop_blocks_example = stop_blocks (some (stop one begun_both)) stopping

early_stop_returns_example :
    (z : Lifecycle) × Steps (some initial) (some z)
    × (z.running ≡ false)
    × (z.first ≡ idle)
    × (z.monitor.at ≡ at_work)
    × (z.status.at ≡ at_work)
early_stop_returns_example = early_stop_returns initial refl refl (refl, refl, refl, refl) refl refl
