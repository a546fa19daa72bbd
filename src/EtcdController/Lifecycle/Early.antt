-- ===== src/EtcdController/Lifecycle/Early.antt =====
-- Stop of etcdController.go when it comes right after Run.
use dnslb.Base.{Bool, true, false, Option, some, ◌≡◌, inr, refl, sym, if◌then◌else◌}
use mathlib.Core.Path.{subst}
use dnslb.EtcdController.Lifecycle.{
  idle, waiting, at_work, Lifecycle, one, monitor_loop, status_loop, spawn, run, one_sender, stop,
  begin, moved, Step, Steps, IsQuiet,
}

if_true : {A : Type 0} (b : Bool) (x y : A) → b ≡ true → (if b then x else y) ≡ x
if_true true x y e = refl
if_true false x y e = cc

if_false : {A : Type 0} (b : Bool) (x y : A) → b ≡ false → (if b then x else y) ≡ y
if_false true x y e = cc
if_false false x y e = refl

next_run :
    (y : Lifecycle) (z : Option Lifecycle)
    → y.first ≡ idle
    → y.running ≡ false
    → IsQuiet y
    → Steps
        (some (record y { running = true; monitor = spawn y.monitor; status = spawn y.status }))
        z
    → Steps (some y) z
unfolding run
next_run y z e off quiet more =
    Steps.next y _ z (Step.call_run one y e (inr quiet)) refl
      (subst (λ x. Steps (some x) z) (sym (if_false y.running y _ off)) more)

next_stop :
    (y : Lifecycle) (z : Option Lifecycle)
    → y.first ≡ idle
    → y.running ≡ true
    → Steps
        (some (record y {
          monitor = one_sender y.monitor;
          status = one_sender y.status;
          first = waiting;
        }))
        z
    → Steps (some y) z
unfolding stop
next_stop y z e on more =
    Steps.next y _ z (Step.call_stop one y e) refl
      (subst (λ x. Steps (some x) z) (sym (if_true y.running _ y on)) more)

-- With one goroutine that calls, Stop right after Run can return before the loops have begun, since their flags are not set yet; then
-- the loops begin, and run rounds, while the controller counts as stopped.
pub early_stop_returns :
    (y : Lifecycle)
    → y.running ≡ false
    → y.first ≡ idle
    → IsQuiet y
    → y.monitor.started ≡ false
    → y.status.started ≡ false
    → (z : Lifecycle) × Steps (some y) (some z)
      × (z.running ≡ false)
      × (z.first ≡ idle)
      × (z.monitor.at ≡ at_work)
      × (z.status.at ≡ at_work)
early_stop_returns y off e quiet m s =
    let up : Lifecycle = record y {
      running = true;
      monitor = spawn y.monitor;
      status = spawn y.status;
    } in
    let stopping : Lifecycle = record up {
      monitor = one_sender up.monitor;
      status = one_sender up.status;
      first = waiting;
    } in
    let left : Lifecycle = record stopping { running = false; first = idle } in
    let begun : Lifecycle = record left { monitor = begin left.monitor } in
    let begun' : Lifecycle = record begun { status = begin left.status } in
    let working : Lifecycle = record begun' { monitor = moved at_work begun'.monitor } in
    let working' : Lifecycle = record working { status = moved at_work working.status } in
    (
      working',
      next_run y _ e off quiet (
          next_stop up _ e refl (
            Steps.next stopping _ _ (Step.leave one stopping refl m s) tt (
              Steps.next left _ _ (Step.begins monitor_loop left refl) tt (
                Steps.next begun _ _ (Step.begins status_loop begun refl) tt (
                  Steps.next begun' _ _ (Step.works monitor_loop begun' refl) tt (
                    Steps.next working _ _ (Step.works status_loop working refl) tt
                      (Steps.done (some working')))))))),
      refl,
      refl,
      refl,
      refl,
    )
