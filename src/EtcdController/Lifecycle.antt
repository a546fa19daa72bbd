-- ===== src/EtcdController/Lifecycle.antt =====
-- Run and Stop of etcdController.go, over the goroutines that call them and the two loops that Run
-- starts, as steps in any order.
pub mod Phases
pub mod Orderly
pub mod Returns
pub mod Early
mod Examples
use dnslb.Base.{ℕ, zero, suc, Bool, true, false, Option, none, some, if◌then◌else◌, ◌≡◌, ◌⊎◌}

-- A goroutine that calls Run and Stop, one call after another: outside of a call, or in Stop, behind
-- the two `go` statements, where it waits for the flags.
pub data Call : Type 0 where
  idle waiting : Call

-- The goroutine of a loop: none, made by `go` but not begun, at its select, in a round, or behind the
-- receive from its stop channel.
pub data At : Type 0 where
  nowhere created at_select at_work at_close : At

-- A loop with its flag (monitorLoopStarted or statusLoopStarted), with whether its stop channel is
-- closed, and with the number of goroutines of Stop that wait to send on the channel.
pub record Loop : Type 0 where
  pub at : At
  pub started : Bool
  pub closed : Bool
  pub senders : ℕ

pub record Lifecycle : Type 0 where
  pub running : Bool
  pub monitor : Loop
  pub status : Loop
  pub first : Call
  pub second : Call

abbrev pub down : Loop
down = record { at = nowhere; started = false; closed = false; senders = 0 }

abbrev pub initial : Lifecycle
initial = record { running = false; monitor = down; status = down; first = idle; second = idle }

-- The two goroutines that call: those of the election and of the signal.
pub data Who : Type 0 where
  one two : Who

abbrev pub call_of : Who → Lifecycle → Call
call_of one y = y.first
call_of two y = y.second

abbrev pub set_call : Who → Call → Lifecycle → Lifecycle
set_call one k y = record y { first = k }
set_call two k y = record y { second = k }

-- monitorLoop and statusLoop, which start and stop alike.
pub data Which : Type 0 where
  monitor_loop status_loop : Which

abbrev pub loop_of : Which → Lifecycle → Loop
loop_of monitor_loop y = y.monitor
loop_of status_loop y = y.status

abbrev pub set_loop : Which → Loop → Lifecycle → Lifecycle
set_loop monitor_loop l y = record y { monitor = l }
set_loop status_loop l y = record y { status = l }

-- A new channel, and `go …`.
abbrev pub spawn : Loop → Loop
spawn l = record l { at = created; closed = false }

-- Run, which does not block.
unfoldable pub run : Lifecycle → Lifecycle
run y =
    if y.running
    then y
    else record y { running = true; monitor = spawn y.monitor; status = spawn y.status }

abbrev pub one_sender : Loop → Loop
one_sender l = record l { senders = suc l.senders }

-- Stop up to the loop in which it waits.
unfoldable pub stop : Who → Lifecycle → Lifecycle
stop w y =
    if y.running
    then set_call w waiting
        (record y { monitor = one_sender y.monitor; status = one_sender y.status })
    else y

-- The first statements of a loop.
abbrev pub begin : Loop → Loop
begin l = record l { at = at_select; started = true }

-- The receive from the stop channel, where m goroutines are left that wait to send.
abbrev pub receive_stop : ℕ → Loop → Loop
receive_stop m l = record l { at = at_close; senders = m }

-- The close, the return and the deferred reset of the flag; `none` is the panic of a second close.
unfoldable pub finish : Loop → Option Loop
finish l =
    if l.closed then none else some (record l { at = nowhere; started = false; closed = true })

abbrev pub moved : At → Loop → Loop
moved a l = record l { at = a }

abbrev pub with_loop : Which → Lifecycle → Option Loop → Option Lifecycle
with_loop w y none = none
with_loop w y (some l) = some (set_loop w l y)

-- Nothing is left of the calls before: no loop and no goroutine that waits to send.
abbrev pub IsQuiet : Lifecycle → Type 0
IsQuiet y =
    (y.monitor.at ≡ nowhere)
    × (y.monitor.senders ≡ 0)
    × (y.status.at ≡ nowhere)
    × (y.status.senders ≡ 0)

-- One step; `none` is a panic. The Run of a controller that does not run is a step only where nothing
-- is left of the calls before.
pub data Step : Lifecycle → Option Lifecycle → Type 0 where
  call_run :
      (w : Who) (y : Lifecycle)
      → call_of w y ≡ idle
      → (y.running ≡ true) ⊎ IsQuiet y
      → Step y (some (run y))
  call_stop : (w : Who) (y : Lifecycle) → call_of w y ≡ idle → Step y (some (stop w y))
  -- The loop of Stop sees that neither flag is set, and Stop ends.
  leave :
      (w : Who) (y : Lifecycle)
      → call_of w y ≡ waiting
      → y.monitor.started ≡ false
      → y.status.started ≡ false
      → Step y (some (set_call w idle (record y { running = false })))
  begins :
      (i : Which) (y : Lifecycle)
      → (loop_of i y).at ≡ created
      → Step y (some (set_loop i (begin (loop_of i y)) y))
  receives :
      (i : Which) (y : Lifecycle) (m : ℕ)
      → (loop_of i y).at ≡ at_select
      → (loop_of i y).closed ≡ false
      → (loop_of i y).senders ≡ suc m
      → Step y (some (set_loop i (receive_stop m (loop_of i y)) y))
  -- A send on a closed channel panics.
  sends_closed :
      (i : Which) (y : Lifecycle) (m : ℕ)
      → (loop_of i y).closed ≡ true
      → (loop_of i y).senders ≡ suc m
      → Step y none
  finishes :
      (i : Which) (y : Lifecycle)
      → (loop_of i y).at ≡ at_close
      → Step y (with_loop i y (finish (loop_of i y)))
  -- A round begins and ends.
  works :
      (i : Which) (y : Lifecycle)
      → (loop_of i y).at ≡ at_select
      → Step y (some (set_loop i (moved at_work (loop_of i y)) y))
  rests :
      (i : Which) (y : Lifecycle)
      → (loop_of i y).at ≡ at_work
      → Step y (some (set_loop i (moved at_select (loop_of i y)) y))

-- A step in which only the first goroutine calls.
abbrev pub IsSolo : {y : Lifecycle} {o : Option Lifecycle} → Step y o → Type 0
IsSolo (Step.call_run w y e q) = w ≡ one
IsSolo (Step.call_stop w y e) = w ≡ one
IsSolo _ = Unit

-- Any number of such steps; a panic is the last one.
pub data Steps : Option Lifecycle → Option Lifecycle → Type 0 where
  done : (o : Option Lifecycle) → Steps o o
  next :
      (y : Lifecycle) (o z : Option Lifecycle) (s : Step y o)
      → IsSolo s
      → Steps o z
      → Steps (some y) z
