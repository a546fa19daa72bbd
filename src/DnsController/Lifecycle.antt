-- ===== src/DnsController/Lifecycle.antt =====
-- Run and Stop of dnsController.go, over the goroutines that call them and the two that Run starts, as
-- steps in any order. A statement that can block, or that another goroutine can overtake, is a step
-- of its own.
pub mod Invariant
pub mod Moves
pub mod Orderly
pub mod Returns
pub mod Races
mod Examples
use dnslb.Base.{
  ℕ, zero, suc, ◌+◌, Bool, true, false, Option, none, some, List, [], ◌∷◌, any, ◌==◌, if◌then◌else◌,
  ◌≡◌,
}

-- A goroutine that calls Run and Stop, one call after another: outside of a call, or in Stop behind its
-- guard, at the send on the channel of the given number, or at `c.running = false`.
pub data Call : Type 0 where
  idle : Call
  at_stop : ℕ → Call
  at_lb_stop : ℕ → Call
  at_reset : Call

-- The goroutine of a loop: none, at its select, in the body of another case, or behind the receive
-- from its stop channel, before the close.
pub data At : Type 0 where
  nowhere at_select at_work at_close : At

-- A loop with its stop channels, which are numbered: those that are closed. `leftovers` goroutines of
-- calls of Run before the last one are still before their close.
pub record Loop : Type 0 where
  pub at : At
  pub leftovers : ℕ
  pub closed : List ℕ

-- `number` is that of the last channels that Run has made; `rounds` is Run's loop, stopped by stopCh,
-- and `lists` is lbUpdateLoop, stopped by lbUpdateLoopStopCh.
pub record Lifecycle : Type 0 where
  pub running : Bool
  pub number : ℕ
  pub rounds : Loop
  pub lists : Loop
  pub first : Call
  pub second : Call

abbrev pub initial : Lifecycle
initial = record {
  running = false;
  number = 0;
  rounds = record { at = nowhere; leftovers = 0; closed = [] };
  lists = record { at = nowhere; leftovers = 0; closed = [] };
  first = idle;
  second = idle;
}

-- The two goroutines that call: those of the election and of the signal.
pub data Who : Type 0 where
  one two : Who

abbrev pub call_of : Who → Lifecycle → Call
call_of one y = y.first
call_of two y = y.second

abbrev pub set_call : Who → Call → Lifecycle → Lifecycle
set_call one k y = record y { first = k }
set_call two k y = record y { second = k }

abbrev pub is_closed : ℕ → Loop → Bool
is_closed n l = any (λ m. m == n) l.closed

-- `go …`: the goroutine of the call of Run before, if it is still there, is a leftover.
abbrev pub respawn : Loop → Loop
respawn l = record {
  at = at_select;
  leftovers = elim l.at [ nowhere ↦ l.leftovers | _ ↦ suc l.leftovers ];
  closed = l.closed;
}

-- Run, which does not block.
unfoldable pub run : Lifecycle → Lifecycle
run y = if y.running then y else record y {
  running = true;
  number = suc y.number;
  rounds = respawn y.rounds;
  lists = respawn y.lists;
}

-- Stop up to its first send.
unfoldable pub stop : Who → Lifecycle → Lifecycle
stop w y = if y.running then set_call w (at_stop y.number) y else y

-- The close of the channel that the field holds now; `none` is the panic of a second close.
unfoldable pub close_by : ℕ → Loop → Option Loop
close_by n l = if is_closed n l then none else some (record l { closed = n ∷ l.closed })

abbrev map_option : {A B : Type 0} → (A → B) → Option A → Option B
map_option f none = none
map_option f (some a) = some (f a)

abbrev pub gone : Loop → Loop
gone l = record l { at = nowhere }

abbrev pub fewer : ℕ → Loop → Loop
fewer m l = record l { leftovers = m }

abbrev pub moved : At → Loop → Loop
moved a l = record l { at = a }

-- The end of a loop's goroutine: that of the last Run, or a leftover.
unfoldable pub finish : ℕ → Loop → Option Loop
unfolding close_by
finish n l = map_option gone (close_by n l)

unfoldable pub finish_leftover : ℕ → ℕ → Loop → Option Loop
unfolding close_by
finish_leftover m n l = map_option (fewer m) (close_by n l)

abbrev pub with_rounds : Lifecycle → Option Loop → Option Lifecycle
with_rounds y o = map_option (λ l. record y { rounds = l }) o

abbrev pub with_lists : Lifecycle → Option Loop → Option Lifecycle
with_lists y o = map_option (λ l. record y { lists = l }) o

-- One step; `none` is a panic, which ends the process. A send and its receive are one step, since the
-- channels have no buffer.
pub data Step : Lifecycle → Option Lifecycle → Type 0 where
  call_run : (w : Who) (y : Lifecycle) → call_of w y ≡ idle → Step y (some (run y))
  call_stop : (w : Who) (y : Lifecycle) → call_of w y ≡ idle → Step y (some (stop w y))
  send_stop :
      (w : Who) (y : Lifecycle)
      → call_of w y ≡ at_stop y.number
      → y.rounds.at ≡ at_select
      → is_closed y.number y.rounds ≡ false
      → Step y
          (some (set_call w (at_lb_stop y.number) (record y { rounds = moved at_close y.rounds })))
  send_lb_stop :
      (w : Who) (y : Lifecycle)
      → call_of w y ≡ at_lb_stop y.number
      → y.lists.at ≡ at_select
      → is_closed y.number y.lists ≡ false
      → Step y (some (set_call w at_reset (record y { lists = moved at_close y.lists })))
  reset :
      (w : Who) (y : Lifecycle)
      → call_of w y ≡ at_reset
      → Step y (some (set_call w idle (record y { running = false })))
  -- A send on a closed channel panics.
  send_stop_closed :
      (w : Who) (y : Lifecycle) (n : ℕ)
      → call_of w y ≡ at_stop n
      → is_closed n y.rounds ≡ true
      → Step y none
  send_lb_stop_closed :
      (w : Who) (y : Lifecycle) (n : ℕ)
      → call_of w y ≡ at_lb_stop n
      → is_closed n y.lists ≡ true
      → Step y none
  -- A receive from a closed channel does not wait.
  receive_closed :
      (y : Lifecycle)
      → y.rounds.at ≡ at_select
      → is_closed y.number y.rounds ≡ true
      → Step y (some (record y { rounds = moved at_close y.rounds }))
  receive_lb_closed :
      (y : Lifecycle)
      → y.lists.at ≡ at_select
      → is_closed y.number y.lists ≡ true
      → Step y (some (record y { lists = moved at_close y.lists }))
  close_stop :
      (y : Lifecycle) → y.rounds.at ≡ at_close → Step y (with_rounds y (finish y.number y.rounds))
  close_lb_stop :
      (y : Lifecycle) → y.lists.at ≡ at_close → Step y (with_lists y (finish y.number y.lists))
  close_leftover :
      (y : Lifecycle) (m : ℕ)
      → y.rounds.leftovers ≡ suc m
      → Step y (with_rounds y (finish_leftover m y.number y.rounds))
  close_lb_leftover :
      (y : Lifecycle) (m : ℕ)
      → y.lists.leftovers ≡ suc m
      → Step y (with_lists y (finish_leftover m y.number y.lists))
  -- A round of Run's loop begins and ends, and lbUpdateLoop takes a list.
  work :
      (y : Lifecycle)
      → y.rounds.at ≡ at_select
      → Step y (some (record y { rounds = moved at_work y.rounds }))
  rest :
      (y : Lifecycle)
      → y.rounds.at ≡ at_work
      → Step y (some (record y { rounds = moved at_select y.rounds }))
  lb_work :
      (y : Lifecycle)
      → y.lists.at ≡ at_select
      → Step y (some (record y { lists = moved at_work y.lists }))
  lb_rest :
      (y : Lifecycle)
      → y.lists.at ≡ at_work
      → Step y (some (record y { lists = moved at_select y.lists }))

-- Any number of steps of a kind; a panic is the last one.
pub data Steps (P : (y : Lifecycle) (o : Option Lifecycle) → Step y o → Type 0)
    : Option Lifecycle → Option Lifecycle → Type 0 where
  done : (o : Option Lifecycle) → Steps P o o
  next :
      (y : Lifecycle) (o z : Option Lifecycle) (s : Step y o)
      → P y o s
      → Steps P o z
      → Steps P (some y) z
