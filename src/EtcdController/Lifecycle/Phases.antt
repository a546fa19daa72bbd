-- ===== src/EtcdController/Lifecycle/Phases.antt =====
-- Where the loops of etcdController.go are when one goroutine calls Run and Stop, and Stop only once
-- both loops have begun.
use dnslb.Base.{
  ℕ, suc, Bool, true, false, Option, none, some, ◌≡◌, ◌⊎◌, inl, inr, refl, ap, arith, if◌then◌else◌,
}
use dnslb.EtcdController.Lifecycle.{
  Call, idle, waiting, At, nowhere, created, at_select, at_work, at_close, Loop, Lifecycle, one,
  Which, loop_of, spawn, one_sender, begin, receive_stop, finish, moved, Step,
}

-- A step of one caller, and no Stop before both loops have begun.
abbrev pub IsOrderly : {y : Lifecycle} {o : Option Lifecycle} → Step y o → Type 0
IsOrderly (Step.call_run w y e q) = w ≡ one
IsOrderly (Step.call_stop w y e) =
    (w ≡ one) × ((y.running ≡ false) ⊎ ((y.monitor.started ≡ true) × (y.status.started ≡ true)))
IsOrderly _ = Unit

pub data OrderlySteps : Lifecycle → Option Lifecycle → Type 0 where
  here : (y : Lifecycle) → OrderlySteps y (some y)
  then_step :
      (x y : Lifecycle) (o : Option Lifecycle)
      → OrderlySteps x (some y)
      → (s : Step y o) → IsOrderly s
      → OrderlySteps x o

-- In its rounds, with the flag.
abbrev pub IsLooping : Loop → Type 0
IsLooping l = ((l.at ≡ at_select) ⊎ (l.at ≡ at_work)) × (l.started ≡ true)

-- Started by Run: begun or not.
abbrev pub IsUp : Loop → Type 0
IsUp l =
    (l.senders ≡ 0) × (l.closed ≡ false) × (((l.at ≡ created) × (l.started ≡ false)) ⊎ IsLooping l)

abbrev pub IsDown : Loop → Type 0
IsDown l = (l.senders ≡ 0) × (l.at ≡ nowhere) × (l.started ≡ false)

-- Being stopped: the send waits, or it was received, or the loop is down.
abbrev pub IsStopping : Loop → Type 0
IsStopping l =
    ((l.senders ≡ 1) × (l.closed ≡ false) × IsLooping l)
    ⊎ ((l.senders ≡ 0) × (l.closed ≡ false) × (l.at ≡ at_close) × (l.started ≡ true))
    ⊎ IsDown l

-- Where a loop is, by where the caller is.
abbrev pub InPhase : Bool → Call → Loop → Type 0
InPhase true idle l = IsUp l
InPhase false idle l = IsDown l
InPhase running waiting l = (running ≡ true) × IsStopping l

pub record IsOrdered (y : Lifecycle) : Type 0 where
  pub alone : y.second ≡ idle
  pub phase : (i : Which) → InPhase y.running y.first (loop_of i y)

abbrev pub Good : Option Lifecycle → Type 0
Good none = ⊥
Good (some y) = IsOrdered y

pub if_true : {A : Type 0} (b : Bool) (x y : A) → b ≡ true → (if b then x else y) ≡ x
if_true true x y e = refl
if_true false x y e = cc

pub if_false : {A : Type 0} (b : Bool) (x y : A) → b ≡ false → (if b then x else y) ≡ y
if_false true x y e = cc
if_false false x y e = refl

-- Each move of a loop keeps the phase.
pub begins-phase :
    (b : Bool) (k : Call) (l : Loop) → l.at ≡ created → InPhase b k l → InPhase b k (begin l)
begins-phase true idle l e h = (h.0, h.1, inr (inl refl, refl))
begins-phase false idle l e h = cc (h.1)
begins-phase b waiting l e (on, inl (s, c, (inl a, t))) = cc
begins-phase b waiting l e (on, inl (s, c, (inr a, t))) = cc
begins-phase b waiting l e (on, inr (inl (s, c, a, t))) = cc
begins-phase b waiting l e (on, inr (inr (s, a, t))) = cc

pub receives-phase :
    (b : Bool) (k : Call) (l : Loop) (m : ℕ)
    → l.at ≡ at_select
    → l.senders ≡ suc m
    → InPhase b k l
    → InPhase b k (receive_stop m l)
receives-phase true idle l m e n h = absurd (omega (arith, h.0, n))
receives-phase false idle l m e n h = absurd (omega (arith, h.0, n))
receives-phase b waiting l m e n (on, inl (s, c, (a, t))) =
    (on, inr (inl (omega (arith, s, n), c, refl, t)))
receives-phase b waiting l m e n (on, inr (inl (s, c, a, t))) = absurd (omega (arith, s, n))
receives-phase b waiting l m e n (on, inr (inr (s, a, t))) = absurd (omega (arith, s, n))

-- Nobody sends on a closed channel.
pub sends-phase :
    (b : Bool) (k : Call) (l : Loop) (m : ℕ)
    → l.closed ≡ true
    → l.senders ≡ suc m
    → InPhase b k l
    → ⊥
sends-phase true idle l m e n h = omega (arith, h.0, n)
sends-phase false idle l m e n h = omega (arith, h.0, n)
sends-phase b waiting l m e n (on, inl (s, c, (a, t))) = cc
sends-phase b waiting l m e n (on, inr (inl (s, c, a, t))) = omega (arith, s, n)
sends-phase b waiting l m e n (on, inr (inr (s, a, t))) = omega (arith, s, n)

abbrev pub finished : Loop → Loop
finished l = record l { at = nowhere; started = false; closed = true }

finish_open : (l : Loop) → l.closed ≡ false → finish l ≡ some (finished l)
unfolding finish
finish_open l e = if_false l.closed none (some (finished l)) e

pub finishes-phase :
    (b : Bool) (k : Call) (l : Loop)
    → l.at ≡ at_close
    → InPhase b k l
    → (finish l ≡ some (finished l)) × InPhase b k (finished l)
finishes-phase true idle l e (s, c, inl (a, t)) = cc
finishes-phase true idle l e (s, c, inr (inl a, t)) = cc
finishes-phase true idle l e (s, c, inr (inr a, t)) = cc
finishes-phase false idle l e h = cc (h.1)
finishes-phase b waiting l e (on, inl (s, c, (inl a, t))) = cc
finishes-phase b waiting l e (on, inl (s, c, (inr a, t))) = cc
finishes-phase b waiting l e (on, inr (inl (s, c, a, t))) =
    (finish_open l c, (on, inr (inr (s, refl, refl))))
finishes-phase b waiting l e (on, inr (inr (s, a, t))) = cc

-- From the select to a round and back.
pub moves-phase :
    (b : Bool) (k : Call) (l : Loop) (a : At)
    → (l.at ≡ at_select) ⊎ (l.at ≡ at_work)
    → (a ≡ at_select) ⊎ (a ≡ at_work)
    → InPhase b k l
    → InPhase b k (moved a l)
moves-phase true idle l a e q (s, c, inl (z, t)) = elim e [ inl x ↦ cc | inr x ↦ cc ]
moves-phase true idle l a e q (s, c, inr (z, t)) = (s, c, inr (q, t))
moves-phase false idle l a e q h = elim e [ inl x ↦ cc (h.1) | inr x ↦ cc (h.1) ]
moves-phase b waiting l a e q (on, inl (s, c, (z, t))) = (on, inl (s, c, (q, t)))
moves-phase b waiting l a e q (on, inr (inl (s, c, z, t))) = elim e [ inl x ↦ cc | inr x ↦ cc ]
moves-phase b waiting l a e q (on, inr (inr (s, z, t))) = elim e [ inl x ↦ cc | inr x ↦ cc ]

-- The calls.
pub run-phase :
    (l : Loop) → l.at ≡ nowhere → l.senders ≡ 0 → InPhase false idle l → InPhase true idle (spawn l)
run-phase l e n h = (n, refl, inl (refl, h.2))

pub stop-phase :
    (l : Loop) → l.started ≡ true → InPhase true idle l → InPhase true waiting (one_sender l)
stop-phase l on (s, c, inl (a, t)) = cc
stop-phase l on (s, c, inr z) = (refl, inl (ap suc s, c, z))

pub leave-phase :
    (b : Bool) (l : Loop) → l.started ≡ false → InPhase b waiting l → InPhase false idle l
leave-phase b l off (on, inl (s, c, (a, t))) = cc
leave-phase b l off (on, inr (inl (s, c, a, t))) = cc
leave-phase b l off (on, inr (inr h)) = h
