-- ===== src/Main/Election/Resting.antt =====
-- In the branch for raft the DNS controller does nothing while the process is not the leader.
use dnslb.Base.{
  ℕ, Bool-cases, Bool, true, false, Option, none, some, ◌≡◌, ◌≢◌, ◌⊎◌, inl, inr, refl, sym, ◌∙◌,
  if_elim,
}
use mathlib.Core.Path.{subst}
use dnslb.DnsController.Lifecycle.{
  Call, idle, at_stop, at_lb_stop, at_reset, nowhere, at_select, at_work, at_close, Loop, Lifecycle,
  one, two, moved, with_rounds, with_lists, is_closed, run, stop, close_by, finish, finish_leftover,
}
use dnslb.DnsController.Lifecycle
use dnslb.EtcdController.Lifecycle as EtcdLifecycle
use dnslb.Main.Election.Leader.{
  Pc, receiving, run_etcd, run_dns, stop_dns, in_dns_stop, in_etcd_stop, Process, initial, Step,
  Steps, IsInner,
}
use dnslb.Main.Election.Inner.{OnSome}
use dnslb.Main.Election.Leading.{IsOut, InPlace, Good, alone_of, Steps-Good, initial-Good}

-- The loop has left its select for good: it is behind the receive from its stop channel, or gone.
abbrev pub IsResting : Loop → Type 0
IsResting l = (l.at ≡ nowhere) ⊎ (l.at ≡ at_close)

-- Which loops rest, by where the caller is.
abbrev Rests : Bool → Call → Loop → Loop → Type 0
Rests true idle r l = Unit
Rests false idle r l = IsResting r × IsResting l
Rests b (at_stop m) r l = Unit
Rests b (at_lb_stop m) r l = IsResting r
Rests b at_reset r l = IsResting r × IsResting l

abbrev InOrder : Lifecycle.Lifecycle → Type 0
InOrder y = Rests y.running y.first y.rounds y.lists

Rests-map :
    (b : Bool) (k : Call) (r r' l l' : Loop)
    → (IsResting r → IsResting r')
    → (IsResting l → IsResting l')
    → Rests b k r l
    → Rests b k r' l'
Rests-map true idle r r' l l' f g h = tt
Rests-map false idle r r' l l' f g h = (f h.0, g h.1)
Rests-map b (at_stop m) r r' l l' f g h = tt
Rests-map b (at_lb_stop m) r r' l l' f g h = f h
Rests-map b at_reset r r' l l' f g h = (f h.0, g h.1)

Rests-subst : (b : Bool) (k k' : Call) (r l : Loop) → k ≡ k' → Rests b k r l → Rests b k' r l
Rests-subst b k k' r l e h = subst (λ j. Rests b j r l) e h

-- A loop at its select or in a round does not rest.
busy :
    (l l' : Loop) (a : Lifecycle.At)
    → l.at ≡ a
    → a ≢ nowhere
    → a ≢ at_close
    → IsResting l
    → IsResting l'
busy l l' a e n c (inl q) = absurd (n (sym e ∙ q))
busy l l' a e n c (inr q) = absurd (c (sym e ∙ q))

module _ (y : Lifecycle.Lifecycle) (h : InOrder y) where
  rounds_moved : (r : Loop) → (IsResting y.rounds → IsResting r) → InOrder (record y { rounds = r })
  rounds_moved r f = Rests-map y.running y.first y.rounds r y.lists y.lists f (λ x. x) h

  lists_moved : (l : Loop) → (IsResting y.lists → IsResting l) → InOrder (record y { lists = l })
  lists_moved l f = Rests-map y.running y.first y.rounds y.rounds y.lists l (λ x. x) f h

  with_rounds-InOrder :
      (o : Option Loop)
      → OnSome (λ r. IsResting y.rounds → IsResting r) o
      → OnSome InOrder (with_rounds y o)
  with_rounds-InOrder none f = tt
  with_rounds-InOrder (some r) f = rounds_moved r f

  with_lists-InOrder :
      (o : Option Loop)
      → OnSome (λ l. IsResting y.lists → IsResting l) o
      → OnSome InOrder (with_lists y o)
  with_lists-InOrder none f = tt
  with_lists-InOrder (some l) f = lists_moved l f

  -- The caller is further on.
  call_at : (k : Call) → y.first ≡ k → Rests y.running k y.rounds y.lists
  call_at k e = Rests-subst y.running y.first k y.rounds y.lists e h

finish_rests : (n : ℕ) (l : Loop) → OnSome (λ l'. IsResting l → IsResting l') (finish n l)
unfolding finish close_by
finish_rests n l = elim (Bool-cases (is_closed n l)) [
  | inl shut ↦ rw shut tt
  | inr free ↦ rw free (λ x. inl refl)
]

finish_leftover_rests :
    (m n : ℕ) (l : Loop) → OnSome (λ l'. IsResting l → IsResting l') (finish_leftover m n l)
unfolding finish_leftover close_by
finish_leftover_rests m n l = elim (Bool-cases (is_closed n l)) [
  | inl shut ↦ rw shut tt
  | inr free ↦ rw free (λ x. x)
]

in_stop : (y : Lifecycle.Lifecycle) (k : Call) → y.second ≡ idle → y.second ≡ k → k ≢ idle → ⊥
in_stop y k alone e n = n (sym e ∙ alone)

-- The steps within a call, and those of the loops.
inner-InOrder :
    (y : Lifecycle.Lifecycle) (o : Option Lifecycle.Lifecycle) (s : Lifecycle.Step y o)
    → IsInner y o s
    → y.second ≡ idle
    → InOrder y
    → OnSome InOrder o
inner-InOrder _ _ (Lifecycle.Step.call_run w y e) p a h = absurd p
inner-InOrder _ _ (Lifecycle.Step.call_stop w y e) p a h = absurd p
inner-InOrder _ _ (Lifecycle.Step.send_stop one y e at c) p a h = inr refl
inner-InOrder _ _ (Lifecycle.Step.send_stop two y e at c) p a h = absurd (in_stop y _ a e (λ x. cc))
inner-InOrder _ _ (Lifecycle.Step.send_lb_stop one y e at c) p a h =
    (call_at y h (at_lb_stop y.number) e, inr refl)
inner-InOrder _ _ (Lifecycle.Step.send_lb_stop two y e at c) p a h =
    absurd (in_stop y _ a e (λ x. cc))
inner-InOrder _ _ (Lifecycle.Step.reset one y e) p a h = call_at y h at_reset e
inner-InOrder _ _ (Lifecycle.Step.reset two y e) p a h = absurd (in_stop y _ a e (λ x. cc))
inner-InOrder _ _ (Lifecycle.Step.send_stop_closed w y n e c) p a h = tt
inner-InOrder _ _ (Lifecycle.Step.send_lb_stop_closed w y n e c) p a h = tt
inner-InOrder _ _ (Lifecycle.Step.receive_closed y at c) p a h = rounds_moved y h _ (λ x. inr refl)
inner-InOrder _ _ (Lifecycle.Step.receive_lb_closed y at c) p a h =
    lists_moved y h _ (λ x. inr refl)
inner-InOrder _ _ (Lifecycle.Step.close_stop y at) p a h =
    with_rounds-InOrder y h _ (finish_rests y.number y.rounds)
inner-InOrder _ _ (Lifecycle.Step.close_lb_stop y at) p a h =
    with_lists-InOrder y h _ (finish_rests y.number y.lists)
inner-InOrder _ _ (Lifecycle.Step.close_leftover y m e) p a h =
    with_rounds-InOrder y h _ (finish_leftover_rests m y.number y.rounds)
inner-InOrder _ _ (Lifecycle.Step.close_lb_leftover y m e) p a h =
    with_lists-InOrder y h _ (finish_leftover_rests m y.number y.lists)
inner-InOrder _ _ (Lifecycle.Step.work y at) p a h =
    rounds_moved y h _ (busy y.rounds (moved at_work y.rounds) at_select at (λ x. cc) (λ x. cc))
inner-InOrder _ _ (Lifecycle.Step.rest y at) p a h =
    rounds_moved y h _ (busy y.rounds (moved at_select y.rounds) at_work at (λ x. cc) (λ x. cc))
inner-InOrder _ _ (Lifecycle.Step.lb_work y at) p a h =
    lists_moved y h _ (busy y.lists (moved at_work y.lists) at_select at (λ x. cc) (λ x. cc))
inner-InOrder _ _ (Lifecycle.Step.lb_rest y at) p a h =
    lists_moved y h _ (busy y.lists (moved at_select y.lists) at_work at (λ x. cc) (λ x. cc))

run-InOrder : (y : Lifecycle.Lifecycle) → y.first ≡ idle → InOrder y → InOrder (run y)
unfolding run
run-InOrder y e h =
    if_elim InOrder y.running y _ (λ on. h) (λ off. Rests-subst true idle _ _ _ (sym e) tt)

stop-InOrder : (y : Lifecycle.Lifecycle) → InOrder y → InOrder (stop one y)
unfolding stop
stop-InOrder y h = if_elim InOrder y.running _ y (λ on. tt) (λ off. h)

Step-InOrder : (p q : Process) → Step p q → Good p → InOrder p.dns → InOrder q.dns
Step-InOrder _ _ (Step.elected p e) g h = h
Step-InOrder _ _ (Step.runs_etcd p e f q) g h = h
Step-InOrder _ _ (Step.runs_dns p e f) g h = run-InOrder p.dns f h
Step-InOrder _ _ (Step.deposed p now e) g h = h
Step-InOrder _ _ (Step.stops_dns p e f) g h = stop-InOrder p.dns h
Step-InOrder _ _ (Step.stops_etcd p e f k) g h = h
Step-InOrder _ _ (Step.stopped p e f) g h = h
Step-InOrder _ _ (Step.dns_moves p z s i) g h =
    inner-InOrder p.dns (some z) s i (alone_of p.pc p.health.is_leading p.etcd p.dns g).1 h
Step-InOrder _ _ (Step.etcd_moves p z s i) g h = h

Steps-InOrder : (p : Process) → Steps initial p → InOrder p.dns
Steps-InOrder _ (Steps.here p) = (inl refl, inl refl)
Steps-InOrder _ (Steps.then_step p q r steps s) =
    Step-InOrder q r s (Steps-Good p q steps initial-Good) (Steps-InOrder q steps)

-- Where a process that is not the leader does not stop its DNS controller, it does not run.
follower_idle :
    (pc : Pc) (b : Bool) (e : EtcdLifecycle.Lifecycle) (d : Lifecycle.Lifecycle)
    → InPlace pc b e d
    → b ≡ false
    → pc ≢ stop_dns
    → pc ≢ in_dns_stop
    → IsOut false d
follower_idle receiving b e d (x, o) l m n = (o.0, o.1, o.2 ∙ l)
follower_idle run_etcd b e d (t, x, f) l m n = cc
follower_idle run_dns b e d (t, x, f) l m n = cc
follower_idle stop_dns b e d h l m n = absurd (m refl)
follower_idle in_dns_stop b e d h l m n = absurd (n refl)
follower_idle in_etcd_stop b e d (t, x, o) l m n = o

-- In an election by raft, in whatever order the goroutine of the leader channel and the loops of the
-- controllers take turns, as long as nothing panics and the etcd controller is not run while a
-- goroutine of an earlier call is left: while the process is not the leader, and dnsCtrl.Stop() has
-- returned, both loops of the DNS controller are behind their stop or gone, so that no round begins or
-- is going on.
pub follower_rests :
    (p : Process)
    → Steps initial p
    → p.health.is_leading ≡ false
    → p.pc ≢ stop_dns
    → p.pc ≢ in_dns_stop
    → IsResting p.dns.rounds × IsResting p.dns.lists
follower_rests p steps l m n =
    let (_, e, off) =
      follower_idle p.pc p.health.is_leading p.etcd p.dns (Steps-Good initial p steps initial-Good)
        l m n in
    subst (λ b. Rests b idle p.dns.rounds p.dns.lists) off
      (call_at p.dns (Steps-InOrder p steps) idle e)
