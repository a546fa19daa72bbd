-- ===== src/DnsController/Lifecycle/Races.antt =====
-- Run and Stop of dnsController.go when a second call comes too early.
use dnslb.Base.{ℕ, suc, true, false, Option, none, some, ◌∷◌, ◌≡◌, refl, sym, ==_refl}
use mathlib.Core.Path.{subst}
use dnslb.DnsController.Lifecycle.{
  idle, at_stop, at_lb_stop, at_reset, at_select, at_close, Loop, Lifecycle, Who, one, two, call_of,
  set_call, is_closed, respawn, run, stop, close_by, finish, finish_leftover, with_rounds, Step,
  Steps, gone, moved, fewer,
}
use dnslb.DnsController.Lifecycle.Invariant.{if_true, if_false}

-- The controller runs: both loops are at their select, with open stop channels, and nobody is in Stop.
pub record IsRunning (y : Lifecycle) : Type 0 where
  pub on : y.running ≡ true
  pub rounds_at : y.rounds.at ≡ at_select
  pub rounds_open : is_closed y.number y.rounds ≡ false
  pub lists_at : y.lists.at ≡ at_select
  pub lists_open : is_closed y.number y.lists ≡ false
  pub first_idle : y.first ≡ idle
  pub second_idle : y.second ≡ idle
  -- The channel that the next Run makes is not closed.
  pub fresh : is_closed (suc y.number) y.rounds ≡ false

-- A step that calls no Run, and a step in which only the first goroutine calls.
abbrev pub IsNoRun : (y : Lifecycle) (o : Option Lifecycle) → Step y o → Type 0
IsNoRun _ _ (Step.call_run w y e) = ⊥
IsNoRun _ _ _ = Unit

abbrev pub IsSolo : (y : Lifecycle) (o : Option Lifecycle) → Step y o → Type 0
IsSolo _ _ (Step.call_run w y e) = w ≡ one
IsSolo _ _ (Step.call_stop w y e) = w ≡ one
IsSolo _ _ _ = Unit

module _ (P : (y : Lifecycle) (o : Option Lifecycle) → Step y o → Type 0) where
  next_stop :
      (w : Who) (y : Lifecycle) (z : Option Lifecycle) (e : call_of w y ≡ idle)
      → y.running ≡ true
      → P _ _ (Step.call_stop w y e)
      → Steps P (some (set_call w (at_stop y.number) y)) z
      → Steps P (some y) z
  unfolding stop
  next_stop w y z e on q more = Steps.next y _ z (Step.call_stop w y e) q (
      subst (λ x. Steps P (some x) z)
        (sym (if_true y.running (set_call w (at_stop y.number) y) y on)) more)

  next_close_stop :
      (y : Lifecycle) (o : Option Loop) (z : Option Lifecycle) (e : y.rounds.at ≡ at_close)
      → finish y.number y.rounds ≡ o
      → P _ _ (Step.close_stop y e)
      → Steps P (with_rounds y o) z
      → Steps P (some y) z
  next_close_stop y o z e fin q more =
      Steps.next y _ z (Step.close_stop y e) q
        (subst (λ x. Steps P (with_rounds y x) z) (sym fin) more)

  next_close_leftover :
      (y : Lifecycle) (m : ℕ) (o : Option Loop) (z : Option Lifecycle)
      (e : y.rounds.leftovers ≡ suc m)
      → finish_leftover m y.number y.rounds ≡ o
      → P _ _ (Step.close_leftover y m e)
      → Steps P (with_rounds y o) z
      → Steps P (some y) z
  next_close_leftover y m o z e fin q more =
      Steps.next y _ z (Step.close_leftover y m e) q
        (subst (λ x. Steps P (with_rounds y x) z) (sym fin) more)

-- The state after Run, when nothing runs.
abbrev restarted : Lifecycle → Lifecycle
restarted y = record y {
  running = true;
  number = suc y.number;
  rounds = respawn y.rounds;
  lists = respawn y.lists;
}

next_run :
    (y : Lifecycle) (z : Option Lifecycle)
    → y.first ≡ idle
    → y.running ≡ false
    → Steps IsSolo (some (restarted y)) z
    → Steps IsSolo (some y) z
unfolding run
next_run y z e off more =
    Steps.next y _ z (Step.call_run one y e) refl
      (subst (λ x. Steps IsSolo (some x) z) (sym (if_false y.running y (restarted y) off)) more)

closed_now : (n : ℕ) (l : Loop) → is_closed n (record l { closed = n ∷ l.closed }) ≡ true
closed_now n l = rw (==_refl n)

finish_open :
    (n : ℕ) (l : Loop)
    → is_closed n l ≡ false
    → finish n l ≡ some (gone (record l { closed = n ∷ l.closed }))
unfolding finish close_by
finish_open n l free = rw free

finish_closed : (n : ℕ) (l : Loop) → is_closed n l ≡ true → finish n l ≡ none
unfolding finish close_by
finish_closed n l shut = rw shut

finish_leftover_open :
    (m n : ℕ) (l : Loop)
    → is_closed n l ≡ false
    → finish_leftover m n l ≡ some (fewer m (record l { closed = n ∷ l.closed }))
unfolding finish_leftover close_by
finish_leftover_open m n l free = rw free

module _ (y : Lifecycle) (h : IsRunning y) where
  abbrev n : ℕ
  n = y.number

  -- Both goroutines are past the guard of Stop, and the loop has taken the send of the first.
  abbrev both : Lifecycle
  both = record y { first = at_stop n; second = at_stop n }

  abbrev sent : Lifecycle
  sent = record both { rounds = moved at_close y.rounds; first = at_lb_stop n }

  abbrev shut : Lifecycle
  shut = record sent { rounds = gone (record y.rounds { closed = n ∷ y.rounds.closed }) }

  -- From a running controller with both loops at their select, two calls of Stop can end in a panic:
  -- both pass the guard, the loop takes the send of one and closes the channel, and the send of the
  -- other is on a closed channel. No Run is called.
  pub two_stops_panic : Steps IsNoRun (some y) none
  two_stops_panic = next_stop IsNoRun one y none h.first_idle h.on tt (
      next_stop IsNoRun two (record y { first = at_stop n }) none h.second_idle h.on tt
        (Steps.next both _ none (Step.send_stop one both refl h.rounds_at h.rounds_open) tt (
          next_close_stop IsNoRun sent _ none refl (finish_open n sent.rounds h.rounds_open) tt (
            Steps.next shut none none
              (Step.send_stop_closed two shut n refl (closed_now n y.rounds)) tt
              (Steps.done none)))))

  -- The state after Stop, with both loops before their close.
  abbrev stopped : Lifecycle
  stopped = record y {
    running = false;
    rounds = moved at_close y.rounds;
    lists = moved at_close y.lists;
    first = idle;
  }

  stop_one : (o : Option Lifecycle) → Steps IsSolo (some stopped) o → Steps IsSolo (some y) o
  stop_one o more =
      let y₁ : Lifecycle = record y { first = at_stop n } in
      let y₂ : Lifecycle = record y { first = at_lb_stop n; rounds = moved at_close y.rounds } in
      let y₃ : Lifecycle = record y {
        first = at_reset;
        rounds = moved at_close y.rounds;
        lists = moved at_close y.lists;
      } in
      next_stop IsSolo one y o h.first_idle h.on refl (
        Steps.next y₁ _ o (Step.send_stop one y₁ refl h.rounds_at h.rounds_open) tt (
          Steps.next y₂ _ o (Step.send_lb_stop one y₂ refl h.lists_at h.lists_open) tt
            (Steps.next y₃ _ o (Step.reset one y₃ refl) tt more)))

  abbrev again : Lifecycle
  again = restarted stopped

  -- The loop that was left over closes the channel of the new one.
  abbrev crossed : Lifecycle
  crossed = record again {
    rounds = fewer y.rounds.leftovers (record again.rounds { closed = suc n ∷ y.rounds.closed });
  }

  crossed-closed : is_closed (suc n) crossed.rounds ≡ true
  crossed-closed = closed_now (suc n) y.rounds

  -- The new loop receives from the closed channel, and closes it again.
  abbrev woken : Lifecycle
  woken = record crossed { rounds = moved at_close crossed.rounds }

  -- One goroutine alone calls Stop and then Run, and that can end in a panic too: Run comes before the
  -- loop, which has taken the send of Stop, has closed its channel, so that the loop closes the channel
  -- that Run has made; the new loop receives from it at once, and closes it again.
  pub early_run_panics : Steps IsSolo (some y) none
  early_run_panics = stop_one none (
      next_run stopped none refl refl (
        next_close_leftover IsSolo again y.rounds.leftovers _ none refl
          (finish_leftover_open y.rounds.leftovers (suc n) again.rounds h.fresh) tt
          (Steps.next crossed _ none (Step.receive_closed crossed refl crossed-closed) tt (
            next_close_stop IsSolo woken none none refl
              (finish_closed (suc n) woken.rounds crossed-closed) tt (Steps.done none)))))
