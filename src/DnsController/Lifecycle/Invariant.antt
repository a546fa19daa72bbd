-- ===== src/DnsController/Lifecycle/Invariant.antt =====
-- Run and Stop of dnsController.go when one goroutine calls them, and Run only once the loops of the
-- last Run have returned: the invariant, and what the calls do to it.
use dnslb.Base.{
  ℕ, suc, ◌≤◌, Bool, true, false, Option, none, some, List, [], ◌∷◌, any, ◌==◌, All, if◌then◌else◌,
  ◌≡◌, ◌≢◌, ◌⊎◌, inl, inr, refl, sym, ◌∙◌, ap, arith, Bool-cases,
}
use mathlib.Core.Path.{subst}
use dnslb.DnsController.Lifecycle.{
  Call, idle, at_stop, at_lb_stop, at_reset, nowhere, at_select, at_work, at_close, Loop, Lifecycle,
  one, set_call, is_closed, respawn, run, stop, close_by, finish, Step, gone, moved,
}

-- A step of one caller, and no Run before the loops of the last one have returned.
abbrev pub IsOrderly : {y : Lifecycle} {o : Option Lifecycle} → Step y o → Type 0
IsOrderly (Step.call_run w y e) =
    (w ≡ one) × ((y.running ≡ true) ⊎ ((y.rounds.at ≡ nowhere) × (y.lists.at ≡ nowhere)))
IsOrderly (Step.call_stop w y e) = w ≡ one
IsOrderly _ = Unit

pub data OrderlySteps : Lifecycle → Option Lifecycle → Type 0 where
  here : (y : Lifecycle) → OrderlySteps y (some y)
  then_step :
      (x y : Lifecycle) (o : Option Lifecycle)
      → OrderlySteps x (some y)
      → (s : Step y o) → IsOrderly s
      → OrderlySteps x o

-- The loop can be stopped.
abbrev pub IsAlive : ℕ → Loop → Type 0
IsAlive n l = (is_closed n l ≡ false) × ((l.at ≡ at_select) ⊎ (l.at ≡ at_work))

-- The loop does nothing any more but close its channel.
abbrev pub IsEnding : ℕ → Loop → Type 0
IsEnding n l = (l.at ≡ nowhere) ⊎ ((l.at ≡ at_close) × (is_closed n l ≡ false))

-- Where the loops are, by where the caller is.
abbrev pub InPhase : Bool → Call → ℕ → Loop → Loop → Type 0
InPhase true idle n rounds lists = IsAlive n rounds × IsAlive n lists
InPhase false idle n rounds lists = IsEnding n rounds × IsEnding n lists
InPhase running (at_stop m) n rounds lists =
    (running ≡ true) × (m ≡ n) × IsAlive n rounds × IsAlive n lists
InPhase running (at_lb_stop m) n rounds lists =
    (running ≡ true) × (m ≡ n) × IsEnding n rounds × IsAlive n lists
InPhase running at_reset n rounds lists = (running ≡ true) × IsEnding n rounds × IsEnding n lists

-- No goroutine is left over, and no channel is closed that has not been made.
abbrev pub IsTidy : ℕ → Loop → Type 0
IsTidy n l = (l.leftovers ≡ 0) × All (λ m. m ≤ n) l.closed

pub record IsOrdered (y : Lifecycle) : Type 0 where
  pub alone : y.second ≡ idle
  pub rounds_tidy : IsTidy y.number y.rounds
  pub lists_tidy : IsTidy y.number y.lists
  pub phase : InPhase y.running y.first y.number y.rounds y.lists

abbrev pub Good : Option Lifecycle → Type 0
Good none = ⊥
Good (some y) = IsOrdered y

closed_next : (n : ℕ) (l : List ℕ) → All (λ m. m ≤ n) l → any (λ m. m == suc n) l ≡ false
closed_next n [] h = refl
closed_next n (m ∷ l) h = ground (arith, closed_next n l h.1)

tidy_next : (n : ℕ) (l : List ℕ) → All (λ m. m ≤ n) l → All (λ m. m ≤ suc n) l
tidy_next n [] h = tt
tidy_next n (m ∷ l) h = (omega (arith, h.0), tidy_next n l h.1)

-- A loop that ends closes its channel, which is open.
pub finish-gone :
    (n : ℕ) (l : Loop)
    → IsTidy n l
    → is_closed n l ≡ false
    → (l' : Loop) × (finish n l ≡ some l') × (l'.at ≡ nowhere) × IsTidy n l'
unfolding finish close_by
finish-gone n l tidy h =
    (gone (record l { closed = n ∷ l.closed }), rw h, refl, (tidy.0, (omega arith, tidy.1)))

respawn-IsAlive :
    (n : ℕ) (l : Loop)
    → IsTidy n l
    → l.at ≡ nowhere
    → IsAlive (suc n) (respawn l) × IsTidy (suc n) (respawn l)
respawn-IsAlive n l tidy e =
    ((closed_next n l.closed tidy.1, inl refl), (rw e tidy.0, tidy_next n l.closed tidy.1))

pub if_true : {A : Type 0} (b : Bool) (x y : A) → b ≡ true → (if b then x else y) ≡ x
if_true true x y e = refl
if_true false x y e = cc

pub if_false : {A : Type 0} (b : Bool) (x y : A) → b ≡ false → (if b then x else y) ≡ y
if_false true x y e = cc
if_false false x y e = refl

-- The phase, at the values of the flag and of the caller.
pub phase_at :
    (b b' : Bool) (k k' : Call) (n : ℕ) (r l : Loop)
    → b ≡ b'
    → k ≡ k'
    → InPhase b k n r l
    → InPhase b' k' n r l
phase_at b b' k k' n r l eb ek h =
    subst (λ c. InPhase c k' n r l) eb (subst (λ j. InPhase b j n r l) ek h)

module _ (y : Lifecycle) (h : IsOrdered y) where
  abbrev Phase : Bool → Call → Type 0
  Phase b k = InPhase b k y.number y.rounds y.lists

  pub phase : (b : Bool) (k : Call) → y.running ≡ b → y.first ≡ k → Phase b k
  phase b k eb ek = phase_at y.running b y.first k y.number y.rounds y.lists eb ek h.phase

  -- A caller in Stop behind its guard has the flag set.
  in_stop : (k : Call) → y.first ≡ k → k ≢ idle → y.running ≡ true
  in_stop k e other = go y.running y.first h.phase (λ q. other (sym e ∙ q))
    where
      go : (b : Bool) (c : Call) → InPhase b c y.number y.rounds y.lists → c ≢ idle → b ≡ true
      go true c p q = refl
      go false idle p q = absurd (q refl)
      go false (at_stop m) p q = p.0
      go false (at_lb_stop m) p q = p.0
      go false at_reset p q = p.0

  pub run-Good :
      y.first ≡ idle
      → (y.running ≡ true) ⊎ ((y.rounds.at ≡ nowhere) × (y.lists.at ≡ nowhere))
      → IsOrdered (run y)
  unfolding run
  run-Good e k = elim (Bool-cases y.running) [
    | inl on ↦ subst IsOrdered (sym (if_true y.running y _ on)) h
    | inr off ↦ elim k [
      | inl on ↦ cc
      | inr (rounds, lists) ↦
          let (alive, tidy) = respawn-IsAlive y.number y.rounds h.rounds_tidy rounds in
          let (alive', tidy') = respawn-IsAlive y.number y.lists h.lists_tidy lists in
          subst IsOrdered (sym (if_false y.running y _ off)) (record {
            alone = h.alone;
            rounds_tidy = tidy;
            lists_tidy = tidy';
            phase = phase_at true true idle y.first _ _ _ refl (sym e) (alive, alive');
          })
    ]
  ]

  pub stop-Good : y.first ≡ idle → IsOrdered (stop one y)
  unfolding stop
  stop-Good e = elim (Bool-cases y.running) [
    | inl on ↦ subst IsOrdered (sym (if_true y.running _ y on)) (record {
      alone = h.alone;
      rounds_tidy = h.rounds_tidy;
      lists_tidy = h.lists_tidy;
      phase = let (rounds, lists) = phase true idle on e in (on, refl, rounds, lists);
    })
    | inr off ↦ subst IsOrdered (sym (if_false y.running _ y off)) h
  ]

  pub send_stop-Good :
      y.first ≡ at_stop y.number
      → is_closed y.number y.rounds ≡ false
      → IsOrdered
          (set_call one (at_lb_stop y.number) (record y { rounds = moved at_close y.rounds }))
  send_stop-Good e free = record {
    alone = h.alone;
    rounds_tidy = h.rounds_tidy;
    lists_tidy = h.lists_tidy;
    phase =
        let (on, _, _, alive) = phase y.running (at_stop y.number) refl e in
        (on, refl, inr (refl, free), alive);
  }

  pub send_lb_stop-Good :
      y.first ≡ at_lb_stop y.number
      → is_closed y.number y.lists ≡ false
      → IsOrdered (set_call one at_reset (record y { lists = moved at_close y.lists }))
  send_lb_stop-Good e free = record {
    alone = h.alone;
    rounds_tidy = h.rounds_tidy;
    lists_tidy = h.lists_tidy;
    phase =
        let (on, _, ending, _) = phase y.running (at_lb_stop y.number) refl e in
        (on, ending, inr (refl, free));
  }

  pub reset-Good : y.first ≡ at_reset → IsOrdered (set_call one idle (record y { running = false }))
  reset-Good e = record {
    alone = h.alone;
    rounds_tidy = h.rounds_tidy;
    lists_tidy = h.lists_tidy;
    phase = let (_, ending, ending') = phase y.running at_reset refl e in (ending, ending');
  }

  -- Nobody sends on a closed channel.
  pub send_stop-open : (n : ℕ) → y.first ≡ at_stop n → is_closed n y.rounds ≡ false
  send_stop-open n e =
      let (_, same, (free, _), _) = phase y.running (at_stop n) refl e in
      ap (λ m. is_closed m y.rounds) same ∙ free

  pub send_lb_stop-open : (n : ℕ) → y.first ≡ at_lb_stop n → is_closed n y.lists ≡ false
  send_lb_stop-open n e =
      let (_, same, _, (free, _)) = phase y.running (at_lb_stop n) refl e in
      ap (λ m. is_closed m y.lists) same ∙ free
