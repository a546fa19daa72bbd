-- ===== src/DnsController/Lifecycle/Moves.antt =====
-- The invariant of Run and Stop under the moves of the loops.
use dnslb.Base.{ℕ, Bool, true, false, ◌≡◌, ◌≢◌, ◌⊎◌, inl, inr}
use dnslb.DnsController.Lifecycle.{
  Call, idle, at_stop, at_lb_stop, at_reset, nowhere, at_select, at_work, at_close, Loop, Lifecycle,
  is_closed,
}
use dnslb.DnsController.Lifecycle.Invariant.{IsAlive, IsEnding, InPhase, IsTidy, IsOrdered}

phase_map :
    (b : Bool) (k : Call) (n : ℕ) (r r' l l' : Loop)
    → (IsAlive n r → IsAlive n r')
    → (IsEnding n r → IsEnding n r')
    → (IsAlive n l → IsAlive n l')
    → (IsEnding n l → IsEnding n l')
    → InPhase b k n r l
    → InPhase b k n r' l'
phase_map true idle n r r' l l' ar er al el h = (ar h.0, al h.1)
phase_map false idle n r r' l l' ar er al el h = (er h.0, el h.1)
phase_map b (at_stop m) n r r' l l' ar er al el h =
    let (on, same, x, z) = h in (on, same, ar x, al z)
phase_map b (at_lb_stop m) n r r' l l' ar er al el h =
    let (on, same, x, z) = h in (on, same, er x, al z)
phase_map b at_reset n r r' l l' ar er al el h = let (on, x, z) = h in (on, er x, el z)

-- A loop that can be stopped is not at its close, and one that ends is.
pub not_at_close : (n : ℕ) (l l' : Loop) → l.at ≡ at_close → IsAlive n l → IsAlive n l'
not_at_close n l l' e h = elim h.1 [ inl q ↦ cc | inr q ↦ cc ]

pub not-IsEnding :
    (n : ℕ) (l l' : Loop) → (l.at ≡ at_select) ⊎ (l.at ≡ at_work) → IsEnding n l → IsEnding n l'
not-IsEnding n l l' (inl e) h = elim h [ inl q ↦ cc | inr q ↦ cc ]
not-IsEnding n l l' (inr e) h = elim h [ inl q ↦ cc | inr q ↦ cc ]

module _ (y : Lifecycle) (h : IsOrdered y) where
  -- A loop moves, and what it is to its caller stays the same.
  pub rounds-Good :
      (r : Loop)
      → IsTidy y.number r
      → (IsAlive y.number y.rounds → IsAlive y.number r)
      → (IsEnding y.number y.rounds → IsEnding y.number r)
      → IsOrdered (record y { rounds = r })
  rounds-Good r tidy alive ending = record {
    alone = h.alone;
    rounds_tidy = tidy;
    lists_tidy = h.lists_tidy;
    phase =
        phase_map y.running y.first y.number y.rounds r y.lists y.lists alive ending (λ x. x)
          (λ x. x) h.phase;
  }

  pub lists-Good :
      (l : Loop)
      → IsTidy y.number l
      → (IsAlive y.number y.lists → IsAlive y.number l)
      → (IsEnding y.number y.lists → IsEnding y.number l)
      → IsOrdered (record y { lists = l })
  lists-Good l tidy alive ending = record {
    alone = h.alone;
    rounds_tidy = h.rounds_tidy;
    lists_tidy = tidy;
    phase =
        phase_map y.running y.first y.number y.rounds y.rounds y.lists l (λ x. x) (λ x. x) alive
          ending h.phase;
  }

  -- At its select or in its body a loop can be stopped.
  InPhase-IsAlive :
      (b : Bool) (k : Call) (n : ℕ) (r l : Loop)
      → InPhase b k n r l
      → (IsAlive n r ⊎ IsEnding n r) × (IsAlive n l ⊎ IsEnding n l)
  InPhase-IsAlive true idle n r l p = (inl p.0, inl p.1)
  InPhase-IsAlive false idle n r l p = (inr p.0, inr p.1)
  InPhase-IsAlive b (at_stop m) n r l p = let (_, _, x, z) = p in (inl x, inl z)
  InPhase-IsAlive b (at_lb_stop m) n r l p = let (_, _, x, z) = p in (inr x, inl z)
  InPhase-IsAlive b at_reset n r l p = let (_, x, z) = p in (inr x, inr z)

  loop-open :
      (n : ℕ) (l : Loop) → IsAlive n l ⊎ IsEnding n l → l.at ≢ nowhere → is_closed n l ≡ false
  loop-open n l (inl a) q = a.0
  loop-open n l (inr (inl e)) q = absurd (q e)
  loop-open n l (inr (inr e)) q = e.1

  -- While a loop has not returned its channel is open.
  pub rounds_open : y.rounds.at ≢ nowhere → is_closed y.number y.rounds ≡ false
  rounds_open =
      loop-open y.number y.rounds
        (InPhase-IsAlive y.running y.first y.number y.rounds y.lists h.phase).0

  pub lists_open : y.lists.at ≢ nowhere → is_closed y.number y.lists ≡ false
  lists_open =
      loop-open y.number y.lists
        (InPhase-IsAlive y.running y.first y.number y.rounds y.lists h.phase).1
