-- ===== src/Go/Strings/Pieces.antt =====
-- Split against Join, at separators of one byte.
use dnslb.Base.{
  ℕ, zero, suc, false, List, [], ◌∷◌, ◌++◌, Str, ◌==◌, ◌≡◌, ◌≢◌, refl, ap, ◌∙◌, sym, arith, All,
  Bool-cases, inl, inr, ==_iff,
}
use dnslb.Go.Strings.{has_prefix, contains, cons_first, split_from, split, join}
use dnslb.Go.Strings.Laws.{Free, split-append, split_whole, contains-Free}

pub split-join :
    (c : ℕ) (p : Str) (ps : List Str)
    → All (Free c) (p ∷ ps)
    → split (join (p ∷ ps) (c ∷ [])) (c ∷ []) ≡ p ∷ ps
unfolding join
split-join c p [] h = split_whole p (c ∷ []) (contains-Free c [] p h.0)
split-join c p (q ∷ ps) h =
    split-append c [] p (join (q ∷ ps) (c ∷ [])) h.0 ∙ ap (◌∷◌ p) (split-join c q ps h.1)

-- A separator is also absent where its second byte is.
pub contains-Free_second : (c d : ℕ) (r s : Str) → Free d s → contains s (c ∷ d ∷ r) ≡ false
unfolding contains has_prefix
contains-Free_second c d r [] h = refl
contains-Free_second c d r (x ∷ []) h = ground arith
contains-Free_second c d r (x ∷ y ∷ s) h = ground (arith, contains-Free_second c d r (y ∷ s) h.1)

join-cons_first :
    (x : ℕ) (sep : Str) (l : List Str) → l ≢ [] → join (cons_first x l) sep ≡ x ∷ join l sep
unfolding join
join-cons_first x sep [] h = absurd (h refl)
join-cons_first x sep (p ∷ []) h = refl
join-cons_first x sep (p ∷ q ∷ l) h = refl

join-empty_first : (sep : Str) (l : List Str) → l ≢ [] → join ([] ∷ l) sep ≡ sep ++ join l sep
unfolding join
join-empty_first sep [] h = absurd (h refl)
join-empty_first sep (p ∷ l) h = refl

split_from-ne_nil : (sep : Str) (skip : ℕ) (s : Str) → split_from sep skip s ≢ []
unfolding split_from
split_from-ne_nil sep skip [] = λ e. cc
split_from-ne_nil sep (suc skip) (x ∷ s) = split_from-ne_nil sep skip s
split_from-ne_nil sep zero (x ∷ s) = elim (Bool-cases (has_prefix (x ∷ s) sep)) [
  | inl found ↦ rw found (λ e. cc)
  | inr next ↦ rw next (cons_first-ne_nil (split_from sep zero s))
]
  where
    cons_first-ne_nil : (l : List Str) → cons_first x l ≢ []
    cons_first-ne_nil [] e = cc
    cons_first-ne_nil (p ∷ l) e = cc

join-split_from : (c : ℕ) (s : Str) → join (split_from (c ∷ []) zero s) (c ∷ []) ≡ s
unfolding split_from has_prefix
join-split_from c [] = unfold join in refl
join-split_from c (x ∷ s) = elim (Bool-cases (x == c)) [
  | inl same ↦
      rw
        (same, join-empty_first (c ∷ []) _ (split_from-ne_nil (c ∷ []) zero s), join-split_from c s)
        (ap (λ (y : ℕ). y ∷ s) (sym ((==_iff x c).0 same)))
  | inr other ↦
      rw (other, join-cons_first x (c ∷ []) _ (split_from-ne_nil (c ∷ []) zero s))
        (ap (◌∷◌ x) (join-split_from c s))
]

pub join-split : (c : ℕ) (s : Str) → join (split s (c ∷ [])) (c ∷ []) ≡ s
unfolding split
join-split = join-split_from
