-- ===== src/Go/Strings/Laws.antt =====
-- The functions of package strings against concatenation.
use dnslb.Base.{
  ℕ, zero, suc, ◌+◌, ◌-◌, true, false, List, [], ◌∷◌, ◌++◌, Str, length, ◌==◌, ◌≡◌, ◌≢◌, refl,
  arith, All, Bool-cases, inl, inr, length-append, take-append, drop-append, str_eq_refl, le→leb,
}
use dnslb.Go.Strings.{has_prefix, contains, has_suffix, trim_suffix, cons_first, split_from, split}

-- The byte does not occur.
abbrev pub Free : ℕ → Str → Type 0
Free c s = All (λ x. x ≢ c) s

pub Free-append : (c : ℕ) (s t : Str) → Free c s → Free c t → Free c (s ++ t)
Free-append c [] t hs ht = ht
Free-append c (x ∷ s) t hs ht = (hs.0, Free-append c s t hs.1 ht)

pub has_prefix-append : (p s : Str) → has_prefix (p ++ s) p ≡ true
unfolding has_prefix
has_prefix-append [] s = refl
has_prefix-append (x ∷ p) s = ground (arith, has_prefix-append p s)

pub contains-append : (a b c : Str) → contains (a ++ (b ++ c)) b ≡ true
unfolding contains
contains-append [] b c = contains_head (b ++ c) b (has_prefix-append b c)
  where
    contains_head : (s t : Str) → has_prefix s t ≡ true → contains s t ≡ true
    contains_head [] t h = h
    contains_head (x ∷ s) t h = rw h
contains-append (x ∷ a) b c = ground (arith, contains-append a b c)

pub has_suffix-append : (a b : Str) → has_suffix (a ++ b) b ≡ true
unfolding has_suffix
has_suffix-append a b = rw (
  length-append a b,
  le→leb (length b) (length a + length b) (omega arith),
  (let e : length a + length b - length b ≡ length a = omega arith in e),
  drop-append a b,
  str_eq_refl b,
)

pub trim_suffix-append : (a b : Str) → trim_suffix (a ++ b) b ≡ a
unfolding trim_suffix
trim_suffix-append a b = rw (
  has_suffix-append a b,
  length-append a b,
  (let e : length a + length b - length b ≡ length a = omega arith in e),
  take-append a b,
)

pub trim_suffix_other : (s t : Str) → has_suffix s t ≡ false → trim_suffix s t ≡ s
unfolding trim_suffix
trim_suffix_other s t h = rw h

-- A prefix begins with the prefix's first byte.
has_prefix-Free : (c : ℕ) (r s : Str) (x : ℕ) → x ≢ c → has_prefix (x ∷ s) (c ∷ r) ≡ false
unfolding has_prefix
has_prefix-Free c r s x h = ground arith

split_from-skip : (sep p s : Str) → split_from sep (length p) (p ++ s) ≡ split_from sep zero s
unfolding split_from
split_from-skip sep [] s = refl
split_from-skip sep (x ∷ p) [] = split_from-skip sep p []
split_from-skip sep (x ∷ p) (y ∷ s) = split_from-skip sep p (y ∷ s)

-- Up to the first separator there is one piece, if the separator's first byte is not in it.
split_from-append :
    (c : ℕ) (r a b : Str)
    → Free c a
    → split_from (c ∷ r) zero (a ++ ((c ∷ r) ++ b)) ≡ a ∷ split_from (c ∷ r) zero b
unfolding split_from
split_from-append c r [] b h =
    rw (has_prefix-append (c ∷ r) b, (let e : suc (length r) - 1 ≡ length r = omega arith in e))
      (rw (split_from-skip (c ∷ r) r b))
split_from-append c r (x ∷ a) b h =
    rw (has_prefix-Free c r (a ++ ((c ∷ r) ++ b)) x h.0, split_from-append c r a b h.1)

pub split-append :
    (c : ℕ) (r a b : Str) → Free c a → split (a ++ ((c ∷ r) ++ b)) (c ∷ r) ≡ a ∷ split b (c ∷ r)
unfolding split
split-append = split_from-append

split_from_whole : (s sep : Str) → contains s sep ≡ false → split_from sep zero s ≡ s ∷ []
unfolding split_from contains
split_from_whole [] sep h = refl
split_from_whole (x ∷ s) sep h = ground (arith, split_from_whole s sep)

-- A text without the separator is one piece.
pub split_whole : (s sep : Str) → contains s sep ≡ false → split s sep ≡ s ∷ []
unfolding split
split_whole = split_from_whole

pub contains-Free : (c : ℕ) (r s : Str) → Free c s → contains s (c ∷ r) ≡ false
unfolding contains has_prefix
contains-Free c r [] h = refl
contains-Free c r (x ∷ s) h = ground (arith, contains-Free c r s h.1)

-- The pieces hold no byte of a separator that is one byte.
split_from-Free : (c skip : ℕ) (s : Str) → All (Free c) (split_from (c ∷ []) skip s)
unfolding split_from has_prefix
split_from-Free c skip [] = (tt, tt)
split_from-Free c (suc skip) (x ∷ s) = split_from-Free c skip s
split_from-Free c zero (x ∷ s) = elim (Bool-cases (x == c)) [
  | inl e ↦ rw e (tt, split_from-Free c 0 s)
  | inr e ↦ rw e (first (split_from (c ∷ []) zero s) (ground arith) (split_from-Free c zero s))
]
  where
    first : (l : List Str) → x ≢ c → All (Free c) l → All (Free c) (cons_first x l)
    first [] n h = ((n, tt), tt)
    first (p ∷ ps) n h = ((n, h.0), h.1)

pub split-Free : (c : ℕ) (s : Str) → All (Free c) (split s (c ∷ []))
unfolding split
split-Free c s = split_from-Free c 0 s
