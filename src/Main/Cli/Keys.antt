-- ===== src/Main/Cli/Keys.antt =====
-- The keys of the settings of parseCli: which keys package viper takes for the same.
use dnslb.Base.{
  Bool, true, false, not, ◌&&◌, Option, none, some, List, [], ◌∷◌, map, Str, Dict, if◌then◌else◌,
  ◌≡◌, refl, sym, ◌∙◌, ap, Bool-cases, inl, inr, &&-eq-true, str_eq, str_eq_iff, str_eq_refl,
}
use mathlib.Core.List.{Memᴰ}
use dnslb.Main.Store.{Value, same_key, is_plain, lower_byte}

pub same_key_refl : (k : Str) → same_key k k ≡ true
same_key_refl k = str_eq_refl (map lower_byte k)

-- Keys that are the same are the same as any third one.
same_key_cong : (k j i : Str) → same_key k j ≡ true → same_key i k ≡ same_key i j
same_key_cong k j i h = ap (str_eq (map lower_byte i)) ((str_eq_iff _ _).0 h)

pub same_key_sym : (k j : Str) → same_key k j ≡ false → same_key j k ≡ false
same_key_sym k j h = elim (Bool-cases (same_key j k)) [
  | inl same ↦
      cc (h, (str_eq_iff (map lower_byte k) (map lower_byte j)).1 (sym ((str_eq_iff _ _).0 same)))
  | inr other ↦ other
]

not-true : (b : Bool) → not b ≡ true → b ≡ false
not-true true h = cc
not-true false h = refl

module _ {A : Type 0} (key_of : A → Str) where
  -- No row has the key.
  abbrev pub absent : Str → List A → Bool
  absent k [] = true
  absent k (x ∷ rows) = not (same_key (key_of x) k) && absent k rows

  -- The keys are plain, and different.
  abbrev pub are_distinct : List A → Bool
  are_distinct [] = true
  are_distinct (x ∷ rows) = is_plain (key_of x) && (absent (key_of x) rows && are_distinct rows)

  pub absent-Mem :
      (k : Str) (rows : List A) (x : A)
      → absent k rows ≡ true
      → Memᴰ x rows
      → same_key (key_of x) k ≡ false
  absent-Mem k [] x h m = elim m [ ]
  absent-Mem k (y ∷ rows) x h (Memᴰ.head e) = rw e (not-true _ (&&-eq-true _ _ h).0)
  absent-Mem k (y ∷ rows) x h (Memᴰ.tail m) = absent-Mem k rows x (&&-eq-true _ _ h).1 m

  pub are_distinct-plain :
      (rows : List A) (r : A) → are_distinct rows ≡ true → Memᴰ r rows → is_plain (key_of r) ≡ true
  are_distinct-plain [] r d m = elim m [ ]
  are_distinct-plain (x ∷ rows) r d (Memᴰ.head e) = rw e (&&-eq-true _ _ d).0
  are_distinct-plain (x ∷ rows) r d (Memᴰ.tail m) =
      are_distinct-plain rows r (&&-eq-true _ _ (&&-eq-true _ _ d).1).1 m

-- The value of the first row with the key.
abbrev pub lookup_key : Str → Dict Value → Option Value
lookup_key j [] = none
lookup_key j ((k, x) ∷ rows) = if same_key k j then some x else lookup_key j rows

pub absent-lookup_key :
    (k j : Str) (rows : Dict Value)
    → absent (λ r. r.0) k rows ≡ true
    → same_key k j ≡ true
    → lookup_key j rows ≡ none
absent-lookup_key k j [] h same = refl
absent-lookup_key k j ((i, x) ∷ rows) h same =
    let (other, more) = &&-eq-true _ _ h in
    let differs : same_key i j ≡ false = sym (same_key_cong k j i same) ∙ not-true _ other in
    rw differs (absent-lookup_key k j rows more same)
