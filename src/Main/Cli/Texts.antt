-- ===== src/Main/Cli/Texts.antt =====
-- flag.Parse, flag by flag: a variable is what the texts of its own flag make of it.
use dnslb.Base.{
  true, false, Option, none, some, List, [], ◌∷◌, Str, Dict, lookup, insert, lookup-insert, str_eq,
  str_eq_iff, if◌then◌else◌, ◌≡◌, refl, sym, ◌∙◌, ap, Bool-cases, Option-cases, inl, inr,
}
use dnslb.Main.Cli.{FlagValue, FlagLib, Occurrence, set_flag, parse_flags}

-- The texts of the flag, in their order.
abbrev pub texts_of : Str → List Occurrence → List Str
texts_of name [] = []
texts_of name ((n, t) ∷ found) =
    let rest = texts_of name found in if str_eq n name then t ∷ rest else rest

-- Set, for one text after another.
unfoldable pub set_texts : FlagLib → FlagValue → List Str → Option FlagValue
unfolding set_flag
set_texts lib f [] = some f
set_texts lib f (t ∷ ts) = elim (set_flag lib f t) [ none ↦ none | some f' ↦ set_texts lib f' ts ]

pub set_texts_step :
    (lib : FlagLib) (f x : FlagValue) (t : Str) (ts : List Str)
    → set_flag lib f t ≡ some x
    → set_texts lib f (t ∷ ts) ≡ set_texts lib x ts
unfolding set_texts
set_texts_step lib f x t ts e = rw (set_texts, e)

texts_of_same :
    (n name t : Str) (found : List Occurrence)
    → str_eq n name ≡ true
    → texts_of name ((n, t) ∷ found) ≡ t ∷ texts_of name found
texts_of_same n name t found same = rw same

texts_of_other :
    (n name t : Str) (found : List Occurrence)
    → str_eq n name ≡ false
    → texts_of name ((n, t) ∷ found) ≡ texts_of name found
texts_of_other n name t found other = rw other

-- After flag.Parse the variable of a flag is what the texts of that flag made of its default, whatever
-- the other flags.
pub parse_flags-texts_of :
    (lib : FlagLib) (found : List Occurrence) (vars vars' : Dict FlagValue) (name : Str)
    (f : FlagValue)
    → parse_flags lib found vars ≡ some vars'
    → lookup name vars ≡ some f
    → (f' : FlagValue) × (set_texts lib f (texts_of name found) ≡ some f')
      × (lookup name vars' ≡ some f')
unfolding parse_flags set_texts
parse_flags-texts_of lib [] vars vars' name f h e = (f, refl, cc)
parse_flags-texts_of lib ((n, t) ∷ found) vars vars' name f h e =
    elim (Option-cases (lookup n vars)) [
      | inl missing ↦ cc (rw (parse_flags, missing) at h)
      | inr (g, here) ↦ elim (Option-cases (set_flag lib g t)) [
        | inl refused ↦ cc (rw (parse_flags, here, refused) at h)
        | inr (x, accepted) ↦ elim (Bool-cases (str_eq n name)) [
          | inl same ↦
              let (f', all, last) =
                parse_flags-texts_of lib found (insert n x vars) vars' name x
                  (rw (parse_flags, here, accepted) at h) (lookup-insert n name x vars ∙ rw same) in
              let eq : g ≡ f = cc ((str_eq_iff n name).0 same, here, e) in
              (
                f',
                ap (set_texts lib f) (texts_of_same n name t found same)
                    ∙ set_texts_step lib f x t _ (ap (λ y. set_flag lib y t) (sym eq) ∙ accepted)
                    ∙ all,
                last,
              )
          | inr other ↦
              let (f', all, last) =
                parse_flags-texts_of lib found (insert n x vars) vars' name f
                  (rw (parse_flags, here, accepted) at h)
                  (lookup-insert n name x vars ∙ rw other e) in
              (f', ap (set_texts lib f) (texts_of_other n name t found other) ∙ all, last)
        ]
      ]
    ]
