-- ===== src/Main/Cli/Stored.antt =====
-- The loops of parseCli over the defaults and the settings: what they leave in each layer of viper.
use dnslb.Base.{
  true, Option, none, List, [], ◌∷◌, Str, Dict, lookup, if◌then◌else◌, ◌≡◌, refl, ◌∙◌, ap,
  Bool-cases, Option-cases, inl, inr, &&-eq-true,
}
use mathlib.Core.List.{Memᴰ}
use dnslb.Main.Store.{Value, ViperLib, ViperLaws, same_key, is_plain, first_set}
use dnslb.Main.Cli.{
  FlagValue, Occurrence, map_option, is_flag_passed, setting_of, set_defaults, store_value,
  set_passed,
}
use dnslb.Main.Cli.Keys.{
  same_key_refl, same_key_sym, are_distinct, absent-Mem, are_distinct-plain, lookup_key,
  absent-lookup_key,
}

-- What a passed flag sets its key to.
abbrev pub passed_value : List Occurrence → Dict FlagValue → Str → Option Value
passed_value found vars name =
    if is_flag_passed found name then map_option setting_of (lookup name vars) else none

module _ {V : Type 0} (lib : ViperLib V) (laws : ViperLaws lib) where
  pub set_defaults-fallback :
      (rows : Dict Value) (v : V) (j : Str)
      → are_distinct (λ r. r.0) rows ≡ true
      → is_plain j ≡ true
      → laws.fallback (set_defaults lib rows v) j
        ≡ first_set (lookup_key j rows) (laws.fallback v j)
  unfolding set_defaults
  set_defaults-fallback [] v j d p = refl
  set_defaults-fallback ((k, x) ∷ rows) v j d p =
      let (plain, more) = &&-eq-true _ _ d in
      let (other, rest) = &&-eq-true _ _ more in
      elim (Bool-cases (same_key k j)) [
        | inl same ↦ rw (
          set_defaults-fallback rows (lib.set_default k x v) j rest p,
          laws.fallback-set_default k j x v plain p,
          same,
          absent-lookup_key k j rows other same,
        )
        | inr diff ↦ rw (
          set_defaults-fallback rows (lib.set_default k x v) j rest p,
          laws.fallback-set_default k j x v plain p,
          diff,
        )
      ]

  -- What no SetDefault changes.
  pub set_defaults-keeps :
      {A : Type 0} (f : V → A)
      → ((k : Str) (x : Value) (v : V) → f (lib.set_default k x v) ≡ f v)
      → (rows : Dict Value) (v : V) → f (set_defaults lib rows v) ≡ f v
  unfolding set_defaults
  set_defaults-keeps f keeps [] v = refl
  set_defaults-keeps f keeps ((k, x) ∷ rows) v =
      set_defaults-keeps f keeps rows (lib.set_default k x v) ∙ keeps k x v

  module _ (found : List Occurrence) (vars : Dict FlagValue) where
    abbrev step : Str → Str → V → V
    step name key v =
        if is_flag_passed found name then store_value lib key (lookup name vars) v else v

    step-keeps :
        {A : Type 0} (f : V → A) (name key : Str)
        → ((x : Value) (v : V) → f (lib.set key x v) ≡ f v)
        → (v : V) → f (step name key v) ≡ f v
    step-keeps f name key keeps v = elim (Bool-cases (is_flag_passed found name)) [
      | inl passed ↦ elim (Option-cases (lookup name vars)) [
        | inl e ↦ rw (passed, e)
        | inr (x, e) ↦ rw (passed, e) (keeps (setting_of x) v)
      ]
      | inr not_passed ↦ rw not_passed
    ]

    pub set_passed-keeps :
        {A : Type 0} (f : V → A) (rows : List (Str × Str))
        → ((r : Str × Str) → Memᴰ r rows → (x : Value) (v : V) → f (lib.set r.1 x v) ≡ f v)
        → (v : V) → f (set_passed lib found vars rows v) ≡ f v
    unfolding set_passed
    set_passed-keeps f [] keeps v = refl
    set_passed-keeps f ((name, key) ∷ rows) keeps v =
        set_passed-keeps f rows (λ r m. keeps r (Memᴰ.tail m)) (step name key v)
        ∙ step-keeps f name key (keeps (name, key) (Memᴰ.head refl)) v

    step-explicit :
        (name key : Str) (v : V)
        → is_plain key ≡ true
        → laws.explicit (step name key v) key
          ≡ first_set (passed_value found vars name) (laws.explicit v key)
    step-explicit name key v p = elim (Bool-cases (is_flag_passed found name)) [
      | inl passed ↦ elim (Option-cases (lookup name vars)) [
        | inl e ↦ rw (passed, e)
        | inr (x, e) ↦
            rw (passed, e, laws.explicit-set key key (setting_of x) v p p, same_key_refl key)
      ]
      | inr not_passed ↦ rw not_passed
    ]

    -- The row of a key decides what is set for it.
    pub set_passed-explicit :
        (rows : List (Str × Str)) (r : Str × Str) (v : V)
        → are_distinct (λ r. r.1) rows ≡ true
        → Memᴰ r rows
        → laws.explicit (set_passed lib found vars rows v) r.1
          ≡ first_set (passed_value found vars r.0) (laws.explicit v r.1)
    unfolding set_passed
    set_passed-explicit [] r v d m = elim m [ ]
    set_passed-explicit ((name, key) ∷ rows) r v d (Memᴰ.head e) =
        let (plain, more) = &&-eq-true _ _ d in
        let (other, rest) = &&-eq-true _ _ more in
        rw e (
          set_passed-keeps (λ w. laws.explicit w key) rows
            (λ q m x w.
              laws.explicit-set q.1 key x w (are_distinct-plain (λ r. r.1) rows q rest m) plain
              ∙ rw (absent-Mem (λ r. r.1) key rows q other m))
            (step name key v)
          ∙ step-explicit name key v plain)
    set_passed-explicit ((name, key) ∷ rows) r v d (Memᴰ.tail m) =
        let (plain, more) = &&-eq-true _ _ d in
        let (other, rest) = &&-eq-true _ _ more in
        set_passed-explicit rows r (step name key v) rest m
        ∙ ap (first_set (passed_value found vars r.0)) (
            step-keeps (λ w. laws.explicit w r.1) name key
              (λ x w.
                laws.explicit-set key r.1 x w plain (are_distinct-plain (λ r. r.1) rows r rest m)
                ∙ rw (same_key_sym r.1 key (absent-Mem (λ r. r.1) key rows r other m)))
              v)
