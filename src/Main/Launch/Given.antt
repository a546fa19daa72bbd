-- ===== src/Main/Launch/Given.antt =====
-- What a passed flag leaves in package viper, by its type.
use dnslb.Base.{
  true, false, some, List, [], ◌∷◌, ◌++◌, map, Str, bytes, Dict, lookup, str_eq, is_empty, All,
  get_elem?-Mem, ◌≡◌, refl, sym, ◌∙◌, ap, Bool-cases, inl, inr, if◌then◌else◌, append_assoc,
  append-nil, get_elem?,
}
use mathlib.Core.List.{Memᴰ}
use dnslb.Loadbalancer.{Loadbalancer}
use dnslb.Flags.{string_slice_set}
use dnslb.Main.Store.{ViperLib, ViperLaws, IsFresh}
use dnslb.Main.Cli.{
  FlagValue, string_flag, slice_flag, map_flag, flag_table, settings, FlagLib, Occurrence, set_flag,
  parse_flags, is_flag_passed, setting_of,
}
use dnslb.Main.Cli.Laws.{after, after-get}
use dnslb.Main.Cli.Texts.{texts_of, set_texts, parse_flags-texts_of}
use dnslb.Main.Cli.Balancers.{
  lb_text, IsLine, different, flag_entry, table_entry, set_texts-lb_text, split_values-entry,
}

is_flag_passed-texts_of :
    (found : List Occurrence) (name : Str)
    → is_flag_passed found name ≡ (if is_empty (texts_of name found) then false else true)
unfolding is_flag_passed
is_flag_passed-texts_of [] name = refl
is_flag_passed-texts_of ((n, t) ∷ found) name = elim (Bool-cases (str_eq n name)) [
  | inl same ↦ rw same
  | inr other ↦ rw other (is_flag_passed-texts_of found name)
]

set_texts-slice :
    (flags : FlagLib) (l ts : List Str)
    → set_texts flags (slice_flag l) ts ≡ some (slice_flag (l ++ ts))
unfolding set_texts set_flag string_slice_set
set_texts-slice flags l [] = ap (λ m. some (slice_flag m)) (sym (append-nil l))
set_texts-slice flags l (t ∷ ts) =
    set_texts-slice flags (l ++ t ∷ []) ts
    ∙ ap (λ m. some (slice_flag m)) (append_assoc l (t ∷ []) ts)

set_texts-string :
    (flags : FlagLib) (d t : Str) → set_texts flags (string_flag d) (t ∷ []) ≡ some (string_flag t)
unfolding set_texts set_flag
set_texts-string flags d t = refl

module _ {V : Type 0} (lib : ViperLib V) (laws : ViperLaws lib) (v : V) (fresh : IsFresh laws v)
    (flags : FlagLib) (hostname : Str) (found : List Occurrence) (vars : Dict FlagValue)
    (parsed : parse_flags flags found (flag_table hostname) ≡ some vars) where
  abbrev pub state : V
  state = after lib laws v fresh hostname found vars

  -- What a passed flag leaves under its key.
  given :
      (r : Str × Str) (f x : FlagValue) (t : Str) (ts : List Str)
      → Memᴰ r settings
      → lookup r.0 (flag_table hostname) ≡ some f
      → texts_of r.0 found ≡ t ∷ ts
      → set_texts flags f (t ∷ ts) ≡ some x
      → (lib.view state).get r.1 ≡ some (setting_of x)
  given r f x t ts m declared here all =
      let passed : is_flag_passed found r.0 ≡ true = is_flag_passed-texts_of found r.0 ∙ rw here in
      let (y, all', value) =
        parse_flags-texts_of flags found (flag_table hostname) vars r.0 f parsed declared in
      let same : some y ≡ some x = sym all' ∙ ap (set_texts flags f) here ∙ all in
      after-get lib laws v fresh hostname found vars r m ∙ rw (passed, value ∙ same)

  pub given_string :
      (n : _) (name key d t : Str)
      → get_elem? settings n ≡ some (name, key)
      → lookup name (flag_table hostname) ≡ some (string_flag d)
      → texts_of name found ≡ t ∷ []
      → (lib.view state).get_string key ≡ t
  given_string n name key d t m declared here = laws.get_string_text state key t (
      given (name, key) (string_flag d) (string_flag t) t [] (get_elem?-Mem settings n _ m) declared
        here (set_texts-string flags d t))

  pub given_slice :
      (n : _) (name key t : Str) (ts : List Str)
      → get_elem? settings n ≡ some (name, key)
      → lookup name (flag_table hostname) ≡ some (slice_flag [])
      → texts_of name found ≡ t ∷ ts
      → (lib.view state).get_string_slice key ≡ t ∷ ts
  given_slice n name key t ts m declared here = laws.get_string_slice_texts state key (t ∷ ts) (
      given (name, key) (slice_flag []) (slice_flag (t ∷ ts)) t ts (get_elem?-Mem settings n _ m)
        declared here (set_texts-slice flags [] (t ∷ ts)))

  pub given_lbs :
      (lb : Loadbalancer) (lbs : List Loadbalancer)
      → texts_of (bytes "lb") found ≡ map lb_text (lb ∷ lbs)
      → All IsLine (lb ∷ lbs)
      → different [] (lb ∷ lbs) ≡ true
      → (lib.view state).get_string_map_string_slice (bytes "lb") ≡ map table_entry (lb ∷ lbs)
  unfolding lookup
  given_lbs lb lbs here lines d =
      laws.get_table state (bytes "lb") _ (
        given (bytes "lb", bytes "lb") (map_flag []) (map_flag (map flag_entry (lb ∷ lbs))) _ _
          (get_elem?-Mem settings 3 _ refl) refl here
          (set_texts-lb_text flags [] (lb ∷ lbs) lines d))
      ∙ split_values-entry (lb ∷ lbs) lines

  -- Without the flag and without a file, debug is off.
  pub given_no_debug :
      is_flag_passed found (bytes "debug") ≡ false
      → is_flag_passed found (bytes "cfg") ≡ false
      → (lib.view state).get_bool (bytes "debug") ≡ false
  given_no_debug flag file = laws.get_bool_truth state (bytes "debug") false (
      after-get lib laws v fresh hostname found vars (bytes "debug", bytes "debug")
        (get_elem?-Mem settings 9 _ refl)
      ∙ rw (flag, file))
