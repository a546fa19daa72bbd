-- ===== src/Main/Cli/Laws.antt =====
-- What parseCli leaves in package viper.
use dnslb.Base.{
  true, false, Option, none, some, List, Str, bytes, Dict, lookup, if◌then◌else◌, ◌≡◌, ◌⊎◌, refl,
  sym, ◌∙◌, ap, Bool-cases, inl, inr, get_elem?-Mem,
}
use mathlib.Core.List.{Memᴰ}
use dnslb.Go.Decimal.{pos}
use dnslb.Main.Store.{ViperLib, ViperLaws, IsFresh, is_plain, first_set}
use dnslb.Main.Cli.{
  FlagValue, int_flag, flag_table, viper_defaults, settings, FlagLib, Occurrence, parse_flags,
  is_flag_passed, set_defaults, set_passed, read_config, parse_cli, config_file,
}
use dnslb.Go.Strings.{contains}
use dnslb.Main.Cli.Keys.{are_distinct, are_distinct-plain, lookup_key}
use dnslb.Main.Cli.Stored.{
  passed_value, set_defaults-fallback, set_defaults-keeps, set_passed-keeps, set_passed-explicit,
}

settings_distinct : are_distinct (λ r. r.1) settings ≡ true
unfolding contains
settings_distinct = refl

defaults_distinct : (hostname : Str) → are_distinct (λ r. r.0) (viper_defaults hostname) ≡ true
unfolding contains
defaults_distinct hostname = refl

first_set-none {ℓ} : {A : Type ℓ} (o : Option A) → first_set o none ≡ o
first_set-none none = refl
first_set-none (some x) = refl

module _ {V : Type 0} (lib : ViperLib V) (laws : ViperLaws lib) (v : V) (fresh : IsFresh laws v)
    (hostname : Str) (found : List Occurrence) (vars : Dict FlagValue) where
  -- The state before the flags are stored.
  abbrev before : V
  before = read_config lib found vars (set_defaults lib (viper_defaults hostname) v)

  abbrev pub after : V
  after = set_passed lib found vars settings before

  read_config-keeps :
      {A : Type 0} (f : V → A)
      → ((name : Str) (w : V) → f (lib.read_in_config name w).1 ≡ f w)
      → (w : V) → f (read_config lib found vars w) ≡ f w
  unfolding read_config
  read_config-keeps f keeps w = elim (Bool-cases (is_flag_passed found (bytes "cfg"))) [
    | inl passed ↦ rw passed (keeps _ w)
    | inr other ↦ rw other
  ]

  before-explicit : (k : Str) → laws.explicit before k ≡ none
  before-explicit k =
      read_config-keeps (λ w. laws.explicit w k) (λ f w. laws.explicit-read f k w) _
      ∙ set_defaults-keeps lib laws (λ w. laws.explicit w k)
          (λ j x w. laws.explicit-set_default j k x w) (viper_defaults hostname) v
      ∙ fresh.no_explicit k

  after-fallback :
      (k : Str) → is_plain k ≡ true → laws.fallback after k ≡ lookup_key k (viper_defaults hostname)
  after-fallback k p =
      set_passed-keeps lib laws found vars (λ w. laws.fallback w k) settings
        (λ r m x w. laws.fallback-set r.1 k x w) before
      ∙ read_config-keeps (λ w. laws.fallback w k) (λ f w. laws.fallback-read f k w) _
      ∙ set_defaults-fallback lib laws (viper_defaults hostname) v k (defaults_distinct hostname) p
      ∙ ap (first_set (lookup_key k (viper_defaults hostname))) (fresh.no_fallback k)
      ∙ first_set-none (lookup_key k (viper_defaults hostname))

  -- Without a file there are no values of a file.
  after-config : (k : Str) → is_flag_passed found (bytes "cfg") ≡ false → laws.config after k ≡ none
  unfolding read_config
  after-config k absent =
      set_passed-keeps lib laws found vars (λ w. laws.config w k) settings
        (λ r m x w. laws.config-set r.1 k x w) before
      ∙ rw absent (
          set_defaults-keeps lib laws (λ w. laws.config w k)
            (λ j x w. laws.config-set_default j k x w) (viper_defaults hostname) v
          ∙ fresh.no_config k)

  -- A file that does not give a value leaves it unset.
  after-config_absent :
      (k : Str)
      → (is_flag_passed found (bytes "cfg") ≡ false)
        ⊎ ((w : V)
            → laws.config (lib.read_in_config (config_file (lookup (bytes "cfg") vars)) w).1 k
              ≡ none)
      → laws.config after k ≡ none
  unfolding read_config
  after-config_absent k (inl absent) = after-config k absent
  after-config_absent k (inr silent) = elim (Bool-cases (is_flag_passed found (bytes "cfg"))) [
    | inr absent ↦ after-config k absent
    | inl passed ↦
        set_passed-keeps lib laws found vars (λ w. laws.config w k) settings
          (λ r m x w. laws.config-set r.1 k x w) before
        ∙ rw passed (silent _)
  ]

  -- The value of the file, if it was read.
  file_value :
      (k : Str)
      → laws.config after k
        ≡ (if is_flag_passed found (bytes "cfg") then laws.config after k else none)
  file_value k = elim (Bool-cases (is_flag_passed found (bytes "cfg"))) [
    | inl passed ↦ rw passed
    | inr other ↦ rw other (after-config k other)
  ]

  pub after-get :
      (r : Str × Str)
      → Memᴰ r settings
      → (lib.view after).get r.1
        ≡ first_set (passed_value found vars r.0) (
            first_set
              (if is_flag_passed found (bytes "cfg") then laws.config after r.1 else none)
              (lookup_key r.1 (viper_defaults hostname)))
  after-get r m =
      laws.get_lem after r.1
      ∙ ap (λ o. first_set o (first_set (laws.config after r.1) (laws.fallback after r.1)))
          (set_passed-explicit lib laws found vars settings r before settings_distinct m
            ∙ ap (first_set (passed_value found vars r.0)) (before-explicit r.1)
            ∙ first_set-none (passed_value found vars r.0))
      ∙ ap (λ o. first_set (passed_value found vars r.0) (first_set o (laws.fallback after r.1)))
          (file_value r.1)
      ∙ ap
          (λ o. first_set (passed_value found vars r.0) (
            first_set (if is_flag_passed found (bytes "cfg") then laws.config after r.1 else none)
              o))
          (after-fallback r.1 (are_distinct-plain (λ r. r.1) settings r settings_distinct m))

-- After parseCli on a viper in which nothing is set, if the flags' texts are accepted: each of the
-- 23 settings is the value of its flag if that is passed, else what the configuration file gives it
-- if a file is passed, else viper's default, and not set if there is none.
pub parse_cli_lem :
    {V : Type 0} (lib : ViperLib V) (laws : ViperLaws lib) (v : V) (flags : FlagLib)
    (hostname : Str) (found : List Occurrence) (vars : Dict FlagValue) (r : Str × Str)
    → IsFresh laws v
    → parse_flags flags found (flag_table hostname) ≡ some vars
    → Memᴰ r settings
    → (v' : V) × (parse_cli lib flags hostname found v ≡ some v')
      × ((lib.view v').get r.1
          ≡ first_set (passed_value found vars r.0) (
              first_set
                (if is_flag_passed found (bytes "cfg") then laws.config v' r.1 else none)
                (lookup_key r.1 (viper_defaults hostname))))
unfolding parse_cli
parse_cli_lem lib laws v flags hostname found vars r fresh parsed m = (
  after lib laws v fresh hostname found vars,
  rw parsed,
  after-get lib laws v fresh hostname found vars r m,
)

-- If the flag of the monitors' interval is not passed, and no configuration file is passed or the one
-- that is passed does not give the interval, then the interval is 0, though the flag has the default
-- 30.
pub parse_cli-interval :
    {V : Type 0} (lib : ViperLib V) (laws : ViperLaws lib) (v : V) (flags : FlagLib)
    (hostname : Str) (found : List Occurrence) (vars : Dict FlagValue)
    → IsFresh laws v
    → parse_flags flags found (flag_table hostname) ≡ some vars
    → is_flag_passed found (bytes "etcd-interval-monitoring") ≡ false
    → (is_flag_passed found (bytes "cfg") ≡ false)
      ⊎ ((w : V)
          → laws.config
              (lib.read_in_config (config_file (lookup (bytes "cfg") vars)) w).1
              (bytes "etcd-interval-monitoring")
            ≡ none)
    → (v' : V) × (parse_cli lib flags hostname found v ≡ some v')
      × ((lib.view v').get_int (bytes "etcd-interval-monitoring") ≡ pos 0)
      × (lookup (bytes "etcd-interval-monitoring") (flag_table hostname) ≡ some (int_flag (pos 30)))
unfolding lookup parse_cli
parse_cli-interval lib laws v flags hostname found vars fresh parsed flag file =
    let key = bytes "etcd-interval-monitoring" in
    let v' = after lib laws v fresh hostname found vars in
    let value =
      after-get lib laws v fresh hostname found vars (key, key) (get_elem?-Mem settings 6 _ refl) in
    let unset =
      sym (file_value lib laws v fresh hostname found vars key)
      ∙ after-config_absent lib laws v fresh hostname found vars key file in
    let passed : passed_value found vars key ≡ none = rw flag in
    let missing : (lib.view v').get key ≡ none =
      value
      ∙ ap
          (λ o. first_set o (
            first_set (if is_flag_passed found (bytes "cfg") then laws.config v' key else none)
              (lookup_key key (viper_defaults hostname))))
          passed
      ∙ ap (λ o. first_set o (lookup_key key (viper_defaults hostname))) unset in
    (v', rw parsed, laws.get_int_none v' key missing, refl)
