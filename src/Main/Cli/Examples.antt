-- ===== src/Main/Cli/Examples.antt =====
-- A package viper of three layers, and a command line.
use dnslb.Base.{
  Bool, true, false, Option, none, some, List, [], ◌∷◌, Str, bytes, Dict, lookup, insert, value_or,
  get_elem?-Mem, ok, if◌then◌else◌, ◌≡◌, refl, inr,
}
use dnslb.Go.Decimal.{ℤ, pos}
use dnslb.Go.Strings.{split, split_from, has_prefix}
use dnslb.Flags.{string_slice_set, map_flags_set}
use dnslb.Main.Store.{
  Value, text, number, truth, texts, table, ViperLib, ViperLaws, IsFresh, same_key, first_set,
}
use dnslb.Main.Cli.{
  FlagValue, int_flag, slice_flag, flag_table, viper_defaults, settings, FlagLib, Occurrence,
  set_flag, parse_flags, is_flag_passed, parse_cli,
}
use dnslb.Main.Cli.Keys.{lookup_key}
use dnslb.Main.Cli.Stored.{passed_value}
use dnslb.Main.Cli.Values.{parse_flags_lem}
use dnslb.Main.Cli.Laws.{parse_cli_lem, parse_cli-interval}

-- What Set, the file and SetDefault give.
pub record Layers : Type 0 where
  pub explicit : Str → Option Value
  pub config : Str → Option Value
  pub fallback : Str → Option Value

abbrev put : Str → Value → (Str → Option Value) → Str → Option Value
put k x layer j = if same_key k j then some x else layer j

abbrev string_of : Option Value → Str
string_of (some (text s)) = s
string_of _ = []

abbrev slice_of : Option Value → List Str
slice_of (some (texts l)) = l
slice_of _ = []

abbrev int_of : Option Value → ℤ
int_of (some (number i)) = i
int_of _ = pos 0

abbrev bool_of : Option Value → Bool
bool_of (some (truth b)) = b
bool_of _ = false

abbrev table_of : Option Value → Dict (List Str)
table_of (some (table m)) = m
table_of _ = []

abbrev value_in : Layers → Str → Option Value
value_in v k = first_set (v.explicit k) (first_set (v.config k) (v.fallback k))

-- The file sets the port.
abbrev pub viper : ViperLib Layers
viper = record {
  set = λ k x v. record v { explicit = put k x v.explicit };
  set_default = λ k x v. record v { fallback = put k x v.fallback };
  read_in_config =
      λ name v. (ok tt, record v { config = put (bytes "port") (number (pos 9090)) (λ k. none) });
  view = λ v. record {
    get = value_in v;
    get_string = λ k. string_of (value_in v k);
    get_string_slice = λ k. slice_of (value_in v k);
    get_bool = λ k. bool_of (value_in v k);
    get_int = λ k. int_of (value_in v k);
    get_string_map_string_slice = λ k. table_of (value_in v k);
  };
}

abbrev pub viper-laws : ViperLaws viper
viper-laws = record {
  explicit = λ v. v.explicit;
  config = λ v. v.config;
  fallback = λ v. v.fallback;
  get_lem = λ v k. refl;
  explicit-set = λ k j x v p q. refl;
  config-set = λ k j x v. refl;
  fallback-set = λ k j x v. refl;
  explicit-set_default = λ k j x v. refl;
  config-set_default = λ k j x v. refl;
  fallback-set_default = λ k j x v p q. refl;
  explicit-read = λ f j v. refl;
  fallback-read = λ f j v. refl;
  get_string_text = λ v k x h. rw h;
  get_string_slice_texts = λ v k l h. rw h;
  get_int_number = λ v k i h. rw h;
  get_bool_truth = λ v k b h. rw h;
  get_int_none = λ v k h. rw h;
  get_table = λ v k m h. rw h;
}

abbrev pub empty : Layers
empty = record { explicit = λ k. none; config = λ k. none; fallback = λ k. none }

pub empty-IsFresh : IsFresh viper-laws empty
empty-IsFresh = record { no_explicit = λ k. refl; no_config = λ k. refl; no_fallback = λ k. refl }

-- Every int is 7, and every bool true.
abbrev pub flags : FlagLib
flags = record { read_int = λ t. some (pos 7); read_bool = λ t. some true }

abbrev found : List Occurrence
found =
    (bytes "agent", bytes "x")
    ∷ (bytes "port", bytes "7")
    ∷ (bytes "agent", bytes "y")
    ∷ (bytes "bully-peer", bytes "a:b:c")
    ∷ []

abbrev vars : Dict FlagValue
vars = value_or [] (parse_flags flags found (flag_table (bytes "host")))

parsed : parse_flags flags found (flag_table (bytes "host")) ≡ some vars
unfolding parse_flags set_flag string_slice_set map_flags_set split split_from has_prefix lookup
    insert
parsed = refl

parse_flags_lem_example :
    lookup (bytes "agent") vars ≡ some (slice_flag (bytes "x" ∷ bytes "y" ∷ []))
unfolding lookup
parse_flags_lem_example =
    parse_flags_lem flags found (flag_table (bytes "host")) vars (bytes "agent") (slice_flag [])
      parsed refl

parse_cli_lem_example :
    (v : Layers) × (parse_cli viper flags (bytes "host") found empty ≡ some v)
    × ((viper.view v).get (bytes "agents")
        ≡ first_set (passed_value found vars (bytes "agent")) (
            first_set
              (if is_flag_passed found (bytes "cfg") then v.config (bytes "agents") else none)
              (lookup_key (bytes "agents") (viper_defaults (bytes "host")))))
parse_cli_lem_example =
    parse_cli_lem viper viper-laws empty flags (bytes "host") found vars
      (bytes "agent", bytes "agents") empty-IsFresh parsed (get_elem?-Mem settings 2 _ refl)

-- A command line with a file, which does not give the interval.
abbrev with_file : List Occurrence
with_file = (bytes "cfg", bytes "dnslb") ∷ (bytes "agent", bytes "x") ∷ []

abbrev file_vars : Dict FlagValue
file_vars = value_or [] (parse_flags flags with_file (flag_table (bytes "host")))

file_parsed : parse_flags flags with_file (flag_table (bytes "host")) ≡ some file_vars
unfolding parse_flags set_flag string_slice_set lookup insert
file_parsed = refl

parse_cli-interval_example :
    (v : Layers) × (parse_cli viper flags (bytes "host") with_file empty ≡ some v)
    × ((viper.view v).get_int (bytes "etcd-interval-monitoring") ≡ pos 0)
    × (lookup (bytes "etcd-interval-monitoring") (flag_table (bytes "host"))
        ≡ some (int_flag (pos 30)))
unfolding is_flag_passed
parse_cli-interval_example =
    parse_cli-interval viper viper-laws empty flags (bytes "host") with_file file_vars empty-IsFresh
      file_parsed refl (inr (λ w. refl))
