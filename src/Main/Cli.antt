-- ===== src/Main/Cli.antt =====
-- parseCli of main.go: the flags, the defaults and the configuration file, into package viper.
-- Package github.com/namsral/flag, which finds the flags' texts, is a parameter.
pub mod Keys
pub mod Stored
pub mod Values
pub mod Laws
pub mod Texts
pub mod Balancers
pub mod Examples
use dnslb.Base.{
  Bool, true, false, Option, none, some, List, [], ◌∷◌, Str, bytes, str_eq, Dict, lookup, insert,
  Result, ok, err, if◌then◌else◌,
}
use dnslb.Go.Decimal.{ℤ, pos}
use dnslb.Go.Strings.{split}
use dnslb.Flags.{string_map_set, map_flags_set, string_slice_set}
use dnslb.Main.Store.{Value, text, number, truth, texts, table, ViperLib}

-- The variable behind a flag, of type string, int, bool, StringSlice, StringMap or mapFlags.
pub data FlagValue : Type 0 where
  string_flag : Str → FlagValue
  int_flag : ℤ → FlagValue
  bool_flag : Bool → FlagValue
  slice_flag : List Str → FlagValue
  map_flag : Dict Str → FlagValue
  peers_flag : Dict Str → FlagValue

-- The flags that parseCli declares, with their defaults.
abbrev pub flag_table : Str → Dict FlagValue
flag_table hostname =
    (bytes "cfg", string_flag (bytes "dnslb.yaml"))
    ∷ (bytes "port", int_flag (pos 8080))
    ∷ (bytes "agent", slice_flag [])
    ∷ (bytes "lb", map_flag [])
    ∷ (bytes "etcd", slice_flag [])
    ∷ (bytes "provider", string_flag [])
    ∷ (bytes "election", string_flag [])
    ∷ (bytes "dump-http", bool_flag false)
    ∷ (bytes "debug", bool_flag false)
    ∷ (bytes "json-logging", bool_flag false)
    ∷ (bytes "etcd-interval-monitoring", int_flag (pos 30))
    ∷ (bytes "zone-sync-interval-download", int_flag (pos 3600))
    ∷ (bytes "zone-sync-interval-upload", int_flag (pos 60))
    ∷ (bytes "instance-id", string_flag hostname)
    ∷ (bytes "k8s-kubeconfig", string_flag [])
    ∷ (bytes "k8s-lock-name", string_flag (bytes "dnslb"))
    ∷ (bytes "k8s-lock-namespace", string_flag [])
    ∷ (bytes "raft-address", string_flag [])
    ∷ (bytes "raft-dir", string_flag [])
    ∷ (bytes "raft-bootstrap", bool_flag false)
    ∷ (bytes "bully-address", string_flag [])
    ∷ (bytes "bully-proto", string_flag (bytes "tcp4"))
    ∷ (bytes "bully-peer", peers_flag [])
    ∷ (bytes "autodns-username", string_flag [])
    ∷ (bytes "autodns-password", string_flag [])
    ∷ (bytes "mock-file", string_flag [])
    ∷ (bytes "mock-file-state", string_flag [])
    ∷ []

-- The calls of viper.SetDefault.
abbrev pub viper_defaults : Str → Dict Value
viper_defaults hostname =
    (bytes "port", number (pos 8080))
    ∷ (bytes "dump-http", truth false)
    ∷ (bytes "debug", truth false)
    ∷ (bytes "json-logging", truth false)
    ∷ (bytes "zone-sync-interval-download", number (pos 3600))
    ∷ (bytes "zone-sync-interval-upload", number (pos 60))
    ∷ (bytes "instance-identifier", text hostname)
    ∷ (bytes "k8s-lock-name", text (bytes "dnslb"))
    ∷ []

-- The flags that are stored in viper if they are passed, each with its key.
abbrev pub settings : List (Str × Str)
settings =
    (bytes "json-logging", bytes "json-logging")
    ∷ (bytes "port", bytes "port")
    ∷ (bytes "agent", bytes "agents")
    ∷ (bytes "lb", bytes "lb")
    ∷ (bytes "provider", bytes "dnsProvider")
    ∷ (bytes "etcd", bytes "etcEndpoint")
    ∷ (bytes "etcd-interval-monitoring", bytes "etcd-interval-monitoring")
    ∷ (bytes "election", bytes "election")
    ∷ (bytes "dump-http", bytes "dump-http")
    ∷ (bytes "debug", bytes "debug")
    ∷ (bytes "zone-sync-interval-download", bytes "zone-sync-interval-download")
    ∷ (bytes "zone-sync-interval-upload", bytes "zone-sync-interval-upload")
    ∷ (bytes "mock-file", bytes "mockZonePath")
    ∷ (bytes "mock-file-state", bytes "mockZoneStatePath")
    ∷ (bytes "instance-id", bytes "instance-identifier")
    ∷ (bytes "k8s-kubeconfig", bytes "k8s-kubeconfig")
    ∷ (bytes "k8s-lock-name", bytes "k8s-lock-name")
    ∷ (bytes "k8s-lock-namespace", bytes "k8s-lock-namespace")
    ∷ (bytes "raft-address", bytes "raft-address")
    ∷ (bytes "raft-dir", bytes "raft-dir")
    ∷ (bytes "raft-bootstrap", bytes "raft-bootstrap")
    ∷ (bytes "autodns-username", bytes "autodns-username")
    ∷ (bytes "autodns-password", bytes "autodns-password")
    ∷ []

-- How package flag reads the text of an int and of a bool.
pub record FlagLib : Type 0 where
  pub read_int : Str → Option ℤ
  pub read_bool : Str → Option Bool

-- A flag with its text, as flag.Parse finds them one after another.
abbrev pub Occurrence : Type 0
Occurrence = Str × Str

abbrev pub map_option {ℓ κ} : {A : Type ℓ} {B : Type κ} → (A → B) → Option A → Option B
map_option f none = none
map_option f (some a) = some (f a)

abbrev set_ok : {E : Type 0} → (Dict Str → FlagValue) → Result E (Dict Str) → Option FlagValue
set_ok f (ok m) = some (f m)
set_ok f (err e) = none

-- Set of the variable behind the flag; `none` is an error, which ends the process.
unfoldable pub set_flag : FlagLib → FlagValue → Str → Option FlagValue
unfolding string_map_set map_flags_set string_slice_set
set_flag lib (string_flag s) t = some (string_flag t)
set_flag lib (int_flag i) t = map_option int_flag (lib.read_int t)
set_flag lib (bool_flag b) t = map_option bool_flag (lib.read_bool t)
set_flag lib (slice_flag l) t = some (slice_flag (string_slice_set t l))
set_flag lib (map_flag m) t = set_ok map_flag (string_map_set t m)
set_flag lib (peers_flag m) t = set_ok peers_flag (map_flags_set t m)

-- flag.Parse: the variables; `none` if a flag is not declared or its text is refused.
unfoldable pub parse_flags : FlagLib → List Occurrence → Dict FlagValue → Option (Dict FlagValue)
unfolding set_flag
parse_flags lib [] vars = some vars
parse_flags lib ((name, t) ∷ found) vars = elim (lookup name vars) [
  | none ↦ none
  | some f ↦ elim (set_flag lib f t) [
    | none ↦ none
    | some f' ↦ parse_flags lib found (insert name f' vars)
  ]
]

-- isFlagPassed, by flag.Visit over the flags that were set
unfoldable pub is_flag_passed : List Occurrence → Str → Bool
is_flag_passed [] name = false
is_flag_passed ((n, t) ∷ found) name = if str_eq n name then true else is_flag_passed found name

abbrev pub split_values : Dict Str → Dict (List Str)
split_values [] = []
split_values ((key, value) ∷ lbs) = (key, split value (bytes ",")) ∷ split_values lbs

-- What is stored in viper for the variable.
abbrev pub setting_of : FlagValue → Value
setting_of (string_flag s) = text s
setting_of (int_flag i) = number i
setting_of (bool_flag b) = truth b
setting_of (slice_flag l) = texts l
setting_of (map_flag m) = table (split_values m)
setting_of (peers_flag m) = table (split_values m)

abbrev pub config_file : Option FlagValue → Str
config_file (some (string_flag s)) = s
config_file _ = []

module _ {V : Type 0} (lib : ViperLib V) where
  unfoldable pub set_defaults : Dict Value → V → V
  set_defaults [] v = v
  set_defaults ((key, x) ∷ rest) v = set_defaults rest (lib.set_default key x v)

  abbrev pub store_value : Str → Option FlagValue → V → V
  store_value key none v = v
  store_value key (some f) v = lib.set key (setting_of f) v

  -- `if isFlagPassed(…) { viper.Set(…) }`, for one flag after another
  unfoldable pub set_passed : List Occurrence → Dict FlagValue → List (Str × Str) → V → V
  unfolding is_flag_passed
  set_passed found vars [] v = v
  set_passed found vars ((name, key) ∷ rest) v =
      set_passed found vars rest
        (if is_flag_passed found name then store_value key (lookup name vars) v else v)

  -- The configuration file is only read if it was passed; an error is only logged.
  unfoldable pub read_config : List Occurrence → Dict FlagValue → V → V
  read_config found vars v =
      if is_flag_passed found (bytes "cfg")
      then (lib.read_in_config (config_file (lookup (bytes "cfg") vars)) v).1
      else v

  -- parseCli
  unfoldable pub parse_cli : FlagLib → Str → List Occurrence → V → Option V
  unfolding set_defaults set_passed read_config
  parse_cli flags hostname found v =
      map_option
        (λ vars.
          set_passed found vars settings
            (read_config found vars (set_defaults (viper_defaults hostname) v)))
        (parse_flags flags found (flag_table hostname))
