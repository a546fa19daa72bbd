-- ===== src/Main/Store.antt =====
-- Package github.com/spf13/viper, as far as main.go calls it: a parameter, with what it documents.
use dnslb.Base.{
  ℕ, ◌+◌, Bool, true, not, ◌&&◌, Option, none, some, List, map, Str, bytes, str_eq, Dict, Result,
  leb, if◌then◌else◌, ◌≡◌,
}
use dnslb.Go.Decimal.{ℤ, pos}
use dnslb.Go.Strings.{contains}

-- A value of the configuration.
pub data Value : Type 0 where
  text : Str → Value
  number : ℤ → Value
  truth : Bool → Value
  texts : List Str → Value
  table : Dict (List Str) → Value
  other : Value

-- What the program reads: Get, which is nil for a key that is not set, and the typed getters.
pub record Viper : Type 0 where
  pub get : Str → Option Value
  pub get_string : Str → Str
  pub get_string_slice : Str → List Str
  pub get_bool : Str → Bool
  pub get_int : Str → ℤ
  pub get_string_map_string_slice : Str → Dict (List Str)

-- The calls, over the state `V` of the package.
pub record ViperLib (V : Type 0) : Type 0 where
  pub set : Str → Value → V → V
  pub set_default : Str → Value → V → V
  -- SetConfigName of a name, SetConfigType, AddConfigPath and ReadInConfig
  pub read_in_config : Str → V → Result Str (Unit {0}) × V
  pub view : V → Viper

abbrev pub lower_byte : ℕ → ℕ
lower_byte c = if leb 65 c && leb c 90 then c + 32 else c

-- Keys are case-insensitive.
abbrev pub same_key : Str → Str → Bool
same_key k j = str_eq (map lower_byte k) (map lower_byte j)

-- A key with no dot, which would lead into a nested map.
abbrev pub is_plain : Str → Bool
is_plain k = not (contains k (bytes "."))

-- The first of two values that is set.
abbrev pub first_set {ℓ} : {A : Type ℓ} → Option A → Option A → Option A
first_set (some x) o = some x
first_set none o = o

-- What the package documents: a value that Set gave a key comes first, then the configuration file,
-- then SetDefault; and a typed getter returns a value of its type, and the zero value for a key that
-- is not set.
pub record ViperLaws {V : Type 0} (lib : ViperLib V) : Type 0 where
  pub explicit : V → Str → Option Value
  pub config : V → Str → Option Value
  pub fallback : V → Str → Option Value
  pub get_lem :
      (v : V) (k : Str)
      → (lib.view v).get k ≡ first_set (explicit v k) (first_set (config v k) (fallback v k))
  pub explicit-set :
      (k j : Str) (x : Value) (v : V)
      → is_plain k ≡ true
      → is_plain j ≡ true
      → explicit (lib.set k x v) j ≡ (if same_key k j then some x else explicit v j)
  pub config-set : (k j : Str) (x : Value) (v : V) → config (lib.set k x v) j ≡ config v j
  pub fallback-set : (k j : Str) (x : Value) (v : V) → fallback (lib.set k x v) j ≡ fallback v j
  pub explicit-set_default :
      (k j : Str) (x : Value) (v : V) → explicit (lib.set_default k x v) j ≡ explicit v j
  pub config-set_default :
      (k j : Str) (x : Value) (v : V) → config (lib.set_default k x v) j ≡ config v j
  pub fallback-set_default :
      (k j : Str) (x : Value) (v : V)
      → is_plain k ≡ true
      → is_plain j ≡ true
      → fallback (lib.set_default k x v) j ≡ (if same_key k j then some x else fallback v j)
  pub explicit-read : (f j : Str) (v : V) → explicit (lib.read_in_config f v).1 j ≡ explicit v j
  pub fallback-read : (f j : Str) (v : V) → fallback (lib.read_in_config f v).1 j ≡ fallback v j
  pub get_string_text :
      (v : V) (k x : Str) → (lib.view v).get k ≡ some (text x) → (lib.view v).get_string k ≡ x
  pub get_string_slice_texts :
      (v : V) (k : Str) (l : List Str)
      → (lib.view v).get k ≡ some (texts l)
      → (lib.view v).get_string_slice k ≡ l
  pub get_int_number :
      (v : V) (k : Str) (i : ℤ) → (lib.view v).get k ≡ some (number i) → (lib.view v).get_int k ≡ i
  pub get_bool_truth :
      (v : V) (k : Str) (b : Bool)
      → (lib.view v).get k ≡ some (truth b)
      → (lib.view v).get_bool k ≡ b
  pub get_int_none : (v : V) (k : Str) → (lib.view v).get k ≡ none → (lib.view v).get_int k ≡ pos 0
  pub get_table :
      (v : V) (k : Str) (m : Dict (List Str))
      → (lib.view v).get k ≡ some (table m)
      → (lib.view v).get_string_map_string_slice k ≡ m

-- Nothing has been set yet.
pub record IsFresh {V : Type 0} {lib : ViperLib V} (laws : ViperLaws lib) (v : V) : Type 0 where
  pub no_explicit : (k : Str) → laws.explicit v k ≡ none
  pub no_config : (k : Str) → laws.config v k ≡ none
  pub no_fallback : (k : Str) → laws.fallback v k ≡ none
