-- ===== src/DnsController/Examples/Provider.antt =====
-- A package dns and a provider for the tests: a zone is a name and its records, the type of a record
-- is a number, and the provider is a list of zones.
use dnslb.Base.{
  ℕ, ◌+◌, ◌*◌, true, not, ◌&&◌, Option, none, some, List, [], ◌∷◌, ◌++◌, map, Str, bytes, str_eq,
  str_eq_iff, ◌==◌, ==_iff, Result, ok, err, keep, if◌then◌else◌, ◌≡◌, refl, arith, Bool-cases, inl,
  inr,
}
use dnslb.Dns.{DnsTypes, Record, Zone, DnsError, DnsLib, DnsProvider, DnsLaws}
use dnslb.DnsController.{DnsEnv}
use dnslb.DnsController.Mapping.{has_key}
use dnslb.DnsController.Reliable.{IsReliable}

abbrev pub Types : DnsTypes
Types = record { Class = Unit {0}; RecordType = ℕ; Rest = Unit {0} }

abbrev hash_str : Str → ℕ
hash_str [] = 0
hash_str (b ∷ s) = b + 257 * hash_str s + 1

abbrev hash_records : List (Record Types) → ℕ
hash_records [] = 0
hash_records (r ∷ rs) = hash_str r.name + 3 * hash_str r.value + 7 * hash_records rs + 1

abbrev hash_zone : Zone Types → ℕ
hash_zone z = hash_str z.name + hash_records z.records

abbrev hash_zone_list : List (Zone Types) → ℕ
hash_zone_list [] = 0
hash_zone_list (z ∷ zs) = hash_zone z + hash_zone_list zs

abbrev pub lib : DnsLib Types
lib = record {
  class_in = tt;
  type_a = 1;
  zone_hash = hash_zone;
  zones_hash = hash_zone_list;
  copy = λ zones. zones;
  remove_records_with_name =
      λ n t z. record z { records = keep (λ r. not (str_eq r.name n && (r.type == t))) z.records };
}

pub lib-laws : DnsLaws lib
lib-laws = record {
  same_type = ◌==◌;
  same_type_iff = ==_iff;
  copy_lem = λ zones. refl;
  remove_lem = λ n t z. refl;
}

abbrev pub hold : List (Zone Types) → Str → Option (Zone Types)
hold [] k = none
hold (z ∷ s) k = if str_eq z.name k then some z else hold s k

abbrev pub listed : List (Zone Types) → List Str
listed s = map (λ z. z.name) s

abbrev replace : Zone Types → List (Zone Types) → List (Zone Types)
replace z [] = []
replace z (y ∷ s) = if str_eq y.name z.name then z ∷ s else y ∷ replace z s

abbrev or_missing : {A : Type 0} → A → Option (Zone Types) → Result DnsError A
or_missing a none = err (bytes "unknown zone")
or_missing a (some z) = ok a

abbrev get_zone : Option (Zone Types) → Result DnsError (Zone Types)
get_zone none = err (bytes "unknown zone")
get_zone (some z) = ok z

abbrev pub provider : DnsProvider Types (List (Zone Types))
provider = record {
  create_zone = λ z s. (ok tt, s ++ z ∷ []);
  get_zone = λ k s. (get_zone (hold s k), s);
  list_zones = λ s. (ok (listed s), s);
  update_zone = λ z s. (or_missing tt (hold s z.name), replace z s);
  delete_zone = λ k s. (or_missing tt (hold s k), keep (λ z. not (str_eq z.name k)) s);
}

-- The tests list the zones in the order of their lengths.
abbrev pub env : DnsEnv Types (List (Zone Types))
env = record {
  lib = lib;
  provider = provider;
  now = λ s. 1000;
  sort_by_length = λ l. l;
  range_keys = λ s l. l;
}

hold_named :
    (s : List (Zone Types)) (k : Str)
    → has_key k (listed s) ≡ true
    → (z : Zone Types) × (hold s k ≡ some z) × (z.name ≡ k)
hold_named [] k h = cc
hold_named (y ∷ s) k h = elim (Bool-cases (str_eq y.name k)) [
  | inl same ↦ (y, rw same, (str_eq_iff y.name k).0 same)
  | inr other ↦ rw other (hold_named s k (rw other at h))
]

hold-replace :
    (z y : Zone Types) (s : List (Zone Types)) (k : Str)
    → hold s z.name ≡ some y
    → hold (replace z s) k ≡ (if str_eq z.name k then some z else hold s k)
hold-replace z y [] k h = cc
hold-replace z y (x ∷ s) k h = ground (
  arith,
  str_eq_iff x.name z.name,
  str_eq_iff x.name k,
  str_eq_iff z.name k,
  hold-replace z y s k,
)

pub env-IsReliable : IsReliable env hold listed
env-IsReliable = record {
  list_ok = λ s. refl;
  listed_held = hold_named;
  hold-list = λ s. refl;
  get_ok = λ k s z h. rw h;
  hold-get = λ k s. refl;
  update_ok = λ z y s h. rw h;
  hold-update = hold-replace;
  has_key-sort = λ k l. refl;
  has_key-range = λ s k l. refl;
}
