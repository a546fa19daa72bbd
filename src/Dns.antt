-- ===== src/Dns.antt =====
-- What the program uses of package github.com/NectGmbH/dns, which is a parameter: zones, their
-- records, and the providers that hold them.
pub mod Debug
use dnslb.Base.{ℕ, List, Str, Result, Bool, not, true, ◌&&◌, keep, str_eq, ◌≡◌, ◌↔◌}

-- The types that the program does not look into: of a record's class and of its type, and of what a
-- zone has besides its name and its records.
pub record DnsTypes : Type 1 where
  pub Class : Type 0
  pub RecordType : Type 0
  pub Rest : Type 0

module _ (T : DnsTypes) where
  open T use {Class, RecordType, Rest}

  -- dns.Record, with the fields that the program sets.
  pub record Record : Type 0 where
    pub class : Class
    pub name : Str
    pub ttl : ℕ
    pub type : RecordType
    pub value : Str
    pub preference : ℕ

  -- dns.Zone
  pub record Zone : Type 0 where
    pub name : Str
    pub records : List Record
    pub rest : Rest

-- The error of a provider, with its message.
abbrev pub DnsError : Type 0
DnsError = Str

-- The functions and constants of the package.
pub record DnsLib (T : DnsTypes) : Type 0 where
  pub class_in : T.Class
  pub type_a : T.RecordType
  -- Zone.Hash and Zones.Hash
  pub zone_hash : Zone T → ℕ
  pub zones_hash : List (Zone T) → ℕ
  -- Zones.Copy
  pub copy : List (Zone T) → List (Zone T)
  -- Zone.RemoveRecordsWithName
  pub remove_records_with_name : Str → T.RecordType → Zone T → Zone T

-- dns.Provider, over the state `S` of whoever implements it.
pub record DnsProvider (T : DnsTypes) (S : Type 0) : Type 0 where
  pub create_zone : Zone T → S → Result DnsError (Unit {0}) × S
  pub get_zone : Str → S → Result DnsError (Zone T) × S
  pub list_zones : S → Result DnsError (List Str) × S
  pub update_zone : Zone T → S → Result DnsError (Unit {0}) × S
  pub delete_zone : Str → S → Result DnsError (Unit {0}) × S

-- What the package documents: Copy is a deep copy, and RemoveRecordsWithName takes out the records
-- with the name and the type, and nothing else.
pub record DnsLaws {T : DnsTypes} (lib : DnsLib T) : Type 0 where
  pub same_type : T.RecordType → T.RecordType → Bool
  pub same_type_iff : (a b : T.RecordType) → (same_type a b ≡ true) ↔ (a ≡ b)
  pub copy_lem : (zones : List (Zone T)) → lib.copy zones ≡ zones
  pub remove_lem :
      (n : Str) (t : T.RecordType) (z : Zone T)
      → lib.remove_records_with_name n t z
        ≡ record z { records = keep (λ r. not (str_eq r.name n && same_type r.type t)) z.records }
