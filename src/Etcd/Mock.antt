-- ===== src/Etcd/Mock.antt =====
-- ETCDMock: a map under a lock. Each method holds the lock from its first to its last line, so the
-- calls follow one another. A write to the nil map, before Init, is a panic.
use dnslb.Base.{
  Option, none, some, List, [], ◌++◌, Str, bytes, Dict, lookup, insert, str_eq, Result, ok, err,
  if◌then◌else◌, ◌≡◌, refl, lookup-insert, arith,
}
use dnslb.Etcd.{EtcdError}

-- `none` is the nil map.
pub record EtcdMock : Type 0 where
  pub state : Option (Dict Str)

-- What a call of the mock comes to.
pub data Outcome (A : Type 0) : Type 0 where
  returns : Result EtcdError A → EtcdMock → Outcome A
  panics : Outcome A

unfoldable pub init : List Str → EtcdMock → Outcome (Unit {0})
init endpoints e = returns (ok tt) (record { state = some [] })

abbrev set_in : Option (Dict Str) → Str → Str → Outcome (Unit {0})
set_in none key value = panics
set_in (some m) key value = returns (ok tt) (record { state = some (insert key value m) })

unfoldable pub set : Str → Str → EtcdMock → Outcome (Unit {0})
set key value e = set_in e.state key value

abbrev pub not_found : Str → EtcdError
not_found key = bytes "no value for key `" ++ (key ++ bytes "` found")

abbrev pub found_or : Str → Option Str → Result EtcdError Str
found_or key none = err (not_found key)
found_or key (some val) = ok val

-- A read of the nil map finds nothing.
abbrev pub get_in : Option (Dict Str) → Str → Option Str
get_in none key = none
get_in (some m) key = lookup key m

unfoldable pub get : Str → EtcdMock → Outcome Str
get key e = returns (found_or key (get_in e.state key)) e

-- After Init, Set stores the value under its key and changes no other key; a Get after it returns
-- what is stored, or the error that names the key, and changes nothing.
pub get-set :
    (m : Dict Str) (key value other : Str)
    → (e : EtcdMock) × (set key value (record { state = some m }) ≡ returns (ok tt) e)
      × (get other e
          ≡ returns (if str_eq key other then ok value else found_or other (lookup other m)) e)
unfolding set get
get-set m key value other = (
  record { state = some (insert key value m) },
  refl,
  rw (lookup-insert key other value m) (ground arith),
)
