-- ===== src/Metrics/Examples.antt =====
-- Metrics.Init at a registry that is a list of names.
use dnslb.Base.{
  lookup, some, Bool, true, false, ◌||◌, List, [], ◌∷◌, Str, bytes, str_eq, any, Result, ok, err,
  if◌then◌else◌, ◌≡◌, refl, sym, arith, Bool-cases, str_eq_iff, inl, inr,
}
use mathlib.Core.Path.{subst}
use dnslb.Metrics.{Metrics, unset, Collector, full_name, not_registered, collectors, init}
use dnslb.Metrics.Laws.{IsRegistry, named, first_some, number_of, init_once}

abbrev has : List Str → Str → Bool
has r k = any (λ n. str_eq n k) r

abbrev register : Collector → List Str → Result Str (Unit {0}) × List Str
register c r =
    if has r (full_name c)
    then (err (bytes "duplicate metrics collector registration attempted"), r)
    else (ok tt, full_name c ∷ r)

register-IsRegistry : IsRegistry register has
register-IsRegistry = record {
  register_ok = λ c r h. rw h;
  has-register = λ c r k h. rw h (ground arith);
  register_taken = λ c r h. (bytes "duplicate metrics collector registration attempted", rw h);
}

abbrev go_collector : List Str
go_collector = bytes "go_goroutines" ∷ []

not_named : named (bytes "go_goroutines") collectors ≡ false
unfolding collectors
not_named = refl

names_free : (k : Str) → named k collectors ≡ true → has go_collector k ≡ false
names_free k h = elim (Bool-cases (str_eq (bytes "go_goroutines") k)) [
  | inr other ↦ rw other
  | inl same ↦ absurd (clash ((str_eq_iff (bytes "go_goroutines") k).0 same))
]
  where
    clash : bytes "go_goroutines" ≡ k → ⊥
    clash e = cc (not_named, subst (λ (j : Str). named j collectors ≡ true) (sym e) h)

init_once_example :
    ((init register unset go_collector).0 ≡ ok tt)
    × ((k : Str)
        → lookup k (init register unset go_collector).1.held
          ≡ first_some (number_of k 0 collectors) (lookup k []))
    × ((k : Str)
        → has (init register unset go_collector).2 k ≡ (named k collectors || has go_collector k))
    × (e : Str) × (m' : Metrics) × (init register
          (init register unset go_collector).1
          (init register unset go_collector).2
        ≡ (err (not_registered (bytes "ErrorsTotal") e), m', (init register unset go_collector).2))
    × ((k : Str)
        → lookup k m'.held ≡ (
            if str_eq (bytes "ErrorsTotal") k
            then some (init register unset go_collector).1.made
            else lookup k (init register unset go_collector).1.held))
init_once_example = init_once register has register-IsRegistry unset go_collector names_free
