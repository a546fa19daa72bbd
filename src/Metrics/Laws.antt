-- ===== src/Metrics/Laws.antt =====
-- Metrics.Init of metrics.go against a registry that refuses a name that it has.
use dnslb.Base.{
  ℕ, suc, Option, none, some, lookup, lookup-insert, if◌then◌else◌, Bool, true, false, not, ◌||◌,
  ◌&&◌, List, [], ◌∷◌, Str, bytes, str_eq, str_eq_iff, str_eq_refl, any, Result, ok, err, ◌≡◌, refl,
  ap, ◌∙◌, arith,
}
use dnslb.Metrics.{
  Metrics, assign, Collector, counter, full_name, not_registered, collectors, register_all, init,
}

-- What Prometheus documents of its registry: a collector is registered unless its name is, and then
-- the registry has that name too; an error changes nothing.
pub record IsRegistry {R : Type 0} (register : Collector → R → Result Str (Unit {0}) × R)
    (has : R → Str → Bool) : Type 0 where
  pub register_ok : (c : Collector) (r : R) → has r (full_name c) ≡ false → (register c r).0 ≡ ok tt
  pub has-register :
      (c : Collector) (r : R) (k : Str)
      → has r (full_name c) ≡ false
      → has (register c r).1 k ≡ (str_eq (full_name c) k || has r k)
  pub register_taken :
      (c : Collector) (r : R) → has r (full_name c) ≡ true → (e : Str) × (register c r ≡ (err e, r))

-- Whether one of the collectors has the name.
abbrev pub named : Str → List Collector → Bool
named k cs = any (λ c. str_eq (full_name c) k) cs

-- No two collectors have the same name.
abbrev pub distinct : List Collector → Bool
distinct [] = true
distinct (c ∷ cs) = not (named (full_name c) cs) && distinct cs

abbrev pub first_some : {A : Type 0} → Option A → Option A → Option A
first_some none o = o
first_some (some a) o = some a

-- The number of the collector for the field, if they are made one after another, beginning with n.
abbrev pub number_of : Str → ℕ → List Collector → Option ℕ
number_of k n [] = none
number_of k n (c ∷ cs) =
    first_some (number_of k (suc n) cs) (if str_eq c.field k then some n else none)

abbrev errors_total : Collector
errors_total = record {
  field = bytes "ErrorsTotal";
  kind = counter;
  subsystem = bytes "general";
  name = bytes "errors_total";
  labels = [];
}

module _ {R : Type 0} (register : Collector → R → Result Str (Unit {0}) × R) (has : R → Str → Bool)
    (registry : IsRegistry register has) where
  register_all_step :
      (c : Collector) (cs : List Collector) (m : Metrics) (r : R)
      → has r (full_name c) ≡ false
      → register_all register (c ∷ cs) m r ≡ register_all register cs (assign c m) (register c r).1
  unfolding register_all
  register_all_step c cs m r free = rw (registry.register_ok c r free, register_all)

  held_step :
      (k : Str) (c : Collector) (cs : List Collector) (m : Metrics)
      → first_some (number_of k (suc m.made) cs) (lookup k (assign c m).held)
        ≡ first_some (number_of k m.made (c ∷ cs)) (lookup k m.held)
  held_step k c cs m =
      ap (first_some (number_of k (suc m.made) cs)) (lookup-insert c.field k m.made m.held)
      ∙ chosen (number_of k (suc m.made) cs) (str_eq c.field k)
    where
      chosen :
          (o : Option ℕ) (b : Bool)
          → first_some o (if b then some m.made else lookup k m.held)
            ≡ first_some (first_some o (if b then some m.made else none)) (lookup k m.held)
      chosen (some n) b = refl
      chosen none true = refl
      chosen none false = refl

  register_all_ok :
      (cs : List Collector) (m : Metrics) (r : R)
      → distinct cs ≡ true
      → ((k : Str) → named k cs ≡ true → has r k ≡ false)
      → ((register_all register cs m r).0 ≡ ok tt)
        × ((k : Str)
            → lookup k (register_all register cs m r).1.held
              ≡ first_some (number_of k m.made cs) (lookup k m.held))
        × ((k : Str) → has (register_all register cs m r).2 k ≡ (named k cs || has r k))
  register_all_ok [] m r d free = unfold register_all in (refl, (λ k. refl), λ k. refl)
  register_all_ok (c ∷ cs) m r d free =
      let first : has r (full_name c) ≡ false =
        free (full_name c) (rw (str_eq_refl (full_name c))) in
      let later : (k : Str) → named k cs ≡ true → has (register c r).1 k ≡ false = λ k m.
        registry.has-register c r k first ∙ ground (arith, free k, str_eq_iff (full_name c) k) in
      let (done, fields, names) =
        register_all_ok cs (assign c m) (register c r).1 (ground arith) later in
      rw (register_all_step c cs m r first) (
        done,
        (λ k. fields k ∙ held_step k c cs m),
        λ k. names k ∙ rw (registry.has-register c r k first) (ground arith),
      )

  register_all_taken :
      (c : Collector) (cs : List Collector) (m : Metrics) (r : R)
      → has r (full_name c) ≡ true
      → (e : Str) × (register_all register (c ∷ cs) m r
          ≡ (err (not_registered c.field e), assign c m, r))
  unfolding register_all
  register_all_taken c cs m r taken =
      let (e, refused) = registry.register_taken c r taken in
      let result : (register c r).0 ≡ err e = ap (λ (p : Result Str (Unit {0}) × R). p.0) refused in
      let same : (register c r).1 ≡ r = ap (λ (p : Result Str (Unit {0}) × R). p.1) refused in
      (e, rw (result, same, register_all))

  collectors_first : (others : List Collector) × (collectors ≡ errors_total ∷ others)
  unfolding collectors
  collectors_first = (_, refl)

  collectors-distinct : distinct collectors ≡ true
  unfolding collectors
  collectors-distinct = refl

  init_taken :
      (m : Metrics) (r : R)
      → has r (bytes "general_errors_total") ≡ true
      → (e : Str) × (init register m r
          ≡ (err (not_registered (bytes "ErrorsTotal") e), assign errors_total m, r))
  unfolding init
  init_taken m r taken =
      let (others, first) = collectors_first in
      let (e, refused) = register_all_taken errors_total others m r taken in
      (e, ap (λ cs. register_all register cs m r) first ∙ refused)

  first_named : named (bytes "general_errors_total") collectors ≡ true
  unfolding collectors
  first_named = refl

  again_taken :
      (m : Metrics) (r : R)
      → ((k : Str)
          → has (register_all register collectors m r).2 k ≡ (named k collectors || has r k))
      → has (init register m r).2 (bytes "general_errors_total") ≡ true
  unfolding init
  again_taken m r names = names (bytes "general_errors_total") ∙ rw first_named

  -- On a registry that refuses exactly the names that it has, if none of the names is registered,
  -- Init succeeds, each field of a collector holds the one that was made for it, in the order of the
  -- collectors, and the registry has their names and the ones that it had; a second Init fails at
  -- ErrorsTotal: it leaves the registry as it was, but the field ErrorsTotal then holds one more new
  -- collector, while the other fields hold what they held.
  pub init_once :
      (m : Metrics) (r : R)
      → ((k : Str) → named k collectors ≡ true → has r k ≡ false)
      → ((init register m r).0 ≡ ok tt)
        × ((k : Str)
            → lookup k (init register m r).1.held
              ≡ first_some (number_of k m.made collectors) (lookup k m.held))
        × ((k : Str) → has (init register m r).2 k ≡ (named k collectors || has r k))
        × (e : Str) × (m' : Metrics) × (init register (init register m r).1 (init register m r).2
            ≡ (err (not_registered (bytes "ErrorsTotal") e), m', (init register m r).2))
        × ((k : Str)
            → lookup k m'.held ≡ (
                if str_eq (bytes "ErrorsTotal") k
                then some (init register m r).1.made
                else lookup k (init register m r).1.held))
  init_once m r free =
      let (done, fields, names) = register_all_ok collectors m r collectors-distinct free in
      let (e, again) =
        init_taken (init register m r).1 (init register m r).2 (again_taken m r names) in
      (
        unfold init in done,
        unfold init in fields,
        unfold init in names,
        e,
        _,
        again,
        λ k.
            lookup-insert (bytes "ErrorsTotal") k (init register m r).1.made
              (init register m r).1.held,
      )
