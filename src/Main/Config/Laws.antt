-- ===== src/Main/Config/Laws.antt =====
-- cfgValidation of main.go against what a running process needs.
use dnslb.Base.{
  Bool, true, false, not, Option, none, Str, bytes, str_eq, str_eq_iff, is_empty, if◌then◌else◌,
  ◌≡◌, ◌⊎◌, refl, sym, Bool-cases, inl, inr,
}
use dnslb.Flags.{str_in_str_slice}
use dnslb.Main.Store.{Viper}
use dnslb.Main.Config.{
  Fatal, fatal_if, provider_names, provider_validation, election_switch, election_validation,
  cfg_validation,
}

-- The text under a key is set.
abbrev pub HasText : Viper → Str → Type 0
HasText viper key = is_empty (viper.get_string key) ≡ false

-- What a running process needs of its configuration: an etcd, a provider and an election with what
-- each of them needs.
pub record IsComplete (viper : Viper) : Type 0 where
  pub has_etcd : is_empty (viper.get_string_slice (bytes "etcEndpoint")) ≡ false
  pub provider :
      ((viper.get_string (bytes "dnsProvider") ≡ bytes "autodns")
        × HasText viper (bytes "autodns-username")
        × HasText viper (bytes "autodns-password"))
      ⊎ (viper.get_string (bytes "dnsProvider") ≡ bytes "mock")
      ⊎ (viper.get_string (bytes "dnsProvider") ≡ bytes "mockjson")
  pub election :
      (viper.get_string (bytes "election") ≡ bytes "singleton")
      ⊎ ((viper.get_string (bytes "election") ≡ bytes "k8s")
          × HasText viper (bytes "instance-identifier")
          × HasText viper (bytes "k8s-lock-name")
          × HasText viper (bytes "k8s-lock-namespace"))
      ⊎ ((viper.get_string (bytes "election") ≡ bytes "raft")
          × HasText viper (bytes "instance-identifier")
          × HasText viper (bytes "raft-address")
          × HasText viper (bytes "raft-dir"))

fatal_if-none :
    (test : Bool) (fatal : Fatal) (rest : Option Fatal)
    → fatal_if test fatal rest ≡ none
    → (test ≡ false) × (rest ≡ none)
unfolding fatal_if
fatal_if-none true fatal rest h = cc
fatal_if-none false fatal rest h = (refl, h)

if_true : {A : Type 0} (b : Bool) (x y z : A) → b ≡ true → (if b then x else y) ≡ z → x ≡ z
if_true true x y z e h = h
if_true false x y z e h = cc

if_false : {A : Type 0} (b : Bool) (x y z : A) → b ≡ false → (if b then x else y) ≡ z → y ≡ z
if_false true x y z e h = cc
if_false false x y z e h = h

fatal_if_three :
    (a b c : Bool) (x y z : Fatal) (rest : Option Fatal)
    → fatal_if a x (fatal_if b y (fatal_if c z rest)) ≡ none
    → (a ≡ false) × (b ≡ false) × (c ≡ false) × (rest ≡ none)
fatal_if_three a b c x y z rest h =
    let (p, more) = fatal_if-none a x _ h in
    let (q, last) = fatal_if-none b y _ more in
    let (r, end) = fatal_if-none c z rest last in (p, q, r, end)

str_eq-of : {a b : Str} → a ≡ b → str_eq a b ≡ true
str_eq-of {a} {b} e = (str_eq_iff a b).1 e

module _ (viper : Viper) where
  provider_validation-credentials :
      provider_validation viper ≡ none
      → viper.get_string (bytes "dnsProvider") ≡ bytes "autodns"
      → (is_empty (viper.get_string (bytes "autodns-username")) ≡ false)
        × (is_empty (viper.get_string (bytes "autodns-password")) ≡ false)
  unfolding provider_validation
  provider_validation-credentials h p =
      let (username, rest) = fatal_if-none _ _ _ (if_true _ _ _ none (str_eq-of p) h) in
      (username, (fatal_if-none _ _ _ rest).0)

  election_validation-lock :
      (rest : Option Fatal)
      → election_validation viper rest ≡ none
      → viper.get_string (bytes "election") ≡ bytes "k8s"
      → (is_empty (viper.get_string (bytes "instance-identifier")) ≡ false)
        × (is_empty (viper.get_string (bytes "k8s-lock-name")) ≡ false)
        × (is_empty (viper.get_string (bytes "k8s-lock-namespace")) ≡ false)
  unfolding election_validation
  election_validation-lock rest h e =
      let (instance_id, lock_name, namespace, _) = fatal_if_three _ _ _ _ _ _ rest (rw e at h) in
      (instance_id, lock_name, namespace)

  election_validation-raft :
      (rest : Option Fatal)
      → election_validation viper rest ≡ none
      → viper.get_string (bytes "election") ≡ bytes "raft"
      → (is_empty (viper.get_string (bytes "instance-identifier")) ≡ false)
        × (is_empty (viper.get_string (bytes "raft-address")) ≡ false)
        × (is_empty (viper.get_string (bytes "raft-dir")) ≡ false)
  unfolding election_validation
  election_validation-raft rest h e =
      let (instance_id, address, dir, _) = fatal_if_three _ _ _ _ _ _ rest (rw e at h) in
      (instance_id, address, dir)

  abbrev ElectionKnown : Type 0
  ElectionKnown =
      (viper.get_string (bytes "election") ≡ bytes "singleton")
      ⊎ (viper.get_string (bytes "election") ≡ bytes "k8s")
      ⊎ (viper.get_string (bytes "election") ≡ bytes "raft")

  election_switch-known :
      (rest : Option Fatal) → election_switch viper rest ≡ none → ElectionKnown × (rest ≡ none)
  election_switch-known rest h =
      elim (Bool-cases (str_eq (viper.get_string (bytes "election")) (bytes "k8s"))) [
        | inl e ↦ (
          inr (inl ((str_eq_iff _ _).0 e)),
          (fatal_if_three _ _ _ _ _ _ rest (if_true _ _ _ none e h)).3,
        )
        | inr e ↦ elim (Bool-cases (str_eq (viper.get_string (bytes "election")) (bytes "raft"))) [
          | inl f ↦ (
            inr (inr ((str_eq_iff _ _).0 f)),
            (fatal_if_three _ _ _ _ _ _ rest (if_true _ _ _ none f (if_false _ _ _ none e h))).3,
          )
          | inr f ↦ cc (if_false _ _ _ none f (if_false _ _ _ none e h))
        ]
      ]

  election_validation-known :
      (rest : Option Fatal) → election_validation viper rest ≡ none → ElectionKnown × (rest ≡ none)
  unfolding election_validation
  election_validation-known rest h =
      elim (Bool-cases (str_eq (viper.get_string (bytes "election")) (bytes "singleton"))) [
        | inl e ↦ (inl ((str_eq_iff _ _).0 e), if_true _ _ _ none e h)
        | inr e ↦ election_switch-known rest (if_false _ _ _ none e h)
      ]

  provider_names_known :
      (p : Str)
      → str_in_str_slice p provider_names ≡ true
      → (p ≡ bytes "autodns") ⊎ (p ≡ bytes "mock") ⊎ (p ≡ bytes "mockjson")
  unfolding str_in_str_slice
  provider_names_known p h = elim (Bool-cases (str_eq (bytes "autodns") p)) [
    | inl e ↦ inl (sym ((str_eq_iff _ _).0 e))
    | inr e ↦ elim (Bool-cases (str_eq (bytes "mock") p)) [
      | inl f ↦ inr (inl (sym ((str_eq_iff _ _).0 f)))
      | inr f ↦ elim (Bool-cases (str_eq (bytes "mockjson") p)) [
        | inl g ↦ inr (inr (sym ((str_eq_iff _ _).0 g)))
        | inr g ↦ cc (rw (e, f, g) at h)
      ]
    ]
  ]

not-false : (b : Bool) → not b ≡ false → b ≡ true
not-false true h = refl
not-false false h = cc

-- A configuration that passes the validation has an etcd and a known provider and election; with
-- autodns it has the user name and the password, with k8s the identity, the name and the namespace
-- of the lock, and with raft the identity, the address and the directory.
pub cfg_validation-IsComplete : (viper : Viper) → cfg_validation viper ≡ none → IsComplete viper
unfolding cfg_validation
cfg_validation-IsComplete viper h =
    let (provider, more) = fatal_if-none _ _ _ h in
    let (etcds, rest) = fatal_if-none _ _ _ more in
    let (election, last) = election_validation-known viper (provider_validation viper) rest in
    record {
      has_etcd = etcds;
      provider = elim (provider_names_known viper _ (not-false _ provider)) [
        | inl autodns ↦
            let (username, password) = provider_validation-credentials viper last autodns in
            inl (autodns, username, password)
        | inr others ↦ inr others
      ];
      election = elim election [
        | inl singleton ↦ inl singleton
        | inr (inl k8s) ↦
            let (id, name, namespace) =
              election_validation-lock viper (provider_validation viper) rest k8s in
            inr (inl (k8s, id, name, namespace))
        | inr (inr raft) ↦
            let (id, address, dir) =
              election_validation-raft viper (provider_validation viper) rest raft in
            inr (inr (raft, id, address, dir))
      ];
    }

-- A singleton with an etcd and the provider mock passes although no zone file is set: a key that is
-- not set is nil, and nil is not the empty string.
pub cfg_validation_mock :
    (viper : Viper)
    → viper.get_string (bytes "dnsProvider") ≡ bytes "mock"
    → is_empty (viper.get_string_slice (bytes "etcEndpoint")) ≡ false
    → viper.get_string (bytes "election") ≡ bytes "singleton"
    → viper.get (bytes "mockZonePath") ≡ none
    → cfg_validation viper ≡ none
unfolding cfg_validation
cfg_validation_mock viper p e s m = rw (p, e, s, m)
