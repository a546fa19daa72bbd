-- ===== src/DnsController/Reliable.antt =====
-- A provider that holds zones under their names, and the zones that updateCurrentZones reads from it.
use dnslb.Base.{
  ℕ, true, false, Option, some, List, [], ◌∷◌, ◌++◌, map, Str, str_eq, str_eq_iff, str_eq_refl, ok,
  All, is_empty, if◌then◌else◌, ◌≡◌, refl, ap, sym, ◌∙◌, arith, append-nil, append_assoc,
  Bool-cases, inl, inr, Option-cases, Dict, lookup, insert, lookup-insert,
}
use mathlib.Core.Path.{subst}
use dnslb.Loadbalancer.{Loadbalancer}
use dnslb.Dns.{DnsTypes, Zone}
use dnslb.DnsController.{DnsEnv}
use dnslb.DnsController.Match.{first_zone}
use dnslb.DnsController.Current.{fetch_zones, hash_zones}
use dnslb.DnsController.Mapping.{has_key, zone_lbs}

-- The provider holds the zone `hold s k` under the name `k`, and lists names under which it holds
-- zones of those names. Reading succeeds for what it holds and changes nothing; an update of a zone
-- that it holds succeeds and replaces that zone. Sorting and visiting neither add nor drop a key.
pub record IsReliable {T : DnsTypes} {S : Type 0} (env : DnsEnv T S)
    (hold : S → Str → Option (Zone T)) (listed : S → List Str) : Type 0 where
  pub list_ok : (s : S) → (env.provider.list_zones s).0 ≡ ok (listed s)
  pub listed_held :
      (s : S) (k : Str)
      → has_key k (listed s) ≡ true
      → (z : Zone T) × (hold s k ≡ some z) × (z.name ≡ k)
  pub hold-list : (s : S) → hold (env.provider.list_zones s).1 ≡ hold s
  pub get_ok :
      (k : Str) (s : S) (z : Zone T) → hold s k ≡ some z → (env.provider.get_zone k s).0 ≡ ok z
  pub hold-get : (k : Str) (s : S) → hold (env.provider.get_zone k s).1 ≡ hold s
  pub update_ok :
      (z y : Zone T) (s : S) → hold s z.name ≡ some y → (env.provider.update_zone z s).0 ≡ ok tt
  pub hold-update :
      (z y : Zone T) (s : S) (k : Str)
      → hold s z.name ≡ some y
      → hold (env.provider.update_zone z s).1 k ≡ (if str_eq z.name k then some z else hold s k)
  pub has_key-sort : (k : Str) (l : List Str) → has_key k (env.sort_by_length l) ≡ has_key k l
  pub has_key-range :
      (s : S) (k : Str) (l : List Str) → has_key k (env.range_keys s l) ≡ has_key k l

first_zone-has_key :
    (name k : Str) (names : List Str) → first_zone name names ≡ some k → has_key k names ≡ true
unfolding first_zone
first_zone-has_key name k [] h = cc
first_zone-has_key name k (z ∷ names) h =
    ground (arith, str_eq_iff z k, first_zone-has_key name k names)

pub zone_lbs-has_key :
    (names : List Str) (lbs : List Loadbalancer) (k : Str)
    → is_empty (zone_lbs names lbs k) ≡ false
    → has_key k names ≡ true
zone_lbs-has_key names [] k h = cc
zone_lbs-has_key names (lb ∷ lbs) k h = elim (Option-cases (first_zone lb.name names)) [
  | inl e ↦ zone_lbs-has_key names lbs k (rw e at h)
  | inr (z, e) ↦ elim (Bool-cases (str_eq z k)) [
    | inl same ↦ first_zone-has_key lb.name k names (e ∙ ap some ((str_eq_iff z k).0 same))
    | inr other ↦ zone_lbs-has_key names lbs k (rw other at (rw e at h))
  ]
]

module _ {T : DnsTypes} {S : Type 0} (env : DnsEnv T S) (hold : S → Str → Option (Zone T))
    (listed : S → List Str) (reliable : IsReliable env hold listed) where
  -- What the loop over the keys reads: the held zones of those names.
  abbrev pub Fetched : List Str → List (Zone T) → S → Type 0
  Fetched names acc s =
      (zs : List (Zone T)) × (s' : S) × (fetch_zones env names acc s ≡ (ok (acc ++ zs), s'))
      × (map (λ z. z.name) zs ≡ names)
      × (hold s' ≡ hold s)
      × All (λ z. hold s z.name ≡ some z) zs

  fetch_zones_step :
      (k : Str) (names : List Str) (acc : List (Zone T)) (s : S) (z : Zone T)
      → hold s k ≡ some z
      → fetch_zones env (k ∷ names) acc s
        ≡ fetch_zones env names (acc ++ z ∷ []) (env.provider.get_zone k s).1
  unfolding fetch_zones
  fetch_zones_step k names acc s z held = rw (reliable.get_ok k s z held, fetch_zones)

  Fetched-one :
      (k : Str) (names : List Str) (acc : List (Zone T)) (s : S) (z : Zone T)
      → hold s k ≡ some z
      → z.name ≡ k
      → Fetched names (acc ++ z ∷ []) (env.provider.get_zone k s).1
      → Fetched (k ∷ names) acc s
  Fetched-one k names acc s z held named (zs, s', run, names', same', all) =
      let same = reliable.hold-get k s in
      (
        z ∷ zs,
        s',
        fetch_zones_step k names acc s z held
            ∙ run
            ∙ ap (λ l. (ok l, s')) (append_assoc acc (z ∷ []) zs),
        (λ i. named i ∷ names' i),
        same' ∙ same,
        (
          ap (hold s) named ∙ held,
          subst (λ (f : Str → Option (Zone T)). All (λ y. f y.name ≡ some y) zs) same all,
        ),
      )

  pub fetch_zones_ok :
      (names : List Str) (acc : List (Zone T)) (s : S)
      → ((k : Str) → has_key k names ≡ true → (z : Zone T) × (hold s k ≡ some z) × (z.name ≡ k))
      → Fetched names acc s
  fetch_zones_ok [] acc s h =
      ([], s, unfold fetch_zones in ap (λ l. (ok l, s)) (sym (append-nil acc)), refl, refl, tt)
  fetch_zones_ok (k ∷ names) acc s h =
      let here = h k (rw (str_eq_refl k)) in
      let later = λ (j : Str) (m : has_key j names ≡ true).
        subst (λ (f : Str → Option (Zone T)). (z : Zone T) × (f j ≡ some z) × (z.name ≡ j))
          (sym (reliable.hold-get k s)) (h j (ground arith)) in
      Fetched-one k names acc s here.0 here.1 here.2
        (fetch_zones_ok names (acc ++ here.0 ∷ []) (env.provider.get_zone k s).1 later)

  -- The hash that is remembered for each zone that was read.
  pub hash_zones_lem :
      (k : Str) (z : Zone T) (zs : List (Zone T)) (m : Dict ℕ) (h : Str → Option (Zone T))
      → h k ≡ some z
      → All (λ y. h y.name ≡ some y) zs
      → lookup k (hash_zones env m zs)
        ≡ (if has_key k (map (λ y. y.name) zs) then some (env.lib.zone_hash z) else lookup k m)
  unfolding hash_zones
  hash_zones_lem k z [] m h hk all = refl
  hash_zones_lem k z (y ∷ zs) m h hk all =
      hash_zones_lem k z zs (insert y.name (env.lib.zone_hash y) m) h hk all.1
      ∙ rw (lookup-insert y.name k (env.lib.zone_hash y) m) (elim (Bool-cases (str_eq y.name k)) [
        | inl same ↦
            let one : some y ≡ some z = sym all.0 ∙ ap h ((str_eq_iff y.name k).0 same) ∙ hk in
            let same_zone : y ≡ z = cc in rw (same, ap env.lib.zone_hash same_zone) (ground arith)
        | inr other ↦ rw other
      ])
