-- ===== src/DnsController/Push.antt =====
-- The loop of sync that updates the zones, against a provider that holds them.
use dnslb.Base.{
  ℕ, true, false, Option, some, List, [], ◌∷◌, map, Str, str_eq, str_eq_iff, ok, All, if◌then◌else◌,
  ◌≡◌, ◌⊎◌, refl, ap, sym, ◌∙◌, arith, Bool-cases, ◌==◌, ==_iff, inl, inr, Dict, lookup, value_or,
}
use mathlib.Core.Option
use mathlib.Core.Path.{subst}
use dnslb.Loadbalancer.{Loadbalancer}
use dnslb.Dns.{DnsTypes, Zone, DnsLaws}
use dnslb.DnsController.{DnsEnv, DnsController}
use dnslb.DnsController.Wanted.{wanted_zone}
use dnslb.DnsController.Sync.{after_update, push_zone, push_zones}
use dnslb.DnsController.Mapping.{has_key}
use dnslb.DnsController.Records.{name-wanted_zone}
use dnslb.DnsController.Reliable.{IsReliable}

module _ {T : DnsTypes} {S : Type 0} (env : DnsEnv T S) (laws : DnsLaws env.lib)
    (hold : S → Str → Option (Zone T)) (listed : S → List Str)
    (reliable : IsReliable env hold listed) (group : Str → List Loadbalancer)
    (held : Str → Option (Zone T)) where
  -- The wanted zone of a name, by the load balancers of the name.
  abbrev pub wanted : Zone T → Zone T
  wanted z = wanted_zone env.lib (group z.name) z

  -- What the provider shall hold under a name.
  abbrev pub target : Str → Option (Zone T)
  target k = Option.map (wanted_zone env.lib (group k)) (held k)

  -- Every name has what it had at first, or what it shall have.
  abbrev pub Between : S → Type 0
  Between s = (k : Str) → (hold s k ≡ held k) ⊎ (hold s k ≡ target k)

  -- The hash tells a zone from the wanted one.
  abbrev pub Distinguished : Type 0
  Distinguished =
      (k : Str) (z : Zone T)
      → held k ≡ some z
      → env.lib.zone_hash z ≡ env.lib.zone_hash (wanted_zone env.lib (group k) z)
      → z ≡ wanted_zone env.lib (group k) z

  -- The controller remembers the hash of the zone.
  abbrev pub Remembered : Dict ℕ → Zone T → Type 0
  Remembered m z = value_or 0 (lookup z.name m) ≡ env.lib.zone_hash z

  push_zone_skip :
      (z : Zone T) (c : DnsController T) (s : S)
      → (value_or 0 (lookup (wanted z).name c.current_zones_hash_map)
          == env.lib.zone_hash (wanted z))
        ≡ true
      → push_zone env (wanted z) (c, s) ≡ (c, s)
  push_zone_skip z c s e = rw e

  push_zone_update :
      (z y : Zone T) (c : DnsController T) (s : S)
      → hold s (wanted z).name ≡ some y
      → (value_or 0 (lookup (wanted z).name c.current_zones_hash_map)
          == env.lib.zone_hash (wanted z))
        ≡ false
      → push_zone env (wanted z) (c, s)
        ≡ (after_update env (wanted z).name c (ok tt), (env.provider.update_zone (wanted z) s).1)
  push_zone_update z y c s found e = rw e (rw (reliable.update_ok (wanted z) y s found))

  hold-skip :
      Distinguished
      → (z : Zone T) (s : S) → held z.name ≡ some z
      → env.lib.zone_hash z ≡ env.lib.zone_hash (wanted z)
      → Between s
      → (k : Str) → hold s k ≡ (if str_eq z.name k then target k else hold s k)
  hold-skip distinct z s here equal between k = elim (Bool-cases (str_eq z.name k)) [
    | inr other ↦ rw other
    | inl same ↦ rw same (
        subst (λ (j : Str). hold s j ≡ target j) ((str_eq_iff z.name k).0 same)
          (already (between z.name)))
  ]
    where
      settled : target z.name ≡ held z.name
      settled =
          ap (Option.map (wanted_zone env.lib (group z.name))) here
          ∙ ap some (sym (distinct z.name z here equal))
          ∙ sym here

      already :
          (hold s z.name ≡ held z.name) ⊎ (hold s z.name ≡ target z.name)
          → hold s z.name ≡ target z.name
      already (inl e) = e ∙ sym settled
      already (inr e) = e

  is_held :
      (z : Zone T) (s : S)
      → held z.name ≡ some z
      → Between s
      → (y : Zone T) × (hold s (wanted z).name ≡ some y)
  is_held z s here between =
      let same = ap (hold s) (name-wanted_zone env.lib laws (group z.name) z) in
      found (between z.name) same
    where
      found :
          (hold s z.name ≡ held z.name) ⊎ (hold s z.name ≡ target z.name)
          → hold s (wanted z).name ≡ hold s z.name
          → (y : Zone T) × (hold s (wanted z).name ≡ some y)
      found (inl e) same = (z, same ∙ e ∙ here)
      found (inr e) same =
          (wanted z, same ∙ e ∙ ap (Option.map (wanted_zone env.lib (group z.name))) here)

  hold-push :
      (z y : Zone T) (s : S)
      → hold s (wanted z).name ≡ some y
      → held z.name ≡ some z
      → (k : Str)
      → hold (env.provider.update_zone (wanted z) s).1 k
        ≡ (if str_eq z.name k then target k else hold s k)
  hold-push z y s found here k =
      reliable.hold-update (wanted z) y s k found
      ∙ ap (λ (n : Str). if str_eq n k then some (wanted z) else hold s k)
          (name-wanted_zone env.lib laws (group z.name) z)
      ∙ (elim (Bool-cases (str_eq z.name k)) [
        | inr other ↦ rw other
        | inl same ↦ rw same (
            subst (λ (j : Str). some (wanted z) ≡ target j) ((str_eq_iff z.name k).0 same)
              (sym (ap (Option.map (wanted_zone env.lib (group z.name))) here)))
      ])

  -- The outcome of the body of the loop at one zone.
  push_zone_lem :
      Distinguished
      → (z : Zone T) (c : DnsController T) (s : S) → held z.name ≡ some z
      → Remembered c.current_zones_hash_map z
      → Between s
      → ((push_zone env (wanted z) (c, s)).0.current_zones_hash_map ≡ c.current_zones_hash_map)
        × ((k : Str)
            → hold (push_zone env (wanted z) (c, s)).1 k
              ≡ (if str_eq z.name k then target k else hold s k))
  push_zone_lem distinct z c s here remembered between =
      elim (Bool-cases (
        value_or 0 (lookup (wanted z).name c.current_zones_hash_map)
        == env.lib.zone_hash (wanted z))) [
          | inl equal ↦ rw (push_zone_skip z c s equal) (
            refl,
            hold-skip distinct z s here (sym remembered ∙ hashes ((==_iff _ _).0 equal)) between,
          )
          | inr other ↦
              let (y, found) = is_held z s here between in
              rw (push_zone_update z y c s found other) (refl, hold-push z y s found here)
        ]
    where
      hashes :
          value_or 0 (lookup (wanted z).name c.current_zones_hash_map)
            ≡ env.lib.zone_hash (wanted z)
          → value_or 0 (lookup z.name c.current_zones_hash_map) ≡ env.lib.zone_hash (wanted z)
      hashes e =
          ap (λ (n : Str). value_or 0 (lookup n c.current_zones_hash_map))
            (sym (name-wanted_zone env.lib laws (group z.name) z))
          ∙ e

  Between-step :
      (z : Zone T) (s s' : S)
      → Between s
      → ((k : Str) → hold s' k ≡ (if str_eq z.name k then target k else hold s k))
      → Between s'
  Between-step z s s' between after k = elim (Bool-cases (str_eq z.name k)) [
    | inl same ↦ inr (after k ∙ rw same)
    | inr other ↦ let e : hold s' k ≡ hold s k = after k ∙ rw other in rw e (between k)
  ]

  -- After the loop the provider holds what it shall hold under the names of the zones of the loop,
  -- and what it held before under any other name.
  pub push_zones_lem :
      Distinguished
      → (zs : List (Zone T)) (c : DnsController T) (s : S) → All (λ z. held z.name ≡ some z) zs
      → All (Remembered c.current_zones_hash_map) zs
      → Between s
      → (k : Str)
      → hold (push_zones env (map wanted zs) (c, s)).1 k
        ≡ (if has_key k (map (λ z. z.name) zs) then target k else hold s k)
  unfolding push_zones
  push_zones_lem distinct [] c s here remembered between k = refl
  push_zones_lem distinct (z ∷ zs) c s here remembered between k =
      let (hash_map, after) = push_zone_lem distinct z c s here.0 remembered.0 between in
      let (c', s') = push_zone env (wanted z) (c, s) in
      push_zones_lem distinct zs c' s' here.1
        (subst (λ (m : Dict ℕ). All (Remembered m) zs) (sym hash_map) remembered.1)
        (Between-step z s s' between after) k
      ∙ ground (arith, after k)
