-- ===== src/DnsController/Settled.antt =====
-- sync of dnsController.go with `force`, at a provider whose zones are already as wanted.
use dnslb.Base.{
  ℕ, true, false, ==_refl, Option, some, List, [], ◌∷◌, map, Str, All, Dict, lookup, value_or, ◌≡◌,
  refl, ap, ◌∙◌,
}
use mathlib.Core.Path.{subst}
use dnslb.Loadbalancer.{LoadbalancerList}
use dnslb.Dns.{DnsTypes, Zone, DnsLaws}
use dnslb.DnsController.{DnsEnv, DnsController}
use dnslb.DnsController.Current.{after_fetch, update_current_zones}
use dnslb.DnsController.Wanted.{wanted_zone, update_wanted_zones}
use dnslb.DnsController.Sync.{push_zone, push_zones, sync}
use dnslb.DnsController.Reliable.{IsReliable}
use dnslb.DnsController.Reconcile.{
  names, in_zone, groups, wanted_of, fetched, update_current_zones_ok, at_push, remembered,
  sync_forced,
}

module _ {T : DnsTypes} {S : Type 0} (env : DnsEnv T S) (laws : DnsLaws env.lib)
    (hold : S → Str → Option (Zone T)) (listed : S → List Str)
    (reliable : IsReliable env hold listed) (lbs : LoadbalancerList) (s : S) where
  abbrev wanted_now : Zone T → Zone T
  wanted_now = wanted_of env laws hold listed reliable lbs s

  -- The zone is as wanted, and its hash is remembered.
  abbrev IsAsWanted : Dict ℕ → Zone T → Type 0
  IsAsWanted m z = (wanted_now z ≡ z) × (value_or 0 (lookup z.name m) ≡ env.lib.zone_hash z)

  push_zone_settled :
      (z : Zone T) (c : DnsController T) (t : S)
      → IsAsWanted c.current_zones_hash_map z
      → push_zone env (wanted_now z) (c, t) ≡ (c, t)
  push_zone_settled z c t (same, hash) =
      ap (λ (w : Zone T). push_zone env w (c, t)) same ∙ rw (hash, ==_refl (env.lib.zone_hash z))

  push_zones_settled :
      (zs : List (Zone T)) (c : DnsController T) (t : S)
      → All (IsAsWanted c.current_zones_hash_map) zs
      → push_zones env (map wanted_now zs) (c, t) ≡ (c, t)
  unfolding push_zones
  push_zones_settled [] c t h = refl
  push_zones_settled (z ∷ zs) c t (here, h) =
      ap (push_zones env (map wanted_now zs)) (push_zone_settled z c t here)
      ∙ push_zones_settled zs c t h

  All-settled :
      (m : Dict ℕ) (zs : List (Zone T))
      → ((k : Str) (z : Zone T)
          → hold s k ≡ some z
          → wanted_zone env.lib (in_zone env laws hold listed reliable lbs s k) z ≡ z)
      → All (λ z. hold s z.name ≡ some z) zs
      → All (λ z. value_or 0 (lookup z.name m) ≡ env.lib.zone_hash z) zs
      → All (IsAsWanted m) zs
  All-settled m [] as_wanted held hashes = tt
  All-settled m (z ∷ zs) as_wanted (here, held) (hash, hashes) = (
    (
      ap (λ (g : Str → List _). wanted_zone env.lib (g z.name) z)
            (groups env laws hold listed reliable lbs s)
          ∙ as_wanted z.name z here,
      hash,
    ),
    All-settled m zs as_wanted held hashes,
  )

  -- A forced sync at a reliable provider that holds every zone as wanted updates no zone: the world
  -- afterwards is the one that reading the zones leaves, the provider holds what it held, and the next
  -- round is not made to read the zones again.
  pub sync_settled :
      (c : DnsController T)
      → c.wanted_lbs ≡ some lbs
      → ((k : Str) (z : Zone T)
          → hold s k ≡ some z
          → wanted_zone env.lib (in_zone env laws hold listed reliable lbs s k) z ≡ z)
      → (c' : DnsController T) × (s' : S) × (sync env true c s ≡ some (c', s'))
        × ((update_current_zones env c s).2 ≡ s')
        × (hold s' ≡ hold s)
        × (c'.current_zones_enforce_sync ≡ false)
  unfolding update_wanted_zones
  sync_settled c w as_wanted =
      let (zs, s', run, named, same, all) = fetched env laws hold listed reliable lbs s in
      let here =
        subst (λ (f : Str → Option (Zone T)). All (λ z. f z.name ≡ some z) zs)
          (reliable.hold-list s) all in
      let settled =
        All-settled _ zs as_wanted here (remembered env laws hold listed reliable lbs s zs here) in
      (
        at_push env laws hold listed reliable lbs s c zs s',
        s',
        sync_forced env laws hold listed reliable lbs s c zs s' w run
            ∙ ap some (
                push_zones_settled zs (at_push env laws hold listed reliable lbs s c zs s') s'
                  settled),
        ap (λ r. r.2)
            (update_current_zones_ok env laws hold listed reliable lbs s c w
              ∙ ap (after_fetch env c (names env laws hold listed reliable lbs s)) run),
        same ∙ reliable.hold-list s,
        refl,
      )
