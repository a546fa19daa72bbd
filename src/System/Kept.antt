-- ===== src/System/Kept.antt =====
-- What a round of the DNS controller keeps of the lists that it was sent.
use dnslb.Base.{
  Bool, not, ◌||◌, ◌&&◌, ◌==◌, Option, none, some, List, [], ◌∷◌, ◌++◌, Str, Result, ok, err, ◌≡◌,
  refl, ap, sym, ◌∙◌, Bool-cases, inl, inr, value_or, lookup,
}
use dnslb.Loadbalancer.{LoadbalancerList}
use dnslb.Dns.{DnsTypes, Zone, DnsError}
use dnslb.DnsController.{DnsEnv, DnsController, observe, dns_sync_time}
use dnslb.DnsController.Current.{
  UpdateError, after_fetch, after_list, update_for, update_current_zones,
}
use dnslb.DnsController.Wanted.{update_wanted_zones}
use dnslb.DnsController.Sync.{
  is_due, observe_error, after_update, push_zone, push_zones, push_if_changed, regenerate,
  after_current, sync,
}
use dnslb.DnsController.Loop.{promote, observe_sync, sync_if_wanted, tick}

-- The lists of the controllers are the same.
abbrev pub SameLists : {T : DnsTypes} → DnsController T → DnsController T → Type 0
SameLists c d = (c.wanted_lbs ≡ d.wanted_lbs) × (c.wanted_lbs_candidate ≡ d.wanted_lbs_candidate)

module _ {T : DnsTypes} {S : Type 0} (env : DnsEnv T S) where
  after_fetch-SameLists :
      (c : DnsController T) (names : List Str) (r : Result UpdateError (List (Zone T)) × S)
      → SameLists (after_fetch env c names r).1 c
  after_fetch-SameLists c names (err e, s) = (refl, refl)
  after_fetch-SameLists c names (ok zs, s) = (refl, refl)

  after_list-SameLists :
      (c : DnsController T) (lbs : LoadbalancerList) (r : Result DnsError (List Str) × S)
      → SameLists (after_list env c lbs r).1 c
  after_list-SameLists c lbs (err e, s) = (refl, refl)
  after_list-SameLists c lbs (ok names, s) = after_fetch-SameLists c (env.sort_by_length names) _

  update_for-SameLists :
      (c : DnsController T) (o : Option LoadbalancerList) (s : S)
      → SameLists (update_for env c o s).1 c
  update_for-SameLists c none s = (refl, refl)
  update_for-SameLists c (some lbs) s = after_list-SameLists c lbs (env.provider.list_zones s)

  after_update-SameLists :
      (name : Str) (c : DnsController T) (r : Result DnsError (Unit {0}))
      → SameLists (after_update env name c r) c
  after_update-SameLists name c (err e) = (refl, refl)
  after_update-SameLists name c (ok u) = (refl, refl)

  push_zone-SameLists :
      (z : Zone T) (c : DnsController T) (s : S) → SameLists (push_zone env z (c, s)).0 c
  push_zone-SameLists z c s =
      elim (Bool-cases
        (value_or 0 (lookup z.name c.current_zones_hash_map) == env.lib.zone_hash z)) [
          | inl same ↦ rw same (refl, refl)
          | inr other ↦ rw other (after_update-SameLists z.name c (env.provider.update_zone z s).0)
        ]

  push_zones-SameLists :
      (zs : List (Zone T)) (c : DnsController T) (s : S) → SameLists (push_zones env zs (c, s)).0 c
  unfolding push_zones
  push_zones-SameLists [] c s = (refl, refl)
  push_zones-SameLists (z ∷ zs) c s =
      let (c', s') = push_zone env z (c, s) in
      let (wanted, candidate) = push_zones-SameLists zs c' s' in
      let (wanted', candidate') = push_zone-SameLists z c s in
      (wanted ∙ wanted', candidate ∙ candidate')

  push_if_changed-SameLists :
      (force : Bool) (c : DnsController T) (s : S) → SameLists (push_if_changed env force c s).0 c
  push_if_changed-SameLists force c s =
      elim (Bool-cases (not force && (c.current_zones_hash == c.wanted_zones_hash))) [
        | inl same ↦ rw same (refl, refl)
        | inr other ↦ rw other (push_zones-SameLists c.wanted_zones c s)
      ]

  -- What a computation returns has the lists of a controller.
  abbrev Keeps : DnsController T → Option (DnsController T × S) → Type 0
  Keeps c o = (d : DnsController T) (s : S) → o ≡ some (d, s) → SameLists d c

  regenerate-Keeps :
      (force : Bool) (o : Option LoadbalancerList) (c : DnsController T) (s : S)
      → Keeps c (regenerate env force o c s)
  unfolding update_wanted_zones
  regenerate-Keeps force none c s d s' h = cc
  regenerate-Keeps force (some lbs) c s d s' h =
      elim (Bool-cases (force || not (c.wanted_zones_lb_hash == lbs.hash))) [
        | inl new ↦ returned (update_wanted_zones env.lib lbs c) (refl, refl) (rw new at h)
        | inr old ↦ returned c (refl, refl) (rw old at h)
      ]
    where
      returned :
          (c' : DnsController T)
          → SameLists c' c
          → some (push_if_changed env force c' s) ≡ some (d, s')
          → SameLists d c
      returned c' (w, k) e =
          let (w', k') = push_if_changed-SameLists force c' s in
          let same : push_if_changed env force c' s ≡ (d, s') = cc in
          let first : (push_if_changed env force c' s).0 ≡ d =
            ap (λ (p : DnsController T × S). p.0) same in
          (
            sym (ap (λ (x : DnsController T). x.wanted_lbs) first) ∙ w' ∙ w,
            sym (ap (λ (x : DnsController T). x.wanted_lbs_candidate) first) ∙ k' ∙ k,
          )

  after_current-Keeps :
      (force : Bool) (c : DnsController T) (r : Result UpdateError (Unit {0}) × DnsController T × S)
      → SameLists r.1 c
      → Keeps c (after_current env force r)
  after_current-Keeps force c (err e, c', s) (w, k) d s' h =
      let same : (record c' { metrics = observe_error c'.metrics }, s) ≡ (d, s') = cc in
      let first = ap (λ (p : DnsController T × S). p.0) same in
      (
        sym (ap (λ (x : DnsController T). x.wanted_lbs) first) ∙ w,
        sym (ap (λ (x : DnsController T). x.wanted_lbs_candidate) first) ∙ k,
      )
  after_current-Keeps force c (ok u, c', s) (w, k) d s' h =
      let (w', k') = regenerate-Keeps force c'.wanted_lbs c' s d s' h in (w' ∙ w, k' ∙ k)

  pub sync-Keeps :
      (force : Bool) (c d : DnsController T) (s s' : S)
      → sync env force c s ≡ some (d, s')
      → SameLists d c
  unfolding sync update_current_zones
  sync-Keeps force c d s s' h =
      let c' = record c { last_cycle = c.last_cycle ++ env.now s ∷ [] } in
      let reads =
        force
        || c.current_zones_enforce_sync
        || is_due c.last_current_zone_sync c.current_zone_sync_enforce_interval (env.now s) in
      elim (Bool-cases reads) [
        | inl read ↦
            after_current-Keeps force c (update_current_zones env c' s)
              (update_for-SameLists c' c.wanted_lbs s) d s' (rw read at h)
        | inr not_read ↦ regenerate-Keeps force c.wanted_lbs c' s d s' (rw not_read at h)
      ]

  observe_sync-Keeps :
      (c : DnsController T) (o : Option (DnsController T × S))
      → Keeps c o
      → Keeps c (observe_sync env o)
  observe_sync-Keeps c none keeps d s h = cc
  observe_sync-Keeps c (some (c', s')) keeps d s h =
      let (w, k) = keeps c' s' refl in
      let same : (record c' { metrics = observe dns_sync_time c'.metrics }, s') ≡ (d, s) = cc in
      let first = ap (λ (p : DnsController T × S). p.0) same in
      (
        sym (ap (λ (x : DnsController T). x.wanted_lbs) first) ∙ w,
        sym (ap (λ (x : DnsController T). x.wanted_lbs_candidate) first) ∙ k,
      )

  sync_if_wanted-Keeps :
      (o : Option LoadbalancerList) (force : Bool) (c : DnsController T) (s : S)
      → Keeps c (sync_if_wanted env o force c s)
  sync_if_wanted-Keeps none force c s d s' h =
      let same : (c, s) ≡ (d, s') = cc in
      let first = ap (λ (p : DnsController T × S). p.0) same in
      (
        ap (λ (x : DnsController T). x.wanted_lbs) (sym first),
        ap (λ (x : DnsController T). x.wanted_lbs_candidate) (sym first),
      )
  sync_if_wanted-Keeps (some lbs) force c s d s' h =
      observe_sync-Keeps c (sync env force c s) (λ x t e. sync-Keeps force c x s t e) d s' h

  -- After a round the wanted list is the one that the round took over, and nothing waits that it did
  -- not leave.
  pub tick-promote :
      (c d : DnsController T) (s s' : S) → tick env c s ≡ some (d, s') → SameLists d (promote c).0
  unfolding tick
  tick-promote c d s s' h =
      sync_if_wanted-Keeps (promote c).0.wanted_lbs (promote c).1 (promote c).0 s d s' h
