-- ===== src/DnsController/Rounds.antt =====
-- Rounds of the controller's two loops.
use dnslb.Base.{
  Bool, true, false, ◌||◌, Option, none, some, List, [], ◌∷◌, ◌++◌, Str, Result, ok, err, ◌≡◌, ◌≢◌,
  refl, ap, ◌∙◌, arith, Bool-cases, ==_refl, inl, inr,
}
use dnslb.Loadbalancer.{LoadbalancerList}
use dnslb.Dns.{DnsTypes, Zone, DnsError}
use dnslb.DnsController.{DnsEnv, DnsController}
use dnslb.DnsController.Current.{
  UpdateError, after_fetch, after_list, update_for, update_current_zones,
}
use dnslb.DnsController.Sync.{is_due, observe_error, regenerate, after_current, sync}
use dnslb.DnsController.Loop.{same_hash, receive, promote, observe_sync, sync_if_wanted, tick}

module _ {T : DnsTypes} {S : Type 0} (env : DnsEnv T S) where
  -- What a read that fails, and any read, leaves of the controller.
  abbrev Kept : DnsController T → Result UpdateError (Unit {0}) × DnsController T × S → Type 0
  Kept c r = (r.1.wanted_lbs ≡ c.wanted_lbs) × ((e : UpdateError) → r.0 ≡ err e → r.1 ≡ c)

  after_fetch-Kept :
      (c : DnsController T) (names : List Str) (r : Result UpdateError (List (Zone T)) × S)
      → Kept c (after_fetch env c names r)
  after_fetch-Kept c names (err e, s) = (refl, λ x h. refl)
  after_fetch-Kept c names (ok zs, s) = (refl, λ x h. cc)

  after_list-Kept :
      (c : DnsController T) (lbs : LoadbalancerList) (r : Result DnsError (List Str) × S)
      → Kept c (after_list env c lbs r)
  after_list-Kept c lbs (err e, s) = (refl, λ x h. refl)
  after_list-Kept c lbs (ok names, s) = after_fetch-Kept c (env.sort_by_length names) _

  update_for-Kept :
      (c : DnsController T) (o : Option LoadbalancerList) (s : S) → Kept c (update_for env c o s)
  update_for-Kept c none s = (refl, λ x h. refl)
  update_for-Kept c (some lbs) s = after_list-Kept c lbs (env.provider.list_zones s)

  update_current_zones-Kept : (c : DnsController T) (s : S) → Kept c (update_current_zones env c s)
  unfolding update_current_zones
  update_current_zones-Kept c s = update_for-Kept c c.wanted_lbs s

  abbrev Returns : Option (DnsController T × S) → Type 0
  Returns o = (r : DnsController T × S) × (o ≡ some r)

  regenerate_total :
      (force : Bool) (o : Option LoadbalancerList) (c : DnsController T) (s : S)
      (lbs : LoadbalancerList)
      → o ≡ some lbs
      → Returns (regenerate env force o c s)
  regenerate_total force none c s lbs h = cc
  regenerate_total force (some l) c s lbs h = (_, refl)

  after_current_total :
      (force : Bool) (r : Result UpdateError (Unit {0}) × DnsController T × S)
      (lbs : LoadbalancerList)
      → r.1.wanted_lbs ≡ some lbs
      → Returns (after_current env force r)
  after_current_total force (err e, c, s) lbs h = (_, refl)
  after_current_total force (ok u, c, s) lbs h = regenerate_total force c.wanted_lbs c s lbs h

  abbrev in_cycle : DnsController T → S → DnsController T
  in_cycle c s = record c { last_cycle = c.last_cycle ++ env.now s ∷ [] }

  -- Whether a round reads the zones.
  abbrev reads : Bool → DnsController T → S → Bool
  reads force c s =
      force
      || c.current_zones_enforce_sync
      || is_due c.last_current_zone_sync c.current_zone_sync_enforce_interval (env.now s)

  sync_total :
      (force : Bool) (c : DnsController T) (s : S) (lbs : LoadbalancerList)
      → c.wanted_lbs ≡ some lbs
      → Returns (sync env force c s)
  unfolding sync
  sync_total force c s lbs w = elim (Bool-cases (reads force c s)) [
    | inl read ↦ rw read (
        after_current_total force (update_current_zones env (in_cycle c s) s) lbs
          ((update_current_zones-Kept (in_cycle c s) s).0 ∙ w))
    | inr not_read ↦ rw not_read (regenerate_total force c.wanted_lbs (in_cycle c s) s lbs w)
  ]

  sync_if_wanted_total :
      (o : Option LoadbalancerList) (force : Bool) (c : DnsController T) (s : S)
      → c.wanted_lbs ≡ o
      → Returns (sync_if_wanted env o force c s)
  sync_if_wanted_total none force c s h = (_, refl)
  sync_if_wanted_total (some lbs) force c s h =
      let (r, e) = sync_total force c s lbs h in (_, ap (observe_sync env) e)

  -- A round of Run's loop does not panic, whatever the state of the controller: sync is reached only
  -- with load balancers.
  pub tick_total :
      (c : DnsController T) (s : S) → (r : DnsController T × S) × (tick env c s ≡ some r)
  unfolding tick
  tick_total c s = let (c', force) = promote c in sync_if_wanted_total c'.wanted_lbs force c' s refl

  -- If a forced sync cannot read the zones, it updates none: the controller is as it was, but for the
  -- time of the round and the counted errors, and the world is as the reads left it.
  pub sync_read_error :
      (c : DnsController T) (s : S) (e : UpdateError)
      → (update_current_zones env (in_cycle c s) s).0 ≡ err e
      → sync env true c s
        ≡ some (
          record c {
            metrics = observe_error c.metrics;
            last_cycle = c.last_cycle ++ env.now s ∷ [];
          },
          (update_current_zones env (in_cycle c s) s).2,
        )
  unfolding sync
  sync_read_error c s e h =
      failed (update_current_zones env (in_cycle c s) s) h
        ((update_current_zones-Kept (in_cycle c s) s).1 e h)
    where
      failed :
          (r : Result UpdateError (Unit {0}) × DnsController T × S)
          → r.0 ≡ err e
          → r.1 ≡ in_cycle c s
          → after_current env true r
            ≡ some (record (in_cycle c s) { metrics = observe_error c.metrics }, r.2)
      failed (err x, c', s') h k =
          ap (λ (d : DnsController T). some (record d { metrics = observe_error d.metrics }, s')) k
      failed (ok u, c', s') h k = cc

  -- A round in which nothing is forced or due, with the load balancers of the last wanted zones and
  -- with zones that were already as wanted, calls the provider not at all.
  pub sync_idle :
      (c : DnsController T) (s : S) (lbs : LoadbalancerList)
      → c.wanted_lbs ≡ some lbs
      → c.current_zones_enforce_sync ≡ false
      → is_due c.last_current_zone_sync c.current_zone_sync_enforce_interval (env.now s) ≡ false
      → c.wanted_zones_lb_hash ≡ lbs.hash
      → c.current_zones_hash ≡ c.wanted_zones_hash
      → sync env false c s ≡ some (record c { last_cycle = c.last_cycle ++ env.now s ∷ [] }, s)
  unfolding sync
  sync_idle c s lbs w enforce due lb_hash zone_hash =
      rw (enforce, due, w, lb_hash, zone_hash, ==_refl lbs.hash, ==_refl c.wanted_zones_hash)

-- An update that repeats the wanted list is ignored, and does not take a waiting candidate back: a
-- list b with another hash that was received before it is promoted in the next round, though the
-- newest list is a.
pub receive_stale :
    {T : DnsTypes} (c : DnsController T) (a a' b : LoadbalancerList)
    → c.wanted_lbs ≡ some a
    → a'.hash ≡ a.hash
    → b.hash ≢ a.hash
    → ((promote (receive a' (receive b c))).0.wanted_lbs ≡ some b)
      × ((promote (receive a' (receive b c))).1 ≡ true)
unfolding receive promote
receive_stale c a a' b w same other =
    ground (arith, ap (λ o. same_hash o b) w, ap (λ o. same_hash o a') w)
