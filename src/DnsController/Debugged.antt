-- ===== src/DnsController/Debugged.antt =====
-- The controller of dnsController.go with the provider of debugDnsProvider.go, which logs.
use dnslb.Base.{
  ℕ, Bool, false, ◌||◌, ◌&&◌, not, Option, none, some, List, [], ◌∷◌, ◌++◌, Str, Dict, insert,
  lookup, value_or, Result, ok, err, ◌==◌, ◌≡◌, refl, ◌∙◌, ap, Result-cases, Bool-cases, inl, inr,
  if◌then◌else◌,
}
use dnslb.Loadbalancer.{LoadbalancerList}
use dnslb.Dns.{DnsTypes, Zone, DnsError}
use dnslb.Dns.Debug.{LogEntry, logged, debug_provider}
use dnslb.DnsController.{DnsEnv, DnsController}
use dnslb.DnsController.Current.{
  UpdateError, fetch_zones, hash_zones, after_fetch, after_list, update_for, update_current_zones,
}
use dnslb.DnsController.Match.{zones_in_use}
use dnslb.DnsController.Sync.{is_due, push_zones, push_if_changed, regenerate, after_current, sync}
use dnslb.DnsController.Wanted.{update_wanted_zones}
use dnslb.DnsController.Loop.{promote, observe_sync, sync_if_wanted, tick}

-- A world with a log.
abbrev pub Logged : DnsTypes → Type 0 → Type 0
Logged T S = S × List (LogEntry T)

-- What the controller calls, with the provider that logs around its own.
abbrev pub debug_env : {T : DnsTypes} {S : Type 0} → DnsEnv T S → DnsEnv T (Logged T S)
debug_env env = record {
  lib = env.lib;
  provider = debug_provider env.provider;
  now = λ w. env.now w.0;
  sort_by_length = env.sort_by_length;
  range_keys = λ w keys. env.range_keys w.0 keys;
}

module _ {T : DnsTypes} {S : Type 0} where
  -- A result without the log.
  abbrev forget : {A : Type 0} → A × Logged T S → A × S
  forget p = (p.0, p.1.0)

  abbrev pub without_log : Option (DnsController T × Logged T S) → Option (DnsController T × S)
  without_log none = none
  without_log (some (c, w)) = some (c, w.0)

  module _ (env : DnsEnv T S) where
    hash_zones-debug_env :
        (m : Dict ℕ) (zones : List (Zone T))
        → hash_zones (debug_env env) m zones ≡ hash_zones env m zones
    unfolding hash_zones
    hash_zones-debug_env m [] = refl
    hash_zones-debug_env m (z ∷ zones) =
        hash_zones-debug_env (insert z.name (env.lib.zone_hash z) m) zones

    fetch_zones-debug_env :
        (names : List Str) (zones : List (Zone T)) (s : S) (log : List (LogEntry T))
        → forget (fetch_zones (debug_env env) names zones (s, log)) ≡ fetch_zones env names zones s
    unfolding fetch_zones debug_provider logged
    fetch_zones-debug_env [] zones s log = refl
    fetch_zones-debug_env (n ∷ names) zones s log =
        elim (Result-cases (env.provider.get_zone n s).0) [
          | inl (z, e) ↦
              rw (e, fetch_zones)
                (fetch_zones-debug_env names (zones ++ z ∷ []) (env.provider.get_zone n s).1 _)
          | inr (x, e) ↦ rw (e, fetch_zones)
        ]

    push_zones-debug_env :
        (zones : List (Zone T)) (c : DnsController T) (s : S) (log : List (LogEntry T))
        → forget (push_zones (debug_env env) zones (c, (s, log))) ≡ push_zones env zones (c, s)
    unfolding push_zones debug_provider logged
    push_zones-debug_env [] c s log = refl
    push_zones-debug_env (z ∷ zones) c s log =
        elim (Bool-cases
          (value_or 0 (lookup z.name c.current_zones_hash_map) == env.lib.zone_hash z)) [
            | inl same ↦ rw (same, push_zones) (push_zones-debug_env zones c s log)
            | inr other ↦ rw (other, push_zones) (push_zones-debug_env zones _ _ _)
          ]

    -- The outcome of updateCurrentZones without the log.
    abbrev forget_update :
        Result UpdateError (Unit {0}) × DnsController T × Logged T S
        → Result UpdateError (Unit {0}) × DnsController T × S
    forget_update (r, c, w) = (r, c, w.0)

    after_fetch-debug_env :
        (c : DnsController T) (names : List Str)
        (r : Result UpdateError (List (Zone T)) × Logged T S)
        → forget_update (after_fetch (debug_env env) c names r) ≡ after_fetch env c names (forget r)
    after_fetch-debug_env c names (err e, w) = refl
    after_fetch-debug_env c names (ok zones, w) =
        ap
          (λ m. (
            ok tt,
            record c {
              current_zones = zones;
              current_zone_names = names;
              current_zones_hash = env.lib.zones_hash zones;
              current_zones_hash_map = m;
              current_zones_enforce_sync = false;
              last_current_zone_sync = some (env.now w.0);
            },
            w.0,
          ))
          (hash_zones-debug_env [] zones)

    after_list-debug_env :
        (c : DnsController T) (lbs : LoadbalancerList) (r : Result DnsError (List Str)) (s : S)
        (log : List (LogEntry T))
        → forget_update (after_list (debug_env env) c lbs (r, (s, log)))
          ≡ after_list env c lbs (r, s)
    after_list-debug_env c lbs (err e) s log = refl
    after_list-debug_env c lbs (ok names) s log =
        let sorted = env.sort_by_length names in
        let keys = env.range_keys s (zones_in_use sorted lbs.loadbalancers []) in
        after_fetch-debug_env c sorted (fetch_zones (debug_env env) keys [] (s, log))
        ∙ ap (after_fetch env c sorted) (fetch_zones-debug_env keys [] s log)

    update_current_zones-debug_env :
        (c : DnsController T) (s : S) (log : List (LogEntry T))
        → forget_update (update_current_zones (debug_env env) c (s, log))
          ≡ update_current_zones env c s
    unfolding update_current_zones debug_provider logged
    update_current_zones-debug_env c s log = go c.wanted_lbs
      where
        go :
            (o : Option LoadbalancerList)
            → forget_update (update_for (debug_env env) c o (s, log)) ≡ update_for env c o s
        go none = refl
        go (some lbs) =
            after_list-debug_env c lbs (env.provider.list_zones s).0 (env.provider.list_zones s).1 _

    push_if_changed-debug_env :
        (force : Bool) (c : DnsController T) (s : S) (log : List (LogEntry T))
        → forget (push_if_changed (debug_env env) force c (s, log)) ≡ push_if_changed env force c s
    push_if_changed-debug_env force c s log =
        elim (Bool-cases (not force && (c.current_zones_hash == c.wanted_zones_hash))) [
          | inl same ↦ rw same
          | inr other ↦ rw other (push_zones-debug_env c.wanted_zones c s log)
        ]

    regenerate-debug_env :
        (force : Bool) (o : Option LoadbalancerList) (c : DnsController T) (w : Logged T S)
        → without_log (regenerate (debug_env env) force o c w) ≡ regenerate env force o c w.0
    regenerate-debug_env force none c w = refl
    regenerate-debug_env force (some lbs) c w = ap some (
        push_if_changed-debug_env force
          (if force || not (c.wanted_zones_lb_hash == lbs.hash)
            then update_wanted_zones env.lib lbs c
            else c)
          w.0 w.1)

    after_current-debug_env :
        (force : Bool) (r : Result UpdateError (Unit {0}) × DnsController T × Logged T S)
        → without_log (after_current (debug_env env) force r)
          ≡ after_current env force (forget_update r)
    after_current-debug_env force (err e, c, w) = refl
    after_current-debug_env force (ok u, c, w) = regenerate-debug_env force c.wanted_lbs c w

    sync-debug_env :
        (force : Bool) (c : DnsController T) (s : S) (log : List (LogEntry T))
        → without_log (sync (debug_env env) force c (s, log)) ≡ sync env force c s
    unfolding sync
    sync-debug_env force c s log =
        let c' : DnsController T = record c { last_cycle = c.last_cycle ++ env.now s ∷ [] } in
        elim (Bool-cases (
          force
          || c.current_zones_enforce_sync
          || is_due c.last_current_zone_sync c.current_zone_sync_enforce_interval (env.now s))) [
            | inl due ↦ rw due (
                after_current-debug_env force (update_current_zones (debug_env env) c' (s, log))
                ∙ ap (after_current env force) (update_current_zones-debug_env c' s log))
            | inr rest ↦ rw rest (regenerate-debug_env force c'.wanted_lbs c' (s, log))
          ]

    observe_sync-debug_env :
        (o : Option (DnsController T × Logged T S))
        → without_log (observe_sync (debug_env env) o) ≡ observe_sync env (without_log o)
    observe_sync-debug_env none = refl
    observe_sync-debug_env (some (c, w)) = refl

    -- With the provider that logs, a round of Run's loop does what it does without: whatever the state
    -- of the controller, the world and the log, it panics in the same cases, and otherwise leaves the
    -- controller and the world as they are left without the logging.
    pub tick-debug_env :
        (c : DnsController T) (s : S) (log : List (LogEntry T))
        → without_log (tick (debug_env env) c (s, log)) ≡ tick env c s
    unfolding tick
    tick-debug_env c s log = go (promote c).0.wanted_lbs
      where
        go :
            (o : Option LoadbalancerList)
            → without_log (sync_if_wanted (debug_env env) o (promote c).1 (promote c).0 (s, log))
              ≡ sync_if_wanted env o (promote c).1 (promote c).0 s
        go none = refl
        go (some lbs) =
            observe_sync-debug_env (sync (debug_env env) (promote c).1 (promote c).0 (s, log))
            ∙ ap (observe_sync env) (sync-debug_env (promote c).1 (promote c).0 s log)
