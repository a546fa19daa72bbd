-- ===== src/DnsController/Sync.antt =====
-- sync: one round of comparing and updating.
use dnslb.Base.{
  ℕ, ◌+◌, ◌-◌, ◌^◌, Bool, true, not, ◌&&◌, ◌||◌, Option, none, some, List, [], ◌∷◌, ◌++◌, Str,
  lookup, value_or, Result, ok, err, ltb, ◌==◌, if◌then◌else◌,
}
use dnslb.Go.Decimal.{ℤ, pos, negsuc}
use dnslb.Dns.{DnsTypes, Zone, DnsError}
use dnslb.Loadbalancer.{LoadbalancerList}
use dnslb.DnsController.{
  DnsEnv, errors_total, errors_dns, dns_zone_updates, Metrics, observe, DnsController,
}
use dnslb.DnsController.Current.{UpdateError, update_current_zones}
use dnslb.DnsController.Wanted.{update_wanted_zones}

-- `time.Since(last) > interval`; since the zero time (`none`) it is the largest duration.
abbrev pub is_due : Option ℕ → ℤ → ℕ → Bool
is_due none (pos n) now = ltb n (2 ^ 63 - 1)
is_due none (negsuc n) now = true
is_due (some last) (pos n) now = ltb (last + n) now
is_due (some last) (negsuc n) now = ltb last (now + n + 1)

abbrev pub observe_error : Metrics → Metrics
observe_error m = observe errors_dns (observe errors_total m)

module _ {T : DnsTypes} {S : Type 0} (env : DnsEnv T S) where
  abbrev pub after_update : Str → DnsController T → Result DnsError (Unit {0}) → DnsController T
  after_update name c (err e) = record c { metrics = observe_error c.metrics }
  after_update name c (ok u) = record c {
    metrics = observe (dns_zone_updates name) c.metrics;
    current_zones_enforce_sync = true;
  }

  abbrev pub push_zone : Zone T → DnsController T × S → DnsController T × S
  push_zone z (c, s) =
      let updated = env.provider.update_zone z s in
      if value_or 0 (lookup z.name c.current_zones_hash_map) == env.lib.zone_hash z
      then (c, s)
      else (after_update z.name c updated.0, updated.1)

  -- The loop over the wanted zones: a zone whose hash differs is updated, and an error does not end
  -- the loop.
  unfoldable pub push_zones : List (Zone T) → DnsController T × S → DnsController T × S
  push_zones [] cs = cs
  push_zones (z ∷ zones) cs = push_zones zones (push_zone z cs)

  -- From the comparison of the two hashes on.
  abbrev pub push_if_changed : Bool → DnsController T → S → DnsController T × S
  push_if_changed force c s =
      let pushed = push_zones c.wanted_zones (c, s) in
      if not force && (c.current_zones_hash == c.wanted_zones_hash) then (c, s) else pushed

  -- From the comparison of the load balancers' hashes on; `none` is the panic of reading the hash
  -- through a nil pointer.
  abbrev pub regenerate :
      Bool → Option LoadbalancerList → DnsController T → S → Option (DnsController T × S)
  regenerate force none c s = none
  regenerate force (some lbs) c s = some (
      push_if_changed force
        (if force || not (c.wanted_zones_lb_hash == lbs.hash)
          then update_wanted_zones env.lib lbs c
          else c)
        s)

  abbrev pub after_current :
      Bool → Result UpdateError (Unit {0}) × DnsController T × S → Option (DnsController T × S)
  after_current force (err e, c, s) = some (record c { metrics = observe_error c.metrics }, s)
  after_current force (ok u, c, s) = regenerate force c.wanted_lbs c s

  -- sync; `none` is a panic
  unfoldable pub sync : Bool → DnsController T → S → Option (DnsController T × S)
  unfolding push_zones update_wanted_zones
  sync force c s =
      let c' = record c { last_cycle = c.last_cycle ++ env.now s ∷ [] } in
      let due = is_due c.last_current_zone_sync c.current_zone_sync_enforce_interval (env.now s) in
      if force || c.current_zones_enforce_sync || due
      then after_current force (update_current_zones env c' s)
      else regenerate force c'.wanted_lbs c' s
