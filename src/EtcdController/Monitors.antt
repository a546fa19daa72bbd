-- ===== src/EtcdController/Monitors.antt =====
-- syncMonitors: the list of what the agents shall check, kept in etcd under the key `monitors`.
use dnslb.Base.{
  ℕ, Bool, true, false, List, [], ◌∷◌, ◌++◌, Str, bytes, Result, ok, err, ◌==◌, ==_iff, ==_refl,
  if◌then◌else◌, ◌≡◌, refl, Bool-cases, inl, inr, ap, ◌∙◌,
}
use dnslb.Go.Json.{marshal_strings}
use dnslb.Net.{EndpointProtocol, endpoint_protocol_string}
use dnslb.Etcd.{EtcdError}
use dnslb.Loadbalancer.{Loadbalancer}
use dnslb.EtcdController.{EtcdEnv, EtcdController}

-- The monitor of an endpoint: %s://%v:%d of its protocol, address and port, which is the text that
-- EndpointProtocol.String gives.
unfoldable pub monitors_of : List Str → List EndpointProtocol → List Str
monitors_of monitors [] = monitors
monitors_of monitors (out ∷ outs) = monitors_of (monitors ++ endpoint_protocol_string out ∷ []) outs

unfoldable pub all_monitors : List Str → List Loadbalancer → List Str
unfolding monitors_of
all_monitors monitors [] = monitors
all_monitors monitors (lb ∷ lbs) = all_monitors (monitors_of monitors lb.endpoints) lbs

-- getWantedMonitorsAsString; Marshal of strings does not fail.
unfoldable pub get_wanted_monitors_as_string : EtcdController → Str
unfolding all_monitors
get_wanted_monitors_as_string c = marshal_strings (all_monitors [] c.wanted)

abbrev pub monitors_key : Str
monitors_key = bytes "monitors"

-- The value in etcd is the one that was last written, by its hash.
abbrev pub is_unchanged : (Str → ℕ) → ℕ → Result EtcdError Str → Bool
is_unchanged xxhash hash (err e) = false
is_unchanged xxhash hash (ok value) = xxhash value == hash

module _ {S : Type 0} (env : EtcdEnv S) where
  abbrev pub after_set :
      EtcdController
      → Str
      → Result EtcdError (Unit {0}) × S
      → Result EtcdError (Unit {0}) × EtcdController × S
  after_set c local (err e, s) = (err e, c, s)
  after_set c local (ok u, s) = (ok tt, record c { last_monitor_hash = env.xxhash local }, s)

  abbrev pub write_monitors : EtcdController → S → Result EtcdError (Unit {0}) × EtcdController × S
  write_monitors c s =
      let local = get_wanted_monitors_as_string c in
      after_set c local (env.etcd.set monitors_key local s)

  -- syncMonitors: a failed read is only a warning, a failed write is the error that is returned.
  unfoldable pub sync_monitors :
      EtcdController → S → Result EtcdError (Unit {0}) × EtcdController × S
  sync_monitors c s =
      let (value, s') = env.etcd.get monitors_key s in
      let write = write_monitors c s' in
      if is_unchanged env.xxhash c.last_monitor_hash value then (ok tt, c, s') else write

-- What etcd promises: a value that was written is read, and a read changes no value.
pub record IsStore {S : Type 0} (env : EtcdEnv S) : Type 0 where
  pub get-set :
      (k v : Str) (s : S)
      → (env.etcd.set k v s).0 ≡ ok tt
      → (env.etcd.get k (env.etcd.set k v s).1).0 ≡ ok v
  pub get-get : (k j : Str) (s : S) → (env.etcd.get k (env.etcd.get j s).1).0 ≡ (env.etcd.get k s).0

is_unchanged_ok :
    (xxhash : Str → ℕ) (hash : ℕ) (r : Result EtcdError Str)
    → is_unchanged xxhash hash r ≡ true
    → (v : Str) × (r ≡ ok v) × (xxhash v ≡ hash)
is_unchanged_ok xxhash hash (err e) h = cc
is_unchanged_ok xxhash hash (ok v) h = (v, refl, (==_iff (xxhash v) hash).0 h)

after_set_ok :
    {S : Type 0} (env : EtcdEnv S) (c : EtcdController) (local : Str)
    (w : Result EtcdError (Unit {0}) × S)
    → (after_set env c local w).0 ≡ ok tt
    → (w.0 ≡ ok tt)
      × ((after_set env c local w).1 ≡ record c { last_monitor_hash = env.xxhash local })
      × ((after_set env c local w).2 ≡ w.1)
after_set_ok env c local (err e, s) h = cc
after_set_ok env c local (ok u, s) h = (refl, refl, refl)

module _ {S : Type 0} (env : EtcdEnv S) (store : IsStore env) (c : EtcdController) (s : S) where
  -- If etcd stores what is written, then after a round of syncMonitors that returns no error it
  -- holds the wanted monitors, whatever it held before, unless what it held was another text with
  -- the remembered hash.
  pub sync_monitors_lem :
      ((v : Str)
        → (env.etcd.get monitors_key s).0 ≡ ok v
        → env.xxhash v ≡ c.last_monitor_hash
        → v ≡ get_wanted_monitors_as_string c)
      → (sync_monitors env c s).0 ≡ ok tt
      → (env.etcd.get monitors_key (sync_monitors env c s).2).0
        ≡ ok (get_wanted_monitors_as_string c)
  unfolding sync_monitors
  sync_monitors_lem remembered done =
      elim (Bool-cases
        (is_unchanged env.xxhash c.last_monitor_hash (env.etcd.get monitors_key s).0)) [
          | inl same ↦ rw same (
              let (v, q, hv) = is_unchanged_ok env.xxhash c.last_monitor_hash _ same in
              store.get-get monitors_key monitors_key s ∙ q ∙ ap ok (remembered v q hv))
          | inr other ↦ rw other (
              let wanted = get_wanted_monitors_as_string c in
              let s' = (env.etcd.get monitors_key s).1 in
              let (written, _, world) =
                after_set_ok env c wanted (env.etcd.set monitors_key wanted s')
                  (rw other at done) in
              rw world (store.get-set monitors_key wanted s' written))
        ]

  settled_if :
      (r : Result EtcdError (Unit {0}) × EtcdController × S)
      → is_unchanged env.xxhash r.1.last_monitor_hash (env.etcd.get monitors_key r.2).0 ≡ true
      → sync_monitors env r.1 r.2 ≡ (ok tt, r.1, (env.etcd.get monitors_key r.2).1)
  unfolding sync_monitors
  settled_if (e, c', s') h = rw h

  unchanged_after :
      (sync_monitors env c s).0 ≡ ok tt
      → is_unchanged env.xxhash
          (sync_monitors env c s).1.last_monitor_hash
          (env.etcd.get monitors_key (sync_monitors env c s).2).0
        ≡ true
  unfolding sync_monitors
  unchanged_after done =
      elim (Bool-cases
        (is_unchanged env.xxhash c.last_monitor_hash (env.etcd.get monitors_key s).0)) [
          | inl same ↦ rw (same, store.get-get monitors_key monitors_key s) same
          | inr other ↦ rw other (
              let wanted = get_wanted_monitors_as_string c in
              let s' = (env.etcd.get monitors_key s).1 in
              let (written, after, world) =
                after_set_ok env c wanted (env.etcd.set monitors_key wanted s')
                  (rw other at done) in
              rw (after, world, store.get-set monitors_key wanted s' written)
                (==_refl (env.xxhash wanted)))
        ]

  -- If etcd stores what is written, then after a round of syncMonitors that returns no error the
  -- next one writes nothing: it reads, and changes neither the controller nor, but for the read,
  -- the world.
  pub sync_monitors_settled :
      (sync_monitors env c s).0 ≡ ok tt
      → sync_monitors env (sync_monitors env c s).1 (sync_monitors env c s).2 ≡ (
        ok tt,
        (sync_monitors env c s).1,
        (env.etcd.get monitors_key (sync_monitors env c s).2).1,
      )
  sync_monitors_settled done = settled_if (sync_monitors env c s) (unchanged_after done)

after_set_err :
    {S : Type 0} (env : EtcdEnv S) (c : EtcdController) (local : Str)
    (w : Result EtcdError (Unit {0}) × S) (e : EtcdError)
    → (after_set env c local w).0 ≡ err e
    → (w.0 ≡ err e) × ((after_set env c local w).1 ≡ c) × ((after_set env c local w).2 ≡ w.1)
after_set_err env c local (err x, s) e h = (h, refl, refl)
after_set_err env c local (ok u, s) e h = cc

-- An error that syncMonitors returns is the one of the write, and the controller is then as it was.
pub sync_monitors_error :
    {S : Type 0} (env : EtcdEnv S) (c : EtcdController) (s : S) (e : EtcdError)
    → (sync_monitors env c s).0 ≡ err e
    → ((env.etcd.set monitors_key
          (get_wanted_monitors_as_string c)
          (env.etcd.get monitors_key s).1).0
        ≡ err e)
      × ((sync_monitors env c s).1 ≡ c)
unfolding sync_monitors
sync_monitors_error env c s e h =
    elim (Bool-cases
      (is_unchanged env.xxhash c.last_monitor_hash (env.etcd.get monitors_key s).0)) [
        | inl same ↦ cc (rw same at h)
        | inr other ↦ rw other (
            let (failed, same, _) =
              after_set_err env c (get_wanted_monitors_as_string c)
                (env.etcd.set monitors_key (get_wanted_monitors_as_string c)
                  (env.etcd.get monitors_key s).1)
                e (rw other at h) in
            (failed, same))
      ]
