-- ===== src/DnsController/Reconcile.antt =====
-- sync of dnsController.go with `force`, and what it leaves at the provider.
use dnslb.Base.{
  true, false, not, Option, none, some, List, [], ◌∷◌, ◌++◌, map, Str, ok, All, is_empty,
  if◌then◌else◌, ◌≡◌, refl, ap, sym, ◌∙◌, arith, Bool-cases, inl, inr, lookup, value_or, fun_ext,
  All-of_Mem, str_eq_refl,
}
use mathlib.Core.Option
use mathlib.Core.List.{Memᴰ}
use mathlib.Core.Path.{subst}
use dnslb.Loadbalancer.{Loadbalancer, LoadbalancerList}
use dnslb.Dns.{DnsTypes, Zone, DnsLaws}
use dnslb.DnsController.{DnsEnv, DnsController}
use dnslb.DnsController.Match.{zones_in_use, map_lbs_to_zones}
use dnslb.DnsController.Current.{
  fetch_zones, hash_zones, with_zones, after_fetch, update_current_zones,
}
use dnslb.DnsController.Wanted.{wanted_zone, zones_wanted, update_wanted_zones}
use dnslb.DnsController.Sync.{push_zones, regenerate, after_current, sync}
use dnslb.DnsController.Mapping.{has_key, zone_lbs, map_lbs_to_zones_lem, has_key-zones_in_use}
use dnslb.DnsController.Reliable.{
  IsReliable, Fetched, fetch_zones_ok, hash_zones_lem, zone_lbs-has_key,
}
use dnslb.DnsController.Push.{Distinguished, Remembered, push_zones_lem}

module _ {T : DnsTypes} {S : Type 0} (env : DnsEnv T S) (laws : DnsLaws env.lib)
    (hold : S → Str → Option (Zone T)) (listed : S → List Str)
    (reliable : IsReliable env hold listed) (lbs : LoadbalancerList) (s : S) where
  -- The zone names of the provider, sorted, and those that have a load balancer, as they are visited.
  abbrev pub names : List Str
  names = env.sort_by_length (listed s)

  abbrev pub s₁ : S
  s₁ = (env.provider.list_zones s).1

  abbrev pub visited : List Str
  visited = env.range_keys s₁ (zones_in_use names lbs.loadbalancers [])

  abbrev pub in_zone : Str → List Loadbalancer
  in_zone k = zone_lbs names lbs.loadbalancers k

  pub has_key-visited : (k : Str) → has_key k visited ≡ not (is_empty (in_zone k))
  has_key-visited k =
      reliable.has_key-range s₁ k (zones_in_use names lbs.loadbalancers [])
      ∙ has_key-zones_in_use k names lbs.loadbalancers []
      ∙ ground arith

  visited_held :
      (k : Str) → has_key k visited ≡ true → (z : Zone T) × (hold s₁ k ≡ some z) × (z.name ≡ k)
  visited_held k m =
      let used : is_empty (in_zone k) ≡ false = ground (arith, has_key-visited k) in
      let is_listed : has_key k (listed s) ≡ true =
        sym (reliable.has_key-sort k (listed s))
        ∙ zone_lbs-has_key names lbs.loadbalancers k used in
      subst (λ (f : Str → Option (Zone T)). (z : Zone T) × (f k ≡ some z) × (z.name ≡ k))
        (sym (reliable.hold-list s)) (reliable.listed_held s k is_listed)

  pub fetched : Fetched env hold listed reliable visited [] s₁
  fetched = fetch_zones_ok env hold listed reliable visited [] s₁ visited_held

  pub update_current_zones_ok :
      (c : DnsController T)
      → c.wanted_lbs ≡ some lbs
      → update_current_zones env c s ≡ after_fetch env c names (fetch_zones env visited [] s₁)
  unfolding update_current_zones
  update_current_zones_ok c w = rw (w, reliable.list_ok s)

  -- The load balancers of a zone, as updateWantedZones looks them up.
  abbrev pub group : Str → List Loadbalancer
  group k = value_or [] (lookup k (map_lbs_to_zones lbs.loadbalancers names))

  abbrev pub wanted_of : Zone T → Zone T
  wanted_of z = wanted_zone env.lib (group z.name) z

  zones_wanted_lem :
      (zs : List (Zone T))
      → zones_wanted env.lib (map_lbs_to_zones lbs.loadbalancers names) zs ≡ map wanted_of zs
  unfolding zones_wanted
  zones_wanted_lem [] = refl
  zones_wanted_lem (z ∷ zs) = ap (◌∷◌ (wanted_of z)) (zones_wanted_lem zs)

  -- The controller when the loop over the wanted zones begins.
  abbrev pub at_push : DnsController T → List (Zone T) → S → DnsController T
  at_push c zs s' =
      update_wanted_zones env.lib lbs
        (with_zones env (record c { last_cycle = c.last_cycle ++ env.now s ∷ [] }) names zs s')

  pub wanted_zones-at_push :
      (c : DnsController T) (zs : List (Zone T)) (s' : S)
      → (at_push c zs s').wanted_zones ≡ map wanted_of zs
  unfolding update_wanted_zones
  wanted_zones-at_push c zs s' =
      ap (zones_wanted env.lib (map_lbs_to_zones lbs.loadbalancers names)) (laws.copy_lem zs)
      ∙ zones_wanted_lem zs

  pub hash_map-at_push :
      (c : DnsController T) (zs : List (Zone T)) (s' : S)
      → (at_push c zs s').current_zones_hash_map ≡ hash_zones env [] zs
  unfolding update_wanted_zones
  hash_map-at_push c zs s' = refl

  pub sync_forced :
      (c : DnsController T) (zs : List (Zone T)) (s' : S)
      → c.wanted_lbs ≡ some lbs
      → fetch_zones env visited [] s₁ ≡ (ok zs, s')
      → sync env true c s ≡ some (push_zones env (map wanted_of zs) (at_push c zs s', s'))
  unfolding sync
  sync_forced c zs s' w run =
      let c₀ = record c { last_cycle = c.last_cycle ++ env.now s ∷ [] } in
      ap (after_current env true) (update_current_zones_ok c₀ w ∙ ap (after_fetch env c₀ names) run)
      ∙ ap (λ o. regenerate env true o (with_zones env c₀ names zs s') s') w
      ∙ ap (λ l. some (push_zones env l (at_push c zs s', s'))) (wanted_zones-at_push c zs s')

  has_key-named :
      (zs : List (Zone T)) (z : Zone T) → Memᴰ z zs → has_key z.name (map (λ y. y.name) zs) ≡ true
  has_key-named [] z m = elim m [ ]
  has_key-named (y ∷ zs) z (Memᴰ.head e) =
      rw (ap (λ (x : Zone T). x.name) (sym e)) (rw (str_eq_refl z.name))
  has_key-named (y ∷ zs) z (Memᴰ.tail m) = ground (arith, has_key-named zs z m)

  held_of :
      (zs : List (Zone T)) (z : Zone T)
      → All (λ y. hold s y.name ≡ some y) zs
      → Memᴰ z zs
      → hold s z.name ≡ some z
  held_of [] z all m = elim m [ ]
  held_of (y ∷ zs) z all (Memᴰ.head e) =
      subst (λ (x : Zone T). hold s x.name ≡ some x) (sym e) all.0
  held_of (y ∷ zs) z all (Memᴰ.tail m) = held_of zs z all.1 m

  pub remembered :
      (zs : List (Zone T))
      → All (λ z. hold s z.name ≡ some z) zs
      → All (Remembered env laws hold listed reliable group (hold s) (hash_zones env [] zs)) zs
  remembered zs all = All-of_Mem zs λ z m.
      ap (value_or 0)
        (hash_zones_lem env hold listed reliable z.name z zs [] (hold s) (held_of zs z all m) all)
      ∙ rw (has_key-named zs z m)

  pub groups : group ≡ in_zone
  groups = fun_ext (map_lbs_to_zones_lem lbs.loadbalancers names)

  no_lbs :
      (ls : List Loadbalancer) (o : Option (Zone T))
      → is_empty ls ≡ true
      → o ≡ Option.map (wanted_zone env.lib ls) o
  unfolding wanted_zone
  no_lbs [] none e = refl
  no_lbs [] (some z) e = refl
  no_lbs (l ∷ ls) o e = cc

  -- What the loop over the zones leaves, with the zones that were visited.
  reconciled :
      (zs : List (Zone T)) (f : Str → Option (Zone T)) (k : Str)
      → map (λ z. z.name) zs ≡ visited
      → f k ≡ (
          if has_key k (map (λ z. z.name) zs)
          then Option.map (wanted_zone env.lib (group k)) (hold s k)
          else hold s k)
      → f k ≡ Option.map (wanted_zone env.lib (in_zone k)) (hold s k)
  reconciled zs f k named e =
      e
      ∙ ap
          (λ l.
            if has_key k l then Option.map (wanted_zone env.lib (group k)) (hold s k) else hold s k)
          named
      ∙ (elim (Bool-cases (is_empty (in_zone k))) [
        | inl empty ↦ rw (has_key-visited k, empty) (no_lbs (in_zone k) (hold s k) empty)
        | inr used ↦
            rw (has_key-visited k, used)
              (ap
                (λ (g : Str → List Loadbalancer). Option.map (wanted_zone env.lib (g k)) (hold s k))
                groups)
      ])

  abbrev DistinguishedBy : (Str → List Loadbalancer) → Type 0
  DistinguishedBy g = Distinguished env laws hold listed reliable g (hold s)

  -- If the provider is reliable, there are wanted load balancers and the hash tells each held zone
  -- from the one that it shall be, a forced sync does not panic, and leaves the provider with the
  -- wanted zone for every zone that it held, and with nothing else: the zones of no load balancer
  -- are as they were.
  pub sync_reconciles :
      (c : DnsController T)
      → c.wanted_lbs ≡ some lbs
      → ((k : Str) (z : Zone T)
          → hold s k ≡ some z
          → env.lib.zone_hash z ≡ env.lib.zone_hash (wanted_zone env.lib (in_zone k) z)
          → z ≡ wanted_zone env.lib (in_zone k) z)
      → (c' : DnsController T) × (s' : S) × (sync env true c s ≡ some (c', s'))
        × ((k : Str) → hold s' k ≡ Option.map (wanted_zone env.lib (in_zone k)) (hold s k))
  sync_reconciles c w distinct =
      let (zs, s', run, named, same, all) = fetched in
      let unread : hold s' ≡ hold s = same ∙ reliable.hold-list s in
      let here =
        subst (λ (f : Str → Option (Zone T)). All (λ z. f z.name ≡ some z) zs)
          (reliable.hold-list s) all in
      let (c', s'') = push_zones env (map wanted_of zs) (at_push c zs s', s') in
      (
        c',
        s'',
        sync_forced c zs s' w run,
        λ k. reconciled zs (hold s'') k named (
            push_zones_lem env laws hold listed reliable group (hold s)
              (subst DistinguishedBy (sym groups) distinct) zs (at_push c zs s') s' here
              (rw (hash_map-at_push c zs s') (remembered zs here))
              (λ j. inl (ap (λ (f : Str → Option (Zone T)). f j) unread)) k
            ∙ ap
                (λ (f : Str → Option (Zone T)).
                  if has_key k (map (λ z. z.name) zs)
                  then Option.map (wanted_zone env.lib (group k)) (hold s k)
                  else f k)
                unread),
      )
