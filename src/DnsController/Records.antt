-- ===== src/DnsController/Records.antt =====
-- The records of a wanted zone.
use dnslb.Base.{
  Bool, false, not, ◌&&◌, ◌||◌, List, [], ◌∷◌, ◌++◌, map, Str, str_eq, keep, ◌≡◌, refl, ap, sym,
  ◌∙◌, arith, append_assoc, append-nil,
}
use dnslb.Net.{EndpointProtocol}
use dnslb.Loadbalancer.{Loadbalancer}
use dnslb.Dns.{DnsTypes, Record, Zone, DnsLib, DnsLaws}
use dnslb.DnsController.Wanted.{
  a_name, a_record, remove_records, add_endpoints, add_records, wanted_zone,
}

keep-not_any :
    {A : Type 0} (p q : A → Bool) (l : List A)
    → keep (λ r. not (p r || q r)) l ≡ keep (λ r. not (q r)) (keep (λ r. not (p r)) l)
keep-not_any p q [] = refl
keep-not_any p q (x ∷ l) = ground (arith, keep-not_any p q l)

module _ {T : DnsTypes} (lib : DnsLib T) (laws : DnsLaws lib) where
  -- An A record with the name.
  abbrev pub is_a : Str → Record T → Bool
  is_a n r = str_eq r.name n && laws.same_type r.type lib.type_a

  -- An A record with the name of one of the load balancers.
  abbrev pub is_managed : List Loadbalancer → Str → Record T → Bool
  is_managed [] zone r = false
  is_managed (lb ∷ lbs) zone r = is_a (a_name lb zone) r || is_managed lbs zone r

  -- The records of the load balancers' endpoints.
  abbrev pub endpoint_records : List Loadbalancer → Str → List (Record T)
  endpoint_records [] zone = []
  endpoint_records (lb ∷ lbs) zone =
      map (a_record lib (a_name lb zone)) lb.endpoints ++ endpoint_records lbs zone

  abbrev with_records : Zone T → List (Record T) → Zone T
  with_records z l = record z { records = l }

  remove_records_lem :
      (lbs : List Loadbalancer) (z : Zone T)
      → remove_records lib lbs z
        ≡ with_records z (keep (λ r. not (is_managed lbs z.name r)) z.records)
  unfolding remove_records
  remove_records_lem [] z = ap (with_records z) (sym (keep_all z.records))
    where
      keep_all : (l : List (Record T)) → keep (λ r. not (is_managed [] z.name r)) l ≡ l
      keep_all [] = refl
      keep_all (x ∷ l) = ap (◌∷◌ x) (keep_all l)
  remove_records_lem (lb ∷ lbs) z =
      ap (remove_records lib lbs) (laws.remove_lem (a_name lb z.name) lib.type_a z)
      ∙ remove_records_lem lbs
          (with_records z (keep (λ r. not (is_a (a_name lb z.name) r)) z.records))
      ∙ ap (with_records z)
          (sym (keep-not_any (is_a (a_name lb z.name)) (is_managed lbs z.name) z.records))

  add_endpoints_lem :
      (n : Str) (es : List EndpointProtocol) (z : Zone T)
      → add_endpoints lib n es z ≡ with_records z (z.records ++ map (a_record lib n) es)
  unfolding add_endpoints
  add_endpoints_lem n [] z = ap (with_records z) (sym (append-nil z.records))
  add_endpoints_lem n (e ∷ es) z =
      add_endpoints_lem n es (with_records z (z.records ++ a_record lib n e ∷ []))
      ∙ ap (with_records z)
          (append_assoc z.records (a_record lib n e ∷ []) (map (a_record lib n) es))

  add_records_lem :
      (lbs : List Loadbalancer) (z : Zone T)
      → add_records lib lbs z ≡ with_records z (z.records ++ endpoint_records lbs z.name)
  unfolding add_records
  add_records_lem [] z = ap (with_records z) (sym (append-nil z.records))
  add_records_lem (lb ∷ lbs) z =
      let new = map (a_record lib (a_name lb z.name)) lb.endpoints in
      ap (add_records lib lbs) (add_endpoints_lem (a_name lb z.name) lb.endpoints z)
      ∙ add_records_lem lbs (with_records z (z.records ++ new))
      ∙ ap (with_records z) (append_assoc z.records new (endpoint_records lbs z.name))

  keep_unmanaged : (l : List (Record T)) (zone : Str) → keep (λ r. not (is_managed [] zone r)) l ≡ l
  keep_unmanaged [] zone = refl
  keep_unmanaged (x ∷ l) zone = ap (◌∷◌ x) (keep_unmanaged l zone)

  -- If package dns removes records as it documents, the wanted zone has the records of the current
  -- zone, in their order, without the A records that have the name of one of its load balancers,
  -- and behind them a record for each endpoint of the load balancers; nothing else of the zone
  -- changes.
  pub wanted_zone_lem :
      (lbs : List Loadbalancer) (z : Zone T)
      → wanted_zone lib lbs z ≡ record z {
        records =
            keep (λ r. not (is_managed lbs z.name r)) z.records ++ endpoint_records lbs z.name;
      }
  unfolding wanted_zone
  wanted_zone_lem [] z = ap (with_records z) (sym (append-nil _ ∙ keep_unmanaged z.records z.name))
  wanted_zone_lem (lb ∷ lbs) z =
      ap (add_records lib (lb ∷ lbs)) (remove_records_lem (lb ∷ lbs) z)
      ∙ add_records_lem (lb ∷ lbs) _

  pub name-wanted_zone :
      (lbs : List Loadbalancer) (z : Zone T) → (wanted_zone lib lbs z).name ≡ z.name
  name-wanted_zone lbs z = ap (λ (w : Zone T). w.name) (wanted_zone_lem lbs z)
