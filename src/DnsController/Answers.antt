-- ===== src/DnsController/Answers.antt =====
-- What a zone of updateWantedZones answers for the names of its load balancers.
use dnslb.Base.{
  Bool, true, false, not, List, [], ◌∷◌, ◌++◌, map, Str, str_eq, str_eq_iff, str_eq_refl, any, keep,
  keep-append, if◌then◌else◌, ◌≡◌, refl, ap, sym, ◌∙◌, arith, append-nil, Bool-cases, inl, inr,
}
use mathlib.Core.List.{map-append}
use dnslb.Go.Ip.{ip_string}
use dnslb.Net.{EndpointProtocol}
use dnslb.Loadbalancer.{Loadbalancer}
use dnslb.Dns.{DnsTypes, Record, Zone, DnsLib, DnsLaws}
use dnslb.DnsController.Wanted.{a_name, a_record, wanted_zone}
use dnslb.DnsController.Records.{is_a, is_managed, endpoint_records, wanted_zone_lem}

-- One of the load balancers has the record name.
abbrev pub has_a_name : Str → Str → List Loadbalancer → Bool
has_a_name n zone lbs = any (λ lb. str_eq (a_name lb zone) n) lbs

-- The addresses of the load balancers that have the record name, in their order.
abbrev pub addresses : Str → Str → List Loadbalancer → List Str
addresses n zone [] = []
addresses n zone (lb ∷ lbs) =
    let rest = addresses n zone lbs in
    if str_eq (a_name lb zone) n then map (λ e. ip_string e.ip) lb.endpoints ++ rest else rest

keep-keep_none :
    {A : Type 0} (p q : A → Bool) (l : List A)
    → ((a : A) → q a ≡ true → p a ≡ false)
    → keep p (keep q l) ≡ []
keep-keep_none p q [] h = refl
keep-keep_none p q (x ∷ l) h = elim (Bool-cases (q x)) [
  | inl e ↦ rw (e, h x e) (keep-keep_none p q l h)
  | inr e ↦ rw e (keep-keep_none p q l h)
]

keep_idem : {A : Type 0} (p : A → Bool) (l : List A) → keep p (keep p l) ≡ keep p l
keep_idem p [] = refl
keep_idem p (x ∷ l) = elim (Bool-cases (p x)) [
  | inl e ↦ rw (e, e) (ap (◌∷◌ x) (keep_idem p l))
  | inr e ↦ rw e (keep_idem p l)
]

module _ {T : DnsTypes} (lib : DnsLib T) (laws : DnsLaws lib) where
  is_a-a_record :
      (n m : Str) (e : EndpointProtocol) → is_a lib laws n (a_record lib m e) ≡ str_eq m n
  is_a-a_record n m e = rw ((laws.same_type_iff lib.type_a lib.type_a).1 refl) (ground arith)

  keep-new_records :
      (n m : Str) (es : List EndpointProtocol)
      → map (λ r. r.value) (keep (is_a lib laws n) (map (a_record lib m) es))
        ≡ (if str_eq m n then map (λ e. ip_string e.ip) es else [])
  keep-new_records n m [] = ground arith
  keep-new_records n m (e ∷ es) = rw (is_a-a_record n m e) (ground (arith, keep-new_records n m es))

  keep-endpoint_records :
      (n zone : Str) (lbs : List Loadbalancer)
      → map (λ r. r.value) (keep (is_a lib laws n) (endpoint_records lib laws lbs zone))
        ≡ addresses n zone lbs
  keep-endpoint_records n zone [] = refl
  keep-endpoint_records n zone (lb ∷ lbs) =
      let new = map (a_record lib (a_name lb zone)) lb.endpoints in
      let rest = endpoint_records lib laws lbs zone in
      ap (map (λ r. r.value)) (keep-append (is_a lib laws n) new rest)
      ∙ map-append (λ (r : Record T). r.value) (keep (is_a lib laws n) new)
          (keep (is_a lib laws n) rest)
      ∙ rw (keep-new_records n (a_name lb zone) lb.endpoints, keep-endpoint_records n zone lbs)
          (ground arith)

  is_managed-is_a :
      (n zone : Str) (lbs : List Loadbalancer) (r : Record T)
      → has_a_name n zone lbs ≡ true
      → is_managed lib laws lbs zone r ≡ false
      → is_a lib laws n r ≡ false
  is_managed-is_a n zone [] r h m = cc
  is_managed-is_a n zone (lb ∷ lbs) r h m =
      ground (arith, is_managed-is_a n zone lbs r, str_eq_iff (a_name lb zone) n)

  -- If package dns removes records as it documents, then for the record name of one of its load
  -- balancers a wanted zone has A records for exactly the addresses of the endpoints of the load
  -- balancers with that record name, in their order, whatever the current zone had.
  pub wanted_zone_answers :
      (n : Str) (lbs : List Loadbalancer) (z : Zone T)
      → has_a_name n z.name lbs ≡ true
      → map (λ r. r.value) (keep (is_a lib laws n) (wanted_zone lib lbs z).records)
        ≡ addresses n z.name lbs
  wanted_zone_answers n lbs z h =
      let old = keep (λ r. not (is_managed lib laws lbs z.name r)) z.records in
      let new = endpoint_records lib laws lbs z.name in
      let gone : keep (is_a lib laws n) old ≡ [] =
        keep-keep_none (is_a lib laws n) (λ r. not (is_managed lib laws lbs z.name r)) z.records
          (λ r k. is_managed-is_a n z.name lbs r h (ground arith)) in
      ap (λ (w : Zone T). map (λ r. r.value) (keep (is_a lib laws n) w.records))
        (wanted_zone_lem lib laws lbs z)
      ∙ ap (map (λ r. r.value)) (keep-append (is_a lib laws n) old new)
      ∙ rw gone (keep-endpoint_records n z.name lbs)

  new_records_managed :
      (m zone : Str) (lbs : List Loadbalancer) (es : List EndpointProtocol)
      → has_a_name m zone lbs ≡ true
      → keep (λ r. not (is_managed lib laws lbs zone r)) (map (a_record lib m) es) ≡ []
  new_records_managed m zone lbs [] h = refl
  new_records_managed m zone lbs (e ∷ es) h =
      rw (managed lbs h) (new_records_managed m zone lbs es h)
    where
      managed :
          (ls : List Loadbalancer)
          → has_a_name m zone ls ≡ true
          → is_managed lib laws ls zone (a_record lib m e) ≡ true
      managed [] k = cc
      managed (l ∷ ls) k =
          rw (is_a-a_record (a_name l zone) m e)
            (ground (arith, managed ls, str_eq_iff m (a_name l zone), str_eq_iff (a_name l zone) m))

  endpoint_records_managed :
      (zone : Str) (all lbs : List Loadbalancer)
      → ((lb : Loadbalancer)
          → has_a_name (a_name lb zone) zone lbs ≡ true
          → has_a_name (a_name lb zone) zone all ≡ true)
      → keep (λ r. not (is_managed lib laws all zone r)) (endpoint_records lib laws lbs zone) ≡ []
  endpoint_records_managed zone all [] h = refl
  endpoint_records_managed zone all (lb ∷ lbs) h =
      keep-append (λ r. not (is_managed lib laws all zone r)) _ (endpoint_records lib laws lbs zone)
      ∙ rw (
        new_records_managed (a_name lb zone) zone all lb.endpoints
            (h lb (rw (str_eq_refl (a_name lb zone)))),
        endpoint_records_managed zone all lbs (λ l k. h l (ground arith)),
      )

  -- If package dns removes records as it documents, the wanted zone of a wanted zone is that zone
  -- itself, for the same load balancers.
  pub wanted_zone_idem :
      (lbs : List Loadbalancer) (z : Zone T)
      → wanted_zone lib lbs (wanted_zone lib lbs z) ≡ wanted_zone lib lbs z
  wanted_zone_idem lbs z =
      let unmanaged = λ (r : Record T). not (is_managed lib laws lbs z.name r) in
      let old = keep unmanaged z.records in
      let new = endpoint_records lib laws lbs z.name in
      let w : Zone T = record z { records = old ++ new } in
      let settled : keep unmanaged (old ++ new) ≡ old =
        keep-append unmanaged old new
        ∙ rw (keep_idem unmanaged z.records, endpoint_records_managed z.name lbs lbs (λ l k. k))
            (append-nil old) in
      ap (wanted_zone lib lbs) (wanted_zone_lem lib laws lbs z)
      ∙ wanted_zone_lem lib laws lbs w
      ∙ ap (λ l. record z { records = l ++ new }) settled
      ∙ sym (wanted_zone_lem lib laws lbs z)
