-- ===== src/DnsController/Mapping.antt =====
-- mapLBsToZones of dnsController.go: which load balancers each zone is given.
use dnslb.Base.{
  ◌≤◌, Bool, true, false, not, ◌||◌, Option, none, some, List, [], ◌∷◌, ◌++◌, Str, str_eq,
  str_eq_iff, Dict, lookup, value_or, lookup-insert, length, is_empty, keep, any, All,
  if◌then◌else◌, ◌≡◌, refl, ap, sym, ◌∙◌, arith, append_assoc, append-nil, Bool-cases, inl, inr,
}
use mathlib.Core.Path.{subst}
use mathlib.Core.List.{Memᴰ}
use dnslb.Go.Strings.{contains}
use dnslb.Loadbalancer.{Loadbalancer}
use dnslb.DnsController.Match.{
  first_zone, add_key, add_zone, zones_in_use, append_lb, map_lbs, map_lbs_to_zones,
}

abbrev pub is_zone : Str → Option Str → Bool
is_zone zone none = false
is_zone zone (some z) = str_eq z zone

-- The load balancer belongs to the zone.
abbrev pub belongs : List Str → Str → Loadbalancer → Bool
belongs names zone lb = is_zone zone (first_zone lb.name names)

-- The load balancers of a zone, in the order of the list.
abbrev pub zone_lbs : List Str → List Loadbalancer → Str → List Loadbalancer
zone_lbs names lbs zone = keep (belongs names zone) lbs

append_lb_lem :
    (zone : Str) (o : Option Str) (lb : Loadbalancer) (m : Dict (List Loadbalancer))
    (rest : List Loadbalancer)
    → value_or [] (lookup zone (append_lb o lb m)) ++ rest
      ≡ value_or [] (lookup zone m) ++ (if is_zone zone o then lb ∷ rest else rest)
append_lb_lem zone none lb m rest = refl
append_lb_lem zone (some z) lb m rest =
    rw (lookup-insert z zone (value_or [] (lookup z m) ++ lb ∷ []) m)
      (elim (Bool-cases (str_eq z zone)) [
        | inl same ↦
            rw (same, (str_eq_iff z zone).0 same)
              (append_assoc (value_or [] (lookup zone m)) (lb ∷ []) rest)
        | inr other ↦ rw other
      ])

map_lbs_lem :
    (names : List Str) (lbs : List Loadbalancer) (m : Dict (List Loadbalancer)) (zone : Str)
    → value_or [] (lookup zone (map_lbs names lbs m))
      ≡ value_or [] (lookup zone m) ++ zone_lbs names lbs zone
unfolding map_lbs
map_lbs_lem names [] m zone = sym (append-nil (value_or [] (lookup zone m)))
map_lbs_lem names (lb ∷ lbs) m zone =
    map_lbs_lem names lbs (append_lb (first_zone lb.name names) lb m) zone
    ∙ append_lb_lem zone (first_zone lb.name names) lb m (zone_lbs names lbs zone)

-- mapLBsToZones puts each load balancer to the first of the zone names that its name contains, and
-- keeps their order.
pub map_lbs_to_zones_lem :
    (lbs : List Loadbalancer) (names : List Str) (zone : Str)
    → value_or [] (lookup zone (map_lbs_to_zones lbs names)) ≡ zone_lbs names lbs zone
unfolding map_lbs_to_zones
map_lbs_to_zones_lem lbs names zone = unfold lookup in map_lbs_lem names lbs [] zone

-- The names stand in the order of their lengths, the longest first.
abbrev pub IsSorted : List Str → Type 0
IsSorted [] = Unit
IsSorted (x ∷ xs) = All (λ y. length y ≤ length x) xs × IsSorted xs

-- A zone of a list that the load balancer's name contains is no longer than the zone.
abbrev pub Longest : Str → Str → List Str → Type 0
Longest name zone zones = All (λ y. contains name y ≡ true → length y ≤ length zone) zones

first_zone-Longest :
    (name zone : Str) (zones : List Str)
    → IsSorted zones
    → first_zone name zones ≡ some zone
    → (contains name zone ≡ true) × Longest name zone zones
unfolding first_zone
first_zone-Longest name zone [] h e = cc
first_zone-Longest name zone (z ∷ zones) h e = elim (Bool-cases (contains name z)) [
  | inl found ↦
      let same : z ≡ zone = cc (rw found at e) in
      subst (λ (w : Str). (contains name w ≡ true) × Longest name w (z ∷ zones)) same
        (found, ((λ _. omega arith), shorter zones h.0))
  | inr not_found ↦
      let (inside, longest) = first_zone-Longest name zone zones h.1 (rw not_found at e) in
      (inside, ((λ p. cc), longest))
]
  where
    shorter : (ys : List Str) → All (λ y. length y ≤ length z) ys → Longest name z ys
    shorter [] k = tt
    shorter (y ∷ ys) k = ((λ _. k.0), shorter ys k.1)

is_zone_sound : (zone : Str) (o : Option Str) → is_zone zone o ≡ true → o ≡ some zone
is_zone_sound zone none h = cc
is_zone_sound zone (some z) h = ap some ((str_eq_iff z zone).0 h)

keep-Mem_sound :
    (p : Loadbalancer → Bool) (lbs : List Loadbalancer) (lb : Loadbalancer)
    → Memᴰ lb (keep p lbs)
    → (p lb ≡ true) × Memᴰ lb lbs
keep-Mem_sound p [] lb m = elim m [ ]
keep-Mem_sound p (x ∷ lbs) lb m = elim (Bool-cases (p x)) [
  | inl yes_x ↦ first (keep-Mem_sound p lbs lb) yes_x (rw yes_x at m)
  | inr no_x ↦
      let (test, inside) = keep-Mem_sound p lbs lb (rw no_x at m) in (test, Memᴰ.tail inside)
]
  where
    first :
        (Memᴰ lb (keep p lbs) → (p lb ≡ true) × Memᴰ lb lbs)
        → p x ≡ true
        → Memᴰ lb (x ∷ keep p lbs)
        → (p lb ≡ true) × Memᴰ lb (x ∷ lbs)
    first ih yes_x (Memᴰ.head e) = (ap p e ∙ yes_x, Memᴰ.head e)
    first ih yes_x (Memᴰ.tail k) = let (test, inside) = ih k in (test, Memᴰ.tail inside)

-- If the zone names are sorted by their lengths, a load balancer that mapLBsToZones puts to a zone is
-- one of the list, its name contains the zone's, and contains no longer one of the zone names.
pub map_lbs_to_zones-Longest :
    (lbs : List Loadbalancer) (names : List Str) (zone : Str) (lb : Loadbalancer)
    → IsSorted names
    → Memᴰ lb (value_or [] (lookup zone (map_lbs_to_zones lbs names)))
    → Memᴰ lb lbs × (contains lb.name zone ≡ true) × Longest lb.name zone names
map_lbs_to_zones-Longest lbs names zone lb sorted m =
    let (test, inside) =
      keep-Mem_sound (belongs names zone) lbs lb (rw (map_lbs_to_zones_lem lbs names zone) at m) in
    let (found, longest) =
      first_zone-Longest lb.name zone names sorted
        (is_zone_sound zone (first_zone lb.name names) test) in
    (inside, found, longest)

-- Whether a name is in a list.
abbrev pub has_key : Str → List Str → Bool
has_key k l = any (λ j. str_eq j k) l

has_key-add_key :
    (k z : Str) (keys : List Str) → has_key k (add_key z keys) ≡ (str_eq z k || has_key k keys)
unfolding add_key
has_key-add_key k z [] = ground arith
has_key-add_key k z (j ∷ keys) =
    ground (arith, str_eq_iff j z, str_eq_iff z k, str_eq_iff j k, has_key-add_key k z keys)

has_key-add_zone :
    (k : Str) (o : Option Str) (keys : List Str)
    → has_key k (add_zone o keys) ≡ (is_zone k o || has_key k keys)
has_key-add_zone k none keys = refl
has_key-add_zone k (some z) keys = has_key-add_key k z keys

-- updateCurrentZones asks for exactly the zones that have a load balancer, besides the keys that it
-- begins with.
pub has_key-zones_in_use :
    (k : Str) (names : List Str) (lbs : List Loadbalancer) (keys : List Str)
    → has_key k (zones_in_use names lbs keys)
      ≡ (has_key k keys || not (is_empty (zone_lbs names lbs k)))
unfolding zones_in_use
has_key-zones_in_use k names [] keys = ground arith
has_key-zones_in_use k names (lb ∷ lbs) keys =
    has_key-zones_in_use k names lbs (add_zone (first_zone lb.name names) keys)
    ∙ ground (arith, has_key-add_zone k (first_zone lb.name names) keys)
