-- ===== src/DnsController/Names.antt =====
-- The record name of a load balancer in its zone.
use dnslb.Base.{
  false, List, [], ◌++◌, Str, bytes, str_eq, str_eq_iff, length, length-append, some, ◌≡◌, ◌≢◌, ap,
  sym, ◌∙◌, arith, Bool-cases, inl, inr, value_or, lookup, keep-Mem, str_eq_refl,
}
use mathlib.Core.List.{Memᴰ}
use dnslb.Go.Strings.{has_suffix}
use dnslb.Go.Strings.Laws.{trim_suffix-append, trim_suffix_other}
use dnslb.Loadbalancer.{Loadbalancer}
use dnslb.DnsController.Match.{first_zone, map_lbs_to_zones}
use dnslb.DnsController.Wanted.{a_name}
use dnslb.DnsController.Mapping.{belongs, map_lbs_to_zones_lem}

-- A load balancer `host.zone` has the record name `host` in `zone`.
pub a_name_subdomain :
    (lb : Loadbalancer) (host zone : Str)
    → lb.name ≡ host ++ (bytes "." ++ zone)
    → a_name lb zone ≡ host
unfolding a_name
a_name_subdomain lb host zone e = elim (Bool-cases (str_eq lb.name zone)) [
  | inl same ↦ absurd (too_short ((str_eq_iff lb.name zone).0 same))
  | inr other ↦ rw (other, e) (trim_suffix-append host (bytes "." ++ zone))
]
  where
    too_short : lb.name ≡ zone → ⊥
    too_short same = omega (arith, ap length (sym same ∙ e), length-append host (bytes "." ++ zone))

-- A zone is chosen by whether its name occurs anywhere in the load balancer's: a load balancer that
-- is neither the first such zone nor below it is put to that zone all the same, under its whole
-- name.
pub map_lbs_to_zones_misplaced :
    (lbs : List Loadbalancer) (names : List Str) (zone : Str) (lb : Loadbalancer)
    → Memᴰ lb lbs
    → first_zone lb.name names ≡ some zone
    → lb.name ≢ zone
    → has_suffix lb.name (bytes "." ++ zone) ≡ false
    → Memᴰ lb (value_or [] (lookup zone (map_lbs_to_zones lbs names))) × (a_name lb zone ≡ lb.name)
unfolding a_name
map_lbs_to_zones_misplaced lbs names zone lb inside first other outside = (
  rw (map_lbs_to_zones_lem lbs names zone)
      (keep-Mem (belongs names zone) lbs lb inside (rw first (str_eq_refl zone))),
  ground (arith, str_eq_iff lb.name zone, trim_suffix_other lb.name (bytes "." ++ zone) outside),
)
