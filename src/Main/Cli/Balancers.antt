-- ===== src/Main/Cli/Balancers.antt =====
-- The flag -lb: from the texts of load balancers to the load balancers that dnsManage has.
use dnslb.Base.{
  Bool, true, false, not, ◌&&◌, some, List, [], ◌∷◌, ◌++◌, map, Str, bytes, Dict, insert, str_eq,
  any, All, ◌≡◌, refl, sym, ◌∙◌, ap, arith, Bool-cases, inl, inr, &&-eq-true, append_assoc,
  append-nil,
}
use mathlib.Core.Path.{subst}
use dnslb.Go.Strings.{split, join}
use dnslb.Go.Strings.Laws.{Free, Free-append}
use dnslb.Go.Strings.Pieces.{split-join}
use dnslb.Net.{EndpointProtocol, endpoint_string, endpoint_protocol_string}
use dnslb.Net.RoundTrip.{IsItem, endpoint_string-Free, items-Free}
use dnslb.Flags.Laws.{string_map_set_iff}
use dnslb.Loadbalancer.{Loadbalancer}
use dnslb.Main.Cli.{map_flag, FlagLib, set_flag, set_ok, split_values}
use dnslb.Main.Cli.Texts.{set_texts, set_texts_step}

-- The text of the endpoints, and of the load balancer, as the help text of -lb has it.
abbrev pub endpoints_text : Loadbalancer → Str
endpoints_text lb = join (map endpoint_protocol_string lb.endpoints) (bytes ",")

abbrev pub lb_text : Loadbalancer → Str
lb_text lb = lb.name ++ (bytes "=" ++ endpoints_text lb)

-- The name has no `=`, there is an endpoint, and each has an IPv4 address, a port of 16 bits and a
-- protocol with no colon, comma or `=`.
pub record IsLine (lb : Loadbalancer) : Type 0 where
  pub name : Free b'=' lb.name
  pub first : EndpointProtocol
  pub others : List EndpointProtocol
  pub endpoints : lb.endpoints ≡ first ∷ others
  pub items : All IsItem lb.endpoints
  pub protocols : All (λ e. Free b'=' e.protocol) lb.endpoints

-- The names are different, and not among those that were seen.
abbrev pub different : List Str → List Loadbalancer → Bool
different seen [] = true
different seen (lb ∷ lbs) =
    not (any (λ j. str_eq j lb.name) seen) && different (seen ++ lb.name ∷ []) lbs

-- The load balancer in the map of the flag, and in the one of the configuration.
abbrev pub flag_entry : Loadbalancer → Str × Str
flag_entry lb = (lb.name, endpoints_text lb)

abbrev pub table_entry : Loadbalancer → Str × List Str
table_entry lb = (lb.name, map endpoint_protocol_string lb.endpoints)

protocols-Free :
    (es : List EndpointProtocol)
    → All IsItem es
    → All (λ e. Free b'=' e.protocol) es
    → All (Free b'=') (map endpoint_protocol_string es)
unfolding endpoint_protocol_string
protocols-Free [] h k = tt
protocols-Free (e ∷ es) h k = (
  Free-append b'=' e.protocol (bytes "://" ++ endpoint_string e.endpoint) k.0 (
    omega arith,
    (
      omega arith,
      (omega arith, endpoint_string-Free b'=' e.endpoint (inr (inr (omega arith))) h.0.address),
    ),
  ),
  protocols-Free es h.1 k.1,
)

join-Free : (ps : List Str) → All (Free b'=') ps → Free b'=' (join ps (bytes ","))
unfolding join
join-Free [] h = tt
join-Free (p ∷ []) h = h.0
join-Free (p ∷ q ∷ ps) h =
    Free-append b'=' p (bytes "," ++ join (q ∷ ps) (bytes ",")) h.0
      (omega arith, join-Free (q ∷ ps) h.1)

insert_new :
    (k v : Str) (m : Dict Str)
    → any (λ j. str_eq j k) (map (λ p. p.0) m) ≡ false
    → insert k v m ≡ m ++ (k, v) ∷ []
unfolding insert
insert_new k v [] h = refl
insert_new k v ((j, w) ∷ m) h = elim (Bool-cases (str_eq j k)) [
  | inl same ↦ cc (rw same at h)
  | inr other ↦ rw other (ap (◌∷◌ (j, w)) (insert_new k v m (rw other at h)))
]

not-true : (b : Bool) → not b ≡ true → b ≡ false
not-true true h = cc
not-true false h = refl

set_flag-lb_text :
    (lib : FlagLib) (m : Dict Str) (lb : Loadbalancer)
    → IsLine lb
    → set_flag lib (map_flag m) (lb_text lb)
      ≡ some (map_flag (insert lb.name (endpoints_text lb) m))
unfolding set_flag
set_flag-lb_text lib m lb line = ap (set_ok map_flag) (
    (string_map_set_iff (lb_text lb) m (insert lb.name (endpoints_text lb) m)).1 (
      lb.name,
      endpoints_text lb,
      refl,
      line.name,
      join-Free _ (protocols-Free lb.endpoints line.items line.protocols),
      refl,
    ))

map-append : {A B : Type 0} (f : A → B) (xs ys : List A) → map f (xs ++ ys) ≡ map f xs ++ map f ys
map-append f [] ys = refl
map-append f (x ∷ xs) ys = ap (◌∷◌ (f x)) (map-append f xs ys)

-- The texts of load balancers with different names are stored under their names, in their order.
pub set_texts-lb_text :
    (lib : FlagLib) (m : Dict Str) (lbs : List Loadbalancer)
    → All IsLine lbs
    → different (map (λ p. p.0) m) lbs ≡ true
    → set_texts lib (map_flag m) (map lb_text lbs) ≡ some (map_flag (m ++ map flag_entry lbs))
unfolding set_texts
set_texts-lb_text lib m [] h d = ap (λ l. some (map_flag l)) (sym (append-nil m))
set_texts-lb_text lib m (lb ∷ lbs) h d =
    let (new, rest) = &&-eq-true _ _ d in
    set_texts_step lib (map_flag m) _ (lb_text lb) _ (set_flag-lb_text lib m lb h.0)
    ∙ ap (λ l. set_texts lib (map_flag l) (map lb_text lbs))
        (insert_new lb.name _ m (not-true _ new))
    ∙ set_texts-lb_text lib (m ++ flag_entry lb ∷ []) lbs h.1
        (ap (λ l. different l lbs) (map-append (λ p. p.0) m (flag_entry lb ∷ [])) ∙ rest)
    ∙ ap (λ l. some (map_flag l)) (append_assoc m (flag_entry lb ∷ []) (map flag_entry lbs))

split-endpoints_text :
    (lb : Loadbalancer)
    → IsLine lb
    → split (endpoints_text lb) (bytes ",") ≡ map endpoint_protocol_string lb.endpoints
split-endpoints_text lb line =
    ap (λ es. split (join (map endpoint_protocol_string es) (bytes ",")) (bytes ",")) line.endpoints
    ∙ split-join b',' (endpoint_protocol_string line.first)
        (map endpoint_protocol_string line.others)
        (subst (λ es. All (Free b',') (map endpoint_protocol_string es)) line.endpoints
          (items-Free lb.endpoints line.items))
    ∙ ap (map endpoint_protocol_string) (sym line.endpoints)

pub split_values-entry :
    (lbs : List Loadbalancer)
    → All IsLine lbs
    → split_values (map flag_entry lbs) ≡ map table_entry lbs
split_values-entry [] h = refl
split_values-entry (lb ∷ lbs) h = rw (split-endpoints_text lb h.0, split_values-entry lbs h.1)
