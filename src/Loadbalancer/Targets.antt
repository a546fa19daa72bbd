-- ===== src/Loadbalancer/Targets.antt =====
-- The checksum of loadbalancer.go against the addresses and ports of the endpoints.
use dnslb.Base.{
  ℕ, ◌<◌, ◌/◌, ◌%◌, List, [], ◌∷◌, ◌++◌, Str, ◌≡◌, refl, ap, sym, ◌∙◌, arith, append_assoc, All,
  length, append_inj, map,
}
use dnslb.Go.Ip.Laws.{IsIpv4}
use dnslb.Net.{Endpoint, EndpointProtocol}
use dnslb.Net.RoundTrip.{IsEndpoint}
use dnslb.Loadbalancer.{Loadbalancer, put_uint16, new_loadbalancer_list}
use dnslb.Loadbalancer.Digest.{endpoint_bytes, endpoints_bytes, list_bytes, calculate_hash_lem}

-- The addresses and ports of a load balancer, which its DNS records are made from.
abbrev pub targets : Loadbalancer → List Endpoint
targets lb = map (λ e. e.endpoint) lb.endpoints

-- The names agree, each load balancer has as many endpoints in both, and every endpoint has an IPv4
-- address and a port of 16 bits.
abbrev pub SameShape : List Loadbalancer → List Loadbalancer → Type 0
SameShape [] [] = Unit
SameShape [] (m ∷ ms) = ⊥
SameShape (l ∷ ls) [] = ⊥
SameShape (l ∷ ls) (m ∷ ms) =
    (l.name ≡ m.name)
    × (length l.endpoints ≡ length m.endpoints)
    × All (λ e. IsEndpoint e.endpoint) l.endpoints
    × All (λ e. IsEndpoint e.endpoint) m.endpoints
    × SameShape ls ms

length-IsIpv4 : (p : List ℕ) → IsIpv4 p → length p ≡ 4
length-IsIpv4 (a ∷ b ∷ c ∷ d ∷ []) h = refl
length-IsIpv4 [] h = absurd h
length-IsIpv4 (a ∷ []) h = absurd h
length-IsIpv4 (a ∷ b ∷ []) h = absurd h
length-IsIpv4 (a ∷ b ∷ c ∷ []) h = absurd h
length-IsIpv4 (a ∷ b ∷ c ∷ d ∷ e ∷ p) h = absurd h

put_uint16_inj :
    (a b : ℕ) (r s : Str)
    → a < 65536
    → b < 65536
    → put_uint16 a ++ r ≡ put_uint16 b ++ s
    → (a ≡ b) × (r ≡ s)
put_uint16_inj a b r s ha hb e = let (low, high, rest) = parts in (omega arith, rest)
  where
    parts : (a % 256 ≡ b % 256) × (a / 256 % 256 ≡ b / 256 % 256) × (r ≡ s)
    parts = ground arith

endpoint_bytes_inj :
    (e f : EndpointProtocol) (r s : Str)
    → IsEndpoint e.endpoint
    → IsEndpoint f.endpoint
    → endpoint_bytes e ++ r ≡ endpoint_bytes f ++ s
    → (e.endpoint ≡ f.endpoint) × (r ≡ s)
endpoint_bytes_inj e f r s he hf eq =
    let (ips, rest) =
      append_inj e.ip f.ip (put_uint16 e.port ++ r) (put_uint16 f.port ++ s)
        (length-IsIpv4 e.ip he.four ∙ sym (length-IsIpv4 f.ip hf.four))
        (sym (append_assoc e.ip (put_uint16 e.port) r)
          ∙ eq
          ∙ append_assoc f.ip (put_uint16 f.port) s) in
    let (ports, rest') = put_uint16_inj e.port f.port r s he.in_range hf.in_range rest in
    (λ i. record { ip = ips i; port = ports i }, rest')

endpoints_bytes_inj :
    (es fs : List EndpointProtocol) (r s : Str)
    → length es ≡ length fs
    → All (λ e. IsEndpoint e.endpoint) es
    → All (λ e. IsEndpoint e.endpoint) fs
    → endpoints_bytes es ++ r ≡ endpoints_bytes fs ++ s
    → (map (λ e. e.endpoint) es ≡ map (λ e. e.endpoint) fs) × (r ≡ s)
endpoints_bytes_inj [] [] r s n he hf eq = (refl, eq)
endpoints_bytes_inj [] (f ∷ fs) r s n he hf eq = absurd (omega arith)
endpoints_bytes_inj (e ∷ es) [] r s n he hf eq = absurd (omega arith)
endpoints_bytes_inj (e ∷ es) (f ∷ fs) r s n he hf eq =
    let (same, rest) =
      endpoint_bytes_inj e f (endpoints_bytes es ++ r) (endpoints_bytes fs ++ s) he.0 hf.0 (
        sym (append_assoc (endpoint_bytes e) (endpoints_bytes es) r)
        ∙ eq
        ∙ append_assoc (endpoint_bytes f) (endpoints_bytes fs) s) in
    let (others, rest') = endpoints_bytes_inj es fs r s (omega arith) he.1 hf.1 rest in
    (λ i. same i ∷ others i, rest')

list_bytes_inj :
    (ls ms : List Loadbalancer)
    → SameShape ls ms
    → list_bytes ls ≡ list_bytes ms
    → map targets ls ≡ map targets ms
list_bytes_inj [] [] h e = refl
list_bytes_inj [] (m ∷ ms) h e = absurd h
list_bytes_inj (l ∷ ls) [] h e = absurd h
list_bytes_inj (l ∷ ls) (m ∷ ms) (names, sizes, hl, hm, h) e =
    let (_, rest) =
      append_inj l.name m.name (endpoints_bytes l.endpoints ++ list_bytes ls)
        (endpoints_bytes m.endpoints ++ list_bytes ms) (ap length names) e in
    let (here, later) =
      endpoints_bytes_inj l.endpoints m.endpoints (list_bytes ls) (list_bytes ms) sizes hl hm
        rest in
    λ i. here i ∷ list_bytes_inj ls ms h later i

-- Two lists with the same names, as many IPv4 endpoints at each, and the same checksum have the same
-- addresses and ports, if the hash function does not collide on what they write.
pub new_loadbalancer_list_inj :
    (xxhash : Str → ℕ) (ls ms : List Loadbalancer)
    → (xxhash (list_bytes ls) ≡ xxhash (list_bytes ms) → list_bytes ls ≡ list_bytes ms)
    → SameShape ls ms
    → (new_loadbalancer_list xxhash ls).hash ≡ (new_loadbalancer_list xxhash ms).hash
    → map targets ls ≡ map targets ms
unfolding new_loadbalancer_list
new_loadbalancer_list_inj xxhash ls ms no_collision shape same =
    list_bytes_inj ls ms shape
      (no_collision (sym (calculate_hash_lem xxhash ls) ∙ same ∙ calculate_hash_lem xxhash ms))
