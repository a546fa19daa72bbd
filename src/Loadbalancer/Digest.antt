-- ===== src/Loadbalancer/Digest.antt =====
-- What the checksum of a list depends on.
use dnslb.Base.{ℕ, List, [], ◌∷◌, ◌++◌, Str, ◌≡◌, refl, ap, sym, ◌∙◌, append_assoc, append-nil}
use dnslb.Net.{EndpointProtocol}
use dnslb.Loadbalancer.{
  Loadbalancer, put_uint16, write_endpoints, write_loadbalancers, calculate_hash,
  new_loadbalancer_list, new_loadbalancer,
}

-- The bytes of one endpoint, and of a load balancer's endpoints.
abbrev pub endpoint_bytes : EndpointProtocol → Str
endpoint_bytes e = e.ip ++ put_uint16 e.port

abbrev pub endpoints_bytes : List EndpointProtocol → Str
endpoints_bytes [] = []
endpoints_bytes (e ∷ es) = endpoint_bytes e ++ endpoints_bytes es

abbrev pub list_bytes : List Loadbalancer → Str
list_bytes [] = []
list_bytes (lb ∷ lbs) = lb.name ++ (endpoints_bytes lb.endpoints ++ list_bytes lbs)

write_endpoints_lem :
    (h : Str) (es : List EndpointProtocol) → write_endpoints h es ≡ h ++ endpoints_bytes es
unfolding write_endpoints
write_endpoints_lem h [] = sym (append-nil h)
write_endpoints_lem h (e ∷ es) =
    write_endpoints_lem ((h ++ e.ip) ++ put_uint16 e.port) es ∙ simp append_assoc

write_loadbalancers_lem :
    (h : Str) (lbs : List Loadbalancer) → write_loadbalancers h lbs ≡ h ++ list_bytes lbs
unfolding write_loadbalancers
write_loadbalancers_lem h [] = sym (append-nil h)
write_loadbalancers_lem h (lb ∷ lbs) =
    write_loadbalancers_lem (write_endpoints (h ++ lb.name) lb.endpoints) lbs
    ∙ rw (write_endpoints_lem (h ++ lb.name) lb.endpoints) (simp append_assoc)

-- The checksum is the hash of the names, addresses and ports, one after the other.
pub calculate_hash_lem :
    (xxhash : Str → ℕ) (lbs : List Loadbalancer)
    → calculate_hash xxhash lbs ≡ xxhash (list_bytes lbs)
unfolding calculate_hash
calculate_hash_lem xxhash lbs = ap xxhash (write_loadbalancers_lem [] lbs)

endpoints_bytes-append :
    (es fs : List EndpointProtocol)
    → endpoints_bytes (es ++ fs) ≡ endpoints_bytes es ++ endpoints_bytes fs
endpoints_bytes-append [] fs = refl
endpoints_bytes-append (e ∷ es) fs =
    ap (◌++◌ (endpoint_bytes e)) (endpoints_bytes-append es fs)
    ∙ sym (append_assoc (endpoint_bytes e) (endpoints_bytes es) (endpoints_bytes fs))

-- Nothing stands between the parts that are written: a list has the checksum of the list in which
-- the last endpoint of its first load balancer is the beginning of the second one's name.
pub new_loadbalancer_list_collision :
    (xxhash : Str → ℕ) (n m : Str) (e : EndpointProtocol) (es fs : List EndpointProtocol)
    → (new_loadbalancer_list xxhash
        (new_loadbalancer n (es ++ e ∷ []) ∷ new_loadbalancer m fs ∷ [])).hash
      ≡ (new_loadbalancer_list xxhash
          (new_loadbalancer n es ∷ new_loadbalancer (endpoint_bytes e ++ m) fs ∷ [])).hash
unfolding new_loadbalancer_list
new_loadbalancer_list_collision xxhash n m e es fs =
    calculate_hash_lem xxhash (new_loadbalancer n (es ++ e ∷ []) ∷ new_loadbalancer m fs ∷ [])
    ∙ ap xxhash (simp (endpoints_bytes-append, append_assoc, append-nil))
    ∙ sym (
        calculate_hash_lem xxhash
          (new_loadbalancer n es ∷ new_loadbalancer (endpoint_bytes e ++ m) fs ∷ []))
