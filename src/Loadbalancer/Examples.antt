-- ===== src/Loadbalancer/Examples.antt =====
-- The checksum of a list at concrete load balancers.
use dnslb.Base.{ℕ, ◌+◌, ◌*◌, List, [], ◌∷◌, ◌++◌, map, Str, bytes, ◌≡◌, refl, arith}
use dnslb.Net.{EndpointProtocol}
use dnslb.Net.RoundTrip.{IsEndpoint}
use dnslb.Loadbalancer.{Loadbalancer, new_loadbalancer, new_loadbalancer_list}
use dnslb.Loadbalancer.Digest.{endpoint_bytes, list_bytes, new_loadbalancer_list_collision}
use dnslb.Loadbalancer.Targets.{targets, new_loadbalancer_list_inj}

-- A hash of byte strings that does not collide.
abbrev tiny_hash : Str → ℕ
tiny_hash [] = 0
tiny_hash (b ∷ s) = b + 257 * tiny_hash s + 1

abbrev web : EndpointProtocol
web = record {
  endpoint = record { ip = 10 ∷ 0 ∷ 0 ∷ 1 ∷ []; port = 443 };
  protocol = bytes "https";
}

abbrev web_tcp : EndpointProtocol
web_tcp = record {
  endpoint = record { ip = 10 ∷ 0 ∷ 0 ∷ 1 ∷ []; port = 443 };
  protocol = bytes "tcp";
}

abbrev balancers : List Loadbalancer
balancers = new_loadbalancer (bytes "a.example") (web ∷ []) ∷ []

abbrev tcp_balancers : List Loadbalancer
tcp_balancers = new_loadbalancer (bytes "a.example") (web_tcp ∷ []) ∷ []

new_loadbalancer_list_collision_example :
    (new_loadbalancer_list tiny_hash
      (new_loadbalancer (bytes "a") ([] ++ web ∷ []) ∷ new_loadbalancer (bytes "b") [] ∷ [])).hash
    ≡ (new_loadbalancer_list tiny_hash (
        new_loadbalancer (bytes "a") []
        ∷ new_loadbalancer (endpoint_bytes web ++ bytes "b") []
        ∷ [])).hash
new_loadbalancer_list_collision_example =
    new_loadbalancer_list_collision tiny_hash (bytes "a") (bytes "b") web [] []

same_bytes : list_bytes balancers ≡ list_bytes tcp_balancers
same_bytes = refl

equal_hashes :
    (new_loadbalancer_list tiny_hash balancers).hash
    ≡ (new_loadbalancer_list tiny_hash tcp_balancers).hash
unfolding new_loadbalancer_list
equal_hashes = refl

web-IsEndpoint : IsEndpoint web.endpoint
web-IsEndpoint = record { four = omega arith; in_range = omega arith }

new_loadbalancer_list_inj_example : map targets balancers ≡ map targets tcp_balancers
new_loadbalancer_list_inj_example =
    new_loadbalancer_list_inj tiny_hash balancers tcp_balancers (λ e. same_bytes)
      (refl, refl, (web-IsEndpoint, tt), (web-IsEndpoint, tt), tt) equal_hashes
