-- ===== src/Loadbalancer.antt =====
-- loadbalancer.go: load balancers, and the list of them with its checksum.
pub mod Digest
pub mod Targets
mod Examples
use dnslb.Base.{ℕ, ◌+◌, ◌/◌, ◌%◌, List, [], ◌∷◌, ◌++◌, Str}
use dnslb.Net.{Endpoint, EndpointProtocol}

pub record Loadbalancer : Type 0 where
  pub name : Str
  pub endpoints : List EndpointProtocol

pub record LoadbalancerList : Type 0 where
  pub loadbalancers : List Loadbalancer
  pub hash : ℕ

-- NewLoadbalancer
abbrev pub new_loadbalancer : Str → List EndpointProtocol → Loadbalancer
new_loadbalancer name endpoints = record { name = name; endpoints = endpoints }

-- binary.LittleEndian.PutUint16
abbrev pub put_uint16 : ℕ → Str
put_uint16 port = port % 256 ∷ port / 256 % 256 ∷ []

-- The inner loop of calculateHash; `h` is what has been written to the hash.
unfoldable pub write_endpoints : Str → List EndpointProtocol → Str
write_endpoints h [] = h
write_endpoints h (e ∷ endpoints) = write_endpoints ((h ++ e.ip) ++ put_uint16 e.port) endpoints

-- The outer loop of calculateHash.
unfoldable pub write_loadbalancers : Str → List Loadbalancer → Str
unfolding write_endpoints
write_loadbalancers h [] = h
write_loadbalancers h (lb ∷ lbs) =
    write_loadbalancers (write_endpoints (h ++ lb.name) lb.endpoints) lbs

-- `xxhash` is Sum64 of package github.com/OneOfOne/xxhash over all bytes that were written.
module _ (xxhash : Str → ℕ) where
  unfoldable pub calculate_hash : List Loadbalancer → ℕ
  unfolding write_loadbalancers
  calculate_hash lbs = xxhash (write_loadbalancers [] lbs)

  -- NewLoadbalancerList
  unfoldable pub new_loadbalancer_list : List Loadbalancer → LoadbalancerList
  unfolding calculate_hash
  new_loadbalancer_list lbs = record { loadbalancers = lbs; hash = calculate_hash lbs }
