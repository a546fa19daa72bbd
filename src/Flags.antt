-- ===== src/Flags.antt =====
-- util.go, and the flag values of main.go: the types behind the flags -lb, -agent, -etcd and
-- -bully-peer, and the parser of a load balancer's endpoints.
pub mod Laws
mod Examples
use dnslb.Base.{
  Bool, true, false, List, [], ◌∷◌, ◌++◌, Str, bytes, str_eq, Dict, insert, Result, ok, err, ◌>>=◌,
  wrap_err, if◌then◌else◌,
}
use dnslb.Go.Strings.{split, join}
use dnslb.Net.{EndpointProtocol, ParseError, bad_item, try_parse_endpoint_protocol}
use dnslb.Loadbalancer.{Loadbalancer}

-- The errors of the flag values.
pub data FlagError : Type 0 where
  expected_key_value : Str → FlagError
  empty_name : FlagError

abbrev set_pair : Str → Dict Str → List Str → Result FlagError (Dict Str)
set_pair value m (k ∷ v ∷ []) = ok (insert k v m)
set_pair value m _ = err (expected_key_value value)

-- StringMap.Set: the map, with the pair stored.
unfoldable pub string_map_set : Str → Dict Str → Result FlagError (Dict Str)
string_map_set value m = set_pair value m (split value (bytes "="))

abbrev set_triple : Dict Str → List Str → Result FlagError (Dict Str)
set_triple m (k ∷ a ∷ b ∷ []) = ok (insert k (a ++ (bytes ":" ++ b)) m)
set_triple m _ = err empty_name

-- mapFlags.Set
unfoldable pub map_flags_set : Str → Dict Str → Result FlagError (Dict Str)
map_flags_set value m = set_triple m (split value (bytes ":"))

-- StringSlice.String
unfoldable pub string_slice_string : List Str → Str
string_slice_string l = join l (bytes " ")

-- StringSlice.Set
unfoldable pub string_slice_set : Str → List Str → List Str
string_slice_set value l = l ++ value ∷ []

unfoldable pub str_in_str_slice : Str → List Str → Bool
str_in_str_slice str [] = false
str_in_str_slice str (s ∷ slice) = if str_eq s str then true else str_in_str_slice str slice

unfoldable pub parse_endpoint_values :
    List EndpointProtocol → List Str → Result ParseError (List EndpointProtocol)
parse_endpoint_values endpoints [] = ok endpoints
parse_endpoint_values endpoints (s ∷ values) =
    wrap_err (bad_item s) (try_parse_endpoint_protocol s) >>= λ ep.
    parse_endpoint_values (endpoints ++ ep ∷ []) values

-- parseLoadbalancerEndpointList
unfoldable pub parse_loadbalancer_endpoint_list : Str → List Str → Result ParseError Loadbalancer
unfolding parse_endpoint_values
parse_loadbalancer_endpoint_list key values = parse_endpoint_values [] values >>= λ endpoints.
    ok (record { name = key; endpoints = endpoints })
