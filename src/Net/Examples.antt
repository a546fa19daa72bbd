-- ===== src/Net/Examples.antt =====
-- Tests of net.go's parsers, and the theorems at concrete endpoints.
use dnslb.Base.{ℕ, ◌<◌, ◌%◌, ◌++◌, List, [], ◌∷◌, bytes, ok, err, ◌≡◌, ◌⊎◌, ◌↔◌, refl, arith, map}
use dnslb.Go.Strings.{join, split}
use dnslb.Go.Decimal.{itoa, atoi}
use dnslb.Go.Ip.{parse_ip, to4, ip_string}
use dnslb.Go.Ip.Laws.{IsIpv4}
use dnslb.Net.{
  Endpoint, EndpointProtocol, expected_schema, bad_item, endpoint_protocol_string,
  try_parse_endpoint, try_parse_endpoint_protocol, try_parse_endpoint_protocols,
}
use dnslb.Net.RoundTrip.{IsItem, try_parse_endpoint_protocols-join}
use dnslb.Net.Accepts.{
  Accepted, try_parse_endpoint_iff, try_parse_endpoint_bounds, try_parse_endpoint_unchecked,
}

abbrev local_http : EndpointProtocol
local_http = record {
  endpoint = record { ip = 127 ∷ 0 ∷ 0 ∷ 1 ∷ []; port = 80 };
  protocol = bytes "http";
}

abbrev second_tcp : EndpointProtocol
second_tcp = record {
  endpoint = record { ip = 127 ∷ 0 ∷ 1 ∷ 1 ∷ []; port = 8080 };
  protocol = bytes "tcp";
}

-- The list of the repository's tests.
parse_two :
    try_parse_endpoint_protocols (bytes "http://127.0.0.1:80,tcp://127.0.1.1:8080")
    ≡ ok (local_http ∷ second_tcp ∷ [])
unfolding try_parse_endpoint_protocols try_parse_endpoint_protocol try_parse_endpoint split atoi
    parse_ip to4
parse_two = refl

parse_bad :
    try_parse_endpoint_protocols (bytes "127.0.0.1:80")
    ≡ err (bad_item (bytes "127.0.0.1:80") (expected_schema (bytes "127.0.0.1:80")))
unfolding try_parse_endpoint_protocols try_parse_endpoint_protocol split
parse_bad = refl

local_http-IsItem : IsItem local_http
local_http-IsItem = record { address = omega arith; no_colon = omega arith; no_comma = omega arith }

second_tcp-IsItem : IsItem second_tcp
second_tcp-IsItem = record { address = omega arith; no_colon = omega arith; no_comma = omega arith }

try_parse_endpoint_protocols-join_example :
    try_parse_endpoint_protocols
      (join (map endpoint_protocol_string (local_http ∷ second_tcp ∷ [])) (bytes ","))
    ≡ ok (local_http ∷ second_tcp ∷ [])
try_parse_endpoint_protocols-join_example =
    try_parse_endpoint_protocols-join local_http (second_tcp ∷ [])
      (local_http-IsItem, (second_tcp-IsItem, tt))

try_parse_endpoint_iff_example :
    (try_parse_endpoint (bytes "127.0.0.1:80") ≡ ok local_http.endpoint)
    ↔ Accepted (bytes "127.0.0.1:80") local_http.endpoint
try_parse_endpoint_iff_example = try_parse_endpoint_iff (bytes "127.0.0.1:80") local_http.endpoint

parse_wrapped : try_parse_endpoint (bytes "example:-1") ≡ ok (record { ip = []; port = 65535 })
unfolding try_parse_endpoint split atoi parse_ip to4
parse_wrapped = refl

try_parse_endpoint_bounds_example : ((◌≡◌ {A = List ℕ} [] []) ⊎ IsIpv4 []) × (65535 < 65536)
try_parse_endpoint_bounds_example =
    try_parse_endpoint_bounds (bytes "example:-1") (record { ip = []; port = 65535 }) parse_wrapped

no_address : to4 (parse_ip (bytes "example")) ≡ []
unfolding to4 parse_ip
no_address = refl

try_parse_endpoint_unchecked_example :
    (e : Endpoint) × (try_parse_endpoint (bytes "example" ++ (bytes ":" ++ itoa 65616)) ≡ ok e)
    × (ip_string e.ip ≡ bytes "<nil>")
    × (e.port ≡ 65616 % 65536)
try_parse_endpoint_unchecked_example =
    try_parse_endpoint_unchecked (bytes "example") 65616 (omega arith) no_address (omega arith)
