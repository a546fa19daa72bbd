-- ===== src/Net.antt =====
-- net.go: endpoints, their texts, and the parsers of the command line's endpoint texts.
pub mod RoundTrip
pub mod Accepts
mod Examples
use dnslb.Base.{
  ℕ, ◌+◌, ◌-◌, ◌%◌, Option, none, some, List, [], ◌∷◌, ◌++◌, Str, bytes, Result, ok, err, ◌>>=◌,
  wrap_err,
}
use dnslb.Go.Strings.{split}
use dnslb.Go.Decimal.{ℤ, pos, negsuc, itoa, atoi}
use dnslb.Go.Ip.{parse_ip, to4, ip_string}

-- An IP:Port tuple; `port` is a uint16.
pub record Endpoint : Type 0 where
  pub ip : List ℕ
  pub port : ℕ

-- The struct embeds Endpoint, so its fields are fields here too.
pub record EndpointProtocol : Type 0 where
  pub endpoint : Endpoint
  pub open endpoint use *
  pub protocol : Str

abbrev pub new_endpoint : List ℕ → ℕ → Endpoint
new_endpoint ip port = record { ip = ip; port = port }

abbrev pub new_endpoint_protocol : Endpoint → Str → EndpointProtocol
new_endpoint_protocol e prot = record { endpoint = e; protocol = prot }

-- Endpoint.String
unfoldable pub endpoint_string : Endpoint → Str
endpoint_string e = ip_string e.ip ++ (bytes ":" ++ itoa e.port)

-- EndpointProtocol.String
unfoldable pub endpoint_protocol_string : EndpointProtocol → Str
unfolding endpoint_string
endpoint_protocol_string e = e.protocol ++ (bytes "://" ++ endpoint_string e.endpoint)

-- The errors of the parsers, with the texts that their messages quote.
pub data ParseError : Type 0 where
  expected_ip_port : Str → ParseError
  bad_port : Str → ParseError
  expected_schema : Str → ParseError
  bad_endpoint : Str → ParseError → ParseError
  bad_item : Str → ParseError → ParseError

-- uint16(port) of an int: the two's complement, cut to 16 bits.
abbrev pub uint16 : ℤ → ℕ
uint16 (pos n) = n % 65536
uint16 (negsuc n) = 65535 - n % 65536

abbrev with_port : Str → Str → Option ℤ → Result ParseError Endpoint
with_port host port none = err (bad_port port)
with_port host port (some i) = ok (new_endpoint (to4 (parse_ip host)) (uint16 i))

endpoint_of_pieces : Str → List Str → Result ParseError Endpoint
endpoint_of_pieces str (host ∷ port ∷ []) = with_port host port (atoi port)
endpoint_of_pieces str _ = err (expected_ip_port str)

-- TryParseEndpoint
unfoldable pub try_parse_endpoint : Str → Result ParseError Endpoint
unfolding endpoint_of_pieces
try_parse_endpoint str = endpoint_of_pieces str (split str (bytes ":"))

endpoint_protocol_of_pieces : Str → List Str → Result ParseError EndpointProtocol
endpoint_protocol_of_pieces str (prot ∷ rest ∷ []) = do
  endpoint ← wrap_err (bad_endpoint rest) (try_parse_endpoint rest)
  ok (new_endpoint_protocol endpoint prot)
endpoint_protocol_of_pieces str _ = err (expected_schema str)

-- TryParseEndpointProtocol
unfoldable pub try_parse_endpoint_protocol : Str → Result ParseError EndpointProtocol
unfolding endpoint_protocol_of_pieces
try_parse_endpoint_protocol str = endpoint_protocol_of_pieces str (split str (bytes "://"))

-- The loop over the pieces; `eps` is what has been parsed.
unfoldable pub parse_items :
    List EndpointProtocol → List Str → Result ParseError (List EndpointProtocol)
parse_items eps [] = ok eps
parse_items eps (s ∷ rest) = wrap_err (bad_item s) (try_parse_endpoint_protocol s) >>= λ ep.
    parse_items (eps ++ ep ∷ []) rest

-- TryParseEndpointProtocols
unfoldable pub try_parse_endpoint_protocols : Str → Result ParseError (List EndpointProtocol)
unfolding parse_items
try_parse_endpoint_protocols str = parse_items [] (split str (bytes ","))
