-- ===== src/Flags/Laws.antt =====
-- The texts of the flag values of util.go and main.go, and what is stored.
use dnslb.Base.{
  List, [], ◌∷◌, ◌++◌, map, Str, bytes, Dict, insert, ok, All, ◌≡◌, ◌↔◌, ap, sym, ◌∙◌, append_assoc,
  append-nil,
}
use dnslb.Go.Strings.{split, join}
use dnslb.Go.Strings.Laws.{Free, split-append, split_whole, contains-Free, split-Free}
use dnslb.Go.Strings.Pieces.{join-split}
use dnslb.Net.{EndpointProtocol, endpoint_protocol_string}
use dnslb.Net.RoundTrip.{IsEndpoint, try_parse_endpoint_protocol-string}
use dnslb.Flags.{set_pair, string_map_set, parse_endpoint_values, parse_loadbalancer_endpoint_list}

-- A text of a key and a value with one `=` between them, and the map with that pair.
abbrev pub IsPair : Str → Dict Str → Dict Str → Type 0
IsPair value m m' =
    (k : Str) × (v : Str) × (value ≡ k ++ (bytes "=" ++ v))
    × Free b'=' k
    × Free b'=' v
    × (m' ≡ insert k v m)

set_pair_sound :
    (value : Str) (l : List Str) (m m' : Dict Str)
    → join l (bytes "=") ≡ value
    → All (Free b'=') l
    → set_pair value m l ≡ ok m'
    → IsPair value m m'
unfolding join
set_pair_sound value (k ∷ v ∷ []) m m' j f h = (k, v, sym j, f.0, f.1.0, cc)
set_pair_sound value [] m m' j f h = cc
set_pair_sound value (k ∷ []) m m' j f h = cc
set_pair_sound value (k ∷ v ∷ w ∷ l) m m' j f h = cc

string_map_set_complete :
    (value : Str) (m m' : Dict Str) → IsPair value m m' → string_map_set value m ≡ ok m'
unfolding string_map_set
string_map_set_complete value m m' (k, v, text, fk, fv, result) = rw (
  text,
  split-append b'=' [] k v fk,
  split_whole v (bytes "=") (contains-Free b'=' [] v fv),
  result,
)

string_map_set_sound :
    (value : Str) (m m' : Dict Str) → string_map_set value m ≡ ok m' → IsPair value m m'
unfolding string_map_set
string_map_set_sound value m m' h =
    set_pair_sound value (split value (bytes "=")) m m' (join-split b'=' value)
      (split-Free b'=' value) h

-- StringMap.Set accepts exactly the texts of a key and a value with one `=` between them, and stores
-- the value under the key.
pub string_map_set_iff :
    (value : Str) (m m' : Dict Str) → (string_map_set value m ≡ ok m') ↔ IsPair value m m'
string_map_set_iff value m m' =
    (string_map_set_sound value m m', string_map_set_complete value m m')

parse_endpoint_values_lem :
    (acc es : List EndpointProtocol)
    → All (λ e. IsEndpoint e.endpoint × Free b':' e.protocol) es
    → parse_endpoint_values acc (map endpoint_protocol_string es) ≡ ok (acc ++ es)
unfolding parse_endpoint_values
parse_endpoint_values_lem acc [] h = ap ok (sym (append-nil acc))
parse_endpoint_values_lem acc (e ∷ es) h =
    rw (try_parse_endpoint_protocol-string e h.0.0 h.0.1)
      (parse_endpoint_values_lem (acc ++ e ∷ []) es h.1 ∙ ap ok (append_assoc acc (e ∷ []) es))

-- parseLoadbalancerEndpointList reads back a load balancer of the configuration: its name, and its
-- endpoints from their texts, in their order, if each has an IPv4 address, a port of 16 bits and a
-- protocol with no colon.
pub parse_loadbalancer_endpoint_list-map :
    (name : Str) (es : List EndpointProtocol)
    → All (λ e. IsEndpoint e.endpoint × Free b':' e.protocol) es
    → parse_loadbalancer_endpoint_list name (map endpoint_protocol_string es)
      ≡ ok (record { name = name; endpoints = es })
unfolding parse_loadbalancer_endpoint_list
parse_loadbalancer_endpoint_list-map name es h = rw (parse_endpoint_values_lem [] es h)
