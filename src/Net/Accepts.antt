-- ===== src/Net/Accepts.antt =====
-- What the parser of net.go accepts, and what the endpoint then is.
use dnslb.Base.{
  ℕ, ◌<◌, ◌^◌, ◌%◌, List, [], ◌∷◌, ◌++◌, Str, bytes, ok, Option, none, some, ◌≡◌, ◌⊎◌, ◌↔◌, refl,
  All, arith, sym,
}
use dnslb.Go.Strings.{split, join}
use dnslb.Go.Strings.Laws.{Free, split-append, split_whole, contains-Free, split-Free}
use dnslb.Go.Strings.Pieces.{join-split}
use dnslb.Go.Decimal.{ℤ, pos, negsuc, itoa, atoi}
use dnslb.Go.Decimal.Laws.{IsDigit, itoa-IsDigit, atoi-itoa}
use dnslb.Go.Ip.{to4, parse_ip, ip_string}
use dnslb.Go.Ip.Laws.{IsIpv4, parse_ip_cases}
use dnslb.Net.{Endpoint, new_endpoint, uint16, with_port, endpoint_of_pieces, try_parse_endpoint}

-- The texts that the parser accepts: a host and a number with one colon between them. The address
-- is what ParseIP and To4 make of the host, nil included.
abbrev pub Accepted : Str → Endpoint → Type 0
Accepted str e =
    (host : Str) × (port : Str) × (i : ℤ) × (str ≡ host ++ (bytes ":" ++ port))
    × Free b':' host
    × Free b':' port
    × (atoi port ≡ some i)
    × (e ≡ new_endpoint (to4 (parse_ip host)) (uint16 i))

with_port_ok :
    (host port : Str) (o : Option ℤ) (e : Endpoint)
    → with_port host port o ≡ ok e
    → (i : ℤ) × (o ≡ some i) × (e ≡ new_endpoint (to4 (parse_ip host)) (uint16 i))
with_port_ok host port none e h = cc
with_port_ok host port (some i) e h = (i, refl, cc)

Accepted-pieces :
    (str : Str) (l : List Str) (e : Endpoint)
    → join l (bytes ":") ≡ str
    → All (Free b':') l
    → endpoint_of_pieces str l ≡ ok e
    → Accepted str e
unfolding endpoint_of_pieces join
Accepted-pieces str (host ∷ port ∷ []) e j f h =
    let (i, number, result) = with_port_ok host port (atoi port) e h in
    (host, port, i, sym j, f.0, f.1.0, number, result)
Accepted-pieces str [] e j f h = cc
Accepted-pieces str (p ∷ []) e j f h = cc
Accepted-pieces str (p ∷ q ∷ r ∷ l) e j f h = cc

try_parse_endpoint_sound :
    (str : Str) (e : Endpoint) → try_parse_endpoint str ≡ ok e → Accepted str e
unfolding try_parse_endpoint
try_parse_endpoint_sound str e h =
    Accepted-pieces str (split str (bytes ":")) e (join-split b':' str) (split-Free b':' str) h

try_parse_endpoint_complete :
    (str : Str) (e : Endpoint) → Accepted str e → try_parse_endpoint str ≡ ok e
unfolding try_parse_endpoint endpoint_of_pieces
try_parse_endpoint_complete str e (host, port, i, text, fh, fp, number, result) = rw (
  text,
  split-append b':' [] host port fh,
  split_whole port (bytes ":") (contains-Free b':' [] port fp),
  number,
  result,
)

-- TryParseEndpoint succeeds exactly on a host and a number with one colon between them; the
-- endpoint has what ParseIP and To4 make of the host, and the number cut to 16 bits.
pub try_parse_endpoint_iff :
    (str : Str) (e : Endpoint) → (try_parse_endpoint str ≡ ok e) ↔ Accepted str e
try_parse_endpoint_iff str e = (try_parse_endpoint_sound str e, try_parse_endpoint_complete str e)

uint16_bound : (i : ℤ) → uint16 i < 65536
uint16_bound (pos n) = omega arith
uint16_bound (negsuc n) = omega arith

-- Whatever the text, a parsed endpoint has the address nil or an IPv4 address, and a port of 16 bits.
pub try_parse_endpoint_bounds :
    (str : Str) (e : Endpoint)
    → try_parse_endpoint str ≡ ok e
    → ((e.ip ≡ []) ⊎ IsIpv4 e.ip) × (e.port < 65536)
try_parse_endpoint_bounds str e h =
    let (host, port, i, text, fh, fp, number, result) = try_parse_endpoint_sound str e h in
    rw result (parse_ip_cases host, uint16_bound i)

itoa-Free : (n : ℕ) → Free b':' (itoa n)
itoa-Free n = digits-Free (itoa n) (itoa-IsDigit n)
  where
    digits-Free : (s : Str) → All IsDigit s → Free b':' s
    digits-Free [] h = tt
    digits-Free (c ∷ s) h = (omega arith, digits-Free s h.1)

-- A host without a colon that is no IPv4 address is not refused: the endpoint has the address nil,
-- which is printed as `<nil>`. A port below 2 ^ 63 is not refused either: it is cut to 16 bits.
pub try_parse_endpoint_unchecked :
    (host : Str) (n : ℕ)
    → Free b':' host
    → to4 (parse_ip host) ≡ []
    → n < 2 ^ 63
    → (e : Endpoint) × (try_parse_endpoint (host ++ (bytes ":" ++ itoa n)) ≡ ok e)
      × (ip_string e.ip ≡ bytes "<nil>")
      × (e.port ≡ n % 65536)
unfolding ip_string
try_parse_endpoint_unchecked host n f bad small = (
  new_endpoint [] (n % 65536),
  try_parse_endpoint_complete _ _
      (host, itoa n, pos n, refl, f, itoa-Free n, atoi-itoa n small, rw bad),
  refl,
  refl,
)
