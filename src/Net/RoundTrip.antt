-- ===== src/Net/RoundTrip.antt =====
-- The parsers of net.go at the texts that its String methods print.
use dnslb.Base.{
  ℕ, ◌<◌, List, [], ◌∷◌, ◌++◌, map, Str, bytes, ok, ◌≡◌, refl, All, arith, ap, ◌∙◌, append_assoc,
  ◌⊎◌, inl, inr, ◌%◌, append-nil,
}
use dnslb.Go.Strings.{join}
use dnslb.Go.Strings.Laws.{Free, Free-append, split-append, split_whole, contains-Free}
use dnslb.Go.Strings.Pieces.{split-join, contains-Free_second}
use dnslb.Go.Decimal.{itoa}
use dnslb.Go.Decimal.Laws.{itoa-IsDigit, atoi-itoa}
use dnslb.Go.Ip.{ip_string}
use dnslb.Go.Ip.Laws.{IsIpv4, ip_string-IsDotted, parse_ip-ip_string}
use dnslb.Net.{
  Endpoint, EndpointProtocol, endpoint_string, endpoint_protocol_string, try_parse_endpoint,
  try_parse_endpoint_protocol, parse_items, try_parse_endpoint_protocols,
}

-- An IPv4 address and a port of 16 bits.
pub record IsEndpoint (e : Endpoint) : Type 0 where
  pub four : IsIpv4 e.ip
  pub in_range : e.port < 65536

All-map {ℓ} :
    {A : Type ℓ} {P Q : A → Type 0} → ((a : A) → P a → Q a) → (l : List A) → All P l → All Q l
All-map f [] h = tt
All-map f (x ∷ l) h = (f x h.0, All-map f l h.1)

ip_string-Free : (e : Endpoint) → IsEndpoint e → Free b':' (ip_string e.ip)
ip_string-Free e h = All-map (λ c d. omega arith) (ip_string e.ip) (ip_string-IsDotted e.ip h.four)

itoa-Free : (n : ℕ) → Free b':' (itoa n)
itoa-Free n = All-map (λ c d. omega arith) (itoa n) (itoa-IsDigit n)

pub endpoint_string-Free :
    (c : ℕ) (e : Endpoint)
    → (c < 46) ⊎ (c ≡ 47) ⊎ (58 < c)
    → IsEndpoint e
    → Free c (endpoint_string e)
unfolding endpoint_string
endpoint_string-Free c e k h =
    Free-append c (ip_string e.ip) (b':' ∷ itoa e.port)
      (All-map (λ x d. omega arith) (ip_string e.ip) (ip_string-IsDotted e.ip h.four))
      (omega arith, All-map (λ x d. omega arith) (itoa e.port) (itoa-IsDigit e.port))

pub try_parse_endpoint-endpoint_string :
    (e : Endpoint) → IsEndpoint e → try_parse_endpoint (endpoint_string e) ≡ ok e
unfolding try_parse_endpoint endpoint_string
try_parse_endpoint-endpoint_string e h = rw (
  split-append b':' [] (ip_string e.ip) (itoa e.port) (ip_string-Free e h),
  split_whole (itoa e.port) (bytes ":") (contains-Free b':' [] (itoa e.port) (itoa-Free e.port)),
  atoi-itoa e.port (omega (arith, h.in_range)),
  parse_ip-ip_string e.ip h.four,
  (let r : e.port % 65536 ≡ e.port = omega (arith, h.in_range) in r),
)

-- An endpoint with an IPv4 address is parsed back from its text, whatever its protocol, as long as
-- the protocol has no colon.
pub try_parse_endpoint_protocol-string :
    (e : EndpointProtocol)
    → IsEndpoint e.endpoint
    → Free b':' e.protocol
    → try_parse_endpoint_protocol (endpoint_protocol_string e) ≡ ok e
unfolding try_parse_endpoint_protocol endpoint_protocol_string
try_parse_endpoint_protocol-string e h p =
    let es : Str = endpoint_string e.endpoint in
    rw (
      split-append b':' (bytes "//") e.protocol es p,
      split_whole es (bytes "://") (
          contains-Free_second b':' b'/' (bytes "/") es
            (endpoint_string-Free b'/' e.endpoint (inr (inl refl)) h)),
      try_parse_endpoint-endpoint_string e.endpoint h,
    )

-- What the text of an endpoint in a list must be, so that it can be read back.
pub record IsItem (e : EndpointProtocol) : Type 0 where
  pub address : IsEndpoint e.endpoint
  pub no_colon : Free b':' e.protocol
  pub no_comma : Free b',' e.protocol

item-Free : (e : EndpointProtocol) → IsItem e → Free b',' (endpoint_protocol_string e)
unfolding endpoint_protocol_string
item-Free e h = Free-append b',' e.protocol (bytes "://" ++ endpoint_string e.endpoint) h.no_comma (
  omega arith,
  (omega arith, (omega arith, endpoint_string-Free b',' e.endpoint (inl (omega arith)) h.address)),
)

pub items-Free :
    (es : List EndpointProtocol) → All IsItem es → All (Free b',') (map endpoint_protocol_string es)
items-Free [] h = tt
items-Free (e ∷ es) h = (item-Free e h.0, items-Free es h.1)

parse_items-map :
    (eps es : List EndpointProtocol)
    → All IsItem es
    → parse_items eps (map endpoint_protocol_string es) ≡ ok (eps ++ es)
unfolding parse_items
parse_items-map eps [] h = rw (append-nil eps)
parse_items-map eps (e ∷ es) h =
    rw (try_parse_endpoint_protocol-string e h.0.address h.0.no_colon)
      (parse_items-map (eps ++ e ∷ []) es h.1 ∙ ap ok (append_assoc eps (e ∷ []) es))

-- A list of endpoints that is not empty is parsed back from its texts joined by commas, if each has
-- an IPv4 address, a port of 16 bits, and a protocol without a colon or a comma.
pub try_parse_endpoint_protocols-join :
    (e : EndpointProtocol) (es : List EndpointProtocol)
    → All IsItem (e ∷ es)
    → try_parse_endpoint_protocols (join (map endpoint_protocol_string (e ∷ es)) (bytes ","))
      ≡ ok (e ∷ es)
unfolding try_parse_endpoint_protocols
try_parse_endpoint_protocols-join e es h =
    rw
      (split-join b',' (endpoint_protocol_string e) (map endpoint_protocol_string es)
        (items-Free (e ∷ es) h))
      (parse_items-map [] (e ∷ es) h)
