-- ===== src/Go/Ip.antt =====
-- Package net: ParseIP of an IPv4 text, To4 and String, as in Go 1.12 to 1.16.
-- A net.IP is its bytes; nil is the empty list.
pub mod Laws
use dnslb.Base.{
  ℕ, zero, suc, ◌+◌, ◌-◌, ◌*◌, ◌/◌, ◌%◌, Bool, true, false, ◌&&◌, ◌||◌, Option, none, some, List,
  [], ◌∷◌, ◌++◌, map, Str, bytes, str_eq, length, take, drop, leb, ltb, ◌==◌, if◌then◌else◌,
}
use dnslb.Go.Strings.{join}
use dnslb.Go.Decimal.{itoa, is_digit}

infixl 5 ◌>>=◌
abbrev ◌>>=◌ {ℓ κ} : {A : Type ℓ} {B : Type κ} → Option A → (A → Option B) → Option B
none >>= f = none
some a >>= f = f a

-- The constant `big` of package net.
abbrev big : ℕ
big = 0xFFFFFF

-- The loop of dtoi: the number that the leading digits stand for, and what follows them.
unfoldable pub dtoi_loop : ℕ → Str → Option (ℕ × Str)
dtoi_loop n [] = some (n, [])
dtoi_loop n (c ∷ s) =
    let n' = n * 10 + (c - 48) in
    let rest = dtoi_loop n' s in
    if is_digit c then (if leb big n' then none else rest) else some (n, c ∷ s)

unfoldable pub dtoi : Str → Option (ℕ × Str)
unfolding dtoi_loop
dtoi [] = none
dtoi (c ∷ s) = if is_digit c then dtoi_loop 0 (c ∷ s) else none

abbrev in_byte : ℕ × Str → Option (ℕ × Str)
in_byte (n, s) = if ltb 255 n then none else some (n, s)

octet : Str → Option (ℕ × Str)
unfolding dtoi
octet s = dtoi s >>= in_byte

dot : Str → Option Str
dot [] = none
dot (c ∷ s) = if c == b'.' then some s else none

-- A dot and a number.
next_octet : Str → Option (ℕ × Str)
unfolding dot octet
next_octet s = dot s >>= octet

abbrev mapped : List ℕ
mapped = 0 ∷ 0 ∷ 0 ∷ 0 ∷ 0 ∷ 0 ∷ 0 ∷ 0 ∷ 0 ∷ 0 ∷ 255 ∷ 255 ∷ []

-- IPv4(a, b, c, d), in 16 bytes; the text must have ended.
abbrev ipv4 : ℕ → ℕ → ℕ → ℕ → Str → List ℕ
ipv4 a b c d [] = mapped ++ a ∷ b ∷ c ∷ d ∷ []
ipv4 a b c d (x ∷ s) = []

abbrev nil_if_none : Option (List ℕ) → List ℕ
nil_if_none none = []
nil_if_none (some p) = p

-- parseIPv4
unfoldable pub parse_ipv4 : Str → List ℕ
unfolding octet next_octet
parse_ipv4 s = nil_if_none (
    octet s >>= λ (a, s₁). next_octet s₁ >>= λ (b, s₂).
    next_octet s₂ >>= λ (c, s₃). next_octet s₃ >>= λ (d, s₄). some (ipv4 a b c d s₄))

-- The scan of ParseIP for the first dot or colon. A text with the colon first is an IPv6 address;
-- the program passes no text with a colon.
first_mark : Str → Option ℕ
first_mark [] = none
first_mark (c ∷ s) = let rest = first_mark s in if c == b'.' || c == b':' then some c else rest

abbrev parse_by : Option ℕ → Str → List ℕ
parse_by none s = []
parse_by (some c) s = if c == b'.' then parse_ipv4 s else []

-- net.ParseIP of a text without a colon
unfoldable pub parse_ip : Str → List ℕ
unfolding first_mark parse_ipv4
parse_ip s = parse_by (first_mark s) s

-- ip.To4()
unfoldable pub to4 : List ℕ → List ℕ
to4 p =
    if length p == 4
    then p
    else if length p == 16 && str_eq (take 12 p) mapped
    then drop 12 p
    else []

hex_digit : ℕ → ℕ
hex_digit d = if ltb d 10 then d + 48 else d + 87

hex_byte : ℕ → Str
unfolding hex_digit
hex_byte b = hex_digit (b / 16) ∷ hex_digit (b % 16) ∷ []

-- appendHex: no leading zeros
drop_zeros : Str → Str
drop_zeros [] = []
drop_zeros (c ∷ []) = c ∷ []
drop_zeros (c ∷ d ∷ s) = let rest = drop_zeros (d ∷ s) in if c == 48 then rest else c ∷ d ∷ s

-- The 16-bit groups of an address.
groups : List ℕ → List Str
unfolding hex_byte drop_zeros
groups [] = []
groups (h ∷ []) = []
groups (h ∷ l ∷ p) = drop_zeros (hex_byte h ++ hex_byte l) ∷ groups p

zero_run : List Str → ℕ
zero_run [] = 0
zero_run (g ∷ gs) = let n = suc (zero_run gs) in if str_eq g (bytes "0") then n else 0

-- The first of the longest runs of zero groups, from position `i` on, against the best so far.
longest_run : ℕ → ℕ × ℕ → List Str → ℕ × ℕ
unfolding zero_run
longest_run i best [] = best
longest_run i (at, n) (g ∷ gs) =
    longest_run (suc i) (if ltb n (zero_run (g ∷ gs)) then (i, zero_run (g ∷ gs)) else (at, n)) gs

-- "::" stands for a run of two groups at least.
shorten : List Str → ℕ × ℕ → Str
shorten gs (at, n) =
    if leb 2 n
    then join (take at gs) (bytes ":") ++ (bytes "::" ++ join (drop (at + n) gs) (bytes ":"))
    else join gs (bytes ":")

dotted : List ℕ → Str
dotted p = join (map itoa p) (bytes ".")

hex_bytes : List ℕ → Str
unfolding hex_byte
hex_bytes [] = []
hex_bytes (b ∷ p) = hex_byte b ++ hex_bytes p

ipv6_string : List ℕ → Str
unfolding groups longest_run shorten
ipv6_string p = shorten (groups p) (longest_run 0 (0, 0) (groups p))

-- ip.String(), which %v and %s call
unfoldable pub ip_string : List ℕ → Str
unfolding to4 dotted hex_bytes ipv6_string
ip_string p =
    if length p == 0
    then bytes "<nil>"
    else if length (to4 p) == 4
    then dotted (to4 p)
    else if length p == 16
    then ipv6_string p
    else b'?' ∷ hex_bytes p
