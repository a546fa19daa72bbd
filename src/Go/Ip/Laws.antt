-- ===== src/Go/Ip/Laws.antt =====
-- IPv4 addresses as they are printed and read.
use dnslb.Base.{
  ℕ, zero, suc, ◌+◌, ◌-◌, ◌*◌, ◌/◌, ◌%◌, ◌<◌, ◌≤◌, false, Option, none, some, List, [], ◌∷◌, ◌++◌,
  Str, ltb, ◌==◌, ◌≡◌, ◌≢◌, refl, ◌⊎◌, All, Bool-cases, Option-cases, inl, inr, arith, append-nil,
  ap, ◌∙◌, sym,
}
use dnslb.Go.Strings.{join}
use dnslb.Go.Decimal.{digits_before, itoa, is_digit}
use dnslb.Go.Decimal.Laws.{IsDigit, itoa-IsDigit, itoa-head}
use dnslb.Go.Ip.{
  dtoi_loop, dtoi, octet, next_octet, dot, parse_ipv4, first_mark, parse_ip, to4, ip_string, mapped,
  ipv4,
}

-- An IPv4 address in four bytes.
abbrev pub IsIpv4 : List ℕ → Type 0
IsIpv4 (a ∷ b ∷ c ∷ d ∷ []) = (a < 256) × (b < 256) × (c < 256) × (d < 256)
IsIpv4 _ = ⊥

digits_before-append : (f n : ℕ) (s t : Str) → digits_before f n (s ++ t) ≡ digits_before f n s ++ t
unfolding digits_before
digits_before-append zero n s t = refl
digits_before-append (suc f) n s t = elim (Bool-cases (ltb n 10)) [
  | inl small ↦ rw small
  | inr large ↦ rw large (digits_before-append f (n / 10) ((n % 10 + 48) ∷ s) t)
]

dtoi_loop-digits_before :
    (f n : ℕ) (rest : Str)
    → n < f
    → n < 1000
    → dtoi_loop 0 (digits_before f n rest) ≡ dtoi_loop n rest
unfolding digits_before dtoi_loop
dtoi_loop-digits_before zero n rest h k = elim h [ ]
dtoi_loop-digits_before (suc f) n rest h k = elim (Bool-cases (ltb n 10)) [
  | inl small ↦ rw small (ground arith)
  | inr large ↦
      rw
        (
          large,
          dtoi_loop-digits_before f (n / 10) ((n % 10 + 48) ∷ rest) (ground arith) (omega arith),
        )
        (ground (arith, (let e : n / 10 * 10 + (n % 10 + 48 - 48) ≡ n = omega arith in e)))
]

-- What may follow a number: the end, or a byte that is no digit.
abbrev Stops : Str → Type 0
Stops [] = Unit
Stops (c ∷ s) = is_digit c ≡ false

dtoi_loop-Stops : (n : ℕ) (rest : Str) → Stops rest → dtoi_loop n rest ≡ some (n, rest)
unfolding dtoi_loop
dtoi_loop-Stops n [] h = refl
dtoi_loop-Stops n (c ∷ s) h = rw h

dtoi-cons : (c : ℕ) (s : Str) → IsDigit c → dtoi (c ∷ s) ≡ dtoi_loop 0 (c ∷ s)
unfolding dtoi
dtoi-cons c s h = ground arith

itoa-append : (n : ℕ) (rest : Str) → itoa n ++ rest ≡ digits_before (suc n) n rest
unfolding itoa
itoa-append n rest = sym (digits_before-append (suc n) n [] rest)

dtoi-itoa : (n : ℕ) (rest : Str) → n < 256 → Stops rest → dtoi (itoa n ++ rest) ≡ some (n, rest)
dtoi-itoa n rest small h =
    let (c, s, e) = itoa-head n in
    let d : All IsDigit (c ∷ s) = rw e at (itoa-IsDigit n) in
    rw e (dtoi-cons c (s ++ rest) d.0)
    ∙ ap (λ t. dtoi_loop 0 (t ++ rest)) (sym e)
    ∙ ap (dtoi_loop 0) (itoa-append n rest)
    ∙ dtoi_loop-digits_before (suc n) n rest (omega arith) (omega arith)
    ∙ dtoi_loop-Stops n rest h

octet-itoa : (n : ℕ) (rest : Str) → n < 256 → Stops rest → octet (itoa n ++ rest) ≡ some (n, rest)
unfolding octet
octet-itoa n rest small h = rw (dtoi-itoa n rest small h) (ground arith)

next_octet-itoa :
    (n : ℕ) (rest : Str)
    → n < 256
    → Stops rest
    → next_octet (b'.' ∷ (itoa n ++ rest)) ≡ some (n, rest)
unfolding next_octet dot
next_octet-itoa n rest small h = octet-itoa n rest small h

first_mark-digits : (s t : Str) → All IsDigit s → first_mark (s ++ (b'.' ∷ t)) ≡ some b'.'
unfolding first_mark
first_mark-digits [] t h = refl
first_mark-digits (c ∷ s) t h = ground (arith, first_mark-digits s t h.1)

-- The text of an IPv4 address.
abbrev dotted_text : ℕ → ℕ → ℕ → ℕ → Str
dotted_text a b c d = itoa a ++ (b'.' ∷ (itoa b ++ (b'.' ∷ (itoa c ++ (b'.' ∷ (itoa d ++ []))))))

ip_string-dotted : (a b c d : ℕ) → ip_string (a ∷ b ∷ c ∷ d ∷ []) ≡ dotted_text a b c d
unfolding ip_string join
ip_string-dotted a b c d = rw (append-nil (itoa d))

to4-parse_ip-dotted :
    (a b c d : ℕ)
    → IsIpv4 (a ∷ b ∷ c ∷ d ∷ [])
    → to4 (parse_ip (dotted_text a b c d)) ≡ a ∷ b ∷ c ∷ d ∷ []
unfolding to4 parse_ip
to4-parse_ip-dotted a b c d h = rw (
  first_mark-digits (itoa a) _ (itoa-IsDigit a),
  octet-itoa a _ h.0 refl,
  next_octet-itoa b _ h.1 refl,
  next_octet-itoa c _ h.2 refl,
  next_octet-itoa d [] h.3 tt,
)

-- An IPv4 address is read back from its text.
pub parse_ip-ip_string : (p : List ℕ) → IsIpv4 p → to4 (parse_ip (ip_string p)) ≡ p
parse_ip-ip_string (a ∷ b ∷ c ∷ d ∷ []) h =
    ap (λ t. to4 (parse_ip t)) (ip_string-dotted a b c d) ∙ to4-parse_ip-dotted a b c d h
parse_ip-ip_string [] h = absurd h
parse_ip-ip_string (a ∷ []) h = absurd h
parse_ip-ip_string (a ∷ b ∷ []) h = absurd h
parse_ip-ip_string (a ∷ b ∷ c ∷ []) h = absurd h
parse_ip-ip_string (a ∷ b ∷ c ∷ d ∷ e ∷ p) h = absurd h

-- A byte of the text of an IPv4 address.
abbrev pub IsDotted : ℕ → Type 0
IsDotted c = (46 ≤ c) × (c ≤ 57) × (c ≢ 47)

All-IsDotted : (s t : Str) → All IsDigit s → All IsDotted t → All IsDotted (s ++ t)
All-IsDotted [] t hs ht = ht
All-IsDotted (c ∷ s) t hs ht = ((omega arith, omega arith, omega arith), All-IsDotted s t hs.1 ht)

dotted_text-IsDotted : (a b c d : ℕ) → All IsDotted (dotted_text a b c d)
dotted_text-IsDotted a b c d =
    let dots : IsDotted b'.' = (omega arith, omega arith, omega arith) in
    let last : All IsDotted (itoa d ++ []) = All-IsDotted (itoa d) [] (itoa-IsDigit d) tt in
    let third = All-IsDotted (itoa c) (b'.' ∷ (itoa d ++ [])) (itoa-IsDigit c) (dots, last) in
    let second = All-IsDotted (itoa b) _ (itoa-IsDigit b) (dots, third) in
    All-IsDotted (itoa a) _ (itoa-IsDigit a) (dots, second)

pub ip_string-IsDotted : (p : List ℕ) → IsIpv4 p → All IsDotted (ip_string p)
ip_string-IsDotted (a ∷ b ∷ c ∷ d ∷ []) h =
    rw (ip_string-dotted a b c d) (dotted_text-IsDotted a b c d)
ip_string-IsDotted [] h = absurd h
ip_string-IsDotted (a ∷ []) h = absurd h
ip_string-IsDotted (a ∷ b ∷ []) h = absurd h
ip_string-IsDotted (a ∷ b ∷ c ∷ []) h = absurd h
ip_string-IsDotted (a ∷ b ∷ c ∷ d ∷ e ∷ p) h = absurd h

octet_bound : (s : Str) (n : ℕ) (t : Str) → octet s ≡ some (n, t) → n < 256
unfolding octet
octet_bound s n t h = ground arith

next_octet_bound : (s : Str) (n : ℕ) (t : Str) → next_octet s ≡ some (n, t) → n < 256
unfolding next_octet
next_octet_bound s n t h = elim (Option-cases (dot s)) [
  | inl e ↦ absurd (none-some (rw e at h))
  | inr (s', e) ↦ octet_bound s' n t (rw e at h)
]
  where
    none-some : ◌≡◌ {A = Option (ℕ × Str)} none (some (n, t)) → ⊥
    none-some e = cc

-- A parsed text is nil, or an IPv4 address in 16 bytes.
abbrev FourOrNil : List ℕ → Type 0
FourOrNil p =
    (p ≡ [])
    ⊎ ((a : ℕ) × (b : ℕ) × (c : ℕ) × (d : ℕ) × (p ≡ mapped ++ a ∷ b ∷ c ∷ d ∷ [])
        × (a < 256)
        × (b < 256)
        × (c < 256)
        × (d < 256))

parse_ipv4-FourOrNil : (s : Str) → FourOrNil (parse_ipv4 s)
unfolding parse_ipv4
parse_ipv4-FourOrNil s = elim (Option-cases (octet s)) [
  | inl e ↦ rw e (inl refl)
  | inr ((a, s₁), ea) ↦ rw ea (elim (Option-cases (next_octet s₁)) [
    | inl e ↦ rw e (inl refl)
    | inr ((b, s₂), eb) ↦ rw eb (elim (Option-cases (next_octet s₂)) [
      | inl e ↦ rw e (inl refl)
      | inr ((c, s₃), ec) ↦ rw ec (elim (Option-cases (next_octet s₃)) [
        | inl e ↦ rw e (inl refl)
        | inr ((d, s₄), ed) ↦ rw ed (
            at_end a b c d s₄ (octet_bound s a s₁ ea) (next_octet_bound s₁ b s₂ eb)
              (next_octet_bound s₂ c s₃ ec) (next_octet_bound s₃ d s₄ ed))
      ])
    ])
  ])
]
  where
    at_end :
        (a b c d : ℕ) (s : Str) → a < 256 → b < 256 → c < 256 → d < 256 → FourOrNil (ipv4 a b c d s)
    at_end a b c d [] ha hb hc hd = inr (a, b, c, d, refl, ha, hb, hc, hd)
    at_end a b c d (x ∷ s) ha hb hc hd = inl refl

parse_ip-FourOrNil : (s : Str) → FourOrNil (parse_ip s)
unfolding parse_ip
parse_ip-FourOrNil s = elim (Option-cases (first_mark s)) [
  | inl e ↦ rw e (inl refl)
  | inr (c, e) ↦ rw e (elim (Bool-cases (c == b'.')) [
    | inl dot_first ↦ rw dot_first (parse_ipv4-FourOrNil s)
    | inr other ↦ rw other (inl refl)
  ])
]

-- What ParseIP and To4 give of a text without a colon: nil, or an IPv4 address.
pub parse_ip_cases : (s : Str) → (to4 (parse_ip s) ≡ []) ⊎ IsIpv4 (to4 (parse_ip s))
unfolding to4
parse_ip_cases s = elim (parse_ip-FourOrNil s) [
  | inl e ↦ inl (rw e)
  | inr (a, b, c, d, e, ha, hb, hc, hd) ↦ inr (rw e (ha, hb, hc, hd))
]
