-- ===== src/Go/Decimal.antt =====
-- Decimal numbers: the verb %d of package fmt, and Atoi of package strconv for a 64-bit int.
pub mod Laws
use dnslb.Base.{
  ℕ, zero, suc, ◌+◌, ◌-◌, ◌*◌, ◌/◌, ◌%◌, ◌^◌, Bool, true, false, ◌&&◌, Option, none, some, List, [],
  ◌∷◌, ◌++◌, Str, leb, ltb, ◌==◌, if◌then◌else◌,
}

-- `negsuc n` is -(n + 1).
pub data ℤ : Type 0 where
  pos : ℕ → ℤ
  negsuc : ℕ → ℤ

-- -n
abbrev pub neg : ℕ → ℤ
neg zero = pos 0
neg (suc n) = negsuc n

-- The digits of `n` before `rest`; the fuel is above the number of digits.
unfoldable pub digits_before : ℕ → ℕ → Str → Str
digits_before zero n rest = rest
digits_before (suc f) n rest =
    let more = digits_before f (n / 10) ((n % 10 + 48) ∷ rest) in
    if ltb n 10 then (n + 48) ∷ rest else more

-- %d of a number that is not negative
unfoldable pub itoa : ℕ → Str
unfolding digits_before
itoa n = digits_before (suc n) n []

-- %d of an int
unfoldable pub itoa_int : ℤ → Str
unfolding itoa
itoa_int (pos n) = itoa n
itoa_int (negsuc n) = b'-' ∷ itoa (suc n)

abbrev pub is_digit : ℕ → Bool
is_digit c = leb 48 c && leb c 57

-- The number that the digits stand for, after `n`; `none` if a byte is no digit.
unfoldable pub read_digits : ℕ → Str → Option ℕ
read_digits n [] = some n
read_digits n (c ∷ s) =
    let rest = read_digits (n * 10 + (c - 48)) s in if is_digit c then rest else none

-- At least one digit, and nothing else.
unfoldable pub read_ℕ : Str → Option ℕ
unfolding read_digits
read_ℕ [] = none
read_ℕ (c ∷ s) = read_digits 0 (c ∷ s)

-- The range of an int64.
abbrev pub in_int64 : ℤ → Bool
in_int64 (pos n) = ltb n (2 ^ 63)
in_int64 (negsuc n) = ltb n (2 ^ 63)

abbrev pub checked : Option ℤ → Option ℤ
checked none = none
checked (some i) = if in_int64 i then some i else none

abbrev pub map_opt {ℓ κ} : {A : Type ℓ} {B : Type κ} → (A → B) → Option A → Option B
map_opt f none = none
map_opt f (some a) = some (f a)

-- A sign, or none, before the digits.
unfoldable pub read_signed : Str → Option ℤ
unfolding read_ℕ
read_signed [] = none
read_signed (c ∷ s) =
    if c == b'-'
    then map_opt neg (read_ℕ s)
    else if c == b'+'
    then map_opt pos (read_ℕ s)
    else map_opt pos (read_ℕ (c ∷ s))

-- strconv.Atoi; `none` is its error.
unfoldable pub atoi : Str → Option ℤ
unfolding read_signed
atoi s = checked (read_signed s)
