-- ===== src/Go/Decimal/Laws.antt =====
-- Decimal numbers as they are printed and read.
use dnslb.Base.{
  ℕ, zero, suc, ◌+◌, ◌-◌, ◌*◌, ◌/◌, ◌%◌, ◌^◌, ◌<◌, ◌≤◌, some, [], ◌∷◌, Str, ltb, ◌≡◌, refl, All,
  Bool-cases, inl, inr, arith, ◌∙◌,
}
use dnslb.Go.Decimal.{pos, digits_before, itoa, read_digits, read_ℕ, atoi}

-- A byte that is a digit.
abbrev pub IsDigit : ℕ → Type 0
IsDigit c = (48 ≤ c) × (c ≤ 57)

digits_before-IsDigit :
    (f n : ℕ) (rest : Str) → All IsDigit rest → All IsDigit (digits_before f n rest)
unfolding digits_before
digits_before-IsDigit zero n rest h = h
digits_before-IsDigit (suc f) n rest h = elim (Bool-cases (ltb n 10)) [
  | inl small ↦ rw small ((omega arith, ground arith), h)
  | inr large ↦
      rw large
        (digits_before-IsDigit f (n / 10) ((n % 10 + 48) ∷ rest) ((omega arith, omega arith), h))
]

pub itoa-IsDigit : (n : ℕ) → All IsDigit (itoa n)
unfolding itoa
itoa-IsDigit n = digits_before-IsDigit (suc n) n [] tt

-- Printing puts the digits before the rest, so reading goes on from the number.
read_digits-digits_before :
    (f n : ℕ) (rest : Str) → n < f → read_digits 0 (digits_before f n rest) ≡ read_digits n rest
unfolding digits_before read_digits
read_digits-digits_before zero n rest h = elim h [ ]
read_digits-digits_before (suc f) n rest h = elim (Bool-cases (ltb n 10)) [
  | inl small ↦ rw small (ground arith)
  | inr large ↦
      rw (large, read_digits-digits_before f (n / 10) ((n % 10 + 48) ∷ rest) (ground arith))
        (ground (arith, (let e : n / 10 * 10 + (n % 10 + 48 - 48) ≡ n = omega arith in e)))
]

-- Something is printed before the rest.
digits_before-head :
    (f n : ℕ) (rest : Str) → n < f → (c : ℕ) × (s : Str) × (digits_before f n rest ≡ c ∷ s)
unfolding digits_before
digits_before-head zero n rest h = elim h [ ]
digits_before-head (suc f) n rest h = elim (Bool-cases (ltb n 10)) [
  | inl small ↦ rw small (n + 48, rest, refl)
  | inr large ↦ rw large (digits_before-head f (n / 10) ((n % 10 + 48) ∷ rest) (ground arith))
]

pub itoa-head : (n : ℕ) → (c : ℕ) × (s : Str) × (itoa n ≡ c ∷ s)
unfolding itoa
itoa-head n = digits_before-head (suc n) n [] (omega arith)

pub read_digits-itoa : (n : ℕ) → read_digits 0 (itoa n) ≡ some n
unfolding itoa read_digits
read_digits-itoa n = read_digits-digits_before (suc n) n [] (omega arith)

read_ℕ-cons : (c : ℕ) (s t : Str) → t ≡ c ∷ s → read_ℕ t ≡ read_digits 0 t
unfolding read_ℕ
read_ℕ-cons c s [] e = cc
read_ℕ-cons c s (x ∷ t) e = refl

pub read_ℕ-itoa : (n : ℕ) → read_ℕ (itoa n) ≡ some n
read_ℕ-itoa n = let (c, s, e) = itoa-head n in read_ℕ-cons c s (itoa n) e ∙ read_digits-itoa n

-- A printed number is read back, unless it is too large.
pub atoi-itoa : (n : ℕ) → n < 2 ^ 63 → atoi (itoa n) ≡ some (pos n)
unfolding atoi
atoi-itoa n h =
    let (c, s, e) = itoa-head n in
    let d : All IsDigit (c ∷ s) = rw e at (itoa-IsDigit n) in
    let r : read_ℕ (c ∷ s) ≡ some n = rw e at (read_ℕ-itoa n) in rw e (atoi_unsigned c s n d.0 r h)
  where
    atoi_unsigned :
        (c : ℕ) (s : Str) (n : ℕ)
        → IsDigit c
        → read_ℕ (c ∷ s) ≡ some n
        → n < 2 ^ 63
        → atoi (c ∷ s) ≡ some (pos n)
    atoi_unsigned c s n d r h = ground arith
