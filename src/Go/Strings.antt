-- ===== src/Go/Strings.antt =====
-- Package strings, over bytes: HasPrefix, Contains, HasSuffix, TrimSuffix, Split and Join.
-- Split is called with separators that are not empty.
pub mod Laws
pub mod Pieces
use dnslb.Base.{
  ℕ, zero, suc, ◌+◌, ◌-◌, Bool, true, false, ◌&&◌, ◌||◌, List, [], ◌∷◌, ◌++◌, Str, str_eq, length,
  take, drop, leb, ◌==◌, if◌then◌else◌,
}

-- strings.HasPrefix(s, prefix)
unfoldable pub has_prefix : Str → Str → Bool
has_prefix s [] = true
has_prefix [] (y ∷ p) = false
has_prefix (x ∷ s) (y ∷ p) = x == y && has_prefix s p

-- strings.Contains(s, substr)
unfoldable pub contains : Str → Str → Bool
unfolding has_prefix
contains [] t = has_prefix [] t
contains (x ∷ s) t = has_prefix (x ∷ s) t || contains s t

-- strings.HasSuffix(s, suffix)
unfoldable pub has_suffix : Str → Str → Bool
has_suffix s t = leb (length t) (length s) && str_eq (drop (length s - length t) s) t

-- strings.TrimSuffix(s, suffix)
unfoldable pub trim_suffix : Str → Str → Str
unfolding has_suffix
trim_suffix s t = if has_suffix s t then take (length s - length t) s else s

-- Puts a byte before the first piece.
abbrev pub cons_first : ℕ → List Str → List Str
cons_first x [] = (x ∷ []) ∷ []
cons_first x (p ∷ ps) = (x ∷ p) ∷ ps

-- The pieces of `s`, of which the first `skip` bytes still belong to the separator before it.
unfoldable pub split_from : Str → ℕ → Str → List Str
unfolding has_prefix
split_from sep skip [] = [] ∷ []
split_from sep (suc skip) (x ∷ s) = split_from sep skip s
split_from sep zero (x ∷ s) =
    let found = [] ∷ split_from sep (length sep - 1) s in
    let next = cons_first x (split_from sep zero s) in
    if has_prefix (x ∷ s) sep then found else next

-- strings.Split(s, sep)
unfoldable pub split : Str → Str → List Str
unfolding split_from
split s sep = split_from sep zero s

-- strings.Join(elems, sep)
unfoldable pub join : List Str → Str → Str
join [] sep = []
join (p ∷ []) sep = p
join (p ∷ q ∷ ps) sep = p ++ (sep ++ join (q ∷ ps) sep)
