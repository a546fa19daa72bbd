-- ===== src/Go/Json.antt =====
-- Package encoding/json: Marshal of a slice of strings, which escapes what is not safe in HTML and
-- replaces what is no UTF-8. It does not fail.
use dnslb.Base.{
  ℕ, zero, suc, ◌+◌, ◌/◌, ◌%◌, Bool, ◌||◌, ◌&&◌, not, List, [], ◌∷◌, ◌++◌, map, Str, bytes, ltb,
  leb, ◌==◌, if◌then◌else◌,
}
use dnslb.Go.Strings.{join, has_prefix}

-- The bytes of ASCII that stand for themselves.
abbrev pub html_safe : ℕ → Bool
html_safe b =
    leb 32 b && leb b 127 && not (b == b'"' || b == b'\\' || b == b'<' || b == b'>' || b == b'&')

hex_digit : ℕ → ℕ
hex_digit d = if ltb d 10 then d + 48 else d + 87

-- The escape of a byte of ASCII.
escape : ℕ → Str
unfolding hex_digit
escape b =
    if b == b'"' || b == b'\\'
    then b'\\' ∷ b ∷ []
    else if b == 10
    then bytes "\\n"
    else if b == 13
    then bytes "\\r"
    else if b == 9
    then bytes "\\t"
    else bytes "\\u00" ++ hex_digit (b / 16) ∷ hex_digit (b % 16) ∷ []

abbrev between : ℕ → ℕ → ℕ → Bool
between lo hi b = leb lo b && leb b hi

-- The bytes of a character that follow its first byte `b`, if there are as many in range; 0 if not.
rune_tail : ℕ → Str → ℕ
rune_tail b (x ∷ y ∷ z ∷ s) =
    if between 0xC2 0xDF b && between 0x80 0xBF x
    then 1
    else if (between 0xE1 0xEC b
          || between 0xEE 0xEF b
          || (b == 0xE0 && leb 0xA0 x)
          || (b == 0xED && leb x 0x9F))
        && between 0x80 0xBF x
        && between 0x80 0xBF y
    then 2
    else if (between 0xF1 0xF3 b || (b == 0xF0 && leb 0x90 x) || (b == 0xF4 && leb x 0x8F))
        && between 0x80 0xBF x
        && between 0x80 0xBF y
        && between 0x80 0xBF z
    then 3
    else 0
rune_tail b (x ∷ y ∷ []) =
    if between 0xC2 0xDF b && between 0x80 0xBF x
    then 1
    else if (between 0xE1 0xEC b
          || between 0xEE 0xEF b
          || (b == 0xE0 && leb 0xA0 x)
          || (b == 0xED && leb x 0x9F))
        && between 0x80 0xBF x
        && between 0x80 0xBF y
    then 2
    else 0
rune_tail b (x ∷ []) = if between 0xC2 0xDF b && between 0x80 0xBF x then 1 else 0
rune_tail b [] = 0

-- What is written at a byte, how many of the next bytes are copied, and how many are skipped.
emit : ℕ → Str → Str × ℕ × ℕ
unfolding escape rune_tail
emit b s =
    if ltb b 128
    then (if html_safe b then (b ∷ [], 0, 0) else (escape b, 0, 0))
    else if rune_tail b s == 0
    then (bytes "\\ufffd", 0, 0)
    else if has_prefix (b ∷ s) (0xE2 ∷ 0x80 ∷ 0xA8 ∷ [])
    then (bytes "\\u2028", 0, 2)
    else if has_prefix (b ∷ s) (0xE2 ∷ 0x80 ∷ 0xA9 ∷ [])
    then (bytes "\\u2029", 0, 2)
    else (b ∷ [], rune_tail b s, 0)

unfoldable pub encode_from : ℕ → ℕ → Str → Str
unfolding emit
encode_from copy skip [] = []
encode_from (suc copy) skip (b ∷ s) = b ∷ encode_from copy skip s
encode_from zero (suc skip) (b ∷ s) = encode_from zero skip s
encode_from zero zero (b ∷ s) = let (out, copy, skip) = emit b s in out ++ encode_from copy skip s

-- A string, in quotes.
unfoldable pub encode_string : Str → Str
unfolding encode_from
encode_string s = b'"' ∷ (encode_from 0 0 s ++ b'"' ∷ [])

-- json.Marshal of a []string that is not nil
unfoldable pub marshal_strings : List Str → Str
unfolding encode_string
marshal_strings l = b'[' ∷ (join (map encode_string l) (bytes ",") ++ b']' ∷ [])
