-- ===== src/Raft/Address.antt =====
-- net.SplitHostPort, as NewRaftController of grpcRaft.go calls it.
use dnslb.Base.{
  ℕ, suc, Bool, Option, none, some, [], ◌∷◌, Str, Result, ok, err, take, drop, length, any, ◌==◌,
  if◌then◌else◌,
}

pub data AddressError : Type 0 where
  missing_port too_many_colons missing_bracket unexpected_bracket : AddressError

abbrev pub has_byte : ℕ → Str → Bool
has_byte c s = any (λ x. x == c) s

-- The index of the first such byte.
unfoldable pub index_byte : ℕ → Str → Option ℕ
index_byte c [] = none
index_byte c (x ∷ s) =
    let rest = index_byte c s in
    if x == c then some 0 else elim rest [ none ↦ none | some i ↦ some (suc i) ]

-- The index of the last such byte.
unfoldable pub last_index : ℕ → Str → Option ℕ
last_index c [] = none
last_index c (x ∷ s) = elim (last_index c s) [
  | some i ↦ some (suc i)
  | none ↦ if x == c then some 0 else none
]

-- The brackets that are left, in the address from the indices j and k on.
abbrev brackets : Str → Str → Str → Str → Result AddressError (Str × Str)
brackets host port from_j from_k =
    if has_byte b'[' from_j
    then err unexpected_bracket
    else if has_byte b']' from_k
    then err unexpected_bracket
    else ok (host, port)

-- A host in brackets, up to the first `]`, when the last colon is at i.
abbrev bracketed : Str → ℕ → Option ℕ → Result AddressError (Str × Str)
bracketed s i none = err missing_bracket
bracketed s i (some end) =
    if suc end == length s
    then err missing_port
    else if suc end == i
    then brackets (drop 1 (take end s)) (drop (suc i) s) (drop 1 s) (drop (suc end) s)
    else if has_byte b':' (take 1 (drop (suc end) s))
    then err too_many_colons
    else err missing_port

abbrev plain_host : Str → ℕ → Result AddressError (Str × Str)
plain_host s i =
    if has_byte b':' (take i s)
    then err too_many_colons
    else brackets (take i s) (drop (suc i) s) s s

-- SplitHostPort: the host and the port.
unfoldable pub split_host_port : Str → Result AddressError (Str × Str)
unfolding index_byte last_index
split_host_port s = elim (last_index b':' s) [
  | none ↦ err missing_port
  | some i ↦ if has_byte b'[' (take 1 s) then bracketed s i (index_byte b']' s) else plain_host s i
]
