-- ===== src/Raft/Laws.antt =====
-- What grpcRaft.go does with an address, and what its Stop does.
use dnslb.Base.{
  ℕ, suc, false, none, some, [], ◌∷◌, ◌++◌, Str, ok, take, drop, length, ==_refl, take-append, ◌≡◌,
  refl, arith,
}
use dnslb.Go.Strings.Laws.{Free, Free-append}
use dnslb.Raft.Address.{has_byte, last_index, split_host_port}

has_byte-Free : (c : ℕ) (s : Str) → Free c s → has_byte c s ≡ false
has_byte-Free c [] h = refl
has_byte-Free c (x ∷ s) h = ground (arith, has_byte-Free c s h.1)

last_index-Free : (c : ℕ) (s : Str) → Free c s → last_index c s ≡ none
unfolding last_index
last_index-Free c [] h = refl
last_index-Free c (x ∷ s) h = rw (last_index-Free c s h.1) (ground arith)

last_index-append : (c : ℕ) (a b : Str) → Free c b → last_index c (a ++ c ∷ b) ≡ some (length a)
unfolding last_index
last_index-append c [] b h = rw (last_index-Free c b h, ==_refl c)
last_index-append c (x ∷ a) b h = rw (last_index-append c a b h)

-- A part of an address with no colon and no bracket.
abbrev pub IsPart : Str → Type 0
IsPart s = Free b':' s × Free b'[' s × Free b']' s

drop-suc-append : (a : Str) (c : ℕ) (b : Str) → drop (suc (length a)) (a ++ c ∷ b) ≡ b
drop-suc-append [] c b = refl
drop-suc-append (x ∷ a) c b = drop-suc-append a c b

first-Free : (c : ℕ) (s : Str) → Free c s → has_byte c (take 1 s) ≡ false
first-Free c [] h = refl
first-Free c (x ∷ s) h = ground arith

-- An address of a host and a port with a colon between them, and no other colon or bracket, is split
-- into these.
pub split_host_port-append :
    (host port : Str)
    → IsPart host
    → IsPart port
    → split_host_port (host ++ b':' ∷ port) ≡ ok (host, port)
unfolding split_host_port
split_host_port-append host port (hc, hl, hr) (pc, pl, pr) = rw (
  split_host_port,
  last_index-append b':' host port pc,
  first-Free b'[' (host ++ b':' ∷ port) (Free-append b'[' host (b':' ∷ port) hl (omega arith, pl)),
  take-append host (b':' ∷ port),
  has_byte-Free b':' host hc,
  has_byte-Free b'[' (host ++ b':' ∷ port)
      (Free-append b'[' host (b':' ∷ port) hl (omega arith, pl)),
  has_byte-Free b']' (host ++ b':' ∷ port)
      (Free-append b']' host (b':' ∷ port) hr (omega arith, pr)),
  drop-suc-append host b':' port,
)
