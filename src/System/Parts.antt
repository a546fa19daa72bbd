-- ===== src/System/Parts.antt =====
-- Load balancers that are parts of the configuration.
use dnslb.Base.{
  ℕ, Bool, false, Option, none, some, List, [], ◌∷◌, Str, keep, is_empty, All, ◌≡◌, refl,
  Bool-cases, inl, inr,
}
use mathlib.Core.List.{Memᴰ}
use dnslb.Net.{EndpointProtocol}
use dnslb.Loadbalancer.{Loadbalancer, LoadbalancerList, calculate_hash}
use dnslb.EtcdController.Published.{published}

-- The load balancer is one of the configuration, cut down to some of its endpoints, and has one.
abbrev pub PartOf : List Loadbalancer → Loadbalancer → Type 0
PartOf wanted lb =
    (full : Loadbalancer) × Memᴰ full wanted
    × (lb.name ≡ full.name)
    × ((e : EndpointProtocol) → Memᴰ e lb.endpoints → Memᴰ e full.endpoints)
    × (is_empty lb.endpoints ≡ false)

-- A list of such load balancers, with its own checksum.
abbrev pub IsConfigured : (Str → ℕ) → List Loadbalancer → LoadbalancerList → Type 0
IsConfigured xxhash wanted lbs =
    All (PartOf wanted) lbs.loadbalancers × (lbs.hash ≡ calculate_hash xxhash lbs.loadbalancers)

abbrev pub IfAny : (LoadbalancerList → Type 0) → Option LoadbalancerList → Type 0
IfAny P none = Unit
IfAny P (some lbs) = P lbs

keep-Mem_in :
    (p : EndpointProtocol → Bool) (es : List EndpointProtocol) (e : EndpointProtocol)
    → Memᴰ e (keep p es)
    → Memᴰ e es
keep-Mem_in p [] e m = m
keep-Mem_in p (x ∷ es) e m = elim (Bool-cases (p x)) [
  | inl up ↦ first (keep-Mem_in p es e) (rw up at m)
  | inr down ↦ Memᴰ.tail (keep-Mem_in p es e (rw down at m))
]
  where
    first : (Memᴰ e (keep p es) → Memᴰ e es) → Memᴰ e (x ∷ keep p es) → Memᴰ e (x ∷ es)
    first later (Memᴰ.head q) = Memᴰ.head q
    first later (Memᴰ.tail k) = Memᴰ.tail (later k)

All-later :
    (x : Loadbalancer) (wanted ls : List Loadbalancer)
    → All (PartOf wanted) ls
    → All (PartOf (x ∷ wanted)) ls
All-later x wanted [] h = tt
All-later x wanted (l ∷ ls) ((full, inside, name, subset, used), h) =
    ((full, Memᴰ.tail inside, name, subset, used), All-later x wanted ls h)

pub published-PartOf :
    (p : EndpointProtocol → Bool) (wanted : List Loadbalancer)
    → All (PartOf wanted) (published p wanted)
unfolding published
published-PartOf p [] = tt
published-PartOf p (lb ∷ wanted) = elim (Bool-cases (is_empty (keep p lb.endpoints))) [
  | inl empty ↦ rw empty (All-later lb wanted (published p wanted) (published-PartOf p wanted))
  | inr used ↦ rw used (
    (lb, Memᴰ.head refl, refl, keep-Mem_in p lb.endpoints, used),
    All-later lb wanted (published p wanted) (published-PartOf p wanted),
  )
]
