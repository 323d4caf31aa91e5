-- ===== src/Cluster/Waiting.antt =====
-- src/cluster/lock.rs: the retries of the quorum lock, the store's lock manager and its guard. What
-- happens around an attempt is an argument: the calls' fates and clocks, which releases arrive, and
-- what other gateways do to the nodes before it. The lock inside the process is left out.
use kerplace.Base.{
  Text, ℕ, zero, suc, ◌+◌, ◌*◌, min, Bool, List, [], Option, none, some, Dict, lookup,
}
use kerplace.Cluster.Quorum.{Node, Call, attempt, called, drop_grants}

pub record Round : Type 0 where
  pub calls : List Call
  pub heard : List Bool
  pub others : List Node → List Node

-- milliseconds
abbrev pub first_backoff : ℕ
first_backoff = 20

unfoldable pub next_backoff : ℕ → ℕ
next_backoff b = min (b * 2) 500

-- The sleeps of so many lost attempts.
unfoldable pub slept : ℕ → ℕ → ℕ
unfolding next_backoff
slept zero backoff = 0
slept (suc left) backoff = backoff + slept left (next_backoff backoff)

abbrev pub attempts : ℕ
attempts = 60

unfoldable pub one_attempt : Text → Text → Round → List Node → List Node × Option (Dict ℕ)
unfolding attempt called
one_attempt resource owner r ns = attempt resource owner r.heard (called (r.others ns) r.calls)

-- The loop of `DistLock::acquire` over the attempts that are left, from one on.
unfoldable pub retry : Text → Text → (ℕ → Round) → ℕ → ℕ → List Node → List Node × Option (Dict ℕ)
unfolding one_attempt
retry resource owner rounds zero i ns = (ns, none)
retry resource owner rounds (suc left) i ns =
    let (next, tokens) = one_attempt resource owner (rounds i) ns in
    let rest = retry resource owner rounds left (i + 1) next in
    elim tokens [ some t ↦ (next, some t) | none ↦ rest ]

-- `Fenced`
pub record Fenced : Type 0 where
  pub owner : Text
  pub tokens : Dict ℕ

abbrev fenced : Text → Option (Dict ℕ) → Option Fenced
fenced owner none = none
fenced owner (some t) = some (record { owner = owner; tokens = t })

-- `DistLock::acquire`, with the random owner id
unfoldable pub dist_acquire : Text → Text → (ℕ → Round) → List Node → List Node × Option Fenced
unfolding retry
dist_acquire resource owner rounds ns =
    let (next, tokens) = retry resource owner rounds attempts 0 ns in (next, fenced owner tokens)

-- `FenceCtx`
pub record FenceCtx : Type 0 where
  pub resource : Text
  pub tokens : Dict ℕ

-- `LockGuard`: the owner of the quorum lock, if it was won.
pub record LockGuard : Type 0 where
  pub resource : Text
  pub dist : Option Text
  pub tokens : Dict ℕ

abbrev guarded : Text → Option Fenced → LockGuard
guarded resource none = record { resource = resource; dist = none; tokens = [] }
guarded resource (some f) = record { resource = resource; dist = some f.owner; tokens = f.tokens }

-- `LockSet::acquire` with a quorum lock: without a quorum the guard is given all the same, with no
-- tokens. Without nodes to lock there is no quorum lock.
unfoldable pub lock_set_acquire :
    Text → Text → (ℕ → Round) → Option (List Node) → Option (List Node) × LockGuard
unfolding dist_acquire
lock_set_acquire resource owner rounds none = (none, guarded resource none)
lock_set_acquire resource owner rounds (some ns) =
    let (next, won) = dist_acquire resource owner rounds ns in (some next, guarded resource won)

unfoldable pub fence_ctx : LockGuard → FenceCtx
fence_ctx g = record { resource = g.resource; tokens = g.tokens }

abbrev with_resource : Text → Option ℕ → Option (Text × ℕ)
with_resource resource none = none
with_resource resource (some t) = some (resource, t)

-- `fence_for`, in the scope of a fencing context or outside of any
unfoldable pub fence_for : Option FenceCtx → Text → Option (Text × ℕ)
unfolding lookup
fence_for none base = none
fence_for (some c) base = with_resource c.resource (lookup base c.tokens)

-- The drop of a guard: a release on every node, as far as it arrives.
unfoldable pub drop_guard : LockGuard → List Bool → List Node → List Node
unfolding drop_grants
drop_guard g heard ns = elim g.dist [
  | none ↦ ns
  | some owner ↦ drop_grants g.resource owner heard ns
]
