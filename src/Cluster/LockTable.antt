-- ===== src/Cluster/LockTable.antt =====
-- src/cluster/lock.rs: the lock table of one drive node. Times are nanoseconds of the node's clock.
-- The token is a `u64`; a table would need 2^64 grants for its `+ 1` to overflow.
use kerplace.Base.{
  Text, ℕ, ◌+◌, ◌*◌, Bool, true, false, not, ◌&&◌, ◌||◌, if◌then◌else◌, Option, none, some, text_eq,
  is_empty, ltb, leb, length, filter, Dict, lookup, insert, [], unwrap_or,
}

pub record Slot : Type 0 where
  pub owner : Text
  pub expiry : ℕ
  pub token : ℕ

abbrev pub LockTable : Type 0
LockTable = Dict Slot

-- thirty seconds
abbrev pub lock_ttl : ℕ
lock_ttl = 30000000000

-- The slots that `acquire` keeps when the table is large.
unfoldable pub gc : ℕ → LockTable → LockTable
unfolding filter
gc now m =
    if ltb 4096 (length m)
    then filter (λ e. not (is_empty e.1.owner) || ltb now (e.1.expiry + lock_ttl * 10)) m
    else m

abbrev new_slot : ℕ → Slot
new_slot now = record { owner = []; expiry = now; token = 0 }

-- the slot that `acquire` looks at
unfoldable pub slot_of : Text → ℕ → LockTable → Slot
slot_of resource now m = unwrap_or (lookup resource m) (new_slot now)

unfoldable pub held_by_other : Slot → Text → ℕ → Bool
unfolding text_eq
held_by_other s owner now =
    not (is_empty s.owner) && ltb now s.expiry && not (text_eq s.owner owner)

unfoldable pub granted : Slot → Text → ℕ → ℕ → Slot
unfolding text_eq
granted s owner now ttl = record {
  owner = owner;
  expiry = now + ttl;
  token = if text_eq s.owner owner && ltb now s.expiry then s.token else s.token + 1;
}

-- `LockTable::acquire`: the table after it, and the token where the lock is granted
unfoldable pub acquire : Text → Text → ℕ → ℕ → LockTable → LockTable × Option ℕ
acquire resource owner now ttl m =
    let kept = gc now m in
    let slot = slot_of resource now kept in
    let next = granted slot owner now ttl in
    if held_by_other slot owner now
    then (insert resource slot kept, none)
    else (insert resource next kept, some next.token)

abbrev free : Slot → Slot
free s = record s { owner = [] }

-- `LockTable::release`
unfoldable pub release : Text → Text → LockTable → LockTable × Bool
unfolding text_eq
release resource owner m = elim (lookup resource m) [
  | none ↦ (m, false)
  | some s ↦ if text_eq s.owner owner then (insert resource (free s) m, true) else (m, false)
]

-- `LockTable::fence_ok`
unfoldable pub fence_ok : Text → ℕ → LockTable → Bool
fence_ok resource token m = elim (lookup resource m) [ none ↦ true | some s ↦ leb s.token token ]
