-- ===== src/Cluster/Fencing.antt =====
-- Tokens of one drive node's lock table: who holds a lock, and which writes are fenced out.
use kerplace.Base.{
  Text, ℕ, ◌≡◌, ◌+◌, ◌*◌, ◌≤◌, ◌<◌, Bool, true, false, not, ◌&&◌, ◌||◌, Option, none, some, text_eq,
  is_empty, ltb, leb, length, filter, Dict, lookup, List, [], ◌∷◌, arith, lookup-insert,
  text_eq_iff, lookup-insert_self,
}
use kerplace.Cluster.LockTable.{
  Slot, LockTable, gc, slot_of, held_by_other, granted, acquire, release, fence_ok, lock_ttl,
}

-- The calls that a node's table gets, with the clock's reading at each.
pub data LockOp : Type 0 where
  acquires : (resource owner : Text) (now ttl : ℕ) → LockOp
  releases : (resource owner : Text) → LockOp

unfoldable pub run_op : LockOp → LockTable → LockTable
run_op (acquires resource owner now ttl) m = (acquire resource owner now ttl m).0
run_op (releases resource owner) m = (release resource owner m).0

-- The highest token granted, zero for a resource that the table does not have.
abbrev token_in : Option Slot → ℕ
token_in none = 0
token_in (some s) = s.token

unfoldable pub token_of : Text → LockTable → ℕ
unfolding lookup
token_of resource m = token_in (lookup resource m)

-- A run of calls, and that the table never outgrows the limit of the garbage collection in it.
unfoldable pub run : List LockOp → LockTable → LockTable
run [] m = m
run (op ∷ ops) m = run ops (run_op op m)

unfoldable pub IsSmall : List LockOp → LockTable → Type 0
IsSmall [] m = length m ≤ 4096
IsSmall (op ∷ ops) m = (length m ≤ 4096) × IsSmall ops (run_op op m)

gc_small : (now : ℕ) (m : LockTable) → length m ≤ 4096 → gc now m ≡ m
unfolding gc
gc_small now m h = ground arith

token_acquire :
    (resource owner r : Text) (now ttl : ℕ) (m : LockTable)
    → length m ≤ 4096
    → token_of r m ≤ token_of r (acquire resource owner now ttl m).0
unfolding token_of acquire slot_of held_by_other granted
token_acquire resource owner r now ttl m h =
    grind (arith, gc_small now m h, lookup-insert {V = Slot}, text_eq_iff resource r)

token_release :
    (resource owner r : Text) (m : LockTable)
    → token_of r m ≤ token_of r (release resource owner m).0
unfolding token_of release
token_release resource owner r m = grind (arith, lookup-insert {V = Slot}, text_eq_iff resource r)

pub token_run_op :
    (op : LockOp) (r : Text) (m : LockTable)
    → length m ≤ 4096
    → token_of r m ≤ token_of r (run_op op m)
unfolding run_op
token_run_op (acquires resource owner now ttl) r m h = token_acquire resource owner r now ttl m h
token_run_op (releases resource owner) r m h = token_release resource owner r m

-- While the table has at most 4096 slots, no run of acquisitions and releases lowers the token of
-- any resource.
token_run :
    (ops : List LockOp) (r : Text) (m : LockTable)
    → IsSmall ops m
    → token_of r m ≤ token_of r (run ops m)
unfolding run IsSmall
token_run [] r m h = omega arith
token_run (op ∷ ops) r m h =
    omega (arith, token_run_op op r m h.0, token_run ops r (run_op op m) h.1)

pub fence_ok_token : (r : Text) (t : ℕ) (m : LockTable) → fence_ok r t m ≡ leb (token_of r m) t
unfolding fence_ok token_of
fence_ok_token r t m = ground arith

-- The garbage collection leaves a slot that has an owner.
lookup-filter {ℓ} :
    {V : Type ℓ} (p : Text × V → Bool) (k : Text) (v : V) (m : Dict V)
    → lookup k m ≡ some v
    → p (k, v) ≡ true
    → lookup k (filter p m) ≡ some v
unfolding lookup filter
lookup-filter p k v [] h q = cc
lookup-filter p k v ((j, w) ∷ m) h q = ground (arith, lookup-filter p k v m, text_eq_iff j k)

lookup-gc_owned :
    (r : Text) (now : ℕ) (m : LockTable) (s : Slot)
    → lookup r m ≡ some s
    → is_empty s.owner ≡ false
    → lookup r (gc now m) ≡ some s
unfolding gc
lookup-gc_owned r now m s h o = ground (
  arith,
  lookup-filter
      (λ (e : Text × Slot). not (is_empty e.1.owner) || ltb now (e.1.expiry + lock_ttl * 10)) r s m,
)

pub lookup-acquire :
    (resource owner : Text) (now ttl : ℕ) (m : LockTable) (token : ℕ)
    → (acquire resource owner now ttl m).1 ≡ some token
    → lookup resource (acquire resource owner now ttl m).0
      ≡ some (record { owner = owner; expiry = now + ttl; token = token })
unfolding acquire granted
lookup-acquire resource owner now ttl m token g = grind (arith, lookup-insert_self {V = Slot})

higher :
    (resource owner : Text) (now ttl : ℕ) (m : LockTable) (token : ℕ)
    → length m ≤ 4096
    → (acquire resource owner now ttl m).1 ≡ some token
    → (text_eq (slot_of resource now m).owner owner && ltb now (slot_of resource now m).expiry)
      ≡ false
    → token_of resource m < token
unfolding acquire token_of granted slot_of
higher resource owner now ttl m token h g f = ground (arith, gc_small now m h)

granted_top :
    (resource owner : Text) (now ttl : ℕ) (m : LockTable) (token : ℕ)
    → (acquire resource owner now ttl m).1 ≡ some token
    → token_of resource (acquire resource owner now ttl m).0 ≡ token
unfolding token_of
granted_top resource owner now ttl m token g = rw (lookup-acquire resource owner now ttl m token g)

pub refused_by :
    (resource other : Text) (later ttl : ℕ) (m : LockTable) (s : Slot)
    → lookup resource m ≡ some s
    → is_empty s.owner ≡ false
    → text_eq s.owner other ≡ false
    → later < s.expiry
    → ((acquire resource other later ttl m).1 ≡ none)
      × (lookup resource (acquire resource other later ttl m).0 ≡ some s)
unfolding acquire slot_of held_by_other
refused_by resource other later ttl m s h e o l =
    let kept = lookup-gc_owned resource later m s h e in
    grind (arith, lookup-insert_self {V = Slot})

-- A live lease excludes every other owner, whatever the table's size: the acquisition by another
-- owner before the lease expires is refused, and the lease stays as it is.
pub acquire_excluded :
    (resource owner other : Text) (now later ttl ttl2 : ℕ) (m : LockTable) (token : ℕ)
    → (acquire resource owner now ttl m).1 ≡ some token
    → is_empty owner ≡ false
    → text_eq owner other ≡ false
    → later < now + ttl
    → ((acquire resource other later ttl2 (acquire resource owner now ttl m).0).1 ≡ none)
      × (lookup resource (acquire resource other later ttl2 (acquire resource owner now ttl m).0).0
          ≡ some (record { owner = owner; expiry = now + ttl; token = token }))
acquire_excluded resource owner other now later ttl ttl2 m token g e o l =
    let lease : Slot = record { owner = owner; expiry = now + ttl; token = token } in
    refused_by resource other later ttl2 _ lease (lookup-acquire resource owner now ttl m token g) e
      o l

-- A grant that is not the refresh of the owner's own live lease fences out every write with a
-- token granted before, now and after any further run of calls, while the table has at most 4096
-- slots; right after the grant, a write with the granted token passes.
pub stale_fenced :
    (resource owner : Text) (now ttl : ℕ) (m : LockTable) (stale token : ℕ) (ops : List LockOp)
    → length m ≤ 4096
    → stale ≤ token_of resource m
    → (acquire resource owner now ttl m).1 ≡ some token
    → (text_eq (slot_of resource now m).owner owner && ltb now (slot_of resource now m).expiry)
      ≡ false
    → IsSmall ops (acquire resource owner now ttl m).0
    → (fence_ok resource stale (run ops (acquire resource owner now ttl m).0) ≡ false)
      × (fence_ok resource token (acquire resource owner now ttl m).0 ≡ true)
stale_fenced resource owner now ttl m stale token ops h s g f small =
    let next = (acquire resource owner now ttl m).0 in
    let top = granted_top resource owner now ttl m token g in
    let up = higher resource owner now ttl m token h g f in
    let kept = token_run ops resource next small in
    (
      rw (fence_ok_token resource stale (run ops next)) (ground arith),
      rw (fence_ok_token resource token next) (ground arith),
    )
