-- ===== src/Cluster/Leases.antt =====
-- src/cluster/lock.rs: nodes on which the leases of others run out by a time.
use kerplace.Base.{
  Text, ℕ, suc, ◌≡◌, refl, ◌+◌, ◌≤◌, Bool, true, false, not, ◌&&◌, ◌||◌, if◌then◌else◌, List, [],
  ◌∷◌, map, none, some, text_eq, text_eq_refl, is_empty, ltb, leb, length, all, any, filter,
  is_some, Dict, lookup, insert, arith, Bool-cases, Option-cases, inl, inr, lookup-insert,
}
use kerplace.Cluster.LockTable.{
  Slot, LockTable, lock_ttl, gc, slot_of, held_by_other, granted, acquire, release,
}
use kerplace.Cluster.Quorum.{
  answered, Node, Call, try_acquire, grab, drop_grants, called, with_token,
}

-- A slot that is free, the owner's own, or another's until a time at the latest.
unfoldable pub clear_slot : Text → ℕ → Slot → Bool
clear_slot owner until s = is_empty s.owner || text_eq s.owner owner || leb s.expiry until

unfoldable pub clear_entry : Text → Text → ℕ → Text × Slot → Bool
unfolding clear_slot
clear_entry resource owner until (r, s) = not (text_eq r resource) || clear_slot owner until s

-- What the table says of the resource is such a slot.
unfoldable pub clear_table : Text → Text → ℕ → LockTable → Bool
unfolding clear_entry all
clear_table resource owner until m = all (clear_entry resource owner until) m

unfoldable pub clear_nodes : Text → Text → ℕ → List Node → Bool
unfolding clear_table all
clear_nodes resource owner until ns = all (λ n. clear_table resource owner until n.table) ns

-- Whether a call reaches its node after a time and its answer comes back.
unfoldable pub in_time : ℕ → Call → Bool
in_time until c = elim c.link [ answered ↦ leb until c.now | _ ↦ false ]

unfoldable pub heard_after : ℕ → List Call → ℕ
unfolding in_time
heard_after until [] = 0
heard_after until (c ∷ cs) =
    let rest = heard_after until cs in if in_time until c then suc rest else rest

unfoldable pub bases : List Node → List Text
bases ns = map (λ n. n.base) ns

-- No name stands twice.
unfoldable pub distinct : List Text → Bool
unfolding any
distinct [] = true
distinct (b ∷ bs) = not (any (text_eq b) bs) && distinct bs

-- The names have no token yet.
unfoldable pub absent : List Text → Dict ℕ → Bool
unfolding all
absent bs tokens = all (λ b. not (is_some (lookup b tokens))) bs

absent-insert :
    (bs : List Text) (b : Text) (t : ℕ) (tokens : Dict ℕ)
    → any (text_eq b) bs ≡ false
    → absent bs tokens ≡ true
    → absent bs (insert b t tokens) ≡ true
unfolding absent any
absent-insert [] b t tokens h k = refl
absent-insert (x ∷ bs) b t tokens h k =
    ground (arith, lookup-insert b x t tokens, absent-insert bs b t tokens)

length-insert_new :
    (b : Text) (t : ℕ) (tokens : Dict ℕ)
    → lookup b tokens ≡ none
    → length (insert b t tokens) ≡ length tokens + 1
unfolding insert lookup
length-insert_new b t [] h = omega arith
length-insert_new b t ((j, w) ∷ m) h = ground (arith, length-insert_new b t m)

distinct_cons :
    (b : Text) (bs : List Text)
    → distinct (b ∷ bs) ≡ true
    → (any (text_eq b) bs ≡ false) × (distinct bs ≡ true)
unfolding distinct
distinct_cons b bs h = (ground arith, ground arith)

absent_cons :
    (b : Text) (bs : List Text) (tokens : Dict ℕ)
    → absent (b ∷ bs) tokens ≡ true
    → (lookup b tokens ≡ none) × (absent bs tokens ≡ true)
unfolding absent
absent_cons b bs tokens h = (ground arith, ground arith)

module _ (resource owner : Text) (until : ℕ) where
  clear_lookup :
      (m : LockTable) (s : Slot)
      → clear_table resource owner until m ≡ true
      → lookup resource m ≡ some s
      → clear_slot owner until s ≡ true
  unfolding clear_table clear_entry all lookup
  clear_lookup [] s h e = ground arith
  clear_lookup ((r, t) ∷ m) s h e = ground (arith, clear_lookup m s)

  clear-insert :
      (m : LockTable) (s : Slot)
      → clear_table resource owner until m ≡ true
      → clear_slot owner until s ≡ true
      → clear_table resource owner until (insert resource s m) ≡ true
  unfolding clear_table clear_entry all insert
  clear-insert [] s h c = ground arith
  clear-insert ((r, t) ∷ m) s h c = ground (arith, clear-insert m s)

  clear-filter :
      (p : Text × Slot → Bool) (m : LockTable)
      → clear_table resource owner until m ≡ true
      → clear_table resource owner until (filter p m) ≡ true
  unfolding clear_table all filter
  clear-filter p [] h = refl
  clear-filter p (e ∷ m) h = ground (arith, clear-filter p m)

  clear-gc :
      (now : ℕ) (m : LockTable)
      → clear_table resource owner until m ≡ true
      → clear_table resource owner until (gc now m) ≡ true
  unfolding gc
  clear-gc now m h = elim (Bool-cases (ltb 4096 (length m))) [
    | inl e ↦ rw e (clear-filter _ m h)
    | inr e ↦ rw e h
  ]

  clear-slot_of :
      (now : ℕ) (m : LockTable)
      → clear_table resource owner until m ≡ true
      → clear_slot owner until (slot_of resource now m) ≡ true
  unfolding slot_of
  clear-slot_of now m h = elim (Option-cases (lookup resource m)) [
    | inl e ↦ rw e (unfold clear_slot in refl)
    | inr (s, e) ↦ rw e (clear_lookup m s h e)
  ]

  own_slot : (s : Slot) (now ttl : ℕ) → clear_slot owner until (granted s owner now ttl) ≡ true
  unfolding clear_slot granted
  own_slot s now ttl = ground (arith, text_eq_refl owner)

  clear-acquire :
      (now ttl : ℕ) (m : LockTable)
      → clear_table resource owner until m ≡ true
      → clear_table resource owner until (acquire resource owner now ttl m).0 ≡ true
  unfolding acquire
  clear-acquire now ttl m h =
      let kept = clear-gc now m h in
      let slot = slot_of resource now (gc now m) in
      elim (Bool-cases (held_by_other slot owner now)) [
        | inl e ↦ rw e (clear-insert (gc now m) slot kept (clear-slot_of now (gc now m) kept))
        | inr e ↦ rw e (clear-insert (gc now m) _ kept (own_slot slot now ttl))
      ]

  clear-release :
      (m : LockTable)
      → clear_table resource owner until m ≡ true
      → clear_table resource owner until (release resource owner m).0 ≡ true
  unfolding release
  clear-release m h = elim (Option-cases (lookup resource m)) [
    | inl e ↦ ground (arith, e, h)
    | inr (s, e) ↦
        let freed = clear-insert m (record s { owner = [] }) h (unfold clear_slot in refl) in
        ground (arith, e, h, freed)
  ]

  -- After the time, a node grants the lock.
  acquire_open :
      (now ttl : ℕ) (m : LockTable)
      → clear_table resource owner until m ≡ true
      → until ≤ now
      → (t : ℕ) × ((acquire resource owner now ttl m).1 ≡ some t)
  unfolding acquire
  acquire_open now ttl m h late =
      let slot = slot_of resource now (gc now m) in
      let clear = clear-slot_of now (gc now m) (clear-gc now m h) in
      let open_now : held_by_other slot owner now ≡ false =
        unfold held_by_other clear_slot in ground (arith, clear) in
      ((granted slot owner now ttl).token, rw open_now refl)

  try_acquire_open :
      (n : Node) (c : Call)
      → clear_table resource owner until n.table ≡ true
      → in_time until c ≡ true
      → (t : ℕ) × ((try_acquire resource owner n c).1 ≡ some t)
  unfolding try_acquire in_time
  try_acquire_open n c h i =
      let late : until ≤ c.now = ground arith in
      let (t, won) = acquire_open c.now lock_ttl n.table h late in (t, ground (arith, won))

  try_acquire_keeps :
      (n : Node) (c : Call)
      → clear_table resource owner until n.table ≡ true
      → (clear_table resource owner until (try_acquire resource owner n c).0.table ≡ true)
        × ((try_acquire resource owner n c).0.base ≡ n.base)
  unfolding try_acquire
  try_acquire_keeps n c h =
      let after = clear-acquire c.now lock_ttl n.table h in (ground (arith, after, h), ground arith)

  -- The nodes after a round of calls.
  pub grab_keeps :
      (ns : List Node) (cs : List Call) (tokens : Dict ℕ)
      → length cs ≡ length ns
      → clear_nodes resource owner until ns ≡ true
      → (clear_nodes resource owner until (grab resource owner tokens (called ns cs)).0 ≡ true)
        × (bases (grab resource owner tokens (called ns cs)).0 ≡ bases ns)
  unfolding clear_nodes all grab called bases
  grab_keeps [] cs tokens n h = (refl, refl)
  grab_keeps (x ∷ ns) [] tokens n h = absurd (omega arith)
  grab_keeps (x ∷ ns) (c ∷ cs) tokens n h =
      let (here, base) = try_acquire_keeps x c (ground arith) in
      let (rest, names) =
        grab_keeps ns cs (with_token x.base (try_acquire resource owner x c).1 tokens) (omega arith)
          (ground arith) in
      (ground (arith, here, rest), cc (base, names))

  pub drop_grants_keeps :
      (heard : List Bool) (ns : List Node)
      → clear_nodes resource owner until ns ≡ true
      → (clear_nodes resource owner until (drop_grants resource owner heard ns) ≡ true)
        × (bases (drop_grants resource owner heard ns) ≡ bases ns)
  unfolding clear_nodes all drop_grants bases
  drop_grants_keeps heard [] h = (refl, refl)
  drop_grants_keeps [] (n ∷ ns) h = (h, refl)
  drop_grants_keeps (x ∷ heard) (n ∷ ns) h =
      let (rest, names) = drop_grants_keeps heard ns (ground arith) in
      let freed = clear-release n.table (ground arith) in
      (ground (arith, rest, freed), ground (arith, names))

  -- Every node that is heard after the time has given a token.
  pub grab_count :
      (ns : List Node) (cs : List Call) (tokens : Dict ℕ)
      → length cs ≡ length ns
      → clear_nodes resource owner until ns ≡ true
      → distinct (bases ns) ≡ true
      → absent (bases ns) tokens ≡ true
      → length tokens + heard_after until cs ≤ length (grab resource owner tokens (called ns cs)).1
  unfolding clear_nodes all grab called bases heard_after
  grab_count [] [] tokens n h d a = omega arith
  grab_count [] (c ∷ cs) tokens n h d a = absurd (omega arith)
  grab_count (x ∷ ns) [] tokens n h d a = absurd (omega arith)
  grab_count (x ∷ ns) (c ∷ cs) tokens n h d a =
      let here : clear_table resource owner until x.table ≡ true = ground arith in
      let rest : clear_nodes resource owner until ns ≡ true = ground arith in
      let (apart, others) = distinct_cons x.base (bases ns) d in
      let (new, free) = absent_cons x.base (bases ns) tokens a in
      let added = λ (t : ℕ).
        grab_count ns cs (insert x.base t tokens) (omega arith) rest others
          (absent-insert (bases ns) x.base t tokens apart free) in
      elim (Option-cases (try_acquire resource owner x c).1) [
        | inr (t, won) ↦
            let more = added t in
            let one = length-insert_new x.base t tokens new in ground (arith, won, more, one)
        | inl lost ↦
            let same = grab_count ns cs tokens (omega arith) rest others free in
            elim (Bool-cases (in_time until c)) [
              | inl i ↦ let (t, won) = try_acquire_open x c here i in absurd (cc)
              | inr i ↦ ground (arith, lost, same, i)
            ]
      ]
