-- ===== src/Cluster/Holding.antt =====
-- src/cluster/lock.rs: what others can do while an owner holds the quorum lock.
use kerplace.Base.{
  Text, ℕ, suc, ◌≡◌, refl, ap, ◌+◌, ◌≤◌, ◌<◌, Bool, true, false, List, [], ◌∷◌, Option, none, some,
  text_eq, is_empty, length, Dict, insert, lookup, arith, Option-cases, inl, inr,
}
use kerplace.Cluster.LockTable.{Slot, LockTable, lock_ttl, release}
use kerplace.Cluster.Fencing.{lookup-acquire, refused_by}
use kerplace.Cluster.Quorum.{
  Call, Node, try_acquire, with_token, grab, drop_grants, quorum_of, attempt, called, WithinLease,
  length-insert-le, won_count, lost_count,
}

-- An attempt by an owner: which releases arrive, and the calls of the nodes.
pub record Attempt : Type 0 where
  pub owner : Text
  pub heard : List Bool
  pub calls : List Call

-- Attempts at a lock one after the other, on the same nodes.
unfoldable pub after_attempts : Text → List Attempt → List Node → List Node
unfolding attempt called
after_attempts resource [] ns = ns
after_attempts resource (a ∷ as_) ns =
    after_attempts resource as_ (attempt resource a.owner a.heard (called ns a.calls)).0

-- Each of them is by another owner, and calls each node before the lease of its first call runs out.
abbrev pub AreLater : Text → List (Node × Call) → List Attempt → Type 0
AreLater owner ns [] = Unit {0}
AreLater owner ns (a ∷ as_) =
    (text_eq owner a.owner ≡ false) × WithinLease ns a.calls × AreLater owner ns as_

abbrev lease_of : Call → Option ℕ → Option ℕ
lease_of c none = none
lease_of c (some t) = some (c.now + lock_ttl)

length-with_token :
    (base : Text) (got : Option ℕ) (a : Dict ℕ) → length (with_token base got a) ≤ length a + 1
length-with_token base none a = omega arith
length-with_token base (some t) a = length-insert-le base t a

-- The expiry of the lease on each node, where the owner's call got it.
leases : Text → Text → List (Node × Call) → List (Option ℕ)
leases resource owner [] = []
leases resource owner ((n, c) ∷ ns) =
    lease_of c (try_acquire resource owner n c).1 ∷ leases resource owner ns

held_count : List (Option ℕ) → ℕ
held_count [] = 0
held_count (none ∷ es) = held_count es
held_count (some e ∷ es) = suc (held_count es)

abbrev HasLease : Text → Text → Node → Option ℕ → Type 0
HasLease resource owner n none = Unit {0}
HasLease resource owner n (some e) =
    (token : ℕ) × (lookup resource n.table
      ≡ some (record { owner = owner; expiry = e; token = token }))

abbrev Holds : Text → Text → List Node → List (Option ℕ) → Type 0
Holds resource owner [] [] = Unit {0}
Holds resource owner (n ∷ ns) (e ∷ es) = HasLease resource owner n e × Holds resource owner ns es
Holds resource owner [] (e ∷ es) = ⊥
Holds resource owner (n ∷ ns) [] = ⊥

abbrev Before : Call → Option ℕ → Type 0
Before c none = Unit {0}
Before c (some e) = c.now < e

abbrev AllBefore : List Call → List (Option ℕ) → Type 0
AllBefore [] [] = Unit {0}
AllBefore (c ∷ cs) (e ∷ es) = Before c e × AllBefore cs es
AllBefore [] (e ∷ es) = ⊥
AllBefore (c ∷ cs) [] = ⊥

module _ (resource owner : Text) (named : is_empty owner ≡ false) where
  won_lease :
      (n : Node) (c : Call) (token : ℕ)
      → (try_acquire resource owner n c).1 ≡ some token
      → HasLease resource owner (try_acquire resource owner n c).0 (some (c.now + lock_ttl))
  unfolding try_acquire
  won_lease n c token g =
      (token, ground (arith, lookup-acquire resource owner c.now lock_ttl n.table token))

  within :
      (ns : List (Node × Call)) (cs : List Call)
      → WithinLease ns cs
      → AllBefore cs (leases resource owner ns)
  unfolding WithinLease leases
  within [] [] w = tt
  within [] (c ∷ cs) w = absurd (omega arith)
  within (nc ∷ ns) [] w = absurd (omega arith)
  within ((n, c) ∷ ns) (d ∷ cs) w = elim (Option-cases (try_acquire resource owner n c).1) [
    | inl e ↦ rw e (tt, within ns cs w.1)
    | inr (t, e) ↦ rw e (w.0, within ns cs w.1)
  ]

  -- After the winner's round its leases are there, and there are at least as many as tokens.
  grab-Holds :
      (ns : List (Node × Call)) (a : Dict ℕ)
      → Holds resource owner (grab resource owner a ns).0 (leases resource owner ns)
        × (length (grab resource owner a ns).1 ≤ length a + held_count (leases resource owner ns))
  unfolding grab leases held_count
  grab-Holds [] a = (tt, omega arith)
  grab-Holds ((n, c) ∷ ns) a = elim (Option-cases (try_acquire resource owner n c).1) [
    | inl e ↦ let (held, count) = grab-Holds ns a in rw e ((tt, held), count)
    | inr (t, e) ↦
        let (held, count) = grab-Holds ns (insert n.base t a) in
        let lease = won_lease n c t e in
        rw e ((lease, held), omega (arith, count, length-insert-le n.base t a))
  ]

  module _ (other : Text) (apart : text_eq owner other ≡ false) where
    -- A live lease turns another owner away and stays.
    turned_away :
        (n : Node) (c : Call) (e token : ℕ)
        → lookup resource n.table ≡ some (record { owner = owner; expiry = e; token = token })
        → c.now < e
        → ((try_acquire resource other n c).1 ≡ none)
          × (lookup resource (try_acquire resource other n c).0.table
              ≡ some (record { owner = owner; expiry = e; token = token }))
    unfolding try_acquire
    turned_away n c e token h l =
        let lease : Slot = record { owner = owner; expiry = e; token = token } in
        let refused = refused_by resource other c.now lock_ttl n.table lease h named apart l in
        (ground (arith, refused, h), ground (arith, refused, h))

    -- Its release leaves the lease too.
    unreleased :
        (m : LockTable) (e token : ℕ)
        → lookup resource m ≡ some (record { owner = owner; expiry = e; token = token })
        → (release resource other m).0 ≡ m
    unfolding release
    unreleased m e token h = ground (arith, h, apart)

    length-called :
        (ns : List Node) (cs : List Call) (es : List (Option ℕ))
        → Holds resource owner ns es
        → AllBefore cs es
        → (length (called ns cs) ≡ length es) × (length ns ≡ length es)
    unfolding called
    length-called [] [] [] h b = (refl, refl)
    length-called (n ∷ ns) (c ∷ cs) (e ∷ es) h b =
        let (x, y) = length-called ns cs es h.1 b.1 in (ap suc x, ap suc y)
    length-called [] cs (e ∷ es) h b = absurd h
    length-called (n ∷ ns) cs [] h b = absurd h
    length-called [] (c ∷ cs) [] h b = absurd b
    length-called (n ∷ ns) [] (e ∷ es) h b = absurd b

    grab_next :
        (n : Node) (c : Call) (ns : List Node) (cs : List Call) (a : Dict ℕ)
        → length (grab resource other a (called (n ∷ ns) (c ∷ cs))).1
          ≡ length
              (grab resource other
                (with_token n.base (try_acquire resource other n c).1 a)
                (called ns cs)).1
    unfolding grab called
    grab_next n c ns cs a = refl

    -- A round of another owner gets no token where there is a lease, and leaves the leases.
    grab_other :
        (ns : List Node) (cs : List Call) (es : List (Option ℕ)) (a : Dict ℕ)
        → Holds resource owner ns es
        → AllBefore cs es
        → Holds resource owner (grab resource other a (called ns cs)).0 es
          × (length (grab resource other a (called ns cs)).1 + held_count es ≤ length a + length es)
    unfolding grab called held_count
    grab_other [] [] [] a h b = (tt, omega arith)
    grab_other (n ∷ ns) (c ∷ cs) (none ∷ es) a h b =
        let got = (try_acquire resource other n c).1 in
        let step = grab_next n c ns cs a in
        let (held, count) = grab_other ns cs es (with_token n.base got a) h.1 b.1 in
        ((tt, held), omega (arith, count, step, length-with_token n.base got a))
    grab_other (n ∷ ns) (c ∷ cs) (some e ∷ es) a ((token, lease), h) b =
        let (refused, same) = turned_away n c e token lease b.0 in
        let step = grab_next n c ns cs a in
        let size = ap (λ t. length (with_token n.base t a)) refused in
        let got = (try_acquire resource other n c).1 in
        let (held, count) = grab_other ns cs es (with_token n.base got a) h b.1 in
        (((token, same), held), omega (arith, count, step, size))
    grab_other [] cs (e ∷ es) a h b = absurd h
    grab_other (n ∷ ns) cs [] a h b = absurd h
    grab_other [] (c ∷ cs) [] a h b = absurd b
    grab_other (n ∷ ns) [] (e ∷ es) a h b = absurd b

    drop_other :
        (heard : List Bool) (ns : List Node) (es : List (Option ℕ))
        → Holds resource owner ns es
        → Holds resource owner (drop_grants resource other heard ns) es
    unfolding drop_grants
    drop_other heard [] [] h = tt
    drop_other [] (n ∷ ns) es h = h
    drop_other (b ∷ heard) (n ∷ ns) (none ∷ es) h = (tt, drop_other heard ns es h.1)
    drop_other (true ∷ heard) (n ∷ ns) (some e ∷ es) ((token, lease), h) =
        ((token, rw (unreleased n.table e token lease) lease), drop_other heard ns es h)
    drop_other (false ∷ heard) (n ∷ ns) (some e ∷ es) ((token, lease), h) =
        ((token, lease), drop_other heard ns es h)
    drop_other (b ∷ heard) (n ∷ ns) [] h = absurd h
    drop_other heard [] (e ∷ es) h = absurd h

    lost_state :
        (heard : List Bool) (ns : List (Node × Call))
        → length (grab resource other [] ns).1 < quorum_of (length ns)
        → (attempt resource other heard ns).0
          ≡ drop_grants resource other heard (grab resource other [] ns).0
    unfolding attempt
    lost_state heard ns h = ground (arith, h)

    -- With leases on a quorum of the nodes another owner's attempt fails and leaves them.
    attempt_other :
        (heard : List Bool) (ns : List Node) (cs : List Call) (es : List (Option ℕ))
        → quorum_of (length es) ≤ held_count es
        → Holds resource owner ns es
        → AllBefore cs es
        → ((attempt resource other heard (called ns cs)).1 ≡ none)
          × Holds resource owner (attempt resource other heard (called ns cs)).0 es
    attempt_other heard ns cs es most h b =
        let (held, count) = grab_other ns cs es [] h b in
        let size = (length-called ns cs es h b).0 in
        let few : length (grab resource other [] (called ns cs)).1
            < quorum_of (length (called ns cs)) =
          rw size (unfold quorum_of in omega (arith, most, count)) in
        (
          lost_count resource other heard (called ns cs) few,
          rw (lost_state heard (called ns cs) few) (drop_other heard _ es held),
        )

  attempts_others :
      (ns : List (Node × Call)) (as_ : List Attempt) (ms : List Node)
      → quorum_of (length (leases resource owner ns)) ≤ held_count (leases resource owner ns)
      → AreLater owner ns as_
      → Holds resource owner ms (leases resource owner ns)
      → Holds resource owner (after_attempts resource as_ ms) (leases resource owner ns)
  unfolding after_attempts
  attempts_others ns [] ms most later h = h
  attempts_others ns (a ∷ as_) ms most (apart, w, later) h =
      let (lost, held) =
        attempt_other a.owner apart a.heard ms a.calls (leases resource owner ns) most h
          (within ns a.calls w) in
      attempts_others ns as_ _ most later held

length-leases :
    (resource owner : Text) (ns : List (Node × Call))
    → length (leases resource owner ns) ≡ length ns
unfolding leases
length-leases resource owner [] = refl
length-leases resource owner ((n, c) ∷ ns) = ap suc (length-leases resource owner ns)

-- Once an owner has won an attempt, no other owner wins one on the same nodes before the winner's
-- leases run out, however many attempts other owners have made in between, with the releases after
-- each that failed, and whichever requests and answers are lost on the way. The winner itself makes
-- no further call in the meantime.
pub attempt_exclusive :
    (resource owner other : Text) (heard heard2 : List Bool) (ns : List (Node × Call))
    (between : List Attempt) (cs : List Call) (tokens : Dict ℕ)
    → is_empty owner ≡ false
    → text_eq owner other ≡ false
    → AreLater owner ns between
    → WithinLease ns cs
    → (attempt resource owner heard ns).1 ≡ some tokens
    → (attempt resource other heard2
        (called (after_attempts resource between (attempt resource owner heard ns).0) cs)).1
      ≡ none
attempt_exclusive resource owner other heard heard2 ns between cs tokens named apart later w h =
    let (same, won) = won_count resource owner heard ns tokens h in
    let (held, count) = grab-Holds resource owner named ns [] in
    let most : quorum_of (length (leases resource owner ns))
        ≤ held_count (leases resource owner ns) =
      rw (length-leases resource owner ns) (omega (arith, won, count)) in
    let kept = attempts_others resource owner named ns between _ most later held in
    rw same
      (attempt_other resource owner named other apart heard2 _ cs (leases resource owner ns) most
        kept (within resource owner named ns cs w)).0
