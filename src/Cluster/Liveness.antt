-- ===== src/Cluster/Liveness.antt =====
-- src/cluster/lock.rs: a quorum lock is won once the leases of those who are gone have run out.
use kerplace.Base.{
  Text, ℕ, zero, suc, ◌≡◌, refl, sym, ap, ◌∙◌, ◌⊎◌, subst, lookup, ◌+◌, ◌≤◌, ◌<◌, Bool, true, List,
  [], ◌∷◌, none, some, leb, length, length-map, all, Dict, arith, Bool-cases, Option-cases, inl,
  inr,
}
use kerplace.Cluster.Quorum.{Node, Call, grab, quorum_of, attempt, called}
use kerplace.Cluster.Waiting.{Round, one_attempt, retry, attempts, dist_acquire, lock_set_acquire}
use kerplace.Cluster.Leases.{
  clear_nodes, heard_after, bases, distinct, absent, grab_keeps, drop_grants_keeps, grab_count,
}

length-called_all :
    (ns : List Node) (cs : List Call) → length cs ≡ length ns → length (called ns cs) ≡ length ns
unfolding called
length-called_all [] cs h = refl
length-called_all (n ∷ ns) [] h = absurd (omega arith)
length-called_all (n ∷ ns) (c ∷ cs) h = ap suc (length-called_all ns cs (omega arith))

ℕ-cases : (n : ℕ) → (n ≡ 0) ⊎ ((m : ℕ) × (n ≡ suc m))
ℕ-cases zero = inl refl
ℕ-cases (suc m) = inr (m, refl)

-- Nodes with the same names are as many.
length-bases : (ns ms : List Node) → bases ns ≡ bases ms → length ns ≡ length ms
unfolding bases
length-bases ns ms h =
    omega (
      arith,
      ap length h,
      length-map ns (λ (n : Node). n.base),
      length-map ms (λ (n : Node). n.base),
    )

absent_none : (bs : List Text) → absent bs [] ≡ true
unfolding absent all lookup
absent_none [] = refl
absent_none (b ∷ bs) = ground (arith, absent_none bs)

-- What the other gateways do before a round: they take no lease that outlasts the time, and the
-- nodes stay the same; every node is called in every round.
pub record AreBystanders (resource owner : Text) (until : ℕ) (rounds : ℕ → Round) (size : ℕ)
    : Type 0 where
  pub calls_all : (i : ℕ) → length (rounds i).calls ≡ size
  pub keep_clear :
      (i : ℕ) (ns : List Node)
      → clear_nodes resource owner until ns ≡ true
      → clear_nodes resource owner until ((rounds i).others ns) ≡ true
  pub keep_nodes : (i : ℕ) (ns : List Node) → bases ((rounds i).others ns) ≡ bases ns

module _ (resource owner : Text) (until : ℕ) where
  attempt_keeps :
      (heard : List Bool) (ns : List Node) (cs : List Call)
      → length cs ≡ length ns
      → clear_nodes resource owner until ns ≡ true
      → (clear_nodes resource owner until (attempt resource owner heard (called ns cs)).0 ≡ true)
        × (bases (attempt resource owner heard (called ns cs)).0 ≡ bases ns)
  unfolding attempt
  attempt_keeps heard ns cs n h =
      let got = grab resource owner [] (called ns cs) in
      let (clear, names) = grab_keeps resource owner until ns cs [] n h in
      let (clear', names') = drop_grants_keeps resource owner until heard got.0 clear in
      elim (Bool-cases (leb (quorum_of (length (called ns cs))) (length got.1))) [
        | inl e ↦ rw e (clear, names)
        | inr e ↦ rw e (clear', names' ∙ names)
      ]

  -- An attempt that is won has a quorum of tokens.
  attempt_quorum :
      (heard : List Bool) (ns : List Node) (cs : List Call) (tokens : Dict ℕ)
      → length cs ≡ length ns
      → (attempt resource owner heard (called ns cs)).1 ≡ some tokens
      → quorum_of (length ns) ≤ length tokens
  unfolding attempt
  attempt_quorum heard ns cs tokens n h = ground (arith, length-called_all ns cs n)

  -- After the time, an attempt that a quorum of the nodes hears is won.
  attempt_wins :
      (heard : List Bool) (ns : List Node) (cs : List Call)
      → length cs ≡ length ns
      → clear_nodes resource owner until ns ≡ true
      → distinct (bases ns) ≡ true
      → quorum_of (length ns) ≤ heard_after until cs
      → (tokens : Dict ℕ) × ((attempt resource owner heard (called ns cs)).1 ≡ some tokens)
  unfolding attempt
  attempt_wins heard ns cs n h d enough =
      let got = grab resource owner [] (called ns cs) in
      let count = grab_count resource owner until ns cs [] n h d (absent_none (bases ns)) in
      (got.1, ground (arith, length-called_all ns cs n, count))

  module _ (rounds : ℕ → Round) (left i : ℕ) (ns : List Node) where
    retry_won :
        (tokens : Dict ℕ)
        → (one_attempt resource owner (rounds i) ns).1 ≡ some tokens
        → (retry resource owner rounds (suc left) i ns).1 ≡ some tokens
    unfolding retry
    retry_won tokens won = ground (arith, won)

    retry_lost :
        (one_attempt resource owner (rounds i) ns).1 ≡ none
        → (retry resource owner rounds (suc left) i ns).1
          ≡ (retry resource owner rounds left
              (i + 1)
              (one_attempt resource owner (rounds i) ns).0).1
    unfolding retry
    retry_lost lost = ground (arith, lost)

  module _ (rounds : ℕ → Round) (size : ℕ)
      (by : AreBystanders resource owner until rounds size) where
    -- The nodes as a round finds them.
    found_keeps :
        (i : ℕ) (ns : List Node)
        → length ns ≡ size
        → (length (rounds i).calls ≡ length ((rounds i).others ns))
          × (length ((rounds i).others ns) ≡ size)
    found_keeps i ns n =
        let same = length-bases ((rounds i).others ns) ns (by.keep_nodes i ns) in
        (omega (arith, by.calls_all i, same), omega (arith, same))

    retry_wins :
        (left i later : ℕ) (ns : List Node)
        → length ns ≡ size
        → later < left
        → clear_nodes resource owner until ns ≡ true
        → distinct (bases ns) ≡ true
        → quorum_of size ≤ heard_after until (rounds (i + later)).calls
        → (tokens : Dict ℕ) × ((retry resource owner rounds left i ns).1 ≡ some tokens)
          × (quorum_of size ≤ length tokens)
    unfolding one_attempt attempt
    retry_wins zero i later ns n l h d enough = absurd (omega arith)
    retry_wins (suc left) i later ns n l h d enough =
        let heard = λ (t : ℕ). quorum_of size ≤ heard_after until (rounds t).calls in
        let r = rounds i in
        let ms = r.others ns in
        let (m, k) = found_keeps i ns n in
        let clear = by.keep_clear i ns h in
        let names = by.keep_nodes i ns in
        elim (Option-cases (attempt resource owner r.heard (called ms r.calls)).1) [
          | inr (tokens, won) ↦
              let many = attempt_quorum r.heard ms r.calls tokens m won in
              (tokens, retry_won rounds left i ns tokens won, rw (← k) many)
          | inl lost ↦
              let (next_clear, next_names) = attempt_keeps r.heard ms r.calls m clear in
              let next = (attempt resource owner r.heard (called ms r.calls)).0 in
              let next_size : length next ≡ size = length-bases next ms next_names ∙ k in
              let next_distinct : distinct (bases next) ≡ true =
                ap distinct (next_names ∙ names) ∙ d in
              let now_distinct : distinct (bases ms) ≡ true = ap distinct names ∙ d in
              elim (ℕ-cases later) [
                | inl z ↦
                    let now = subst heard (omega (arith, z)) enough in
                    let (t, won) =
                      attempt_wins r.heard ms r.calls m clear now_distinct (rw k now) in
                    absurd (cc (sym lost ∙ won))
                | inr (j, z) ↦
                    let then_on = subst heard (omega (arith, z)) enough in
                    let (t, won, many) =
                      retry_wins left (i + 1) j next next_size (omega (arith, z)) next_clear
                        next_distinct then_on in
                    (t, retry_lost rounds left i ns lost ∙ won, many)
              ]
        ]

-- A lock over a cluster is won with a quorum of fencing tokens, if by a time every lease of another
-- owner on its resource has run out, no other gateway takes one that outlasts the time, and one of
-- the sixty attempts is heard by a quorum of the nodes after it, with their answers coming back.
-- Whatever was lost in the attempts before; the nodes have different names and each is called in
-- every attempt.
pub lock_set_acquire_wins :
    (resource owner : Text) (until : ℕ) (rounds : ℕ → Round) (ns : List Node) (later : ℕ)
    → AreBystanders resource owner until rounds (length ns)
    → clear_nodes resource owner until ns ≡ true
    → distinct (bases ns) ≡ true
    → later < attempts
    → quorum_of (length ns) ≤ heard_after until (rounds later).calls
    → ((lock_set_acquire resource owner rounds (some ns)).1.dist ≡ some owner)
      × (quorum_of (length ns) ≤ length (lock_set_acquire resource owner rounds (some ns)).1.tokens)
unfolding lock_set_acquire dist_acquire
lock_set_acquire_wins resource owner until rounds ns later by clear apart soon heard =
    let (t, won, many) =
      retry_wins resource owner until rounds (length ns) by attempts 0 later ns refl soon clear
        apart
        (subst (λ (k : ℕ). quorum_of (length ns) ≤ heard_after until (rounds k).calls) (omega arith)
          heard) in
    (rw won refl, rw won many)
