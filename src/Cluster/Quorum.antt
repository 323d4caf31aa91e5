-- ===== src/Cluster/Quorum.antt =====
-- src/cluster/lock.rs: one attempt of the quorum lock over the drive nodes. The network is an
-- argument: for each call the node's clock and whether the request and its answer arrive.
use kerplace.Base.{
  Text, ℕ, suc, ◌≡◌, refl, ap, ◌+◌, ◌/◌, ◌≤◌, ◌<◌, Bool, false, if◌then◌else◌, List, [], ◌∷◌,
  Option, none, some, text_eq, is_empty, leb, length, Dict, insert, arith, Option-cases, inl, inr,
}
use kerplace.Cluster.LockTable.{LockTable, lock_ttl, acquire, release}
use kerplace.Cluster.Fencing.{acquire_excluded}

pub data Link : Type 0 where
  answered request_lost answer_lost : Link

pub record Call : Type 0 where
  pub now : ℕ
  pub link : Link

pub record Node : Type 0 where
  pub base : Text
  pub table : LockTable

abbrev answer_of : Link → Node → LockTable × Option ℕ → Node × Option ℕ
answer_of answered n r = (record n { table = r.0 }, r.1)
answer_of request_lost n r = (n, none)
answer_of answer_lost n r = (record n { table = r.0 }, none)

-- `LockClient::try_acquire`
unfoldable pub try_acquire : Text → Text → Node → Call → Node × Option ℕ
try_acquire resource owner n c = answer_of c.link n (acquire resource owner c.now lock_ttl n.table)

abbrev pub with_token : Text → Option ℕ → Dict ℕ → Dict ℕ
with_token base none tokens = tokens
with_token base (some t) tokens = insert base t tokens

-- the loop over the nodes: the nodes after it, and the tokens by the node's base
unfoldable pub grab : Text → Text → Dict ℕ → List (Node × Call) → List Node × Dict ℕ
grab resource owner tokens [] = ([], tokens)
grab resource owner tokens ((n, c) ∷ ns) =
    let (next, token) = try_acquire resource owner n c in
    let rest = grab resource owner (with_token n.base token tokens) ns in (next ∷ rest.0, rest.1)

-- the release of what was granted, where the request arrives
unfoldable pub drop_grants : Text → Text → List Bool → List Node → List Node
drop_grants resource owner heard [] = []
drop_grants resource owner [] (n ∷ ns) = n ∷ ns
drop_grants resource owner (h ∷ heard) (n ∷ ns) =
    let rest = drop_grants resource owner heard ns in
    (if h then record n { table = (release resource owner n.table).0 } else n) ∷ rest

-- `DistLock::new`
unfoldable pub quorum_of : ℕ → ℕ
quorum_of n = n / 2 + 1

-- One attempt of `DistLock::acquire`: the tokens if a quorum of the nodes granted the lock, and else
-- the nodes after the grants were released.
unfoldable pub attempt : Text → Text → List Bool → List (Node × Call) → List Node × Option (Dict ℕ)
unfolding quorum_of
attempt resource owner heard ns =
    let (next, tokens) = grab resource owner [] ns in
    if leb (quorum_of (length ns)) (length tokens)
    then (next, some tokens)
    else (drop_grants resource owner heard next, none)

-- The same nodes, called another time.
unfoldable pub called : List Node → List Call → List (Node × Call)
called [] cs = []
called (n ∷ ns) [] = []
called (n ∷ ns) (c ∷ cs) = (n, c) ∷ called ns cs

-- Each node is called again before a lease of its first call runs out.
unfoldable pub WithinLease : List (Node × Call) → List Call → Type 0
WithinLease [] cs = length cs ≤ 0
WithinLease (nc ∷ ns) [] = 1 ≤ 0
WithinLease (nc ∷ ns) (c ∷ cs) = (c.now < nc.1.now + lock_ttl) × WithinLease ns cs

pub length-insert-le : (k : Text) (v : ℕ) (m : Dict ℕ) → length (insert k v m) ≤ length m + 1
unfolding insert
length-insert-le k v [] = omega arith
length-insert-le k v ((j, w) ∷ m) = ground (arith, length-insert-le k v m)

length-with_token :
    (base : Text) (t : ℕ) (m : Dict ℕ) → length (with_token base (some t) m) ≤ length m + 1
length-with_token base t m = length-insert-le base t m

try_excluded :
    (resource owner other : Text) (n : Node) (c later : Call) (token : ℕ)
    → (try_acquire resource owner n c).1 ≡ some token
    → is_empty owner ≡ false
    → text_eq owner other ≡ false
    → later.now < c.now + lock_ttl
    → (try_acquire resource other (try_acquire resource owner n c).0 later).1 ≡ none
unfolding try_acquire
try_excluded resource owner other n c later token g e o l =
    let excluded =
      acquire_excluded resource owner other c.now later.now lock_ttl lock_ttl n.table token in
    ground (arith, excluded)

-- Two rounds on the same nodes: no node grants the lock in both.
disjoint_grants :
    (resource owner other : Text) (ns : List (Node × Call)) (cs : List Call) (a b : Dict ℕ)
    → is_empty owner ≡ false
    → text_eq owner other ≡ false
    → WithinLease ns cs
    → length (grab resource other b (called (grab resource owner a ns).0 cs)).1
        + length (grab resource owner a ns).1
      ≤ length ns + length a + length b
unfolding grab called WithinLease
disjoint_grants resource owner other [] cs a b e o w = omega arith
disjoint_grants resource owner other (nc ∷ ns) [] a b e o w = absurd (omega arith)
disjoint_grants resource owner other ((n, c) ∷ ns) (later ∷ cs) a b e o w =
    let first = try_acquire resource owner n c in
    let second = try_acquire resource other first.0 later in
    let both = (λ (x y : Dict ℕ). disjoint_grants resource owner other ns cs x y e o w.1) in
    elim (Option-cases first.1) [
      | inr (t, g) ↦
          let refused = try_excluded resource owner other n c later t g e o w.0 in
          let x = insert n.base t a in
          rw (g, refused) (omega (arith, both x b, length-insert-le n.base t a))
      | inl g ↦ elim (Option-cases second.1) [
        | inl h ↦ rw (g, h) (omega (arith, both a b))
        | inr (t, h) ↦
            let y = insert first.0.base t b in
            rw (g, h) (omega (arith, both a y, length-insert-le first.0.base t b))
      ]
    ]

length-called :
    (resource owner : Text) (ns : List (Node × Call)) (cs : List Call) (a : Dict ℕ)
    → WithinLease ns cs
    → length (called (grab resource owner a ns).0 cs) ≡ length ns
unfolding grab called WithinLease
length-called resource owner [] cs a w = refl
length-called resource owner (nc ∷ ns) [] a w = absurd (omega arith)
length-called resource owner ((n, c) ∷ ns) (later ∷ cs) a w = ap suc (
    length-called resource owner ns cs (with_token n.base (try_acquire resource owner n c).1 a) w.1)

pub won_count :
    (resource owner : Text) (heard : List Bool) (ns : List (Node × Call)) (tokens : Dict ℕ)
    → (attempt resource owner heard ns).1 ≡ some tokens
    → ((attempt resource owner heard ns).0 ≡ (grab resource owner [] ns).0)
      × (quorum_of (length ns) ≤ length (grab resource owner [] ns).1)
unfolding attempt
won_count resource owner heard ns tokens h = ground arith

pub lost_count :
    (resource owner : Text) (heard : List Bool) (ns : List (Node × Call))
    → length (grab resource owner [] ns).1 < quorum_of (length ns)
    → (attempt resource owner heard ns).1 ≡ none
unfolding attempt
lost_count resource owner heard ns h = ground arith
