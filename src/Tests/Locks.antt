-- ===== src/Tests/Locks.antt =====
-- Examples for the lock table of a drive node.
use kerplace.Base.{
  Text, ◌≡◌, refl, ◌≤◌, true, false, List, [], ◌∷◌, none, some, codes, text_eq, lookup, insert,
  arith, ltb, ◌&&◌,
}
use kerplace.Cluster.LockTable.{
  LockTable, acquire, release, fence_ok, gc, slot_of, held_by_other, granted,
}
use kerplace.Cluster.Quorum.{
  Node, Call, answered, answer_lost, request_lost, attempt, grab, try_acquire, quorum_of, called,
  WithinLease,
}
use kerplace.Cluster.Holding.{Attempt, after_attempts, attempt_exclusive}
use kerplace.Cluster.Fencing.{
  LockOp, acquires, releases, run, run_op, token_of, IsSmall, acquire_excluded, stale_fenced,
}

-- `a` had the lock with token 3 until the time 100.
abbrev held_once : LockTable
held_once = (codes "b/k", record { owner = codes "a"; expiry = 100; token = 3 }) ∷ []

fresh_grant : (acquire (codes "b/k") (codes "c") 150 50 held_once).1 ≡ some 4
unfolding acquire gc slot_of held_by_other granted lookup text_eq
fresh_grant = refl

not_a_refresh :
    (text_eq (slot_of (codes "b/k") 150 held_once).owner (codes "c")
      && ltb 150 (slot_of (codes "b/k") 150 held_once).expiry)
    ≡ false
unfolding slot_of lookup text_eq
not_a_refresh = refl

token_three : 3 ≤ token_of (codes "b/k") held_once
unfolding token_of lookup text_eq
token_three = omega arith

abbrev later : List LockOp
later = releases (codes "b/k") (codes "c") ∷ []

IsSmall-later : IsSmall later (acquire (codes "b/k") (codes "c") 150 50 held_once).0
unfolding IsSmall run_op release acquire gc slot_of held_by_other granted lookup insert text_eq
IsSmall-later = (omega arith, omega arith)

stale_fenced_example :
    (fence_ok (codes "b/k") 3 (run later (acquire (codes "b/k") (codes "c") 150 50 held_once).0)
      ≡ false)
    × (fence_ok (codes "b/k") 4 (acquire (codes "b/k") (codes "c") 150 50 held_once).0 ≡ true)
stale_fenced_example =
    stale_fenced (codes "b/k") (codes "c") 150 50 held_once 3 4 later (omega arith) token_three
      fresh_grant not_a_refresh IsSmall-later

c_not_d : text_eq (codes "c") (codes "d") ≡ false
unfolding text_eq
c_not_d = refl

acquire_excluded_example :
    ((acquire
        (codes "b/k")
        (codes "d")
        160
        50
        (acquire (codes "b/k") (codes "c") 150 50 held_once).0).1
      ≡ none)
    × (lookup
          (codes "b/k")
          (acquire
            (codes "b/k")
            (codes "d")
            160
            50
            (acquire (codes "b/k") (codes "c") 150 50 held_once).0).0
        ≡ some (record { owner = codes "c"; expiry = 200; token = 4 }))
acquire_excluded_example =
    acquire_excluded (codes "b/k") (codes "c") (codes "d") 150 160 50 50 held_once 4 fresh_grant
      refl c_not_d (omega arith)

IsSmall-from_start : IsSmall (acquires (codes "b/k") (codes "c") 150 50 ∷ later) held_once
unfolding IsSmall run_op
IsSmall-from_start = (omega arith, IsSmall-later)

abbrev node : Text → Node
node base = record { base = base; table = [] }

-- the second node's answer is lost
abbrev three_nodes : List (Node × Call)
three_nodes =
    (node (codes "n1"), record { now = 5; link = answered })
    ∷ (node (codes "n2"), record { now = 7; link = answer_lost })
    ∷ (node (codes "n3"), record { now = 6; link = answered })
    ∷ []

abbrev second_calls : List Call
second_calls =
    record { now = 900; link = answered }
    ∷ record { now = 900; link = answered }
    ∷ record { now = 900; link = request_lost }
    ∷ []

won_by_c :
    (attempt (codes "b/k") (codes "c") [] three_nodes).1
    ≡ some ((codes "n1", 1) ∷ (codes "n3", 1) ∷ [])
unfolding attempt grab try_acquire acquire gc slot_of held_by_other granted lookup insert text_eq
    quorum_of
won_by_c = refl

WithinLease-second_calls : WithinLease three_nodes second_calls
unfolding WithinLease
WithinLease-second_calls = (omega arith, (omega arith, (omega arith, omega arith)))

-- `e` has tried in between, and its releases have arrived.
abbrev tried : List Attempt
tried = record { owner = codes "e"; heard = true ∷ true ∷ true ∷ []; calls = second_calls } ∷ []

c_not_e : text_eq (codes "c") (codes "e") ≡ false
unfolding text_eq
c_not_e = refl

attempt_exclusive_example :
    (attempt (codes "b/k") (codes "d") [] (
      called
        (after_attempts (codes "b/k") tried (attempt (codes "b/k") (codes "c") [] three_nodes).0)
        second_calls)).1
    ≡ none
attempt_exclusive_example =
    attempt_exclusive (codes "b/k") (codes "c") (codes "d") [] [] three_nodes tried second_calls
      ((codes "n1", 1) ∷ (codes "n3", 1) ∷ []) refl c_not_d (c_not_e, WithinLease-second_calls, tt)
      WithinLease-second_calls won_by_c
