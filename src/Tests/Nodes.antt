-- ===== src/Tests/Nodes.antt =====
-- Examples for the retries of the quorum lock and the requests of a drive node.
use kerplace.Base.{
  ℕ, ◌≡◌, refl, ◌≤◌, ◌*◌, ◌&&◌, true, false, List, [], ◌∷◌, none, some, codes, text_eq, lookup,
  insert, arith, ltb, length, strip_prefix, parse_unsigned, parse_digits, digit_value, after_sign,
  done,
}
use kerplace.Cluster.LockTable.{LockTable, acquire, release, gc, slot_of, held_by_other, granted}
use kerplace.Cluster.Fencing.{token_of}
use kerplace.Cluster.Quorum.{Node, answered, quorum_of}
use kerplace.Cluster.Waiting.{Round, lock_set_acquire}
use kerplace.Cluster.Leases.{clear_nodes, heard_after, bases, distinct}
use kerplace.Cluster.Liveness.{AreBystanders, lock_set_acquire_wins}
use kerplace.Cluster.Server.{
  DriveCalls, DriveState, Headers, bare, Request, put_file, lock_acquire, lock_release,
  header_token, serve, drive_request,
}
use kerplace.Cluster.Refusal.{requests, StaySmall, is_write, stale_write_refused}

-- A holder that is gone had the lock on both nodes until the time 100.
abbrev left_behind : LockTable
left_behind = (codes "b/k", record { owner = codes "gone"; expiry = 100; token = 3 }) ∷ []

abbrev two_nodes : List Node
two_nodes =
    record { base = codes "n1"; table = left_behind }
    ∷ record { base = codes "n2"; table = left_behind }
    ∷ []

-- The attempts are forty apart, and no release arrives.
abbrev rounds : ℕ → Round
rounds i = record {
  calls = record { now = 40 * i; link = answered } ∷ record { now = 40 * i; link = answered } ∷ [];
  heard = false ∷ false ∷ [];
  others = λ ns. ns;
}

nobody_else : AreBystanders (codes "b/k") (codes "c") 100 rounds 2
nobody_else = record { calls_all = λ i. refl; keep_clear = λ i ns h. h; keep_nodes = λ i ns. refl }

clear_by_then : clear_nodes (codes "b/k") (codes "c") 100 two_nodes ≡ true
unfolding clear_nodes text_eq
clear_by_then = refl

two_names : distinct (bases two_nodes) ≡ true
unfolding distinct bases text_eq
two_names = refl

heard_by_both : quorum_of 2 ≤ heard_after 100 (rounds 3).calls
unfolding quorum_of heard_after
heard_by_both = omega arith

lock_set_acquire_wins_example :
    ((lock_set_acquire (codes "b/k") (codes "c") rounds (some two_nodes)).1.dist ≡ some (codes "c"))
    × (quorum_of (length two_nodes)
        ≤ length (lock_set_acquire (codes "b/k") (codes "c") rounds (some two_nodes)).1.tokens)
lock_set_acquire_wins_example =
    lock_set_acquire_wins (codes "b/k") (codes "c") 100 rounds two_nodes 3 nobody_else clear_by_then
      two_names (omega arith) heard_by_both

-- A drive that holds the bytes of the last file written.
abbrev toy_drive : DriveCalls (List ℕ)
toy_drive = record {
  read_at = λ p offset len d. done d;
  open_file = λ p d. done d;
  create = λ p d. ([], none);
  copy_all = λ p body d. (body, none);
  remove_file = λ p d. ([], none);
  remove_dir = λ p d. (d, none);
  remove_dir_all = λ p d. ([], none);
  create_dir_all = λ p d. (d, none);
  rename = λ a b d. (d, none);
  stat = λ p d. done [];
  read_dir = λ p d. done [];
  walk = λ p d. done [];
}

abbrev drive_node : DriveState (List ℕ)
drive_node = record { drive = 7 ∷ []; secret = codes "s"; locks = left_behind }

abbrev plain : Headers
plain = record {
  authorization = some (codes "Bearer s");
  range = none;
  fence_resource = none;
  fence_token = none;
}

abbrev carrying_three : Headers
carrying_three = record plain {
  fence_resource = some (codes "b/k");
  fence_token = some (codes "3");
}

abbrev digit : ℕ → List ℕ
digit n = n ∷ []

abbrev released : List (Headers × ℕ × Request)
released = (plain, 160, lock_release (codes "b/k") (codes "c")) ∷ []

fourth_token : (acquire (codes "b/k") (codes "c") 150 (1 * 1000000) drive_node.locks).1 ≡ some 4
unfolding acquire gc slot_of held_by_other granted lookup text_eq
fourth_token = refl

no_refresh :
    (text_eq (slot_of (codes "b/k") 150 drive_node.locks).owner (codes "c")
      && ltb 150 (slot_of (codes "b/k") 150 drive_node.locks).expiry)
    ≡ false
unfolding slot_of lookup text_eq
no_refresh = refl

third_token : 3 ≤ token_of (codes "b/k") drive_node.locks
unfolding token_of lookup text_eq
third_token = omega arith

few_slots :
    StaySmall toy_drive digit
      (serve toy_drive drive_node plain 150 digit (lock_acquire (codes "b/k") (codes "c") 1)).0
      released
unfolding StaySmall drive_request serve acquire gc slot_of held_by_other granted lookup insert
    text_eq strip_prefix release
few_slots = (omega arith, omega arith)

reads_three : header_token (some (codes "3")) ≡ some 3
unfolding parse_unsigned parse_digits digit_value after_sign
reads_three = refl

put_writes : is_write (put_file (codes "b/k") (1 ∷ [])) ≡ true
unfolding is_write
put_writes = refl

stale_write_refused_example :
    (serve toy_drive drive_node plain 150 digit (lock_acquire (codes "b/k") (codes "c") 1)).1
      ≡ record { status = 200; body = digit 4 }
    × (let after =
          requests toy_drive digit
            (serve toy_drive drive_node plain 150 digit
              (lock_acquire (codes "b/k") (codes "c") 1)).0
            released in
        serve toy_drive after carrying_three 170 digit (put_file (codes "b/k") (1 ∷ []))
        ≡ (after, bare 412))
stale_write_refused_example =
    stale_write_refused toy_drive digit drive_node plain carrying_three (codes "b/k") (codes "c") 1
      150 170 released 3 4 (put_file (codes "b/k") (1 ∷ [])) (omega arith) third_token fourth_token
      no_refresh few_slots refl reads_three put_writes
