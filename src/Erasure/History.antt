-- ===== src/Erasure/History.antt =====
-- The replicated history across drives that come and go, for src/erasure/store.rs.
use kerplace.Base.{
  ◌≡◌, refl, ap, ◌∙◌, ◌≤◌, ◌+◌, Bool, true, false, ◌&&◌, ◌||◌, List, [], ◌∷◌, map, Option, none,
  some, any, arith,
}
use kerplace.Erasure.Drives.{
  VHistory, Drive, copies, best_of, read_history, put_history, meta_write_all, write_history,
}

-- The drives at a later time, of which those that the list says can be reached.
unfoldable pub set_up : List Bool → List Drive → List Drive
set_up [] ds = ds
set_up (u ∷ ups) [] = []
set_up (u ∷ ups) (d ∷ ds) = record d { up = u } ∷ set_up ups ds

-- Some drive can be reached at both times.
unfoldable pub both_up : List Bool → List Drive → Bool
both_up ups [] = false
both_up [] (d ∷ ds) = d.up || both_up [] ds
both_up (u ∷ ups) (d ∷ ds) = d.up && u || both_up ups ds

-- No drive, reachable or not, has a copy with a higher epoch.
abbrev pub NotNewer : VHistory → Option VHistory → Type 0
NotNewer h none = 0 ≤ 0
NotNewer h (some x) = x.epoch ≤ h.epoch

unfoldable pub IsNewest : VHistory → List Drive → Type 0
IsNewest h [] = 0 ≤ 0
IsNewest h (d ∷ ds) = NotNewer h d.history × IsNewest h ds

abbrev pub bumped : VHistory → VHistory
bumped h = record h { epoch = h.epoch + 1 }

best_kept :
    (h : VHistory) (ups : List Bool) (ds : List Drive)
    → IsNewest h ds
    → best_of (some (bumped h)) (copies (set_up ups (map (put_history (bumped h)) ds)))
      ≡ some (bumped h)
unfolding best_of copies set_up put_history IsNewest
best_kept h [] [] n = refl
best_kept h (u ∷ ups) [] n = refl
best_kept h [] (d ∷ ds) n = ground (arith, best_kept h [] ds)
best_kept h (u ∷ ups) (d ∷ ds) n = ground (arith, best_kept h ups ds)

best_found :
    (h : VHistory) (best : Option VHistory) (ups : List Bool) (ds : List Drive)
    → IsNewest h ds
    → NotNewer h best
    → both_up ups ds ≡ true
    → best_of best (copies (set_up ups (map (put_history (bumped h)) ds))) ≡ some (bumped h)
unfolding best_of copies set_up put_history IsNewest both_up
best_found h best ups [] n o b = cc
best_found h best [] (d ∷ ds) n o b =
    let found = (λ (x : Option VHistory). best_found h x [] ds) in
    grind (arith, best_kept h [] ds, found)
best_found h best (u ∷ ups) (d ∷ ds) n o b =
    let found = (λ (x : Option VHistory). best_found h x ups ds) in
    grind (arith, best_kept h ups ds, found)

any_both : (ds : List Drive) → both_up [] ds ≡ any (λ d. d.up) ds
unfolding both_up any
any_both [] = refl
any_both (d ∷ ds) = ap (◌||◌ d.up) (any_both ds)

-- A written history is what a later read finds, with its epoch one higher, if it is at least as new
-- as every copy: whichever drives were away and come back with an older copy, and whichever go
-- away, as long as one drive can be reached at both times.
pub read_history-write_history :
    (h : VHistory) (ups : List Bool) (ds : List Drive)
    → IsNewest h ds
    → both_up ups ds ≡ true
    → read_history (set_up ups (write_history h ds).0) ≡ record h { epoch = h.epoch + 1 }
unfolding read_history write_history meta_write_all
read_history-write_history h ups ds n b = rw (best_found h none ups ds n (omega arith) b)

pub read_written :
    (h : VHistory) (ds : List Drive)
    → IsNewest h ds
    → any (λ d. d.up) ds ≡ true
    → read_history (map (put_history (bumped h)) ds) ≡ bumped h
unfolding read_history
read_written h ds n u =
    let e : best_of none (copies (map (put_history (bumped h)) ds)) ≡ some (bumped h) =
      unfold set_up in best_found h none [] ds n (omega arith) (any_both ds ∙ u) in
    ground arith
