-- ===== src/Erasure/Undelete.antt =====
-- A delete and the removal of its marker, for src/erasure/store.rs.
use kerplace.Base.{
  Text, ℕ, ◌≡◌, refl, sym, ap, ◌∙◌, ◌≤◌, true, false, List, [], ◌∷◌, map, none, some, text_eq,
  text_eq_refl, any, arith, lookup, Dict, remove-insert, lookup-insert_self, position,
}
use kerplace.Error.{ok}
use kerplace.Audit.{AuditContext}
use kerplace.Erasure.Drives.{
  VEntry, VHistory, Files, no_files, Drive, read_history, put_history, meta_write_all,
  write_history, has_history,
}
use kerplace.Erasure.Versions.{
  enabled, demote, promote, marker, make_room, purge_null, insert_marker, delete_object,
  delete_object_version, seed_legacy_history, find_version, moved,
}
use kerplace.Erasure.History.{IsNewest, bumped, read_written}

-- What the steps of a delete leave alone on a drive.
record Keeps (f : Drive → Drive) : Type 0 where
  same_history : (d : Drive) → (f d).history ≡ d.history
  same_up : (d : Drive) → (f d).up ≡ d.up

IsNewest-map :
    (f : Drive → Drive) (k : Keeps f) (h : VHistory) (ds : List Drive)
    → IsNewest h ds
    → IsNewest h (map f ds)
unfolding IsNewest
IsNewest-map f k h [] n = n
IsNewest-map f k h (d ∷ ds) n = (rw (k.same_history d) n.0, IsNewest-map f k h ds n.1)

IsNewest-put :
    (h : VHistory) (ds : List Drive)
    → IsNewest h ds
    → IsNewest (bumped h) (map (put_history (bumped h)) ds)
unfolding IsNewest put_history
IsNewest-put h [] n = n
IsNewest-put h (d ∷ ds) n = (ground (arith, n.0), IsNewest-put h ds n.1)

any-map :
    (f : Drive → Drive)
    → ((d : Drive) → (f d).up ≡ d.up)
    → (ds : List Drive) → any (λ d. d.up) (map f ds) ≡ any (λ d. d.up) ds
unfolding any
any-map f k [] = refl
any-map f k (d ∷ ds) = rw (k d, any-map f k ds)

put_up : (h : VHistory) (d : Drive) → (put_history h d).up ≡ d.up
unfolding put_history
put_up h d = ground arith

demote-Keeps : (vid : Text) → Keeps (demote vid)
unfolding demote
demote-Keeps vid = record { same_history = λ d. ground arith; same_up = λ d. ground arith }

promote-Keeps : (vid : Text) → Keeps (promote vid)
unfolding promote
promote-Keeps vid = record { same_history = λ d. ground arith; same_up = λ d. ground arith }

-- The files of the key on a drive, but for the history.
abbrev pub files_of : Drive → Files × Dict Files
files_of d = (d.current, d.archive)

-- No drive has files under a version id in the archive.
unfoldable pub IsUnarchived : Text → List Drive → Type 0
IsUnarchived vid [] = 0 ≤ 0
IsUnarchived vid (d ∷ ds) = (lookup vid d.archive ≡ none) × IsUnarchived vid ds

there_and_back :
    (vid : Text) (g h : VHistory) (d : Drive)
    → lookup vid d.archive ≡ none
    → files_of (put_history h (promote vid (put_history g (demote vid d)))) ≡ files_of d
unfolding put_history promote demote
there_and_back vid g h d e =
    let fs = moved d.current no_files in
    ground (arith, lookup-insert_self vid fs d.archive, remove-insert vid fs d.archive e)

all_there_and_back :
    (vid : Text) (g h : VHistory) (ds : List Drive)
    → IsUnarchived vid ds
    → map files_of
        (map (put_history h) (map (promote vid) (map (put_history g) (map (demote vid) ds))))
      ≡ map files_of ds
unfolding IsUnarchived
all_there_and_back vid g h [] e = refl
all_there_and_back vid g h (d ∷ ds) e =
    rw (there_and_back vid g h d e.0, all_there_and_back vid g h ds e.1)

has_put :
    (h : VHistory) (ds : List Drive)
    → any (λ d. d.up) ds ≡ true
    → has_history (map (put_history h) ds) ≡ true
unfolding has_history any put_history
has_put h [] u = cc
has_put h (d ∷ ds) u = ground (arith, has_put h ds)

seed_has : (ds : List Drive) → has_history ds ≡ true → seed_legacy_history ds ≡ (ds, ok tt)
unfolding seed_legacy_history
seed_has ds h = rw h

write_up :
    (h : VHistory) (ds : List Drive)
    → any (λ d. d.up) ds ≡ true
    → write_history h ds ≡ (map (put_history (bumped h)) ds, ok tt)
unfolding write_history meta_write_all
write_up h ds u = rw u

any_demoted :
    (vid : Text) (ds : List Drive)
    → any (λ d. d.up) ds ≡ true
    → any (λ d. d.up) (map (demote vid) ds) ≡ true
any_demoted vid ds u = any-map (demote vid) (demote-Keeps vid).same_up ds ∙ u

-- The history that a delete writes, and the drives it leaves.
abbrev with_marker : AuditContext → Text → ℕ → VHistory → VHistory
with_marker ctx fresh now h = record h { versions = marker ctx fresh now ∷ h.versions }

abbrev marked : AuditContext → Text → ℕ → VHistory → Text → List Drive → List Drive
marked ctx fresh now h vid ds =
    map (put_history (bumped (with_marker ctx fresh now h))) (map (demote vid) ds)

make_room_enabled :
    (h : VHistory) (ds : List Drive) (v : VEntry) (vs : List VEntry)
    → h.versions ≡ v ∷ vs
    → v.delete_marker ≡ false
    → make_room enabled h ds ≡ (map (demote v.version_id) ds, h)
unfolding make_room purge_null
make_room_enabled h ds v vs r m = rw (r, m)

delete_marks :
    (ctx : AuditContext) (fresh : Text) (now : ℕ) (ds : List Drive) (v : VEntry) (vs : List VEntry)
    → has_history ds ≡ true
    → any (λ d. d.up) ds ≡ true
    → (read_history ds).versions ≡ v ∷ vs
    → v.delete_marker ≡ false
    → delete_object ctx enabled fresh now ds ≡ (
      marked ctx fresh now (read_history ds) v.version_id ds,
      ok (record { version_id = some fresh; delete_marker = true }),
    )
unfolding delete_object insert_marker
delete_marks ctx fresh now ds v vs has u r m =
    let written =
      write_up (with_marker ctx fresh now (read_history ds)) (map (demote v.version_id) ds)
        (any_demoted v.version_id ds u) in
    rw (seed_has ds has, make_room_enabled (read_history ds) ds v vs r m, written)

find_first :
    (vid : Text) (v : VEntry) (vs : List VEntry)
    → text_eq v.version_id vid ≡ true
    → find_version vid (v ∷ vs) ≡ some (0, v)
unfolding find_version position
find_first vid v vs h = ground arith

IsNewest-same :
    (h g : VHistory) (ds : List Drive) → h.epoch ≡ g.epoch → IsNewest h ds → IsNewest g ds
unfolding IsNewest
IsNewest-same h g [] e n = n
IsNewest-same h g (d ∷ ds) e n = (ground (arith, n.0), IsNewest-same h g ds e n.1)

-- Taking back the newest entry, a marker, in front of a real version.
unmark :
    (ctx : AuditContext) (fresh : Text) (now : ℕ) (ds : List Drive) (v : VEntry) (vs : List VEntry)
    → has_history ds ≡ true
    → any (λ d. d.up) ds ≡ true
    → (read_history ds).versions ≡ marker ctx fresh now ∷ v ∷ vs
    → v.delete_marker ≡ false
    → delete_object_version fresh ds ≡ (
      map
          (put_history (bumped (record (read_history ds) { versions = v ∷ vs })))
          (map (promote v.version_id) ds),
      ok (record { version_id = some fresh; delete_marker = true }),
    )
unfolding delete_object_version
unmark ctx fresh now ds v vs has u e m =
    let found : find_version fresh (read_history ds).versions ≡ some (0, marker ctx fresh now) =
      rw e (find_first fresh (marker ctx fresh now) (v ∷ vs) (text_eq_refl fresh)) in
    let up = any-map (promote v.version_id) (promote-Keeps v.version_id).same_up ds ∙ u in
    let written =
      write_up (record (read_history ds) { versions = v ∷ vs }) (map (promote v.version_id) ds)
        up in
    rw (seed_has ds has) (ground (arith, written))

-- Deleting the newest version of a key in a versioned bucket and then the delete marker puts
-- everything back: the history lists the marker in front of the old entries in between, and
-- afterwards the old entries, and every drive has the files it had, where a drive that cannot be
-- reached has kept them throughout. The newest entry is a real version, no file is archived under
-- its id, some drive can be reached, and no copy of the history is newer than the one that is read.
pub delete_undone :
    (ctx : AuditContext) (fresh : Text) (now : ℕ) (ds : List Drive) (v : VEntry) (vs : List VEntry)
    → has_history ds ≡ true
    → any (λ d. d.up) ds ≡ true
    → IsNewest (read_history ds) ds
    → (read_history ds).versions ≡ v ∷ vs
    → v.delete_marker ≡ false
    → IsUnarchived v.version_id ds
    → (deleted : List Drive) × (back : List Drive) × (delete_object ctx enabled fresh now ds
        ≡ (deleted, ok (record { version_id = some fresh; delete_marker = true })))
      × ((read_history deleted).versions ≡ marker ctx fresh now ∷ v ∷ vs)
      × (delete_object_version fresh deleted
          ≡ (back, ok (record { version_id = some fresh; delete_marker = true })))
      × ((read_history back).versions ≡ v ∷ vs)
      × (map files_of back ≡ map files_of ds)
delete_undone ctx fresh now ds v vs has u n r m a =
    let id = v.version_id in
    let h = read_history ds in
    let g = with_marker ctx fresh now h in
    let room = map (demote id) ds in
    let roomy = any_demoted id ds u in
    let fits : IsNewest g room =
      IsNewest-map (demote id) (demote-Keeps id) g ds (IsNewest-same h g ds refl n) in
    let deleted = map (put_history (bumped g)) room in
    let reads = read_written g room fits roomy in
    let there = any-map (put_history (bumped g)) (put_up (bumped g)) room ∙ roomy in
    let e : (bumped g).versions ≡ marker ctx fresh now ∷ v ∷ vs =
      ap (◌∷◌ (marker ctx fresh now)) r in
    let w : VHistory = record { versions = v ∷ vs; epoch = (read_history deleted).epoch } in
    let again = map (promote id) deleted in
    let kept = IsNewest-map (promote id) (promote-Keeps id) w deleted (
      IsNewest-same (bumped g) w deleted (ap (λ (x : VHistory). x.epoch) (sym reads))
        (IsNewest-put g room fits)) in
    (
      deleted,
      map (put_history (bumped w)) again,
      delete_marks ctx fresh now ds v vs has u r m,
      ap (λ (x : VHistory). x.versions) reads ∙ e,
      unmark ctx fresh now deleted v vs (has_put (bumped g) room roomy) there
          (ap (λ (x : VHistory). x.versions) reads ∙ e) m,
      ap (λ (x : VHistory). x.versions)
          (read_written w again kept
            (any-map (promote id) (promote-Keeps id).same_up deleted ∙ there)),
      all_there_and_back id (bumped g) (bumped w) ds a,
    )
