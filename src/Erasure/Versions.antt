-- ===== src/Erasure/Versions.antt =====
-- src/erasure/store.rs: versioned writes and deletes of one key, over its files on every drive. The
-- random version id, the clock and the audit context are arguments. A delete that empties the key
-- also prunes directories, which holds no state of the key.
use kerplace.Base.{
  Text, ℕ, zero, suc, Bool, true, false, not, ◌&&◌, ◌==◌, if◌then◌else◌, List, [], ◌∷◌, map, Option,
  none, some, codes, text_eq, insert, remove, lookup, position, remove_at, get_elem?, unwrap_or,
}
use kerplace.Error.{Result, ok, err, no_such_key, no_such_version, method_not_allowed}
use kerplace.Storage.{DeleteOutcome, no_outcome}
use kerplace.Audit.{AuditContext}
use kerplace.Erasure.Drives.{
  VEntry, VHistory, XlMeta, Files, no_files, Drive, read_history, write_history, has_history,
}

pub data VMode : Type 0 where
  off enabled suspended : VMode

unfoldable pub vmode : Text → VMode
unfolding text_eq
vmode status =
    if text_eq status (codes "Enabled")
    then enabled
    else if text_eq status (codes "Suspended")
    then suspended
    else off

abbrev move_xl : Option XlMeta → Option XlMeta → Option XlMeta
move_xl none dst = dst
move_xl (some m) dst = some m

abbrev move_part : Option (List ℕ) → Option (List ℕ) → Option (List ℕ)
move_part none dst = dst
move_part (some b) dst = some b

-- two renames: a file that is there replaces the other, one that is missing does not
abbrev pub moved : Files → Files → Files
moved src dst = record { xl = move_xl src.xl dst.xl; part = move_part src.part dst.part }

-- The four moves, on one drive.
unfoldable pub demote : Text → Drive → Drive
demote vid d =
    if d.up
    then record d {
      archive = insert vid (moved d.current (unwrap_or (lookup vid d.archive) no_files)) d.archive;
      current = no_files;
    }
    else d

unfoldable pub promote : Text → Drive → Drive
promote vid d =
    if d.up
    then elim (lookup vid d.archive) [
      | none ↦ d
      | some f ↦ record d { current = moved f d.current; archive = remove vid d.archive }
    ]
    else d

unfoldable pub discard : Drive → Drive
discard d = if d.up then record d { current = no_files } else d

unfoldable pub unarchive : Text → Drive → Drive
unarchive vid d = if d.up then record d { archive = remove vid d.archive } else d

-- `remove_dir_all` of the key's directory
unfoldable pub wipe : Drive → Drive
wipe d = if d.up then record d { current = no_files; archive = []; history = none } else d

abbrev is_here : Text → VEntry → Bool
is_here vid v = text_eq v.version_id vid

-- A call on the drives that may fail.
abbrev pub Call {ℓ} : Type ℓ → Type ℓ
Call A = List Drive × Result A

abbrev pub after {ℓ κ} : {A : Type ℓ} {B : Type κ} → Call A → (List Drive → A → Call B) → Call B
after (ds, ok a) f = f ds a
after (ds, err e) f = (ds, err e)

abbrev xl_at : Option Text → Drive → Option XlMeta
xl_at none d = d.current.xl
xl_at (some vid) d = elim (lookup vid d.archive) [ none ↦ none | some f ↦ f.xl ]

-- `read_xl_v`: the first copy that can be read
unfoldable pub read_xl_v : Option Text → List Drive → Result XlMeta
read_xl_v vid [] = err no_such_key
read_xl_v vid (d ∷ ds) =
    let rest = read_xl_v vid ds in
    if d.up then elim (xl_at vid d) [ none ↦ rest | some m ↦ ok m ] else rest

abbrev legacy_entry : XlMeta → VEntry
legacy_entry m = record {
  version_id = codes "null";
  delete_marker = false;
  last_modified = m.last_modified;
  etag = m.etag;
  size = m.size;
  owner = m.owner;
  src_ip = m.src_ip;
}

unfoldable pub seed_legacy_history : List Drive → Call {0} Unit
seed_legacy_history ds = if has_history ds then (ds, ok tt) else elim (read_xl_v none ds) [
  | err e ↦ (ds, ok tt)
  | ok m ↦ write_history (record { versions = legacy_entry m ∷ []; epoch = 0 }) ds
]

-- whether the newest entry is a real version, which then has the key's current files
abbrev pub is_occupied : List VEntry → Bool
is_occupied [] = false
is_occupied (v ∷ vs) = not v.delete_marker

-- The purge of a `null` version in a suspended bucket: the drives, the entries that are left, and
-- whether the current files are still a version's.
abbrev purge_at : List VEntry → List Drive → Option (ℕ × VEntry) → List Drive × List VEntry × Bool
purge_at vs ds none = (ds, vs, is_occupied vs)
purge_at vs ds (some (idx, v)) =
    if idx == 0 && is_occupied vs
    then (map discard ds, remove_at vs idx, false)
    else if not v.delete_marker
    then (map (unarchive (codes "null")) ds, remove_at vs idx, is_occupied vs)
    else (ds, remove_at vs idx, is_occupied vs)

-- the index and the entry of a version id
unfoldable pub find_version : Text → List VEntry → Option (ℕ × VEntry)
unfolding position text_eq
find_version vid vs = elim (position (is_here vid) vs) [
  | none ↦ none
  | some idx ↦ elim (get_elem? vs idx) [ none ↦ none | some v ↦ some (idx, v) ]
]

unfoldable pub purge_null : VMode → List VEntry → List Drive → List Drive × List VEntry × Bool
purge_null suspended vs ds = purge_at vs ds (find_version (codes "null") vs)
purge_null mode vs ds = (ds, vs, is_occupied vs)

abbrev demote_first : List VEntry → Bool → List Drive → List Drive
demote_first vs false ds = ds
demote_first [] true ds = ds
demote_first (v ∷ vs) true ds = map (demote v.version_id) ds

-- the part that `begin_versioned_write` and `delete_object` share, from the history on
unfoldable pub make_room : VMode → VHistory → List Drive → List Drive × VHistory
make_room mode h ds =
    let (left, vs, occupied) = purge_null mode h.versions ds in
    (demote_first vs occupied left, record h { versions = vs })

abbrev pub version_id_for : VMode → Text → Text
version_id_for suspended fresh = codes "null"
version_id_for mode fresh = fresh

-- `begin_versioned_write`: the new version's id, and the history without it
unfoldable pub begin_versioned_write : VMode → Text → List Drive → Call (Text × VHistory)
begin_versioned_write mode fresh ds = after (seed_legacy_history ds) λ seeded u.
    let (room, h) = make_room mode (read_history seeded) seeded in
    (room, ok (version_id_for mode fresh, h))

-- `finish_versioned_write`
unfoldable pub finish_versioned_write :
    AuditContext → VHistory → Text → Text → ℕ → ℕ → List Drive → Call {0} Unit
finish_versioned_write ctx h vid etag size now ds =
    let entry : VEntry = record {
      version_id = vid;
      delete_marker = false;
      last_modified = now;
      etag = etag;
      size = size;
      owner = ctx.access_key;
      src_ip = ctx.remote_ip;
    } in
    write_history (record h { versions = entry ∷ h.versions }) ds

abbrev pub marker : AuditContext → Text → ℕ → VEntry
marker ctx vid now = record {
  version_id = vid;
  delete_marker = true;
  last_modified = now;
  etag = [];
  size = 0;
  owner = ctx.access_key;
  src_ip = ctx.remote_ip;
}

unfoldable pub insert_marker : AuditContext → VMode → Text → ℕ → List Drive → Call DeleteOutcome
insert_marker ctx mode fresh now ds = after (seed_legacy_history ds) λ seeded u.
    let (room, h) = make_room mode (read_history seeded) seeded in
    let vid = version_id_for mode fresh in
    after (write_history (record h { versions = marker ctx vid now ∷ h.versions }) room)
      λ last v. (last, ok (record { version_id = some vid; delete_marker = true }))

-- `delete_object`, under the key's lock and in a bucket that is there
unfoldable pub delete_object : AuditContext → VMode → Text → ℕ → List Drive → Call DeleteOutcome
delete_object ctx off fresh now ds = (map wipe ds, ok no_outcome)
delete_object ctx mode fresh now ds = insert_marker ctx mode fresh now ds

-- where a version's files are: in the current place for the newest
abbrev place : ℕ → Text → Option Text
place zero vid = none
place (suc i) vid = some vid

-- `head_object_version`, and the part of `get_object_version` before the body
unfoldable pub head_object_version : Text → List Drive → Call XlMeta
head_object_version vid ds = after (seed_legacy_history ds) λ seeded u.
    elim (find_version vid (read_history seeded).versions) [
      | none ↦ (seeded, err no_such_version)
      | some (idx, v) ↦
          if v.delete_marker
          then (seeded, err method_not_allowed)
          else (seeded, read_xl_v (place idx vid) seeded)
    ]

abbrev drop_files : ℕ → VEntry → List Drive → List Drive
drop_files zero v ds = if v.delete_marker then ds else map discard ds
drop_files (suc i) v ds = if v.delete_marker then ds else map (unarchive v.version_id) ds

abbrev promote_first : ℕ → List VEntry → List Drive → List Drive
promote_first (suc i) vs ds = ds
promote_first zero [] ds = ds
promote_first zero (next ∷ vs) ds =
    if next.delete_marker then ds else map (promote next.version_id) ds

abbrev close_history : VHistory → List VEntry → List Drive → Call {0} Unit
close_history h [] ds = (map wipe ds, ok tt)
close_history h (v ∷ vs) ds = write_history (record h { versions = v ∷ vs }) ds

-- `delete_object_version`, under the key's lock and in a bucket that is there
unfoldable pub delete_object_version : Text → List Drive → Call DeleteOutcome
delete_object_version vid ds = after (seed_legacy_history ds) λ seeded u.
    let h = read_history seeded in
    elim (find_version vid h.versions) [
      | none ↦ (seeded, err no_such_version)
      | some (idx, v) ↦
          let vs = remove_at h.versions idx in
          after (close_history h vs (promote_first idx vs (drop_files idx v seeded)))
            λ last w. (last, ok (record { version_id = some vid; delete_marker = v.delete_marker }))
    ]
