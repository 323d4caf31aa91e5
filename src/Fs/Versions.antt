-- ===== src/Fs/Versions.antt =====
-- src/storage/fs.rs: the history of a key, and the moves between the object's place and the archive
-- of its versions.
use kerplace.Base.{
  Text, ℕ, Bool, true, false, not, ◌&&◌, ◌==◌, if◌then◌else◌, [], ◌∷◌, Option, none, some, codes,
  text_eq, unwrap_or, is_some, position, remove_at, get_elem?,
}
use kerplace.Error.{Result, ok, err}
use kerplace.Erasure.Versions.{VMode, off, enabled, suspended, vmode}
use kerplace.Fs.Tree.{
  FileSystem, parent, object_path, meta_path, bucket_cfg_file, history_path, version_data_path,
  version_meta_path,
}
use kerplace.Calls.{Call, pure, try, ignoring, encoded, reading, ◌>>=◌, ◌>>◌}
use kerplace.Fs.Files.{
  StoredMeta, VersionEntry, VersionHistory, FsStore, Fresh, decoded, read_stored,
}

abbrev pub mode_of : Option (Option Text) → VMode
mode_of none = off
mode_of (some none) = off
mode_of (some (some status)) = vmode status

abbrev is_null : VersionEntry → Bool
is_null v = text_eq v.version_id (codes "null")

abbrev has_current : VersionHistory → Bool
has_current [] = false
has_current (v ∷ _) = not v.delete_marker

abbrev legacy_entry : StoredMeta → VersionEntry
legacy_entry m = record {
  version_id = codes "null";
  delete_marker = false;
  last_modified = m.last_modified;
  etag = m.etag;
  size = m.size;
}

abbrev vid_for : VMode → Fresh → Text
vid_for enabled fresh = fresh.version_id
vid_for _ fresh = codes "null"

module _ {S : Type 0} (fs : FileSystem S) (st : FsStore) where
  unfoldable pub versioning_mode : Text → S → VMode
  unfolding bucket_cfg_file vmode
  versioning_mode bucket s = mode_of (
      decoded st.json.status_of
        (fs.read s (bucket_cfg_file st.root bucket (codes "versioning.json"))))

  unfoldable pub read_history : Text → Text → S → VersionHistory
  unfolding history_path
  read_history bucket key s =
      unwrap_or (decoded st.json.decode_history (fs.read s (history_path st.root bucket key))) []

  unfoldable pub write_history : Text → Text → VersionHistory → Call S (Unit {0})
  unfolding history_path
  write_history bucket key hist = do
    let path = history_path st.root bucket key
    try (codes "mkdir versions: ") (fs.create_dir_all (parent path))
    bytes ← encoded (codes "encode history: ") (st.json.encode_history hist)
    try (codes "write history: ") (fs.write path bytes)

  unfoldable pub has_history : Text → Text → S → Bool
  unfolding history_path
  has_history bucket key s = is_some (fs.metadata s (history_path st.root bucket key))

  abbrev seeded : Text → Text → Result StoredMeta → Call S (Unit {0})
  seeded bucket key (err e) = pure tt
  seeded bucket key (ok stored) = write_history bucket key (legacy_entry stored ∷ [])

  unfoldable pub seed_legacy_history : Text → Text → Fresh → Call S (Unit {0})
  unfolding has_history read_stored write_history
  seed_legacy_history bucket key fresh s =
      if has_history bucket key s
      then (s, ok tt)
      else seeded bucket key (read_stored fs st bucket key fresh.now s) s

  unfoldable pub demote_canonical_to_archive : Text → Text → Text → Call S (Unit {0})
  unfolding object_path meta_path version_data_path version_meta_path
  demote_canonical_to_archive bucket key vid = do
    let dst = version_data_path st.root bucket key vid
    try (codes "mkdir archive: ") (fs.create_dir_all (parent dst))
    try (codes "archive payload: ") (fs.rename (object_path st.root bucket key) dst)
    ignoring (fs.rename (meta_path st.root bucket key) (version_meta_path st.root bucket key vid))

  unfoldable pub promote_archive_to_canonical : Text → Text → Text → Call S (Unit {0})
  unfolding object_path meta_path version_data_path version_meta_path
  promote_archive_to_canonical bucket key vid = do
    let dst = object_path st.root bucket key
    try (codes "mkdir bucket: ") (fs.create_dir_all (parent dst))
    try (codes "promote payload: ") (fs.rename (version_data_path st.root bucket key vid) dst)
    ignoring (fs.rename (version_meta_path st.root bucket key vid) (meta_path st.root bucket key))

  unfoldable pub discard_canonical : Text → Text → Call S (Unit {0})
  unfolding object_path meta_path
  discard_canonical bucket key = do
    ignoring (fs.remove_file (object_path st.root bucket key))
    ignoring (fs.remove_file (meta_path st.root bucket key))

  unfoldable pub remove_archive : Text → Text → Text → Call S (Unit {0})
  unfolding version_data_path version_meta_path
  remove_archive bucket key vid = do
    ignoring (fs.remove_file (version_data_path st.root bucket key vid))
    ignoring (fs.remove_file (version_meta_path st.root bucket key vid))

  -- The purge of a prior `null` version at a place of the history: what is left of the history, and
  -- whether its head still holds the canonical place.
  abbrev purged_at :
      Text → Text → VersionHistory → ℕ → Option VersionEntry → Call S (VersionHistory × Bool)
  purged_at bucket key hist idx none = pure (hist, has_current hist)
  purged_at bucket key hist idx (some v) =
      if (idx == 0) && has_current hist
      then discard_canonical bucket key >> pure (remove_at hist idx, false)
      else if not v.delete_marker
      then remove_archive bucket key (codes "null") >> pure (remove_at hist idx, has_current hist)
      else pure (remove_at hist idx, has_current hist)

  abbrev purged_where : Text → Text → VersionHistory → Option ℕ → Call S (VersionHistory × Bool)
  purged_where bucket key hist none = pure (hist, has_current hist)
  purged_where bucket key hist (some idx) = purged_at bucket key hist idx (get_elem? hist idx)

  unfoldable pub purge_null : Text → Text → VMode → VersionHistory → Call S (VersionHistory × Bool)
  unfolding discard_canonical remove_archive position text_eq
  purge_null bucket key suspended hist = purged_where bucket key hist (position is_null hist)
  purge_null bucket key off hist = pure (hist, has_current hist)
  purge_null bucket key enabled hist = pure (hist, has_current hist)

  abbrev demote_head : Text → Text → Bool → VersionHistory → Call S (Unit {0})
  demote_head bucket key false hist = pure tt
  demote_head bucket key true [] = pure tt
  demote_head bucket key true (v ∷ _) = demote_canonical_to_archive bucket key v.version_id

  -- What `begin_versioned_write` and a versioned delete do before the new entry: the history
  -- without it.
  unfoldable pub clear_canonical : Text → Text → VMode → Fresh → Call S VersionHistory
  unfolding seed_legacy_history read_history purge_null demote_canonical_to_archive
  clear_canonical bucket key mode fresh = do
    seed_legacy_history bucket key fresh
    hist ← reading (λ s. ok (read_history bucket key s))
    (left, occupied) ← purge_null bucket key mode hist
    demote_head bucket key occupied left
    pure left

  unfoldable pub begin_versioned_write :
      Text → Text → VMode → Fresh → Call S (Text × VersionHistory)
  unfolding clear_canonical
  begin_versioned_write bucket key mode fresh = do
    hist ← clear_canonical bucket key mode fresh
    pure (vid_for mode fresh, hist)

  unfoldable pub finish_versioned_write :
      Text → Text → VersionHistory → Text → Text → ℕ → ℕ → Call S (Unit {0})
  unfolding write_history
  finish_versioned_write bucket key hist vid etag size last_modified = write_history bucket key (
      record {
        version_id = vid;
        delete_marker = false;
        last_modified = last_modified;
        etag = etag;
        size = size;
      }
      ∷ hist)

  -- The versioned branch of `delete_object`: the marker's version id.
  unfoldable pub mark_deleted : Text → Text → VMode → Fresh → Call S Text
  unfolding clear_canonical write_history
  mark_deleted bucket key mode fresh = do
    hist ← clear_canonical bucket key mode fresh
    write_history bucket key (
        record {
          version_id = vid_for mode fresh;
          delete_marker = true;
          last_modified = fresh.now;
          etag = [];
          size = 0;
        }
        ∷ hist)
    pure (vid_for mode fresh)
