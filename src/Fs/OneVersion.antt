-- ===== src/Fs/OneVersion.antt =====
-- src/storage/fs.rs: reads and deletes of one version of a key.
use kerplace.Base.{
  Text, ℕ, zero, suc, Bool, false, ◌==◌, if◌then◌else◌, List, [], ◌∷◌, Option, none, some, codes,
  text_eq, position, remove_at, get_elem?,
}
use kerplace.Error.{Result, ok, err, no_such_version, method_not_allowed}
use kerplace.Storage.{ObjectMeta, DeleteOutcome}
use kerplace.Fs.Tree.{
  FilePath, FileSystem, Stat, object_path, version_data_path, version_meta_path, version_dir,
  versions_root, history_path,
}
use kerplace.Calls.{Call, pure, ignoring, reading, ◌>>=◌, ◌>>◌}
use kerplace.Fs.Files.{
  StoredMeta, VersionEntry, VersionHistory, FsStore, Fresh, decoded, head_bucket, read_stored,
  stored_to_meta,
}
use kerplace.Fs.Versions.{
  seed_legacy_history, read_history, write_history, discard_canonical, remove_archive,
  promote_archive_to_canonical,
}
use kerplace.Fs.Store.{body_of, prune_empty_dirs}

-- What `stat` gives for an archived version without a sidecar.
abbrev archived_meta : Text → ℕ → Stat → StoredMeta
archived_meta vid now m = record {
  etag = [];
  size = m.len;
  content_type = codes "application/octet-stream";
  user_metadata = [];
  last_modified = now;
  encrypted = false;
  version_id = some vid;
}

abbrev version_stored : Option StoredMeta → Option Stat → Text → ℕ → Result StoredMeta
version_stored (some stored) _ vid now = ok stored
version_stored none none vid now = err no_such_version
version_stored none (some m) vid now = ok (archived_meta vid now m)

abbrev has_id : Text → VersionEntry → Bool
has_id vid v = text_eq v.version_id vid

abbrev with_entry : ℕ → Option VersionEntry → Result (ℕ × VersionEntry)
with_entry idx none = err no_such_version
with_entry idx (some v) = ok (idx, v)

abbrev found_at : VersionHistory → Option ℕ → Result (ℕ × VersionEntry)
found_at hist none = err no_such_version
found_at hist (some idx) = with_entry idx (get_elem? hist idx)

unfoldable pub find_entry : VersionHistory → Text → Result (ℕ × VersionEntry)
unfolding position text_eq
find_entry hist vid = found_at hist (position (has_id vid) hist)

abbrev readable : ℕ × VersionEntry → Result (ℕ)
readable (idx, v) = if v.delete_marker then err method_not_allowed else ok idx

abbrev version_bytes : Option (List ℕ) → Result (List ℕ)
version_bytes none = err no_such_version
version_bytes (some b) = ok b

module _ {S : Type 0} (fs : FileSystem S) (st : FsStore) where
  unfoldable pub read_version_stored : Text → Text → Text → ℕ → S → Result StoredMeta
  unfolding version_meta_path version_data_path
  read_version_stored bucket key vid now s =
      version_stored
        (decoded st.json.decode_meta (fs.read s (version_meta_path st.root bucket key vid)))
        (fs.metadata s (version_data_path st.root bucket key vid)) vid now

  -- What every operation on a version does first: the history and the version's place in it.
  unfoldable pub locate_version :
      Text → Text → Text → Fresh → Call S (VersionHistory × (ℕ × VersionEntry))
  unfolding head_bucket seed_legacy_history read_history find_entry
  locate_version bucket key vid fresh = do
    head_bucket fs st bucket
    seed_legacy_history fs st bucket key fresh
    hist ← reading (λ s. ok (read_history fs st bucket key s))
    found ← reading (λ _. find_entry hist vid)
    pure (hist, found)

  -- The version at the head has the object's place, the others are in the archive.
  unfoldable pub stored_at : Text → Text → Text → ℕ → ℕ → S → Result StoredMeta
  unfolding read_stored read_version_stored
  stored_at bucket key vid now zero s = read_stored fs st bucket key now s
  stored_at bucket key vid now (suc _) s = read_version_stored bucket key vid now s

  unfoldable pub data_path_at : Text → Text → Text → ℕ → FilePath
  unfolding object_path version_data_path
  data_path_at bucket key vid zero = object_path st.root bucket key
  data_path_at bucket key vid (suc _) = version_data_path st.root bucket key vid

  abbrev of_version : Text → Text → StoredMeta → ObjectMeta
  of_version key vid stored = record (stored_to_meta key stored) { version_id = some vid }

  unfoldable pub get_object_version : Text → Text → Text → Fresh → Call S (ObjectMeta × List ℕ)
  unfolding locate_version stored_at data_path_at body_of stored_to_meta
  get_object_version bucket key vid fresh = do
    (hist, found) ← locate_version bucket key vid fresh
    idx ← reading (λ _. readable found)
    stored ← reading (stored_at bucket key vid fresh.now idx)
    file ← reading (λ s. version_bytes (fs.read s (data_path_at bucket key vid idx)))
    body ← reading (λ _. body_of fs st stored.encrypted file)
    pure (of_version key vid stored, body)

  unfoldable pub head_object_version : Text → Text → Text → Fresh → Call S ObjectMeta
  unfolding locate_version stored_at stored_to_meta
  head_object_version bucket key vid fresh = do
    (hist, found) ← locate_version bucket key vid fresh
    idx ← reading (λ _. readable found)
    stored ← reading (stored_at bucket key vid fresh.now idx)
    pure (of_version key vid stored)

  unfoldable pub remove_payload : Text → Text → Text → ℕ → VersionEntry → Call S (Unit {0})
  unfolding discard_canonical remove_archive
  remove_payload bucket key vid idx v =
      if v.delete_marker
      then pure tt
      else if idx == 0
      then discard_canonical fs st bucket key
      else remove_archive fs st bucket key vid

  -- The promotion after the head of the history was removed.
  unfoldable pub promote_next : Text → Text → Bool → VersionHistory → Call S (Unit {0})
  unfolding promote_archive_to_canonical
  promote_next bucket key was_current [] = pure tt
  promote_next bucket key was_current (next ∷ _) =
      if was_current
      then (if next.delete_marker
          then pure tt
          else promote_archive_to_canonical fs st bucket key next.version_id)
      else pure tt

  abbrev pruning_versions : Text → Text → Call S (Unit {0})
  pruning_versions bucket key s =
      (prune_empty_dirs fs st (version_dir st.root bucket key) (versions_root st.root) s, ok tt)

  unfoldable pub keep_history : Text → Text → VersionHistory → Call S (Unit {0})
  unfolding history_path version_dir prune_empty_dirs write_history
  keep_history bucket key [] = do
    ignoring (fs.remove_file (history_path st.root bucket key))
    pruning_versions bucket key
  keep_history bucket key (v ∷ hist) = write_history fs st bucket key (v ∷ hist)

  unfoldable pub delete_object_version : Text → Text → Text → Fresh → Call S DeleteOutcome
  unfolding locate_version remove_payload promote_next keep_history
  delete_object_version bucket key vid fresh = do
    (hist, (idx, v)) ← locate_version bucket key vid fresh
    remove_payload bucket key vid idx v
    let left = remove_at hist idx
    promote_next bucket key (idx == 0) left
    keep_history bucket key left
    pure (record { version_id = some vid; delete_marker = v.delete_marker })
