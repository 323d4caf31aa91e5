-- ===== src/Fs/Store.antt =====
-- src/storage/fs.rs: the operations on one object. A body is read once, as its bytes; the lock of the
-- key makes each operation one step.
use kerplace.Base.{
  Text, ℕ, Bool, true, false, not, ◌&&◌, if◌then◌else◌, List, [], ◌∷◌, ◌++◌, Option, none, some,
  codes, text_eq, Outcome, done, failed, Dict,
}
use kerplace.Error.{Result, ok, err, internal, no_such_key}
use kerplace.Storage.{ObjectMeta, DeleteOutcome, no_outcome}
use kerplace.Storage.Names.{validate_key}
use kerplace.Crypto.{CryptoError, plaintext_len, header_len}
use kerplace.Crypto.Sealing.{encrypting_reader, decrypting_reader_checked}
use kerplace.Erasure.Versions.{VMode, off}
use kerplace.Fs.Reads.{crypto_error}
use kerplace.Fs.Tree.{
  FilePath, FileSystem, parent, object_path, meta_path, meta_root, bucket_path, join,
}
use kerplace.Calls.{Call, pure, ignoring, encoded, reading, ◌>>=◌, ◌>>◌}
use kerplace.Fs.Files.{
  StoredMeta, VersionHistory, FsStore, Fresh, BodyReader, head_bucket, read_stored, write_meta,
  stream_to_temp, move_into_place, write_obj_sidecar, delete_obj_sidecar, should_encrypt,
  stored_to_meta,
}
use kerplace.Fs.Versions.{
  versioning_mode, begin_versioned_write, finish_versioned_write, mark_deleted,
}

-- `a == b` on paths
unfoldable pub path_eq : FilePath → FilePath → Bool
unfolding text_eq
path_eq [] [] = true
path_eq [] (_ ∷ _) = false
path_eq (_ ∷ _) [] = false
path_eq (a ∷ p) (b ∷ q) = text_eq a b && path_eq p q

-- `dir.starts_with(stop)`
unfoldable pub is_below : FilePath → FilePath → Bool
unfolding path_eq
is_below [] stop = path_eq [] stop
is_below (a ∷ p) stop = let rest = is_below p stop in if path_eq (a ∷ p) stop then true else rest

abbrev pub sealed_body : Outcome CryptoError (List ℕ) → Result BodyReader
sealed_body (done sealed) = ok (record { bytes = sealed; fault = none })
sealed_body (failed e) = err (internal (codes "encrypt object: " ++ crypto_error e))

abbrev opened_body : Outcome CryptoError (List ℕ) → Result (List ℕ)
opened_body (done plain) = ok plain
opened_body (failed e) = err (internal (codes "decrypt object: " ++ crypto_error e))

abbrev file_bytes : Option (List ℕ) → Result (List ℕ)
file_bytes none = err no_such_key
file_bytes (some b) = ok b

module _ {S : Type 0} (fs : FileSystem S) (st : FsStore) where
  -- The body that is staged: sealed if the write is encrypted, whatever error ends the source.
  unfoldable pub staged : Fresh → BodyReader → Bool → Result BodyReader
  unfolding encrypting_reader crypto_error
  staged fresh body true =
      sealed_body (encrypting_reader st.aead st.crypto fresh.dek_random fresh.base_nonce body.bytes)
  staged fresh body false = ok body

  -- What `put_object` makes room for in a versioned bucket.
  unfoldable pub prepared : Text → Text → VMode → Fresh → Call S (Option (Text × VersionHistory))
  unfolding begin_versioned_write
  prepared bucket key off fresh = pure none
  prepared bucket key mode fresh = do
    begun ← begin_versioned_write fs st bucket key mode fresh
    pure (some begun)

  abbrev pub vid_of : Option (Text × VersionHistory) → Option Text
  vid_of none = none
  vid_of (some (vid, _)) = some vid

  unfoldable pub recorded :
      Text → Text → Option (Text × VersionHistory) → StoredMeta → Call S (Unit {0})
  unfolding finish_versioned_write
  recorded bucket key none m = pure tt
  recorded bucket key (some (vid, hist)) m =
      finish_versioned_write fs st bucket key hist vid m.etag m.size m.last_modified

  -- `put_object` from the move of the staged file on
  unfoldable pub install :
      Text → Text → FilePath → Option (Text × VersionHistory) → StoredMeta → Call S ObjectMeta
  unfolding move_into_place write_meta recorded stored_to_meta object_path
  install bucket key tmp pending stored = do
    move_into_place fs st tmp (object_path st.root bucket key)
    write_meta fs st bucket key stored
    recorded bucket key pending stored
    pure (stored_to_meta key stored)

  -- `put_object` from the staged body on
  unfoldable pub commit :
      Text → Text → Text → Dict Text → Bool → Fresh → BodyReader → Call S ObjectMeta
  unfolding stream_to_temp plaintext_len header_len versioning_mode prepared install
  commit bucket key content_type user_metadata encrypted fresh body = do
    (tmp, etag, stored_size) ← stream_to_temp fs st fresh body (not encrypted)
    let size = if encrypted then plaintext_len stored_size (header_len st.crypto) else stored_size
    mode ← reading (λ s. ok (versioning_mode fs st bucket s))
    pending ← prepared bucket key mode fresh
    install bucket key tmp pending (record {
      etag = etag;
      size = size;
      content_type = content_type;
      user_metadata = user_metadata;
      last_modified = fresh.now;
      encrypted = encrypted;
      version_id = vid_of pending;
    })

  unfoldable pub put_object :
      Text → Text → Text → Dict Text → Bool → Fresh → BodyReader → Call S ObjectMeta
  unfolding head_bucket validate_key should_encrypt staged commit
  put_object bucket key content_type user_metadata encrypt fresh body = do
    head_bucket fs st bucket
    reading (λ _. validate_key key)
    let encrypted = should_encrypt fs st encrypt
    reader ← reading (λ _. staged fresh body encrypted)
    commit bucket key content_type user_metadata encrypted fresh reader

  -- The object's bytes, as its metadata says they are kept.
  unfoldable pub body_of : Bool → List ℕ → Result (List ℕ)
  unfolding decrypting_reader_checked crypto_error
  body_of true file = opened_body (decrypting_reader_checked st.aead st.crypto file)
  body_of false file = ok file

  unfoldable pub get_object : Text → Text → ℕ → Call S (ObjectMeta × List ℕ)
  unfolding read_stored object_path body_of stored_to_meta
  get_object bucket key now = do
    stored ← reading (read_stored fs st bucket key now)
    file ← reading (λ s. file_bytes (fs.read s (object_path st.root bucket key)))
    body ← reading (λ _. body_of stored.encrypted file)
    pure (stored_to_meta key stored, body)

  unfoldable pub head_object : Text → Text → ℕ → Call S ObjectMeta
  unfolding read_stored stored_to_meta
  head_object bucket key now = do
    stored ← reading (read_stored fs st bucket key now)
    pure (stored_to_meta key stored)

  abbrev pruned : S × Option Text → (S → S) → S
  pruned (s, none) up = up s
  pruned (s, some e) up = s

  -- The loop ends at the root at the latest.
  unfoldable pub prune_empty_dirs : FilePath → FilePath → S → S
  unfolding path_eq is_below
  prune_empty_dirs [] stop s = s
  prune_empty_dirs (name ∷ up) stop s =
      let step = pruned (fs.remove_dir (name ∷ up) s) (prune_empty_dirs up stop) in
      if not (path_eq (name ∷ up) stop) && is_below (name ∷ up) stop then step else s

  abbrev pruning : FilePath → FilePath → Call S (Unit {0})
  pruning path stop s = (prune_empty_dirs (parent path) stop s, ok tt)

  unfoldable pub delete_unversioned : Text → Text → Call S DeleteOutcome
  unfolding object_path meta_path delete_obj_sidecar prune_empty_dirs bucket_path join
  delete_unversioned bucket key = do
    ignoring (fs.remove_file (object_path st.root bucket key))
    ignoring (fs.remove_file (meta_path st.root bucket key))
    delete_obj_sidecar fs st bucket key (codes "tags.json")
    delete_obj_sidecar fs st bucket key (codes "retention.json")
    delete_obj_sidecar fs st bucket key (codes "legalhold.json")
    pruning (object_path st.root bucket key) (bucket_path st.root bucket)
    pruning (meta_path st.root bucket key) (join (meta_root st.root) bucket)
    pure no_outcome

  abbrev marked : Text → DeleteOutcome
  marked vid = record { version_id = some vid; delete_marker = true }

  abbrev deleting : Text → Text → Fresh → VMode → Call S DeleteOutcome
  deleting bucket key fresh off = delete_unversioned bucket key
  deleting bucket key fresh mode = do
    vid ← mark_deleted fs st bucket key mode fresh
    pure (marked vid)

  unfoldable pub delete_object : Text → Text → Fresh → Call S DeleteOutcome
  unfolding head_bucket versioning_mode delete_unversioned mark_deleted
  delete_object bucket key fresh = do
    head_bucket fs st bucket
    mode ← reading (λ s. ok (versioning_mode fs st bucket s))
    deleting bucket key fresh mode

  -- The tags are given as the bytes that `serde_json` makes of them.
  unfoldable pub set_object_tags : Text → Text → ℕ → Outcome Text (List ℕ) → Call S (Unit {0})
  unfolding head_object write_obj_sidecar
  set_object_tags bucket key now tags = do
    _ ← head_object bucket key now
    bytes ← encoded (codes "encode object tags: ") tags
    write_obj_sidecar fs st bucket key (codes "tags.json") bytes

  unfoldable pub delete_object_tags : Text → Text → ℕ → Call S (Unit {0})
  unfolding head_object delete_obj_sidecar
  delete_object_tags bucket key now = do
    _ ← head_object bucket key now
    delete_obj_sidecar fs st bucket key (codes "tags.json")
