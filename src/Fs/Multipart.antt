-- ===== src/Fs/Multipart.antt =====
-- src/storage/fs.rs: uploads in parts. What an upload's files hold is what `serde_json` makes of them.
pub mod Listed
pub mod Assembly
pub mod Completion
use kerplace.Base.{
  Text, ℕ, ◌+◌, ◌^◌, ◌-◌, ◌==◌, ◌++◌, Bool, true, false, not, if◌then◌else◌, List, [], ◌∷◌, Option,
  none, some, codes, text_eq, length, is_some, ltb, sort_by, strip_prefix, parse_unsigned,
  trim_start_matches, trim_end_matches, Outcome, done, failed, Dict, String,
}
use kerplace.Error.{Result, S3Error, ok, err, internal, no_such_upload, invalid_part}
use kerplace.Storage.{ObjectMeta, PartInfo, CompletedPart}
use kerplace.Storage.Names.{validate_key}
use kerplace.Erasure.Versions.{VMode, off}
use kerplace.Calls.{Call, pure, try, ignoring, encoded, reading, ◌>>=◌, ◌>>◌}
use kerplace.Fs.Tree.{FilePath, FileSystem, join, tmp_dir, upload_dir, object_path}
use kerplace.Fs.Files.{
  StoredMeta, VersionHistory, FsStore, Fresh, BodyReader, head_bucket, write_meta, stream_to_temp,
  move_into_place, should_encrypt, stored_to_meta,
}
use kerplace.Fs.Versions.{versioning_mode}
use kerplace.Fs.Store.{staged, prepared, recorded, vid_of}

pub record UploadManifest : Type 0 where
  pub key : Text
  pub content_type : Text
  pub user_metadata : Dict Text
  pub created : ℕ
  pub encrypt : Bool

pub record PartMeta : Type 0 where
  pub etag : Text
  pub size : ℕ
  pub created : ℕ

-- The third-party functions, and the reading of a directory: the names of its entries, and the error
-- that ends it, if one does.
pub record Uploads (S : Type 0) : Type 0 where
  pub encode_manifest : UploadManifest → Outcome Text (List ℕ)
  pub decode_manifest : List ℕ → Outcome Text UploadManifest
  pub encode_part : PartMeta → Outcome Text (List ℕ)
  pub decode_part : List ℕ → Outcome Text PartMeta
  pub hex_decode : Text → Outcome Text (List ℕ)
  pub decimal : ℕ → Text
  pub read_dir : S → FilePath → Option (List Text × Option Text)

-- `s.trim_matches('"')`
unfoldable pub unquoted : Text → Text
unfolding trim_start_matches trim_end_matches
unquoted t = trim_end_matches (λ c. c == b'"') (trim_start_matches (λ c. c == b'"') t)

abbrev pub or_missing : S3Error → Option (List ℕ) → Result (List ℕ)
or_missing e none = err e
or_missing e (some b) = ok b

abbrev pub or_failed : {A : Type 0} → String → Outcome Text A → Result A
or_failed what (done a) = ok a
or_failed what (failed e) = err (internal (codes what ++ e))

module _ {S : Type 0} (fs : FileSystem S) (st : FsStore) (up : Uploads S) where
  abbrev pub manifest_path : Text → Text → FilePath
  unfolding upload_dir join
  manifest_path bucket upload_id =
      join (upload_dir st.root bucket upload_id) (codes "manifest.json")

  -- `part.{n}`
  abbrev pub part_path : Text → Text → ℕ → FilePath
  unfolding upload_dir join
  part_path bucket upload_id n =
      join (upload_dir st.root bucket upload_id) (codes "part." ++ up.decimal n)

  -- `part.{n}.json`
  abbrev pub part_meta_path : Text → Text → ℕ → FilePath
  unfolding upload_dir join
  part_meta_path bucket upload_id n =
      join (upload_dir st.root bucket upload_id) (codes "part." ++ (up.decimal n ++ codes ".json"))

  unfoldable pub create_multipart :
      Text → Text → Text → Dict Text → Bool → (upload_id : Text) (now : ℕ) → Call S Text
  unfolding head_bucket validate_key should_encrypt upload_dir join
  create_multipart bucket key content_type user_metadata encrypt upload_id now = do
    head_bucket fs st bucket
    reading (λ _. validate_key key)
    try (codes "mkdir upload: ") (fs.create_dir_all (upload_dir st.root bucket upload_id))
    json ← encoded (codes "encode manifest: ") (
        up.encode_manifest (record {
          key = key;
          content_type = content_type;
          user_metadata = user_metadata;
          created = now;
          encrypt = should_encrypt fs st encrypt;
        }))
    try (codes "write manifest: ") (fs.write (manifest_path bucket upload_id) json)
    pure upload_id

  abbrev has_upload : Text → Text → S → Result (Unit {0})
  has_upload bucket upload_id s =
      if is_some (fs.metadata s (manifest_path bucket upload_id)) then ok tt else err no_such_upload

  unfoldable pub upload_part : Text → Text → Text → ℕ → Fresh → BodyReader → Call S Text
  unfolding stream_to_temp move_into_place upload_dir join
  upload_part bucket key upload_id part_number fresh body = do
    reading (has_upload bucket upload_id)
    (tmp, etag, size) ← stream_to_temp fs st fresh body true
    move_into_place fs st tmp (part_path bucket upload_id part_number)
    json ←
        encoded (codes "encode part meta: ")
          (up.encode_part (record { etag = etag; size = size; created = fresh.now }))
    try (codes "write part meta: ") (fs.write (part_meta_path bucket upload_id part_number) json)
    pure etag

  -- The part is the one that the client names.
  unfoldable pub same_part : CompletedPart → PartMeta → Result (Unit {0})
  unfolding unquoted text_eq
  same_part part meta = if text_eq (unquoted part.etag) meta.etag then ok tt else err invalid_part

  -- The loop of `complete_multipart`: the concatenated tags and the number of bytes.
  unfoldable pub assemble :
      Text → Text → FilePath → List CompletedPart → List ℕ → ℕ → Call S (List ℕ × ℕ)
  unfolding same_part upload_dir join
  assemble bucket upload_id tmp [] concat_md5 total = pure (concat_md5, total)
  assemble bucket upload_id tmp (part ∷ parts) concat_md5 total = do
    bytes ← reading (λ s.
        or_missing invalid_part (fs.read s (part_meta_path bucket upload_id part.part_number)))
    meta ← reading (λ _. or_failed "decode part meta: " (up.decode_part bytes))
    reading (λ _. same_part part meta)
    raw ← reading (λ _. or_failed "bad part etag: " (up.hex_decode meta.etag))
    file ←
        reading
          (λ s. or_missing invalid_part (fs.read s (part_path bucket upload_id part.part_number)))
    try (codes "assemble part: ") (fs.append tmp file)
    assemble bucket upload_id tmp parts (concat_md5 ++ raw) (total + meta.size)

  -- The assembled file as it is stored: itself, or its encryption in a file of its own.
  unfoldable pub final_tmp : Bool → FilePath → Fresh → Call S FilePath
  unfolding staged stream_to_temp
  final_tmp false tmp fresh = pure tmp
  final_tmp true tmp fresh = do
    plain ← reading (λ s. or_missing (internal (codes "reopen assembly: ")) (fs.read s tmp))
    reader ← reading (λ _. staged fs st fresh (record { bytes = plain; fault = none }) true)
    (enc_tmp, _, _) ← stream_to_temp fs st fresh reader false
    ignoring (fs.remove_file tmp)
    pure enc_tmp

  -- From the move of the final file on.
  unfoldable pub completed :
      Text
      → Text
      → Text
      → FilePath
      → Option (Text × VersionHistory)
      → StoredMeta
      → Call S ObjectMeta
  unfolding move_into_place write_meta recorded stored_to_meta object_path upload_dir
  completed bucket key upload_id tmp pending stored = do
    move_into_place fs st tmp (object_path st.root bucket key)
    write_meta fs st bucket key stored
    ignoring (fs.remove_dir_all (upload_dir st.root bucket upload_id))
    recorded fs st bucket key pending stored
    pure (stored_to_meta key stored)

  -- The metadata of a completed upload, from its tag and its size.
  abbrev pub assembled :
      UploadManifest → Fresh → (etag : Text) (size : ℕ) (version_id : Option Text) → StoredMeta
  assembled manifest fresh etag size version_id = record {
    etag = etag;
    size = size;
    content_type = manifest.content_type;
    user_metadata = manifest.user_metadata;
    last_modified = fresh.now;
    encrypted = manifest.encrypt;
    version_id = version_id;
  }

  -- From the final file on.
  unfoldable pub published :
      Text
      → Text
      → Text
      → UploadManifest
      → Fresh
      → (etag : Text) (total : ℕ) → FilePath
      → Call S ObjectMeta
  unfolding versioning_mode prepared completed
  published bucket key upload_id manifest fresh etag total final = do
    mode ← reading (λ s. ok (versioning_mode fs st bucket s))
    pending ← prepared fs st bucket key mode fresh
    completed bucket key upload_id final pending
        (assembled manifest fresh etag total (vid_of fs st pending))

  -- `assembly` names the temporary file of the parts, `fresh` that of their encryption.
  unfoldable pub complete_multipart :
      Text → Text → Text → List CompletedPart → (assembly : Text) → Fresh → Call S ObjectMeta
  unfolding assemble final_tmp published upload_dir join
  complete_multipart bucket key upload_id parts assembly fresh = do
    bytes ← reading (λ s. or_missing no_such_upload (fs.read s (manifest_path bucket upload_id)))
    manifest ← reading (λ _. or_failed "decode manifest: " (up.decode_manifest bytes))
    let tmp = assembly ∷ tmp_dir st.root
    try (codes "create assembly: ") (fs.create tmp)
    (concat_md5, total) ← assemble bucket upload_id tmp parts [] 0
    let etag = st.md5_hex concat_md5 ++ (codes "-" ++ up.decimal (length parts))
    final ← final_tmp manifest.encrypt tmp fresh
    published bucket key upload_id manifest fresh etag total final

  abbrev is_there : FilePath → S → Result (Unit {0})
  is_there dir s = if is_some (fs.metadata s dir) then ok tt else err no_such_upload

  unfoldable pub abort_multipart : Text → Text → Text → Call S (Unit {0})
  unfolding upload_dir
  abort_multipart bucket key upload_id = do
    reading (is_there (upload_dir st.root bucket upload_id))
    try (codes "abort: ") (fs.remove_dir_all (upload_dir st.root bucket upload_id))
