-- ===== src/Fs/Settings.antt =====
-- src/storage/fs.rs: buckets, the files that hold their settings, and the sidecars of an object. What
-- `serde_json` makes of a setting is a parameter.
use kerplace.Base.{
  Text, ℕ, Bool, true, false, if◌then◌else◌, List, [], ◌∷◌, ◌++◌, Option, none, some, codes,
  text_eq, is_some, unwrap_or, sort_by, text_ltb, as_bytes, from_utf8, Outcome, done, failed, Dict,
  String,
}
use kerplace.Error.{
  Result, ok, err, internal, no_such_bucket, bucket_already_owned_by_you, bucket_not_empty,
}
use kerplace.Storage.{BucketInfo, BackendInfo}
use kerplace.Storage.Names.{validate_bucket_name}
use kerplace.Calls.{Call, pure, try, ignoring, encoded, reading, ◌>>=◌, ◌>>◌}
use kerplace.Fs.Tree.{
  FilePath, FileSystem, parent, join, bucket_path, bucket_cfg_dir, bucket_cfg_file, meta_root,
  multipart_root, versions_root, sys_dir,
}
use kerplace.Fs.Files.{FsStore, decoded, head_bucket, read_obj_sidecar, write_obj_sidecar}
use kerplace.Fs.Store.{head_object}

-- An entry of the root: its name, whether it is a directory that can be looked at, and its date.
pub record RootEntry : Type 0 where
  pub name : Text
  pub is_dir : Bool
  pub created : Option ℕ

-- The documents of the settings, the walk below a bucket (whether it meets a file) and the entries of
-- the root, with the error that ends them, if one does.
pub record Documents (S : Type 0) : Type 0 where
  pub type_document : Text → List ℕ
  pub type_of : List ℕ → Option Text
  pub status_document : Text → List ℕ
  pub status_text : List ℕ → Option Text
  pub encode_tags : Dict Text → Outcome Text (List ℕ)
  pub decode_tags : List ℕ → Option (Dict Text)
  pub has_files : S → FilePath → Outcome Text Bool
  pub read_root : S → FilePath → Outcome Text (List RootEntry × Option Text)

abbrev no_file : Outcome Text Bool → Result (Unit {0})
no_file (failed e) = err (internal (codes "walk: " ++ e))
no_file (done true) = err bucket_not_empty
no_file (done false) = ok tt

abbrev info_of : RootEntry → ℕ → BucketInfo
info_of e now = record { name = e.name; creation_date = unwrap_or e.created now }

-- The buckets among the entries of the root.
unfoldable pub buckets_of : List RootEntry → ℕ → List BucketInfo
unfolding text_eq
buckets_of [] now = []
buckets_of (e ∷ es) now =
    let rest = buckets_of es now in
    if text_eq e.name sys_dir then rest else if e.is_dir then info_of e now ∷ rest else rest

abbrev listed : Outcome Text (List RootEntry × Option Text) → ℕ → Result (List BucketInfo)
unfolding buckets_of sort_by text_ltb
listed (failed e) now = err (internal (codes "read root: " ++ e))
listed (done (es, some e)) now = err (internal e)
listed (done (es, none)) now = ok (sort_by (λ a b. text_ltb a.name b.name) (buckets_of es now))

module _ {S : Type 0} (fs : FileSystem S) (st : FsStore) (docs : Documents S) where
  unfoldable pub read_bucket_cfg : Text → String → S → Option (List ℕ)
  unfolding bucket_cfg_file
  read_bucket_cfg bucket file s = fs.read s (bucket_cfg_file st.root bucket (codes file))

  unfoldable pub write_bucket_cfg : Text → String → List ℕ → Call S (Unit {0})
  unfolding bucket_cfg_file
  write_bucket_cfg bucket file bytes = do
    let path = bucket_cfg_file st.root bucket (codes file)
    try (codes "mkdir bucket cfg: ") (fs.create_dir_all (parent path))
    try (codes "write bucket cfg: ") (fs.write path bytes)

  unfoldable pub delete_bucket_cfg : Text → String → Call S (Unit {0})
  unfolding bucket_cfg_file
  delete_bucket_cfg bucket file =
      ignoring (fs.remove_file (bucket_cfg_file st.root bucket (codes file)))

  abbrev is_free : FilePath → S → Result (Unit {0})
  is_free path s = if is_some (fs.metadata s path) then err bucket_already_owned_by_you else ok tt

  abbrev exists : FilePath → S → Result (Unit {0})
  exists path s = if is_some (fs.metadata s path) then ok tt else err no_such_bucket

  unfoldable pub create_bucket : Text → Call S (Unit {0})
  unfolding validate_bucket_name bucket_path
  create_bucket bucket = do
    reading (λ _. validate_bucket_name bucket)
    reading (is_free (bucket_path st.root bucket))
    try (codes "create bucket: ") (fs.create_dir_all (bucket_path st.root bucket))

  unfoldable pub delete_bucket : Text → Call S (Unit {0})
  unfolding bucket_path join bucket_cfg_dir
  delete_bucket bucket = do
    let path = bucket_path st.root bucket
    reading (exists path)
    reading (λ s. no_file (docs.has_files s path))
    try (codes "remove bucket: ") (fs.remove_dir_all path)
    ignoring (fs.remove_dir_all (join (meta_root st.root) bucket))
    ignoring (fs.remove_dir_all (join (multipart_root st.root) bucket))
    ignoring (fs.remove_dir_all (bucket_cfg_dir st.root bucket))
    ignoring (fs.remove_dir_all (join (versions_root st.root) bucket))

  unfoldable pub list_buckets : (now : ℕ) → Call S (List BucketInfo)
  unfolding buckets_of sort_by text_ltb
  list_buckets now = reading (λ s. listed (docs.read_root s st.root) now)

  -- A setting that is read from its file, where the bucket is there.
  abbrev get_cfg : {A : Type 0} → (List ℕ → Option A) → Text → String → Call S (Option A)
  unfolding head_bucket read_bucket_cfg
  get_cfg f bucket file = do
    head_bucket fs st bucket
    reading (λ s. ok (decoded f (read_bucket_cfg bucket file s)))

  abbrev set_cfg : Text → String → List ℕ → Call S (Unit {0})
  unfolding head_bucket write_bucket_cfg
  set_cfg bucket file bytes = do head_bucket fs st bucket; write_bucket_cfg bucket file bytes

  abbrev delete_cfg : Text → String → Call S (Unit {0})
  unfolding head_bucket delete_bucket_cfg
  delete_cfg bucket file = do head_bucket fs st bucket; delete_bucket_cfg bucket file

  unfoldable pub get_bucket_encryption : Text → Call S (Option Text)
  unfolding head_bucket read_bucket_cfg
  get_bucket_encryption bucket = get_cfg docs.type_of bucket "sse.json"

  unfoldable pub set_bucket_encryption : Text → Text → Call S (Unit {0})
  unfolding head_bucket write_bucket_cfg
  set_bucket_encryption bucket sse_type = set_cfg bucket "sse.json" (docs.type_document sse_type)

  unfoldable pub delete_bucket_encryption : Text → Call S (Unit {0})
  unfolding head_bucket delete_bucket_cfg
  delete_bucket_encryption bucket = delete_cfg bucket "sse.json"

  unfoldable pub get_bucket_policy : Text → Call S (Option Text)
  unfolding head_bucket read_bucket_cfg from_utf8
  get_bucket_policy bucket = get_cfg from_utf8 bucket "policy.json"

  unfoldable pub set_bucket_policy : Text → Text → Call S (Unit {0})
  unfolding head_bucket write_bucket_cfg as_bytes
  set_bucket_policy bucket policy = set_cfg bucket "policy.json" (as_bytes policy)

  unfoldable pub delete_bucket_policy : Text → Call S (Unit {0})
  unfolding head_bucket delete_bucket_cfg
  delete_bucket_policy bucket = delete_cfg bucket "policy.json"

  unfoldable pub get_bucket_tags : Text → Call S (Option (Dict Text))
  unfolding head_bucket read_bucket_cfg
  get_bucket_tags bucket = get_cfg docs.decode_tags bucket "tags.json"

  unfoldable pub set_bucket_tags : Text → Dict Text → Call S (Unit {0})
  unfolding head_bucket write_bucket_cfg
  set_bucket_tags bucket tags = do
    head_bucket fs st bucket
    bytes ← encoded (codes "encode tags: ") (docs.encode_tags tags)
    write_bucket_cfg bucket "tags.json" bytes

  unfoldable pub delete_bucket_tags : Text → Call S (Unit {0})
  unfolding head_bucket delete_bucket_cfg
  delete_bucket_tags bucket = delete_cfg bucket "tags.json"

  unfoldable pub get_bucket_versioning : Text → Call S Text
  unfolding head_bucket read_bucket_cfg
  get_bucket_versioning bucket = do
    status ← get_cfg docs.status_text bucket "versioning.json"
    pure (unwrap_or status [])

  unfoldable pub set_bucket_versioning : Text → Text → Call S (Unit {0})
  unfolding head_bucket write_bucket_cfg
  set_bucket_versioning bucket status =
      set_cfg bucket "versioning.json" (docs.status_document status)

  unfoldable pub get_bucket_lifecycle : Text → Call S (Option Text)
  unfolding head_bucket read_bucket_cfg from_utf8
  get_bucket_lifecycle bucket = get_cfg from_utf8 bucket "lifecycle.json"

  unfoldable pub set_bucket_lifecycle : Text → Text → Call S (Unit {0})
  unfolding head_bucket write_bucket_cfg as_bytes
  set_bucket_lifecycle bucket xml = set_cfg bucket "lifecycle.json" (as_bytes xml)

  unfoldable pub delete_bucket_lifecycle : Text → Call S (Unit {0})
  unfolding head_bucket delete_bucket_cfg
  delete_bucket_lifecycle bucket = delete_cfg bucket "lifecycle.json"

  -- A sidecar of an object that is there.
  abbrev get_sidecar :
      {A : Type 0} → (List ℕ → Option A) → Text → Text → String → (now : ℕ) → Call S (Option A)
  unfolding head_object read_obj_sidecar
  get_sidecar f bucket key file now = do
    _ ← head_object fs st bucket key now
    reading (λ s. ok (decoded f (read_obj_sidecar fs st bucket key (codes file) s)))

  unfoldable pub get_object_tags : Text → Text → (now : ℕ) → Call S (Option (Dict Text))
  unfolding head_object read_obj_sidecar
  get_object_tags bucket key now = get_sidecar docs.decode_tags bucket key "tags.json" now

  unfoldable pub get_object_retention : Text → Text → (now : ℕ) → Call S (Option Text)
  unfolding head_object read_obj_sidecar from_utf8
  get_object_retention bucket key now = get_sidecar from_utf8 bucket key "retention.json" now

  unfoldable pub set_object_retention : Text → Text → (now : ℕ) → Text → Call S (Unit {0})
  unfolding head_object write_obj_sidecar as_bytes
  set_object_retention bucket key now text = do
    _ ← head_object fs st bucket key now
    write_obj_sidecar fs st bucket key (codes "retention.json") (as_bytes text)

  unfoldable pub get_object_legal_hold : Text → Text → (now : ℕ) → Call S (Option Text)
  unfolding head_object read_obj_sidecar
  get_object_legal_hold bucket key now =
      get_sidecar docs.status_text bucket key "legalhold.json" now

  unfoldable pub set_object_legal_hold : Text → Text → (now : ℕ) → Text → Call S (Unit {0})
  unfolding head_object write_obj_sidecar
  set_object_legal_hold bucket key now status = do
    _ ← head_object fs st bucket key now
    write_obj_sidecar fs st bucket key (codes "legalhold.json") (docs.status_document status)

  unfoldable pub backend_info : S → BackendInfo
  backend_info s = record {
    backend_type = codes "FS";
    data_shards = 0;
    parity_shards = 0;
    drives =
        record {
          path = fs.show_path st.root;
          state = if is_some (fs.metadata s st.root) then codes "ok" else codes "offline";
        }
        ∷ [];
  }
