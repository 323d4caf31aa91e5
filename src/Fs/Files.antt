-- ===== src/Fs/Files.antt =====
-- src/storage/fs.rs: the core I/O helpers, on the state of a file system. What `serde_json` and MD5
-- compute is a parameter, and so are the random values and the clock of one call.
use kerplace.Base.{
  Text, ℕ, Bool, false, ◌≡◌, ◌+◌, ◌||◌, if◌then◌else◌, List, [], ◌∷◌, ◌++◌, Option, none, some,
  codes, length, unwrap_or, Dict, Outcome, done,
}
use kerplace.Error.{Result, ok, err, internal, no_such_key, no_such_bucket}
use kerplace.Storage.{ObjectMeta}
use kerplace.Calls.{Call, pure, ◌>>=◌, ◌>>◌, try, ignoring, encoded, reading}
use kerplace.Crypto.{Aead, KeyProvider}
use kerplace.Fs.Tree.{
  FilePath, FileSystem, Stat, parent, tmp_dir, meta_path, object_path, bucket_path, object_sidecar,
}

-- The sidecar of an object.
pub record StoredMeta : Type 0 where
  pub etag : Text
  pub size : ℕ
  pub content_type : Text
  pub user_metadata : Dict Text
  pub last_modified : ℕ
  pub encrypted : Bool
  pub version_id : Option Text

pub record VersionEntry : Type 0 where
  pub version_id : Text
  pub delete_marker : Bool
  pub last_modified : ℕ
  pub etag : Text
  pub size : ℕ

abbrev pub VersionHistory : Type 0
VersionHistory = List VersionEntry

-- `serde_json` on the files of the store. The last field is `v["status"].as_str()`.
pub record Json : Type 0 where
  pub encode_meta : StoredMeta → Outcome Text (List ℕ)
  pub decode_meta : List ℕ → Option StoredMeta
  pub encode_history : VersionHistory → Outcome Text (List ℕ)
  pub decode_history : List ℕ → Option VersionHistory
  pub status_of : List ℕ → Option (Option Text)

-- A sidecar that was written is read back.
pub record IsJson (j : Json) : Type 0 where
  pub decode-encode :
      (m : StoredMeta) (b : List ℕ) → j.encode_meta m ≡ done b → j.decode_meta b ≡ some m

-- `FsStore`, with the pieces in which a reader gives its bytes.
pub record FsStore : Type 0 where
  pub root : FilePath
  pub aead : Aead
  pub crypto : KeyProvider
  pub encrypt_all : Bool
  pub json : Json
  pub md5_hex : List ℕ → Text
  pub pieces : List ℕ → List (List ℕ)

-- The random values and the time of one call.
pub record Fresh : Type 0 where
  pub tmp_name : Text
  pub opaque_etag : Text
  pub version_id : Text
  pub dek_random : List ℕ
  pub base_nonce : List ℕ
  pub now : ℕ

-- The bytes of a body, and the error that ends it, if one does.
pub record BodyReader : Type 0 where
  pub bytes : List ℕ
  pub fault : Option Text

-- What `stat` gives for an object without a sidecar.
abbrev pub stat_meta : Stat → ℕ → StoredMeta
stat_meta m now = record {
  etag = [];
  size = m.len;
  content_type = codes "application/octet-stream";
  user_metadata = [];
  last_modified = unwrap_or m.modified now;
  encrypted = false;
  version_id = none;
}

abbrev or_stat : Option StoredMeta → Stat → ℕ → StoredMeta
or_stat (some stored) m now = stored
or_stat none m now = stat_meta m now

abbrev pub decoded {ℓ} : {A : Type ℓ} → (List ℕ → Option A) → Option (List ℕ) → Option A
decoded f none = none
decoded f (some b) = f b

abbrev pub stored_of : Option Stat → Option StoredMeta → ℕ → Result StoredMeta
stored_of none stored now = err no_such_key
stored_of (some m) stored now = if m.is_file then ok (or_stat stored m now) else err no_such_key

abbrev pub is_bucket : Option Stat → Result (Unit {0})
is_bucket none = err no_such_bucket
is_bucket (some m) = if m.is_dir then ok tt else err no_such_bucket

-- `stored_to_meta`
unfoldable pub stored_to_meta : Text → StoredMeta → ObjectMeta
stored_to_meta key stored = record {
  key = key;
  size = stored.size;
  etag = stored.etag;
  last_modified = stored.last_modified;
  content_type = stored.content_type;
  user_metadata = stored.user_metadata;
  encrypted = stored.encrypted;
  version_id = stored.version_id;
  audit = none;
}

abbrev pub faulty : Option Text → Result (Unit {0})
faulty none = ok tt
faulty (some e) = err (internal (codes "read body: " ++ e))

module _ {S : Type 0} (fs : FileSystem S) (st : FsStore) where
  unfoldable pub head_bucket : Text → Call S (Unit {0})
  unfolding bucket_path
  head_bucket bucket = reading λ s. is_bucket (fs.metadata s (bucket_path st.root bucket))

  -- `read_stored`
  unfoldable pub read_stored : Text → Text → ℕ → S → Result StoredMeta
  unfolding object_path meta_path
  read_stored bucket key now s =
      stored_of (fs.metadata s (object_path st.root bucket key))
        (decoded st.json.decode_meta (fs.read s (meta_path st.root bucket key))) now

  unfoldable pub write_meta : Text → Text → StoredMeta → Call S (Unit {0})
  unfolding meta_path
  write_meta bucket key stored = do
    let path = meta_path st.root bucket key
    try (codes "mkdir meta: ") (fs.create_dir_all (parent path))
    bytes ← encoded (codes "encode meta: ") (st.json.encode_meta stored)
    try (codes "write meta: ") (fs.write path bytes)

  -- The loop of `stream_to_temp`: what the hasher was fed, and the number of bytes. A write and its
  -- flush are one call.
  unfoldable pub copy_pieces : FilePath → Bool → List ℕ → ℕ → List (List ℕ) → Call S (List ℕ × ℕ)
  copy_pieces tmp need_md5 fed total [] = pure (fed, total)
  copy_pieces tmp need_md5 fed total (buf ∷ rest) = do
    try (codes "write temp: ") (fs.append tmp buf)
    copy_pieces tmp need_md5 (if need_md5 then fed ++ buf else fed) (total + length buf) rest

  unfoldable pub stream_to_temp : Fresh → BodyReader → Bool → Call S (FilePath × Text × ℕ)
  unfolding copy_pieces
  stream_to_temp fresh body need_md5 = do
    let tmp = fresh.tmp_name ∷ tmp_dir st.root
    try (codes "create temp: ") (fs.create tmp)
    (fed, total) ← copy_pieces tmp need_md5 [] 0 (st.pieces body.bytes)
    reading (λ _. faulty body.fault)
    pure (tmp, (if need_md5 then st.md5_hex fed else fresh.opaque_etag), total)

  unfoldable pub move_into_place : FilePath → FilePath → Call S (Unit {0})
  move_into_place tmp dest = do
    try (codes "mkdir " ++ (fs.show_path (parent dest) ++ codes ": "))
        (fs.create_dir_all (parent dest))
    try (codes "rename: ") (fs.rename tmp dest)

  unfoldable pub read_obj_sidecar : Text → Text → Text → S → Option (List ℕ)
  unfolding object_sidecar
  read_obj_sidecar bucket key suffix s = fs.read s (object_sidecar st.root bucket key suffix)

  unfoldable pub write_obj_sidecar : Text → Text → Text → List ℕ → Call S (Unit {0})
  unfolding object_sidecar
  write_obj_sidecar bucket key suffix bytes = do
    let path = object_sidecar st.root bucket key suffix
    try (codes "mkdir sidecar: ") (fs.create_dir_all (parent path))
    try (codes "write sidecar: ") (fs.write path bytes)

  unfoldable pub delete_obj_sidecar : Text → Text → Text → Call S (Unit {0})
  unfolding object_sidecar
  delete_obj_sidecar bucket key suffix =
      ignoring (fs.remove_file (object_sidecar st.root bucket key suffix))

  unfoldable pub should_encrypt : Bool → Bool
  should_encrypt encrypt = encrypt || st.encrypt_all
