-- ===== src/Tests/Uploads.antt =====
-- Examples for the uploads and the settings of the file-system store.
use kerplace.Base.{
  ℕ, Option, Text, ◌+◌, ◌≡◌, ◌≢◌, refl, false, List, [], ◌∷◌, none, some, codes, text_eq, done,
  failed, split, starts_with, trim_start_matches, trim_end_matches,
}
use kerplace.Error.{ok}
use kerplace.Storage.{CompletedPart, ObjectMeta}
use kerplace.Fs.Tree.{push, settle}
use kerplace.Fs.Tree.{FilePath, upload_dir, join, bucket_cfg_file}
use kerplace.Fs.Files.{stored_to_meta}
use kerplace.Fs.Store.{path_eq}
use kerplace.Fs.Versions.{versioning_mode}
use kerplace.Fs.Multipart.{
  UploadManifest, complete_multipart, manifest_path, assembled, Uploads, assemble, unquoted,
  same_part,
}
use kerplace.Fs.Multipart.Assembly.{Piece, pieces, files, raws, sizes, IsApart, assemble-pieces}
use kerplace.Fs.Multipart.Completion.{multipart_etag, complete_multipart-pieces}
use kerplace.Fs.Settings.{Documents, set_bucket_versioning}
use kerplace.Fs.Configured.{Means, versioning_mode-set_bucket_versioning}
use kerplace.Tests.Tree.{
  Disk, at, disk, disk-IsFileSystem, store, bucket, empty, path_eq_iff, fresh,
}

-- Every upload was begun with this.
abbrev begun : UploadManifest
begun = record {
  key = codes "k";
  content_type = codes "text/plain";
  user_metadata = [];
  created = 1;
  encrypt = false;
}

-- A sidecar is its tag, and every part has two bytes and the name of part 1.
abbrev uploads : Uploads Disk
uploads = record {
  encode_manifest = λ m. done [];
  decode_manifest = λ b. done begun;
  encode_part = λ m. done m.etag;
  decode_part = λ b. done (record { etag = b; size = 2; created = 0 });
  hex_decode = λ t. done t;
  decimal = λ n. codes "1";
  read_dir = λ s p. none;
}

-- The other bucket's directory is gone, with the object in it.
abbrev upload : Text
upload = codes "u1"

abbrev assembly : FilePath
assembly = codes "a1" ∷ codes "tmp" ∷ codes ".kerplace.sys" ∷ []

abbrev laid_out : Disk
laid_out =
    at (codes "part.1" ∷ upload ∷ bucket ∷ codes "multipart" ∷ codes ".kerplace.sys" ∷ [])
      (some (codes "xy"))
      (at (codes "part.1.json" ∷ upload ∷ bucket ∷ codes "multipart" ∷ codes ".kerplace.sys" ∷ [])
        (some (codes "e7")) (at assembly (some []) empty))

-- The client asks for the part twice, with the tag in quotes and without.
abbrev asked : List CompletedPart
asked =
    record { part_number = 1; etag = codes "\"e7\"" }
    ∷ record { part_number = 1; etag = codes "e7" }
    ∷ []

is_apart : IsApart disk store uploads bucket upload assembly
unfolding upload_dir join split push settle text_eq path_eq starts_with
is_apart n = (
  λ e. absurd (cc ((path_eq_iff _ assembly).1 e)),
  λ e. absurd (cc ((path_eq_iff _ assembly).1 e)),
)

abbrev after : Disk
after = (assemble disk store uploads bucket upload assembly asked [] 0 laid_out).0

put_together :
    assemble disk store uploads bucket upload assembly asked [] 0 laid_out
    ≡ (after, ok (codes "e7e7", 4))
unfolding assemble upload_dir join split push settle text_eq path_eq unquoted same_part
    trim_start_matches trim_end_matches starts_with
put_together = refl

opened : laid_out assembly ≡ some []
unfolding path_eq text_eq
opened = refl

assemble-pieces_example :
    (ps : List Piece) × (pieces disk store uploads bucket upload laid_out asked ≡ some ps)
    × (after assembly ≡ some (files ps))
    × (codes "e7e7" ≡ raws ps)
    × (4 ≡ 0 + sizes ps)
assemble-pieces_example =
    assemble-pieces disk store uploads bucket upload disk-IsFileSystem assembly is_apart asked [] []
      0 laid_out after (codes "e7e7", 4) opened put_together

abbrev with_manifest : Disk
with_manifest =
    at (codes "manifest.json" ∷ upload ∷ bucket ∷ codes "multipart" ∷ codes ".kerplace.sys" ∷ [])
      (some []) laid_out

abbrev metadata : ObjectMeta
metadata = record {
  key = codes "k";
  size = 4;
  etag = codes "md5-1";
  last_modified = 7;
  content_type = codes "text/plain";
  user_metadata = [];
  encrypted = false;
  version_id = none;
  audit = none;
}

abbrev published_disk : Disk
published_disk =
    (complete_multipart disk store uploads bucket (codes "k") upload asked (codes "a1") fresh
      with_manifest).0

answered :
    complete_multipart disk store uploads bucket
      (codes "k")
      upload
      asked
      (codes "a1")
      fresh
      with_manifest
    ≡ (published_disk, ok metadata)
unfolding complete_multipart upload_dir join split push settle text_eq path_eq unquoted same_part
    trim_start_matches trim_end_matches starts_with
answered = refl

complete_multipart-pieces_example :
    (b : List ℕ) × (m : UploadManifest) × (ps : List Piece) × (vid : Option Text) × (with_manifest
        (manifest_path disk store uploads bucket upload)
      ≡ some b)
    × (uploads.decode_manifest b ≡ done m)
    × (pieces disk store uploads bucket upload (at assembly (some []) with_manifest) asked
        ≡ some ps)
    × (metadata
        ≡ stored_to_meta (codes "k") (
            assembled disk store uploads m fresh
              (multipart_etag disk store uploads (raws ps) asked)
              (sizes ps)
              vid))
complete_multipart-pieces_example =
    complete_multipart-pieces disk store uploads disk-IsFileSystem bucket (codes "k") upload
      (codes "a1") is_apart asked fresh with_manifest published_disk metadata answered

-- A setting's document is its text.
abbrev documents : Documents Disk
documents = record {
  type_document = λ t. t;
  type_of = λ b. some b;
  status_document = λ t. t;
  status_text = λ b. some b;
  encode_tags = λ d. failed [];
  decode_tags = λ b. none;
  has_files = λ s p. done false;
  read_root = λ s p. done ([], none);
}

abbrev versioned : Disk
unfolding set_bucket_versioning
versioned = (set_bucket_versioning disk store documents bucket (codes "Enabled") empty).0

switched_on :
    set_bucket_versioning disk store documents bucket (codes "Enabled") empty ≡ (versioned, ok tt)
unfolding set_bucket_versioning versioned
switched_on = refl

versioning_mode-set_bucket_versioning_example :
    Means (codes "Enabled") (versioning_mode disk store bucket versioned)
    × ((q : FilePath) (c : List ℕ)
        → settle q ≢ settle (bucket_cfg_file [] bucket (codes "versioning.json"))
        → empty q ≡ some c
        → versioned q ≡ some c)
versioning_mode-set_bucket_versioning_example =
    versioning_mode-set_bucket_versioning disk store documents disk-IsFileSystem (λ t. refl) bucket
      (codes "Enabled") empty versioned tt switched_on
