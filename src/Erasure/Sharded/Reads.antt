-- ===== src/Erasure/Sharded/Reads.antt =====
-- src/erasure/store.rs: how `get_object` comes to the stored bytes: `read_xl`, `streaming_body` and
-- `meta_to_object`. What it makes of the bytes of an encrypted object is left to the container.
use kerplace.Base.{Text, ℕ, if◌then◌else◌, List, none, some, codes, done, failed}
use kerplace.Error.{Result, ok, err, internal}
use kerplace.Storage.{ObjectMeta, VersionAudit, audit_is_some}
use kerplace.Erasure.Drives.{XlMeta, Drive}
use kerplace.Erasure.Versions.{read_xl_v}
use kerplace.Erasure.Codec.{Shard, ReedSolomon, new}
use kerplace.Erasure.Sharded.{reconstruct_into}

unfoldable pub meta_to_object : Text → XlMeta → ObjectMeta
meta_to_object key m =
    let audit : VersionAudit = record { author = m.owner; source_ip = m.src_ip } in
    record {
      key = key;
      size = m.size;
      etag = m.etag;
      last_modified = m.last_modified;
      content_type = m.content_type;
      user_metadata = m.user_metadata;
      encrypted = m.encrypted;
      version_id = none;
      audit = if audit_is_some audit then some audit else none;
    }

-- The codec is the one that the metadata names.
unfoldable pub streaming_body :
    (Shard → Text) → (ℕ → ℕ → ReedSolomon) → XlMeta → List Drive → Result (List ℕ)
unfolding new reconstruct_into
streaming_body checksum make m ds = elim (new make m.data_shards m.parity) [
  | failed e ↦ err (internal (codes "erasure codec: "))
  | done c ↦ ok (reconstruct_into checksum c m ds)
]

abbrev with_body : ObjectMeta → Result (List ℕ) → Result (ObjectMeta × List ℕ)
with_body m (err e) = err e
with_body m (ok body) = ok (m, body)

abbrev read_back :
    (Shard → Text)
    → (ℕ → ℕ → ReedSolomon)
    → Text
    → List Drive
    → Result XlMeta
    → Result (ObjectMeta × List ℕ)
unfolding streaming_body meta_to_object
read_back checksum make key ds (err e) = err e
read_back checksum make key ds (ok m) =
    with_body (meta_to_object key m) (streaming_body checksum make m ds)

-- The first copy of the metadata that a drive has, and the bytes that it describes.
unfoldable pub stored_object :
    (Shard → Text) → (ℕ → ℕ → ReedSolomon) → Text → List Drive → Result (ObjectMeta × List ℕ)
unfolding read_xl_v read_back
stored_object checksum make key ds = read_back checksum make key ds (read_xl_v none ds)
