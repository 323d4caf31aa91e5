-- ===== src/AccessLog.antt =====
-- src/access_log.rs: the record of a finished request. The time is written by third-party code and
-- comes as an argument; the writer task and its file are left out.
use kerplace.Base.{
  Text, ℕ, Bool, ◌||◌, if◌then◌else◌, List, [], ◌∷◌, Option, none, some, codes, is_empty, is_some,
  split, split_once, starts_with, strip_prefix, trim_start_matches, ◌==◌,
}
use kerplace.Http.{Method, Uri, method_name}
use kerplace.Iam.{bucket_for}
use kerplace.Audit.{AuditContext}

pub record AccessEntry : Type 0 where
  pub ts : Text
  pub access_key : Option Text
  pub remote_ip : Option Text
  pub method : Text
  pub op : Text
  pub bucket : Option Text
  pub key : Option Text
  pub version_id : Option Text
  pub status : ℕ

abbrev after_bucket : Option (Text × Text) → Option Text
after_bucket none = none
after_bucket (some (bucket, key)) = if is_empty key then none else some key

unfoldable pub key_for : Text → Option Text
unfolding split_once trim_start_matches
key_for path = after_bucket (split_once b'/' (trim_start_matches (λ c. c == b'/') path))

unfoldable pub first_stripped : Text → List Text → Option Text
unfolding strip_prefix
first_stripped p [] = none
first_stripped p (s ∷ ss) =
    let rest = first_stripped p ss in elim (strip_prefix s p) [ some v ↦ some v | none ↦ rest ]

unfoldable pub version_id_from_query : Option Text → Option Text
unfolding split first_stripped
version_id_from_query none = none
version_id_from_query (some q) = first_stripped (codes "versionId=") (split b'&' q)

unfoldable pub op_for : Method → Bool → Bool → Text → Text
unfolding starts_with
op_for method has_bucket has_key path =
    if starts_with path (codes "/kerplace/admin") || starts_with path (codes "/minio/admin")
    then codes "AdminRequest"
    else if has_bucket
    then if has_key
      then elim method [
        | Method.get ↦ codes "GetObject"
        | Method.head ↦ codes "HeadObject"
        | Method.put ↦ codes "PutObject"
        | Method.delete ↦ codes "DeleteObject"
        | Method.post ↦ codes "PostObject"
        | _ ↦ codes "Other"
      ]
      else elim method [
        | Method.get ↦ codes "ListObjects"
        | Method.head ↦ codes "HeadBucket"
        | Method.put ↦ codes "CreateBucket"
        | Method.delete ↦ codes "DeleteBucket"
        | Method.post ↦ codes "PostBucket"
        | _ ↦ codes "Other"
      ]
    else elim method [
      | Method.get ↦ codes "ListBuckets"
      | Method.post ↦ codes "AssumeRole"
      | _ ↦ codes "Other"
    ]

unfoldable pub entry_for : Text → Method → Uri → AuditContext → ℕ → AccessEntry
unfolding method_name op_for version_id_from_query key_for
entry_for ts method uri ctx status = record {
  ts = ts;
  access_key = ctx.access_key;
  remote_ip = ctx.remote_ip;
  method = method_name method;
  op = op_for method (is_some (bucket_for uri.path)) (is_some (key_for uri.path)) uri.path;
  bucket = bucket_for uri.path;
  key = key_for uri.path;
  version_id = version_id_from_query uri.query;
  status = status;
}
