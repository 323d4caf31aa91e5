-- ===== src/Handlers/Documents.antt =====
-- src/s3/xml.rs: what the XML documents of the answers say.
use kerplace.Base.{Text, ℕ, Bool, List, Option, Dict}
use kerplace.Storage.{BucketInfo, PartInfo}

-- A retention of an object: its mode and its date, where it has them.
pub record ObjectRetention : Type 0 where
  pub mode : Option Text
  pub retain_until_date : Option Text

-- What a listing of objects asks for and answers: the fields of `ListBucketResult`.
pub record ListBucketResult : Type 0 where
  pub name : Text
  pub prefix : Text
  pub key_count : ℕ
  pub max_keys : ℕ
  pub delimiter : Option Text
  pub encoding_type : Option Text
  pub is_truncated : Bool
  pub next_continuation_token : Option Text
  pub contents : List (Text × (ℕ × (Text × ℕ)))
  pub common_prefixes : List Text

-- A row of `ListVersionsResult`: a version with its quoted tag and its owner, or a delete marker.
pub record VersionRow : Type 0 where
  pub key : Text
  pub version_id : Text
  pub is_latest : Bool
  pub last_modified : ℕ
  pub etag : Text
  pub size : ℕ
  pub owner : Option Text

pub record ListVersionsResult : Type 0 where
  pub name : Text
  pub prefix : Text
  pub key_marker : Text
  pub version_id_marker : Text
  pub max_keys : ℕ
  pub delimiter : Option Text
  pub is_truncated : Bool
  pub next_key_marker : Option Text
  pub next_version_id_marker : Option Text
  pub version : List VersionRow
  pub delete_marker : List VersionRow
  pub common_prefixes : List Text

-- The documents of the answers, which `xml::to_xml` writes.
pub data Document : Type 0 where
  tagging : Dict Text → Document
  retention : ObjectRetention → Document
  legal_hold : Text → Document
  copy_result : (last_modified : ℕ) (etag : Text) → Document
  initiated : (bucket key upload_id : Text) → Document
  completed : (location bucket key etag : Text) → Document
  parts : (bucket key upload_id : Text) → List PartInfo → Document
  buckets : List BucketInfo → Document
  listed : ListBucketResult → Document
  listed_versions : ListVersionsResult → Document
  sse_configuration : Text → Document
  versioning : Option Text → Document
  object_lock_configuration : Text → Document
  raw_document : Text → Document
  post_response : (location bucket key etag : Text) → Document
  delete_result : (deleted : List Text) (errors : List (Text × (Text × Text))) → Document
