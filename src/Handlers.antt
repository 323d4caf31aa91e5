-- ===== src/Handlers.antt =====
-- src/handlers: the requests on objects, over the store as a parameter. XML documents, dates, percent
-- coding and the values that a header can hold are third-party code, parameters too.
pub mod Documents
pub mod Multipart
pub mod Locked
pub mod Settings
pub mod Buckets
pub mod Objects
pub mod Batch
pub mod Enforced
pub use Documents.*
use kerplace.Base.{
  Text, ℕ, ◌||◌, Bool, true, false, if◌then◌else◌, List, [], ◌∷◌, ◌++◌, Option, none, some, codes,
  Dict, insert, eq_ignore_ascii_case, is_some, unwrap_or, split, split_once, is_empty, filter, not,
  strip_prefix, ℤ, Outcome, done, failed, String,
}
use kerplace.Error.{Result, S3Error, ok, err, status, invalid_argument}
use kerplace.Http.{Headers, header}
use kerplace.Storage.{
  ObjectMeta, DeleteOutcome, PartInfo, CompletedPart, BucketInfo, Listing, VersionListing,
}
use kerplace.Calls.{Call}

-- What the handlers call of `ObjectStore`.
pub record ObjectStore (S : Type 0) : Type 0 where
  pub list_buckets : Call S (List BucketInfo)
  pub create_bucket : Text → Call S (Unit {0})
  pub delete_bucket : Text → Call S (Unit {0})
  pub head_bucket : Text → Call S (Unit {0})
  pub list_objects_v2 : Text → Text → Option Text → Option Text → Option Text → ℕ → Call S Listing
  pub list_object_versions :
      Text → Text → Option Text → Option Text → Option Text → ℕ → Call S VersionListing
  pub get_bucket_encryption : Text → Call S (Option Text)
  pub set_bucket_encryption : Text → Text → Call S (Unit {0})
  pub delete_bucket_encryption : Text → Call S (Unit {0})
  pub get_bucket_policy : Text → Call S (Option Text)
  pub set_bucket_policy : Text → Text → Call S (Unit {0})
  pub delete_bucket_policy : Text → Call S (Unit {0})
  pub get_bucket_tags : Text → Call S (Option (Dict Text))
  pub set_bucket_tags : Text → Dict Text → Call S (Unit {0})
  pub delete_bucket_tags : Text → Call S (Unit {0})
  pub get_bucket_versioning : Text → Call S Text
  pub set_bucket_versioning : Text → Text → Call S (Unit {0})
  pub get_bucket_lifecycle : Text → Call S (Option Text)
  pub set_bucket_lifecycle : Text → Text → Call S (Unit {0})
  pub delete_bucket_lifecycle : Text → Call S (Unit {0})
  pub put_object : Text → Text → List ℕ → Text → Dict Text → Bool → Call S ObjectMeta
  pub get_object : Text → Text → Call S (ObjectMeta × List ℕ)
  pub get_object_range : Text → Text → ℕ → Option ℕ → Call S (ObjectMeta × (ℕ × List ℕ))
  pub head_object : Text → Text → Call S ObjectMeta
  pub delete_object : Text → Text → Call S DeleteOutcome
  pub get_object_version : Text → Text → Text → Call S (ObjectMeta × List ℕ)
  pub head_object_version : Text → Text → Text → Call S ObjectMeta
  pub delete_object_version : Text → Text → Text → Call S DeleteOutcome
  pub copy_object : Text → Text → Text → Text → Bool → Call S ObjectMeta
  pub get_object_tags : Text → Text → Call S (Option (Dict Text))
  pub set_object_tags : Text → Text → Dict Text → Call S (Unit {0})
  pub delete_object_tags : Text → Text → Call S (Unit {0})
  pub get_object_retention : Text → Text → Call S (Option Text)
  pub set_object_retention : Text → Text → Text → Call S (Unit {0})
  pub get_object_legal_hold : Text → Text → Call S (Option Text)
  pub set_object_legal_hold : Text → Text → Text → Call S (Unit {0})
  pub create_multipart : Text → Text → Text → Dict Text → Bool → Call S Text
  pub upload_part : Text → Text → Text → ℕ → List ℕ → Call S Text
  pub complete_multipart : Text → Text → Text → List CompletedPart → Call S ObjectMeta
  pub abort_multipart : Text → Text → Text → Call S (Unit {0})
  pub list_parts : Text → Text → Text → Call S (List PartInfo)

pub data Payload : Type 0 where
  empty : Payload
  document : Document → Payload
  text_body : Text → Payload
  stream : List ℕ → Payload
  error_body : S3Error → Text → Payload

pub record Reply : Type 0 where
  pub http_status : ℕ
  pub headers : Dict Text
  pub payload : Payload

-- The third-party functions; `to_bytes` reads a body of at most so many bytes.
pub record Web : Type 0 where
  pub percent_decode : Text → Text
  pub http_date : ℕ → Text
  pub decimal : ℕ → Text
  pub is_header_value : Text → Bool
  pub is_header_name : Text → Bool
  pub to_bytes : ℕ → List ℕ → Outcome Text (List ℕ)
  pub from_utf8_lossy : List ℕ → Text
  pub encode_key : Text → Text
  pub encode_all : Text → Text
  pub parse_sse : Text → Outcome Text Text
  pub parse_versioning : Text → Outcome Text (Option Text)
  pub parse_lifecycle : Text → Bool
  pub parse_tagging : Text → Outcome Text (List (Text × Text))
  pub parse_retention : Text → Outcome Text ObjectRetention
  pub parse_legal_hold : Text → Outcome Text Text
  pub parse_complete : Text → Outcome Text (List CompletedPart)
  pub parse_delete : Text → Outcome Text (Bool × List Text)
  pub write_retention : ObjectRetention → Text
  pub to_uppercase : Text → Text
  pub parse_rfc3339 : Text → Option ℤ

abbrev pub plain : ℕ → Reply
plain status = record { http_status = status; headers = []; payload = empty }

-- `xml_response`
unfoldable pub xml_response : ℕ → Document → Reply
xml_response status d = record {
  http_status = status;
  headers = (codes "content-type", codes "application/xml") ∷ [];
  payload = document d;
}

-- `into_response_with_resource`
unfoldable pub refused : S3Error → Text → Reply
unfolding status
refused e resource = record {
  http_status = status e;
  headers = (codes "content-type", codes "application/xml") ∷ [];
  payload = error_body e resource;
}

-- `format!("/{bucket}/{key}")`
abbrev pub resource_of : Text → Text → Text
resource_of bucket key = codes "/" ++ (bucket ++ (codes "/" ++ key))

-- `format!("/{bucket}")`
abbrev pub resource_of_bucket : Text → Text
resource_of_bucket bucket = codes "/" ++ bucket

-- `.collect()` into a `BTreeMap`
unfoldable pub collect : List (Text × Text) → Dict Text → Dict Text
unfolding insert
collect [] m = m
collect ((k, v) ∷ kvs) m = collect kvs (insert k v m)

unfoldable pub quote_etag : Text → Text
quote_etag etag = codes "\"" ++ (etag ++ codes "\"")

-- `S3Error::InvalidArgument(m.into())`
abbrev pub invalid : String → Text → Reply
invalid m resource = refused (invalid_argument (codes m)) resource

-- The text of a body that has at most so many bytes.
abbrev pub body_text : Web → ℕ → List ℕ → Option Text
body_text web limit body = elim (web.to_bytes limit body) [
  | failed _ ↦ none
  | done b ↦ some (web.from_utf8_lossy b)
]

abbrev is_aes : Option Text → Bool
is_aes none = false
is_aes (some v) = eq_ignore_ascii_case v (codes "AES256")

unfoldable pub sse_requested : Headers → Bool
unfolding header eq_ignore_ascii_case
sse_requested headers = is_aes (header headers (codes "x-amz-server-side-encryption"))

unfoldable pub content_type_of : Headers → Text
unfolding header
content_type_of headers =
    unwrap_or (header headers (codes "content-type")) (codes "application/octet-stream")

abbrev with_meta : Option Text → Option Text → Dict Text → Dict Text
with_meta (some suffix) (some v) m = insert suffix v m
with_meta _ _ m = m

unfoldable pub extract_user_metadata : Headers → Dict Text
unfolding strip_prefix insert
extract_user_metadata [] = []
extract_user_metadata ((name, v) ∷ hs) =
    with_meta (strip_prefix name (codes "x-amz-meta-")) v (extract_user_metadata hs)

abbrev pair_of : Text → Option (Text × Text) → Text × Text
pair_of pair none = (pair, [])
pair_of pair (some kv) = kv

-- A query's parameters, the last value of a name.
unfoldable pub query_pairs : Web → List Text → Dict Text → Dict Text
unfolding split_once insert
query_pairs web [] m = m
query_pairs web (p ∷ ps) m =
    let (k, v) = pair_of p (split_once b'=' p) in
    query_pairs web ps
      (if is_empty p then m else insert (web.percent_decode k) (web.percent_decode v) m)

unfoldable pub parse_query : Web → Option Text → Dict Text
unfolding query_pairs split
parse_query web none = []
parse_query web (some q) = query_pairs web (split b'&' q) []

-- `(fails | none | some)` of the bucket's default encryption
unfoldable pub is_sealed : Result (Option Text) → Bool
is_sealed (ok (some _)) = true
is_sealed _ = false

-- An answer from what the store has given.
abbrev pub reply {ℓ} : {S : Type 0} {A : Type ℓ} → Text → S × Result A → (A → Reply) → S × Reply
reply resource (s, ok a) f = (s, f a)
reply resource (s, err e) f = (s, refused e resource)
