-- ===== src/Handlers/Buckets.antt =====
-- src/handlers/bucket.rs: buckets, their listings and the dispatch on the query.
use kerplace.Base.{
  Text, ℕ, ◌+◌, ◌-◌, ◌^◌, Bool, true, false, if◌then◌else◌, not, List, [], ◌∷◌, map, Option, none,
  some, codes, lookup, contains_key, is_empty, unwrap_or, eq_ignore_ascii_case, parse_unsigned, min,
  length, filter, Dict, String,
}
use kerplace.Iam.{Identity, allows_bucket}
use kerplace.Storage.{BucketInfo, Listing, ObjectVersion, VersionListing, VersionAudit}
use kerplace.Handlers.{
  ObjectStore, Web, Reply, ListBucketResult, VersionRow, ListVersionsResult, plain, xml_response,
  refused, resource_of_bucket, reply, quote_etag, parse_query, buckets, listed, listed_versions,
}
use kerplace.Handlers.Settings.{
  acknowledged, get_bucket_encryption, put_bucket_encryption, get_bucket_policy, put_bucket_policy,
  get_bucket_tagging, put_bucket_tagging, get_bucket_versioning, put_bucket_versioning,
  get_bucket_lifecycle, put_bucket_lifecycle, get_bucket_object_lock, put_bucket_object_lock,
}

-- What an identity sees of the buckets; without one, all of them.
unfoldable pub visible : Option Identity → BucketInfo → Bool
unfolding allows_bucket
visible none b = true
visible (some i) b = allows_bucket i (some b.name)

-- `max-keys`: at most 1000, and 1000 when there is no number
unfoldable pub max_keys_of : Dict Text → ℕ
unfolding lookup parse_unsigned
max_keys_of params = elim (lookup (codes "max-keys") params) [
  | none ↦ 1000
  | some v ↦ min (unwrap_or (parse_unsigned 10 (2 ^ 64 - 1) v) 1000) 1000
]

abbrev non_empty : Option Text → Option Text
non_empty none = none
non_empty (some d) = if is_empty d then none else some d

abbrev text_param : String → Dict Text → Text
unfolding lookup
text_param name params = unwrap_or (lookup (codes name) params) []

-- `encoding-type=url`
unfoldable pub url_encoded : Dict Text → Bool
unfolding lookup eq_ignore_ascii_case
url_encoded params = elim (lookup (codes "encoding-type") params) [
  | none ↦ false
  | some e ↦ eq_ignore_ascii_case e (codes "url")
]

abbrev map_option : (Text → Text) → Option Text → Option Text
map_option f none = none
map_option f (some t) = some (f t)

-- The answer of a listing, with `enc` for the keys.
unfoldable pub list_bucket_result :
    Text → Text → Option Text → ℕ → Bool → (Text → Text) → Listing → ListBucketResult
unfolding quote_etag
list_bucket_result bucket prefix delimiter max_keys encode enc listing = record {
  name = bucket;
  prefix = enc prefix;
  key_count = length listing.objects + length listing.common_prefixes;
  max_keys = max_keys;
  delimiter = map_option enc delimiter;
  encoding_type = if encode then some (codes "url") else none;
  is_truncated = listing.is_truncated;
  next_continuation_token = map_option enc listing.next_continuation_token;
  contents = map (λ m. (enc m.key, (m.last_modified, (quote_etag m.etag, m.size)))) listing.objects;
  common_prefixes = map enc listing.common_prefixes;
}

abbrev author_of : Option VersionAudit → Option Text
author_of none = none
author_of (some a) = a.author

abbrev version_row : ObjectVersion → VersionRow
unfolding quote_etag
version_row v = record {
  key = v.key;
  version_id = v.version_id;
  is_latest = v.is_latest;
  last_modified = v.last_modified;
  etag = quote_etag v.etag;
  size = v.size;
  owner = author_of v.audit;
}

-- A delete marker has neither tag, size nor owner.
abbrev marker_row : ObjectVersion → VersionRow
marker_row v = record {
  key = v.key;
  version_id = v.version_id;
  is_latest = v.is_latest;
  last_modified = v.last_modified;
  etag = [];
  size = 0;
  owner = none;
}

unfoldable pub list_versions_result :
    Text → Text → Option Text → Option Text → Option Text → ℕ → VersionListing → ListVersionsResult
unfolding quote_etag filter
list_versions_result bucket prefix delimiter key_marker version_id_marker max_keys listing =
    record {
      name = bucket;
      prefix = prefix;
      key_marker = unwrap_or key_marker [];
      version_id_marker = unwrap_or version_id_marker [];
      max_keys = max_keys;
      delimiter = delimiter;
      is_truncated = listing.is_truncated;
      next_key_marker = listing.next_key_marker;
      next_version_id_marker = listing.next_version_id_marker;
      version = map version_row (filter (λ v. not v.is_delete_marker) listing.versions);
      delete_marker = map marker_row (filter (λ v. v.is_delete_marker) listing.versions);
      common_prefixes = listing.common_prefixes;
    }

module _ {S : Type 0} (store : ObjectStore S) (web : Web) where
  unfoldable pub list_buckets : Option Identity → S → S × Reply
  unfolding visible filter xml_response refused
  list_buckets identity s =
      reply [] (store.list_buckets s)
        (λ bs. xml_response 200 (buckets (filter (visible identity) bs)))

  unfoldable pub create_bucket_inner : Text → S → S × Reply
  unfolding refused
  create_bucket_inner bucket s =
      reply (resource_of_bucket bucket) (store.create_bucket bucket s)
        (λ _. record (plain 200) { headers = (codes "location", resource_of_bucket bucket) ∷ [] })

  unfoldable pub delete_bucket_inner : Text → S → S × Reply
  unfolding refused
  delete_bucket_inner bucket s = acknowledged 204 bucket (store.delete_bucket bucket s)

  unfoldable pub head_bucket_inner : Text → S → S × Reply
  unfolding refused
  head_bucket_inner bucket s = acknowledged 200 bucket (store.head_bucket bucket s)

  unfoldable pub list_objects_inner : Text → Dict Text → S → S × Reply
  unfolding lookup max_keys_of url_encoded list_bucket_result xml_response refused
  list_objects_inner bucket params s =
      let prefix = text_param "prefix" params in
      let delimiter = non_empty (lookup (codes "delimiter") params) in
      let max_keys = max_keys_of params in
      let encode = url_encoded params in
      reply (resource_of_bucket bucket)
        (store.list_objects_v2 bucket prefix delimiter (lookup (codes "continuation-token") params)
          (lookup (codes "start-after") params) max_keys s)
        (λ listing. xml_response 200 (
          listed (
            list_bucket_result bucket prefix delimiter max_keys encode
              (if encode then web.encode_key else (λ t. t)) listing)))

  unfoldable pub list_object_versions_handler : Text → Dict Text → S → S × Reply
  unfolding lookup max_keys_of list_versions_result xml_response refused
  list_object_versions_handler bucket params s =
      let prefix = text_param "prefix" params in
      let delimiter = non_empty (lookup (codes "delimiter") params) in
      let key_marker = lookup (codes "key-marker") params in
      let version_id_marker = lookup (codes "version-id-marker") params in
      let max_keys = max_keys_of params in
      reply (resource_of_bucket bucket)
        (store.list_object_versions bucket prefix delimiter key_marker version_id_marker max_keys s)
        (λ listing. xml_response 200 (
          listed_versions (
            list_versions_result bucket prefix delimiter key_marker version_id_marker max_keys
              listing)))

  -- `PUT /{bucket}`
  unfoldable pub create_bucket : Text → Option Text → List ℕ → S → S × Reply
  unfolding parse_query contains_key create_bucket_inner put_bucket_encryption put_bucket_policy
      put_bucket_tagging put_bucket_versioning put_bucket_lifecycle put_bucket_object_lock
  create_bucket bucket query body =
      let params = parse_query web query in
      if contains_key (codes "encryption") params
      then put_bucket_encryption store web bucket body
      else if contains_key (codes "policy") params
      then put_bucket_policy store web bucket body
      else if contains_key (codes "tagging") params
      then put_bucket_tagging store web bucket body
      else if contains_key (codes "versioning") params
      then put_bucket_versioning store web bucket body
      else if contains_key (codes "lifecycle") params
      then put_bucket_lifecycle store web bucket body
      else if contains_key (codes "object-lock") params
      then put_bucket_object_lock store web bucket body
      else create_bucket_inner bucket

  -- `DELETE /{bucket}`
  unfoldable pub delete_bucket : Text → Option Text → S → S × Reply
  unfolding parse_query contains_key delete_bucket_inner refused
  delete_bucket bucket query s =
      let params = parse_query web query in
      if contains_key (codes "encryption") params
      then acknowledged 204 bucket (store.delete_bucket_encryption bucket s)
      else if contains_key (codes "policy") params
      then acknowledged 204 bucket (store.delete_bucket_policy bucket s)
      else if contains_key (codes "tagging") params
      then acknowledged 204 bucket (store.delete_bucket_tags bucket s)
      else if contains_key (codes "lifecycle") params
      then acknowledged 204 bucket (store.delete_bucket_lifecycle bucket s)
      else delete_bucket_inner bucket s

  -- `GET /{bucket}`
  unfoldable pub list_objects : Text → Option Text → S → S × Reply
  unfolding parse_query contains_key list_object_versions_handler get_bucket_encryption
      get_bucket_policy get_bucket_tagging get_bucket_versioning get_bucket_lifecycle
      get_bucket_object_lock list_objects_inner
  list_objects bucket query =
      let params = parse_query web query in
      if contains_key (codes "versions") params
      then list_object_versions_handler bucket params
      else if contains_key (codes "encryption") params
      then get_bucket_encryption store web bucket
      else if contains_key (codes "policy") params
      then get_bucket_policy store web bucket
      else if contains_key (codes "tagging") params
      then get_bucket_tagging store web bucket
      else if contains_key (codes "versioning") params
      then get_bucket_versioning store web bucket
      else if contains_key (codes "lifecycle") params
      then get_bucket_lifecycle store web bucket
      else if contains_key (codes "object-lock") params
      then get_bucket_object_lock store web bucket
      else list_objects_inner bucket params
