-- ===== src/Handlers/Objects.antt =====
-- src/handlers/object.rs: the requests on an object, by method and query.
pub mod Described
pub mod Stored
use kerplace.Base.{
  Text, ℕ, ◌||◌, ◌++◌, ◌^◌, ◌*◌, Bool, true, false, if◌then◌else◌, List, [], ◌∷◌, Option, none,
  some, codes, lookup, contains_key, is_empty, split, split_once, trim_start_matches, unwrap_or,
  ◌==◌, ℤ, Outcome, done, failed, Dict,
}
use kerplace.Http.{Headers, header}
use kerplace.Error.{Result, S3Error, ok, err, not_implemented, invalid_argument}
use kerplace.Storage.{ObjectMeta, DeleteOutcome}
use kerplace.Ranges.{Range, parse_range, resolve_range}
use kerplace.Handlers.{
  ObjectStore, Web, Reply, plain, xml_response, refused, invalid, body_text, resource_of, reply,
  quote_etag, collect, content_type_of, extract_user_metadata, sse_requested, parse_query,
  is_sealed, tagging, copy_result,
}
use kerplace.Handlers.Locked.{
  check_object_lock, get_object_retention, put_object_retention, get_object_legal_hold,
  put_object_legal_hold,
}
use kerplace.Handlers.Multipart.{create, upload_part, complete, abort, list_parts}
use kerplace.Handlers.Buckets.{
  create_bucket_inner, delete_bucket_inner, head_bucket_inner, list_objects_inner,
}
use kerplace.Handlers.Batch.{post_bucket_inner}
use Stored.{
  TagMethod, get_tags, put_tags, delete_tags, handle_object_tagging, copy_object, store_object,
}
use Described.{described, delete_response, put_response, range_response, head_response}

module _ {S : Type 0} (store : ObjectStore S) (web : Web) where
  abbrev put_plain : Bool → Text → Text → Headers → List ℕ → Option Text → S → S × Reply
  unfolding copy_object store_object
  put_plain enabled bucket key headers body (some source) s =
      copy_object store web enabled bucket key source headers s
  put_plain enabled bucket key headers body none s =
      store_object store web enabled bucket key headers body s

  abbrev put_part :
      Bool → Text → Text → Headers → Dict Text → List ℕ → Option Text → Option Text → S → S × Reply
  unfolding contains_key upload_part handle_object_tagging put_object_retention
      put_object_legal_hold copy_object store_object header
  put_part enabled bucket key headers params body (some part_number) (some upload_id) s =
      upload_part store web bucket key upload_id part_number body s
  put_part enabled bucket key headers params body _ _ s =
      if contains_key (codes "tagging") params
      then handle_object_tagging store web bucket key put_tags body s
      else if contains_key (codes "retention") params
      then put_object_retention store web bucket key body s
      else if contains_key (codes "legal-hold") params
      then put_object_legal_hold store web bucket key body s
      else put_plain enabled bucket key headers body (header headers (codes "x-amz-copy-source")) s

  unfoldable pub put_object_dispatch :
      Bool → Text → Text → Headers → Option Text → List ℕ → S → S × Reply
  unfolding parse_query lookup create_bucket_inner contains_key upload_part handle_object_tagging
      put_object_retention put_object_legal_hold copy_object store_object header
  put_object_dispatch enabled bucket key headers query body s =
      let params = parse_query web query in
      if is_empty key
      then create_bucket_inner store web bucket s
      else put_part enabled bucket key headers params body (lookup (codes "partNumber") params)
          (lookup (codes "uploadId") params) s

  abbrev range_of : Option Text → Option Range
  unfolding parse_range
  range_of none = none
  range_of (some value) = parse_range value

  -- The metadata first, for the size, and then the bytes of the range.
  abbrev get_range : Text → Text → Range → S × Result ObjectMeta → S × Reply
  unfolding resolve_range range_response refused
  get_range bucket key range (s, err e) = (s, refused e (resource_of bucket key))
  get_range bucket key range (s, ok m) =
      let (from, last) = resolve_range range m.size in
      reply (resource_of bucket key) (store.get_object_range bucket key from (some last) s)
        (λ (meta, (len, body)). range_response web from last m.size meta len body)

  unfoldable pub get_current : Text → Text → Headers → S → S × Reply
  unfolding header parse_range resolve_range range_response refused described
  get_current bucket key headers s = elim (range_of (header headers (codes "range"))) [
    | some range ↦ get_range bucket key range (store.head_object bucket key s)
    | none ↦
        reply (resource_of bucket key) (store.get_object bucket key s)
          (λ (meta, body). described web meta body)
  ]

  unfoldable pub get_object_version_response : Text → Text → Text → S → S × Reply
  unfolding refused described
  get_object_version_response bucket key version_id s =
      reply (resource_of bucket key) (store.get_object_version bucket key version_id s)
        (λ (meta, body). described web meta body)

  abbrev get_version : Text → Text → Headers → Option Text → S → S × Reply
  unfolding get_object_version_response get_current
  get_version bucket key headers (some vid) s = get_object_version_response bucket key vid s
  get_version bucket key headers none s = get_current bucket key headers s

  abbrev get_parts : Text → Text → Headers → Dict Text → Option Text → S → S × Reply
  unfolding contains_key lookup list_parts handle_object_tagging get_object_retention
      get_object_legal_hold get_object_version_response get_current
  get_parts bucket key headers params (some upload_id) s =
      list_parts store web bucket key upload_id s
  get_parts bucket key headers params none s =
      if contains_key (codes "tagging") params
      then handle_object_tagging store web bucket key get_tags [] s
      else if contains_key (codes "retention") params
      then get_object_retention store web bucket key s
      else if contains_key (codes "legal-hold") params
      then get_object_legal_hold store web bucket key s
      else get_version bucket key headers (lookup (codes "versionId") params) s

  unfoldable pub get_object_dispatch : Text → Text → Headers → Option Text → S → S × Reply
  unfolding parse_query lookup list_objects_inner contains_key list_parts handle_object_tagging
      get_object_retention get_object_legal_hold get_object_version_response get_current
  get_object_dispatch bucket key headers query s =
      let params = parse_query web query in
      if is_empty key
      then list_objects_inner store web bucket params s
      else get_parts bucket key headers params (lookup (codes "uploadId") params) s

  abbrev head_call : Text → Text → Option Text → S → S × Result ObjectMeta
  head_call bucket key (some vid) s = store.head_object_version bucket key vid s
  head_call bucket key none s = store.head_object bucket key s

  unfoldable pub head_object : Text → Text → Option Text → S → S × Reply
  unfolding parse_query lookup head_bucket_inner head_response refused
  head_object bucket key query s =
      if is_empty key
      then head_bucket_inner store web bucket s
      else reply (resource_of bucket key)
          (head_call bucket key (lookup (codes "versionId") (parse_query web query)) s)
          (head_response web)

  abbrev pub removed : Text → Text → Option Text → S × Result (Unit {0}) → S × Reply
  unfolding delete_response refused
  removed bucket key version (s, err e) = (s, refused e (resource_of bucket key))
  removed bucket key (some vid) (s, ok _) =
      reply (resource_of bucket key) (store.delete_object_version bucket key vid s)
        (delete_response web)
  removed bucket key none (s, ok _) =
      reply (resource_of bucket key) (store.delete_object bucket key s) (delete_response web)

  abbrev pub delete_parts : ℤ → Text → Text → Dict Text → Option Text → S → S × Reply
  unfolding contains_key lookup abort handle_object_tagging check_object_lock delete_response
      refused
  delete_parts now bucket key params (some upload_id) s = abort store web bucket key upload_id s
  delete_parts now bucket key params none s =
      if contains_key (codes "tagging") params
      then handle_object_tagging store web bucket key delete_tags [] s
      else removed bucket key (lookup (codes "versionId") params)
          (check_object_lock store web now bucket key s)

  unfoldable pub delete_object_dispatch : ℤ → Text → Text → Option Text → S → S × Reply
  unfolding parse_query delete_bucket_inner contains_key lookup abort handle_object_tagging
      check_object_lock delete_response refused
  delete_object_dispatch now bucket key query s =
      let params = parse_query web query in
      if is_empty key
      then delete_bucket_inner store web bucket s
      else delete_parts now bucket key params (lookup (codes "uploadId") params) s

  abbrev post_upload : Text → Text → Dict Text → List ℕ → Option Text → S → S × Reply
  unfolding complete contains_key handle_object_tagging refused
  post_upload bucket key params body (some upload_id) s =
      complete store web bucket key upload_id body s
  post_upload bucket key params body none s =
      if contains_key (codes "tagging") params
      then handle_object_tagging store web bucket key put_tags body s
      else (s, refused not_implemented (resource_of bucket key))

  unfoldable pub post_object_dispatch :
      Bool → Text → Text → Headers → Option Text → List ℕ → S → S × Reply
  unfolding parse_query post_bucket_inner create complete contains_key lookup handle_object_tagging
      refused
  post_object_dispatch enabled bucket key headers query body s =
      let params = parse_query web query in
      if is_empty key
      then post_bucket_inner store web bucket params
          (unwrap_or (body_text web (16 * 2 ^ 20) body) []) s
      else if contains_key (codes "uploads") params
      then create store web enabled bucket key headers s
      else post_upload bucket key params body (lookup (codes "uploadId") params) s
