-- ===== src/Tests/Handlers.antt =====
-- Examples for the handlers: a store of keys, of which `held` is under a legal hold.
use kerplace.Base.{
  Text, ◌⊎◌, ◌≡◌, refl, true, false, if◌then◌else◌, List, [], ◌∷◌, filter, not, Option, none, some,
  codes, text_eq, Dict, done, lookup, contains_key, insert, split, split_once, pos,
}
use kerplace.Error.{ok, err, not_implemented, object_locked}
use kerplace.Calls.{Call}
use kerplace.Storage.{no_outcome}
use kerplace.Handlers.{
  ObjectStore, Web, refused, resource_of, xml_response, delete_result, parse_query, query_pairs,
}
use kerplace.Handlers.Batch.{post_bucket_inner}
use kerplace.Handlers.Objects.{delete_object_dispatch}
use kerplace.Handlers.Enforced.{
  LocksRead, IsHeld, IsKept, Deletes, deletion, delete_object_dispatch-is_locked,
  post_bucket_inner_each,
}

abbrev Keys : Type 0
Keys = List Text

abbrev never : {A : Type 0} → Call Keys A
never s = (s, err not_implemented)

abbrev held : Text
held = codes "held"

abbrev store : ObjectStore Keys
unfolding text_eq filter
store = record {
  list_buckets = never;
  create_bucket = λ b. never;
  delete_bucket = λ b. never;
  head_bucket = λ b. never;
  list_objects_v2 = λ b p d c a n. never;
  list_object_versions = λ b p d k v n. never;
  get_bucket_encryption = λ b. never;
  set_bucket_encryption = λ b t. never;
  delete_bucket_encryption = λ b. never;
  get_bucket_policy = λ b. never;
  set_bucket_policy = λ b t. never;
  delete_bucket_policy = λ b. never;
  get_bucket_tags = λ b. never;
  set_bucket_tags = λ b t. never;
  delete_bucket_tags = λ b. never;
  get_bucket_versioning = λ b. never;
  set_bucket_versioning = λ b t. never;
  get_bucket_lifecycle = λ b. never;
  set_bucket_lifecycle = λ b t. never;
  delete_bucket_lifecycle = λ b. never;
  put_object = λ b k c t m e. never;
  get_object = λ b k. never;
  get_object_range = λ b k f l. never;
  head_object = λ b k. never;
  delete_object = λ b k s. (filter (λ j. not (text_eq j k)) s, ok no_outcome);
  get_object_version = λ b k v. never;
  head_object_version = λ b k v. never;
  delete_object_version = λ b k v. never;
  copy_object = λ b k c l e. never;
  get_object_tags = λ b k. never;
  set_object_tags = λ b k t. never;
  delete_object_tags = λ b k. never;
  get_object_retention = λ b k s. (s, ok none);
  set_object_retention = λ b k t. never;
  get_object_legal_hold = λ b k s. (s, ok (if text_eq k held then some (codes "ON") else none));
  set_object_legal_hold = λ b k t. never;
  create_multipart = λ b k t m e. never;
  upload_part = λ b k u n c. never;
  complete_multipart = λ b k u ps. never;
  abort_multipart = λ b k u. never;
  list_parts = λ b k u. never;
}

-- The batch deletion's body is the key itself.
abbrev web : Web
web = record {
  percent_decode = λ t. t;
  http_date = λ n. [];
  decimal = λ n. [];
  is_header_value = λ t. true;
  is_header_name = λ t. true;
  to_bytes = λ n b. done b;
  from_utf8_lossy = λ b. b;
  encode_key = λ t. t;
  encode_all = λ t. t;
  parse_sse = λ t. done t;
  parse_versioning = λ t. done (some t);
  parse_lifecycle = λ t. true;
  parse_tagging = λ t. done [];
  parse_retention = λ t. done (record { mode = none; retain_until_date = some t });
  parse_legal_hold = λ t. done t;
  parse_complete = λ t. done [];
  parse_delete = λ t. done (false, t ∷ []);
  write_retention = λ r. [];
  to_uppercase = λ t. t;
  parse_rfc3339 = λ t. none;
}

locks_read : LocksRead store web
unfolding store
locks_read = record { hold_reads = λ b k s. refl; retention_reads = λ b k s. refl }

abbrev version : Option Text
version = some (codes "versionId=3")

no_upload : lookup (codes "uploadId") (parse_query web version) ≡ none
unfolding parse_query query_pairs split split_once insert lookup text_eq
no_upload = refl

no_tags : contains_key (codes "tagging") (parse_query web version) ≡ false
unfolding parse_query query_pairs split split_once insert lookup text_eq contains_key
no_tags = refl

-- The version of a held key stays.
delete_object_dispatch-is_locked_example :
    ((IsHeld store web (codes "b") held (held ∷ [])
        ⊎ IsKept store web (pos 0) (codes "b") held (held ∷ []))
      × (delete_object_dispatch store web (pos 0) (codes "b") held version (held ∷ [])
          ≡ (held ∷ [], refused object_locked (resource_of (codes "b") held))))
    ⊎ (¬ (
          IsHeld store web (codes "b") held (held ∷ [])
          ⊎ IsKept store web (pos 0) (codes "b") held (held ∷ []))
        × (delete_object_dispatch store web (pos 0) (codes "b") held version (held ∷ [])
            ≡ deletion store web
                (codes "b")
                held
                (lookup (codes "versionId") (parse_query web version))
                (held ∷ [])))
delete_object_dispatch-is_locked_example =
    delete_object_dispatch-is_locked store web locks_read (pos 0) (codes "b") held version
      (held ∷ []) refl no_upload no_tags

abbrev delete_query : Dict Text
delete_query = (codes "delete", []) ∷ []

is_delete : contains_key (codes "delete") delete_query ≡ true
unfolding contains_key lookup text_eq
is_delete = refl

-- The held key is gone.
post_bucket_inner_each_example :
    (deleted : List Text) × (errors : List (Text × (Text × Text))) × Deletes store web
      (codes "b")
      (held ∷ [])
      (held ∷ [])
      deleted
      errors
      (post_bucket_inner store web (codes "b") delete_query held (held ∷ [])).0
    × ((post_bucket_inner store web (codes "b") delete_query held (held ∷ [])).1
        ≡ xml_response 200 (delete_result deleted errors))
post_bucket_inner_each_example =
    post_bucket_inner_each store web (codes "b") delete_query held (held ∷ []) false (held ∷ [])
      is_delete refl
