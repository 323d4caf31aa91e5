-- ===== src/Tests/Expiry.antt =====
-- Examples for the lifecycle worker, on a store whose state is the list of its keys.
use kerplace.Base.{
  Text, false, not, List, [], ◌∷◌, none, some, codes, text_eq, if◌then◌else◌, filter, map, ℤ, pos,
}
use kerplace.Storage.{ObjectMeta}
use kerplace.Lifecycle.{LifecycleExpiration, Parsers, ObjectStore}

abbrev one_day : LifecycleExpiration
one_day = record { days = some 1; date = none }

-- one enabled rule whatever the document, and no dates
abbrev parsers : Parsers
parsers = record {
  parse_config = λ raw.
      some (record { status = codes "Enabled"; prefix = none; expiration = some one_day } ∷ []);
  parse_retention = λ raw. none;
  parse_rfc3339 = λ t. none;
}

abbrev old_object : Text → ObjectMeta
old_object key = record {
  key = key;
  size = 0;
  etag = [];
  last_modified = 0;
  content_type = [];
  user_metadata = [];
  encrypted = false;
  version_id = none;
  audit = none;
}

-- the key `kept` is under a legal hold
abbrev store : ObjectStore (List Text)
store = record {
  list_buckets = λ s. some (record { name = codes "b"; creation_date = 0 } ∷ []);
  get_bucket_lifecycle = λ bucket s. some [];
  list_objects_v2 = λ bucket prefix token max_keys s. some (record {
    objects = map old_object s;
    common_prefixes = [];
    is_truncated = false;
    next_continuation_token = none;
  });
  get_object_legal_hold =
      λ bucket key s. if text_eq key (codes "kept") then some (codes "ON") else none;
  get_object_retention = λ bucket key s. none;
  delete_object = λ bucket key s. filter (λ k. not (text_eq k key)) s;
}

abbrev two_days : ℤ
two_days = pos 172800000000000
