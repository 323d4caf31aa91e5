-- ===== src/Tests/Objects.antt =====
-- Examples for the erasure-coded store: three drives, of which one cannot be reached.
use kerplace.Base.{
  strip_prefix, contains_char, split_once, parse_unsigned, after_sign, parse_digits, digit_value,
  Text, ℕ, ◌≡◌, refl, ◌≤◌, ◌+◌, ◌++◌, Bool, true, false, List, [], ◌∷◌, map, Option, none, some,
  codes, any, lookup, arith, length, all, text_ltb,
}
use kerplace.Error.{ok}
use kerplace.Ranges.{
  parse_range, resolve_range, get_object_range, requested, get_object_range-resolve_range,
}
use kerplace.Storage.{ObjectMeta}
use kerplace.Audit.{no_context}
use kerplace.Erasure.Drives.{
  VEntry, VHistory, XlMeta, Drive, read_history, write_history, has_history, best_of, copies,
}
use kerplace.Erasure.Versions.{marker, delete_object, delete_object_version, enabled}
use kerplace.Erasure.History.{set_up, both_up, IsNewest, read_history-write_history}
use kerplace.Erasure.Undelete.{IsUnarchived, files_of, delete_undone}
use kerplace.Erasure.Listing.{Query, page, WalkEntry, is_skipped, group_of}
use kerplace.Erasure.Pages.{eligible, from_token, IsRising, page-from_token}
use kerplace.Erasure.VersionPages.{list_object_versions}
use kerplace.Erasure.VersionBounds.{list_object_versions_page}

abbrev first_version : VEntry
first_version = record {
  version_id = codes "v1";
  delete_marker = false;
  last_modified = 10;
  etag = codes "e";
  size = 2;
  owner = none;
  src_ip = none;
}

abbrev history : VHistory
history = record { versions = first_version ∷ []; epoch = 4 }

abbrev xl : XlMeta
xl = record {
  version = 1;
  data_shards = 2;
  parity = 1;
  block_size = 1024;
  stored_size = 2;
  size = 2;
  etag = codes "e";
  content_type = [];
  user_metadata = [];
  encrypted = false;
  last_modified = 10;
  owner = none;
  src_ip = none;
  checksums = [];
}

abbrev drive : Bool → List ℕ → Option VHistory → Drive
drive up shard h = record {
  up = up;
  current = record { xl = some xl; part = some shard };
  archive = [];
  history = h;
}

abbrev stale : VHistory
stale = record { versions = []; epoch = 2 }

abbrev drives : List Drive
drives =
    drive true (1 ∷ []) (some history)
    ∷ drive false (2 ∷ []) (some stale)
    ∷ drive true (3 ∷ []) (some history)
    ∷ []

history_read : read_history drives ≡ history
unfolding read_history best_of copies
history_read = refl

newest : IsNewest history drives
unfolding IsNewest
newest = (omega arith, (omega arith, (omega arith, omega arith)))

reachable : both_up (false ∷ true ∷ true ∷ []) drives ≡ true
unfolding both_up
reachable = refl

-- afterwards the first drive is away, and the second is back with its old copy
read_history-write_history_example :
    read_history (set_up (false ∷ true ∷ true ∷ []) (write_history history drives).0)
    ≡ record { versions = first_version ∷ []; epoch = 4 + 1 }
read_history-write_history_example =
    read_history-write_history history (false ∷ true ∷ true ∷ []) drives newest reachable

has_it : has_history drives ≡ true
unfolding has_history any
has_it = refl

some_up : any (λ d. d.up) drives ≡ true
unfolding any
some_up = refl

IsNewest-read_history : IsNewest (read_history drives) drives
IsNewest-read_history = rw history_read newest

unarchived : IsUnarchived (codes "v1") drives
unfolding IsUnarchived lookup
unarchived = (refl, (refl, (refl, omega arith)))

versions_read : (read_history drives).versions ≡ first_version ∷ []
versions_read = rw history_read refl

delete_undone_example :
    (deleted : List Drive) × (back : List Drive) × (delete_object no_context enabled
        (codes "m1")
        20
        drives
      ≡ (deleted, ok (record { version_id = some (codes "m1"); delete_marker = true })))
    × ((read_history deleted).versions ≡ marker no_context (codes "m1") 20 ∷ first_version ∷ [])
    × (delete_object_version (codes "m1") deleted
        ≡ (back, ok (record { version_id = some (codes "m1"); delete_marker = true })))
    × ((read_history back).versions ≡ first_version ∷ [])
    × (map files_of back ≡ map files_of drives)
delete_undone_example =
    delete_undone no_context (codes "m1") 20 drives first_version [] has_it some_up
      IsNewest-read_history versions_read refl unarchived

abbrev query : Query
query = record { prefix = []; delimiter = none; token = none; start_after = none; max_keys = 2 }

abbrev keys : List Text
keys = codes "a" ∷ codes "b" ∷ codes "c" ∷ []

rising : IsRising keys
unfolding IsRising all text_ltb
rising = (refl, (refl, (refl, omega arith)))

stops_at_c : (page query [] 0 keys).next ≡ some (codes "c")
unfolding page is_skipped group_of
stops_at_c = refl

page-from_token_example :
    ((page query [] 0 keys).chosen ++ eligible (from_token query (codes "c")) keys
      ≡ eligible query keys)
    × (length (page query [] 0 keys).chosen ≡ 2)
page-from_token_example = page-from_token query keys (codes "c") refl rising stops_at_c

abbrev walks : List (Option (List WalkEntry))
walks =
    some (record { rel = codes "a" ∷ codes "xl.meta" ∷ []; is_file = true } ∷ [])
    ∷ none
    ∷ some (record { rel = codes "b" ∷ codes "xl.meta" ∷ []; is_file = true } ∷ [])
    ∷ []

abbrev meta_of : Text → Option ObjectMeta
meta_of key = some (record {
  key = key;
  size = 0;
  etag = [];
  last_modified = 0;
  content_type = [];
  user_metadata = [];
  encrypted = false;
  version_id = none;
  audit = none;
})

list_object_versions_page_example :
    let r =
      list_object_versions
        (λ k. history.versions)
        (λ k. some xl)
        []
        none
        (some (codes "a"))
        none
        1
        walks in
    (length r.versions + length r.common_prefixes ≤ 1)
    × (r.next_key_marker ≡ none)
    × (r.next_version_id_marker ≡ none)
    × (r ≡ list_object_versions (λ k. history.versions) (λ k. some xl) [] none none none 1 walks)
list_object_versions_page_example =
    list_object_versions_page (λ k. history.versions) (λ k. some xl) [] none (some (codes "a")) none
      1 walks

abbrev body : List ℕ
body = 10 ∷ 20 ∷ 30 ∷ 40 ∷ []

last_two : parse_range (codes "bytes=-2") ≡ some (none, some 2)
unfolding parse_range strip_prefix contains_char split_once parse_unsigned after_sign parse_digits
    digit_value
last_two = refl

get_object_range-resolve_range_example :
    get_object_range 4 body
      (resolve_range (none, some 2) 4).0
      (some (resolve_range (none, some 2) 4).1)
    ≡ some (2, 30 ∷ 40 ∷ [])
unfolding requested
get_object_range-resolve_range_example = get_object_range-resolve_range (none, some 2) body
