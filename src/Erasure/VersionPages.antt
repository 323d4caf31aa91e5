-- ===== src/Erasure/VersionPages.antt =====
-- src/erasure/store.rs: the listing of versions. The history of a key and the metadata of a key
-- without one are arguments.
use kerplace.Base.{
  Text, ℕ, ◌+◌, Bool, true, false, not, ◌&&◌, if◌then◌else◌, List, [], ◌∷◌, ◌++◌, Option, none,
  some, codes, text_eq, text_ltb, leb, starts_with, is_empty, any, filter, sort_by, join, split,
  length,
}
use kerplace.Storage.{ObjectVersion, VersionListing, VersionAudit, audit_is_some}
use kerplace.Erasure.Drives.{VEntry, XlMeta}
use kerplace.Erasure.Listing.{WalkEntry, parent_and_name, walk_union, group_of}

-- `BTreeSet::insert`, kept as a list without repeats that is sorted when it is read
unfoldable pub add_key : Text → List Text → List Text
unfolding any text_eq
add_key k ks = if any (text_eq k) ks then ks else k ∷ ks

-- the key whose current metadata file, or whose history, an entry is
unfoldable pub current_key : WalkEntry → Option Text
unfolding parent_and_name join split any text_eq
current_key e =
    if e.is_file
    then elim (parent_and_name e.rel) [
      | none ↦ none
      | some (dir, n) ↦
          let rel = join (codes "/") dir in
          if text_eq n (codes "xl.meta")
            && not (is_empty rel)
            && not (any (λ c. text_eq c (codes ".v")) (split b'/' rel))
          then some rel
          else none
    ]
    else none

abbrev key_above : Option (List Text × Text) → Option Text
key_above none = none
key_above (some (dir, n)) =
    if is_empty (join (codes "/") dir) then none else some (join (codes "/") dir)

unfoldable pub versioned_key : WalkEntry → Option Text
unfolding parent_and_name join text_eq
versioned_key e =
    if e.is_file
    then elim (parent_and_name e.rel) [
      | none ↦ none
      | some (dir, n) ↦
          if text_eq n (codes "kp.history.json") then key_above (parent_and_name dir) else none
    ]
    else none

unfoldable pub collect : (WalkEntry → Option Text) → List WalkEntry → List Text
unfolding add_key
collect f [] = []
collect f (e ∷ es) = let rest = collect f es in elim (f e) [ none ↦ rest | some k ↦ add_key k rest ]

-- the keys that the loop visits, in order
unfoldable pub listed_keys : Text → List Text → List Text → List Text
unfolding starts_with filter sort_by any text_eq
listed_keys prefix versioned current = sort_by text_ltb (
    filter (λ k. starts_with k prefix) versioned
    ++ filter (λ k. starts_with k prefix && not (any (text_eq k) versioned)) current)

abbrev audit_of : Option Text → Option Text → Option VersionAudit
audit_of owner src_ip =
    let audit : VersionAudit = record { author = owner; source_ip = src_ip } in
    if audit_is_some audit then some audit else none

-- one row for each entry of a history, the newest first
unfoldable pub history_rows : Text → Bool → List VEntry → List ObjectVersion
unfolding audit_is_some
history_rows key newest [] = []
history_rows key newest (v ∷ vs) =
    record {
      key = key;
      version_id = v.version_id;
      is_latest = newest;
      last_modified = v.last_modified;
      etag = v.etag;
      size = v.size;
      is_delete_marker = v.delete_marker;
      audit = audit_of v.owner v.src_ip;
    }
    ∷ history_rows key false vs

unfoldable pub legacy_rows : Text → Option XlMeta → List ObjectVersion
unfolding audit_is_some
legacy_rows key none = []
legacy_rows key (some m) =
    record {
      key = key;
      version_id = codes "null";
      is_latest = true;
      last_modified = m.last_modified;
      etag = m.etag;
      size = m.size;
      is_delete_marker = false;
      audit = audit_of m.owner m.src_ip;
    }
    ∷ []

-- What the loop ends with. The rows are in order; `full` is that it was left early.
pub record Rows : Type 0 where
  pub out : List ObjectVersion
  pub common : List Text
  pub full : Bool

-- the inner loop: what still fits, and whether something did not
unfoldable pub fit : ℕ → ℕ → List ObjectVersion → List ObjectVersion × Bool
fit max_keys count [] = ([], false)
fit max_keys count (r ∷ rows) =
    let rest = fit max_keys (count + 1) rows in
    if leb max_keys count then ([], true) else (r ∷ rest.0, rest.1)

abbrev in_front : List ObjectVersion → Rows → Rows
in_front rows r = record r { out = rows ++ r.out }

unfoldable pub visit :
    (Text → List ObjectVersion) → Text → Option Text → ℕ → List Text → ℕ → List Text → Rows
unfolding any text_eq
visit rows_of prefix delimiter max_keys common count [] = record {
  out = [];
  common = common;
  full = false;
}
visit rows_of prefix delimiter max_keys common count (key ∷ keys) =
    let same = visit rows_of prefix delimiter max_keys common count keys in
    let grouped =
      (λ (cp : Text). visit rows_of prefix delimiter max_keys (cp ∷ common) (count + 1) keys) in
    let rows = fit max_keys count (rows_of key) in
    let more = visit rows_of prefix delimiter max_keys common (count + length rows.0) keys in
    elim (group_of prefix delimiter key) [
      | none ↦
          if rows.1
          then record { out = rows.0; common = common; full = true }
          else in_front rows.0 more
      | some cp ↦
          if any (text_eq cp) common
          then same
          else if leb max_keys count
          then record { out = []; common = common; full = true }
          else grouped cp
    ]

-- the rows of one key
unfoldable pub rows_for :
    (Text → List VEntry) → (Text → Option XlMeta) → List Text → Text → List ObjectVersion
unfolding history_rows legacy_rows any text_eq
rows_for history_of xl_of versioned key =
    if any (text_eq key) versioned
    then history_rows key true (history_of key)
    else legacy_rows key (xl_of key)

-- `list_object_versions` of a bucket that is there. The two markers are not read.
unfoldable pub list_object_versions :
    (Text → List VEntry)
    → (Text → Option XlMeta)
    → Text
    → Option Text
    → (key_marker version_id_marker : Option Text) → ℕ
    → List (Option (List WalkEntry))
    → VersionListing
unfolding walk_union collect current_key versioned_key listed_keys rows_for visit sort_by
list_object_versions history_of xl_of prefix delimiter key_marker version_id_marker max_keys walks =
    let entries = walk_union walks [] in
    let versioned = collect versioned_key entries in
    let rows_of = rows_for history_of xl_of versioned in
    let r =
      visit rows_of prefix delimiter max_keys [] 0
        (listed_keys prefix versioned (collect current_key entries)) in
    record {
      versions = r.out;
      common_prefixes = sort_by text_ltb r.common;
      is_truncated = r.full;
      next_key_marker = none;
      next_version_id_marker = none;
    }
