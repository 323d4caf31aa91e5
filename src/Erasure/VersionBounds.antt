-- ===== src/Erasure/VersionBounds.antt =====
-- How long a listing of versions can be, for src/erasure/store.rs.
use kerplace.Base.{
  Text, ℕ, ◌≡◌, refl, ◌+◌, ◌≤◌, List, [], ◌∷◌, Option, none, text_ltb, length, arith, length-append,
  length-sort_by,
}
use kerplace.Storage.{ObjectVersion}
use kerplace.Erasure.Drives.{VEntry, XlMeta}
use kerplace.Erasure.Listing.{WalkEntry, walk_union}
use kerplace.Erasure.VersionPages.{
  current_key, versioned_key, collect, listed_keys, fit, visit, rows_for, list_object_versions,
}

length-fit :
    (max_keys count : ℕ) (rows : List ObjectVersion)
    → count ≤ max_keys
    → count + length (fit max_keys count rows).0 ≤ max_keys
unfolding fit
length-fit max_keys count [] h = omega arith
length-fit max_keys count (r ∷ rows) h = ground (arith, length-fit max_keys (count + 1) rows)

visit_bound :
    (rows_of : Text → List ObjectVersion) (prefix : Text) (delimiter : Option Text) (max_keys : ℕ)
    (common : List Text) (count : ℕ) (keys : List Text)
    → count ≤ max_keys
    → length (visit rows_of prefix delimiter max_keys common count keys).out
        + length (visit rows_of prefix delimiter max_keys common count keys).common
        + count
      ≤ max_keys + length common
unfolding visit
visit_bound rows_of prefix delimiter max_keys common count [] h = omega arith
visit_bound rows_of prefix delimiter max_keys common count (key ∷ keys) h =
    let fits = length-fit max_keys count (rows_of key) h in
    let rows = (fit max_keys count (rows_of key)).0 in
    let same = visit_bound rows_of prefix delimiter max_keys common count keys h in
    let grouped = (λ (cp : Text).
      visit_bound rows_of prefix delimiter max_keys (cp ∷ common) (count + 1) keys) in
    let more =
      visit_bound rows_of prefix delimiter max_keys common (count + length rows) keys fits in
    let joined =
      length-append rows
        (visit rows_of prefix delimiter max_keys common (count + length rows) keys).out in
    grind (arith, same, grouped, more, joined)

-- A listing of versions has at most `max_keys` rows and common prefixes together, and however it is
-- cut off it names neither a key nor a version to go on from: the answer to a request with markers is the answer to
-- the one without.
pub list_object_versions_page :
    (history_of : Text → List VEntry) (xl_of : Text → Option XlMeta) (prefix : Text)
    (delimiter key_marker id_marker : Option Text) (max_keys : ℕ)
    (walks : List (Option (List WalkEntry)))
    → let r =
        list_object_versions history_of xl_of prefix delimiter key_marker id_marker max_keys
          walks in
      (length r.versions + length r.common_prefixes ≤ max_keys)
      × (r.next_key_marker ≡ none)
      × (r.next_version_id_marker ≡ none)
      × (r ≡ list_object_versions history_of xl_of prefix delimiter none none max_keys walks)
unfolding list_object_versions
list_object_versions_page history_of xl_of prefix delimiter key_marker id_marker max_keys walks =
    let entries = walk_union walks [] in
    let versioned = collect versioned_key entries in
    let keys = listed_keys prefix versioned (collect current_key entries) in
    let rows_of = rows_for history_of xl_of versioned in
    let bound = visit_bound rows_of prefix delimiter max_keys [] 0 keys (omega arith) in
    let sorted =
      length-sort_by text_ltb (visit rows_of prefix delimiter max_keys [] 0 keys).common in
    (omega (arith, bound, sorted), refl, refl, refl)
