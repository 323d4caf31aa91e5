-- ===== src/Erasure/Listing.antt =====
-- src/erasure/store.rs: the pages of an object listing. A walk of a drive gives paths below the
-- bucket's directory, as lists of their components; what a key's metadata says is an argument.
use kerplace.Base.{
  Text, ℕ, ◌+◌, Bool, true, false, not, ◌&&◌, ◌||◌, if◌then◌else◌, List, [], ◌∷◌, ◌++◌, Option,
  none, some, codes, text_eq, text_ltb, leb, starts_with, is_empty, any, filter, sort_by, join,
  split, drop, length, is_some,
}
use kerplace.Storage.{ObjectMeta, Listing}

pub record WalkEntry : Type 0 where
  pub rel : List Text
  pub is_file : Bool

unfoldable pub path_eq : List Text → List Text → Bool
unfolding text_eq
path_eq [] [] = true
path_eq [] (q ∷ qs) = false
path_eq (p ∷ ps) [] = false
path_eq (p ∷ ps) (q ∷ qs) = text_eq p q && path_eq ps qs

abbrev same_flag : Bool → Bool → Bool
same_flag true b = b
same_flag false b = not b

abbrev same_entry : WalkEntry → WalkEntry → Bool
same_entry e f = path_eq e.rel f.rel && same_flag e.is_file f.is_file

unfoldable pub union_into : List WalkEntry → List WalkEntry → List WalkEntry
unfolding any path_eq
union_into out [] = out
union_into out (e ∷ es) =
    let seen = union_into out es in
    let added = union_into (out ++ e ∷ []) es in if any (same_entry e) out then seen else added

-- `walk_union`: what each drive's walk gives, `none` for a drive that fails
unfoldable pub walk_union : List (Option (List WalkEntry)) → List WalkEntry → List WalkEntry
walk_union [] out = out
walk_union (none ∷ ws) out = walk_union ws out
walk_union (some es ∷ ws) out = walk_union ws (union_into out es)

-- the parent of a path and its last component
unfoldable pub parent_and_name : List Text → Option (List Text × Text)
parent_and_name [] = none
parent_and_name (n ∷ []) = some ([], n)
parent_and_name (p ∷ q ∷ ps) = elim (parent_and_name (q ∷ ps)) [
  | none ↦ none
  | some (dir, n) ↦ some (p ∷ dir, n)
]

-- the key of a current version's metadata file
unfoldable pub key_of_entry : WalkEntry → Option Text
unfolding parent_and_name text_eq join split any
key_of_entry e =
    if e.is_file
    then elim (parent_and_name e.rel) [
      | none ↦ none
      | some (dir, n) ↦
          let rel = join (codes "/") dir in
          if text_eq n (codes "xl.meta") && not (any (λ c. text_eq c (codes ".v")) (split b'/' rel))
          then some rel
          else none
    ]
    else none

unfoldable pub keys_of : List WalkEntry → List Text
unfolding key_of_entry
keys_of [] = []
keys_of (e ∷ es) =
    let rest = keys_of es in elim (key_of_entry e) [ none ↦ rest | some k ↦ k ∷ rest ]

-- the keys of a bucket under a prefix, in order
unfoldable pub sorted_keys : Text → List WalkEntry → List Text
unfolding starts_with filter sort_by keys_of
sorted_keys prefix es =
    sort_by text_ltb (filter (λ k. starts_with k prefix && not (is_empty k)) (keys_of es))

pub record Query : Type 0 where
  pub prefix : Text
  pub delimiter : Option Text
  pub token : Option Text
  pub start_after : Option Text
  pub max_keys : ℕ

-- the part of a text before the first `delim`
unfoldable pub before : Text → Text → Option Text
unfolding starts_with
before delim [] = if starts_with [] delim then some [] else none
before delim (c ∷ s) =
    let rest = before delim s in
    if starts_with (c ∷ s) delim then some [] else elim rest [ none ↦ none | some r ↦ some (c ∷ r) ]

abbrev prefix_with : Text → Text → Option Text → Option Text
prefix_with prefix delim none = none
prefix_with prefix delim (some rest) = some (prefix ++ (rest ++ delim))

abbrev grouped : Text → Option Text → Text → Option Text
grouped prefix none key = none
grouped prefix (some delim) key =
    if is_empty delim
    then none
    else prefix_with prefix delim (before delim (drop (length prefix) key))

-- the common prefix that stands for a key
unfoldable pub group_of : Text → Option Text → Text → Option Text
unfolding before
group_of prefix delimiter key = grouped prefix delimiter key

abbrev before_token : Option Text → Text → Bool
before_token none key = false
before_token (some t) key = text_ltb key t

abbrev not_after : Option Text → Text → Bool
not_after none key = false
not_after (some a) key = not (text_ltb a key)

-- the keys that the loop passes over
unfoldable pub is_skipped : Query → Text → Bool
is_skipped q key = before_token q.token key || not_after q.start_after key

-- What the loop ends with: the keys, the common prefixes and the next token.
pub record Page : Type 0 where
  pub chosen : List Text
  pub common : List Text
  pub next : Option Text

abbrev choose : Text → Page → Page
choose key p = record p { chosen = key ∷ p.chosen }

-- The loop, from the common prefixes and the count so far.
unfoldable pub page : Query → List Text → ℕ → List Text → Page
unfolding any
page q common count [] = record { chosen = []; common = common; next = none }
page q common count (key ∷ keys) =
    let same = page q common count keys in
    let more = page q common (count + 1) keys in
    let stop : Page = record { chosen = []; common = common; next = some key } in
    if is_skipped q key then same else elim (group_of q.prefix q.delimiter key) [
      | none ↦ if leb q.max_keys count then stop else choose key more
      | some cp ↦
          let grown = page q (cp ∷ common) (count + 1) keys in
          if any (text_eq cp) common then same else if leb q.max_keys count then stop else grown
    ]

unfoldable pub metas : (Text → Option ObjectMeta) → List Text → List ObjectMeta
metas read_xl [] = []
metas read_xl (k ∷ ks) =
    let rest = metas read_xl ks in elim (read_xl k) [ none ↦ rest | some m ↦ m ∷ rest ]

-- `list_objects_v2` of a bucket that is there; a `BTreeSet` gives its elements in order
unfoldable pub list_objects_v2 :
    (Text → Option ObjectMeta) → Query → List (Option (List WalkEntry)) → Listing
unfolding walk_union sorted_keys page metas sort_by
list_objects_v2 read_xl q walks =
    let p = page q [] 0 (sorted_keys q.prefix (walk_union walks [])) in
    record {
      objects = metas read_xl p.chosen;
      common_prefixes = sort_by text_ltb p.common;
      is_truncated = is_some p.next;
      next_continuation_token = p.next;
    }
