-- ===== src/Iam.antt =====
-- src/iam.rs: the canned policies, an identity, and what a request asks for.
pub mod Store
pub mod Sts
pub mod Users
pub mod Temporary
pub mod Resolve
pub mod Durable
use kerplace.Base.{
  Text, ℕ, Bool, true, false, not, ◌||◌, if◌then◌else◌, List, [], ◌∷◌, Option, none, some, any,
  filter, map, codes, is_empty, starts_with, split, trim, trim_start_matches, to_ascii_lowercase,
  text_eq, ◌==◌,
}
use kerplace.Http
use kerplace.Http.{Method}

pub data Action : Type 0 where
  read write admin : Action

pub data Policy : Type 0 where
  admin read_write read_only write_only : Policy

-- `Policy::from_name`
unfoldable pub from_name : Text → Policy
unfolding trim to_ascii_lowercase text_eq
from_name name =
    let n = to_ascii_lowercase (trim name) in
    if text_eq n (codes "admin")
      || text_eq n (codes "consoleadmin")
      || text_eq n (codes "diagnostics")
    then Policy.admin
    else if text_eq n (codes "readwrite") || text_eq n (codes "readwriteadmin")
    then read_write
    else if text_eq n (codes "writeonly")
    then write_only
    else read_only

-- `Policy::name`
unfoldable pub policy_name : Policy → Text
policy_name Policy.admin = codes "consoleAdmin"
policy_name read_write = codes "readwrite"
policy_name read_only = codes "readonly"
policy_name write_only = codes "writeonly"

-- `Policy::allows`
unfoldable pub allows : Policy → Action → Bool
allows Policy.admin a = true
allows read_write read = true
allows read_write write = true
allows read_write Action.admin = false
allows read_only read = true
allows read_only write = false
allows read_only Action.admin = false
allows write_only read = false
allows write_only write = true
allows write_only Action.admin = false

pub record Identity : Type 0 where
  pub access_key : Text
  pub secret_key : Text
  pub policy : Text
  pub enabled : Bool
  pub buckets : Option (List Text)

abbrev in_scope : Option (List Text) → Option Text → Bool
in_scope none bucket = true
in_scope (some allowed) none = true
in_scope (some allowed) (some b) = any (λ a. text_eq a b) allowed

-- `Identity::allows_bucket`
unfoldable pub allows_bucket : Identity → Option Text → Bool
unfolding any text_eq
allows_bucket id bucket = in_scope id.buckets bucket

abbrev non_empty : List Text → Option (List Text)
non_empty [] = none
non_empty (x ∷ xs) = some (x ∷ xs)

unfoldable pub parse_bucket_list : Text → Option (List Text)
unfolding split trim filter
parse_bucket_list raw = non_empty (filter (λ s. not (is_empty s)) (map trim (split b'|' raw)))

unfoldable pub action_for : Method → Text → Action
unfolding starts_with
action_for method path =
    if starts_with path (codes "/kerplace/admin") || starts_with path (codes "/minio/admin")
    then Action.admin
    else elim method [
      | Method.get ↦ read
      | Method.head ↦ read
      | Method.put ↦ write
      | Method.post ↦ write
      | Method.delete ↦ write
      | Method.patch ↦ write
      | _ ↦ read
    ]

abbrev first_segment : List Text → Option Text
first_segment [] = none
first_segment (seg ∷ _) = if is_empty seg then none else some seg

unfoldable pub bucket_for : Text → Option Text
unfolding starts_with split trim_start_matches
bucket_for path =
    if starts_with path (codes "/kerplace/") || starts_with path (codes "/minio/")
    then none
    else first_segment (split b'/' (trim_start_matches (λ c. c == b'/') path))
