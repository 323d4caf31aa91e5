-- ===== src/Storage.antt =====
-- src/storage/mod.rs: the data of the store's interface, and the checks of names.
pub mod Names
pub mod Paths
pub mod Buckets
use kerplace.Base.{Text, ℕ, Bool, false, ◌||◌, is_some, Option, none, some, List, []}
use kerplace.Base.{Dict}

-- Time is a number of seconds since the epoch.
pub record VersionAudit : Type 0 where
  pub author : Option Text
  pub source_ip : Option Text

-- `VersionAudit::is_some`
unfoldable pub audit_is_some : VersionAudit → Bool
audit_is_some a = is_some a.author || is_some a.source_ip

pub record DriveStatus : Type 0 where
  pub path : Text
  pub state : Text

pub record BackendInfo : Type 0 where
  pub backend_type : Text
  pub data_shards : ℕ
  pub parity_shards : ℕ
  pub drives : List DriveStatus

pub record BucketInfo : Type 0 where
  pub name : Text
  pub creation_date : ℕ

pub record ObjectMeta : Type 0 where
  pub key : Text
  pub size : ℕ
  pub etag : Text
  pub last_modified : ℕ
  pub content_type : Text
  pub user_metadata : Dict Text
  pub encrypted : Bool
  pub version_id : Option Text
  pub audit : Option VersionAudit

pub record DeleteOutcome : Type 0 where
  pub version_id : Option Text
  pub delete_marker : Bool

pub record ObjectVersion : Type 0 where
  pub key : Text
  pub version_id : Text
  pub is_latest : Bool
  pub last_modified : ℕ
  pub etag : Text
  pub size : ℕ
  pub is_delete_marker : Bool
  pub audit : Option VersionAudit

pub record VersionListing : Type 0 where
  pub versions : List ObjectVersion
  pub common_prefixes : List Text
  pub is_truncated : Bool
  pub next_key_marker : Option Text
  pub next_version_id_marker : Option Text

pub record Listing : Type 0 where
  pub objects : List ObjectMeta
  pub common_prefixes : List Text
  pub is_truncated : Bool
  pub next_continuation_token : Option Text

pub record PartInfo : Type 0 where
  pub part_number : ℕ
  pub etag : Text
  pub size : ℕ
  pub last_modified : ℕ

pub record CompletedPart : Type 0 where
  pub part_number : ℕ
  pub etag : Text

-- `DeleteOutcome::default()`
abbrev pub no_outcome : DeleteOutcome
no_outcome = record { version_id = none; delete_marker = false }
