-- ===== src/Erasure/Drives.antt =====
-- src/erasure/store.rs: the files of one object key on every drive, and the replicated history.
-- A drive is reachable or not; one that is not leaves its files as they are and fails each call.
-- `serde_json` and the file names are left out: a file is what was last written to it.
use kerplace.Base.{
  Text, ℕ, ◌+◌, Bool, true, false, if◌then◌else◌, List, [], ◌∷◌, map, Option, none, some, codes,
  ltb, any, Dict,
}
use kerplace.Error.{Result, ok, err, internal}

pub record VEntry : Type 0 where
  pub version_id : Text
  pub delete_marker : Bool
  pub last_modified : ℕ
  pub etag : Text
  pub size : ℕ
  pub owner : Option Text
  pub src_ip : Option Text

pub record VHistory : Type 0 where
  pub versions : List VEntry
  pub epoch : ℕ

-- `VHistory::default()`
abbrev pub no_history : VHistory
no_history = record { versions = []; epoch = 0 }

-- What a drive keeps for one version: its metadata and its shard.
pub record XlMeta : Type 0 where
  pub version : ℕ
  pub data_shards : ℕ
  pub parity : ℕ
  pub block_size : ℕ
  pub stored_size : ℕ
  pub size : ℕ
  pub etag : Text
  pub content_type : Text
  pub user_metadata : Dict Text
  pub encrypted : Bool
  pub last_modified : ℕ
  pub owner : Option Text
  pub src_ip : Option Text
  pub checksums : List (List Text)

pub record Files : Type 0 where
  pub xl : Option XlMeta
  pub part : Option (List ℕ)

abbrev pub no_files : Files
no_files = record { xl = none; part = none }

-- One drive's files of the key: the current version, the archive `.v` and the history.
pub record Drive : Type 0 where
  pub up : Bool
  pub current : Files
  pub archive : Dict Files
  pub history : Option VHistory

abbrev or_default : Option VHistory → VHistory
or_default none = no_history
or_default (some h) = h

-- the copies that can be read, in the order of the drives
unfoldable pub copies : List Drive → List VHistory
copies [] = []
copies (d ∷ ds) =
    let rest = copies ds in
    if d.up then elim d.history [ none ↦ rest | some h ↦ h ∷ rest ] else rest

-- the loop's `best`
unfoldable pub best_of : Option VHistory → List VHistory → Option VHistory
best_of best [] = best
best_of none (h ∷ hs) = best_of (some h) hs
best_of (some b) (h ∷ hs) =
    let newer = best_of (some h) hs in
    let older = best_of (some b) hs in if ltb b.epoch h.epoch then newer else older

-- `read_history`
unfoldable pub read_history : List Drive → VHistory
read_history ds = or_default (best_of none (copies ds))

unfoldable pub put_history : VHistory → Drive → Drive
put_history h d = if d.up then record d { history = some h } else d

-- `meta_write_all`, for the history: it is an error only if no drive takes the file
unfoldable pub meta_write_all : VHistory → List Drive → List Drive × Result {0} Unit
unfolding any
meta_write_all h ds = (
  map (put_history h) ds,
  if any (λ d. d.up) ds then ok tt else err (internal (codes "metadata write: no drive reachable")),
)

-- `write_history`
unfoldable pub write_history : VHistory → List Drive → List Drive × Result {0} Unit
write_history h ds = meta_write_all (record h { epoch = h.epoch + 1 }) ds

-- `has_history`
unfoldable pub has_history : List Drive → Bool
has_history ds =
    any (λ d. if d.up then elim d.history [ none ↦ false | some h ↦ true ] else false) ds
