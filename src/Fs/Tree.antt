-- ===== src/Fs/Tree.antt =====
-- src/storage/fs.rs: the directory tree below a store, the calls that it makes of `tokio::fs`, and
-- the places of its files. The calls are parameters; a path is its components, the last one first, as
-- `std::path::Path` has them: `..` is one, an empty segment and `.` are none.
use kerplace.Base.{
  Text, ℕ, Bool, true, ◌≡◌, ◌≢◌, if◌then◌else◌, List, [], ◌∷◌, ◌++◌, Option, none, some, codes,
  split, starts_with, length, is_empty, text_eq, ◌||◌, ◌==◌,
}

abbrev pub FilePath : Type 0
FilePath = List Text

-- The components of more segments below a directory.
unfoldable pub push : FilePath → List Text → FilePath
unfolding text_eq
push dir [] = dir
push dir (seg ∷ segs) =
    push (if is_empty seg || text_eq seg (codes ".") then dir else seg ∷ dir) segs

-- `dir.join(p)`: a path that starts at the root replaces the directory
unfoldable pub join : FilePath → Text → FilePath
unfolding starts_with push
join dir p = if starts_with p (codes "/") then push [] (split b'/' p) else push dir (split b'/' p)

-- `path.parent()`
abbrev pub parent : FilePath → FilePath
parent [] = []
parent (_ ∷ dir) = dir

abbrev onto : ℕ → Option Text → Option Text
onto c none = none
onto c (some s) = some (c ∷ s)

-- `s.strip_suffix(c)`
unfoldable pub strip_suffix : ℕ → Text → Option Text
strip_suffix c [] = none
strip_suffix c (x ∷ []) = if x == c then some [] else none
strip_suffix c (x ∷ y ∷ s) = onto x (strip_suffix c (y ∷ s))

abbrev pub sys_dir : Text
sys_dir = codes ".kerplace.sys"

abbrev pub dir_marker : Text
dir_marker = codes ".kerplace.dirobject"

module _ (root : FilePath) where
  abbrev pub tmp_dir : FilePath
  tmp_dir = codes "tmp" ∷ sys_dir ∷ root

  abbrev pub meta_root : FilePath
  meta_root = codes "meta" ∷ sys_dir ∷ root

  abbrev pub multipart_root : FilePath
  multipart_root = codes "multipart" ∷ sys_dir ∷ root

  unfoldable pub upload_dir : Text → Text → FilePath
  unfolding join
  upload_dir bucket upload_id = join (join multipart_root bucket) upload_id

  abbrev pub versions_root : FilePath
  versions_root = codes "versions" ∷ sys_dir ∷ root

  unfoldable pub bucket_cfg_dir : Text → FilePath
  unfolding join
  bucket_cfg_dir bucket = join (codes "buckets" ∷ sys_dir ∷ root) bucket

  unfoldable pub bucket_cfg_file : Text → Text → FilePath
  unfolding bucket_cfg_dir
  bucket_cfg_file bucket file = join (bucket_cfg_dir bucket) file

  unfoldable pub bucket_path : Text → FilePath
  unfolding join
  bucket_path bucket = join root bucket

  unfoldable pub object_path : Text → Text → FilePath
  unfolding bucket_path strip_suffix
  object_path bucket key = elim (strip_suffix b'/' key) [
    | some dir ↦ join (join (bucket_path bucket) dir) dir_marker
    | none ↦ join (bucket_path bucket) key
  ]

  unfoldable pub meta_path : Text → Text → FilePath
  unfolding join strip_suffix
  meta_path bucket key = elim (strip_suffix b'/' key) [
    | some dir ↦ join (join (join meta_root bucket) dir) (dir_marker ++ codes ".json")
    | none ↦ join (join meta_root bucket) (key ++ codes ".json")
  ]

  unfoldable pub object_sidecar : Text → Text → Text → FilePath
  unfolding join
  object_sidecar bucket key suffix = join (join meta_root bucket) (key ++ (codes "." ++ suffix))

  unfoldable pub version_dir : Text → Text → FilePath
  unfolding join
  version_dir bucket key = join (join versions_root bucket) key

  unfoldable pub version_data_path : Text → Text → Text → FilePath
  unfolding version_dir
  version_data_path bucket key vid = join (version_dir bucket key) (vid ++ codes ".data")

  unfoldable pub version_meta_path : Text → Text → Text → FilePath
  unfolding version_dir
  version_meta_path bucket key vid = join (version_dir bucket key) (vid ++ codes ".json")

  unfoldable pub history_path : Text → Text → FilePath
  unfolding version_dir
  history_path bucket key = join (version_dir bucket key) (codes "kp.history.json")

-- What `metadata` tells of an entry.
pub record Stat : Type 0 where
  pub is_file : Bool
  pub is_dir : Bool
  pub len : ℕ
  pub modified : Option ℕ

-- The file system. A call that changes it gives its new state and, where it fails, the error's text.
pub record FileSystem (S : Type 0) : Type 0 where
  pub metadata : S → FilePath → Option Stat
  pub read : S → FilePath → Option (List ℕ)
  pub create_dir_all : FilePath → S → S × Option Text
  pub create : FilePath → S → S × Option Text
  pub append : FilePath → List ℕ → S → S × Option Text
  pub write : FilePath → List ℕ → S → S × Option Text
  pub rename : FilePath → FilePath → S → S × Option Text
  pub remove_file : FilePath → S → S × Option Text
  pub remove_dir : FilePath → S → S × Option Text
  pub remove_dir_all : FilePath → S → S × Option Text
  pub show_path : FilePath → Text

-- A path with each `..` and the component before it taken out: where no entry is a symbolic link,
-- paths that lead to one file are the same then. Not every path leads somewhere: one that goes up
-- from a directory that is not there does not.
unfoldable pub settle : FilePath → FilePath
unfolding text_eq
settle [] = []
settle (c ∷ dir) = let up = settle dir in if text_eq c (codes "..") then parent up else c ∷ up

-- What the documentation of `tokio::fs` says of the calls that the theorems are about: one that
-- succeeds does what its name says, and none changes another file's bytes.
pub record IsFileSystem {S : Type 0} (fs : FileSystem S) : Type 0 where
  pub metadata_read :
      (s : S) (p : FilePath) (b : List ℕ)
      → fs.read s p ≡ some b
      → (m : Stat) × (fs.metadata s p ≡ some m) × (m.is_file ≡ true) × (m.len ≡ length b)
  pub read-create_dir_all :
      (s : S) (p q : FilePath) (b : List ℕ)
      → fs.read s q ≡ some b
      → fs.read (fs.create_dir_all p s).0 q ≡ some b
  pub read-create :
      (s : S) (p : FilePath) → (fs.create p s).1 ≡ none → fs.read (fs.create p s).0 p ≡ some []
  pub read-append :
      (s : S) (p : FilePath) (b c : List ℕ)
      → fs.read s p ≡ some b
      → (fs.append p c s).1 ≡ none
      → fs.read (fs.append p c s).0 p ≡ some (b ++ c)
  pub read-append_other :
      (s : S) (p q : FilePath) (b : List ℕ)
      → settle q ≢ settle p
      → fs.read (fs.append p b s).0 q ≡ fs.read s q
  pub read-write :
      (s : S) (p : FilePath) (b : List ℕ)
      → (fs.write p b s).1 ≡ none
      → fs.read (fs.write p b s).0 p ≡ some b
  pub read-write_other :
      (s : S) (p q : FilePath) (b : List ℕ)
      → settle q ≢ settle p
      → fs.read (fs.write p b s).0 q ≡ fs.read s q
  pub read-rename :
      (s : S) (p q : FilePath) (b : List ℕ)
      → fs.read s p ≡ some b
      → (fs.rename p q s).1 ≡ none
      → fs.read (fs.rename p q s).0 q ≡ some b
