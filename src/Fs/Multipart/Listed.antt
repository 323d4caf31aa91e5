-- ===== src/Fs/Multipart/Listed.antt =====
-- src/storage/fs.rs: the listing of an upload's parts.
use kerplace.Base.{
  Text, ℕ, ◌^◌, ◌-◌, if◌then◌else◌, List, [], ◌∷◌, Option, none, some, codes, text_eq, ltb, sort_by,
  strip_prefix, parse_unsigned, Outcome, done, failed,
}
use kerplace.Error.{Result, ok, err, internal, no_such_upload}
use kerplace.Storage.{PartInfo}
use kerplace.Calls.{Call, reading}
use kerplace.Fs.Tree.{FilePath, FileSystem, upload_dir}
use kerplace.Fs.Files.{FsStore}
use kerplace.Fs.Multipart.{PartMeta, Uploads}

abbrev onto : ℕ → Option Text → Option Text
onto c none = none
onto c (some t) = some (c ∷ t)

-- `s.strip_suffix(suffix)`, for a suffix that is not empty
unfoldable pub without_suffix : Text → Text → Option Text
unfolding text_eq
without_suffix suffix [] = none
without_suffix suffix (x ∷ s) =
    let rest = without_suffix suffix s in if text_eq (x ∷ s) suffix then some [] else onto x rest

-- The number in the name of a part's sidecar.
unfoldable pub number_of : Text → Option ℕ
unfolding strip_prefix without_suffix parse_unsigned
number_of name = elim (strip_prefix name (codes "part.")) [
  | none ↦ none
  | some rest ↦ elim (without_suffix (codes ".json") rest) [
    | none ↦ none
    | some num ↦ parse_unsigned 10 (2 ^ 32 - 1) num
  ]
]

module _ {S : Type 0} (fs : FileSystem S) (st : FsStore) (up : Uploads S) where
  -- A part's sidecar that can be decoded.
  abbrev listed_part : ℕ → Outcome Text PartMeta → List PartInfo → List PartInfo
  listed_part n (failed e) ps = ps
  listed_part n (done m) ps =
      record { part_number = n; etag = m.etag; size = m.size; last_modified = m.created } ∷ ps

  abbrev and_part : ℕ → Outcome Text PartMeta → Result (List PartInfo) → Result (List PartInfo)
  and_part n m (ok ps) = ok (listed_part n m ps)
  and_part n m (err e) = err e

  -- An entry that is a part's sidecar is read; the text of its error is left out.
  abbrev with_entry : Option ℕ → Option (List ℕ) → Result (List PartInfo) → Result (List PartInfo)
  with_entry none file rest = rest
  with_entry (some n) none rest = err (internal [])
  with_entry (some n) (some b) rest = and_part n (up.decode_part b) rest

  -- The parts of a directory's entries, up to the error that ends them.
  unfoldable pub parts_of : FilePath → List Text → Option Text → S → Result (List PartInfo)
  unfolding number_of
  parts_of dir [] none s = ok []
  parts_of dir [] (some e) s = err (internal e)
  parts_of dir (name ∷ names) fault s =
      with_entry (number_of name) (fs.read s (name ∷ dir)) (parts_of dir names fault s)

  abbrev in_order : Result (List PartInfo) → Result (List PartInfo)
  unfolding sort_by
  in_order (ok ps) = ok (sort_by (λ a b. ltb a.part_number b.part_number) ps)
  in_order (err e) = err e

  abbrev of_entries : FilePath → Option (List Text × Option Text) → S → Result (List PartInfo)
  unfolding parts_of sort_by
  of_entries dir none s = err no_such_upload
  of_entries dir (some (names, fault)) s = in_order (parts_of dir names fault s)

  unfoldable pub list_parts : Text → Text → Text → Call S (List PartInfo)
  unfolding parts_of sort_by upload_dir
  list_parts bucket key upload_id =
      let dir = upload_dir st.root bucket upload_id in
      reading (λ s. of_entries dir (up.read_dir s dir) s)
