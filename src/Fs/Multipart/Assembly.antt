-- ===== src/Fs/Multipart/Assembly.antt =====
-- src/storage/fs.rs: what the parts of an upload are put together to.
use kerplace.Base.{
  Text, ℕ, ◌+◌, ◌≡◌, ◌≢◌, refl, sym, ap, ◌∙◌, subst, ◌++◌, Bool, true, false, if◌then◌else◌, List,
  [], ◌∷◌, Option, none, some, codes, text_eq, Outcome, done, failed, arith, String,
}
use mathlib.Core.List.{append_assoc, append-nil}
use kerplace.Error.{Result, S3Error, ok, err, invalid_part}
use kerplace.Storage.{CompletedPart}
use kerplace.Calls.{Call, after, try}
use kerplace.Fs.Tree.{FilePath, settle, FileSystem, IsFileSystem}
use kerplace.Fs.Files.{FsStore}
use kerplace.Fs.Runs.{first_step, failing_ok}
use kerplace.Fs.Multipart.{
  PartMeta, Uploads, unquoted, or_missing, or_failed, part_path, part_meta_path, same_part,
  assemble,
}

pub reading_step :
    {S A B : Type 0} (s : S) (r : Result A) (f : A → Call S B) (t : S) (b : B)
    → after (s, r) f ≡ (t, ok b)
    → (a : A) × (r ≡ ok a) × (f a s ≡ (t, ok b))
reading_step s (ok a) f t b h = (a, refl, h)
reading_step s (err e) f t b h = absurd (cc)

pub or_missing_ok :
    (e : S3Error) (o : Option (List ℕ)) (b : List ℕ) → or_missing e o ≡ ok b → o ≡ some b
or_missing_ok e none b h = absurd (cc)
or_missing_ok e (some c) b h = cc

pub or_failed_ok :
    {A : Type 0} (what : String) (o : Outcome Text A) (a : A) → or_failed what o ≡ ok a → o ≡ done a
or_failed_ok what (done c) a h = cc
or_failed_ok what (failed e) a h = absurd (cc)

only_if : (b : Bool) (u : Unit {0}) → (if b then ok tt else err invalid_part) ≡ ok u → b ≡ true
only_if true u h = refl
only_if false u h = absurd (cc)

-- A part as it was uploaded: its sidecar, the bytes of its tag, and its file.
pub record Piece : Type 0 where
  pub meta : PartMeta
  pub raw : List ℕ
  pub file : List ℕ

abbrev piece_of : Bool → PartMeta → Outcome Text (List ℕ) → Option (List ℕ) → Option Piece
piece_of true m (done raw) (some file) = some (record { meta = m; raw = raw; file = file })
piece_of _ m raw file = none

abbrev cons_piece : Option Piece → Option (List Piece) → Option (List Piece)
cons_piece (some p) (some ps) = some (p ∷ ps)
cons_piece _ _ = none

-- All files, all tags and all sizes of the pieces, in order.
unfoldable pub files : List Piece → List ℕ
files [] = []
files (p ∷ ps) = p.file ++ files ps

unfoldable pub raws : List Piece → List ℕ
raws [] = []
raws (p ∷ ps) = p.raw ++ raws ps

unfoldable pub sizes : List Piece → ℕ
sizes [] = 0
sizes (p ∷ ps) = p.meta.size + sizes ps

module _ {S : Type 0} (fs : FileSystem S) (st : FsStore) (up : Uploads S) (bucket id : Text) where
  abbrev with_meta : CompletedPart → Outcome Text PartMeta → Option (List ℕ) → Option Piece
  unfolding unquoted text_eq
  with_meta part (failed e) file = none
  with_meta part (done m) file =
      piece_of (text_eq (unquoted part.etag) m.etag) m (up.hex_decode m.etag) file

  abbrev with_sidecar : CompletedPart → Option (List ℕ) → Option (List ℕ) → Option Piece
  with_sidecar part none file = none
  with_sidecar part (some b) file = with_meta part (up.decode_part b) file

  -- The part that a client names by number and tag, if it was uploaded so.
  unfoldable pub piece : S → CompletedPart → Option Piece
  unfolding unquoted text_eq
  piece s part =
      with_sidecar part (fs.read s (part_meta_path fs st up bucket id part.part_number))
        (fs.read s (part_path fs st up bucket id part.part_number))

  unfoldable pub pieces : S → List CompletedPart → Option (List Piece)
  unfolding piece
  pieces s [] = some []
  pieces s (part ∷ parts) = cons_piece (piece s part) (pieces s parts)

  -- The temporary file is no file of the upload.
  abbrev pub IsApart : FilePath → Type 0
  IsApart tmp =
      (n : ℕ)
      → (settle (part_path fs st up bucket id n) ≢ settle tmp)
        × (settle (part_meta_path fs st up bucket id n) ≢ settle tmp)

  module _ (laws : IsFileSystem fs) (tmp : FilePath) (apart : IsApart tmp) where
    piece-append :
        (b : List ℕ) (s : S) (part : CompletedPart)
        → piece (fs.append tmp b s).0 part ≡ piece s part
    unfolding piece
    piece-append b s part =
        let (file, sidecar) = apart part.part_number in
        let n = part.part_number in
        rw
          (
            laws.read-append_other s tmp (part_path fs st up bucket id n) b file,
            laws.read-append_other s tmp (part_meta_path fs st up bucket id n) b sidecar,
          )
          refl

    pieces-append :
        (b : List ℕ) (s : S) (parts : List CompletedPart)
        → pieces (fs.append tmp b s).0 parts ≡ pieces s parts
    unfolding pieces
    pieces-append b s [] = refl
    pieces-append b s (part ∷ parts) = rw (piece-append b s part, pieces-append b s parts) refl

    piece_found :
        (s : S) (part : CompletedPart) (b : List ℕ) (m : PartMeta) (raw file : List ℕ)
        → fs.read s (part_meta_path fs st up bucket id part.part_number) ≡ some b
        → up.decode_part b ≡ done m
        → text_eq (unquoted part.etag) m.etag ≡ true
        → up.hex_decode m.etag ≡ done raw
        → fs.read s (part_path fs st up bucket id part.part_number) ≡ some file
        → piece s part ≡ some (record { meta = m; raw = raw; file = file })
    unfolding piece
    piece_found s part b m raw file h1 h2 h3 h4 h5 = rw (h1, h2, h3, h4, h5) refl

    same_part_ok :
        (part : CompletedPart) (m : PartMeta) (u : Unit {0})
        → same_part fs st up part m ≡ ok u
        → text_eq (unquoted part.etag) m.etag ≡ true
    unfolding same_part
    same_part_ok part m u h = only_if (text_eq (unquoted part.etag) m.etag) u h

    -- One turn of the loop that succeeds.
    assemble-piece :
        (part : CompletedPart) (parts : List CompletedPart) (c : List ℕ) (n : ℕ) (s t : S)
        (r : List ℕ × ℕ)
        → assemble fs st up bucket id tmp (part ∷ parts) c n s ≡ (t, ok r)
        → (p : Piece) × (piece s part ≡ some p)
          × ((fs.append tmp p.file s).1 ≡ none)
          × (assemble fs st up bucket id tmp parts
                (c ++ p.raw)
                (n + p.meta.size)
                (fs.append tmp p.file s).0
              ≡ (t, ok r))
    unfolding assemble
    assemble-piece part parts c n s t r e =
        let sidecar = fs.read s (part_meta_path fs st up bucket id part.part_number) in
        let own = fs.read s (part_path fs st up bucket id part.part_number) in
        let (b, read_b, e1) = reading_step s (or_missing invalid_part sidecar) _ t r e in
        let (m, decoded_m, e2) =
          reading_step s (or_failed "decode part meta: " (up.decode_part b)) _ t r e1 in
        let (u, same, e3) = reading_step s (same_part fs st up part m) _ t r e2 in
        let (raw, is_raw, e4) =
          reading_step s (or_failed "bad part etag: " (up.hex_decode m.etag)) _ t r e3 in
        let (file, read_file, e5) = reading_step s (or_missing invalid_part own) _ t r e4 in
        let (x, added, e6) =
          first_step (try (codes "assemble part: ") (fs.append tmp file) s) _ t r e5 in
        let (fine, moved) =
          failing_ok (codes "assemble part: ") (fs.append tmp file s) x.0 x.1 added in
        (
          record { meta = m; raw = raw; file = file },
          piece_found s part b m raw file (or_missing_ok invalid_part sidecar b read_b)
              (or_failed_ok "decode part meta: " (up.decode_part b) m decoded_m)
              (same_part_ok part m u same)
              (or_failed_ok "bad part etag: " (up.hex_decode m.etag) raw is_raw)
              (or_missing_ok invalid_part own file read_file),
          fine,
          subst (λ y. assemble fs st up bucket id tmp parts (c ++ raw) (n + m.size) y ≡ (t, ok r))
              moved e6,
        )

    -- An assembly that succeeds has found every part that the client names, each with the tag that
    -- the client gives for it, and has put their files together in the client's order behind what
    -- the temporary file held; it gives the bytes of their tags and the sum of their sizes. The file
    -- system does what its calls say, and the temporary file is there and no file of the upload.
    pub assemble-pieces :
        (parts : List CompletedPart) (old c : List ℕ) (n : ℕ) (s t : S) (r : List ℕ × ℕ)
        → fs.read s tmp ≡ some old
        → assemble fs st up bucket id tmp parts c n s ≡ (t, ok r)
        → (ps : List Piece) × (pieces s parts ≡ some ps)
          × (fs.read t tmp ≡ some (old ++ files ps))
          × (r.0 ≡ c ++ raws ps)
          × (r.1 ≡ n + sizes ps)
    unfolding assemble pieces files raws sizes
    assemble-pieces [] old c n s t r h e =
        let same : t ≡ s = cc in
        let tags : r.0 ≡ c = cc in
        let count : r.1 ≡ n = cc in
        (
          [],
          refl,
          rw same (h ∙ ap some (sym (append-nil old))),
          tags ∙ sym (append-nil c),
          omega (arith, count),
        )
    assemble-pieces (part ∷ parts) old c n s t r h e =
        let (p, there, fine, rest) = assemble-piece part parts c n s t r e in
        let (ps, found, kept, tags, count) =
          assemble-pieces parts (old ++ p.file) (c ++ p.raw) (n + p.meta.size)
            (fs.append tmp p.file s).0 t r (laws.read-append s tmp old p.file h fine) rest in
        (
          p ∷ ps,
          rw (there, ← pieces-append p.file s parts, found) refl,
          kept ∙ ap some (append_assoc old p.file (files ps)),
          tags ∙ append_assoc c p.raw (raws ps),
          omega (arith, count),
        )
