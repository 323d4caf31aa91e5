-- ===== src/Fs/Runs.antt =====
-- src/storage/fs.rs: what a core helper that succeeds has left in the file system.
use kerplace.Base.{
  Text, ℕ, Bool, ◌≡◌, ◌≢◌, refl, ap, ◌∙◌, ◌+◌, List, [], ◌∷◌, ◌++◌, Option, none, some, codes,
  length, length-append, arith, Outcome, done, failed,
}
use mathlib.Core.List.{append_assoc, append-nil}
use kerplace.Error.{Result, ok, err}
use kerplace.Fs.Tree.{FilePath, settle, FileSystem, IsFileSystem, parent, meta_path, tmp_dir}
use kerplace.Calls.{Call, after, failing, try, encoded}
use kerplace.Fs.Files.{
  StoredMeta, FsStore, Fresh, BodyReader, faulty, copy_pieces, stream_to_temp, move_into_place,
  write_meta,
}

-- The bytes of the pieces that a reader gives.
abbrev pub concat : List (List ℕ) → List ℕ
concat [] = []
concat (b ∷ bs) = b ++ concat bs

module _ {S : Type 0} where
  -- A chain that succeeds has a first step that succeeds.
  pub first_step :
      {A B : Type 0} (r : S × Result A) (f : A → Call S B) (t : S) (b : B)
      → after r f ≡ (t, ok b)
      → (x : S × A) × (r ≡ (x.0, ok x.1)) × (f x.1 x.0 ≡ (t, ok b))
  first_step (s, ok a) f t b h = ((s, a), refl, h)
  first_step (s, err e) f t b h = absurd (cc)

  pub answered :
      {A : Type 0} (r : S × Result A) (s t : S) (a b : A)
      → r ≡ (s, ok a)
      → r ≡ (t, ok b)
      → (t ≡ s) × (b ≡ a)
  answered r s t a b h k = (cc, cc)

  pub failing_ok :
      (what : Text) (r : S × Option Text) (t : S) (u : Unit {0})
      → failing what r ≡ (t, ok u)
      → (r.1 ≡ none) × (t ≡ r.0)
  failing_ok what (s, none) t u h = (refl, cc)
  failing_ok what (s, some e) t u h = absurd (cc)

  pub encoded_ok :
      (what : Text) (o : Outcome Text (List ℕ)) (s t : S) (b : List ℕ)
      → encoded what o s ≡ (t, ok b)
      → (o ≡ done b) × (t ≡ s)
  encoded_ok what (done c) s t b h = (cc, cc)
  encoded_ok what (failed e) s t b h = absurd (cc)

module _ {S : Type 0} (fs : FileSystem S) (st : FsStore) (laws : IsFileSystem fs) where
  copy_pieces_lem :
      (tmp : FilePath) (md5 : Bool) (bufs : List (List ℕ)) (fed old : List ℕ) (total : ℕ) (s t : S)
      (r : List ℕ × ℕ)
      → fs.read s tmp ≡ some old
      → copy_pieces fs st tmp md5 fed total bufs s ≡ (t, ok r)
      → (fs.read t tmp ≡ some (old ++ concat bufs)) × (r.1 ≡ total + length (concat bufs))
  unfolding copy_pieces
  copy_pieces_lem tmp md5 [] fed old total s t r h e =
      let same : t ≡ s = cc in
      let counted : r.1 ≡ total = cc in (rw (append-nil old, same) h, omega arith)
  copy_pieces_lem tmp md5 (buf ∷ rest) fed old total s t r h e =
      let (x, stepped, left) =
        first_step (try (codes "write temp: ") (fs.append tmp buf) s) _ t r e in
      let (fine, moved) = failing_ok (codes "write temp: ") (fs.append tmp buf s) x.0 x.1 stepped in
      let here : fs.read x.0 tmp ≡ some (old ++ buf) =
        rw moved (laws.read-append s tmp old buf h fine) in
      let (all, count) =
        copy_pieces_lem tmp md5 rest _ (old ++ buf) (total + length buf) x.0 t r here left in
      (
        rw (← append_assoc old buf (concat rest)) all,
        omega (arith, count, length-append buf (concat rest)),
      )

  -- The whole body is in the temporary file, and its length is counted.
  pub stream_to_temp_lem :
      ((b : List ℕ) → concat (st.pieces b) ≡ b)
      → (fresh : Fresh) (body : BodyReader) (md5 : Bool) (s t : S) (r : FilePath × Text × ℕ)
      → stream_to_temp fs st fresh body md5 s ≡ (t, ok r)
      → (fs.read t r.0 ≡ some body.bytes) × (r.2 ≡ length body.bytes)
  unfolding stream_to_temp
  stream_to_temp_lem whole fresh body md5 s t r e =
      let tmp = fresh.tmp_name ∷ tmp_dir st.root in
      let (x, opened, left) = first_step (try (codes "create temp: ") (fs.create tmp) s) _ t r e in
      let (fine, moved) = failing_ok (codes "create temp: ") (fs.create tmp s) x.0 x.1 opened in
      let (y, copied, rest) =
        first_step (copy_pieces fs st tmp md5 [] 0 (st.pieces body.bytes) x.0) _ t r left in
      let start : fs.read x.0 tmp ≡ some [] = rw moved (laws.read-create s tmp fine) in
      let (kept, count) =
        copy_pieces_lem tmp md5 (st.pieces body.bytes) [] [] 0 x.0 y.0 y.1 start copied in
      let (z, sound, last) = first_step (y.0, faulty body.fault) _ t r rest in
      let at_end : t ≡ y.0 = cc in
      let place : r.0 ≡ tmp = cc in
      let number : r.2 ≡ y.1.1 = cc in
      (
        rw (at_end, place) (kept ∙ ap some (whole body.bytes)),
        omega (arith, number, count, ap length (whole body.bytes)),
      )

  -- The bytes of the moved file are at its new place.
  pub move_into_place_lem :
      (tmp dest : FilePath) (b : List ℕ) (s t : S) (u : Unit {0})
      → fs.read s tmp ≡ some b
      → move_into_place fs st tmp dest s ≡ (t, ok u)
      → fs.read t dest ≡ some b
  unfolding move_into_place
  move_into_place_lem tmp dest b s t u h e =
      let what = codes "mkdir " ++ (fs.show_path (parent dest) ++ codes ": ") in
      let (x, made, left) = first_step (try what (fs.create_dir_all (parent dest)) s) _ t u e in
      let (_, at_dir) = failing_ok what (fs.create_dir_all (parent dest) s) x.0 x.1 made in
      let (fine, moved) = failing_ok (codes "rename: ") (fs.rename tmp dest x.0) t u left in
      let here : fs.read x.0 tmp ≡ some b =
        rw at_dir (laws.read-create_dir_all s (parent dest) tmp b h) in
      rw moved (laws.read-rename x.0 tmp dest b here fine)

  -- The metadata is at its place, and every other file as it was.
  pub write_meta_lem :
      (bucket key : Text) (m : StoredMeta) (s t : S) (u : Unit {0})
      → write_meta fs st bucket key m s ≡ (t, ok u)
      → (b : List ℕ) × (st.json.encode_meta m ≡ done b)
        × (fs.read t (meta_path st.root bucket key) ≡ some b)
        × ((q : FilePath) (c : List ℕ)
            → settle q ≢ settle (meta_path st.root bucket key)
            → fs.read s q ≡ some c
            → fs.read t q ≡ some c)
  unfolding write_meta
  write_meta_lem bucket key m s t u e =
      let path = meta_path st.root bucket key in
      let (x, made, left) =
        first_step (try (codes "mkdir meta: ") (fs.create_dir_all (parent path)) s) _ t u e in
      let (_, at_dir) =
        failing_ok (codes "mkdir meta: ") (fs.create_dir_all (parent path) s) x.0 x.1 made in
      let (y, coded, rest) =
        first_step (encoded (codes "encode meta: ") (st.json.encode_meta m) x.0) _ t u left in
      let (is, same) =
        encoded_ok (codes "encode meta: ") (st.json.encode_meta m) x.0 y.0 y.1 coded in
      let (fine, moved) = failing_ok (codes "write meta: ") (fs.write path y.1 y.0) t u rest in
      (
        y.1,
        is,
        rw moved (laws.read-write y.0 path y.1 fine),
        λ q c apart there. rw moved (
            laws.read-write_other y.0 path q y.1 apart
            ∙ rw (same, at_dir) (laws.read-create_dir_all s (parent path) q c there)),
      )
