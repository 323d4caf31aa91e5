-- ===== src/Fs/Multipart/Completion.antt =====
-- src/storage/fs.rs: what a completed upload answers.
use kerplace.Base.{
  Text, ℕ, ◌≡◌, subst, ◌++◌, List, [], ◌∷◌, Option, some, codes, length, done, arith,
}
use kerplace.Error.{ok, no_such_upload}
use kerplace.Storage.{ObjectMeta, CompletedPart}
use kerplace.Calls.{◌>>◌, pure, try, ignoring}
use kerplace.Fs.Tree.{FilePath, FileSystem, IsFileSystem, tmp_dir, object_path, upload_dir}
use kerplace.Fs.Files.{
  StoredMeta, VersionHistory, FsStore, Fresh, move_into_place, write_meta, stored_to_meta,
}
use kerplace.Fs.Versions.{versioning_mode}
use kerplace.Fs.Store.{prepared, recorded, vid_of}
use kerplace.Fs.Runs.{first_step, failing_ok}
use kerplace.Fs.Multipart.{
  UploadManifest, Uploads, or_missing, or_failed, manifest_path, assemble, final_tmp, completed,
  complete_multipart, published, assembled,
}
use kerplace.Fs.Multipart.Assembly.{
  Piece, pieces, raws, sizes, IsApart, reading_step, or_missing_ok, or_failed_ok, assemble-pieces,
}

pure_ok : {S A : Type 0} (s t : S) (a b : A) → pure a s ≡ (t, ok b) → b ≡ a
pure_ok s t a b h = cc

module _ {S : Type 0} (fs : FileSystem S) (st : FsStore) (up : Uploads S) where
  completed-meta :
      (bucket key id : Text) (tmp : FilePath) (p : Option (Text × VersionHistory)) (m : StoredMeta)
      (s t : S) (meta : ObjectMeta)
      → completed fs st up bucket key id tmp p m s ≡ (t, ok meta)
      → meta ≡ stored_to_meta key m
  unfolding completed
  completed-meta bucket key id tmp p m s t meta e =
      let (x, _, e1) =
        first_step (move_into_place fs st tmp (object_path st.root bucket key) s) _ t meta e in
      let (y, _, e2) = first_step (write_meta fs st bucket key m x.0) _ t meta e1 in
      let (z, _, e3) =
        first_step (ignoring (fs.remove_dir_all (upload_dir st.root bucket id)) y.0)
          (λ _. recorded fs st bucket key p m >> pure (stored_to_meta key m)) t meta e2 in
      let (w, _, e4) =
        first_step (recorded fs st bucket key p m z.0) (λ _. pure (stored_to_meta key m)) t meta
          e3 in
      pure_ok w.0 t (stored_to_meta key m) meta e4

  published-meta :
      (bucket key id : Text) (m : UploadManifest) (fresh : Fresh) (etag : Text) (total : ℕ)
      (final : FilePath) (s t : S) (meta : ObjectMeta)
      → published fs st up bucket key id m fresh etag total final s ≡ (t, ok meta)
      → (vid : Option Text) × (meta
          ≡ stored_to_meta key (assembled fs st up m fresh etag total vid))
  unfolding published
  published-meta bucket key id m fresh etag total final s t meta e =
      let mode = versioning_mode fs st bucket s in
      let (w, _, e2) =
        first_step (prepared fs st bucket key mode fresh s)
          (λ p.
            completed fs st up bucket key id final p
              (assembled fs st up m fresh etag total (vid_of fs st p)))
          t meta e in
      (
        vid_of fs st w.1,
        completed-meta bucket key id final w.1
            (assembled fs st up m fresh etag total (vid_of fs st w.1)) w.0 t meta e2,
      )

  -- The tag of an upload in parts: the hash of the parts' tags, and their number.
  abbrev pub multipart_etag : List ℕ → List CompletedPart → Text
  multipart_etag raw parts = st.md5_hex raw ++ (codes "-" ++ up.decimal (length parts))

  module _ (laws : IsFileSystem fs) (bucket key id assembly : Text)
      (apart : IsApart fs st up bucket id (assembly ∷ tmp_dir st.root)) where
    -- A completed upload answers with what the manifest of its begin says, the sum of the sizes of
    -- the parts that the client names, and the tag of an upload in parts: the hash of the parts' tags
    -- in the client's order, and their number. Each of these parts was uploaded with the tag that
    -- the client gives. The file system does what its calls say, and the temporary file is no file
    -- of the upload.
    pub complete_multipart-pieces :
        (parts : List CompletedPart) (fresh : Fresh) (s t : S) (meta : ObjectMeta)
        → complete_multipart fs st up bucket key id parts assembly fresh s ≡ (t, ok meta)
        → (b : List ℕ) × (m : UploadManifest) × (ps : List Piece) × (vid : Option Text) × (fs.read s
              (manifest_path fs st up bucket id)
            ≡ some b)
          × (up.decode_manifest b ≡ done m)
          × (pieces fs st up bucket id (fs.create (assembly ∷ tmp_dir st.root) s).0 parts ≡ some ps)
          × (meta
              ≡ stored_to_meta key
                  (assembled fs st up m fresh (multipart_etag (raws ps) parts) (sizes ps) vid))
    unfolding complete_multipart
    complete_multipart-pieces parts fresh s t meta e =
        let tmp = assembly ∷ tmp_dir st.root in
        let begun = fs.read s (manifest_path fs st up bucket id) in
        let (b, read_b, e1) = reading_step s (or_missing no_such_upload begun) _ t meta e in
        let (m, is_m, e2) =
          reading_step s (or_failed "decode manifest: " (up.decode_manifest b)) _ t meta e1 in
        let (x, opened, e3) =
          first_step (try (codes "create assembly: ") (fs.create tmp) s) _ t meta e2 in
        let (fine, moved) =
          failing_ok (codes "create assembly: ") (fs.create tmp s) x.0 x.1 opened in
        let start : fs.read x.0 tmp ≡ some [] = rw moved (laws.read-create s tmp fine) in
        let (y, joined, e4) =
          first_step (assemble fs st up bucket id tmp parts [] 0 x.0) _ t meta e3 in
        let (ps, found, _, tags, count) =
          assemble-pieces fs st up bucket id laws tmp apart parts [] [] 0 x.0 y.0 y.1 start
            joined in
        let (z, _, e5) =
          first_step (final_tmp fs st up m.encrypt tmp fresh y.0)
            (λ final.
              published fs st up bucket key id m fresh (multipart_etag y.1.0 parts) y.1.1 final)
            t meta e4 in
        let total : y.1.1 ≡ sizes ps = omega (arith, count) in
        let (vid, same) =
          published-meta bucket key id m fresh (multipart_etag y.1.0 parts) y.1.1 z.1 z.0 t meta
            e5 in
        (
          b,
          m,
          ps,
          vid,
          or_missing_ok no_such_upload begun b read_b,
          or_failed_ok "decode manifest: " (up.decode_manifest b) m is_m,
          subst (λ u. pieces fs st up bucket id u parts ≡ some ps) moved found,
          subst
              (λ n.
                meta
                ≡ stored_to_meta key
                    (assembled fs st up m fresh (multipart_etag (raws ps) parts) n vid))
              total
              (subst
                (λ c.
                  meta
                  ≡ stored_to_meta key
                      (assembled fs st up m fresh (multipart_etag c parts) y.1.1 vid))
                tags same),
        )
