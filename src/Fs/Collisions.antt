-- ===== src/Fs/Collisions.antt =====
-- src/storage/fs.rs: the tags of one key and the metadata of another have one file.
use kerplace.Base.{Text, ℕ, ◌≡◌, refl, sym, ap, ◌∙◌, List, ◌++◌, none, some, codes, arith, done}
use mathlib.Core.List.{append_assoc}
use kerplace.Error.{ok}
use kerplace.Fs.Tree.{
  FilePath, FileSystem, IsFileSystem, Stat, join, parent, strip_suffix, meta_path, object_path,
  object_sidecar, meta_root,
}
use kerplace.Calls.{try}
use kerplace.Fs.Files.{FsStore, stat_meta, stored_to_meta, read_stored, write_obj_sidecar}
use kerplace.Fs.Store.{head_object, set_object_tags, get_object, body_of}
use kerplace.Fs.Runs.{first_step, failing_ok}
use kerplace.Fs.Segments.{strip_suffix-append}

-- The object whose metadata has the name of the tags.
abbrev pub tagged : Text → Text
tagged key = key ++ codes ".tags"

meta_path_of :
    (root : FilePath) (bucket key : Text)
    → strip_suffix b'/' key ≡ none
    → meta_path root bucket key ≡ join (join (meta_root root) bucket) (key ++ codes ".json")
unfolding meta_path
meta_path_of root bucket key e = ground (arith, e)

-- For every key.
sidecar_of_tagged :
    (root : FilePath) (bucket key : Text)
    → object_sidecar root bucket key (codes "tags.json") ≡ meta_path root bucket (tagged key)
unfolding object_sidecar
sidecar_of_tagged root bucket key =
    let none_left : strip_suffix b'/' (tagged key) ≡ none =
      strip_suffix-append key (codes ".tags") refl ∙ unfold strip_suffix in refl in
    let text : key ++ (codes "." ++ codes "tags.json") ≡ tagged key ++ codes ".json" =
      sym (append_assoc key (codes ".tags") (codes ".json")) in
    ap (join (join (meta_root root) bucket)) text
    ∙ sym (meta_path_of root bucket (tagged key) none_left)

module _ {S : Type 0} (fs : FileSystem S) (st : FsStore) (laws : IsFileSystem fs) where
  write_obj_sidecar_lem :
      (bucket key suffix : Text) (b : List ℕ) (s t : S) (u : Unit {0})
      → write_obj_sidecar fs st bucket key suffix b s ≡ (t, ok u)
      → fs.read t (object_sidecar st.root bucket key suffix) ≡ some b
  unfolding write_obj_sidecar
  write_obj_sidecar_lem bucket key suffix b s t u e =
      let path = object_sidecar st.root bucket key suffix in
      let (x, made, left) =
        first_step (try (codes "mkdir sidecar: ") (fs.create_dir_all (parent path)) s) _ t u e in
      let (fine, moved) = failing_ok (codes "write sidecar: ") (fs.write path b x.0) t u left in
      rw moved (laws.read-write x.0 path b fine)

  tags_written :
      (bucket key : Text) (now : ℕ) (b : List ℕ) (s t : S) (u : Unit {0})
      → set_object_tags fs st bucket key now (done b) s ≡ (t, ok u)
      → fs.read t (object_sidecar st.root bucket key (codes "tags.json")) ≡ some b
  unfolding set_object_tags
  tags_written bucket key now b s t u e =
      let (x, found, left) = first_step (head_object fs st bucket key now s) _ t u e in
      write_obj_sidecar_lem bucket key (codes "tags.json") b x.0 t u left

  -- Once tags are set on a key, the object whose key is that key and `.tags` has lost its metadata,
  -- if it has a file and the tags are no object's metadata: it is read as the bytes of its file, as
  -- if it were not encrypted, with no ETag and no user metadata. The file system keeps what it
  -- documents.
  pub get_object-set_object_tags :
      (bucket key : Text) (now later : ℕ) (b file : List ℕ) (s t : S) (u : Unit {0})
      → st.json.decode_meta b ≡ none
      → set_object_tags fs st bucket key now (done b) s ≡ (t, ok u)
      → fs.read t (object_path st.root bucket (tagged key)) ≡ some file
      → (m : Stat) × (fs.metadata t (object_path st.root bucket (tagged key)) ≡ some m)
        × (get_object fs st bucket (tagged key) later t
            ≡ (t, ok (stored_to_meta (tagged key) (stat_meta m later), file)))
  unfolding get_object read_stored body_of
  get_object-set_object_tags bucket key now later b file s t u no_meta e kept =
      let (m, here, regular, _) =
        laws.metadata_read t (object_path st.root bucket (tagged key)) file kept in
      let path = sidecar_of_tagged st.root bucket key in
      let wrote = tags_written bucket key now b s t u e in
      let over : fs.read t (meta_path st.root bucket (tagged key)) ≡ some b =
        ap (fs.read t) (sym path) ∙ wrote in
      (m, here, ground (arith, here, regular, over, no_meta, kept))
