-- ===== src/Fs/Configured.antt =====
-- src/storage/fs.rs: what a bucket's versioning setting does.
use kerplace.Base.{
  Text, ℕ, ◌≡◌, ◌≢◌, sym, ap, ◌∙◌, List, some, codes, String, Bool-cases, inl, inr, text_eq,
  text_eq_iff, subst,
}
use kerplace.Error.{ok}
use kerplace.Erasure.Versions.{VMode, off, enabled, suspended, vmode}
use kerplace.Calls.{try}
use kerplace.Fs.Tree.{FilePath, settle, FileSystem, IsFileSystem, parent, bucket_cfg_file}
use kerplace.Fs.Files.{FsStore, head_bucket}
use kerplace.Fs.Versions.{versioning_mode}
use kerplace.Fs.Runs.{first_step, failing_ok}
use kerplace.Fs.Settings.{Documents, write_bucket_cfg, set_bucket_versioning}

-- What the writes and deletions of a bucket do under a status: they make versions for `Enabled`,
-- replace the version `null` for `Suspended`, and are plain for any other text.
pub data Means : Text → VMode → Type 0 where
  on : Means (codes "Enabled") enabled
  paused : Means (codes "Suspended") suspended
  unset : {status : Text} → status ≢ codes "Enabled" → status ≢ codes "Suspended" → Means status off

vmode-Means : (status : Text) → Means status (vmode status)
unfolding vmode
vmode-Means status = elim (Bool-cases (text_eq status (codes "Enabled"))) [
  | inl e ↦
      rw e (subst (λ t. Means t enabled) (sym ((text_eq_iff status (codes "Enabled")).0 e)) on)
  | inr n ↦ elim (Bool-cases (text_eq status (codes "Suspended"))) [
    | inl e ↦
        rw (n, e)
          (subst (λ t. Means t suspended) (sym ((text_eq_iff status (codes "Suspended")).0 e))
            paused)
    | inr m ↦
        rw (n, m)
          (unset (λ e. absurd (cc (n, (text_eq_iff status (codes "Enabled")).1 e)))
            (λ e. absurd (cc (m, (text_eq_iff status (codes "Suspended")).1 e))))
  ]
]

module _ {S : Type 0} (fs : FileSystem S) (st : FsStore) (docs : Documents S)
    (laws : IsFileSystem fs) where
  -- The setting is in its file, and every other file as it was.
  write_bucket_cfg_lem :
      (bucket : Text) (file : String) (b : List ℕ) (s t : S) (u : Unit {0})
      → write_bucket_cfg fs st docs bucket file b s ≡ (t, ok u)
      → (fs.read t (bucket_cfg_file st.root bucket (codes file)) ≡ some b)
        × ((q : FilePath) (c : List ℕ)
            → settle q ≢ settle (bucket_cfg_file st.root bucket (codes file))
            → fs.read s q ≡ some c
            → fs.read t q ≡ some c)
  unfolding write_bucket_cfg
  write_bucket_cfg_lem bucket file b s t u e =
      let path = bucket_cfg_file st.root bucket (codes file) in
      let (x, made, left) =
        first_step (try (codes "mkdir bucket cfg: ") (fs.create_dir_all (parent path)) s) _ t u e in
      let (_, at_dir) =
        failing_ok (codes "mkdir bucket cfg: ") (fs.create_dir_all (parent path) s) x.0 x.1 made in
      let (fine, moved) = failing_ok (codes "write bucket cfg: ") (fs.write path b x.0) t u left in
      (
        rw moved (laws.read-write x.0 path b fine),
        λ q c apart there. rw moved (
            laws.read-write_other x.0 path q b apart
            ∙ rw at_dir (laws.read-create_dir_all s (parent path) q c there)),
      )

  head_bucket_ok :
      (bucket : Text) (s t : S) (u : Unit {0}) → head_bucket fs st bucket s ≡ (t, ok u) → t ≡ s
  unfolding head_bucket
  head_bucket_ok bucket s t u e = sym (ap (λ r. r.0) e)

  -- After a status was set as a bucket's versioning, the mode that the bucket's writes and deletions
  -- look up is the one that the status means: versions for `Enabled`, the version `null` for
  -- `Suspended`, and none for any other text. Every other file that could be read is as it was. The file system does what
  -- its calls say, and the status of a setting's document is read back.
  pub versioning_mode-set_bucket_versioning :
      ((t : Text) → st.json.status_of (docs.status_document t) ≡ some (some t))
      → (bucket status : Text) (s t : S) (u : Unit {0})
      → set_bucket_versioning fs st docs bucket status s ≡ (t, ok u)
      → Means status (versioning_mode fs st bucket t)
        × ((q : FilePath) (c : List ℕ)
            → settle q ≢ settle (bucket_cfg_file st.root bucket (codes "versioning.json"))
            → fs.read s q ≡ some c
            → fs.read t q ≡ some c)
  unfolding set_bucket_versioning versioning_mode
  versioning_mode-set_bucket_versioning status_read bucket status s t u e =
      let (x, found, left) = first_step (head_bucket fs st bucket s) _ t u e in
      let same = head_bucket_ok bucket s x.0 x.1 found in
      let (written, kept) =
        write_bucket_cfg_lem bucket "versioning.json" (docs.status_document status) x.0 t u left in
      (
        rw (written, status_read status) (vmode-Means status),
        λ q c apart there. kept q c apart (rw same there),
      )
