-- ===== src/Fs/ReadBack.antt =====
-- src/storage/fs.rs: what was put is what is read.
use kerplace.Base.{
  Text, ℕ, Bool, true, false, not, ◌≡◌, ◌≤◌, refl, ap, ◌∙◌, if◌then◌else◌, List, Option, none, some,
  length, arith, Dict, done, Outcome-cases, inl, inr,
}
use kerplace.Error.{ok}
use kerplace.Storage.{ObjectMeta}
use kerplace.Storage.Names.{validate_key, validate_bucket_name}
use kerplace.Crypto.{IsAead, IsFaithful, plaintext_len, header_len}
use kerplace.Crypto.Sealing.{encrypting_reader}
use kerplace.Crypto.RoundTrip.{decrypting_reader_checked-encrypting_reader}
use kerplace.Erasure.Versions.{VMode, off, enabled, suspended}
use kerplace.Fs.Tree.{FilePath, FileSystem, IsFileSystem, object_path, meta_path}
use kerplace.Fs.Files.{
  StoredMeta, VersionHistory, FsStore, IsJson, Fresh, BodyReader, read_stored, write_meta,
  stream_to_temp, move_into_place, stored_to_meta, should_encrypt, head_bucket,
}
use kerplace.Fs.Versions.{versioning_mode, begin_versioned_write}
use kerplace.Fs.Store.{
  put_object, get_object, staged, prepared, recorded, install, commit, body_of, vid_of,
}
use kerplace.Fs.Places.{object_path-ne-meta_path}
use kerplace.Fs.Runs.{
  concat, first_step, answered, stream_to_temp_lem, move_into_place_lem, write_meta_lem,
}

-- A body without an error at its end.
abbrev pub whole_body : List ℕ → BodyReader
whole_body plain = record { bytes = plain; fault = none }

module _ {S : Type 0} (fs : FileSystem S) (st : FsStore) (laws : IsFileSystem fs) where
  -- A write that is answered without a version id made no room for a version.
  prepared_none :
      (bucket key : Text) (mode : VMode) (fresh : Fresh) (s t : S)
      → prepared fs st bucket key mode fresh s ≡ (t, ok none)
      → t ≡ s
  unfolding prepared
  prepared_none bucket key off fresh s t h = cc
  prepared_none bucket key enabled fresh s t h =
      let (x, begun, last) =
        first_step (begin_versioned_write fs st bucket key enabled fresh s) _ t none h in
      absurd (cc)
  prepared_none bucket key suspended fresh s t h =
      let (x, begun, last) =
        first_step (begin_versioned_write fs st bucket key suspended fresh s) _ t none h in
      absurd (cc)

  -- An object whose file and metadata are in place is read by its metadata.
  get_object_of :
      IsJson st.json
      → (bucket key : Text) (now : ℕ) (s : S) (m : StoredMeta) (file plain coded : List ℕ)
      → fs.read s (object_path st.root bucket key) ≡ some file
      → st.json.encode_meta m ≡ done coded
      → fs.read s (meta_path st.root bucket key) ≡ some coded
      → body_of fs st m.encrypted file ≡ ok plain
      → get_object fs st bucket key now s ≡ (s, ok (stored_to_meta key m, plain))
  unfolding get_object read_stored
  get_object_of json bucket key now s m file plain coded stored is there opens =
      let (stat, here, regular, _) =
        laws.metadata_read s (object_path st.root bucket key) file stored in
      ground (arith, here, regular, there, stored, json.decode-encode m coded is, opens)

  -- The answer of a write is its metadata.
  install_answer :
      (bucket key : Text) (tmp : FilePath) (pending : Option (Text × VersionHistory))
      (stored : StoredMeta) (s t : S) (m : ObjectMeta)
      → install fs st bucket key tmp pending stored s ≡ (t, ok m)
      → m ≡ stored_to_meta key stored
  unfolding install
  install_answer bucket key tmp pending stored s t m e =
      let dest = object_path st.root bucket key in
      let (x, moved, left) = first_step (move_into_place fs st tmp dest s) _ t m e in
      let (y, written, rest) = first_step (write_meta fs st bucket key stored x.0) _ t m left in
      let (z, noted, last) = first_step (recorded fs st bucket key pending stored y.0) _ t m rest in
      (answered _ z.0 t (stored_to_meta key stored) m refl last).1

  module _ (bucket key : Text) (named : validate_bucket_name bucket ≡ ok tt)
      (valid : validate_key key ≡ ok tt) where
    -- The file and the metadata are in place.
    install_lem :
        (tmp : FilePath) (b : List ℕ) (stored : StoredMeta) (s t : S) (m : ObjectMeta)
        → fs.read s tmp ≡ some b
        → install fs st bucket key tmp none stored s ≡ (t, ok m)
        → (coded : List ℕ) × (fs.read t (object_path st.root bucket key) ≡ some b)
          × (st.json.encode_meta stored ≡ done coded)
          × (fs.read t (meta_path st.root bucket key) ≡ some coded)
    unfolding install recorded
    install_lem tmp b stored s t m there e =
        let dest = object_path st.root bucket key in
        let (x, moved, left) = first_step (move_into_place fs st tmp dest s) _ t m e in
        let (y, written, rest) = first_step (write_meta fs st bucket key stored x.0) _ t m left in
        let placed = move_into_place_lem fs st laws tmp dest b s x.0 x.1 there moved in
        let (coded, is, kept, others) =
          write_meta_lem fs st laws bucket key stored x.0 y.0 y.1 written in
        let apart = object_path-ne-meta_path st.root bucket named key key valid valid in
        let (same, _) = answered _ y.0 t (stored_to_meta key stored) m refl rest in
        (coded, rw same (others dest b apart placed), is, rw same kept)

    -- What a write without a version id leaves: the object's file and its metadata.
    abbrev Stored : Bool → List ℕ → ObjectMeta → S → Type 0
    Stored encrypted b m t =
        (stored : StoredMeta) × (coded : List ℕ) × (m ≡ stored_to_meta key stored)
        × (stored.encrypted ≡ encrypted)
        × (stored.size
            ≡ (if encrypted then plaintext_len (length b) (header_len st.crypto) else length b))
        × (fs.read t (object_path st.root bucket key) ≡ some b)
        × (st.json.encode_meta stored ≡ done coded)
        × (fs.read t (meta_path st.root bucket key) ≡ some coded)

    install-Stored :
        (pending : Option (Text × VersionHistory)) (mode : VMode) (fresh : Fresh) (tmp : FilePath)
        (b : List ℕ) (stored : StoredMeta) (encrypted : Bool) (s u t : S) (m : ObjectMeta)
        → prepared fs st bucket key mode fresh s ≡ (u, ok pending)
        → install fs st bucket key tmp pending stored u ≡ (t, ok m)
        → fs.read s tmp ≡ some b
        → stored.encrypted ≡ encrypted
        → stored.size
          ≡ (if encrypted then plaintext_len (length b) (header_len st.crypto) else length b)
        → stored.version_id ≡ vid_of fs st pending
        → m.version_id ≡ none
        → Stored encrypted b m t
    unfolding stored_to_meta
    install-Stored none mode fresh tmp b stored encrypted s u t m made e there flag size vid
          none_given =
        let same = prepared_none bucket key mode fresh s u made in
        let (coded, file, is, kept) = install_lem tmp b stored u t m (rw same there) e in
        (
          stored,
          coded,
          install_answer bucket key tmp none stored u t m e,
          flag,
          size,
          file,
          is,
          kept,
        )
    install-Stored (some (v, h)) mode fresh tmp b stored encrypted s u t m made e there flag size
          vid none_given =
        let answer = install_answer bucket key tmp (some (v, h)) stored u t m e in
        absurd (ground (arith, ap (λ (x : ObjectMeta). x.version_id) answer))

    commit-Stored :
        ((b : List ℕ) → concat (st.pieces b) ≡ b)
        → (content_type : Text) (user_metadata : Dict Text) (encrypted : Bool) (fresh : Fresh)
          (body : BodyReader) (s t : S) (m : ObjectMeta)
        → commit fs st bucket key content_type user_metadata encrypted fresh body s ≡ (t, ok m)
        → m.version_id ≡ none
        → Stored encrypted body.bytes m t
    unfolding commit
    commit-Stored whole content_type user_metadata encrypted fresh body s t m e unversioned =
        let (x, streamed, left) =
          first_step (stream_to_temp fs st fresh body (not encrypted) s) _ t m e in
        let (there, count) =
          stream_to_temp_lem fs st laws whole fresh body (not encrypted) s x.0 x.1 streamed in
        let mode = versioning_mode fs st bucket x.0 in
        let (y, made, rest) = first_step (prepared fs st bucket key mode fresh x.0) _ t m left in
        install-Stored y.1 mode fresh x.1.0 body.bytes _ encrypted x.0 y.0 t m made rest there refl
          (rw count refl) refl unversioned

  -- What `staged` makes of a body opens to the body.
  staged_lem :
      IsAead st.aead
      → IsFaithful st.crypto
      → (fresh : Fresh) (plain : List ℕ) (encrypted : Bool) (r : BodyReader)
      → 44 ≤ length fresh.dek_random
      → length fresh.base_nonce ≡ 8
      → staged fs st fresh (whole_body plain) encrypted ≡ ok r
      → (body_of fs st encrypted r.bytes ≡ ok plain)
        × ((if encrypted
              then plaintext_len (length r.bytes) (header_len st.crypto)
              else length r.bytes)
            ≡ length plain)
  unfolding staged body_of
  staged_lem aead faithful fresh plain true r enough eight h =
      let base = fresh.base_nonce in
      elim (Outcome-cases (encrypting_reader st.aead st.crypto fresh.dek_random base plain)) [
        | inr (e, fails) ↦ absurd (ground (arith, fails))
        | inl (c, on) ↦
            let (back, size) =
              decrypting_reader_checked-encrypting_reader st.aead st.crypto aead faithful
                fresh.dek_random base plain c enough eight on in
            let same : r.bytes ≡ c = ground (arith, on) in (rw (same, back) refl, rw same size)
      ]
  staged_lem aead faithful fresh plain false r enough eight h =
      let same : r.bytes ≡ plain = ground arith in (ap ok same, ap length same)

  -- The bytes that were put are the bytes that are read, with the metadata that the write has
  -- answered, whose size is their number. The write is encrypted or not; it is one that is answered
  -- without a version id, of a body that ends without an error, in a bucket with an accepted name,
  -- with at least 44 random bytes for its key and eight for its base nonce. The file system and the
  -- sidecars' format keep what they document, the pieces that a reader gives are its bytes, and the
  -- cipher and the key provider open what they have sealed.
  pub get_object-put_object :
      IsJson st.json
      → IsAead st.aead
      → IsFaithful st.crypto
      → ((b : List ℕ) → concat (st.pieces b) ≡ b)
      → (bucket key content_type : Text) (user_metadata : Dict Text) (encrypt : Bool)
        (fresh : Fresh) (plain : List ℕ) (now : ℕ) (s t : S) (m : ObjectMeta)
      → 44 ≤ length fresh.dek_random
      → length fresh.base_nonce ≡ 8
      → validate_bucket_name bucket ≡ ok tt
      → put_object fs st bucket key content_type user_metadata encrypt fresh (whole_body plain) s
        ≡ (t, ok m)
      → m.version_id ≡ none
      → (get_object fs st bucket key now t ≡ (t, ok (m, plain))) × (m.size ≡ length plain)
  unfolding put_object stored_to_meta
  get_object-put_object json aead faithful whole bucket key content_type user_metadata encrypt fresh
        plain now s t m enough eight named e unversioned =
      let encrypted = should_encrypt fs st encrypt in
      let (x, found, left) = first_step (head_bucket fs st bucket s) _ t m e in
      let (y, checked, rest) = first_step (x.0, validate_key key) _ t m left in
      let valid : validate_key key ≡ ok tt = cc in
      let (z, made, last) =
        first_step (y.0, staged fs st fresh (whole_body plain) encrypted) _ t m rest in
      let ready : staged fs st fresh (whole_body plain) encrypted ≡ ok z.1 = cc in
      let (stored, coded, answer, flag, size, file, is, kept) =
        commit-Stored bucket key named valid whole content_type user_metadata encrypted fresh z.1
          z.0 t m last unversioned in
      let (opens, long) = staged_lem aead faithful fresh plain encrypted z.1 enough eight ready in
      (
        rw answer (
            get_object_of json bucket key now t stored z.1.bytes plain coded file is kept
              (rw flag opens)),
        ap (λ (a : ObjectMeta). a.size) answer ∙ size ∙ long,
      )
