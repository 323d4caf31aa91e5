-- ===== src/Erasure/Sharded/Durable.antt =====
-- A write that succeeds can be read as long as enough drives keep their files.
use kerplace.Base.{
  Text, ℕ, suc, ◌≡◌, refl, ap, sym, subst, ◌∙◌, ◌+◌, ◌<◌, ◌≤◌, true, ◌&&◌, inl, inr, List, [], ◌∷◌,
  some, none, Option, ltb, length, text_eq_refl, arith, done, Bool-cases,
}
use kerplace.Error.{ok}
use kerplace.Audit.{AuditContext}
use kerplace.Storage.{ObjectMeta}
use kerplace.Erasure.Drives.{Drive, XlMeta}
use kerplace.Erasure.Codec.{Shard, Codec, ReedSolomon, IsReedSolomon, total, new}
use kerplace.Erasure.Codec.Rebuild.{new-IsCodec}
use kerplace.Erasure.Versions.{read_xl_v}
use kerplace.Erasure.Sharded.Reads.{meta_to_object, streaming_body, stored_object}
use kerplace.Erasure.Sharded.{
  Body, broken_off, full_blocks, blocks, encode_blocks, part_file, Fate, write_drive, write_drives,
  Upload, Digests, sharded_meta, write_sharded, reconstruct_into, answer, placed, or_rolled_back,
}
use kerplace.Erasure.Sharded.Blocks.{blocks_lem}
use kerplace.Erasure.Sharded.Slots.{is_intact, intact}
use kerplace.Erasure.Sharded.Turns.{RowsOf, encode_blocks_lem, part_file_none, reconstruct_from_lem}

-- The drives that took all of a write hold its files.
complete_intact :
    (f : Fate) (part : List ℕ) (meta : XlMeta) (d : Drive)
    → (d.up && f.prepared && f.streamed && f.renamed && f.recorded) ≡ true
    → is_intact part (write_drive f part meta d) ≡ true
unfolding is_intact write_drive
complete_intact f part meta d h = ground (arith, text_eq_refl part, h)

written_intact :
    (fate : ℕ → Fate) (rows : List (List Shard)) (meta : XlMeta) (d : ℕ) (ds : List Drive)
    → ((write_drives fate rows meta d ds).1 ≤ intact rows d (write_drives fate rows meta d ds).0)
      × (length (write_drives fate rows meta d ds).0 ≡ length ds)
unfolding write_drives intact
written_intact fate rows meta d [] = (omega arith, refl)
written_intact fate rows meta d (drive ∷ ds) =
    let (some_more, same) = written_intact fate rows meta (d + 1) ds in
    (ground (arith, some_more, complete_intact (fate d) (part_file d rows) meta drive), ap suc same)

pub write_lem :
    (g : Digests) (ctx : AuditContext) (c : Codec) (size : ℕ) (fate : ℕ → Fate) (key : Text)
    (u : Upload) (src : List ℕ) (ds : List Drive) (rows : List (List Shard))
    → encode_blocks c (blocks size src) ≡ some rows
    → let meta = sharded_meta g ctx c size (length ds) u src rows in
      write_sharded g ctx c size fate key u (record { bytes = src; broken = none }) ds
      ≡ or_rolled_back fate
          (c.data_count + 1)
          (write_drives fate rows meta 0 ds)
          (answer key ctx meta)
unfolding write_sharded
write_lem g ctx c size fate key u src ds rows coded =
    ap (placed g ctx c size fate key u src ds) coded

answered_from :
    (fate : ℕ → Fate) (quorum : ℕ) (after : List Drive × ℕ) (meta : ObjectMeta) (ds' : List Drive)
    (o : ObjectMeta)
    → or_rolled_back fate quorum after meta ≡ (ds', ok o)
    → (quorum ≤ after.1) × (ds' ≡ after.0)
unfolding or_rolled_back
answered_from fate quorum (ds, written) meta ds' o h = elim (Bool-cases (ltb written quorum)) [
  | inl few ↦ absurd (ground (arith, few))
  | inr reached ↦ (ground (arith, reached), ground (arith, reached))
]

-- What a write that is answered has done.
answered :
    (g : Digests) (ctx : AuditContext) (c : Codec) (size : ℕ) (fate : ℕ → Fate) (key : Text)
    (u : Upload) (src : List ℕ) (ds ds' : List Drive) (o : ObjectMeta) (rows : List (List Shard))
    → encode_blocks c (blocks size src) ≡ some rows
    → write_sharded g ctx c size fate key u (record { bytes = src; broken = none }) ds ≡ (ds', ok o)
    → let written =
        write_drives fate rows (sharded_meta g ctx c size (length ds) u src rows) 0 ds in
      (c.data_count + 1 ≤ written.1) × (ds' ≡ written.0)
answered g ctx c size fate key u src ds ds' o rows coded h =
    answered_from fate (c.data_count + 1)
      (write_drives fate rows (sharded_meta g ctx c size (length ds) u src rows) 0 ds)
      (answer key ctx (sharded_meta g ctx c size (length ds) u src rows)) ds' o
      (sym (write_lem g ctx c size fate key u src ds rows coded) ∙ h)

read_all :
    (g : Digests) (ctx : AuditContext) (c : Codec) (size : ℕ) (u : Upload) (src : List ℕ)
    (rows : List (List Shard)) (later : List Drive)
    → ((x y : Shard) → g.checksum x ≡ g.checksum y → x ≡ y)
    → 0 < size
    → RowsOf c (blocks size src) rows
    → length later ≡ total c
    → c.data_count ≤ intact rows 0 later
    → reconstruct_into g.checksum c (sharded_meta g ctx c size (total c) u src rows) later ≡ src
unfolding reconstruct_into sharded_meta
read_all g ctx c size u src rows later same_sum pos sound width enough =
    let m = sharded_meta g ctx c size (total c) u src rows in
    let (all, lens, count) = blocks_lem size src pos in
    rw (← count) (
      reconstruct_from_lem g.checksum same_sum c m later rows width refl enough (blocks size src) []
        rows 0 0 sound refl refl lens (λ d h. ap (length {A = ℕ}) (part_file_none d))
      ∙ all)

-- The codec that the metadata names is the one that the write has used.
new_again :
    (make : ℕ → ℕ → ReedSolomon) (k n : ℕ) (c : Codec)
    → new make k n ≡ done c
    → new make c.data_count c.parity ≡ done c
unfolding new
new_again make k n c h = ground (arith, h)

stream_lem :
    (checksum : Shard → Text) (make : ℕ → ℕ → ReedSolomon) (c : Codec) (m : XlMeta)
    (later : List Drive)
    → new make m.data_shards m.parity ≡ done c
    → streaming_body checksum make m later ≡ ok (reconstruct_into checksum c m later)
unfolding streaming_body
stream_lem checksum make c m later named = rw (named, streaming_body) refl

read_again :
    (checksum : Shard → Text) (make : ℕ → ℕ → ReedSolomon) (c : Codec) (key : Text) (m : XlMeta)
    (later : List Drive)
    → read_xl_v none later ≡ ok m
    → new make m.data_shards m.parity ≡ done c
    → stored_object checksum make key later
      ≡ ok (meta_to_object key m, reconstruct_into checksum c m later)
unfolding stored_object
read_again checksum make c key m later first named =
    rw (first, stream_lem checksum make c m later named) refl

broken_fails :
    (e : Text) (rows : Option (List (List Shard))) (ds ds' : List Drive) (o : ObjectMeta)
    → broken_off e rows ds ≡ (ds', ok o)
    → ⊥
broken_fails e none ds ds' o h = absurd (cc h)
broken_fails e (some rows) ds ds' o h = absurd (cc h)

-- What is answered has a body that did not break off.
finished :
    (g : Digests) (ctx : AuditContext) (c : Codec) (size : ℕ) (fate : ℕ → Fate) (key : Text)
    (u : Upload) (src : List ℕ) (broken : Option Text) (ds ds' : List Drive) (o : ObjectMeta)
    → write_sharded g ctx c size fate key u (record { bytes = src; broken = broken }) ds
      ≡ (ds', ok o)
    → broken ≡ none
unfolding write_sharded
finished g ctx c size fate key u src none ds ds' o h = refl
finished g ctx c size fate key u src (some e) ds ds' o h =
    absurd (broken_fails e (encode_blocks c (full_blocks size src)) ds ds' o h)

named_codec :
    (make : ℕ → ℕ → ReedSolomon) (g : Digests) (ctx : AuditContext) (c : Codec) (size : ℕ)
    (u : Upload) (src : List ℕ) (rows : List (List Shard))
    → new make c.data_count c.parity ≡ done c
    → let m = sharded_meta g ctx c size (total c) u src rows in
      new make m.data_shards m.parity ≡ done c
unfolding sharded_meta
named_codec make g ctx c size u src rows h = h

-- A write that is answered has reached more drives than there are data shards, from a body that did
-- not break off. From then on, whatever the drives lose, keep from another write or get damaged, as
-- long as at least as many drives as there are data shards can be reached and hold the file that the
-- write put on them, and the first reachable drive with a copy of the metadata has the write's copy,
-- a read gives the metadata and, before any decryption, exactly the bytes that were stored. What an
-- older copy of the metadata on an earlier drive makes of the read is not said.
pub reconstruct_into-write_sharded :
    (g : Digests) (ctx : AuditContext) (make : ℕ → ℕ → ReedSolomon) (k n : ℕ) (c : Codec) (size : ℕ)
    (fate : ℕ → Fate) (key : Text) (u : Upload) (body : Body) (ds ds' : List Drive) (o : ObjectMeta)
    → ((x y : Shard) → g.checksum x ≡ g.checksum y → x ≡ y)
    → IsReedSolomon k n (make k n)
    → new make k n ≡ done c
    → 0 < size
    → length ds ≡ total c
    → write_sharded g ctx c size fate key u body ds ≡ (ds', ok o)
    → (rows : List (List Shard)) × (encode_blocks c (blocks size body.bytes) ≡ some rows)
      × (body.broken ≡ none)
      × (c.data_count < intact rows 0 ds')
      × ((later : List Drive)
          → length later ≡ total c
          → c.data_count ≤ intact rows 0 later
          → let m = sharded_meta g ctx c size (total c) u body.bytes rows in
            read_xl_v none later ≡ ok m
            → stored_object g.checksum make key later ≡ ok (meta_to_object key m, body.bytes))
reconstruct_into-write_sharded g ctx make k n c size fate key u body ds ds' o same_sum laws made pos
      width h =
    let src = body.bytes in
    let whole = finished g ctx c size fate key u src body.broken ds ds' o h in
    let h' =
      subst
        (λ b.
          write_sharded g ctx c size fate key u (record { bytes = src; broken = b }) ds
          ≡ (ds', ok o))
        whole h in
    let (rows, coded, sound) =
      encode_blocks_lem c (new-IsCodec make k n c laws made) (blocks size src) in
    let meta = sharded_meta g ctx c size (length ds) u src rows in
    let (enough, same) = answered g ctx c size fate key u src ds ds' o rows coded h' in
    let held = (written_intact fate rows meta 0 ds).0 in
    (
      rows,
      coded,
      whole,
      subst (λ d. c.data_count < intact rows 0 d) (sym same) (omega (arith, enough, held)),
      λ later wide kept first.
          read_again g.checksum make c key (sharded_meta g ctx c size (total c) u src rows) later
            first (named_codec make g ctx c size u src rows (new_again make k n c made))
          ∙ ap (λ b. ok (meta_to_object key (sharded_meta g ctx c size (total c) u src rows), b))
              (read_all g ctx c size u src rows later same_sum pos sound wide kept),
    )
