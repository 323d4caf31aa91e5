-- ===== src/Erasure/Sharded/Rollback.antt =====
-- What is left of a key after a write that fails.
use kerplace.Base.{
  Text, ℕ, ◌≡◌, ◌≤◌, ◌⊎◌, refl, ap, some, length, if◌then◌else◌, Option, sym, subst, ◌∙◌, ◌+◌, ◌<◌,
  true, inl, inr, List, [], ◌∷◌, none, ltb, arith, Bool-cases, done,
}
use kerplace.Error.{err, S3Error}
use kerplace.Audit.{AuditContext}
use kerplace.Storage.{ObjectMeta}
use kerplace.Erasure.Drives.{Drive, no_files}
use kerplace.Erasure.Versions.{wipe}
use kerplace.Erasure.Codec.{Shard, Codec, ReedSolomon, IsReedSolomon, new}
use kerplace.Erasure.Codec.Rebuild.{new-IsCodec}
use kerplace.Erasure.Sharded.{
  blocks, encode_blocks, full_blocks, broken_off, roll_back, Body, Fate, write_drives, Upload,
  Digests, sharded_meta, write_sharded, answer, or_rolled_back,
}
use kerplace.Erasure.Sharded.Turns.{encode_blocks_lem}
use kerplace.Erasure.Sharded.Durable.{write_lem}

-- A drive holds nothing of the key, if it can be reached and its removal has worked.
abbrev pub IsBare : Fate → Drive → Type 0
IsBare f d =
    f.removed ≡ true → d.up ≡ true → (d.current ≡ no_files) × (d.archive ≡ []) × (d.history ≡ none)

abbrev pub AllBare : (ℕ → Fate) → ℕ → List Drive → Type 0
AllBare fate i [] = Unit {0}
AllBare fate i (d ∷ ds) = IsBare (fate i) d × AllBare fate (i + 1) ds

wipe-IsBare : (f : Fate) (d : Drive) → IsBare f (if f.removed then wipe d else d)
unfolding wipe
wipe-IsBare f d removed up =
    (ground (arith, removed, up), ground (arith, removed, up), ground (arith, removed, up))

roll_back-AllBare :
    (fate : ℕ → Fate) (i : ℕ) (ds : List Drive) → AllBare fate i (roll_back fate i ds)
unfolding roll_back
roll_back-AllBare fate i [] = tt
roll_back-AllBare fate i (d ∷ ds) = (wipe-IsBare (fate i) d, roll_back-AllBare fate (i + 1) ds)

refused_from :
    (fate : ℕ → Fate) (quorum : ℕ) (after : List Drive × ℕ) (meta : ObjectMeta) (ds' : List Drive)
    (e : S3Error)
    → or_rolled_back fate quorum after meta ≡ (ds', err e)
    → (after.1 < quorum) × (ds' ≡ roll_back fate 0 after.0)
unfolding or_rolled_back
refused_from fate quorum (ds, written) meta ds' e h = elim (Bool-cases (ltb written quorum)) [
  | inl few ↦ (ground (arith, few), ground (arith, few))
  | inr reached ↦ absurd (ground (arith, reached))
]

broken_same :
    (x : Text) (rows : Option (List (List Shard))) (ds ds' : List Drive) (e : S3Error)
    → broken_off x rows ds ≡ (ds', err e)
    → ds' ≡ ds
broken_same x none ds ds' e h = sym (ap (λ r. r.0) h)
broken_same x (some rows) ds ds' e h = sym (ap (λ r. r.0) h)

-- How a failed write leaves the drives: its body broke off and the published files are as they were,
-- or at most as many drives took all of it as there are data shards, and it was rolled back.
abbrev pub Undone :
    Digests
    → AuditContext
    → Codec
    → ℕ
    → (ℕ → Fate)
    → Upload
    → Body
    → List Drive
    → List Drive
    → Type 0
Undone g ctx c size fate u body ds ds' =
    ((x : Text) × (body.broken ≡ some x) × (ds' ≡ ds))
    ⊎ ((rows : List (List Shard)) × (body.broken ≡ none)
        × (encode_blocks c (blocks size body.bytes) ≡ some rows)
        × ((write_drives fate rows (sharded_meta g ctx c size (length ds) u body.bytes rows) 0 ds).1
            ≤ c.data_count)
        × AllBare fate 0 ds')

failed_write :
    (g : Digests) (ctx : AuditContext) (make : ℕ → ℕ → ReedSolomon) (k n : ℕ) (c : Codec) (size : ℕ)
    (fate : ℕ → Fate) (key : Text) (u : Upload) (src : List ℕ) (broken : Option Text)
    (ds ds' : List Drive) (e : S3Error)
    → IsReedSolomon k n (make k n)
    → new make k n ≡ done c
    → write_sharded g ctx c size fate key u (record { bytes = src; broken = broken }) ds
      ≡ (ds', err e)
    → Undone g ctx c size fate u (record { bytes = src; broken = broken }) ds ds'
failed_write g ctx make k n c size fate key u src (some x) ds ds' e laws made h = inl (
  x,
  refl,
  broken_same x (encode_blocks c (full_blocks size src)) ds ds' e (unfold write_sharded in h),
)
failed_write g ctx make k n c size fate key u src none ds ds' e laws made h =
    let (rows, coded, sound) =
      encode_blocks_lem c (new-IsCodec make k n c laws made) (blocks size src) in
    let meta = sharded_meta g ctx c size (length ds) u src rows in
    let (few, same) =
      refused_from fate (c.data_count + 1) (write_drives fate rows meta 0 ds) (answer key ctx meta)
        ds' e (sym (write_lem g ctx c size fate key u src ds rows coded) ∙ h) in
    inr (
      rows,
      refl,
      coded,
      omega (arith, few),
      subst (AllBare fate 0) (sym same)
          (roll_back-AllBare fate 0 (write_drives fate rows meta 0 ds).0),
    )

-- A write fails in two ways only. Its body breaks off: then no published file of the key has changed
-- on any drive. Or the body ends, and at most as many drives as there are data shards have taken all
-- of it: then nothing of the key is left on any drive that can be reached and whose removal has
-- worked, neither the version before, nor the archived versions, nor the history.
pub write_sharded-AllBare :
    (g : Digests) (ctx : AuditContext) (make : ℕ → ℕ → ReedSolomon) (k n : ℕ) (c : Codec) (size : ℕ)
    (fate : ℕ → Fate) (key : Text) (u : Upload) (body : Body) (ds ds' : List Drive) (e : S3Error)
    → IsReedSolomon k n (make k n)
    → new make k n ≡ done c
    → write_sharded g ctx c size fate key u body ds ≡ (ds', err e)
    → Undone g ctx c size fate u body ds ds'
write_sharded-AllBare g ctx make k n c size fate key u body ds ds' e laws made h =
    failed_write g ctx make k n c size fate key u body.bytes body.broken ds ds' e laws made h
