-- ===== src/Erasure/Sharded.antt =====
-- src/erasure/store.rs: `write_sharded` and `reconstruct_into`, the stored bytes of an object as
-- shards on the drives. The shard of a drive is the one of its index. What goes wrong on a drive in
-- a write is an argument; the file that a write streams into before its rename is left out. The
-- texts of errors end before the numbers in them.
pub mod Blocks
pub mod Slots
pub mod Turns
pub mod Durable
pub mod Rollback
pub mod Reads
use kerplace.Base.{
  Text, ℕ, zero, suc, ◌+◌, ◌-◌, ◌*◌, ◌/◌, ◌%◌, Bool, true, false, not, ◌&&◌, if◌then◌else◌, List,
  [], ◌∷◌, ◌++◌, map, filter, Option, none, some, unwrap_or, codes, ltb, ◌==◌, length, take, drop,
  get_elem?, is_empty, text_eq, Dict, Outcome, done, failed,
}
use kerplace.Error.{Result, ok, err, internal}
use kerplace.Audit.{AuditContext}
use kerplace.Crypto.{plaintext_len}
use kerplace.Storage.{ObjectMeta, VersionAudit, audit_is_some}
use kerplace.Erasure.Drives.{XlMeta, Files, Drive}
use kerplace.Erasure.Versions.{Call, wipe}
use kerplace.Erasure.Codec.{
  CodecError, Shard, Codec, concat, shard_len, encode_block, reconstruct_block,
}

-- The loop over `read_block`: the first block is there even if it is empty, and a block that is not
-- full is the last.
unfoldable pub blocks_of : ℕ → ℕ → Bool → List ℕ → List (List ℕ)
blocks_of size zero wrote_any src = []
blocks_of size (suc fuel) wrote_any src =
    let got = take size src in
    let rest = blocks_of size fuel true (drop size src) in
    if is_empty got && wrote_any then [] else if ltb (length got) size then got ∷ [] else got ∷ rest

abbrev pub blocks : ℕ → List ℕ → List (List ℕ)
blocks size src = blocks_of size (suc (suc (length src))) false src

abbrev row_then :
    Outcome CodecError (List Shard) → Option (List (List Shard)) → Option (List (List Shard))
row_then (failed e) rest = none
row_then (done row) none = none
row_then (done row) (some rows) = some (row ∷ rows)

-- The shards of every block.
unfoldable pub encode_blocks : Codec → List (List ℕ) → Option (List (List Shard))
encode_blocks c [] = some []
encode_blocks c (b ∷ bs) = row_then (encode_block c b) (encode_blocks c bs)

abbrev pub shard_at : ℕ → List Shard → Shard
shard_at d row = unwrap_or (get_elem? row d) []

-- The shards of one drive, and its file.
abbrev pub column : ℕ → List (List Shard) → List Shard
column d rows = map (shard_at d) rows

unfoldable pub part_file : ℕ → List (List Shard) → List ℕ
unfolding concat
part_file d rows = concat (column d rows)

-- What works on one drive: the writer is made, takes all shards and is shut down, the file is
-- renamed, and `xl.meta` is written; and the removal of the key's directory in a roll-back.
pub record Fate : Type 0 where
  pub prepared : Bool
  pub streamed : Bool
  pub renamed : Bool
  pub recorded : Bool
  pub removed : Bool

-- The stored bytes as they come: what the reader gives, and the error that it ends with, if it does.
pub record Body : Type 0 where
  pub bytes : List ℕ
  pub broken : Option Text

abbrev published : Fate → Drive → Bool
published f d = d.up && f.prepared && f.streamed && f.renamed

abbrev complete : Fate → Drive → Bool
complete f d = published f d && f.recorded

unfoldable pub write_drive : Fate → List ℕ → XlMeta → Drive → Drive
write_drive f part meta d = record d {
  current = record {
    part = if published f d then some part else d.current.part;
    xl = if complete f d then some meta else d.current.xl;
  };
}

-- The drives from an index on, after the write, and the number of complete ones.
unfoldable pub write_drives :
    (ℕ → Fate) → List (List Shard) → XlMeta → ℕ → List Drive → List Drive × ℕ
unfolding write_drive part_file
write_drives fate rows meta d [] = ([], 0)
write_drives fate rows meta d (drive ∷ drives) =
    let rest = write_drives fate rows meta (d + 1) drives in
    (
      write_drive (fate d) (part_file d rows) meta drive ∷ rest.0,
      if complete (fate d) drive then suc rest.1 else rest.1,
    )

-- What a write takes beside the bytes, and the digests of third-party code.
pub record Upload : Type 0 where
  pub content_type : Text
  pub user_metadata : Dict Text
  pub encrypted : Bool
  pub etag_override : Option Text
  pub opaque_etag : Text
  pub last_modified : ℕ
  pub header_len : ℕ

pub record Digests : Type 0 where
  pub checksum : Shard → Text
  pub md5_hex : List ℕ → Text

unfoldable pub checksums_of : (Shard → Text) → List (List Shard) → ℕ → ℕ → List (List Text)
checksums_of checksum rows d zero = []
checksums_of checksum rows d (suc left) =
    map checksum (column d rows) ∷ checksums_of checksum rows (d + 1) left

abbrev etag_for : Digests → Upload → List ℕ → Text
etag_for g u src = elim u.etag_override [
  | some e ↦ e
  | none ↦ if u.encrypted then u.opaque_etag else g.md5_hex src
]

unfoldable pub sharded_meta :
    Digests → AuditContext → Codec → ℕ → ℕ → Upload → List ℕ → List (List Shard) → XlMeta
unfolding checksums_of
sharded_meta g ctx c size n u src rows = record {
  version = 1;
  data_shards = c.data_count;
  parity = c.parity;
  block_size = size;
  stored_size = length src;
  size = if u.encrypted then plaintext_len (length src) u.header_len else length src;
  etag = etag_for g u src;
  content_type = u.content_type;
  user_metadata = u.user_metadata;
  encrypted = u.encrypted;
  last_modified = u.last_modified;
  owner = ctx.access_key;
  src_ip = ctx.remote_ip;
  checksums = checksums_of g.checksum rows 0 n;
}

abbrev audit_of : AuditContext → Option VersionAudit
audit_of ctx =
    let audit : VersionAudit = record { author = ctx.access_key; source_ip = ctx.remote_ip } in
    if audit_is_some audit then some audit else none

abbrev pub answer : Text → AuditContext → XlMeta → ObjectMeta
answer key ctx m = record {
  key = key;
  size = m.size;
  etag = m.etag;
  last_modified = m.last_modified;
  content_type = m.content_type;
  user_metadata = m.user_metadata;
  encrypted = m.encrypted;
  version_id = none;
  audit = audit_of ctx;
}

-- The roll-back: an error of the removal is ignored, and leaves the drive's files.
unfoldable pub roll_back : (ℕ → Fate) → ℕ → List Drive → List Drive
unfolding wipe
roll_back fate d [] = []
roll_back fate d (drive ∷ drives) =
    let rest = roll_back fate (d + 1) drives in
    (if (fate d).removed then wipe drive else drive) ∷ rest

abbrev pub or_rolled_back : (ℕ → Fate) → ℕ → List Drive × ℕ → ObjectMeta → Call ObjectMeta
unfolding roll_back
or_rolled_back fate quorum (ds, written) meta =
    if ltb written quorum
    then (roll_back fate 0 ds, err (internal (codes "write quorum not met: ")))
    else (ds, ok meta)

abbrev pub placed :
    Digests
    → AuditContext
    → Codec
    → ℕ
    → (ℕ → Fate)
    → Text
    → Upload
    → List ℕ
    → List Drive
    → Option (List (List Shard))
    → Call ObjectMeta
placed g ctx c size fate key u src ds none = (ds, err (internal (codes "erasure encode: ")))
placed g ctx c size fate key u src ds (some rows) =
    let meta = sharded_meta g ctx c size (length ds) u src rows in
    or_rolled_back fate (c.data_count + 1) (write_drives fate rows meta 0 ds) (answer key ctx meta)

-- Where the body breaks off, only the full blocks before that are encoded, and nothing is published
-- or rolled back.
abbrev pub broken_off : Text → Option (List (List Shard)) → List Drive → Call ObjectMeta
broken_off e none ds = (ds, err (internal (codes "erasure encode: ")))
broken_off e (some rows) ds = (ds, err (internal (codes "read body: " ++ e)))

abbrev pub full_blocks : ℕ → List ℕ → List (List ℕ)
full_blocks size src = filter (λ b. length b == size) (blocks size src)

-- A drive whose writer stops takes no further shard; the others go on.
unfoldable pub write_sharded :
    Digests
    → AuditContext
    → Codec
    → ℕ
    → (ℕ → Fate)
    → Text
    → Upload
    → Body
    → List Drive
    → Call ObjectMeta
unfolding write_drives sharded_meta encode_blocks blocks_of roll_back filter
write_sharded g ctx c size fate key u body ds = elim body.broken [
  | some e ↦ broken_off e (encode_blocks c (full_blocks size body.bytes)) ds
  | none ↦ placed g ctx c size fate key u body.bytes ds (encode_blocks c (blocks size body.bytes))
]

-- `Drive::read_at` of the shard file
abbrev pub read_at : Drive → ℕ → ℕ → Option Shard
read_at d offset len = elim d.current.part [
  | none ↦ none
  | some part ↦
      if d.up && not (ltb (length part) (offset + len))
      then some (take len (drop offset part))
      else none
]

abbrev pub checksum_at : List (List Text) → ℕ → ℕ → Option Text
checksum_at checksums d b = elim (get_elem? checksums d) [ none ↦ none | some c ↦ get_elem? c b ]

abbrev pub verified : (Shard → Text) → Option Text → Option Shard → Option Shard
verified checksum none buf = none
verified checksum (some sum) none = none
verified checksum (some sum) (some buf) = if text_eq sum (checksum buf) then some buf else none

-- The slots of one block, from a drive's index on.
unfoldable pub read_slots :
    (Shard → Text) → List (List Text) → ℕ → ℕ → ℕ → ℕ → List Drive → List (Option Shard)
read_slots checksum checksums b offset slen d [] = []
read_slots checksum checksums b offset slen d (drive ∷ drives) =
    verified checksum (checksum_at checksums d b) (read_at drive offset slen)
    ∷ read_slots checksum checksums b offset slen (d + 1) drives

abbrev pub div_ceil : ℕ → ℕ → ℕ
div_ceil n k = if n % k == 0 then n / k else n / k + 1

unfoldable pub block_count : ℕ → ℕ → ℕ
block_count stored size = if stored == 0 then 1 else div_ceil stored size

unfoldable pub block_len : ℕ → ℕ → ℕ → ℕ
unfolding block_count
block_len stored size b =
    if stored == 0 then 0 else if b == block_count stored size - 1 then stored - b * size else size

abbrev front_of : Outcome CodecError (List ℕ) → List ℕ → List ℕ
front_of (failed e) rest = []
front_of (done block) rest = block ++ rest

-- The loop of `reconstruct_into`, with so many blocks left: what the reader sees before it ends.
unfoldable pub reconstruct_from : (Shard → Text) → Codec → XlMeta → List Drive → ℕ → ℕ → ℕ → List ℕ
reconstruct_from checksum c m ds zero b offset = []
reconstruct_from checksum c m ds (suc left) b offset =
    let len = block_len m.stored_size m.block_size b in
    let slen = shard_len c len in
    let slots = read_slots checksum m.checksums b offset slen 0 ds in
    front_of (reconstruct_block c slots len)
      (reconstruct_from checksum c m ds left (b + 1) (offset + slen))

unfoldable pub reconstruct_into : (Shard → Text) → Codec → XlMeta → List Drive → List ℕ
unfolding reconstruct_from block_len read_slots
reconstruct_into checksum c m ds =
    reconstruct_from checksum c m ds (block_count m.stored_size m.block_size) 0 0
