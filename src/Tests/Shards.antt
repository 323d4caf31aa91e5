-- ===== src/Tests/Shards.antt =====
-- Examples for the shards of an object: one data shard and one parity shard, which are the same.
use kerplace.Base.{
  Text, ℕ, suc, zero, ◌≡◌, refl, sym, subst, ◌+◌, ◌≤◌, ◌<◌, true, false, List, [], ◌∷◌, ◌++◌, map,
  Option, none, some, codes, length, arith, done, failed,
}
use kerplace.Error.{ok, err, internal}
use kerplace.Audit.{no_context}
use kerplace.Erasure.Drives.{Drive, Files, no_files, XlMeta}
use kerplace.Erasure.Versions.{wipe, read_xl_v}
use kerplace.Erasure.Codec.{
  too_many_missing, Shard, Survives, present, AllOf, ReedSolomon, IsReedSolomon, Codec, new, total,
  encode_block, reconstruct_block,
}
use kerplace.Erasure.Codec.Rebuild.{reconstruct_block-encode_block}
use kerplace.Erasure.Sharded.{
  blocks, encode_blocks, Fate, Upload, Digests, sharded_meta, write_sharded, answer, Body,
}
use kerplace.Erasure.Sharded.Reads.{meta_to_object, stored_object}
use kerplace.Erasure.Sharded.Slots.{intact}
use kerplace.Erasure.Sharded.Durable.{reconstruct_into-write_sharded}
use kerplace.Erasure.Sharded.Rollback.{Undone, write_sharded-AllBare}

abbrev twice : List Shard → Option (List Shard)
twice (x ∷ y ∷ []) = some (x ∷ x ∷ [])
twice xs = none

abbrev from_either : List (Option Shard) → Option (List (Option Shard))
from_either (some x ∷ y ∷ []) = some (some x ∷ some x ∷ [])
from_either (none ∷ some y ∷ []) = some (some y ∷ some y ∷ [])
from_either slots = none

abbrev make : ℕ → ℕ → ReedSolomon
make k m = record { encode = twice; reconstruct = from_either }

encode_twice :
    (n : ℕ) (front blank : List Shard)
    → length front ≡ 1
    → length blank ≡ 1
    → AllOf n front
    → (parity : List Shard) × (length parity ≡ 1)
      × AllOf n parity
      × (twice (front ++ blank) ≡ some (front ++ parity))
encode_twice n (x ∷ []) (y ∷ []) h i all = (x ∷ [], refl, all, refl)
encode_twice n [] blank h i all = absurd (omega arith)
encode_twice n (x ∷ z ∷ front) blank h i all = absurd (omega arith)
encode_twice n (x ∷ []) [] h i all = absurd (omega arith)
encode_twice n (x ∷ []) (y ∷ z ∷ blank) h i all = absurd (omega arith)

either_of :
    (x : Shard) (slots : List (Option Shard))
    → Survives slots (x ∷ x ∷ [])
    → 1 ≤ present slots
    → from_either slots ≡ some (some x ∷ some x ∷ [])
unfolding present
either_of x (some y ∷ some z ∷ []) s h = ground (arith, s.0)
either_of x (some y ∷ none ∷ []) s h = ground (arith, s.0)
either_of x (none ∷ some z ∷ []) s h = ground (arith, s.0)
either_of x (none ∷ none ∷ []) s h = absurd (omega arith)
either_of x [] s h = absurd s
either_of x (some y ∷ []) s h = absurd s.1
either_of x (none ∷ []) s h = absurd s
either_of x (some y ∷ some z ∷ w ∷ slots) s h = absurd s.1.1
either_of x (some y ∷ none ∷ w ∷ slots) s h = absurd s.1
either_of x (none ∷ some z ∷ w ∷ slots) s h = absurd s.1
either_of x (none ∷ none ∷ w ∷ slots) s h = absurd s

reconstruct_twice :
    (front blank shards : List Shard) (slots : List (Option Shard))
    → length front ≡ 1
    → twice (front ++ blank) ≡ some shards
    → Survives slots shards
    → 1 ≤ present slots
    → from_either slots ≡ some (map some shards)
reconstruct_twice (x ∷ []) (y ∷ []) shards slots h e s i =
    let same : x ∷ x ∷ [] ≡ shards = cc e in
    subst (λ (xs : List Shard). from_either slots ≡ some (map some xs)) same
      (either_of x slots (subst (Survives slots) (sym same) s) i)
reconstruct_twice [] blank shards slots h e s i = absurd (omega arith)
reconstruct_twice (x ∷ z ∷ front) blank shards slots h e s i = absurd (omega arith)
reconstruct_twice (x ∷ []) [] shards slots h e s i = absurd (cc e)
reconstruct_twice (x ∷ []) (y ∷ z ∷ blank) shards slots h e s i = absurd (cc e)

make-IsReedSolomon : IsReedSolomon 1 1 (make 1 1)
make-IsReedSolomon = record {
  encode_some = λ n front blank h i all blank_all pos. encode_twice n front blank h i all;
  reconstruct_encoded =
      λ n front blank shards slots h all e s i. reconstruct_twice front blank shards slots h e s i;
}

abbrev codec : Codec
codec = record { data_count = 1; parity = 1; rs_code = make 1 1 }

made : new make 1 1 ≡ done codec
unfolding new
made = refl

reconstruct_block-encode_block_example :
    (shards : List Shard) × (encode_block codec (codes "abc") ≡ done shards)
    × (length shards ≡ 1 + 1)
    × ((slots : List (Option Shard))
        → Survives slots shards
        → (1 ≤ present slots → reconstruct_block codec slots 3 ≡ done (codes "abc"))
          × (present slots < 1 → reconstruct_block codec slots 3 ≡ failed too_many_missing))
reconstruct_block-encode_block_example =
    reconstruct_block-encode_block make 1 1 codec (codes "abc") make-IsReedSolomon made

-- The checksum of a shard is the shard.
abbrev digests : Digests
digests = record { checksum = λ s. s; md5_hex = λ s. codes "md5" }

abbrev upload : Upload
upload = record {
  content_type = codes "text/plain";
  user_metadata = [];
  encrypted = false;
  etag_override = none;
  opaque_etag = [];
  last_modified = 5;
  header_len = 84;
}

abbrev old_files : Files
old_files = record { xl = none; part = some (codes "old") }

abbrev fresh : Drive
fresh = record { up = true; current = old_files; archive = []; history = none }

abbrev whole : Fate
whole = record { prepared = true; streamed = true; renamed = true; recorded = true; removed = true }

abbrev cut_off : Fate
cut_off = record {
  prepared = true;
  streamed = false;
  renamed = false;
  recorded = false;
  removed = true;
}

abbrev first_only : ℕ → Fate
first_only zero = whole
first_only (suc d) = cut_off

abbrev written : XlMeta → Drive
written m = record fresh { current = record { xl = some m; part = some (codes "abc") } }

abbrev rows_abc : List (List Shard)
rows_abc = (codes "ab" ∷ codes "ab" ∷ []) ∷ (codes "c" ∷ codes "c" ∷ []) ∷ []

abbrev meta_abc : XlMeta
meta_abc = sharded_meta digests no_context codec 2 2 upload (codes "abc") rows_abc

abbrev small_body : Body
small_body = record { bytes = codes "abc"; broken = none }

-- Both drives take the two blocks.
abc_written :
    write_sharded digests no_context codec 2
      (λ d. whole)
      (codes "k")
      upload
      small_body
      (fresh ∷ fresh ∷ [])
    ≡ (written meta_abc ∷ written meta_abc ∷ [], ok (answer (codes "k") no_context meta_abc))
unfolding write_sharded encode_block
abc_written = refl

reconstruct_into-write_sharded_example :
    (rows : List (List Shard)) × (encode_blocks codec (blocks 2 (codes "abc")) ≡ some rows)
    × (◌≡◌ {A = Option Text} none none)
    × (1 < intact rows 0 (written meta_abc ∷ written meta_abc ∷ []))
    × ((later : List Drive)
        → length later ≡ total codec
        → 1 ≤ intact rows 0 later
        → let m = sharded_meta digests no_context codec 2 (total codec) upload (codes "abc") rows in
          read_xl_v none later ≡ ok m
          → stored_object (λ s. s) make (codes "k") later
            ≡ ok (meta_to_object (codes "k") m, codes "abc"))
reconstruct_into-write_sharded_example =
    reconstruct_into-write_sharded digests no_context make 1 1 codec 2 (λ d. whole) (codes "k")
      upload small_body (fresh ∷ fresh ∷ []) (written meta_abc ∷ written meta_abc ∷ [])
      (answer (codes "k") no_context meta_abc) (λ x y e. e) make-IsReedSolomon made (omega arith)
      (unfold total in refl) abc_written

-- Only the first drive takes them: what was there before goes too.
abc_refused :
    write_sharded digests no_context codec 2 first_only
      (codes "k")
      upload
      small_body
      (fresh ∷ fresh ∷ [])
    ≡ (
      record fresh { current = no_files } ∷ record fresh { current = no_files } ∷ [],
      err (internal (codes "write quorum not met: ")),
    )
unfolding write_sharded encode_block wipe
abc_refused = refl

write_sharded-AllBare_example :
    Undone digests no_context codec 2 first_only upload small_body
      (fresh ∷ fresh ∷ [])
      (record fresh { current = no_files } ∷ record fresh { current = no_files } ∷ [])
write_sharded-AllBare_example =
    write_sharded-AllBare digests no_context make 1 1 codec 2 first_only (codes "k") upload
      small_body (fresh ∷ fresh ∷ []) _ (internal (codes "write quorum not met: "))
      make-IsReedSolomon made abc_refused
