-- ===== src/Erasure/Sharded/Turns.antt =====
-- The loop that reads an object back, a block at a time.
use kerplace.Base.{
  Text, ℕ, zero, suc, ◌≡◌, refl, ap, sym, subst, ◌∙◌, ◌+◌, ◌<◌, ◌≤◌, List, [], ◌∷◌, ◌++◌, Option,
  some, length, arith, length-append, done,
}
use mathlib.Core.List.{append_assoc}
use kerplace.Erasure.Drives.{Drive, XlMeta}
use kerplace.Erasure.Codec.{
  Shard, Codec, Survives, present, AllOf, concat, total, shard_len, reconstruct_block,
}
use kerplace.Erasure.Codec.Rebuild.{IsCodec, encoded_block}
use kerplace.Erasure.Sharded.{
  encode_blocks, shard_at, part_file, checksums_of, read_slots, block_len, reconstruct_from,
}
use kerplace.Erasure.Sharded.Blocks.{HasLens}
use kerplace.Erasure.Sharded.Slots.{intact, part_file_middle, FitsFrom, read_slots_lem}

-- What encoding makes of one block, and of all.
abbrev pub RowOf : Codec → List ℕ → List Shard → Type 0
RowOf c block row =
    (length row ≡ total c)
    × AllOf (shard_len c (length block)) row
    × ((slots : List (Option Shard))
        → Survives slots row
        → c.data_count ≤ present slots
        → reconstruct_block c slots (length block) ≡ done block)

abbrev pub RowsOf : Codec → List (List ℕ) → List (List Shard) → Type 0
RowsOf c [] [] = Unit {0}
RowsOf c (b ∷ bs) (r ∷ rs) = RowOf c b r × RowsOf c bs rs
RowsOf c [] (r ∷ rs) = ⊥
RowsOf c (b ∷ bs) [] = ⊥

pub encode_blocks_lem :
    (c : Codec)
    → IsCodec c
    → (bs : List (List ℕ))
    → (rows : List (List Shard)) × (encode_blocks c bs ≡ some rows) × RowsOf c bs rows
unfolding encode_blocks
encode_blocks_lem c can [] = ([], refl, tt)
encode_blocks_lem c can (b ∷ bs) =
    let (row, coded, size, even, back) = encoded_block c b can in
    let (rows, all, sound) = encode_blocks_lem c can bs in
    (row ∷ rows, ground (arith, coded, all), ((size, even, λ slots s. (back slots s).0), sound))

length-shard_at :
    (n : ℕ) (row : List Shard) (d : ℕ) → AllOf n row → d < length row → length (shard_at d row) ≡ n
length-shard_at n [] d all h = absurd (omega arith)
length-shard_at n (x ∷ row) zero all h = all.0
length-shard_at n (x ∷ row) (suc d) all h = length-shard_at n row d all.1 (omega arith)

pub part_file_none : (d : ℕ) → part_file d [] ≡ []
unfolding part_file concat
part_file_none d = refl

module _ (checksum : Shard → Text) (same_sum : (x y : Shard) → checksum x ≡ checksum y → x ≡ y)
    (c : Codec) (m : XlMeta) (ds : List Drive) (all : List (List Shard))
    (width : length ds ≡ total c) (sums : m.checksums ≡ checksums_of checksum all 0 (total c))
    (enough : c.data_count ≤ intact all 0 ds) where
  abbrev At : List (List Shard) → ℕ → Type 0
  At pre offset = (d : ℕ) → d < total c → length (part_file d pre) ≡ offset

  fits_all :
      (pre post : List (List Shard)) (row : List Shard) (offset slen d left : ℕ)
      → At pre offset
      → length row ≡ total c
      → AllOf slen row
      → d + left ≤ total c
      → FitsFrom checksum same_sum pre post row (total c) offset slen d left
  fits_all pre post row offset slen d zero at size even h = tt
  fits_all pre post row offset slen d (suc left) at size even h = (
    at d (omega arith),
    length-shard_at slen row d even (omega arith),
    fits_all pre post row offset slen (d + 1) left at size even (omega arith),
  )

  -- One turn of the loop.
  turn :
      (left b offset : ℕ) (block : List ℕ)
      → block_len m.stored_size m.block_size b ≡ length block
      → reconstruct_block c
          (read_slots checksum m.checksums b offset (shard_len c (length block)) 0 ds)
          (length block)
        ≡ done block
      → reconstruct_from checksum c m ds (suc left) b offset
        ≡ block
          ++ reconstruct_from checksum c m ds left (b + 1) (offset + shard_len c (length block))
  unfolding reconstruct_from
  turn left b offset block len back = rw len (rw back refl)

  block_back :
      (pre post : List (List Shard)) (row : List Shard) (block : List ℕ) (offset : ℕ)
      → all ≡ pre ++ (row ∷ post)
      → RowOf c block row
      → At pre offset
      → reconstruct_block c
          (read_slots checksum m.checksums (length pre) offset (shard_len c (length block)) 0 ds)
          (length block)
        ≡ done block
  block_back pre post row block offset e (size, even, back) at =
      let n = total c in
      let slen = shard_len c (length block) in
      let (survives, count) =
        read_slots_lem checksum same_sum pre post row n offset slen 0 ds [] row refl refl
          (width ∙ sym size) (omega (arith, width))
          (fits_all pre post row offset slen 0 (length ds) at size even (omega (arith, width))) in
      let kept = subst (λ r. c.data_count ≤ intact r 0 ds) e enough in
      rw (sums ∙ ap (λ r. checksums_of checksum r 0 n) e)
        (back _ survives (omega (arith, count, kept)))

  next_offset :
      (pre : List (List Shard)) (row : List Shard) (offset slen : ℕ)
      → At pre offset
      → length row ≡ total c
      → AllOf slen row
      → At (pre ++ (row ∷ [])) (offset + slen)
  next_offset pre row offset slen at size even d h =
      let middle = part_file_middle d pre [] row in
      omega (
        arith,
        ap (length {A = ℕ}) middle,
        length-append (part_file d pre) (shard_at d row ++ part_file d []),
        length-append (shard_at d row) (part_file d []),
        ap (length {A = ℕ}) (part_file_none d),
        at d h,
        length-shard_at slen row d even (omega (arith, size)),
      )

  -- The loop from a block on gives the blocks that are left.
  pub reconstruct_from_lem :
      (bs : List (List ℕ)) (pre post : List (List Shard)) (b offset : ℕ)
      → RowsOf c bs post
      → all ≡ pre ++ post
      → length pre ≡ b
      → HasLens m.stored_size m.block_size b bs
      → At pre offset
      → reconstruct_from checksum c m ds (length bs) b offset ≡ concat bs
  unfolding concat
  reconstruct_from_lem [] pre post b offset sound e k lens at = unfold reconstruct_from in refl
  reconstruct_from_lem (x ∷ bs) pre [] b offset sound e k lens at = absurd sound
  reconstruct_from_lem (x ∷ bs) pre (row ∷ post) b offset sound e k lens at =
      turn (length bs) b offset x lens.0 (
        subst
          (λ j.
            reconstruct_block c
              (read_slots checksum m.checksums j offset (shard_len c (length x)) 0 ds) (length x)
            ≡ done x)
          k (block_back pre post row x offset e sound.0 at))
      ∙ ap (◌++◌ x) (
          reconstruct_from_lem bs (pre ++ (row ∷ [])) post (b + 1) (offset + shard_len c (length x))
            sound.1 (e ∙ sym (append_assoc pre (row ∷ []) post))
            (omega (arith, length-append pre (row ∷ []), k)) lens.1
            (next_offset pre row offset (shard_len c (length x)) at sound.0.0 sound.0.1))
