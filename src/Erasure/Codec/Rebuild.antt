-- ===== src/Erasure/Codec/Rebuild.antt =====
-- A block comes back from as many shards as there are data shards.
use kerplace.Base.{
  ℕ, suc, ◌+◌, ◌*◌, ◌<◌, ◌≤◌, ◌≡◌, refl, ap, sym, subst, ◌∙◌, List, [], ◌∷◌, ◌++◌, map, Option,
  none, some, length, take, drop, replicate, done, failed, arith, length-append, length-replicate,
  take_append_of, length-map,
}
use mathlib.Core.List.{map-append}
use kerplace.Erasure.Codec.{
  too_many_missing, Shard, Survives, present, AllOf, ReedSolomon, IsReedSolomon, Codec, new, total,
  shard_len, data_shards, concat, gathered, encode_block, reconstruct_block,
}
use kerplace.Erasure.Codec.Pieces.{
  enough_room, take-concat-data_shards, data_shards-AllOf, length-data_shards, blank-AllOf,
  gather-map-some,
}

pub length-Survives :
    (slots : List (Option Shard)) (xs : List Shard) → Survives slots xs → length slots ≡ length xs
length-Survives [] [] s = refl
length-Survives (none ∷ slots) (x ∷ xs) s = ap suc (length-Survives slots xs s)
length-Survives (some y ∷ slots) (x ∷ xs) s = ap suc (length-Survives slots xs s.1)
length-Survives [] (x ∷ xs) s = absurd s
length-Survives (none ∷ slots) [] s = absurd s
length-Survives (some y ∷ slots) [] s = absurd s

-- What a configuration that is accepted promises.
pub new_lem :
    (make : ℕ → ℕ → ReedSolomon) (k m : ℕ) (c : Codec)
    → new make k m ≡ done c
    → (0 < k)
      × (0 < m)
      × (k + m ≤ 256)
      × (c ≡ record { data_count = k; parity = m; rs_code = make k m })
unfolding new
new_lem make k m c h = ground (arith, h)

-- A codec that can be used.
pub record IsCodec (c : Codec) : Type 0 where
  pub some_data : 0 < c.data_count
  pub some_parity : 0 < c.parity
  pub codes_shards : IsReedSolomon c.data_count c.parity c.rs_code

pub new-IsCodec :
    (make : ℕ → ℕ → ReedSolomon) (k m : ℕ) (c : Codec)
    → IsReedSolomon k m (make k m)
    → new make k m ≡ done c
    → IsCodec c
new-IsCodec make k m c laws h =
    let (some_data, some_parity, few, made) = new_lem make k m c h in
    subst IsCodec (sym made)
      (record { some_data = some_data; some_parity = some_parity; codes_shards = laws })

module _ (c : Codec) (block : List ℕ) where
  abbrev slen : ℕ
  slen = shard_len c (length block)

  abbrev pieces : List Shard
  pieces = data_shards block slen 0 c.data_count

  abbrev blank : List Shard
  blank = replicate c.parity (replicate slen 0)

  slen_pos : 0 < slen
  unfolding shard_len
  slen_pos = omega arith

  whole_block : drop (0 * slen) block ≡ block
  whole_block = ap (λ k. drop k block) {y = 0} (omega arith)

  -- The pieces put together again, and cut to the length of the block.
  gathered-pieces :
      (parity : List Shard)
      → 0 < c.data_count
      → gathered c (length block) (some (map some (pieces ++ parity))) ≡ done block
  gathered-pieces parity pos =
      let count = length-map pieces some ∙ length-data_shards block slen 0 c.data_count in
      rw (map-append some pieces parity) (
        rw (take_append_of c.data_count (map some pieces) (map some parity) count) (
          rw (gather-map-some slen pieces (data_shards-AllOf block slen 0 c.data_count)) (
            ap done (
              subst (λ (xs : List ℕ). take (length xs) (concat pieces) ≡ xs) whole_block
                (take-concat-data_shards block slen 0 c.data_count (
                  omega
                    (arith, enough_room c (length block) pos, ap (length {A = ℕ}) whole_block)))))))

  reconstructed :
      (shards : List Shard) (slots : List (Option Shard))
      → length slots ≡ total c
      → c.data_count ≤ present slots
      → c.rs_code.reconstruct slots ≡ some (map some shards)
      → gathered c (length block) (some (map some shards)) ≡ done block
      → reconstruct_block c slots (length block) ≡ done block
  unfolding reconstruct_block
  reconstructed shards slots n enough got all =
      ground (arith, n, enough, ap (gathered c (length block)) got, all)

  lost :
      (slots : List (Option Shard))
      → length slots ≡ total c
      → present slots < c.data_count
      → reconstruct_block c slots (length block) ≡ failed too_many_missing
  unfolding reconstruct_block
  lost slots n few = ground (arith, n, few)

  encoded :
      (shards : List Shard)
      → c.rs_code.encode (pieces ++ blank) ≡ some shards
      → encode_block c block ≡ done shards
  unfolding encode_block
  encoded shards e = rw e

AllOf-append : (n : ℕ) (xs ys : List Shard) → AllOf n xs → AllOf n ys → AllOf n (xs ++ ys)
AllOf-append n [] ys p q = q
AllOf-append n (x ∷ xs) ys p q = (p.0, AllOf-append n xs ys p.1 q)

-- What the theorem below says, for a codec at hand; every shard has one length.
pub encoded_block :
    (c : Codec) (block : List ℕ)
    → IsCodec c
    → (shards : List Shard) × (encode_block c block ≡ done shards)
      × (length shards ≡ total c)
      × AllOf (shard_len c (length block)) shards
      × ((slots : List (Option Shard))
          → Survives slots shards
          → (c.data_count ≤ present slots → reconstruct_block c slots (length block) ≡ done block)
            × (present slots < c.data_count
                → reconstruct_block c slots (length block) ≡ failed too_many_missing))
encoded_block c block ok =
    let n = slen c block in
    let front = pieces c block in
    let back = blank c block in
    let count = length-data_shards block n 0 c.data_count in
    let sized = data_shards-AllOf block n 0 c.data_count in
    let (parity, added, even, coded) =
      ok.codes_shards.encode_some n front back count (length-replicate c.parity (replicate n 0))
        sized (blank-AllOf c.parity n) (slen_pos c block) in
    let shards = front ++ parity in
    let size : length shards ≡ total c =
      unfold total in omega (arith, length-append front parity, count, added) in
    (
      shards,
      encoded c block shards coded,
      size,
      AllOf-append n front parity sized even,
      λ slots s. (
        λ enough.
            reconstructed c block shards slots (length-Survives slots shards s ∙ size) enough
              (ok.codes_shards.reconstruct_encoded n front back shards slots count sized coded s
                enough)
              (gathered-pieces c block parity ok.some_data),
        λ few_left. lost c block slots (length-Survives slots shards s ∙ size) few_left,
      ),
    )

-- A codec whose configuration is accepted encodes every block into as many shards as it has data
-- and parity shards; from any slots that still hold at least as many of them as there are data
-- shards, whichever they are, the block comes back exactly; with fewer it is reported as lost.
pub reconstruct_block-encode_block :
    (make : ℕ → ℕ → ReedSolomon) (k m : ℕ) (c : Codec) (block : List ℕ)
    → IsReedSolomon k m (make k m)
    → new make k m ≡ done c
    → (shards : List Shard) × (encode_block c block ≡ done shards)
      × (length shards ≡ k + m)
      × ((slots : List (Option Shard))
          → Survives slots shards
          → (k ≤ present slots → reconstruct_block c slots (length block) ≡ done block)
            × (present slots < k
                → reconstruct_block c slots (length block) ≡ failed too_many_missing))
reconstruct_block-encode_block make k m c block laws made =
    let (shards, coded, size, even, back) =
      encoded_block c block (new-IsCodec make k m c laws made) in
    let same = (new_lem make k m c made).3 in
    let data_same : c.data_count ≡ k = ap (λ (c : Codec). c.data_count) same in
    let parity_same : c.parity ≡ m = ap (λ (c : Codec). c.parity) same in
    (
      shards,
      coded,
      unfold total in omega (arith, size, data_same, parity_same),
      λ slots s. (
        λ enough. (back slots s).0 (omega (arith, enough, data_same)),
        λ few. (back slots s).1 (omega (arith, few, data_same)),
      ),
    )
