-- ===== src/Erasure/Codec/Pieces.antt =====
-- The data shards of a block, put together again.
use kerplace.Base.{
  ℕ, zero, suc, ◌+◌, ◌-◌, ◌*◌, ◌<◌, ◌≤◌, ◌≡◌, refl, ap, sym, subst, ◌∙◌, min, if◌then◌else◌, List,
  [], ◌∷◌, ◌++◌, map, some, ltb, length, take, drop, replicate, done, arith, length-append,
  length-take, length-drop, length-replicate, drop-drop, drop_all, take-nil, take_whole,
  take_append, take-append_ge, nil_of_length, take-append-drop,
}
use mathlib.Core.List.{append_assoc, append-nil}
use native.Mathlib.Decide.{dec_lt}
use native.Mathlib.Nat.{div-add-mod, mod-lt}
use kerplace.Ranges.{same_front}
use kerplace.Erasure.Codec.{Shard, AllOf, Codec, shard_len, data_shard, data_shards, gather, concat}

-- The data shards hold the whole block.
pub enough_room : (c : Codec) (n : ℕ) → 0 < c.data_count → n ≤ c.data_count * shard_len c n
unfolding shard_len
enough_room c n h = grind (arith, div-add-mod n c.data_count, mod-lt n h)

-- Every data shard, whether the block reaches it or not.
cut_and_pad :
    (block : List ℕ) (slen start : ℕ)
    → (if ltb start (length block)
        then take (min (start + slen) (length block) - start) (drop start block)
          ++ replicate (slen - (min (start + slen) (length block) - start)) 0
        else replicate slen 0)
      ≡ take slen (drop start block) ++ replicate (slen - length (drop start block)) 0
cut_and_pad block slen start =
    let left = length-drop start block in
    elim (dec_lt start (length block)) [
      | yes within ↦
          let count = min (start + slen) (length block) - start in
          let same = same_front count slen (drop start block) (omega (arith, left)) in
          let pad : slen - count ≡ slen - length (drop start block) = omega (arith, left) in
          ground (arith, same, pad)
      | no beyond ↦
          let gone = drop_all start block (omega arith) in
          rw gone (rw (take-nil {A = ℕ} slen) (ground arith))
    ]

data_shard_lem :
    (block : List ℕ) (slen i : ℕ)
    → data_shard block slen i
      ≡ take slen (drop (i * slen) block) ++ replicate (slen - length (drop (i * slen) block)) 0
unfolding data_shard
data_shard_lem block slen i = cut_and_pad block slen (i * slen)

length-data_shard : (block : List ℕ) (slen i : ℕ) → length (data_shard block slen i) ≡ slen
length-data_shard block slen i =
    let rest = drop (i * slen) block in
    ap (length {A = ℕ}) (data_shard_lem block slen i)
    ∙ omega (
      arith,
      length-append (take slen rest) (replicate (slen - length rest) 0),
      length-take slen rest,
      length-replicate {A = ℕ} (slen - length rest) 0,
    )

-- One shard before the others.
take_first :
    (slen : ℕ) (rest tail : List ℕ)
    → take (length (drop slen rest)) tail ≡ drop slen rest
    → take (length rest) ((take slen rest ++ replicate (slen - length rest) 0) ++ tail) ≡ rest
take_first slen rest tail h = elim (dec_lt slen (length rest)) [
  | yes long ↦
      let none_missing : slen - length rest ≡ 0 = omega arith in
      let front = take slen rest in
      let n = length-take slen rest in
      rw none_missing (
        ap (λ (xs : List ℕ). take (length rest) (xs ++ tail)) (append-nil front)
        ∙ take-append_ge (length rest) front tail (omega (arith, n))
        ∙ ap (λ k. front ++ take k tail) {y = length (drop slen rest)}
            (omega (arith, n, length-drop slen rest))
        ∙ ap (◌++◌ front) h
        ∙ take-append-drop slen rest)
  | no short ↦ rw (take_whole slen rest (omega arith)) (
      ap (take (length rest)) (append_assoc rest (replicate (slen - length rest) 0) tail)
      ∙ take_append rest (replicate (slen - length rest) 0 ++ tail))
]

pub take-concat-data_shards :
    (block : List ℕ) (slen i left : ℕ)
    → length (drop (i * slen) block) ≤ left * slen
    → take (length (drop (i * slen) block)) (concat (data_shards block slen i left))
      ≡ drop (i * slen) block
unfolding data_shards concat
take-concat-data_shards block slen i zero h =
    take-nil (length (drop (i * slen) block))
    ∙ sym (nil_of_length (drop (i * slen) block) (omega arith))
take-concat-data_shards block slen i (suc left) h =
    let rest = drop (i * slen) block in
    let tail = concat (data_shards block slen (i + 1) left) in
    let next : drop ((i + 1) * slen) block ≡ drop slen rest =
      ap (λ k. drop k block) {y = i * slen + slen} (omega arith)
      ∙ sym (drop-drop slen (i * slen) block) in
    ap (λ (xs : List ℕ). take (length rest) (xs ++ tail)) (data_shard_lem block slen i)
    ∙ take_first slen rest tail (
        subst (λ (xs : List ℕ). take (length xs) tail ≡ xs) next
          (take-concat-data_shards block slen (i + 1) left
            (omega (arith, ap (length {A = ℕ}) next, length-drop slen rest))))

pub data_shards-AllOf :
    (block : List ℕ) (slen i left : ℕ) → AllOf slen (data_shards block slen i left)
unfolding data_shards
data_shards-AllOf block slen i zero = tt
data_shards-AllOf block slen i (suc left) =
    (length-data_shard block slen i, data_shards-AllOf block slen (i + 1) left)

pub length-data_shards :
    (block : List ℕ) (slen i left : ℕ) → length (data_shards block slen i left) ≡ left
unfolding data_shards
length-data_shards block slen i zero = refl
length-data_shards block slen i (suc left) = ap suc (length-data_shards block slen (i + 1) left)

pub blank-AllOf : (m n : ℕ) → AllOf n (replicate m (replicate n 0))
blank-AllOf zero n = tt
blank-AllOf (suc m) n = (length-replicate {A = ℕ} n 0, blank-AllOf m n)

pub gather-map-some :
    (n : ℕ) (xs : List Shard) → AllOf n xs → gather n (map some xs) ≡ done (concat xs)
unfolding gather concat
gather-map-some n [] all = refl
gather-map-some n (x ∷ xs) all = ground (arith, all.0, gather-map-some n xs all.1)
