-- ===== src/Erasure/Codec.antt =====
-- src/erasure/codec.rs: a block of bytes as data and parity shards. The Reed-Solomon code is
-- the parameter `ReedSolomon`.

pub mod Pieces
pub mod Rebuild
use kerplace.Base.{
  ℕ, zero, suc, ◌+◌, ◌-◌, ◌*◌, ◌/◌, ◌%◌, ◌<◌, ◌≤◌, ◌≡◌, min, max, ◌||◌, if◌then◌else◌, List, [],
  ◌∷◌, ◌++◌, map, Option, none, some, ltb, ◌==◌, length, take, drop, replicate, not, Outcome, done,
  failed,
}

pub data CodecError : Type 0 where
  bad_config too_many_missing bad_shard_len rs : CodecError

abbrev pub Shard : Type 0
Shard = List ℕ

-- The slots that still hold what the shards were.
abbrev pub Survives : List (Option Shard) → List Shard → Type 0
Survives [] [] = Unit {0}
Survives (none ∷ slots) (x ∷ xs) = Survives slots xs
Survives (some y ∷ slots) (x ∷ xs) = (y ≡ x) × Survives slots xs
Survives [] (x ∷ xs) = ⊥
Survives (slot ∷ slots) [] = ⊥

-- the number of slots that are filled
unfoldable pub present : List (Option Shard) → ℕ
present [] = 0
present (none ∷ slots) = present slots
present (some x ∷ slots) = suc (present slots)

abbrev pub AllOf : ℕ → List Shard → Type 0
AllOf n [] = Unit {0}
AllOf n (x ∷ xs) = (length x ≡ n) × AllOf n xs

-- The third-party code for one number of data shards and one of parity shards. `encode` fills the
-- parity shards behind the data shards.
pub record ReedSolomon : Type 0 where
  pub encode : List Shard → Option (List Shard)
  pub reconstruct : List (Option Shard) → Option (List (Option Shard))

pub record IsReedSolomon (k : ℕ) (m : ℕ) (r : ReedSolomon) : Type 0 where
  pub encode_some :
      (n : ℕ) (front blank : List Shard)
      → length front ≡ k
      → length blank ≡ m
      → AllOf n front
      → AllOf n blank
      → 0 < n
      → (parity : List Shard) × (length parity ≡ m)
        × AllOf n parity
        × (r.encode (front ++ blank) ≡ some (front ++ parity))
  pub reconstruct_encoded :
      (n : ℕ) (front blank shards : List Shard) (slots : List (Option Shard))
      → length front ≡ k
      → AllOf n front
      → r.encode (front ++ blank) ≡ some shards
      → Survives slots shards
      → k ≤ present slots
      → r.reconstruct slots ≡ some (map some shards)

pub record Codec : Type 0 where
  pub data_count : ℕ
  pub parity : ℕ
  pub rs_code : ReedSolomon

-- `ReedSolomon::new` is the function `make`, which accepts what passes the tests before it.
unfoldable pub new : (ℕ → ℕ → ReedSolomon) → ℕ → ℕ → Outcome CodecError Codec
new make data_count parity =
    if data_count == 0 || parity == 0 || ltb 256 (data_count + parity)
    then failed bad_config
    else done
        (record { data_count = data_count; parity = parity; rs_code = make data_count parity })

unfoldable pub total : Codec → ℕ
total c = c.data_count + c.parity

abbrev div_ceil : ℕ → ℕ → ℕ
div_ceil n k = if n % k == 0 then n / k else n / k + 1

unfoldable pub shard_len : Codec → ℕ → ℕ
shard_len c block_len = max (div_ceil block_len c.data_count) 1

-- The data shard of an index, padded with zeros.
unfoldable pub data_shard : List ℕ → ℕ → ℕ → Shard
data_shard block slen i =
    let start = i * slen in
    let end = min (start + slen) (length block) in
    if ltb start (length block)
    then take (end - start) (drop start block) ++ replicate (slen - (end - start)) 0
    else replicate slen 0

-- the data shards from an index on
unfoldable pub data_shards : List ℕ → ℕ → ℕ → ℕ → List Shard
data_shards block slen i zero = []
data_shards block slen i (suc left) = data_shard block slen i ∷ data_shards block slen (i + 1) left

-- the bytes of shards in order
unfoldable pub concat : List Shard → List ℕ
concat [] = []
concat (x ∷ xs) = x ++ concat xs

abbrev or_rs : Option (List Shard) → Outcome CodecError (List Shard)
or_rs none = failed rs
or_rs (some shards) = done shards

abbrev front_of : Outcome CodecError (List ℕ) → Shard → Outcome CodecError (List ℕ)
front_of (failed e) s = failed e
front_of (done out) s = done (s ++ out)

-- The loop over the data shards that were reconstructed.
unfoldable pub gather : ℕ → List (Option Shard) → Outcome CodecError (List ℕ)
gather slen [] = done []
gather slen (none ∷ slots) = failed rs
gather slen (some s ∷ slots) =
    let rest = gather slen slots in
    if not (length s == slen) then failed bad_shard_len else front_of rest s

abbrev truncate : ℕ → Outcome CodecError (List ℕ) → Outcome CodecError (List ℕ)
truncate n (failed e) = failed e
truncate n (done out) = done (take n out)

abbrev pub gathered : Codec → ℕ → Option (List (Option Shard)) → Outcome CodecError (List ℕ)
gathered c block_len none = failed too_many_missing
gathered c block_len (some slots) =
    truncate block_len (gather (shard_len c block_len) (take c.data_count slots))

unfoldable pub encode_block : Codec → List ℕ → Outcome CodecError (List Shard)
unfolding shard_len data_shards data_shard
encode_block c block =
    let slen = shard_len c (length block) in
    or_rs (
      c.rs_code.encode
        (data_shards block slen 0 c.data_count ++ replicate c.parity (replicate slen 0)))

unfoldable pub reconstruct_block : Codec → List (Option Shard) → ℕ → Outcome CodecError (List ℕ)
unfolding total present gather shard_len
reconstruct_block c slots block_len =
    if not (length slots == total c)
    then failed bad_shard_len
    else if ltb (present slots) c.data_count
    then failed too_many_missing
    else gathered c block_len (c.rs_code.reconstruct slots)
