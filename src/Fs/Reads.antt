-- ===== src/Fs/Reads.antt =====
-- src/storage/fs.rs: `get_object_range` over the bytes of an object's file. A file that is not
-- encrypted is cut; of one that is, the chunks that cover the range are decrypted and cut.
use kerplace.Base.{
  Text, ℕ, zero, suc, ◌+◌, ◌-◌, ◌*◌, ◌/◌, min, ◌&&◌, ◌||◌, if◌then◌else◌, List, [], ◌++◌, Option,
  none, some, codes, ltb, leb, length, take, drop,
}
use kerplace.Error.{Result, ok, err, internal}
use kerplace.Crypto.{
  Aead, KeyProvider, CryptoError, format, decrypt, provider, Outcome, done, failed, Opened,
  open_header, wrapped_len, chunk_size, chunk_block, base_nonce_len,
}
use kerplace.Crypto.Sealing.{decrypt_chunk}
use kerplace.Ranges.{end_within, range_len}

-- the texts of `CryptoError`
unfoldable pub crypto_error : CryptoError → Text
crypto_error format = codes "malformed encrypted object"
crypto_error decrypt = codes "decryption/authentication failed"
crypto_error (provider e) = codes "key provider error: " ++ e

-- `plain.get(from..to).unwrap_or(&[])`
abbrev pub slice : ℕ → ℕ → List ℕ → List ℕ
slice from to plain =
    if leb from to && leb to (length plain) then take (to - from) (drop from plain) else []

abbrev onto : List ℕ → Option (List ℕ) → Option (List ℕ)
onto front none = none
onto front (some back) = some (front ++ back)

-- The first byte, the last one and the number of bytes of a range.
abbrev pub first_byte : ℕ → ℕ → ℕ
first_byte size start = min start size

unfoldable pub range_bytes : ℕ → ℕ → Option ℕ → ℕ
unfolding range_len
range_bytes size start end = range_len size (first_byte size start) (end_within end size)

-- The bytes of a range in a file that is not encrypted.
unfoldable pub plain_range : List ℕ → ℕ → ℕ → Option ℕ → ℕ × List ℕ
unfolding range_bytes
plain_range file size start end = (
  range_bytes size start end,
  take (range_bytes size start end) (drop (first_byte size start) file),
)

module _ (a : Aead) where
  -- The loop over the chunks, of which so many are left, from one on. The nonce of a chunk takes
  -- the low 32 bits of its number.
  unfoldable pub covering_chunks : Opened → List ℕ → ℕ → ℕ → Option (List ℕ)
  covering_chunks h file zero ci = some []
  covering_chunks h file (suc left) ci =
      let off = h.length_header + ci * chunk_block in
      let block = take (min (length file - off) chunk_block) (drop off file) in
      let rest = covering_chunks h file left (ci + 1) in
      if leb (length file) off
      then some []
      else elim (decrypt_chunk a h ci block) [ none ↦ none | some pt ↦ onto pt rest ]

  abbrev cut : Option (List ℕ) → ℕ → ℕ → Result (ℕ × List ℕ)
  cut none from len = err (internal (crypto_error decrypt))
  cut (some plain) from len = ok (len, slice from (min (from + len) (length plain)) plain)

  abbrev pub cut_opened :
      Outcome CryptoError Opened → List ℕ → ℕ → ℕ → Option ℕ → Result (ℕ × List ℕ)
  cut_opened (failed e) file size start end = err (internal (crypto_error e))
  cut_opened (done h) file size start end =
      let first_chunk = first_byte size start / chunk_size in
      let last_chunk = end_within end size / chunk_size in
      cut (covering_chunks h file (last_chunk + 1 - first_chunk) first_chunk)
        (first_byte size start - first_chunk * chunk_size) (range_bytes size start end)

  -- The bytes of a range in an encrypted file.
  unfoldable pub encrypted_range : KeyProvider → List ℕ → ℕ → ℕ → Option ℕ → Result (ℕ × List ℕ)
  unfolding covering_chunks range_bytes crypto_error
  encrypted_range p file size start end =
      if ltb (length file) 8 || ltb (length file) (8 + wrapped_len file + base_nonce_len)
      then err (internal (codes "read header: "))
      else cut_opened (open_header p (take (8 + wrapped_len file + base_nonce_len) file)) file size
          start end
