-- ===== src/Crypto/Sealing.antt =====
-- src/crypto/mod.rs: the chunks of an encrypted object. Each loop counts its turns down from more
-- than the length of what it reads, and ends before that, since every turn reads a byte.
use kerplace.Base.{
  ℕ, zero, suc, ◌+◌, if◌then◌else◌, List, [], ◌++◌, Option, none, some, ltb, length, take, drop,
  is_empty,
}
use kerplace.Crypto.{
  Aead, KeyProvider, CryptoError, Outcome, done, failed, Opened, from_key_error, chunk_nonce,
  container_header, open_header, chunk_size, chunk_block,
}

module _ (a : Aead) where
  -- The loop of `encrypting_reader` after the header, from a chunk's number on.
  unfoldable pub seal_chunks : ℕ → ℕ → List ℕ → List ℕ → ℕ → List ℕ → List ℕ
  seal_chunks chunk zero dek base counter plain = []
  seal_chunks chunk (suc fuel) dek base counter plain =
      let buf = take chunk plain in
      let sealed = a.seal dek (chunk_nonce base counter) buf in
      let rest = seal_chunks chunk fuel dek base (counter + 1) (drop chunk plain) in
      if is_empty buf then [] else if ltb (length buf) chunk then sealed else sealed ++ rest

  -- The container that `encrypting_reader` yields, or the error of the key provider. The random
  -- bytes are those of the key and those of the base nonce.
  unfoldable pub encrypting_reader :
      KeyProvider → List ℕ → List ℕ → List ℕ → Outcome CryptoError (List ℕ)
  encrypting_reader p random base_nonce plain = elim (p.new_wrapped_dek random) [
    | failed e ↦ failed (from_key_error e)
    | done (dek, w) ↦ done (
        container_header w base_nonce
        ++ seal_chunks chunk_size (suc (length plain)) dek base_nonce 0 plain)
  ]

  -- `stream_chunks`: a chunk that does not authenticate ends the stream.
  unfoldable pub stream_chunks : ℕ → ℕ → List ℕ → List ℕ → ℕ → List ℕ → List ℕ
  stream_chunks block zero dek base counter cipher = []
  stream_chunks block (suc fuel) dek base counter cipher =
      let buf = take block cipher in
      let rest = stream_chunks block fuel dek base (counter + 1) (drop block cipher) in
      if is_empty buf then [] else elim (a.unseal dek (chunk_nonce base counter) buf) [
        | none ↦ []
        | some plain ↦ if ltb (length buf) block then plain else plain ++ rest
      ]

  -- `decrypting_reader_checked`: what the reader yields, or the error that comes before it.
  unfoldable pub decrypting_reader_checked : KeyProvider → List ℕ → Outcome CryptoError (List ℕ)
  decrypting_reader_checked p bytes = elim (open_header p bytes) [
    | failed e ↦ failed e
    | done h ↦
        let body = drop h.length_header bytes in
        done (stream_chunks chunk_block (suc (length body)) h.dek h.base_nonce 0 body)
  ]

  -- `ObjectCipher::decrypt_chunk`
  unfoldable pub decrypt_chunk : Opened → ℕ → List ℕ → Option (List ℕ)
  decrypt_chunk h counter block = a.unseal h.dek (chunk_nonce h.base_nonce counter) block
