-- ===== src/Crypto/RoundTrip.antt =====
-- What was encrypted is what is decrypted, and the recorded size is its length.
use kerplace.Base.{
  ℕ, zero, suc, ◌≡◌, refl, ◌∙◌, ap, ◌+◌, ◌-◌, ◌*◌, ◌/◌, ◌%◌, ◌<◌, ◌≤◌, if◌then◌else◌, List, [], ◌∷◌,
  ◌++◌, length, take, drop, arith, length-append, length-take, length-drop, drop_append_of,
  Outcome-cases, inl, inr, ◌==◌,
}
use native.Mathlib.Decide.{dec_lt}
use kerplace.Crypto.{
  Aead, IsAead, KeyProvider, IsFaithful, done, WrappedDek, Opened, chunk_nonce, container_header,
  open_header, chunk_size, chunk_block, tag_len, plaintext_len, header_len,
}
use kerplace.Crypto.Header.{open_header-container_header, length-container_header}
use kerplace.Crypto.Chunks.{
  seal_none, seal_last, seal_full, length-sealed, stream_chunks-seal_chunks,
}
use kerplace.Crypto.Sealing.{
  seal_chunks, stream_chunks, encrypting_reader, decrypting_reader_checked,
}

-- The length of the chunks, and the size that it stands for.
body_size : ℕ → ℕ
body_size n =
    if n % chunk_block == 0
    then n / chunk_block * chunk_size
    else n / chunk_block * chunk_size + (n % chunk_block - tag_len)

body_size_add : (n : ℕ) → body_size (chunk_block + n) ≡ chunk_size + body_size n
unfolding body_size
body_size_add n = ground arith

body_size_last : (n : ℕ) → 0 < n → n < chunk_size → body_size (n + 16) ≡ n
unfolding body_size
body_size_last n h i = ground arith

plaintext_len-add : (n h : ℕ) → plaintext_len (h + n) h ≡ body_size n
unfolding plaintext_len body_size
plaintext_len-add n h = ground arith

module _ (a : Aead) (laws : IsAead a) (dek base : List ℕ) where
  body_size-seal_chunks :
      (f c : ℕ) (xs : List ℕ)
      → length xs < f
      → body_size (length (seal_chunks a chunk_size f dek base c xs)) ≡ length xs
  body_size-seal_chunks zero c xs h = absurd (omega arith)
  body_size-seal_chunks (suc f) c [] h =
      rw (seal_none a laws dek base chunk_size (suc f) c) (unfold body_size in refl)
  body_size-seal_chunks (suc f) c (x ∷ xs) h = elim (dec_lt (length (x ∷ xs)) chunk_size) [
    | yes short ↦ rw (seal_last a laws dek base chunk_size f c x xs short) (
        rw (length-sealed a laws dek base c (x ∷ xs))
          (body_size_last (length (x ∷ xs)) (omega arith) short))
    | no long ↦
        let tail = seal_chunks a chunk_size f dek base (c + 1) (drop chunk_size (x ∷ xs)) in
        let sealed = a.seal dek (chunk_nonce base c) (take chunk_size (x ∷ xs)) in
        let n : length sealed ≡ chunk_block = omega (
          arith,
          length-sealed a laws dek base c (take chunk_size (x ∷ xs)),
          length-take chunk_size (x ∷ xs),
        ) in
        rw (seal_full a laws dek base chunk_size f c x xs (omega arith) (omega arith)) (
          rw (length-append sealed tail) (
            rw n (
              body_size_add (length tail)
              ∙ omega (
                arith,
                body_size-seal_chunks f (c + 1) (drop chunk_size (x ∷ xs))
                    (omega (arith, length-drop chunk_size (x ∷ xs))),
                length-drop chunk_size (x ∷ xs),
              ))))
  ]

-- What a successful encryption wrote.
pub container_of :
    (a : Aead) (p : KeyProvider) (random base plain container : List ℕ)
    → encrypting_reader a p random base plain ≡ done container
    → (dek : List ℕ) × (w : WrappedDek) × (p.new_wrapped_dek random ≡ done (dek, w))
      × (container
          ≡ container_header w base
            ++ seal_chunks a chunk_size (suc (length plain)) dek base 0 plain)
unfolding encrypting_reader
container_of a p random base plain container h = elim (Outcome-cases (p.new_wrapped_dek random)) [
  | inr (e, off) ↦ absurd (ground (arith, off))
  | inl (x, on) ↦ (x.0, x.1, on, ground (arith, on))
]

header_len_of :
    (p : KeyProvider) (w : WrappedDek)
    → length w.bytes ≡ p.wrapped_dek_len
    → header_len p ≡ 16 + length w.bytes
unfolding header_len
header_len_of p w h = omega arith

read_with :
    (a : Aead) (p : KeyProvider) (bytes : List ℕ) (o : Opened)
    → open_header p bytes ≡ done o
    → decrypting_reader_checked a p bytes
      ≡ done (
          stream_chunks a chunk_block
            (suc (length (drop o.length_header bytes)))
            o.dek
            o.base_nonce
            0
            (drop o.length_header bytes))
unfolding decrypting_reader_checked
read_with a p bytes o h = ground (arith, h)

read_back :
    (a : Aead) (p : KeyProvider) (laws : IsAead a) (w : WrappedDek) (base plain dek : List ℕ)
    → length w.bytes < 65536
    → length base ≡ 8
    → p.unwrap_dek w ≡ done dek
    → decrypting_reader_checked a p
        (container_header w base ++ seal_chunks a chunk_size (suc (length plain)) dek base 0 plain)
      ≡ done plain
read_back a p laws w base plain dek fits eight unwraps =
    let body = seal_chunks a chunk_size (suc (length plain)) dek base 0 plain in
    read_with a p (container_header w base ++ body) _
      (open_header-container_header p w base body dek fits eight unwraps)
    ∙ (rw
        (drop_append_of (16 + length w.bytes) (container_header w base) body
          (length-container_header w base eight))
        (ap done (
          stream_chunks-seal_chunks a laws dek base chunk_size (suc (length plain))
            (suc (length body)) 0 plain (omega arith) (omega arith) (omega arith))))

-- Encrypting an object and decrypting the container gives back its bytes, for every key provider
-- that unwraps what it has wrapped; and the size that the store records from the container's length
-- is the number of those bytes.
pub decrypting_reader_checked-encrypting_reader :
    (a : Aead) (p : KeyProvider)
    → IsAead a
    → IsFaithful p
    → (random base plain container : List ℕ) → 44 ≤ length random
    → length base ≡ 8
    → encrypting_reader a p random base plain ≡ done container
    → (decrypting_reader_checked a p container ≡ done plain)
      × (plaintext_len (length container) (header_len p) ≡ length plain)
decrypting_reader_checked-encrypting_reader a p laws faithful random base plain container enough
      eight h =
    let (dek, w, minted, written) = container_of a p random base plain container h in
    let len = faithful.length_new random dek w enough minted in
    let fits : length w.bytes < 65536 = omega (arith, len, faithful.fits_header) in
    let body = seal_chunks a chunk_size (suc (length plain)) dek base 0 plain in
    rw written (
      read_back a p laws w base plain dek fits eight
          (faithful.unwrap_new random dek w enough minted),
      rw (length-append (container_header w base) body) (
          rw (length-container_header w base eight) (
            rw (header_len_of p w len) (
              plaintext_len-add (length body) (16 + length w.bytes)
              ∙ body_size-seal_chunks a laws dek base (suc (length plain)) 0 plain (omega arith)))),
    )
