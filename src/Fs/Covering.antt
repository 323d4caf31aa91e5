-- ===== src/Fs/Covering.antt =====
-- Reading a range of an encrypted object is reading it of the object's bytes.
use kerplace.Base.{
  ℕ, suc, ◌≡◌, sym, ap, ◌∙◌, ◌+◌, ◌-◌, ◌*◌, ◌/◌, ◌<◌, ◌≤◌, min, List, ◌++◌, Option, some, arith,
  length, take, drop, length-append, take_append_of, drop_append_of, drop-drop, drop-take,
  take-take_le,
}
use kerplace.Error.{Result, ok}
use kerplace.Ranges.{end_within, range_len}
use kerplace.Crypto.{
  Aead, IsAead, KeyProvider, IsFaithful, done, Opened, WrappedDek, container_header, open_header,
  wrapped_len, chunk_size, chunk_block,
}
use kerplace.Crypto.Sealing.{seal_chunks, encrypting_reader}
use kerplace.Crypto.Header.{
  wrapped_len-container_header, open_header_alone, length-container_header,
}
use kerplace.Crypto.RoundTrip.{container_of}
use kerplace.Fs.Reads.{
  slice, first_byte, range_bytes, plain_range, covering_chunks, cut_opened, encrypted_range,
}
use kerplace.Fs.Chunks.{slice_lem, covering_chunks_lem, drop-seal_chunks}

-- The covering chunks reach as far as the range does.
covered :
    (start last : ℕ)
    → start ≤ last
    → last - start + 1
      ≤ (last / chunk_size + 1 - start / chunk_size) * chunk_size
        - (start - start / chunk_size * chunk_size)
covered start last h = omega arith

range_covered :
    (size start : ℕ) (end : Option ℕ)
    → range_bytes size start end
      ≤ (end_within end size / chunk_size + 1 - first_byte size start / chunk_size) * chunk_size
        - (first_byte size start - first_byte size start / chunk_size * chunk_size)
unfolding range_bytes range_len
range_covered size start end = ground (arith, covered (first_byte size start) (end_within end size))

-- Cutting the decrypted chunks is cutting the text.
cut_text :
    (n from start len : ℕ) (plain : List ℕ)
    → from ≤ start
    → len ≤ n - (start - from)
    → slice
        (start - from)
        (min (start - from + len) (length (take n (drop from plain))))
        (take n (drop from plain))
      ≡ take len (drop start plain)
cut_text n from start len plain h i =
    slice_lem (start - from) len (take n (drop from plain))
    ∙ ap (take len) (drop-take (start - from) n (drop from plain))
    ∙ take-take_le len (n - (start - from)) (drop (start - from) (drop from plain)) i
    ∙ ap (take len)
        (drop-drop (start - from) from plain ∙ ap (λ k. drop k plain) {y = start} (omega arith))

module _ (a : Aead) (laws : IsAead a) (w : WrappedDek) (dek base plain : List ℕ) where
  abbrev body : List ℕ
  body = seal_chunks a chunk_size (suc (length plain)) dek base 0 plain

  abbrev opened : Opened
  opened = record { dek = dek; base_nonce = base; length_header = 16 + length w.bytes }

  -- The loop over the container gives the text from the first chunk on.
  covering_container :
      (left first : ℕ)
      → length base ≡ 8
      → covering_chunks a opened (container_header w base ++ body) left first
        ≡ some (take (left * chunk_size) (drop (first * chunk_size) plain))
  covering_container left first eight =
      let file = container_header w base ++ body in
      let head = length-container_header w base eight in
      let (g, enough, rest) =
        drop-seal_chunks a laws dek base first (suc (length plain)) 0 plain (omega arith) in
      covering_chunks_lem a laws opened file left g first (drop (first * chunk_size) plain) enough (
        sym (drop-drop (first * chunk_block) (16 + length w.bytes) file)
        ∙ ap (drop (first * chunk_block))
            (drop_append_of (16 + length w.bytes) (container_header w base) body head)
        ∙ rest
        ∙ ap (λ k. seal_chunks a chunk_size g dek base k (drop (first * chunk_size) plain))
            {y = first} (omega arith))

  -- What the read of a range comes to once the header is open.
  range_opened :
      (start : ℕ) (end : Option ℕ)
      → length base ≡ 8
      → cut_opened a (done opened) (container_header w base ++ body) (length plain) start end
        ≡ ok (plain_range plain (length plain) start end)
  unfolding plain_range
  range_opened start end eight =
      let size = length plain in
      let from = first_byte size start in
      let first = from / chunk_size in
      let left = end_within end size / chunk_size + 1 - first in
      rw (covering_container left first eight) (
        ap (λ (bytes : List ℕ). Result.ok (range_bytes size start end, bytes))
          (cut_text (left * chunk_size) (first * chunk_size) from (range_bytes size start end) plain
            (omega arith) (range_covered size start end)))

-- The read of a container whose header opens.
encrypted_range_opened :
    (a : Aead) (p : KeyProvider) (file : List ℕ) (size start n : ℕ) (end : Option ℕ) (h : Opened)
    → wrapped_len file ≡ n
    → 16 + n ≤ length file
    → open_header p (take (8 + n + 8) file) ≡ done h
    → encrypted_range a p file size start end ≡ cut_opened a (done h) file size start end
unfolding encrypted_range
encrypted_range_opened a p file size start n end h len fits opens = rw len (rw opens (ground arith))

-- Reading a range of an encrypted object gives what the same range of its plain bytes is: the same
-- number of bytes and the same bytes, whatever the range, decrypting the covering chunks only.
pub encrypted_range-encrypting_reader :
    (a : Aead) (p : KeyProvider)
    → IsAead a
    → IsFaithful p
    → (random base plain container : List ℕ) (start : ℕ) (end : Option ℕ) → 44 ≤ length random
    → length base ≡ 8
    → encrypting_reader a p random base plain ≡ done container
    → encrypted_range a p container (length plain) start end
      ≡ ok (plain_range plain (length plain) start end)
encrypted_range-encrypting_reader a p laws faithful random base plain container start end enough
      eight h =
    let (dek, w, minted, written) = container_of a p random base plain container h in
    let len = faithful.length_new random dek w enough minted in
    let fits : length w.bytes < 65536 = omega (arith, len, faithful.fits_header) in
    let bytes = seal_chunks a chunk_size (suc (length plain)) dek base 0 plain in
    let head = length-container_header w base eight in
    rw written (
      encrypted_range_opened a p (container_header w base ++ bytes) (length plain) start
        (length w.bytes) end (opened a laws w dek base plain)
        (wrapped_len-container_header w base bytes fits)
        (omega (arith, head, length-append (container_header w base) bytes))
        (ap (open_header p) (
            take_append_of (8 + length w.bytes + 8) (container_header w base) bytes
              (omega (arith, head)))
          ∙ open_header_alone p w base dek fits eight
              (faithful.unwrap_new random dek w enough minted))
      ∙ range_opened a laws w dek base plain start end eight)
