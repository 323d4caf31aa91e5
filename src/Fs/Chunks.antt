-- ===== src/Fs/Chunks.antt =====
-- The chunks that a range of an encrypted object covers.
use kerplace.Base.{
  ℕ, zero, suc, ◌≡◌, refl, sym, ap, ◌∙◌, ◌+◌, ◌-◌, ◌*◌, ◌<◌, ◌≤◌, min, true, ◌&&◌, List, [], ◌∷◌,
  ◌++◌, some, leb, arith, length, take, drop, length-append, length-take, length-drop,
  take_append_of, drop_append_of, take-nil, drop-drop, take-add, take_whole, drop_all,
}
use mathlib.Core.List.{append-nil}
use native.Mathlib.Decide.{dec_lt}
use kerplace.Ranges.{same_front}
use kerplace.Crypto.{Aead, IsAead, Opened, chunk_nonce, chunk_size, chunk_block}
use kerplace.Crypto.Sealing.{seal_chunks, decrypt_chunk}
use kerplace.Crypto.Chunks.{seal_none, seal_last, seal_full, length-sealed}
use kerplace.Fs.Reads.{slice, covering_chunks}

-- Cutting from a place on, a number of bytes.
pub slice_lem :
    (from len : ℕ) (plain : List ℕ)
    → slice from (min (from + len) (length plain)) plain ≡ take len (drop from plain)
slice_lem from len plain = elim (dec_lt (length plain) from) [
  | yes beyond ↦ rw (drop_all from plain (omega arith)) (rw (take-nil {A = ℕ} len) (ground arith))
  | no within ↦
      let to = min (from + len) (length plain) in
      let inside : (leb from to && leb to (length plain)) ≡ true = ground arith in
      rw inside
        (same_front (to - from) len (drop from plain) (omega (arith, length-drop from plain)))
]

module _ (a : Aead) (laws : IsAead a) (h : Opened) (file : List ℕ) where
  abbrev chunks_from : ℕ → ℕ → List ℕ → List ℕ
  chunks_from f c xs = seal_chunks a chunk_size f h.dek h.base_nonce c xs

  abbrev offset : ℕ → ℕ
  offset ci = h.length_header + ci * chunk_block

  abbrev pt_of : ℕ → List ℕ → List ℕ
  pt_of ci xs = a.seal h.dek (chunk_nonce h.base_nonce ci) xs

  -- A turn of the loop at the end of the file, and one at a sealed chunk.
  cover_end : (left ci : ℕ) → length file ≤ offset ci → covering_chunks a h file left ci ≡ some []
  unfolding covering_chunks
  cover_end zero ci i = refl
  cover_end (suc left) ci i = ground arith

  cover_chunk :
      (left ci : ℕ) (xs tail more : List ℕ)
      → drop (offset ci) file ≡ pt_of ci xs ++ tail
      → take (min (length file - offset ci) chunk_block) (pt_of ci xs ++ tail) ≡ pt_of ci xs
      → covering_chunks a h file left (ci + 1) ≡ some more
      → covering_chunks a h file (suc left) ci ≡ some (xs ++ more)
  unfolding covering_chunks decrypt_chunk
  cover_chunk left ci xs tail more e t r = ground (
    arith,
    e,
    t,
    r,
    ap (length {A = ℕ}) e,
    length-drop (offset ci) file,
    length-append (pt_of ci xs) tail,
    laws.length-seal h.dek (chunk_nonce h.base_nonce ci) xs,
    laws.unseal-seal h.dek (chunk_nonce h.base_nonce ci) xs,
  )

  drop-offset :
      (ci : ℕ) (front tail : List ℕ)
      → drop (offset ci) file ≡ front ++ tail
      → length front ≡ chunk_block
      → drop (offset (ci + 1)) file ≡ tail
  drop-offset ci front tail e n =
      ap (λ k. drop k file) {y = offset ci + chunk_block} (omega arith)
      ∙ sym (drop-drop chunk_block (offset ci) file)
      ∙ rw e (drop_append_of chunk_block front tail n)

  -- The loop over the last `left` chunks gives as many chunks of the text.
  pub covering_chunks_lem :
      (left f ci : ℕ) (xs : List ℕ)
      → length xs < f
      → drop (offset ci) file ≡ chunks_from f ci xs
      → covering_chunks a h file left ci ≡ some (take (left * chunk_size) xs)
  covering_chunks_lem left zero ci xs i e = absurd (omega arith)
  covering_chunks_lem zero (suc f) ci xs i e = unfold covering_chunks in refl
  covering_chunks_lem (suc left) (suc f) ci [] i e =
      let none_left =
        ap (length {A = ℕ}) (e ∙ seal_none a laws h.dek h.base_nonce chunk_size (suc f) ci) in
      cover_end (suc left) ci (omega (arith, none_left, length-drop (offset ci) file))
      ∙ ap some (sym (take-nil (suc left * chunk_size)))
  covering_chunks_lem (suc left) (suc f) ci (x ∷ xs) i e =
      elim (dec_lt (length (x ∷ xs)) chunk_size) [
        | yes short ↦
            let pt = pt_of ci (x ∷ xs) in
            let last = e ∙ seal_last a laws h.dek h.base_nonce chunk_size f ci x xs short in
            let n = length-sealed a laws h.dek h.base_nonce ci (x ∷ xs) in
            let m = ap (length {A = ℕ}) last in
            let d = length-drop (offset ci) file in
            cover_chunk left ci (x ∷ xs) [] [] (last ∙ sym (append-nil pt))
              (ap (take (min (length file - offset ci) chunk_block)) (append-nil pt)
                ∙ take_whole (min (length file - offset ci) chunk_block) pt
                    (omega (arith, n, m, d)))
              (cover_end left (ci + 1) (omega (arith, n, m, d)))
            ∙ ap some (
                append-nil (x ∷ xs)
                ∙ sym (take_whole (suc left * chunk_size) (x ∷ xs) (omega arith)))
        | no long ↦
            let front = take chunk_size (x ∷ xs) in
            let back = drop chunk_size (x ∷ xs) in
            let tail = chunks_from f (ci + 1) back in
            let full =
              e
              ∙ seal_full a laws h.dek h.base_nonce chunk_size f ci x xs (omega arith)
                  (omega arith) in
            let n : length (pt_of ci front) ≡ chunk_block = omega (
              arith,
              length-sealed a laws h.dek h.base_nonce ci front,
              length-take chunk_size (x ∷ xs),
            ) in
            let m = ap (length {A = ℕ}) full in
            let d = length-drop (offset ci) file in
            let l = length-append (pt_of ci front) tail in
            cover_chunk left ci front tail (take (left * chunk_size) back) full
              (ap (λ k. take k (pt_of ci front ++ tail)) {y = chunk_block}
                  (omega (arith, n, m, d, l))
                ∙ take_append_of chunk_block (pt_of ci front) tail n)
              (covering_chunks_lem left f (ci + 1) back
                (omega (arith, length-drop chunk_size (x ∷ xs)))
                (drop-offset ci (pt_of ci front) tail full n))
            ∙ ap some (
                take-add chunk_size (left * chunk_size) (x ∷ xs)
                ∙ ap (λ k. take k (x ∷ xs)) {y = suc left * chunk_size} (omega arith))
      ]

-- The chunks from one on are the seal of the text from there.
module _ (a : Aead) (laws : IsAead a) (dek base : List ℕ) where
  abbrev FromChunk : ℕ → ℕ → ℕ → List ℕ → Type 0
  FromChunk n f c xs =
      (g : ℕ) × (length (drop (n * chunk_size) xs) < g)
      × (drop (n * chunk_block) (seal_chunks a chunk_size f dek base c xs)
          ≡ seal_chunks a chunk_size g dek base (c + n) (drop (n * chunk_size) xs))

  spent :
      (n f c : ℕ) (xs : List ℕ)
      → length xs ≤ n * chunk_size
      → length (seal_chunks a chunk_size f dek base c xs) ≤ n * chunk_block
      → FromChunk n f c xs
  spent n f c xs h i =
      let gone = drop_all (n * chunk_size) xs h in
      (
        1,
        omega (arith, ap (length {A = ℕ}) gone),
        drop_all (n * chunk_block) (seal_chunks a chunk_size f dek base c xs) i
            ∙ sym (
                ap (seal_chunks a chunk_size 1 dek base (c + n)) gone
                ∙ seal_none a laws dek base chunk_size 1 (c + n)),
      )

  pub drop-seal_chunks : (n f c : ℕ) (xs : List ℕ) → length xs < f → FromChunk n f c xs
  drop-seal_chunks n zero c xs i = absurd (omega arith)
  drop-seal_chunks zero (suc f) c xs i =
      (suc f, i, ap (λ k. seal_chunks a chunk_size (suc f) dek base k xs) {y = c + 0} (omega arith))
  drop-seal_chunks (suc n) (suc f) c [] i =
      spent (suc n) (suc f) c [] (omega arith)
        (omega (arith, ap (length {A = ℕ}) (seal_none a laws dek base chunk_size (suc f) c)))
  drop-seal_chunks (suc n) (suc f) c (x ∷ xs) i = elim (dec_lt (length (x ∷ xs)) chunk_size) [
    | yes short ↦ spent (suc n) (suc f) c (x ∷ xs) (omega arith) (
        omega (
          arith,
          ap (length {A = ℕ}) (seal_last a laws dek base chunk_size f c x xs short),
          length-sealed a laws dek base c (x ∷ xs),
        ))
    | no long ↦
        let front = take chunk_size (x ∷ xs) in
        let back = drop chunk_size (x ∷ xs) in
        let sealed = a.seal dek (chunk_nonce base c) front in
        let tail = seal_chunks a chunk_size f dek base (c + 1) back in
        let full = seal_full a laws dek base chunk_size f c x xs (omega arith) (omega arith) in
        let size : length sealed ≡ chunk_block =
          omega (arith, length-sealed a laws dek base c front, length-take chunk_size (x ∷ xs)) in
        let (g, enough, rest) =
          drop-seal_chunks n f (c + 1) back (omega (arith, length-drop chunk_size (x ∷ xs))) in
        let text : drop (n * chunk_size) back ≡ drop (suc n * chunk_size) (x ∷ xs) =
          drop-drop (n * chunk_size) chunk_size (x ∷ xs)
          ∙ ap (λ k. drop k (x ∷ xs)) {y = suc n * chunk_size} (omega arith) in
        (
          g,
          omega (arith, enough, ap (length {A = ℕ}) text),
          ap (drop (suc n * chunk_block)) full
              ∙ ap (λ k. drop k (sealed ++ tail)) {y = chunk_block + n * chunk_block} (omega arith)
              ∙ sym (drop-drop (n * chunk_block) chunk_block (sealed ++ tail))
              ∙ ap (drop (n * chunk_block)) (drop_append_of chunk_block sealed tail size)
              ∙ rest
              ∙ ap (seal_chunks a chunk_size g dek base (c + 1 + n)) text
              ∙ ap (λ k. seal_chunks a chunk_size g dek base k (drop (suc n * chunk_size) (x ∷ xs)))
                  {y = c + suc n} (omega arith),
        )
  ]
