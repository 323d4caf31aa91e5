-- ===== src/Crypto/Chunks.antt =====
-- The chunks of a container, one turn of the loops at a time, and all of them.
use kerplace.Base.{
  ℕ, zero, suc, ◌≡◌, refl, subst, ◌∙◌, ap, ◌+◌, ◌<◌, ◌≤◌, false, List, [], ◌∷◌, ◌++◌, some, length,
  take, drop, is_empty, arith, length-append, length-take, length-drop, take_append_of,
  drop_append_of, take-append-drop,
}
use native.Mathlib.Decide.{dec_lt}
use kerplace.Crypto.{Aead, IsAead, chunk_nonce}
use kerplace.Crypto.Sealing.{seal_chunks, stream_chunks}

short_take : (k : ℕ) (xs : List ℕ) → length xs < k → take k xs ≡ xs
short_take zero xs h = absurd (omega arith)
short_take (suc k) [] h = refl
short_take (suc k) (x ∷ xs) h = ap (◌∷◌ x) (short_take k xs (omega arith))

is_empty-take : (k : ℕ) (x : ℕ) (xs : List ℕ) → 0 < k → is_empty (take k (x ∷ xs)) ≡ false
is_empty-take zero x xs h = absurd (omega arith)
is_empty-take (suc k) x xs h = refl

is_empty_long : (xs : List ℕ) → 0 < length xs → is_empty xs ≡ false
is_empty_long [] h = absurd (omega arith)
is_empty_long (x ∷ xs) h = refl

module _ (a : Aead) (laws : IsAead a) (dek base : List ℕ) where
  -- One turn of the two loops: the last chunk, and a full one.
  pub seal_last :
      (chunk f c : ℕ) (x : ℕ) (xs : List ℕ)
      → length (x ∷ xs) < chunk
      → seal_chunks a chunk (suc f) dek base c (x ∷ xs) ≡ a.seal dek (chunk_nonce base c) (x ∷ xs)
  unfolding seal_chunks
  seal_last chunk f c x xs h = rw (short_take chunk (x ∷ xs) h) (ground arith)

  pub seal_none : (chunk f c : ℕ) → seal_chunks a chunk f dek base c [] ≡ []
  unfolding seal_chunks
  seal_none chunk zero c = refl
  seal_none zero (suc f) c = refl
  seal_none (suc k) (suc f) c = refl

  pub open_none : (block g c : ℕ) → stream_chunks a block g dek base c [] ≡ []
  unfolding stream_chunks
  open_none block zero c = refl
  open_none zero (suc g) c = refl
  open_none (suc k) (suc g) c = refl

  pub seal_full :
      (chunk f c : ℕ) (x : ℕ) (xs : List ℕ)
      → 0 < chunk
      → chunk ≤ length (x ∷ xs)
      → seal_chunks a chunk (suc f) dek base c (x ∷ xs)
        ≡ a.seal dek (chunk_nonce base c) (take chunk (x ∷ xs))
          ++ seal_chunks a chunk f dek base (c + 1) (drop chunk (x ∷ xs))
  unfolding seal_chunks
  seal_full chunk f c x xs pos h =
      rw (is_empty-take chunk x xs pos) (ground (arith, length-take chunk (x ∷ xs)))

  pub open_last :
      (block g c : ℕ) (cipher plain : List ℕ)
      → 0 < length cipher
      → length cipher < block
      → a.unseal dek (chunk_nonce base c) cipher ≡ some plain
      → stream_chunks a block (suc g) dek base c cipher ≡ plain
  unfolding stream_chunks
  open_last block g c cipher plain pos h e = ground (
    arith,
    short_take block cipher h,
    ap (length {A = ℕ}) (short_take block cipher h),
    is_empty_long cipher pos,
    ap (a.unseal dek (chunk_nonce base c)) (short_take block cipher h),
    e,
  )

  pub open_full :
      (block g c : ℕ) (sealed rest plain : List ℕ)
      → 0 < block
      → length sealed ≡ block
      → a.unseal dek (chunk_nonce base c) sealed ≡ some plain
      → stream_chunks a block (suc g) dek base c (sealed ++ rest)
        ≡ plain ++ stream_chunks a block g dek base (c + 1) rest
  unfolding stream_chunks
  open_full block g c sealed rest plain pos h e = ground (
    arith,
    take_append_of block sealed rest h,
    drop_append_of block sealed rest h,
    is_empty_long sealed (omega arith),
    e,
  )

  pub length-sealed :
      (c : ℕ) (xs : List ℕ) → length (a.seal dek (chunk_nonce base c) xs) ≡ length xs + 16
  length-sealed c xs = laws.length-seal dek (chunk_nonce base c) xs

  -- Opening what was sealed, from any chunk on and with any fuel above the lengths.
  pub stream_chunks-seal_chunks :
      (chunk : ℕ) (f g c : ℕ) (xs : List ℕ)
      → 0 < chunk
      → length xs < f
      → length (seal_chunks a chunk f dek base c xs) < g
      → stream_chunks a (chunk + 16) g dek base c (seal_chunks a chunk f dek base c xs) ≡ xs
  stream_chunks-seal_chunks chunk zero g c xs h i j = absurd (omega arith)
  stream_chunks-seal_chunks chunk (suc f) zero c xs h i j = absurd (omega arith)
  stream_chunks-seal_chunks chunk (suc f) (suc g) c [] h i j =
      rw (seal_none chunk (suc f) c) (open_none (chunk + 16) (suc g) c)
  stream_chunks-seal_chunks chunk (suc f) (suc g) c (x ∷ xs) h i j =
      elim (dec_lt (length (x ∷ xs)) chunk) [
        | yes short ↦ rw (seal_last chunk f c x xs short) (
            open_last (chunk + 16) g c _ (x ∷ xs) (omega (arith, length-sealed c (x ∷ xs)))
              (omega (arith, length-sealed c (x ∷ xs)))
              (laws.unseal-seal dek (chunk_nonce base c) (x ∷ xs)))
        | no long ↦
            let full = seal_full chunk f c x xs h (omega arith) in
            let tail = seal_chunks a chunk f dek base (c + 1) (drop chunk (x ∷ xs)) in
            let sealed = a.seal dek (chunk_nonce base c) (take chunk (x ∷ xs)) in
            let n = length-sealed c (take chunk (x ∷ xs)) in
            let m = length-take chunk (x ∷ xs) in
            let fewer = subst (λ (s : List ℕ). length s < suc g) full j in
            rw full (
              open_full (chunk + 16) g c sealed tail (take chunk (x ∷ xs)) (omega arith)
                (omega (arith, n, m))
                (laws.unseal-seal dek (chunk_nonce base c) (take chunk (x ∷ xs)))
              ∙ ap (◌++◌ (take chunk (x ∷ xs))) (
                  stream_chunks-seal_chunks chunk f g (c + 1) (drop chunk (x ∷ xs)) h
                    (omega (arith, length-drop chunk (x ∷ xs)))
                    (omega (arith, n, m, length-append sealed tail)))
              ∙ take-append-drop chunk (x ∷ xs))
      ]
