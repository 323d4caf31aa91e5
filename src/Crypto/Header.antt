-- ===== src/Crypto/Header.antt =====
-- The header of a container, written and read back.
use kerplace.Base.{
  ℕ, ◌≡◌, ◌∙◌, ap, sym, ◌+◌, ◌/◌, ◌%◌, ◌<◌, ◌≤◌, List, [], ◌∷◌, ◌++◌, length, take, drop, arith,
  length-append, take_append_of, from_be, drop_append, take_append,
}
use mathlib.Core.List.{append-nil, append_assoc}
use kerplace.Crypto.{
  KeyProvider, done, WrappedDek, container_header, open_header, unwrap_dek_for_alg, opened_with,
  wrapped_len,
}

two_bytes : (n : ℕ) → n < 65536 → from_be 0 (n / 256 % 256 ∷ n % 256 ∷ []) ≡ n
unfolding from_be
two_bytes n h = omega arith

parse_header :
    (p : KeyProvider) (alg hi lo n : ℕ) (rest : List ℕ)
    → from_be 0 (hi ∷ lo ∷ []) ≡ n
    → n + 8 ≤ length rest
    → open_header p (75 ∷ 80 ∷ 69 ∷ 1 ∷ 1 ∷ alg ∷ hi ∷ lo ∷ rest)
      ≡ opened_with (unwrap_dek_for_alg p alg (take n rest)) (take 8 (drop n rest)) (16 + n)
unfolding open_header
parse_header p alg hi lo n rest e h = ground (arith, e)

unwrap_ok :
    (p : KeyProvider) (w : WrappedDek) (dek : List ℕ)
    → p.unwrap_dek w ≡ done dek
    → unwrap_dek_for_alg p w.alg w.bytes ≡ done dek
unfolding unwrap_dek_for_alg
unwrap_ok p w dek h = ground (arith, h)

-- The header read back.
pub open_header-container_header :
    (p : KeyProvider) (w : WrappedDek) (base body dek : List ℕ)
    → length w.bytes < 65536
    → length base ≡ 8
    → p.unwrap_dek w ≡ done dek
    → open_header p (container_header w base ++ body)
      ≡ done (record { dek = dek; base_nonce = base; length_header = 16 + length w.bytes })
unfolding container_header
open_header-container_header p w base body dek fits eight unwraps =
    parse_header p w.alg _ _ (length w.bytes) ((w.bytes ++ base) ++ body)
      (two_bytes (length w.bytes) fits)
      (omega (arith, length-append (w.bytes ++ base) body, length-append w.bytes base))
    ∙ ground (
      arith,
      append_assoc w.bytes base body,
      take_append w.bytes (base ++ body),
      drop_append w.bytes (base ++ body),
      take_append_of 8 base body eight,
      unwrap_ok p w dek unwraps,
    )

pub length-container_header :
    (w : WrappedDek) (base : List ℕ)
    → length base ≡ 8
    → length (container_header w base) ≡ 16 + length w.bytes
unfolding container_header
length-container_header w base eight = omega (arith, length-append w.bytes base)

pub wrapped_len-container_header :
    (w : WrappedDek) (base body : List ℕ)
    → length w.bytes < 65536
    → wrapped_len (container_header w base ++ body) ≡ length w.bytes
unfolding container_header
wrapped_len-container_header w base body fits = two_bytes (length w.bytes) fits

-- The header by itself.
pub open_header_alone :
    (p : KeyProvider) (w : WrappedDek) (base dek : List ℕ)
    → length w.bytes < 65536
    → length base ≡ 8
    → p.unwrap_dek w ≡ done dek
    → open_header p (container_header w base)
      ≡ done (record { dek = dek; base_nonce = base; length_header = 16 + length w.bytes })
open_header_alone p w base dek fits eight unwraps =
    ap (open_header p) (sym (append-nil (container_header w base)))
    ∙ open_header-container_header p w base [] dek fits eight unwraps
