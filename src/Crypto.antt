-- ===== src/Crypto.antt =====
-- src/crypto/mod.rs: the container of an encrypted object, written and read as a stream. A reader is
-- the list of the bytes that it yields until it ends. AES-256-GCM is the parameter `Aead`, with its
-- laws; the associated data is empty in every call. Random bytes are arguments.

pub mod Sealing
pub mod Keys
pub mod Custody
pub mod Header
pub mod Chunks
pub mod RoundTrip
use kerplace.Base.{
  Text, ℕ, zero, suc, ◌≡◌, ◌+◌, ◌-◌, ◌*◌, ◌/◌, ◌%◌, ◌<◌, ◌≤◌, Bool, true, false, not, if◌then◌else◌,
  List, [], ◌∷◌, ◌++◌, Option, none, some, codes, ltb, leb, ◌==◌, length, take, drop, is_empty,
  text_eq, get_elem?, unwrap_or, be_bytes, from_be,
}
pub use kerplace.Base.{Outcome, done, failed}

pub data CryptoError : Type 0 where
  format decrypt : CryptoError
  provider : Text → CryptoError

pub data KeyError : Type 0 where
  unavailable : Text → KeyError
  unwrap malformed : KeyError
  unknown : Text → KeyError

-- `From<KeyError>`
unfoldable pub from_key_error : KeyError → CryptoError
from_key_error unwrap = decrypt
from_key_error malformed = format
from_key_error (unavailable e) = provider (codes "key provider unavailable: " ++ e)
from_key_error (unknown e) = provider (codes "unknown key provider: " ++ e)

pub record WrappedDek : Type 0 where
  pub alg : ℕ
  pub bytes : List ℕ

-- The trait, as far as objects need it. Minting takes the random bytes that it draws.
pub record KeyProvider : Type 0 where
  pub new_wrapped_dek : List ℕ → Outcome KeyError (List ℕ × WrappedDek)
  pub unwrap_dek : WrappedDek → Outcome KeyError (List ℕ)
  pub wrapped_dek_len : ℕ

-- A provider unwraps what it has wrapped, and the wrapped key has the length that it names, which
-- fits the two bytes of the header. It draws at most the 32 bytes of a key and the 12 of a nonce.
pub record IsFaithful (p : KeyProvider) : Type 0 where
  pub unwrap_new :
      (random dek : List ℕ) (w : WrappedDek)
      → 44 ≤ length random
      → p.new_wrapped_dek random ≡ done (dek, w)
      → p.unwrap_dek w ≡ done dek
  pub length_new :
      (random dek : List ℕ) (w : WrappedDek)
      → 44 ≤ length random
      → p.new_wrapped_dek random ≡ done (dek, w)
      → length w.bytes ≡ p.wrapped_dek_len
  pub fits_header : p.wrapped_dek_len < 65536

-- `Aead256`: a key, a nonce and a text.
pub record Aead : Type 0 where
  pub seal : List ℕ → List ℕ → List ℕ → List ℕ
  pub unseal : List ℕ → List ℕ → List ℕ → Option (List ℕ)

pub record IsAead (a : Aead) : Type 0 where
  pub unseal-seal :
      (key nonce text : List ℕ) → a.unseal key nonce (a.seal key nonce text) ≡ some text
  pub length-seal : (key nonce text : List ℕ) → length (a.seal key nonce text) ≡ length text + 16

abbrev pub magic : List ℕ
magic = 75 ∷ 80 ∷ 69 ∷ 1 ∷ []

abbrev pub container_version : ℕ
container_version = 1

abbrev pub alg_aes_master : ℕ
alg_aes_master = 1

abbrev pub alg_mlkem : ℕ
alg_mlkem = 2

abbrev pub chunk_size : ℕ
chunk_size = 65536

abbrev pub tag_len : ℕ
tag_len = 16

abbrev pub nonce_len : ℕ
nonce_len = 12

abbrev pub base_nonce_len : ℕ
base_nonce_len = 8

abbrev pub chunk_block : ℕ
chunk_block = chunk_size + tag_len

-- the base nonce and the four bytes of the counter
unfoldable pub chunk_nonce : List ℕ → ℕ → List ℕ
chunk_nonce base counter = base ++ be_bytes 4 counter

unfoldable pub header_len : KeyProvider → ℕ
header_len p = 8 + p.wrapped_dek_len + base_nonce_len

unfoldable pub plaintext_len : ℕ → ℕ → ℕ
plaintext_len ciphertext_len header =
    if leb ciphertext_len header
    then 0
    else let body = ciphertext_len - header in
      let full = body / chunk_block in
      let rem = body % chunk_block in
      if rem == 0 then full * chunk_size else full * chunk_size + (rem - tag_len)

-- The header that `encrypting_reader` writes.
unfoldable pub container_header : WrappedDek → List ℕ → List ℕ
unfolding be_bytes
container_header w base_nonce =
    magic ++ (container_version ∷ w.alg ∷ (be_bytes 2 (length w.bytes) ++ (w.bytes ++ base_nonce)))

-- `unwrap_dek_for_alg`
unfoldable pub unwrap_dek_for_alg : KeyProvider → ℕ → List ℕ → Outcome CryptoError (List ℕ)
unwrap_dek_for_alg p alg wrapped = elim (p.unwrap_dek (record { alg = alg; bytes = wrapped })) [
  | done dek ↦ done dek
  | failed e ↦ failed (from_key_error e)
]

-- What a header gives: the key, the base nonce, and the length of the header.
pub record Opened : Type 0 where
  pub dek : List ℕ
  pub base_nonce : List ℕ
  pub length_header : ℕ

abbrev pub opened_with : Outcome CryptoError (List ℕ) → List ℕ → ℕ → Outcome CryptoError Opened
opened_with (done dek) base_nonce n =
    done (record { dek = dek; base_nonce = base_nonce; length_header = n })
opened_with (failed e) base_nonce n = failed e

abbrev pub byte_at : List ℕ → ℕ → ℕ
byte_at bytes i = unwrap_or (get_elem? bytes i) 0

-- the two bytes of the length of the wrapped key
abbrev pub wrapped_len : List ℕ → ℕ
wrapped_len bytes = from_be 0 (byte_at bytes 6 ∷ byte_at bytes 7 ∷ [])

-- `ObjectCipher::open`, and `open_stream_header`, which reads the same bytes from a stream and
-- fails in the same way where the stream is too short.
unfoldable pub open_header : KeyProvider → List ℕ → Outcome CryptoError Opened
unfolding text_eq
open_header p bytes =
    if ltb (length bytes) 8
    then failed format
    else if not (text_eq (take 4 bytes) magic)
    then failed format
    else if ltb (length bytes) (8 + wrapped_len bytes + base_nonce_len)
    then failed format
    else opened_with
        (unwrap_dek_for_alg p (byte_at bytes 5) (take (wrapped_len bytes) (drop 8 bytes)))
        (take base_nonce_len (drop (wrapped_len bytes) (drop 8 bytes)))
        (8 + wrapped_len bytes + base_nonce_len)
