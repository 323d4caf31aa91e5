-- ===== src/Crypto/Keys.antt =====
-- src/crypto/provider.rs and the key wrapping of src/crypto/mod.rs: the providers whose keys the host
-- holds. ML-KEM-1024 and Argon2id are parameters; a file is its bytes, if it is there.
use kerplace.Base.{
  Text, ℕ, ◌≡◌, ◌+◌, Bool, if◌then◌else◌, List, ◌++◌, Option, none, some, codes, ltb, ◌==◌, length,
  take, drop, text_eq,
}
use kerplace.Crypto.{
  Aead, KeyProvider, KeyError, unwrap, malformed, unknown, CryptoError, format, decrypt, Outcome,
  done, failed, WrappedDek, alg_aes_master, alg_mlkem, nonce_len, tag_len,
}

pub data ProviderKind : Type 0 where
  file passphrase kms : ProviderKind

unfoldable pub parse_provider_kind : Text → Outcome KeyError ProviderKind
unfolding text_eq
parse_provider_kind s =
    if text_eq s (codes "file")
    then done file
    else if text_eq s (codes "passphrase")
    then done passphrase
    else if text_eq s (codes "kms")
    then done kms
    else failed (unknown s)

-- A keypair is its seed and its encapsulation key.
pub record PqKeypair : Type 0 where
  pub seed : List ℕ
  pub ek : List ℕ

pub record Kem : Type 0 where
  pub ek_of_seed : List ℕ → List ℕ
  -- the ciphertext and the shared secret
  pub encapsulate : List ℕ → List ℕ → List ℕ × List ℕ
  pub decapsulate : List ℕ → List ℕ → Option (List ℕ)

pub record IsKem (k : Kem) : Type 0 where
  pub decapsulate-encapsulate :
      (seed random : List ℕ)
      → k.decapsulate seed (k.encapsulate (k.ek_of_seed seed) random).0
        ≡ some (k.encapsulate (k.ek_of_seed seed) random).1
  pub length_ciphertext : (ek random : List ℕ) → length (k.encapsulate ek random).0 ≡ 1568
  pub length_secret : (ek random : List ℕ) → length (k.encapsulate ek random).1 ≡ 32

abbrev pub mlkem_ct_len : ℕ
mlkem_ct_len = 1568

abbrev pub wrapped_dek_len_aes : ℕ
wrapped_dek_len_aes = nonce_len + 32 + tag_len

-- the two fields that the warning reads
pub record KeyPosture : Type 0 where
  pub kind : Text
  pub unattended_boot : Bool
  pub key_on_host : Bool

-- `generate_dek`: the first 32 random bytes
unfoldable pub generate_dek : List ℕ → List ℕ
generate_dek random = take 32 random

module _ (a : Aead) where
  -- the nonce, drawn fresh, and the sealed key
  unfoldable pub wrap_dek : List ℕ → List ℕ → List ℕ → List ℕ
  wrap_dek master dek nonce = nonce ++ a.seal master nonce dek

  abbrev checked_dek : Option (List ℕ) → Outcome CryptoError (List ℕ)
  checked_dek none = failed decrypt
  checked_dek (some plaintext) = if length plaintext == 32 then done plaintext else failed format

  unfoldable pub unwrap_dek : List ℕ → List ℕ → Outcome CryptoError (List ℕ)
  unwrap_dek master wrapped =
      if ltb (length wrapped) (nonce_len + tag_len)
      then failed format
      else checked_dek (a.unseal master (take nonce_len wrapped) (drop nonce_len wrapped))

  -- the key, or `KeyError::Unwrap`
  abbrev as_unwrap : Outcome CryptoError (List ℕ) → Outcome KeyError (List ℕ)
  as_unwrap (done dek) = done dek
  as_unwrap (failed e) = failed unwrap

  -- A fresh key wrapped under a master key, as both providers do it.
  abbrev pub new_under : List ℕ → List ℕ → Outcome KeyError (List ℕ × WrappedDek)
  new_under master random =
      let dek = generate_dek random in
      let nonce = take nonce_len (drop 32 random) in
      done (dek, record { alg = alg_aes_master; bytes = wrap_dek master dek nonce })

  abbrev pub passphrase_unwrap : List ℕ → WrappedDek → Outcome KeyError (List ℕ)
  passphrase_unwrap kek w =
      if w.alg == alg_aes_master then as_unwrap (unwrap_dek kek w.bytes) else failed malformed

  -- `PassphraseKeyProvider`, by its key
  unfoldable pub passphrase_provider : List ℕ → KeyProvider
  unfolding wrap_dek unwrap_dek generate_dek
  passphrase_provider kek = record {
    new_wrapped_dek = new_under kek;
    unwrap_dek = passphrase_unwrap kek;
    wrapped_dek_len = wrapped_dek_len_aes;
  }

module _ (a : Aead) (k : Kem) where
  -- `PqKeypair::encapsulate` in `new_wrapped_dek`
  abbrev pub file_new : List ℕ → Option PqKeypair → List ℕ → Outcome KeyError (List ℕ × WrappedDek)
  file_new master none random = new_under a master random
  file_new master (some pq) random =
      let made = k.encapsulate pq.ek random in
      done (made.1, record { alg = alg_mlkem; bytes = made.0 })

  abbrev decapsulated : Option (List ℕ) → Outcome KeyError (List ℕ)
  decapsulated none = failed unwrap
  decapsulated (some secret) = if length secret == 32 then done secret else failed unwrap

  abbrev unwrap_pq : Option PqKeypair → List ℕ → Outcome KeyError (List ℕ)
  unwrap_pq none bytes = failed malformed
  unwrap_pq (some pq) bytes = decapsulated (k.decapsulate pq.seed bytes)

  abbrev pub file_unwrap : List ℕ → Option PqKeypair → WrappedDek → Outcome KeyError (List ℕ)
  file_unwrap master pq w =
      if w.alg == alg_aes_master
      then as_unwrap a (unwrap_dek a master w.bytes)
      else if w.alg == alg_mlkem
      then unwrap_pq pq w.bytes
      else failed malformed

  abbrev file_len : Option PqKeypair → ℕ
  file_len none = wrapped_dek_len_aes
  file_len (some pq) = mlkem_ct_len

  -- `FileKeyProvider`
  unfoldable pub file_provider : List ℕ → Option PqKeypair → KeyProvider
  unfolding wrap_dek unwrap_dek generate_dek
  file_provider master pq = record {
    new_wrapped_dek = file_new master pq;
    unwrap_dek = file_unwrap master pq;
    wrapped_dek_len = file_len pq;
  }
