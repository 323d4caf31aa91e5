-- ===== src/Tests/Sealed.antt =====
-- Examples for encryption at rest: a cipher that appends sixteen zeros in place of a tag.
use kerplace.Base.{
  ℕ, ◌≡◌, refl, ap, ◌-◌, ltb, if◌then◌else◌, List, [], ◌∷◌, ◌++◌, Option, none, some, true, false,
  codes, length, take, replicate, arith, length-append, length-replicate, length-take,
  take_append_of, done, Outcome,
}
use kerplace.Error.{ok}
use kerplace.Crypto.{
  CryptoError, Aead, IsAead, IsFaithful, plaintext_len, header_len, container_header,
}
use kerplace.Crypto.Sealing.{encrypting_reader, decrypting_reader_checked, seal_chunks}
use kerplace.Crypto.Keys.{PqKeypair, Kem, IsKem, passphrase_provider, file_provider, wrap_dek}
use kerplace.Crypto.Custody.{
  PassphraseFiles, DiskTakes, open_or_init, open_or_init_again, passphrase_provider-IsFaithful,
  file_provider-IsFaithful, sentinel,
}
use kerplace.Crypto.RoundTrip.{decrypting_reader_checked-encrypting_reader}
use kerplace.Fs.Reads.{encrypted_range, plain_range}
use kerplace.Fs.Covering.{encrypted_range-encrypting_reader}

abbrev tag : List ℕ
tag = replicate 16 0

abbrev pub aead : Aead
aead = record {
  seal = λ key nonce text. text ++ tag;
  unseal = λ key nonce sealed.
      if ltb (length sealed) 16 then none else some (take (length sealed - 16) sealed);
}

pub aead-IsAead : IsAead aead
aead-IsAead = record {
  unseal-seal = λ key nonce text. ground (
    arith,
    length-append text tag,
    take_append_of (length (text ++ tag) - 16) text tag (omega (arith, length-append text tag)),
  );
  length-seal = λ key nonce text. length-append text tag;
}

abbrev secret : List ℕ → List ℕ
secret random = take 32 (random ++ replicate 32 0)

abbrev kem : Kem
kem = record {
  ek_of_seed = λ seed. seed;
  encapsulate = λ ek random. (secret random ++ replicate 1536 0, secret random);
  decapsulate = λ seed ct. some (take 32 ct);
}

length-secret : (random : List ℕ) → length (secret random) ≡ 32
length-secret random =
    omega (arith, length-take 32 (random ++ replicate 32 0), length-append random (replicate 32 0))

kem-IsKem : IsKem kem
kem-IsKem = record {
  decapsulate-encapsulate = λ seed random.
      ap some (take_append_of 32 (secret random) (replicate 1536 0) (length-secret random));
  length_ciphertext = λ ek random. omega (
    arith,
    length-append (secret random) (replicate 1536 0),
    length-secret random,
    length-replicate {A = ℕ} 1536 0,
  );
  length_secret = λ ek random. length-secret random;
}

abbrev pub kek : List ℕ
kek = 1 ∷ 2 ∷ 3 ∷ []

abbrev pub random_bytes : List ℕ
random_bytes = replicate 44 7

abbrev pub base_nonce : List ℕ
base_nonce = replicate 8 9

abbrev text : List ℕ
text = codes "hello"

abbrev pub faithful : IsFaithful (passphrase_provider aead kek)
faithful = passphrase_provider-IsFaithful aead aead-IsAead kek

abbrev bytes_of : Outcome CryptoError (List ℕ) → List ℕ
bytes_of (done bytes) = bytes
bytes_of (Outcome.failed e) = []

sealed : List ℕ
sealed =
    bytes_of (encrypting_reader aead (passphrase_provider aead kek) random_bytes base_nonce text)

sealed_lem :
    encrypting_reader aead (passphrase_provider aead kek) random_bytes base_nonce text ≡ done sealed
unfolding sealed encrypting_reader passphrase_provider
sealed_lem = refl

length-sealed_text : length sealed ≡ 97
unfolding sealed encrypting_reader passphrase_provider seal_chunks container_header
length-sealed_text = refl

decrypting_reader_checked-encrypting_reader_example :
    (decrypting_reader_checked aead (passphrase_provider aead kek) sealed ≡ done text)
    × (plaintext_len (length sealed) (header_len (passphrase_provider aead kek)) ≡ length text)
decrypting_reader_checked-encrypting_reader_example =
    decrypting_reader_checked-encrypting_reader aead (passphrase_provider aead kek) aead-IsAead
      faithful random_bytes base_nonce text sealed (omega arith) refl sealed_lem

encrypted_range-encrypting_reader_example :
    encrypted_range aead (passphrase_provider aead kek) sealed (length text) 1 (some 3)
    ≡ ok (plain_range text (length text) 1 (some 3))
encrypted_range-encrypting_reader_example =
    encrypted_range-encrypting_reader aead (passphrase_provider aead kek) aead-IsAead faithful
      random_bytes base_nonce text sealed 1 (some 3) (omega arith) refl sealed_lem

-- Three bytes from the second on.
middle_bytes : plain_range text (length text) 1 (some 3) ≡ (3, codes "ell")
unfolding plain_range
middle_bytes = refl

abbrev pair : PqKeypair
pair = record { seed = 5 ∷ []; ek = 5 ∷ [] }

file_provider-IsFaithful_example : IsFaithful (file_provider aead kem kek (some pair))
file_provider-IsFaithful_example =
    file_provider-IsFaithful aead aead-IsAead kem kem-IsKem kek (some pair) (λ p e. cc e)

abbrev argon : List ℕ → List ℕ → Option (List ℕ)
argon passphrase salt = some (passphrase ++ salt)

abbrev no_store : PassphraseFiles
no_store = record { salt = none; check = none }

abbrev all_taken : DiskTakes
all_taken = record { sys_dir = true; salt = true; check = true }

abbrev none_taken : DiskTakes
none_taken = record { sys_dir = false; salt = false; check = false }

abbrev new_store : PassphraseFiles
new_store = record {
  salt = some (replicate 16 7);
  check = some (replicate 12 7 ++ (sentinel ++ tag));
}

first_run_done :
    open_or_init aead argon (codes "pw") random_bytes all_taken no_store
    ≡ (new_store, done (codes "pw" ++ replicate 16 7))
unfolding open_or_init wrap_dek
first_run_done = refl

open_or_init_again_example :
    open_or_init aead argon (codes "pw") [] none_taken new_store
    ≡ (new_store, done (codes "pw" ++ replicate 16 7))
open_or_init_again_example =
    open_or_init_again aead argon aead-IsAead (codes "pw") random_bytes [] all_taken none_taken
      no_store new_store (codes "pw" ++ replicate 16 7) (omega arith) refl first_run_done
