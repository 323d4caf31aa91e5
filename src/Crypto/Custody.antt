-- ===== src/Crypto/Custody.antt =====
-- src/crypto/provider.rs: the providers keep the promise of `KeyProvider`, and the store of the
-- passphrase provider, its salt and its sealed check, in the system directory.
use kerplace.Base.{
  ℕ, ◌≡◌, refl, ◌≤◌, Bool, false, if◌then◌else◌, List, Option, none, some, codes, length, take,
  drop, text_eq, text_eq_refl, is_empty, arith, not, length-append, length-take, length-drop,
  take_append_of, drop_append_of,
}
use kerplace.Crypto.{
  Aead, IsAead, IsFaithful, KeyError, unavailable, CryptoError, Outcome, done, failed, nonce_len,
}
use kerplace.Crypto.Keys.{
  PqKeypair, Kem, IsKem, wrap_dek, unwrap_dek, generate_dek, passphrase_provider, file_provider,
}

unwrap_dek-wrap_dek :
    (a : Aead) (laws : IsAead a) (master dek nonce : List ℕ)
    → length dek ≡ 32
    → length nonce ≡ 12
    → unwrap_dek a master (wrap_dek a master dek nonce) ≡ done dek
unfolding unwrap_dek wrap_dek
unwrap_dek-wrap_dek a laws master dek nonce h i = ground (
  arith,
  h,
  i,
  length-append nonce (a.seal master nonce dek),
  laws.length-seal master nonce dek,
  laws.unseal-seal master nonce dek,
  take_append_of 12 nonce (a.seal master nonce dek) i,
  drop_append_of 12 nonce (a.seal master nonce dek) i,
)

-- A key drawn and wrapped under a master key.
module _ (a : Aead) (laws : IsAead a) (master random : List ℕ) (enough : 44 ≤ length random) where
  abbrev fresh_dek : List ℕ
  fresh_dek = generate_dek random

  abbrev fresh_nonce : List ℕ
  fresh_nonce = take nonce_len (drop 32 random)

  length-dek : length fresh_dek ≡ 32
  unfolding generate_dek
  length-dek = omega (arith, length-take 32 random)

  length-nonce : length fresh_nonce ≡ 12
  length-nonce = omega (arith, length-take 12 (drop 32 random), length-drop 32 random)

  unwrap_fresh : unwrap_dek a master (wrap_dek a master fresh_dek fresh_nonce) ≡ done fresh_dek
  unwrap_fresh = unwrap_dek-wrap_dek a laws master fresh_dek fresh_nonce length-dek length-nonce

  length-fresh : length (wrap_dek a master fresh_dek fresh_nonce) ≡ 60
  unfolding wrap_dek
  length-fresh = omega (
    arith,
    length-append fresh_nonce (a.seal master fresh_nonce fresh_dek),
    laws.length-seal master fresh_nonce fresh_dek,
    length-dek,
    length-nonce,
  )

-- The passphrase provider unwraps every key that it has wrapped, and wrapped keys have the length
-- that it names.
pub passphrase_provider-IsFaithful :
    (a : Aead) → IsAead a → (kek : List ℕ) → IsFaithful (passphrase_provider a kek)
unfolding passphrase_provider
passphrase_provider-IsFaithful a laws kek = record {
  unwrap_new = λ random dek' w enough h. ground (arith, h, unwrap_fresh a laws kek random enough);
  length_new = λ random dek' w enough h. ground (arith, h, length-fresh a laws kek random enough);
  fits_header = omega arith;
}

module _ (a : Aead) (laws : IsAead a) (k : Kem) (kem : IsKem k) (master : List ℕ) where
  -- The same of the file provider, with a keypair and without one.
  pub file_provider-IsFaithful :
      (pq : Option PqKeypair)
      → ((pair : PqKeypair) → pq ≡ some pair → pair.ek ≡ k.ek_of_seed pair.seed)
      → IsFaithful (file_provider a k master pq)
  unfolding file_provider
  file_provider-IsFaithful none own = record {
    unwrap_new =
        λ random dek' w enough h. ground (arith, h, unwrap_fresh a laws master random enough);
    length_new =
        λ random dek' w enough h. ground (arith, h, length-fresh a laws master random enough);
    fits_header = omega arith;
  }
  file_provider-IsFaithful (some pair) own = record {
    unwrap_new = λ random dek' w enough h. ground (
      arith,
      h,
      own pair refl,
      kem.decapsulate-encapsulate pair.seed random,
      kem.length_secret (k.ek_of_seed pair.seed) random,
    );
    length_new = λ random dek' w enough h. ground (arith, h, kem.length_ciphertext pair.ek random);
    fits_header = omega arith;
  }

-- The two files of the passphrase provider, and which of its writes to the disk succeed.
pub record PassphraseFiles : Type 0 where
  pub salt : Option (List ℕ)
  pub check : Option (List ℕ)

pub record DiskTakes : Type 0 where
  pub sys_dir : Bool
  pub salt : Bool
  pub check : Bool

abbrev pub sentinel : List ℕ
sentinel = codes "KerPlace.passphrase.verifier.v1!"

abbrev Opening : Type 0
Opening = PassphraseFiles × Outcome KeyError (List ℕ)

module _ (a : Aead) (argon : List ℕ → List ℕ → Option (List ℕ)) where
  -- `PassphraseKeyProvider::derive`; the text of an Argon2 error is left out
  unfoldable pub derive : List ℕ → List ℕ → Outcome KeyError (List ℕ)
  derive passphrase salt = elim (argon passphrase salt) [
    | none ↦ failed (unavailable (codes "argon2 derive: "))
    | some kek ↦ done kek
  ]

  abbrev incorrect : KeyError
  incorrect = unavailable (codes "incorrect KP_KEY_PASSPHRASE for this data directory")

  abbrev verified : Outcome CryptoError (List ℕ) → List ℕ → Outcome KeyError (List ℕ)
  verified (done opened) kek = if text_eq opened sentinel then done kek else failed incorrect
  verified (failed e) kek = failed incorrect

  abbrev checked : Option (List ℕ) → Outcome KeyError (List ℕ) → Outcome KeyError (List ℕ)
  checked check (failed e) = failed e
  checked none (done kek) = failed (unavailable (codes "passphrase.check: "))
  checked (some blob) (done kek) = verified (unwrap_dek a kek blob) kek

  abbrev initialised :
      PassphraseFiles → DiskTakes → List ℕ → List ℕ → Outcome KeyError (List ℕ) → Opening
  initialised files disk salt nonce (failed e) = (files, failed e)
  initialised files disk salt nonce (done kek) =
      if not disk.sys_dir
      then (files, failed (unavailable (codes "sys dir: ")))
      else if not disk.salt
      then (files, failed (unavailable (codes "passphrase.salt: ")))
      else if not disk.check
      then (record files { salt = some salt }, failed (unavailable (codes "passphrase.check: ")))
      else (record { salt = some salt; check = some (wrap_dek a kek sentinel nonce) }, done kek)

  -- `PassphraseKeyProvider::open_or_init`, by its key: of the random bytes 16 are the salt and 12 a
  -- nonce. A write that fails leaves the file as it was.
  unfoldable pub open_or_init : List ℕ → List ℕ → DiskTakes → PassphraseFiles → Opening
  unfolding derive
  open_or_init passphrase random disk files =
      if is_empty passphrase
      then (
        files,
        failed
            (unavailable (codes "the `passphrase` provider needs a non-empty KP_KEY_PASSPHRASE")),
      )
      else elim files.salt [
        | some salt ↦ (files, checked files.check (derive passphrase salt))
        | none ↦
            initialised files disk (take 16 random) (take 12 (drop 16 random))
              (derive passphrase (take 16 random))
      ]

-- What a successful first run has done.
first_run :
    (a : Aead) (argon : List ℕ → List ℕ → Option (List ℕ)) (passphrase random : List ℕ)
    (disk : DiskTakes) (files files' : PassphraseFiles) (kek : List ℕ)
    → files.salt ≡ none
    → open_or_init a argon passphrase random disk files ≡ (files', done kek)
    → (is_empty passphrase ≡ false)
      × (argon passphrase (take 16 random) ≡ some kek)
      × (files' ≡ record {
        salt = some (take 16 random);
        check = some (wrap_dek a kek sentinel (take 12 (drop 16 random)));
      })
unfolding open_or_init
first_run a argon passphrase random disk files files' kek fresh h =
    (ground arith, ground arith, ground arith)

-- A passphrase that has set up a data directory opens it again with the same key after a restart,
-- whatever the disk does then, and the files stay as they are.
pub open_or_init_again :
    (a : Aead) (argon : List ℕ → List ℕ → Option (List ℕ))
    → IsAead a
    → (passphrase random later : List ℕ) (disk disk' : DiskTakes) (files files' : PassphraseFiles)
      (kek : List ℕ)
    → 28 ≤ length random
    → files.salt ≡ none
    → open_or_init a argon passphrase random disk files ≡ (files', done kek)
    → open_or_init a argon passphrase later disk' files' ≡ (files', done kek)
unfolding open_or_init
open_or_init_again a argon laws passphrase random later disk disk' files files' kek enough fresh h =
    let (set, found, written) = first_run a argon passphrase random disk files files' kek fresh h in
    ground (
      arith,
      set,
      found,
      written,
      text_eq_refl sentinel,
      length-take 12 (drop 16 random),
      length-drop 16 random,
      unwrap_dek-wrap_dek a laws kek sentinel (take 12 (drop 16 random)) refl,
    )
