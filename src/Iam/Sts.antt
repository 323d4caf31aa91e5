-- ===== src/Iam/Sts.antt =====
-- Stateless STS credentials of src/iam.rs: `issue_temp`, `resolve_sts` and `resolve`. HMAC-SHA256
-- and the URL-safe base64 alphabet are third-party code, a parameter with the laws relied on.
use kerplace.Base.{
  Text, ℕ, ◌≡◌, refl, ◌+◌, true, not, if◌then◌else◌, List, [], ◌∷◌, ◌++◌, Option, none, some, codes,
  text_eq, ◌==◌, lookup, starts_with, strip_prefix, as_bytes, length, take, drop, ℤ, ◌+ℤ◌, leb_ℤ,
  to_be_bytes, from_be_bytes,
}
use kerplace.Iam.{Identity, Policy, read_write, read_only, write_only, policy_name}
use kerplace.Iam.Store.{IamStore, root_identity, user_identity}

pub record StsCrypto : Type 0 where
  -- the 32-byte MAC of the data under the secret
  pub hmac_sha256 : Text → List ℕ → List ℕ
  pub b64_encode : List ℕ → Text
  pub b64_decode : Text → Option (List ℕ)
  pub length-hmac_sha256 : (secret : Text) (m : List ℕ) → length (hmac_sha256 secret m) ≡ 32
  pub b64_decode-encode : (bytes : List ℕ) → b64_decode (b64_encode bytes) ≡ some bytes

abbrev pub sts_prefix : Text
sts_prefix = codes "KPSTS"

abbrev pub sts_payload_len : ℕ
sts_payload_len = 17

abbrev pub sts_tag_len : ℕ
sts_tag_len = 16

unfoldable pub policy_to_id : Policy → ℕ
policy_to_id Policy.admin = 1
policy_to_id read_write = 2
policy_to_id read_only = 3
policy_to_id write_only = 4

unfoldable pub policy_from_id : ℕ → Option Policy
policy_from_id id =
    if id == 1
    then some Policy.admin
    else if id == 2
    then some read_write
    else if id == 3
    then some read_only
    else if id == 4
    then some write_only
    else none

infixl 5 ◌>>=◌
abbrev pub ◌>>=◌ {ℓ κ} : {A : Type ℓ} {B : Type κ} → Option A → (A → Option B) → Option B
none >>= f = none
some a >>= f = f a

pub >>=-eq-some {ℓ κ} :
    {T : Type ℓ} {U : Type κ} (head : Option T) (next : T → Option U) {result : U}
    → (head >>= next) ≡ some result
    → (value : T) × (head ≡ some value) × (next value ≡ some result)
>>=-eq-some none next done = cc
>>=-eq-some (some value) next done = (value, refl, done)

abbrev pub first : List ℕ → Option ℕ
first [] = none
first (b ∷ bs) = some b

-- The payload `policy_id(1) ‖ expiry_be(8) ‖ nonce(8)`.
unfoldable pub sts_payload : Policy → ℤ → List ℕ → List ℕ
sts_payload policy expiry nonce = policy_to_id policy ∷ (to_be_bytes expiry ++ nonce)

module _ (crypto : StsCrypto) where
  open crypto use {hmac_sha256, b64_encode, b64_decode}

  unfoldable pub sts_access_key : IamStore → List ℕ → Text
  sts_access_key s payload =
      sts_prefix ++ b64_encode (payload ++ take sts_tag_len (hmac_sha256 s.root_secret payload))

  -- the secret key is derived from the access key
  unfoldable pub sts_secret_key : IamStore → Text → Text
  sts_secret_key s access_key = b64_encode (hmac_sha256 s.root_secret (as_bytes access_key))

  -- `issue_temp`; the clock and the eight random bytes are arguments
  unfoldable pub issue_temp : ℤ → List ℕ → IamStore → Policy → ℤ → Text × Text × ℤ
  issue_temp now nonce s policy ttl_secs =
      let expiry = now +ℤ ttl_secs in
      let access_key = sts_access_key s (sts_payload policy expiry nonce) in
      (access_key, sts_secret_key s access_key, expiry)

  -- the checks on the decoded blob
  unfoldable pub open_blob : ℤ → IamStore → List ℕ → Option Policy
  open_blob now s blob =
      let payload = take sts_payload_len blob in
      let tag = drop sts_payload_len blob in
      let expiry = from_be_bytes (take 8 (drop 1 payload)) in
      if not (length blob == sts_payload_len + sts_tag_len)
      then none
      else if not (text_eq (take sts_tag_len (hmac_sha256 s.root_secret payload)) tag)
      then none
      else do
        id ← first payload
        policy ← policy_from_id id
        if leb_ℤ expiry now then none else some policy

  unfoldable pub resolve_sts : ℤ → IamStore → Text → Option Identity
  resolve_sts now s access_key = do
    b64 ← strip_prefix access_key sts_prefix
    blob ← b64_decode b64
    policy ← open_blob now s blob
    some (record {
      access_key = access_key;
      secret_key = sts_secret_key s access_key;
      policy = policy_name policy;
      enabled = true;
      buckets = none;
    })

  unfoldable pub resolve : ℤ → IamStore → Text → Option Identity
  resolve now s access_key =
      if text_eq access_key s.root_key
      then some (root_identity s)
      else if starts_with access_key sts_prefix
      then resolve_sts now s access_key
      else elim (lookup access_key s.users) [
        | none ↦ none
        | some u ↦ some (user_identity access_key u)
      ]
