-- ===== src/Iam/Temporary.antt =====
-- Temporary credentials: what one gateway issues every gateway with the same secret resolves, and
-- nothing else is resolved.
use kerplace.Base.{
  Text, ℕ, ◌≡◌, refl, ◌∙◌, suc, zero, ◌+◌, Bool, true, false, if◌then◌else◌, List, [], ◌∷◌, ◌++◌,
  none, some, text_eq, text_eq_iff, text_eq_refl, arith, length, length-append, length-take, take,
  drop, take_append_of, drop_append_of, ℤ, ◌+ℤ◌, ◌<ℤ◌, IsI64, to_be_bytes, from_be_bytes, leb_ℤ,
  length-to_be_bytes, from_be_bytes-to_be_bytes, strip_prefix-append, starts_with-append,
  append-strip_prefix,
}
use kerplace.Iam.{Identity, Policy, policy_name}
use kerplace.Iam.Store.{IamStore}
use kerplace.Iam.Sts.{
  StsCrypto, sts_prefix, sts_payload_len, sts_tag_len, policy_to_id, policy_from_id, sts_payload,
  sts_access_key, sts_secret_key, issue_temp, open_blob, resolve_sts, resolve, first, ◌>>=◌,
  >>=-eq-some,
}

policy_from_id-to_id : (p : Policy) → policy_from_id (policy_to_id p) ≡ some p
unfolding policy_from_id policy_to_id
policy_from_id-to_id Policy.admin = refl
policy_from_id-to_id p = refl

policy_to_id-from_id : (id : ℕ) (p : Policy) → policy_from_id id ≡ some p → id ≡ policy_to_id p
unfolding policy_from_id policy_to_id
policy_to_id-from_id id Policy.admin h = ground arith
policy_to_id-from_id id p h = ground arith

first-take : (blob : List ℕ) (n id : ℕ) → first (take n blob) ≡ some id → first blob ≡ some id
first-take [] zero id h = cc
first-take [] (suc n) id h = cc
first-take (b ∷ blob) zero id h = cc
first-take (b ∷ blob) (suc n) id h = h

-- The checks behind the tag.
named_and_fresh :
    (payload : List ℕ) (expired : Bool) (p : Policy)
    → (do id ← first payload; policy ← policy_from_id id; if expired then none else some policy)
      ≡ some p
    → (first payload ≡ some (policy_to_id p)) × (expired ≡ false)
named_and_fresh payload expired p h =
    let (id, f, h1) = >>=-eq-some (first payload) _ h in
    let (q, named, h2) = >>=-eq-some (policy_from_id id) _ h1 in
    let e : id ≡ policy_to_id q = policy_to_id-from_id id q named in (ground arith, ground arith)

length-sts_payload :
    (p : Policy) (e : ℤ) (nonce : List ℕ)
    → length nonce ≡ 8
    → length (sts_payload p e nonce) ≡ sts_payload_len
unfolding sts_payload
length-sts_payload p e nonce h =
    omega (arith, length-append (to_be_bytes e) nonce, length-to_be_bytes e)

-- The expiry that a payload carries.
expiry_of_payload :
    (p : Policy) (e : ℤ) (nonce : List ℕ)
    → IsI64 e
    → from_be_bytes (take 8 (drop 1 (sts_payload p e nonce))) ≡ e
unfolding sts_payload
expiry_of_payload p e nonce h =
    rw (take_append_of 8 (to_be_bytes e) nonce (length-to_be_bytes e))
      (from_be_bytes-to_be_bytes e h)

module _ (crypto : StsCrypto) where
  open crypto use {hmac_sha256, b64_encode, b64_decode, length-hmac_sha256, b64_decode-encode}

  length-tag :
      (s : IamStore) (m : List ℕ)
      → length (take sts_tag_len (hmac_sha256 s.root_secret m)) ≡ sts_tag_len
  length-tag s m = omega (
    arith,
    length-take sts_tag_len (hmac_sha256 s.root_secret m),
    length-hmac_sha256 s.root_secret m,
  )

  -- The checks of `open_blob`, on a blob cut where it cuts.
  open_blob_parts :
      (later : ℤ) (s : IamStore) (payload tag : List ℕ) (id : ℕ) {p : Policy}
      → length payload ≡ sts_payload_len
      → length tag ≡ sts_tag_len
      → first payload ≡ some id
      → policy_from_id id ≡ some p
      → take sts_tag_len (hmac_sha256 s.root_secret payload) ≡ tag
      → leb_ℤ (from_be_bytes (take 8 (drop 1 payload))) later ≡ false
      → open_blob crypto later s (payload ++ tag) ≡ some p
  unfolding open_blob
  open_blob_parts later s payload tag id n m f i t e =
      rw
        (
          take_append_of sts_payload_len payload tag n,
          drop_append_of sts_payload_len payload tag n,
          length-append payload tag,
          n,
          m,
          t,
          text_eq_refl tag,
          f,
        )
        (ground (arith, i, e))

  open_blob_signed :
      (later : ℤ) (s : IamStore) (p : Policy) (e : ℤ) (nonce : List ℕ)
      → length nonce ≡ 8
      → IsI64 e
      → later <ℤ e
      → open_blob crypto later s (
          sts_payload p e nonce
          ++ take sts_tag_len (hmac_sha256 s.root_secret (sts_payload p e nonce)))
        ≡ some p
  open_blob_signed later s p e nonce n r h =
      let payload = sts_payload p e nonce in
      open_blob_parts later s payload (take sts_tag_len (hmac_sha256 s.root_secret payload))
        (policy_to_id p) (length-sts_payload p e nonce n) (length-tag s payload)
        (unfold sts_payload in refl) (policy_from_id-to_id p) refl
        (rw (expiry_of_payload p e nonce r) (ground arith))

  -- The identity of a temporary credential.
  unfoldable pub temporary : IamStore → Text → Policy → Identity
  temporary s access_key p = record {
    access_key = access_key;
    secret_key = sts_secret_key crypto s access_key;
    policy = policy_name p;
    enabled = true;
    buckets = none;
  }

  resolve_sts_blob :
      (later : ℤ) (s : IamStore) (blob : List ℕ) (p : Policy)
      → open_blob crypto later s blob ≡ some p
      → resolve_sts crypto later s (sts_prefix ++ b64_encode blob)
        ≡ some (temporary s (sts_prefix ++ b64_encode blob) p)
  unfolding resolve_sts temporary
  resolve_sts_blob later s blob p h =
      rw (strip_prefix-append sts_prefix (b64_encode blob), b64_decode-encode blob, h)

  resolve_prefixed :
      (later : ℤ) (s : IamStore) (t : Text)
      → text_eq (sts_prefix ++ t) s.root_key ≡ false
      → resolve crypto later s (sts_prefix ++ t) ≡ resolve_sts crypto later s (sts_prefix ++ t)
  unfolding resolve
  resolve_prefixed later s t h = rw (h, starts_with-append sts_prefix t)

  -- Two gateways with one secret sign alike.
  access_key_shared :
      (s g : IamStore) (payload : List ℕ)
      → g.root_secret ≡ s.root_secret
      → sts_access_key crypto s payload ≡ sts_access_key crypto g payload
  unfolding sts_access_key
  access_key_shared s g payload e = rw e

  secret_key_shared :
      (s g : IamStore) (access_key : Text)
      → g.root_secret ≡ s.root_secret
      → sts_secret_key crypto g access_key ≡ sts_secret_key crypto s access_key
  unfolding sts_secret_key
  secret_key_shared s g access_key e = rw e

  resolve_own :
      (later e : ℤ) (nonce : List ℕ) (g : IamStore) (p : Policy)
      → length nonce ≡ 8
      → IsI64 e
      → later <ℤ e
      → text_eq (sts_access_key crypto g (sts_payload p e nonce)) g.root_key ≡ false
      → resolve crypto later g (sts_access_key crypto g (sts_payload p e nonce))
        ≡ some (temporary g (sts_access_key crypto g (sts_payload p e nonce)) p)
  unfolding sts_access_key
  resolve_own later e nonce g p n r h other =
      resolve_prefixed later g _ other
      ∙ resolve_sts_blob later g _ p (open_blob_signed later g p e nonce n r h)

  -- A credential that one gateway issues is resolved, until it expires, by every gateway with the
  -- same root secret, whatever its users, to the policy it was issued for and the secret key that
  -- the client was given; its access key is not the resolving gateway's root key.
  pub resolve-issue_temp :
      (now later ttl : ℤ) (nonce : List ℕ) (issuer gateway : IamStore) (p : Policy)
      → length nonce ≡ 8
      → IsI64 (now +ℤ ttl)
      → later <ℤ now +ℤ ttl
      → gateway.root_secret ≡ issuer.root_secret
      → text_eq (issue_temp crypto now nonce issuer p ttl).0 gateway.root_key ≡ false
      → (id : Identity) × (resolve crypto later gateway (issue_temp crypto now nonce issuer p ttl).0
          ≡ some id)
        × (id.policy ≡ policy_name p)
        × (id.secret_key ≡ (issue_temp crypto now nonce issuer p ttl).1)
        × (id.enabled ≡ true)
  unfolding issue_temp temporary
  resolve-issue_temp now later ttl nonce issuer gateway p n r h same other =
      let payload = sts_payload p (now +ℤ ttl) nonce in
      let shared = access_key_shared issuer gateway payload same in
      (
        temporary gateway (sts_access_key crypto issuer payload) p,
        rw shared (resolve_own later (now +ℤ ttl) nonce gateway p n r h (rw shared at other)),
        refl,
        secret_key_shared issuer gateway _ same,
        refl,
      )

  open_blob_sound :
      (now : ℤ) (s : IamStore) (blob : List ℕ) (p : Policy)
      → open_blob crypto now s blob ≡ some p
      → (length blob ≡ sts_payload_len + sts_tag_len)
        × (take sts_tag_len (hmac_sha256 s.root_secret (take sts_payload_len blob))
            ≡ drop sts_payload_len blob)
        × (now <ℤ from_be_bytes (take 8 (drop 1 (take sts_payload_len blob))))
        × (first blob ≡ some (policy_to_id p))
  unfolding open_blob
  open_blob_sound now s blob p h =
      let payload = take sts_payload_len blob in
      let expired = leb_ℤ (from_be_bytes (take 8 (drop 1 payload))) now in
      let named = named_and_fresh payload expired p in
      let same =
        text_eq_iff (take sts_tag_len (hmac_sha256 s.root_secret payload))
          (drop sts_payload_len blob) in
      let front = first-take blob sts_payload_len (policy_to_id p) in
      (ground arith, ground (arith, same), ground (arith, named), ground (arith, named, front))

  -- Whatever access key `resolve_sts` accepts is the prefix and the encoding of a payload with its
  -- tag: the tag is the one that the root secret gives, and the payload names the identity's policy
  -- and an expiry that has not passed.
  pub resolve_sts_sound :
      (now : ℤ) (s : IamStore) (access_key : Text) (id : Identity)
      → resolve_sts crypto now s access_key ≡ some id
      → (b64 : Text) × (blob : List ℕ) × (p : Policy) × (access_key ≡ sts_prefix ++ b64)
        × (b64_decode b64 ≡ some blob)
        × (length blob ≡ sts_payload_len + sts_tag_len)
        × (take sts_tag_len (hmac_sha256 s.root_secret (take sts_payload_len blob))
            ≡ drop sts_payload_len blob)
        × (now <ℤ from_be_bytes (take 8 (drop 1 (take sts_payload_len blob))))
        × (id.policy ≡ policy_name p)
        × (first blob ≡ some (policy_to_id p))
  unfolding resolve_sts
  resolve_sts_sound now s access_key id h =
      let (b64, cut, h1) = >>=-eq-some _ _ h in
      let (blob, decoded, h2) = >>=-eq-some _ _ h1 in
      let (p, opened, h3) = >>=-eq-some _ _ h2 in
      let (len, tag, fresh, named) = open_blob_sound now s blob p opened in
      (
        b64,
        blob,
        p,
        append-strip_prefix access_key sts_prefix b64 cut,
        decoded,
        len,
        tag,
        fresh,
        ground arith,
        named,
      )
