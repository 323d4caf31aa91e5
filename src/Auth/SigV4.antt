-- ===== src/Auth/SigV4.antt =====
-- src/auth/sigv4.rs: AWS Signature Version 4 in the `Authorization` header and in the query. SHA-256,
-- HMAC, percent coding and the clock's calendar are third-party code, a parameter.
use kerplace.Base.{
  Text, ℕ, suc, ◌-◌, not, if◌then◌else◌, List, [], ◌∷◌, ◌++◌, map, Option, none, some, codes,
  text_eq, is_empty, split, split_once, join, filter, sort_by, as_bytes, unwrap_or, ℤ, pos, negsuc,
  ltb_ℤ, ◌+ℤ◌, ◌≡◌, ◌*◌,
}
use kerplace.Error.{
  Result, ok, err, access_denied, invalid_access_key_id, authorization_header_malformed,
  signature_does_not_match, ◌>>=◌,
}
use kerplace.Http.{Method, method_name, Uri, Headers, header}
use kerplace.Iam.{Identity}
use kerplace.Iam.Store.{IamStore}
use kerplace.Iam.Sts.{StsCrypto, resolve}
use kerplace.Auth.Credentials.{
  parse_i64, ok_or, Scope, ParsedAuth, parse_scope, parse_signed_headers, parse_authorization,
  pair_of, pair_ltb, find_param, canonical_headers, raw_pairs, Presigned,
}

-- Instants are nanoseconds since the epoch.
abbrev pub nanos : ℤ → ℤ
nanos (pos n) = pos (n * 1000000000)
nanos (negsuc n) = negsuc (suc n * 1000000000 - 1)

abbrev pub parsed_number : (Text → Option ℤ) → Option Text → Option ℤ
parsed_number parse none = none
parsed_number parse (some t) = parse t

pub record SigLib : Type 0 where
  pub sha256 : List ℕ → List ℕ
  pub hmac_sha256 : List ℕ → List ℕ → List ℕ
  pub hex_encode : List ℕ → Text
  -- `percent_decode_str(s).decode_utf8_lossy()`
  pub percent_decode : Text → Text
  -- `utf8_percent_encode` with the set `SIGV4_UNRESERVED`
  pub percent_encode : Text → Text
  -- `PrimitiveDateTime::parse` with the format `AMZ_DATETIME`
  pub parse_datetime : Text → Option ℤ
  -- `t + Duration::seconds(n)`, which panics where the date leaves the calendar
  pub plus_seconds : ℤ → ℤ → Option ℤ
  pub plus_seconds_exact : (t n u : ℤ) → plus_seconds t n ≡ some u → u ≡ t +ℤ nanos n

module _ (lib : SigLib) where
  open lib use {
    sha256, hmac_sha256, hex_encode, percent_decode, percent_encode, parse_datetime, plus_seconds,
  }

  unfoldable pub sha256_hex : List ℕ → Text
  sha256_hex bytes = hex_encode (sha256 bytes)

  unfoldable pub derive_signing_key : Text → Text → Text → Text → List ℕ
  unfolding as_bytes
  derive_signing_key secret date region service =
      let k_date = hmac_sha256 (as_bytes (codes "AWS4" ++ secret)) (as_bytes date) in
      let k_region = hmac_sha256 k_date (as_bytes region) in
      let k_service = hmac_sha256 k_region (as_bytes service) in
      hmac_sha256 k_service (as_bytes (codes "aws4_request"))

  unfoldable pub sigv4_encode_token : Text → Text
  sigv4_encode_token token = percent_encode (percent_decode token)

  unfoldable pub canonical_query_from_pairs : List (Text × Text) → Text
  unfolding join sort_by pair_ltb
  canonical_query_from_pairs pairs = join (codes "&") (
      map (λ p. p.0 ++ (codes "=" ++ p.1))
        (sort_by pair_ltb (map (λ p. (sigv4_encode_token p.0, sigv4_encode_token p.1)) pairs)))

  unfoldable pub build_canonical_query : Option Text → Text
  unfolding split split_once
  build_canonical_query none = []
  build_canonical_query (some q) =
      if is_empty q then [] else canonical_query_from_pairs (map pair_of (split b'&' q))

  unfoldable pub canonical_request : Method → Text → Text → Headers → List Text → Text → Text
  unfolding method_name join canonical_headers
  canonical_request method path query headers signed payload = join (codes "\n") (
      method_name method
      ∷ path
      ∷ query
      ∷ canonical_headers headers signed
      ∷ join (codes ";") signed
      ∷ payload
      ∷ [])

  -- the signature expected for a canonical request
  unfoldable pub expected_signature : Text → Text → Scope → Text → Text
  unfolding join as_bytes
  expected_signature secret amz_date scope request =
      let scope_str =
        join (codes "/") (scope.date ∷ scope.region ∷ scope.service ∷ codes "aws4_request" ∷ []) in
      let string_to_sign =
        join (codes "\n")
          (codes "AWS4-HMAC-SHA256" ∷ amz_date ∷ scope_str ∷ sha256_hex (as_bytes request) ∷ []) in
      hex_encode (
        hmac_sha256 (derive_signing_key secret scope.date scope.region scope.service)
          (as_bytes string_to_sign))

  -- the part of `verify` that builds the canonical request
  unfoldable pub header_signature : Method → Uri → Headers → ParsedAuth → Text → Text → Text
  unfolding header
  header_signature method uri headers parsed secret amz_date =
      expected_signature secret amz_date parsed.scope (
        canonical_request method uri.path (build_canonical_query uri.query) headers
          parsed.signed_headers
          (unwrap_or (header headers (codes "x-amz-content-sha256")) (codes "UNSIGNED-PAYLOAD")))

  unfoldable pub parse_amz_datetime : Text → Result ℤ
  parse_amz_datetime s = ok_or (parse_datetime s) authorization_header_malformed

  abbrev decoded : Option Text → Option Text
  decoded none = none
  decoded (some v) = some (percent_decode v)

  -- the signing parameters, read from the query
  unfoldable pub presigned_params : Uri → Result Presigned
  unfolding raw_pairs find_param parse_i64
  presigned_params uri = do
    let get = (λ (key : Text). decoded (find_param key (raw_pairs uri)))
    credential ← ok_or (get (codes "X-Amz-Credential")) access_denied
    amz_date ← ok_or (get (codes "X-Amz-Date")) authorization_header_malformed
    expires ←
        ok_or (parsed_number parse_i64 (get (codes "X-Amz-Expires"))) authorization_header_malformed
    signed ← ok_or (get (codes "X-Amz-SignedHeaders")) authorization_header_malformed
    signature ← ok_or (get (codes "X-Amz-Signature")) access_denied
    scope ← parse_scope credential
    ok (record {
      scope = scope;
      amz_date = amz_date;
      expires = expires;
      signed_headers = signed;
      signature = signature;
    })

  -- the part of `verify_presigned` that builds the canonical request
  unfoldable pub presigned_signature : Method → Uri → Headers → Presigned → Text → Text
  unfolding raw_pairs filter text_eq
  presigned_signature method uri headers p secret = expected_signature secret p.amz_date p.scope (
      canonical_request method uri.path
        (canonical_query_from_pairs
          (filter (λ kv. not (text_eq kv.0 (codes "X-Amz-Signature"))) (raw_pairs uri)))
        headers (parse_signed_headers p.signed_headers) (codes "UNSIGNED-PAYLOAD"))

  module _ (crypto : StsCrypto) (clock : ℤ) (iam : IamStore) where
    -- `iam.resolve` and the test of the identity; `clock` is the second at which `resolve` runs
    unfoldable pub enabled_identity : Text → Result Identity
    enabled_identity access_key = do
      identity ← ok_or (resolve crypto clock iam access_key) invalid_access_key_id
      if identity.enabled then ok identity else err access_denied

    unfoldable pub verify : Method → Uri → Headers → Result Identity
    verify method uri headers = do
      auth_value ← ok_or (header headers (codes "authorization")) access_denied
      parsed ← parse_authorization auth_value
      identity ← enabled_identity parsed.scope.access_key
      amz_date ← ok_or (header headers (codes "x-amz-date")) authorization_header_malformed
      if text_eq (header_signature method uri headers parsed identity.secret_key amz_date)
            parsed.signature
          then ok identity
          else err signature_does_not_match

    -- what `verify_presigned` knows when it looks at the time
    unfoldable pub presigned_claim : Uri → Result (Presigned × Identity × ℤ)
    presigned_claim uri = do
      p ← presigned_params uri
      identity ← enabled_identity p.scope.access_key
      signed_time ← parse_amz_datetime p.amz_date
      ok (p, identity, signed_time)

    -- `none` is a panic of the date arithmetic.
    unfoldable pub verify_presigned : Method → Uri → Headers → ℤ → Option (Result Identity)
    verify_presigned method uri headers now = elim (presigned_claim uri) [
      | err e ↦ some (err e)
      | ok (p, identity, signed_time) ↦ elim (plus_seconds signed_time p.expires) [
        | none ↦ none
        | some until ↦ some (
            if ltb_ℤ until now
            then err access_denied
            else if text_eq (presigned_signature method uri headers p identity.secret_key)
                p.signature
            then ok identity
            else err signature_does_not_match)
      ]
    ]
