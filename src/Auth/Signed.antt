-- ===== src/Auth/Signed.antt =====
-- What an accepted signature says, for src/auth/sigv4.rs.
use kerplace.Base.{
  Text, ◌≡◌, refl, sym, Option-cases, ◌↔◌, ◌⊎◌, inl, inr, ap, ◌∙◌, Bool, true, false, if◌then◌else◌,
  Option, none, some, codes, text_eq, text_eq_iff, text_eq_refl, arith, ℤ, ◌+ℤ◌, ltb_ℤ, ◌≤ℤ◌,
}
use kerplace.Error.{
  S3Error, Result, signature_does_not_match, authorization_header_malformed, ok, err, access_denied,
  ◌>>=◌,
}
use kerplace.Http.{Method, Uri, Headers, header}
use kerplace.Iam.{Identity}
use kerplace.Iam.Store.{IamStore}
use kerplace.Iam.Sts.{StsCrypto, resolve}
use kerplace.Auth.Credentials.{ParsedAuth, Presigned, parse_authorization, ok_or}
use kerplace.Auth.SigV4.{
  SigLib, header_signature, presigned_signature, enabled_identity, verify, verify_presigned,
  presigned_claim, presigned_params, parse_amz_datetime, nanos,
}

-- A chain of calls that ends well has a first call that ended well.
pub >>=-eq-ok {ℓ κ} :
    {T : Type ℓ} {U : Type κ} (first : Result T) (next : T → Result U) {result : U}
    → (first >>= next) ≡ ok result
    → (value : T) × (first ≡ ok value) × (next value ≡ ok result)
>>=-eq-ok (err failure) next done = cc
>>=-eq-ok (ok value) next done = (value, refl, done)

ok_or-eq-ok {ℓ} : {A : Type ℓ} (o : Option A) (e : S3Error) {a : A} → ok_or o e ≡ ok a → o ≡ some a
ok_or-eq-ok none e h = cc
ok_or-eq-ok (some a) e h = cc

Result-cases {ℓ} :
    {A : Type ℓ} (m : Result A) → ((e : S3Error) × (m ≡ err e)) ⊎ ((a : A) × (m ≡ ok a))
Result-cases (ok a) = inr (a, refl)
Result-cases (err e) = inl (e, refl)

signed_choice :
    (expected given : Text) (i id : Identity) (e : S3Error)
    → (if text_eq expected given then ok i else err e) ≡ ok id
    → (i ≡ id) × (expected ≡ given)
signed_choice expected given i id e h = ground (arith, text_eq_iff expected given)

-- The choice at the end of `verify_presigned`.
timely_choice :
    (late : Bool) (expected given : Text) (i id : Identity) (e f : S3Error)
    → (if late then err e else if text_eq expected given then ok i else err f) ≡ ok id
    → (late ≡ false) × (i ≡ id) × (expected ≡ given)
timely_choice late expected given i id e f h = ground (arith, text_eq_iff expected given)

module _ (lib : SigLib) (crypto : StsCrypto) (clock : ℤ) (iam : IamStore) where
  open lib use {parse_datetime, plus_seconds, plus_seconds_exact}

  enabled_identity_iff :
      (k : Text) (id : Identity)
      → (enabled_identity lib crypto clock iam k ≡ ok id)
        ↔ ((resolve crypto clock iam k ≡ some id) × (id.enabled ≡ true))
  unfolding enabled_identity
  enabled_identity_iff k id = ground arith

  abbrev pub Accepted : Method → Uri → Headers → Identity → Type 0
  Accepted method uri headers id =
      (value : Text) × (parsed : ParsedAuth) × (date : Text) × (header headers
          (codes "authorization")
        ≡ some value)
      × (parse_authorization value ≡ ok parsed)
      × (resolve crypto clock iam parsed.scope.access_key ≡ some id)
      × (id.enabled ≡ true)
      × (header headers (codes "x-amz-date") ≡ some date)
      × (header_signature lib method uri headers parsed id.secret_key date ≡ parsed.signature)

  verify_sound :
      (method : Method) (uri : Uri) (headers : Headers) (id : Identity)
      → verify lib crypto clock iam method uri headers ≡ ok id
      → Accepted method uri headers id
  unfolding verify
  verify_sound method uri headers id h =
      let (value, v, h1) =
        >>=-eq-ok (ok_or (header headers (codes "authorization")) access_denied) _ h in
      let (parsed, a, h2) = >>=-eq-ok (parse_authorization value) _ h1 in
      let (i, b, h3) =
        >>=-eq-ok (enabled_identity lib crypto clock iam parsed.scope.access_key) _ h2 in
      let (date, d, h4) =
        >>=-eq-ok (ok_or (header headers (codes "x-amz-date")) authorization_header_malformed) _
          h3 in
      let (e, signed) = signed_choice _ parsed.signature i id _ h4 in
      let (known, on) = (enabled_identity_iff parsed.scope.access_key i).0 b in
      (
        value,
        parsed,
        date,
        ok_or-eq-ok _ _ v,
        a,
        known ∙ ap some e,
        sym (ap (λ (x : Identity). x.enabled) e) ∙ on,
        ok_or-eq-ok _ _ d,
        sym (
              ap
                (λ (x : Identity). header_signature lib method uri headers parsed x.secret_key date)
                e)
            ∙ signed,
      )

  verify_complete :
      (method : Method) (uri : Uri) (headers : Headers) (id : Identity)
      → Accepted method uri headers id
      → verify lib crypto clock iam method uri headers ≡ ok id
  unfolding verify
  verify_complete method uri headers id (value, parsed, date, v, a, known, on, d, signed) = rw (
    v,
    a,
    (enabled_identity_iff parsed.scope.access_key id).1 (known, on),
    d,
    signed,
    text_eq_refl parsed.signature,
  )

  -- `verify` accepts a request as an identity exactly if it has an `Authorization` header that
  -- parses, whose access key resolves to that identity, which is enabled, an `x-amz-date`, and the
  -- signature that the identity's secret key gives for the request.
  pub verify_iff :
      (method : Method) (uri : Uri) (headers : Headers) (id : Identity)
      → (verify lib crypto clock iam method uri headers ≡ ok id) ↔ Accepted method uri headers id
  verify_iff method uri headers id =
      (verify_sound method uri headers id, verify_complete method uri headers id)

  presigned_claim_ok :
      (uri : Uri) (p : Presigned) (id : Identity) (signed : ℤ)
      → presigned_claim lib crypto clock iam uri ≡ ok (p, id, signed)
      → (presigned_params lib uri ≡ ok p)
        × (resolve crypto clock iam p.scope.access_key ≡ some id)
        × (id.enabled ≡ true)
        × (parse_datetime p.amz_date ≡ some signed)
  unfolding presigned_claim parse_amz_datetime
  presigned_claim_ok uri p id signed h =
      let (q, a, h1) = >>=-eq-ok (presigned_params lib uri) _ h in
      let (i, b, h2) = >>=-eq-ok (enabled_identity lib crypto clock iam q.scope.access_key) _ h1 in
      let (t, c, h3) =
        >>=-eq-ok (ok_or (parse_datetime q.amz_date) authorization_header_malformed) _ h2 in
      let (known, on) = (enabled_identity_iff q.scope.access_key i).0 b in
      let d = ok_or-eq-ok (parse_datetime q.amz_date) _ c in ground arith

  -- A presigned request that is accepted has signing parameters whose access key resolves to the
  -- identity, which is enabled, and the signature of its secret key, and it comes at the latest
  -- `X-Amz-Expires` seconds after the signed time.
  pub verify_presigned_sound :
      (method : Method) (uri : Uri) (headers : Headers) (now : ℤ) (id : Identity)
      → verify_presigned lib crypto clock iam method uri headers now ≡ some (ok id)
      → (p : Presigned) × (signed : ℤ) × (presigned_params lib uri ≡ ok p)
        × (resolve crypto clock iam p.scope.access_key ≡ some id)
        × (id.enabled ≡ true)
        × (parse_datetime p.amz_date ≡ some signed)
        × (now ≤ℤ signed +ℤ nanos p.expires)
        × (presigned_signature lib method uri headers p id.secret_key ≡ p.signature)
  unfolding verify_presigned
  verify_presigned_sound method uri headers now id h =
      elim (Result-cases (presigned_claim lib crypto clock iam uri)) [
        | inl (e, c) ↦ absurd (ground arith)
        | inr ((p, i, signed), c) ↦ elim (Option-cases (plus_seconds signed p.expires)) [
          | inl n ↦ absurd (ground arith)
          | inr (until, u) ↦
              let late = ltb_ℤ until now in
              let (timely, e, same) =
                timely_choice late _ p.signature i id access_denied signature_does_not_match
                  (ground arith) in
              let exact = plus_seconds_exact signed p.expires until u in
              let (params, known, on, timed) = presigned_claim_ok uri p i signed c in
              (
                p,
                signed,
                params,
                known ∙ ap some e,
                rw (← e) on,
                timed,
                ground arith,
                rw (← e) same,
              )
        ]
      ]

  -- A presigned request that is accepted is accepted at every earlier instant too: nothing is
  -- checked against the signed time from below.
  verify_presigned_earlier :
      (method : Method) (uri : Uri) (headers : Headers) (now earlier : ℤ) (id : Identity)
      → verify_presigned lib crypto clock iam method uri headers now ≡ some (ok id)
      → earlier ≤ℤ now
      → verify_presigned lib crypto clock iam method uri headers earlier ≡ some (ok id)
  unfolding verify_presigned
  verify_presigned_earlier method uri headers now earlier id h le = ground arith
