-- ===== src/Tests/Requests.antt =====
-- Examples for requests: signatures, the middleware and the chunk framing.
use kerplace.Base.{
  ◌≡◌, ◌≢◌, refl, ap, true, false, [], ◌∷◌, none, some, codes, text_eq, starts_with, strip_prefix,
  lookup, ℤ, pos, ◌+ℤ◌, ◌≤ℤ◌, arith, to_ascii_lowercase, split, split_once, trim,
  trim_start_matches, trim_end_matches, is_whitespace, contains_key, filter, sort_by, insert_by,
  parse_digits, digit_value, to_ascii_lower, from_utf8, parse_unsigned, after_sign, any,
}
use kerplace.Error.{ok, Response}
use kerplace.Http.{Uri, Headers, header, has_header}
use kerplace.Http
use kerplace.Iam.{Identity, policy_name, action_for, from_name, allows, allows_bucket, bucket_for}
use kerplace.Iam.Store.{root_identity}
use kerplace.Iam.Sts.{resolve}
use kerplace.Audit.{AuditContext}
use kerplace.AccessLog.{AccessEntry, entry_for}
use kerplace.Auth.{
  Request, AppState, served, auth_middleware, authenticate, authorize, forward, dechunked,
  is_health, is_sts, is_aws_chunked, remote_ip, log_access,
}
use kerplace.Auth.Credentials.{
  Presigned, parse_authorization, auth_parts, auth_part, parse_scope, parse_signed_headers,
  raw_pairs, find_param, parse_i64,
}
use kerplace.Auth.SigV4.{
  nanos, verify, verify_presigned, enabled_identity, header_signature, expected_signature,
  presigned_claim, presigned_params, parse_amz_datetime, presigned_signature,
}
use kerplace.Auth.Signed.{Accepted, verify_iff, verify_presigned_sound}
use kerplace.Auth.Guard.{lines_of, status_of, served_authorized, logged_once}
use kerplace.Auth.Chunked.{decode_aws_chunked, pump, chunk_header, size_hex}
use kerplace.Auth.Chunked.Framing.{
  Frame, IsFrame, AreFrames, IsLine, header_line, wire, payload, cut, decode_aws_chunked-wire,
  pump_ends,
}
use kerplace.Tests.Fixtures.{toy_crypto, toy_lib, small_store}

abbrev signed_headers : Headers
signed_headers =
    (
      codes "authorization",
      some (codes "AWS4-HMAC-SHA256 Credential=root/d/r/s/a,SignedHeaders=host,Signature="),
    )
    ∷ (codes "x-amz-date", some (codes "20260101T000000Z"))
    ∷ []

abbrev plain_uri : Uri
plain_uri = record { path = codes "/logs/a"; query = none }

abbrev root : Identity
root = root_identity small_store

root_verified :
    verify toy_lib toy_crypto (pos 0) small_store Http.get plain_uri signed_headers ≡ ok root
unfolding verify header lookup to_ascii_lowercase to_ascii_lower text_eq parse_authorization
    strip_prefix trim_start_matches is_whitespace split auth_parts auth_part trim trim_end_matches
    parse_scope parse_signed_headers sort_by insert_by enabled_identity resolve root_identity
    header_signature expected_signature
root_verified = refl

verify_iff_example :
    Accepted toy_lib toy_crypto (pos 0) small_store Http.get plain_uri signed_headers root
verify_iff_example =
    (verify_iff toy_lib toy_crypto (pos 0) small_store Http.get plain_uri signed_headers root).0
      root_verified

abbrev presigned_uri : Uri
presigned_uri = record {
  path = codes "/logs/a";
  query = some (
      codes
        "X-Amz-Credential=root/d/r/s/a&X-Amz-Date=now&X-Amz-Expires=60&X-Amz-SignedHeaders=host&X-Amz-Signature=");
}

presigned_accepted :
    verify_presigned toy_lib toy_crypto (pos 0) small_store Http.get presigned_uri [] (pos 50)
    ≡ some (ok root)
unfolding verify_presigned presigned_claim presigned_params raw_pairs find_param parse_i64
    parse_digits digit_value split split_once filter text_eq parse_scope parse_signed_headers
    enabled_identity resolve root_identity parse_amz_datetime presigned_signature expected_signature
    ◌+ℤ◌
presigned_accepted = refl

verify_presigned_sound_example :
    (p : Presigned) × (signed : ℤ) × (presigned_params toy_lib presigned_uri ≡ ok p)
    × (resolve toy_crypto (pos 0) small_store p.scope.access_key ≡ some root)
    × (root.enabled ≡ true)
    × (some (pos 0) ≡ some signed)
    × (pos 50 ≤ℤ signed +ℤ nanos p.expires)
    × (presigned_signature toy_lib Http.get presigned_uri [] p root.secret_key ≡ p.signature)
verify_presigned_sound_example =
    verify_presigned_sound toy_lib toy_crypto (pos 0) small_store Http.get presigned_uri [] (pos 50)
      root presigned_accepted

abbrev answer : AuditContext → Request → Response
answer ctx req = record { http_status = 200; content_type = []; body = req.body }

abbrev request : Request
request = record {
  method = Http.get;
  uri = plain_uri;
  headers = signed_headers;
  body = 1 ∷ 2 ∷ [];
  peer = some (codes "10.0.0.1");
  identity = none;
}

abbrev state : AppState
state = record {
  auth_enabled = true;
  iam = small_store;
  access_log = true;
  now = pos 0;
  seconds = pos 0;
  timestamp = codes "t";
  request_id = codes "r";
}

not_health : is_health request.uri.path ≡ false
unfolding is_health starts_with
not_health = refl

not_sts : is_sts request ≡ false
unfolding is_sts text_eq
not_sts = refl

abbrev inner : Request
inner = record request { identity = some root }

abbrev who : AuditContext
who = record { access_key = some (codes "root"); remote_ip = some (codes "10.0.0.1") }

plain_request : dechunked inner ≡ inner
unfolding dechunked is_aws_chunked header lookup text_eq to_ascii_lowercase to_ascii_lower
plain_request = refl

root_authenticated : authenticate toy_lib toy_crypto state request ≡ some (ok root)
unfolding authenticate has_header contains_key lookup text_eq to_ascii_lowercase to_ascii_lower
root_authenticated = ap some root_verified

root_authorized :
    authorize toy_lib toy_crypto answer state request root
    ≡ served inner who (answer who inner) (entry_for (codes "t") Http.get plain_uri who 200 ∷ [])
unfolding authorize root_identity policy_name action_for starts_with from_name trim
    trim_start_matches trim_end_matches is_whitespace to_ascii_lowercase to_ascii_lower text_eq
    allows allows_bucket bucket_for split any remote_ip header lookup forward dechunked
    is_aws_chunked log_access
root_authorized = refl

request_served :
    auth_middleware toy_lib toy_crypto answer state request
    ≡ served inner who (answer who inner) (entry_for (codes "t") Http.get plain_uri who 200 ∷ [])
unfolding auth_middleware
request_served = rw (not_health, not_sts, root_authenticated) root_authorized

served_authorized_example :
    (id : Identity) × (authenticate toy_lib toy_crypto state request ≡ some (ok id))
    × (allows (from_name id.policy) (action_for Http.get (codes "/logs/a")) ≡ true)
    × (allows_bucket id (bucket_for (codes "/logs/a")) ≡ true)
    × (inner ≡ dechunked (record request { identity = some id }))
    × (some (codes "root") ≡ some id.access_key)
    × (answer who inner ≡ answer who inner)
served_authorized_example =
    served_authorized toy_lib toy_crypto answer state request inner who (answer who inner)
      (entry_for (codes "t") Http.get plain_uri who 200 ∷ []) refl not_health not_sts request_served

answered : status_of (auth_middleware toy_lib toy_crypto answer state request) ≡ some 200
unfolding status_of
answered = rw request_served

logged_once_example :
    (line : AccessEntry) × (lines_of (auth_middleware toy_lib toy_crypto answer state request)
      ≡ line ∷ [])
    × (line.status ≡ 200)
    × (line.ts ≡ codes "t")
    × (line.method ≡ Http.method_name Http.get)
    × (line.bucket ≡ bucket_for plain_uri.path)
    × (line.remote_ip ≡ remote_ip request)
logged_once_example =
    logged_once toy_lib toy_crypto answer state request 200 refl not_health not_sts answered

-- an object in a bucket named `minio`, whose key starts like the health checks
abbrev health_like : Request
health_like = record request { uri = record { path = codes "/minio/health-data"; query = none } }

health_like_path : is_health health_like.uri.path ≡ true
unfolding is_health starts_with
health_like_path = refl

abbrev frame : Frame
frame = record { line = codes "2;chunk-signature=x"; bytes = 104 ∷ 105 ∷ [] }

one_frame : AreFrames (frame ∷ [])
unfolding AreFrames IsFrame IsLine chunk_header header_line from_utf8 size_hex trim_end_matches
    trim_start_matches split trim is_whitespace parse_unsigned parse_digits digit_value after_sign
one_frame = (
  (
    (
      refl,
      (
        refl,
        (
          refl,
          (
            refl,
            (
              refl,
              (
                refl,
                (
                  refl,
                  (
                    refl,
                    (
                      refl,
                      (
                        refl,
                        (
                          refl,
                          (
                            refl,
                            (refl, (refl, (refl, (refl, (refl, (refl, (refl, omega arith))))))),
                          ),
                        ),
                      ),
                    ),
                  ),
                ),
              ),
            ),
          ),
        ),
      ),
    ),
    refl,
  ),
  omega arith,
)

decode_aws_chunked-wire_example : decode_aws_chunked (wire (frame ∷ []) []) ≡ payload (frame ∷ [])
decode_aws_chunked-wire_example = decode_aws_chunked-wire (frame ∷ []) cut one_frame

pump_ends_example : pump 3 (codes "0\n") ≢ none
pump_ends_example = pump_ends 3 (codes "0\n") (omega arith)
