-- ===== src/Auth.antt =====
-- src/auth/mod.rs: the middleware in front of every handler. The handlers are a parameter.
pub mod Chunked
pub mod Credentials
pub mod SigV4
pub mod Guard
pub mod Signed
use kerplace.Base.{
  Text, ℕ, Bool, true, false, not, ◌&&◌, ◌||◌, if◌then◌else◌, List, [], ◌∷◌, Option, none, some,
  codes, text_eq, is_empty, split, starts_with, contains, trim, ℤ,
}
use kerplace.Error.{S3Error, Result, ok, err, access_denied, Response, into_response_with_resource}
use kerplace.Http.{Method, Uri, Headers, header, has_header}
use kerplace.Iam.{Identity, action_for, from_name, allows, allows_bucket, bucket_for}
use kerplace.Iam.Store.{IamStore}
use kerplace.Iam.Sts.{StsCrypto}
use kerplace.Audit.{AuditContext, no_context}
use kerplace.AccessLog.{AccessEntry, entry_for}
use Chunked.{decode_aws_chunked}
use SigV4.{SigLib, verify, verify_presigned}

-- A request, with what the middleware reads of its extensions.
pub record Request : Type 0 where
  pub method : Method
  pub uri : Uri
  pub headers : Headers
  pub body : List ℕ
  pub peer : Option Text
  pub identity : Option Identity

-- What the middleware reads of the application's state, of the clock (in nanoseconds and, as
-- `IamStore` does, in seconds) and of the random source.
pub record AppState : Type 0 where
  pub auth_enabled : Bool
  pub iam : IamStore
  pub access_log : Bool
  pub now : ℤ
  pub seconds : ℤ
  pub timestamp : Text
  pub request_id : Text

unfoldable pub is_aws_chunked : Headers → Bool
unfolding starts_with header
is_aws_chunked headers = elim (header headers (codes "x-amz-content-sha256")) [
  | none ↦ false
  | some v ↦ starts_with v (codes "STREAMING-")
]

-- Paths that bypass authentication: the health checks, and the token service at `POST /`.
unfoldable pub is_health : Text → Bool
unfolding starts_with
is_health path =
    starts_with path (codes "/kerplace/health") || starts_with path (codes "/minio/health")

abbrev is_post : Method → Bool
is_post Method.post = true
is_post _ = false

unfoldable pub is_sts : Request → Bool
unfolding text_eq
is_sts req = text_eq req.uri.path (codes "/") && is_post req.method

abbrev first_hop : List Text → Option Text
first_hop [] = none
first_hop (hop ∷ _) = if is_empty (trim hop) then none else some (trim hop)

abbrev forwarded_hop : Option Text → Option Text
forwarded_hop none = none
forwarded_hop (some v) = first_hop (split b',' v)

abbrev or_else : Option Text → Option Text → Option Text
or_else none b = b
or_else (some a) b = some a

unfoldable pub remote_ip : Request → Option Text
unfolding header split trim
remote_ip req = or_else (forwarded_hop (header req.headers (codes "x-forwarded-for"))) req.peer

unfoldable pub dechunked : Request → Request
unfolding is_aws_chunked decode_aws_chunked
dechunked req =
    if is_aws_chunked req.headers then record req { body = decode_aws_chunked req.body } else req

-- How the middleware ends: without calling a handler, with the response of the handler that was
-- called with a request in an audit context, or by a panic. `lines` is what the access log gets.
pub data Reply : Type 0 where
  refused : Response → (lines : List AccessEntry) → Reply
  served : Request → AuditContext → Response → (lines : List AccessEntry) → Reply
  panicked : Reply

unfoldable pub log_access : AppState → Request → AuditContext → Response → List AccessEntry
log_access state req ctx res =
    if state.access_log
    then entry_for state.timestamp req.method req.uri ctx res.http_status ∷ []
    else []

unfoldable pub refuse : AppState → Request → AuditContext → S3Error → Reply
unfolding log_access
refuse state req ctx e =
    let res = into_response_with_resource state.request_id e req.uri.path in
    refused res (log_access state req ctx res)

abbrev has_signature : Option Text → Bool
has_signature none = false
has_signature (some q) = contains q (codes "X-Amz-Signature")

module _ (lib : SigLib) (crypto : StsCrypto) where
  -- the choice between the header, the query and nothing
  unfoldable pub authenticate : AppState → Request → Option (Result Identity)
  unfolding has_header contains
  authenticate state req =
      if has_header req.headers (codes "authorization")
      then some (verify lib crypto state.seconds state.iam req.method req.uri req.headers)
      else if has_signature req.uri.query
      then verify_presigned lib crypto state.seconds state.iam req.method req.uri req.headers
          state.now
      else some (err access_denied)

  module _ (next : AuditContext → Request → Response) where
    -- the end of the middleware: the handler in its audit context, and the record of it
    unfoldable pub forward : AppState → Request → AuditContext → Reply
    unfolding log_access
    forward state req ctx =
        let inner = dechunked req in
        let res = next ctx inner in served inner ctx res (log_access state req ctx res)

    -- the policy (what) and the scope (where) of a verified identity
    unfoldable pub authorize : AppState → Request → Identity → Reply
    authorize state req identity =
        let ctx : AuditContext = record {
          access_key = some identity.access_key;
          remote_ip = remote_ip req;
        } in
        if not (allows (from_name identity.policy) (action_for req.method req.uri.path))
        then refuse state req ctx access_denied
        else if not (allows_bucket identity (bucket_for req.uri.path))
        then refuse state req ctx access_denied
        else forward state (record req { identity = some identity }) ctx

    unfoldable pub auth_middleware : AppState → Request → Reply
    auth_middleware state req =
        let ctx : AuditContext = record { access_key = none; remote_ip = remote_ip req } in
        if is_health req.uri.path || is_sts req
        then served req no_context (next no_context req) []
        else if state.auth_enabled
        then elim (authenticate state req) [
          | none ↦ panicked
          | some (err e) ↦ refuse state req ctx e
          | some (ok identity) ↦ authorize state req identity
        ]
        else forward state req ctx
