-- ===== src/Error.antt =====
-- src/error.rs: the S3 error values, and the response that a client sees for one.
pub mod Escape
use kerplace.Base.{Text, ℕ, ◌++◌, codes, List, [], ◌∷◌}
use Escape.{xml_escape}

pub data S3Error : Type 0 where
  no_such_bucket no_such_key bucket_already_owned_by_you bucket_not_empty : S3Error
  invalid_bucket_name no_such_upload invalid_part entity_too_small access_denied : S3Error
  signature_does_not_match invalid_access_key_id authorization_header_malformed : S3Error
  invalid_argument : Text → S3Error
  not_implemented : S3Error
  internal : Text → S3Error
  no_such_bucket_encryption no_such_bucket_policy no_such_lifecycle_configuration : S3Error
  object_locked no_such_version method_not_allowed : S3Error

-- `S3Error::code`
unfoldable pub error_code : S3Error → Text
error_code no_such_bucket = codes "NoSuchBucket"
error_code no_such_key = codes "NoSuchKey"
error_code bucket_already_owned_by_you = codes "BucketAlreadyOwnedByYou"
error_code bucket_not_empty = codes "BucketNotEmpty"
error_code invalid_bucket_name = codes "InvalidBucketName"
error_code no_such_upload = codes "NoSuchUpload"
error_code invalid_part = codes "InvalidPart"
error_code entity_too_small = codes "EntityTooSmall"
error_code access_denied = codes "AccessDenied"
error_code signature_does_not_match = codes "SignatureDoesNotMatch"
error_code invalid_access_key_id = codes "InvalidAccessKeyId"
error_code authorization_header_malformed = codes "AuthorizationHeaderMalformed"
error_code (invalid_argument _) = codes "InvalidArgument"
error_code not_implemented = codes "NotImplemented"
error_code (internal _) = codes "InternalError"
error_code no_such_bucket_encryption = codes "ServerSideEncryptionConfigurationNotFoundError"
error_code no_such_bucket_policy = codes "NoSuchBucketPolicy"
error_code no_such_lifecycle_configuration = codes "NoSuchLifecycleConfiguration"
error_code object_locked = codes "ObjectLocked"
error_code no_such_version = codes "NoSuchVersion"
error_code method_not_allowed = codes "MethodNotAllowed"

-- `S3Error::message`
unfoldable pub message : S3Error → Text
message no_such_bucket = codes "The specified bucket does not exist."
message no_such_key = codes "The specified key does not exist."
message bucket_already_owned_by_you =
    codes "The bucket you tried to create already exists, and you own it."
message bucket_not_empty = codes "The bucket you tried to delete is not empty."
message invalid_bucket_name = codes "The specified bucket is not valid."
message no_such_upload = codes "The specified multipart upload does not exist."
message invalid_part = codes "One or more of the specified parts could not be found."
message entity_too_small =
    codes "Your proposed upload is smaller than the minimum allowed object size."
message access_denied = codes "Access Denied."
message signature_does_not_match =
    codes "The request signature we calculated does not match the signature you provided."
message invalid_access_key_id =
    codes "The access key Id you provided does not exist in our records."
message authorization_header_malformed =
    codes "The authorization header that you provided is not valid."
message (invalid_argument m) = m
message not_implemented = codes "A header or operation you provided is not implemented."
message (internal m) = codes "We encountered an internal error: " ++ m
message no_such_bucket_encryption = codes "The server side encryption configuration was not found."
message no_such_bucket_policy = codes "The bucket policy does not exist."
message no_such_lifecycle_configuration = codes "The lifecycle configuration does not exist."
message object_locked =
    codes "Object is protected by an active lock and cannot be deleted or modified."
message no_such_version = codes "The specified version does not exist."
message method_not_allowed = codes "The specified method is not allowed against this resource."

-- `S3Error::status`, as the number of the HTTP status
unfoldable pub status : S3Error → ℕ
status no_such_bucket = 404
status no_such_key = 404
status no_such_upload = 404
status bucket_already_owned_by_you = 409
status bucket_not_empty = 409
status invalid_bucket_name = 400
status invalid_part = 400
status entity_too_small = 400
status authorization_header_malformed = 400
status (invalid_argument _) = 400
status access_denied = 403
status signature_does_not_match = 403
status invalid_access_key_id = 403
status not_implemented = 501
status (internal _) = 500
status no_such_bucket_encryption = 404
status no_such_bucket_policy = 404
status no_such_lifecycle_configuration = 404
status object_locked = 403
status no_such_version = 404
status method_not_allowed = 405

pub record Response : Type 0 where
  pub http_status : ℕ
  pub content_type : Text
  pub body : Text

-- `into_response_with_resource`; the fresh request id is an argument
unfoldable pub into_response_with_resource : Text → S3Error → Text → Response
unfolding error_code message status xml_escape
into_response_with_resource request_id e resource = record {
  http_status = status e;
  content_type = codes "application/xml";
  body =
      codes "<?xml version=\"1.0\" encoding=\"UTF-8\"?><Error><Code>"
      ++ (error_code e
          ++ (codes "</Code><Message>"
              ++ (xml_escape (message e)
                  ++ (codes "</Message><Resource>"
                      ++ (xml_escape resource
                          ++ (codes "</Resource><RequestId>"
                              ++ (request_id ++ codes "</RequestId></Error>")))))));
}

-- The values of a call that may fail with an `S3Error`, and how calls follow one another.
pub data Result {ℓ} (T : Type ℓ) : Type ℓ where
  err : S3Error → Result T
  ok : T → Result T

infixl 5 ◌>>=◌ ◌>>◌
abbrev pub ◌>>=◌ {ℓ κ} : {T : Type ℓ} {U : Type κ} → Result T → (T → Result U) → Result U
err failure >>= next = err failure
ok value >>= next = next value

abbrev pub ◌>>◌ {ℓ κ} : {T : Type ℓ} {U : Type κ} → Result T → Result U → Result U
first >> second = first >>= λ _. second
