-- ===== src/Handlers/Batch.antt =====
-- src/handlers/bucket.rs: the requests with POST on a bucket: the batch deletion, and an HTML form's
-- upload, whose fields a third-party parser gives.
use kerplace.Base.{
  Text, ℕ, ◌||◌, ◌&&◌, ◌++◌, ◌*◌, ◌^◌, Bool, not, if◌then◌else◌, List, [], ◌∷◌, Option, none, some,
  codes, contains_key, contains, contains_char, text_eq, unwrap_or, Outcome, done, failed, Dict,
}
use kerplace.Http.{Headers, header}
use kerplace.Error.{Result, ok, err, status, error_code, message, not_implemented, invalid_argument}
use kerplace.Storage.{DeleteOutcome}
use kerplace.Handlers.{
  ObjectStore, Web, Reply, plain, xml_response, refused, invalid, body_text, resource_of,
  resource_of_bucket, reply, parse_query, is_sealed, quote_etag, delete_result, post_response,
}

-- A key that is gone, or why it is not: its error's code and message.
abbrev pub DeleteRow : Type 0
DeleteRow = Text × Option (Text × Text)

unfoldable pub row_of : Text → Result DeleteOutcome → DeleteRow
unfolding error_code message
row_of key (ok _) = (key, none)
row_of key (err e) = (key, some (error_code e, message e))

-- The rows of an answer: the keys that are gone, and the errors.
unfoldable pub deleted_of : List DeleteRow → List Text
deleted_of [] = []
deleted_of ((key, none) ∷ rows) = key ∷ deleted_of rows
deleted_of ((key, some e) ∷ rows) = deleted_of rows

unfoldable pub errors_of : List DeleteRow → List (Text × (Text × Text))
errors_of [] = []
errors_of ((key, none) ∷ rows) = errors_of rows
errors_of ((key, some e) ∷ rows) = (key, e) ∷ errors_of rows

-- A field of a form: its name, its file's name, its text where it has one, and its bytes.
pub record Field : Type 0 where
  pub name : Option Text
  pub file_name : Option Text
  pub text : Option Text
  pub content : List ℕ

-- What the fields before the file have said.
pub record Form : Type 0 where
  pub key : Option Text
  pub object_ct : Text
  pub success_redirect : Option Text
  pub success_status : Option Text

-- `multer`, and `str::replace`
pub record FormParser : Type 0 where
  pub parse_boundary : Text → Option Text
  pub fields : Text → List ℕ → List Field
  pub replace : Text → Text → Text → Text

abbrev no_form : Form
no_form = record {
  key = none;
  object_ct = codes "application/octet-stream";
  success_redirect = none;
  success_status = none;
}

-- A text field that comes before the file.
unfoldable pub fill : Text → Text → Form → Form
unfolding text_eq
fill name value form =
    if text_eq name (codes "key")
    then record form { key = some value }
    else if text_eq name (codes "Content-Type")
    then record form { object_ct = value }
    else if text_eq name (codes "success_action_redirect")
    then record form { success_redirect = some value }
    else if text_eq name (codes "success_action_status")
    then record form { success_status = some value }
    else form

unfoldable pub resolved_key : FormParser → Field → Text → Text
unfolding contains
resolved_key parser field k =
    if contains k (codes "${filename}")
    then parser.replace k (codes "${filename}") (unwrap_or field.file_name (codes "upload"))
    else k

unfoldable pub build_post_response : Web → Text → Text → Text → Option Text → Option Text → Reply
unfolding xml_response contains_char text_eq quote_etag
build_post_response web bucket key etag (some url) status =
    let sep = if contains_char b'?' url then codes "&" else codes "?" in
    let enc_etag = web.encode_all (quote_etag etag) in
    let query =
      codes "bucket=" ++ (bucket ++ (codes "&key=" ++ (key ++ (codes "&etag=" ++ enc_etag)))) in
    record (plain 303) { headers = (codes "location", url ++ (sep ++ query)) ∷ [] }
build_post_response web bucket key etag none none = plain 204
build_post_response web bucket key etag none (some s) =
    let doc = post_response (resource_of bucket key) bucket key (quote_etag etag) in
    if text_eq s (codes "201")
    then xml_response 201 doc
    else if text_eq s (codes "200")
    then xml_response 200 doc
    else plain 204

module _ {S : Type 0} (store : ObjectStore S) (web : Web) where
  -- The keys in order, each deleted whatever became of those before it.
  unfoldable pub delete_each : Text → List Text → S → S × List DeleteRow
  unfolding row_of
  delete_each bucket [] s = (s, [])
  delete_each bucket (key ∷ keys) s =
      let (s1, r) = store.delete_object bucket key s in
      let (s2, rows) = delete_each bucket keys s1 in (s2, row_of key r ∷ rows)

  abbrev pub delete_all : Text → Outcome Text (Bool × List Text) → S → S × Reply
  unfolding delete_each refused deleted_of errors_of xml_response
  delete_all bucket (failed e) s = (
    s,
    refused (invalid_argument (codes "malformed Delete body: " ++ e)) (resource_of_bucket bucket),
  )
  delete_all bucket (done (quiet, keys)) s =
      let (s', rows) = delete_each bucket keys s in
      (
        s',
        xml_response 200 (delete_result (if quiet then [] else deleted_of rows) (errors_of rows)),
      )

  unfoldable pub post_bucket_inner : Text → Dict Text → Text → S → S × Reply
  unfolding contains_key delete_each refused deleted_of errors_of xml_response
  post_bucket_inner bucket params body s =
      if not (contains_key (codes "delete") params)
      then (s, refused not_implemented (resource_of_bucket bucket))
      else delete_all bucket (web.parse_delete body) s

  module _ (parser : FormParser) (encryption_enabled : Bool) where
    abbrev upload : Text → Form → Field → Option Text → S → S × Reply
    upload bucket form field none s = (s, invalid "missing 'key' field" (resource_of_bucket bucket))
    upload bucket form field (some k) s =
        let key = resolved_key parser field k in
        let (s', default) = store.get_bucket_encryption bucket s in
        reply (resource_of bucket key)
          (store.put_object bucket key field.content form.object_ct []
            (is_sealed default || encryption_enabled) s')
          (λ meta.
            build_post_response web bucket key meta.etag form.success_redirect form.success_status)

    abbrev told : Text → Option Text → Form → Form
    told name none form = form
    told name (some value) form = fill name value form

    -- The fields up to the file, which ends the request.
    unfoldable pub read_form : Text → List Field → Form → S → S × Reply
    unfolding text_eq resolved_key is_sealed build_post_response fill refused
    read_form bucket [] form s =
        (s, invalid "missing 'file' field in multipart form" (resource_of_bucket bucket))
    read_form bucket (field ∷ fields) form s =
        let name = unwrap_or field.name [] in
        let rest = read_form bucket fields (told name field.text form) s in
        if text_eq name (codes "file") then upload bucket form field form.key s else rest

    unfoldable pub post_form_object : Text → Text → List ℕ → S → S × Reply
    unfolding read_form refused
    post_form_object bucket content_type body s = elim (parser.parse_boundary content_type) [
      | none ↦ (s, invalid "missing multipart boundary" (resource_of_bucket bucket))
      | some boundary ↦ read_form bucket (parser.fields boundary body) no_form s
    ]

    unfoldable pub post_bucket : Text → Headers → Option Text → List ℕ → S → S × Reply
    unfolding parse_query header contains_key contains post_form_object post_bucket_inner
    post_bucket bucket headers query body s =
        let params = parse_query web query in
        let ct = unwrap_or (header headers (codes "content-type")) [] in
        if not (contains_key (codes "delete") params) && contains ct (codes "multipart/form-data")
        then post_form_object bucket ct body s
        else post_bucket_inner bucket params (unwrap_or (body_text web (16 * 2 ^ 20) body) []) s
