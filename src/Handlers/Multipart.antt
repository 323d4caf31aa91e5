-- ===== src/Handlers/Multipart.antt =====
-- src/handlers/multipart.rs: the multipart handlers. The URI of the XML namespace and the dates of the
-- parts are left to the documents' writer.
use kerplace.Base.{
  Text, ℕ, ◌||◌, ◌&&◌, ◌++◌, ◌^◌, ◌-◌, Bool, if◌then◌else◌, List, [], ◌∷◌, map, Option, none, some,
  codes, parse_unsigned, leb, Outcome, done, failed,
}
use kerplace.Http.{Headers}
use kerplace.Error.{invalid_argument}
use kerplace.Storage.{PartInfo, CompletedPart}
use kerplace.Handlers.{
  ObjectStore, Web, Reply, plain, xml_response, refused, invalid, body_text, resource_of, reply,
  initiated, completed, parts, quote_etag, content_type_of, extract_user_metadata, sse_requested,
  is_sealed,
}

-- `partNumber`: a number from 1 to 10000
unfoldable pub part_number_of : Text → Option ℕ
unfolding parse_unsigned
part_number_of t = elim (parse_unsigned 10 (2 ^ 32 - 1) t) [
  | none ↦ none
  | some n ↦ if leb 1 n && leb n 10000 then some n else none
]

-- `PartXml`
abbrev part_xml : PartInfo → PartInfo
unfolding quote_etag
part_xml p = record p { etag = quote_etag p.etag }

module _ {S : Type 0} (store : ObjectStore S) (web : Web) where
  -- `create`, where `encryption_enabled` is the configuration's
  unfoldable pub create : Bool → Text → Text → Headers → S → S × Reply
  unfolding xml_response refused content_type_of extract_user_metadata sse_requested is_sealed
  create encryption_enabled bucket key headers s =
      let (s', default) = store.get_bucket_encryption bucket s in
      let encrypt = (sse_requested headers || is_sealed default) || encryption_enabled in
      reply (resource_of bucket key)
        (store.create_multipart bucket key (content_type_of headers) (extract_user_metadata headers)
          encrypt s')
        (λ upload_id. xml_response 200 (initiated bucket key upload_id))

  abbrev stored_part : Text → Text → Text → List ℕ → Option ℕ → S → S × Reply
  stored_part bucket key upload_id body none s =
      (s, invalid "invalid partNumber" (resource_of bucket key))
  stored_part bucket key upload_id body (some n) s =
      reply (resource_of bucket key) (store.upload_part bucket key upload_id n body s)
        (λ etag. record (plain 200) { headers = (codes "etag", quote_etag etag) ∷ [] })

  unfoldable pub upload_part : Text → Text → Text → Text → List ℕ → S → S × Reply
  unfolding part_number_of refused quote_etag
  upload_part bucket key upload_id part_number body s =
      stored_part bucket key upload_id body (part_number_of part_number) s

  abbrev assemble : Text → Text → Text → Outcome Text (List CompletedPart) → S → S × Reply
  assemble bucket key upload_id (failed e) s = (
    s,
    refused (invalid_argument (codes "malformed CompleteMultipartUpload: " ++ e))
        (resource_of bucket key),
  )
  assemble bucket key upload_id (done chosen) s =
      reply (resource_of bucket key) (store.complete_multipart bucket key upload_id chosen s)
        (λ meta.
          xml_response 200 (completed (resource_of bucket key) bucket key (quote_etag meta.etag)))

  unfoldable pub complete : Text → Text → Text → List ℕ → S → S × Reply
  unfolding xml_response refused quote_etag
  complete bucket key upload_id body s = elim (body_text web (2 ^ 20) body) [
    | none ↦ (s, invalid "could not read body" (resource_of bucket key))
    | some text ↦ assemble bucket key upload_id (web.parse_complete text) s
  ]

  unfoldable pub abort : Text → Text → Text → S → S × Reply
  unfolding refused
  abort bucket key upload_id s =
      reply (resource_of bucket key) (store.abort_multipart bucket key upload_id s) (λ _. plain 204)

  unfoldable pub list_parts : Text → Text → Text → S → S × Reply
  unfolding refused xml_response quote_etag
  list_parts bucket key upload_id s =
      reply (resource_of bucket key) (store.list_parts bucket key upload_id s)
        (λ ps. xml_response 200 (parts bucket key upload_id (map part_xml ps)))
