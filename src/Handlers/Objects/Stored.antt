-- ===== src/Handlers/Objects/Stored.antt =====
-- src/handlers/object.rs: the writing of an object and of its tags, and the copy on the server.
use kerplace.Base.{
  Text, ℕ, ◌||◌, ◌++◌, ◌^◌, Bool, List, [], ◌∷◌, Option, none, some, codes, split, split_once,
  trim_start_matches, unwrap_or, ◌==◌, Outcome, done, failed,
}
use kerplace.Http.{Headers}
use kerplace.Error.{invalid_argument}
use kerplace.Handlers.{
  ObjectStore, Web, Reply, plain, xml_response, refused, invalid, body_text, resource_of, reply,
  quote_etag, collect, content_type_of, extract_user_metadata, sse_requested, is_sealed, tagging,
  copy_result,
}
use kerplace.Handlers.Objects.Described.{put_response}

-- Which of the tag operations a request asks for.
pub data TagMethod : Type 0 where
  get_tags put_tags delete_tags : TagMethod

module _ {S : Type 0} (store : ObjectStore S) (web : Web) where
  abbrev set_tags : Text → Text → Outcome Text (List (Text × Text)) → S → S × Reply
  unfolding refused collect
  set_tags bucket key (failed e) s =
      (s, refused (invalid_argument (codes "bad Tagging: " ++ e)) (resource_of bucket key))
  set_tags bucket key (done tags) s =
      reply (resource_of bucket key) (store.set_object_tags bucket key (collect tags []) s)
        (λ _. plain 200)

  unfoldable pub handle_object_tagging : Text → Text → TagMethod → List ℕ → S → S × Reply
  unfolding xml_response refused collect
  handle_object_tagging bucket key get_tags body s =
      reply (resource_of bucket key) (store.get_object_tags bucket key s)
        (λ tags. xml_response 200 (tagging (unwrap_or tags [])))
  handle_object_tagging bucket key put_tags body s = elim (body_text web (2 ^ 20) body) [
    | none ↦ (s, invalid "bad body" (resource_of bucket key))
    | some text ↦ set_tags bucket key (web.parse_tagging text) s
  ]
  handle_object_tagging bucket key delete_tags body s =
      reply (resource_of bucket key) (store.delete_object_tags bucket key s) (λ _. plain 204)

  -- Whether a new object is encrypted: its header, the bucket's default or the configuration asks.
  unfoldable pub encrypt_of : Bool → Text → Headers → S → S × Bool
  unfolding sse_requested is_sealed
  encrypt_of encryption_enabled bucket headers s =
      let (s', default) = store.get_bucket_encryption bucket s in
      (s', (sse_requested headers || is_sealed default) || encryption_enabled)

  -- `x-amz-copy-source`: bucket and key, without the leading slashes and what follows a `?`
  unfoldable pub copy_source : Text → Option (Text × Text)
  unfolding trim_start_matches split split_once
  copy_source source =
      let trimmed = trim_start_matches (λ c. c == b'/') source in
      split_once b'/' (web.percent_decode (elim (split b'?' trimmed) [ [] ↦ trimmed | t ∷ _ ↦ t ]))

  abbrev copied : Bool → Text → Text → Headers → Option (Text × Text) → S → S × Reply
  unfolding encrypt_of xml_response refused quote_etag
  copied enabled bucket key headers none s =
      (s, invalid "malformed x-amz-copy-source" (resource_of bucket key))
  copied enabled bucket key headers (some (src_bucket, src_key)) s =
      let (s', encrypt) = encrypt_of enabled bucket headers s in
      reply (resource_of bucket key) (store.copy_object src_bucket src_key bucket key encrypt s')
        (λ meta. xml_response 200 (copy_result meta.last_modified (quote_etag meta.etag)))

  unfoldable pub copy_object : Bool → Text → Text → Text → Headers → S → S × Reply
  unfolding copy_source encrypt_of xml_response refused quote_etag
  copy_object enabled bucket key source headers s =
      copied enabled bucket key headers (copy_source source) s

  unfoldable pub store_object : Bool → Text → Text → Headers → List ℕ → S → S × Reply
  unfolding encrypt_of content_type_of extract_user_metadata put_response refused
  store_object enabled bucket key headers body s =
      let (s', encrypt) = encrypt_of enabled bucket headers s in
      reply (resource_of bucket key)
        (store.put_object bucket key body (content_type_of headers) (extract_user_metadata headers)
          encrypt s')
        (put_response web)
