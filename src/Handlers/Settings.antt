-- ===== src/Handlers/Settings.antt =====
-- src/handlers/bucket.rs: the settings of a bucket: encryption, policy, tags, versioning, lifecycle and
-- object lock.
use kerplace.Base.{
  Text, ℕ, ◌++◌, ◌*◌, ◌^◌, Bool, true, false, if◌then◌else◌, List, [], ◌∷◌, Option, none, some,
  codes, is_empty, unwrap_or, Outcome, done, failed, String,
}
use kerplace.Error.{
  Result, S3Error, invalid_argument, no_such_bucket_encryption, no_such_bucket_policy,
  no_such_lifecycle_configuration,
}
use kerplace.Handlers.{
  ObjectStore, Web, Reply, plain, xml_response, refused, invalid, resource_of_bucket, reply,
  collect, tagging, sse_configuration, versioning, object_lock_configuration, raw_document,
  text_body,
}

abbrev bad : Text → String → Text → Reply
bad bucket what e = refused (invalid_argument (codes what ++ e)) (resource_of_bucket bucket)

-- What a setting is that may be missing.
abbrev found : S3Error → Text → (Text → Reply) → Option Text → Reply
found e bucket f none = refused e (resource_of_bucket bucket)
found e bucket f (some v) = f v

module _ {S : Type 0} where
  -- `Ok(()) => status, Err(e) => …`
  abbrev pub acknowledged : ℕ → Text → S × Result (Unit {0}) → S × Reply
  acknowledged status bucket r = reply (resource_of_bucket bucket) r (λ _. plain status)

  -- `read_body`, and what is done with the bytes
  abbrev with_body : Web → Text → List ℕ → (Text → S → S × Reply) → S → S × Reply
  with_body web bucket body f s = elim (web.to_bytes (8 * 2 ^ 20) body) [
    | failed e ↦ (s, bad bucket "body read error: " e)
    | done b ↦ f (web.from_utf8_lossy b) s
  ]

  -- A document that does not parse is refused.
  abbrev parsed :
      {A : Type 0} → Text → String → (A → S → S × Reply) → Outcome Text A → S → S × Reply
  parsed bucket what f (failed e) s = (s, bad bucket what e)
  parsed bucket what f (done a) s = f a s

module _ {S : Type 0} (store : ObjectStore S) (web : Web) where
  unfoldable pub get_bucket_encryption : Text → S → S × Reply
  unfolding xml_response refused
  get_bucket_encryption bucket s =
      reply (resource_of_bucket bucket) (store.get_bucket_encryption bucket s)
        (found no_such_bucket_encryption bucket (λ t. xml_response 200 (sse_configuration t)))

  unfoldable pub put_bucket_encryption : Text → List ℕ → S → S × Reply
  unfolding refused
  put_bucket_encryption bucket body = with_body web bucket body (λ raw.
      parsed bucket "bad SSE XML: "
        (λ t s. acknowledged 200 bucket (store.set_bucket_encryption bucket t s))
        (web.parse_sse raw))

  unfoldable pub get_bucket_policy : Text → S → S × Reply
  unfolding refused
  get_bucket_policy bucket s =
      reply (resource_of_bucket bucket) (store.get_bucket_policy bucket s) (
        found no_such_bucket_policy bucket (λ policy. record {
          http_status = 200;
          headers = (codes "content-type", codes "application/json") ∷ [];
          payload = text_body policy;
        }))

  unfoldable pub put_bucket_policy : Text → List ℕ → S → S × Reply
  unfolding refused
  put_bucket_policy bucket body =
      with_body web bucket body
        (λ policy s. acknowledged 204 bucket (store.set_bucket_policy bucket policy s))

  unfoldable pub get_bucket_tagging : Text → S → S × Reply
  unfolding xml_response refused
  get_bucket_tagging bucket s =
      reply (resource_of_bucket bucket) (store.get_bucket_tags bucket s)
        (λ tags. xml_response 200 (tagging (unwrap_or tags [])))

  unfoldable pub put_bucket_tagging : Text → List ℕ → S → S × Reply
  unfolding refused collect
  put_bucket_tagging bucket body = with_body web bucket body (λ raw.
      parsed bucket "bad Tagging XML: "
        (λ tags s. acknowledged 200 bucket (store.set_bucket_tags bucket (collect tags []) s))
        (web.parse_tagging raw))

  unfoldable pub get_bucket_versioning : Text → S → S × Reply
  unfolding xml_response refused
  get_bucket_versioning bucket s =
      reply (resource_of_bucket bucket) (store.get_bucket_versioning bucket s)
        (λ status. xml_response 200 (versioning (if is_empty status then none else some status)))

  unfoldable pub put_bucket_versioning : Text → List ℕ → S → S × Reply
  unfolding refused
  put_bucket_versioning bucket body = with_body web bucket body (λ raw.
      parsed bucket "bad VersioningConfiguration: "
        (λ status s.
          acknowledged 200 bucket (store.set_bucket_versioning bucket (unwrap_or status []) s))
        (web.parse_versioning raw))

  unfoldable pub get_bucket_lifecycle : Text → S → S × Reply
  unfolding xml_response refused
  get_bucket_lifecycle bucket s =
      reply (resource_of_bucket bucket) (store.get_bucket_lifecycle bucket s)
        (found no_such_lifecycle_configuration bucket (λ raw. xml_response 200 (raw_document raw)))

  abbrev set_lifecycle : Text → Text → Bool → S → S × Reply
  set_lifecycle bucket raw true s =
      acknowledged 200 bucket (store.set_bucket_lifecycle bucket raw s)
  set_lifecycle bucket raw false s =
      (s, invalid "bad LifecycleConfiguration XML" (resource_of_bucket bucket))

  unfoldable pub put_bucket_lifecycle : Text → List ℕ → S → S × Reply
  unfolding refused
  put_bucket_lifecycle bucket body =
      with_body web bucket body (λ raw. set_lifecycle bucket raw (web.parse_lifecycle raw))

  unfoldable pub get_bucket_object_lock : Text → S → S × Reply
  unfolding xml_response refused
  get_bucket_object_lock bucket s =
      reply (resource_of_bucket bucket) (store.head_bucket bucket s)
        (λ _. xml_response 200 (object_lock_configuration (codes "Disabled")))

  unfoldable pub put_bucket_object_lock : Text → List ℕ → S → S × Reply
  unfolding refused
  put_bucket_object_lock bucket body s = acknowledged 200 bucket (store.head_bucket bucket s)
