-- ===== src/Handlers/Objects/Described.antt =====
-- src/handlers/object.rs: the headers that describe an object, and the answers that carry them. A header
-- whose value is no header's value is left out.
use kerplace.Base.{
  Text, ℕ, ◌&&◌, ◌++◌, Bool, if◌then◌else◌, List, [], ◌∷◌, Option, none, some, codes, insert,
  to_ascii_lowercase, Dict, String,
}
use kerplace.Storage.{ObjectMeta, VersionAudit, DeleteOutcome}
use kerplace.Handlers.{Web, Reply, quote_etag, empty, stream}

module _ (web : Web) where
  -- `if let Ok(v) = HeaderValue::from_str(v) { h.insert(name, v) }`
  unfoldable pub put : String → Text → Dict Text → Dict Text
  unfolding insert
  put name v h = if web.is_header_value v then insert (codes name) v h else h

  abbrev put_some : String → Option Text → Dict Text → Dict Text
  unfolding put
  put_some name none h = h
  put_some name (some v) h = put name v h

  abbrev put_if : Bool → String → String → Dict Text → Dict Text
  unfolding insert
  put_if b name v h = if b then insert (codes name) (codes v) h else h

  abbrev put_audit : Option VersionAudit → Dict Text → Dict Text
  unfolding put
  put_audit none h = h
  put_audit (some a) h =
      put_some "x-kerplace-source-ip" a.source_ip (put_some "x-kerplace-author" a.author h)

  unfoldable pub put_metadata : Dict Text → Dict Text → Dict Text
  unfolding insert to_ascii_lowercase
  put_metadata [] h = h
  put_metadata ((k, v) ∷ m) h =
      let name = codes "x-amz-meta-" ++ k in
      put_metadata m (
        if web.is_header_name name && web.is_header_value v
        then insert (to_ascii_lowercase name) v h
        else h)

  unfoldable pub object_headers : ObjectMeta → Dict Text
  unfolding put put_metadata insert quote_etag
  object_headers meta =
      let h1 = put "content-type" meta.content_type [] in
      let h2 = put "etag" (quote_etag meta.etag) h1 in
      let h3 = put "last-modified" (web.http_date meta.last_modified) h2 in
      let h4 = insert (codes "accept-ranges") (codes "bytes") h3 in
      let h5 = put_if meta.encrypted "x-amz-server-side-encryption" "AES256" h4 in
      let h6 = put_some "x-amz-version-id" meta.version_id h5 in
      put_metadata meta.user_metadata (put_audit meta.audit h6)

  unfoldable pub sized : ℕ → Dict Text → Dict Text
  unfolding put
  sized n h = put "content-length" (web.decimal n) h

  -- An object's answer, with its bytes.
  unfoldable pub described : ObjectMeta → List ℕ → Reply
  unfolding object_headers sized
  described meta body = record {
    http_status = 200;
    headers = sized meta.size (object_headers meta);
    payload = stream body;
  }

  unfoldable pub head_response : ObjectMeta → Reply
  unfolding object_headers sized
  head_response meta = record {
    http_status = 200;
    headers = sized meta.size (object_headers meta);
    payload = empty;
  }

  -- `bytes {abs_start}-{abs_last}/{size}`
  unfoldable pub content_range : ℕ → ℕ → ℕ → Text
  content_range from last size =
      codes "bytes "
      ++ (web.decimal from ++ (codes "-" ++ (web.decimal last ++ (codes "/" ++ web.decimal size))))

  unfoldable pub range_response : ℕ → ℕ → ℕ → ObjectMeta → ℕ → List ℕ → Reply
  unfolding object_headers sized put content_range
  range_response from last size meta len body = record {
    http_status = 206;
    headers = put "content-range" (content_range from last size) (sized len (object_headers meta));
    payload = stream body;
  }

  unfoldable pub put_response : ObjectMeta → Reply
  unfolding put insert quote_etag
  put_response meta = record {
    http_status = 200;
    headers = put_some "x-amz-version-id" meta.version_id (
        put_if meta.encrypted "x-amz-server-side-encryption" "AES256"
          (put "etag" (quote_etag meta.etag) []));
    payload = empty;
  }

  unfoldable pub delete_response : DeleteOutcome → Reply
  unfolding put insert
  delete_response outcome = record {
    http_status = 204;
    headers =
        put_if outcome.delete_marker "x-amz-delete-marker" "true"
          (put_some "x-amz-version-id" outcome.version_id []);
    payload = empty;
  }
