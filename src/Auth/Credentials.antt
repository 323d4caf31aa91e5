-- ===== src/Auth/Credentials.antt =====
-- src/auth/sigv4.rs: the texts of a request that carry a signature: the `Authorization` header, the
-- credential scope, the signed headers and the pairs of the query.
use kerplace.Base.{
  Text, ℕ, ◌-◌, ◌^◌, Bool, not, ◌&&◌, ◌||◌, if◌then◌else◌, List, [], ◌∷◌, ◌++◌, map, Option, none,
  some, codes, text_eq, text_ltb, is_empty, strip_prefix, split, split_once, trim,
  trim_start_matches, is_whitespace, to_ascii_lowercase, parse_digits, filter, sort_by, unwrap_or,
  ℤ, pos, negsuc, ◌==◌,
}
use kerplace.Error.{S3Error, Result, ok, err, authorization_header_malformed, ◌>>=◌}
use kerplace.Http.{Uri, Headers, header}

-- `str::parse::<i64>`
abbrev negated : Option ℕ → Option ℤ
negated none = none
negated (some n) = if n == 0 then some (pos 0) else some (negsuc (n - 1))

abbrev positive : Option ℕ → Option ℤ
positive none = none
positive (some n) = some (pos n)

abbrev digits : ℕ → Text → Option ℕ
digits top s = if is_empty s then none else parse_digits 10 top 0 s

unfoldable pub parse_i64 : Text → Option ℤ
parse_i64 [] = none
parse_i64 (c ∷ s) =
    if c == b'-'
    then negated (digits (2 ^ 63) s)
    else if c == b'+'
    then positive (digits (2 ^ 63 - 1) s)
    else positive (digits (2 ^ 63 - 1) (c ∷ s))

abbrev pub ok_or {ℓ} : {A : Type ℓ} → Option A → S3Error → Result A
ok_or none e = err e
ok_or (some a) e = ok a

pub record Scope : Type 0 where
  pub access_key : Text
  pub date : Text
  pub region : Text
  pub service : Text

pub record ParsedAuth : Type 0 where
  pub scope : Scope
  pub signed_headers : List Text
  pub signature : Text

-- Credential = AccessKey/Date/Region/Service/aws4_request
abbrev scope_of : List Text → Result Scope
scope_of (a ∷ d ∷ r ∷ s ∷ x ∷ []) =
    ok (record { access_key = a; date = d; region = r; service = s })
scope_of _ = err authorization_header_malformed

unfoldable pub parse_scope : Text → Result Scope
unfolding split
parse_scope credential = scope_of (split b'/' credential)

unfoldable pub parse_signed_headers : Text → List Text
unfolding split trim to_ascii_lowercase sort_by text_ltb
parse_signed_headers s = sort_by text_ltb (map (λ h. to_ascii_lowercase (trim h)) (split b';' s))

pub record AuthParts : Type 0 where
  pub credential : Option Text
  pub signed : Option Text
  pub signature : Option Text

-- one turn of the loop over the parts between commas
unfoldable pub auth_part : AuthParts → Text → AuthParts
unfolding strip_prefix trim
auth_part acc raw =
    let part = trim raw in
    elim (strip_prefix part (codes "Credential=")) [
      | some v ↦ record acc { credential = some v }
      | none ↦ elim (strip_prefix part (codes "SignedHeaders=")) [
        | some v ↦ record acc { signed = some v }
        | none ↦ elim (strip_prefix part (codes "Signature=")) [
          | some v ↦ record acc { signature = some v }
          | none ↦ acc
        ]
      ]
    ]

unfoldable pub auth_parts : AuthParts → List Text → AuthParts
auth_parts acc [] = acc
auth_parts acc (p ∷ ps) = auth_parts (auth_part acc p) ps

unfoldable pub parse_authorization : Text → Result ParsedAuth
unfolding strip_prefix trim_start_matches is_whitespace split
parse_authorization value = do
  rest ← ok_or (strip_prefix value (codes "AWS4-HMAC-SHA256")) authorization_header_malformed
  let parts =
      auth_parts (record { credential = none; signed = none; signature = none })
        (split b',' (trim_start_matches is_whitespace rest))
  credential ← ok_or parts.credential authorization_header_malformed
  signed ← ok_or parts.signed authorization_header_malformed
  signature ← ok_or parts.signature authorization_header_malformed
  scope ← parse_scope credential
  ok (record { scope = scope; signed_headers = parse_signed_headers signed; signature = signature })

abbrev pub pair_of : Text → Text × Text
pair_of kv = unwrap_or (split_once b'=' kv) (kv, [])

-- the order of pairs of strings
unfoldable pub pair_ltb : Text × Text → Text × Text → Bool
unfolding text_ltb text_eq
pair_ltb (k, v) (j, w) = text_ltb k j || text_eq k j && text_ltb v w

unfoldable pub find_param : Text → List (Text × Text) → Option Text
unfolding text_eq
find_param key [] = none
find_param key ((k, v) ∷ ps) = if text_eq k key then some v else find_param key ps

unfoldable pub canonical_headers : Headers → List Text → Text
unfolding header trim
canonical_headers headers [] = []
canonical_headers headers (name ∷ names) =
    name
    ++ (codes ":"
        ++ (trim (unwrap_or (header headers name) [])
            ++ (codes "\n" ++ canonical_headers headers names)))

unfoldable pub raw_pairs : Uri → List (Text × Text)
unfolding split filter split_once
raw_pairs uri = map pair_of (filter (λ s. not (is_empty s)) (split b'&' (unwrap_or uri.query [])))

pub record Presigned : Type 0 where
  pub scope : Scope
  pub amz_date : Text
  pub expires : ℤ
  pub signed_headers : Text
  pub signature : Text
