-- ===== src/Http.antt =====
-- What the program reads of an HTTP request: method, path, query and headers.
use kerplace.Base.{
  Text, codes, Option, none, some, Dict, lookup, contains_key, to_ascii_lowercase, Bool,
}

-- `http::Method`; any other method is its token
pub data Method : Type 0 where
  get head put post delete patch options trace connect : Method
  extension : Text → Method

-- `Method::as_str`
unfoldable pub method_name : Method → Text
method_name Method.get = codes "GET"
method_name head = codes "HEAD"
method_name put = codes "PUT"
method_name post = codes "POST"
method_name delete = codes "DELETE"
method_name patch = codes "PATCH"
method_name options = codes "OPTIONS"
method_name trace = codes "TRACE"
method_name connect = codes "CONNECT"
method_name (extension t) = t

pub record Uri : Type 0 where
  pub path : Text
  pub query : Option Text

-- The first value of each header: its text where it is visible text (`to_str`), else `none`. Names
-- are in lower case.
abbrev pub Headers : Type 0
Headers = Dict (Option Text)

abbrev flat : Option (Option Text) → Option Text
flat none = none
flat (some v) = v

-- `headers.get(name).and_then(|v| v.to_str().ok())`
unfoldable pub header : Headers → Text → Option Text
unfolding lookup to_ascii_lowercase
header headers name = flat (lookup (to_ascii_lowercase name) headers)

-- `headers.contains_key(name)`
unfoldable pub has_header : Headers → Text → Bool
unfolding contains_key to_ascii_lowercase
has_header headers name = contains_key (to_ascii_lowercase name) headers
