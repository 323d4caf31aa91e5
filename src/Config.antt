-- ===== src/Config.antt =====
-- src/config.rs: the configuration, read from the environment, which is a parameter: the value of each
-- variable that is set and is text.
pub mod Startup
pub mod Posture
use kerplace.Base.{
  Text, ℕ, ◌≡◌, ◌&&◌, ◌||◌, ◌++◌, Bool, true, false, not, if◌then◌else◌, List, [], ◌∷◌, map, Option,
  none, some, codes, text_eq, is_empty, is_some, unwrap_or, trim, to_ascii_lowercase, Outcome, done,
  failed, String,
}

abbrev pub Env : Type 0
Env = Text → Option Text

-- `ENV_PREFIXES`
abbrev pub env_prefixes : List Text
env_prefixes = codes "KP_" ∷ codes "MYNIO_" ∷ codes "MINIO_" ∷ []

abbrev pub or_else : Option Text → Option Text → Option Text
or_else none o = o
or_else (some v) o = some v

unfoldable pub first_of : List Text → Text → Env → Option Text
first_of [] suffix get = none
first_of (p ∷ ps) suffix get = let rest = first_of ps suffix get in or_else (get (p ++ suffix)) rest

unfoldable pub resolve : Text → Env → Option Text
unfolding first_of
resolve suffix get = first_of env_prefixes suffix get

-- `env_var`
abbrev pub env_var : Env → String → Option Text
unfolding resolve
env_var env suffix = resolve (codes suffix) env

unfoldable pub truthy : Text → Bool
unfolding text_eq to_ascii_lowercase
truthy value =
    let v = to_ascii_lowercase value in
    text_eq v (codes "true") || text_eq v (codes "1") || text_eq v (codes "on")

unfoldable pub falsy : Text → Bool
unfolding text_eq to_ascii_lowercase
falsy value =
    let v = to_ascii_lowercase value in
    text_eq v (codes "false") || text_eq v (codes "0") || text_eq v (codes "off")

pub data Profile : Type 0 where
  open_profile sealed : Profile

-- `Profile::as_str`
unfoldable pub profile_name : Profile → Text
profile_name open_profile = codes "open"
profile_name sealed = codes "sealed"

unfoldable pub parse_profile : Text → Outcome Text Profile
unfolding trim to_ascii_lowercase text_eq
parse_profile s =
    let name = to_ascii_lowercase (trim s) in
    if is_empty name || text_eq name (codes "open")
    then done open_profile
    else if text_eq name (codes "sealed")
    then done sealed
    else failed (codes "unknown KP_PROFILE `" ++ (name ++ codes "` (use `open` or `sealed`)"))

pub record Config : Type 0 where
  pub address : Text
  pub data_dir : Text
  pub root_user : Text
  pub root_password : Text
  pub region : Text
  pub auth_enabled : Bool
  pub console_address : Text
  pub console_enabled : Bool
  pub encryption_enabled : Bool
  pub tls_enabled : Bool
  pub tls_cert : Option Text
  pub tls_key : Option Text
  pub minio_compat : Bool
  pub profile : Profile
  pub access_log : Option Text

-- A flag that is on unless it is falsy.
abbrev on_unless : Option Text → Bool
unfolding falsy
on_unless none = true
on_unless (some v) = not (falsy v)

-- A flag that is off unless it is truthy.
abbrev off_unless : Option Text → Bool
unfolding truthy
off_unless none = false
off_unless (some v) = truthy v

-- `.unwrap_or(Profile::Open)`
abbrev lenient : Outcome Text Profile → Profile
lenient (done p) = p
lenient (failed _) = open_profile

-- `Config::from_env`
unfoldable pub from_env : Env → Config
unfolding resolve parse_profile truthy falsy
from_env env = record {
  address = unwrap_or (env_var env "ADDRESS") (codes "0.0.0.0:9000");
  data_dir = unwrap_or (env_var env "DATA_DIR") (codes "./data");
  root_user = unwrap_or (env_var env "ROOT_USER") (codes "minioadmin");
  root_password = unwrap_or (env_var env "ROOT_PASSWORD") (codes "minioadmin");
  region = unwrap_or (env_var env "REGION") (codes "us-east-1");
  auth_enabled = on_unless (env_var env "AUTH");
  console_address = unwrap_or (env_var env "CONSOLE_ADDRESS") (codes "0.0.0.0:9001");
  console_enabled = on_unless (env_var env "CONSOLE");
  encryption_enabled = on_unless (env_var env "ENCRYPT");
  tls_enabled =
      off_unless (env_var env "TLS")
      || (is_some (env_var env "TLS_CERT") && is_some (env_var env "TLS_KEY"));
  tls_cert = env_var env "TLS_CERT";
  tls_key = env_var env "TLS_KEY";
  minio_compat = on_unless (env_var env "MINIO_COMPAT");
  profile = lenient (parse_profile (unwrap_or (env_var env "PROFILE") []));
  access_log = env_var env "ACCESS_LOG";
}

-- A message where a condition does not hold.
abbrev pub unless : Bool → String → List Text → List Text
unless true m ms = ms
unless false m ms = codes m ∷ ms

-- `env_var(…).as_deref() == Some(…)`
unfoldable pub is_set_to : Option Text → String → Bool
unfolding text_eq
is_set_to none s = false
is_set_to (some v) s = text_eq v (codes s)

-- A value that is more than white space.
unfoldable pub is_told : Option Text → Bool
unfolding trim
is_told none = false
is_told (some v) = not (is_empty (trim v))

abbrev pub provider_name : Env → Text
unfolding resolve
provider_name env = unwrap_or (env_var env "KEY_PROVIDER") (codes "file")

unfoldable pub sealed_violations : Env → Config → List Text
unfolding resolve is_set_to is_told text_eq
sealed_violations env config =
    unless config.auth_enabled "authentication must be enabled (do not set KP_AUTH=false)" (
      unless config.tls_enabled
        "TLS must be enabled (set KP_TLS=true, optionally KP_TLS_CERT/KP_TLS_KEY)"
        (unless config.encryption_enabled "at-rest encryption must be enabled (set KP_ENCRYPT=true)"
          (unless (not (is_set_to (env_var env "BACKEND") "fs"))
            "the transparent `fs` backend is not allowed; use the erasure backend"
            (unless (is_told (env_var env "OIDC_ISSUER"))
              "external identity must be configured (set KP_OIDC_ISSUER)"
              (unless (not (text_eq (provider_name env) (codes "file")))
                "off-host key custody is required: set KP_KEY_PROVIDER=passphrase or kms (not `file`)"
                [])))))
