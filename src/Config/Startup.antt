-- ===== src/Config/Startup.antt =====
-- src/main.rs: what the process decides at its start from the environment; the files and sockets that it
-- opens in between are left out. The choice of the key provider is src/crypto/provider.rs.
use kerplace.Base.{
  Text, ◌++◌, Bool, if◌then◌else◌, List, [], ◌∷◌, codes, unwrap_or, join, Outcome, done, failed,
}
use kerplace.Crypto.{KeyError, unavailable, unwrap, malformed, unknown}
use kerplace.Crypto.Keys.{ProviderKind, parse_provider_kind}
use kerplace.Config.{
  Env, Config, Profile, env_var, resolve, from_env, parse_profile, sealed_violations, is_set_to,
  is_told, provider_name, sealed, open_profile,
}

pub data Backend : Type 0 where
  fs_mirror distributed erasure : Backend

unfoldable pub backend_of : Env → Backend
unfolding resolve is_set_to is_told
backend_of env =
    if is_set_to (env_var env "BACKEND") "fs"
    then fs_mirror
    else if is_told (env_var env "NODES")
    then distributed
    else erasure

-- What the process becomes: a drive node, or a server with its configuration, its key provider and
-- its backend.
pub data Started : Type 0 where
  drive_node : (address secret : Text) → Started
  serving : Config → ProviderKind → Backend → Started

-- The text of a `KeyError`.
abbrev error_text : KeyError → Text
error_text (unavailable e) = codes "key provider unavailable: " ++ e
error_text unwrap = codes "DEK unwrap failed"
error_text malformed = codes "malformed wrapped DEK"
error_text (unknown name) = codes "unknown key provider: " ++ name

-- The server's choices; `discovered` is whether the identity provider could be reached.
unfoldable pub as_server :
    Env → Bool → Profile → Config → Outcome KeyError ProviderKind → Outcome Text Started
unfolding backend_of
as_server env discovered profile config (failed e) = failed (codes "key provider: " ++ error_text e)
as_server env discovered open_profile config (done kind) =
    done (serving config kind (backend_of env))
as_server env discovered sealed config (done kind) =
    if discovered
    then done (serving config kind (backend_of env))
    else failed (
        codes
          "KP_PROFILE=sealed requires a reachable OIDC IdP, but discovery failed (see the WARN above)")

unfoldable pub as_node : Env → Bool → Profile → Config → Outcome Text Started
unfolding resolve is_set_to parse_provider_kind as_server
as_node env discovered profile config =
    let server =
      as_server env discovered profile config (parse_provider_kind (provider_name env)) in
    if is_set_to (env_var env "ROLE") "drive"
    then done (
        drive_node (unwrap_or (env_var env "DRIVE_ADDR") (codes "0.0.0.0:9100"))
          (unwrap_or (env_var env "CLUSTER_SECRET") []))
    else server

unfoldable pub checked :
    Env → Bool → Config → Outcome Text Profile → List Text → Outcome Text Started
unfolding as_node join
checked env discovered config (failed e) unmet = failed e
checked env discovered config (done open_profile) unmet = as_node env discovered open_profile config
checked env discovered config (done sealed) [] = as_node env discovered sealed config
checked env discovered config (done sealed) (m ∷ ms) = failed (
    codes "KP_PROFILE=sealed is not satisfied — refusing to start:\n  - "
    ++ join (codes "\n  - ") (m ∷ ms))

unfoldable pub start : Env → Bool → Outcome Text Started
unfolding resolve from_env parse_profile sealed_violations checked
start env discovered =
    let config = from_env env in
    checked env discovered config (parse_profile (unwrap_or (env_var env "PROFILE") []))
      (sealed_violations env config)
