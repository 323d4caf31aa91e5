-- ===== src/Tests/Startup.antt =====
-- Examples for the start of the process.
use kerplace.Base.{
  ◌≡◌, refl, true, if◌then◌else◌, none, some, codes, text_eq, unwrap_or, done, [], trim,
  to_ascii_lowercase, trim_start_matches, trim_end_matches, is_whitespace,
}
use kerplace.Crypto.Keys.{kms}
use kerplace.Config.{Env, env_var, resolve, first_of, from_env, parse_profile, sealed}
use kerplace.Config.Startup.{start, erasure, serving}
use kerplace.Config.Posture.{Posture, start-Posture}

-- The environment of a regulated deployment.
abbrev env : Env
unfolding text_eq
env name =
    if text_eq name (codes "KP_PROFILE")
    then some (codes "sealed")
    else if text_eq name (codes "KP_TLS")
    then some (codes "on")
    else if text_eq name (codes "KP_KEY_PROVIDER")
    then some (codes "kms")
    else if text_eq name (codes "MINIO_OIDC_ISSUER")
    then some (codes "https://idp")
    else none

named : parse_profile (unwrap_or (env_var env "PROFILE") []) ≡ done sealed
unfolding parse_profile trim to_ascii_lowercase text_eq resolve first_of trim_start_matches
    trim_end_matches is_whitespace
named = refl

started : start env true ≡ done (serving (from_env env) kms erasure)
unfolding start text_eq resolve first_of
started = refl

start-Posture_example : Posture env true (from_env env) kms erasure
start-Posture_example = start-Posture env true (from_env env) kms erasure named started
