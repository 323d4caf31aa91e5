-- ===== src/Config/Posture.antt =====
-- The posture of a process that starts under the profile `sealed`.
use kerplace.Base.{
  Text, ◌≡◌, ◌≢◌, refl, sym, subst, Bool, true, false, not, if◌then◌else◌, List, [], ◌∷◌, codes,
  text_eq, unwrap_or, Outcome, done, failed, arith, String,
}
use kerplace.Config.{
  Env, Config, env_var, from_env, parse_profile, sealed_violations, is_set_to, is_told,
  provider_name, unless, sealed,
}
use kerplace.Crypto.{KeyError}
use kerplace.Crypto.Keys.{ProviderKind, parse_provider_kind, file}
use kerplace.Config.Startup.{
  Backend, Started, backend_of, serving, drive_node, as_server, as_node, checked, start, fs_mirror,
}

unless-nil : (b : Bool) (m : String) (ms : List Text) → unless b m ms ≡ [] → (b ≡ true) × (ms ≡ [])
unless-nil true m ms h = (refl, h)
unless-nil false m ms h = ground arith

-- No condition of the sealed profile is unmet.
pub record AllMet (env : Env) (config : Config) : Type 0 where
  pub authenticated : config.auth_enabled ≡ true
  pub over_tls : config.tls_enabled ≡ true
  pub encrypted : config.encryption_enabled ≡ true
  pub no_mirror : is_set_to (env_var env "BACKEND") "fs" ≡ false
  pub issuer : is_told (env_var env "OIDC_ISSUER") ≡ true
  pub off_host : text_eq (provider_name env) (codes "file") ≡ false

off_of_not : (b : Bool) → not b ≡ true → b ≡ false
off_of_not b h = ground arith

sealed_violations-nil :
    (env : Env) (config : Config) → sealed_violations env config ≡ [] → AllMet env config
unfolding sealed_violations
sealed_violations-nil env config h =
    let (a, h1) = unless-nil _ _ _ h in
    let (t, h2) = unless-nil _ _ _ h1 in
    let (e, h3) = unless-nil _ _ _ h2 in
    let (n, h4) = unless-nil _ _ _ h3 in
    let (i, h5) = unless-nil _ _ _ h4 in
    let (o, h6) = unless-nil _ _ _ h5 in
    record {
      authenticated = a;
      over_tls = t;
      encrypted = e;
      no_mirror = off_of_not _ n;
      issuer = i;
      off_host = off_of_not _ o;
    }

as_server-done :
    (env : Env) (discovered : Bool) (config : Config) (p : Outcome KeyError ProviderKind)
    (config' : Config) (kind : ProviderKind) (backend : Backend)
    → as_server env discovered sealed config p ≡ done (serving config' kind backend)
    → (discovered ≡ true) × (p ≡ done kind) × (config ≡ config') × (backend_of env ≡ backend)
unfolding as_server
as_server-done env discovered config (failed e) config' kind backend h = ground arith
as_server-done env true config (done k) config' kind backend h = ground arith
as_server-done env false config (done k) config' kind backend h = ground arith

either_node :
    (b : Bool) (a s : Text) (r : Outcome Text Started) (config : Config) (kind : ProviderKind)
    (backend : Backend)
    → (if b then done (drive_node a s) else r) ≡ done (serving config kind backend)
    → r ≡ done (serving config kind backend)
either_node true a s r config kind backend h = ground arith
either_node false a s r config kind backend h = h

checked-nil :
    (env : Env) (discovered : Bool) (config config' : Config) (kind : ProviderKind)
    (backend : Backend) (unmet : List Text)
    → checked env discovered config (done sealed) unmet ≡ done (serving config' kind backend)
    → (unmet ≡ []) × (as_node env discovered sealed config ≡ done (serving config' kind backend))
unfolding checked
checked-nil env discovered config config' kind backend [] h = (refl, h)
checked-nil env discovered config config' kind backend (m ∷ ms) h = ground arith

as_node-done :
    (env : Env) (discovered : Bool) (config config' : Config) (kind : ProviderKind)
    (backend : Backend)
    → as_node env discovered sealed config ≡ done (serving config' kind backend)
    → (discovered ≡ true)
      × (parse_provider_kind (provider_name env) ≡ done kind)
      × (config ≡ config')
      × (backend_of env ≡ backend)
unfolding as_node
as_node-done env discovered config config' kind backend h =
    as_server-done env discovered config _ config' kind backend
      (either_node _ _ _ _ config' kind backend h)

off_host-kind :
    (name : Text) (kind : ProviderKind)
    → text_eq name (codes "file") ≡ false
    → parse_provider_kind name ≡ done kind
    → kind ≢ file
unfolding parse_provider_kind
off_host-kind name kind off h is_file = ground arith

no_mirror-backend :
    (env : Env) (backend : Backend)
    → is_set_to (env_var env "BACKEND") "fs" ≡ false
    → backend_of env ≡ backend
    → backend ≢ fs_mirror
unfolding backend_of
no_mirror-backend env backend mirrored h is_mirror = ground arith

-- What a server under the profile `sealed` has.
pub record Posture (env : Env) (discovered : Bool) (config : Config) (kind : ProviderKind)
    (backend : Backend) : Type 0 where
  pub read_config : config ≡ from_env env
  pub met : AllMet env config
  pub kind_off_host : kind ≢ file
  pub redundant : backend ≢ fs_mirror
  pub idp_reached : discovered ≡ true

-- A process that starts as a server while its environment names the profile `sealed` has
-- authentication, TLS and encryption on in the configuration it serves with, keeps no key on the
-- host, is not on the transparent backend, and has an identity provider that is named and reached.
pub start-Posture :
    (env : Env) (discovered : Bool) (config : Config) (kind : ProviderKind) (backend : Backend)
    → parse_profile (unwrap_or (env_var env "PROFILE") []) ≡ done sealed
    → start env discovered ≡ done (serving config kind backend)
    → Posture env discovered config kind backend
unfolding start
start-Posture env discovered config kind backend is_sealed started =
    let (unmet, node) =
      checked-nil env discovered (from_env env) config kind backend
        (sealed_violations env (from_env env))
        (subst
          (λ p.
            checked env discovered (from_env env) p (sealed_violations env (from_env env))
            ≡ done (serving config kind backend))
          is_sealed started) in
    let (found, own_kind, same, own_backend) =
      as_node-done env discovered (from_env env) config kind backend node in
    let met = sealed_violations-nil env (from_env env) unmet in
    record {
      read_config = sym same;
      met = subst (AllMet env) same met;
      kind_off_host = off_host-kind (provider_name env) kind met.off_host own_kind;
      redundant = no_mirror-backend env backend met.no_mirror own_backend;
      idp_reached = found;
    }
