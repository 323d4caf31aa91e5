-- ===== src/Auth/Guard.antt =====
-- What the middleware of src/auth/mod.rs lets through, and what it records.
use kerplace.Base.{
  ℕ, ◌≡◌, refl, Bool-cases, Option-cases, true, false, ◌||◌, List, [], ◌∷◌, Option, none, some,
  arith, ◌⊎◌, inl, inr,
}
use kerplace.Error.{ok, err, Response}
use kerplace.Iam.{Identity, action_for, from_name, allows, allows_bucket, bucket_for}
use kerplace.Iam.Sts.{StsCrypto}
use kerplace.Audit.{AuditContext, no_context}
use kerplace.Http.{method_name}
use kerplace.AccessLog.{AccessEntry, entry_for}
use kerplace.Auth.{
  Request, AppState, Reply, refused, served, panicked, is_health, is_sts, remote_ip, dechunked,
  log_access, refuse, authenticate, forward, authorize, auth_middleware,
}
use kerplace.Auth.SigV4.{SigLib}

-- The lines that a reply leaves in the access log, and the status that the client sees.
unfoldable pub lines_of : Reply → List AccessEntry
lines_of (refused res lines) = lines
lines_of (served req ctx res lines) = lines
lines_of panicked = []

unfoldable pub status_of : Reply → Option ℕ
status_of (refused res lines) = some res.http_status
status_of (served req ctx res lines) = some res.http_status
status_of panicked = none

module _ (lib : SigLib) (crypto : StsCrypto) (next : AuditContext → Request → Response) where
  -- With authentication on, a request whose path is neither a health check's nor the token
  -- service's reaches a handler only as a verified identity whose policy allows the action and
  -- whose scope holds the bucket; the handler then has that identity, in an audit context that
  -- names it, and the body without chunk framing.
  pub served_authorized :
      (state : AppState) (req inner : Request) (ctx : AuditContext) (res : Response)
      (lines : List AccessEntry)
      → state.auth_enabled ≡ true
      → is_health req.uri.path ≡ false
      → is_sts req ≡ false
      → auth_middleware lib crypto next state req ≡ served inner ctx res lines
      → (id : Identity) × (authenticate lib crypto state req ≡ some (ok id))
        × (allows (from_name id.policy) (action_for req.method req.uri.path) ≡ true)
        × (allows_bucket id (bucket_for req.uri.path) ≡ true)
        × (inner ≡ dechunked (record req { identity = some id }))
        × (ctx.access_key ≡ some id.access_key)
        × (res ≡ next ctx inner)
  unfolding auth_middleware authorize forward refuse
  served_authorized state req inner ctx res lines on health sts h = ground arith

  -- The line of a request, by the context that it is written in.
  logged_line :
      (state : AppState) (req : Request) (status : ℕ)
      → state.access_log ≡ true
      → is_health req.uri.path ≡ false
      → is_sts req ≡ false
      → status_of (auth_middleware lib crypto next state req) ≡ some status
      → (ctx : AuditContext) × (lines_of (auth_middleware lib crypto next state req)
          ≡ entry_for state.timestamp req.method req.uri ctx status ∷ [])
        × (ctx.remote_ip ≡ remote_ip req)
  unfolding auth_middleware authorize forward refuse log_access lines_of status_of
  logged_line state req status on health sts h = elim (Bool-cases state.auth_enabled) [
    | inr off ↦ (record { access_key = none; remote_ip = remote_ip req }, ground arith, refl)
    | inl enabled ↦ elim (Option-cases (authenticate lib crypto state req)) [
      | inl n ↦ absurd (ground arith)
      | inr (err e, a) ↦
          (record { access_key = none; remote_ip = remote_ip req }, ground arith, refl)
      | inr (ok id, a) ↦ (
        record { access_key = some id.access_key; remote_ip = remote_ip req },
        ground arith,
        refl,
      )
    ]
  ]

  -- With the access log on, every request outside the health checks and the token service leaves
  -- exactly one line, whether it was refused or served: the line has the status that the client
  -- sees, the instant, the name of the request's method, the bucket of its path and the address that
  -- it came from. A request in which the middleware panics is left out.
  pub logged_once :
      (state : AppState) (req : Request) (status : ℕ)
      → state.access_log ≡ true
      → is_health req.uri.path ≡ false
      → is_sts req ≡ false
      → status_of (auth_middleware lib crypto next state req) ≡ some status
      → (line : AccessEntry) × (lines_of (auth_middleware lib crypto next state req) ≡ line ∷ [])
        × (line.status ≡ status)
        × (line.ts ≡ state.timestamp)
        × (line.method ≡ method_name req.method)
        × (line.bucket ≡ bucket_for req.uri.path)
        × (line.remote_ip ≡ remote_ip req)
  unfolding entry_for
  logged_once state req status on health sts h =
      let (ctx, logged, from) = logged_line state req status on health sts h in
      (
        entry_for state.timestamp req.method req.uri ctx status,
        logged,
        refl,
        refl,
        refl,
        refl,
        from,
      )

  -- Without authentication a request outside those paths always reaches the handler, with no
  -- identity of its own added, and a path of the health checks does so whatever it asks for.
  pub unguarded_served :
      (state : AppState) (req : Request)
      → (is_health req.uri.path ≡ true) ⊎ (state.auth_enabled ≡ false)
      → (inner : Request) × (ctx : AuditContext) × (res : Response) × (lines : List AccessEntry)
        × (auth_middleware lib crypto next state req ≡ served inner ctx res lines)
        × (inner.identity ≡ req.identity)
        × (ctx.access_key ≡ none)
  unfolding auth_middleware forward dechunked
  unguarded_served state req h = elim (Bool-cases (is_health req.uri.path || is_sts req)) [
    | inl bypass ↦ (req, no_context, next no_context req, [], ground arith, refl, refl)
    | inr guarded ↦
        let ctx : AuditContext = record { access_key = none; remote_ip = remote_ip req } in
        (
          dechunked req,
          ctx,
          next ctx (dechunked req),
          log_access state req ctx (next ctx (dechunked req)),
          ground arith,
          ground arith,
          refl,
        )
  ]
