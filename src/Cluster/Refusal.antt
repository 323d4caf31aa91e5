-- ===== src/Cluster/Refusal.antt =====
-- src/cluster/server.rs: a drive node refuses the writes of a holder whose lock was granted anew.
use kerplace.Base.{
  Text, ℕ, ◌≡◌, refl, sym, ◌∙◌, ◌*◌, ◌≤◌, ◌&&◌, Bool, true, false, List, [], ◌∷◌, some, text_eq,
  ltb, leb, length, arith, inl, inr, Option-cases,
}
use kerplace.Cluster.LockTable.{LockTable, acquire, slot_of, fence_ok}
use kerplace.Cluster.Fencing.{
  acquires, releases, run, run_op, IsSmall, token_of, token_run_op, fence_ok_token, stale_fenced,
}
use kerplace.Cluster.Server.{
  DriveCalls, DriveState, Headers, bare, Request, health, get_file, put_file, del_file, mkdir,
  rename_file, stat_file, readdir, walk_files, lock_acquire, lock_release, header_token, fenced_out,
  locked, serve, drive_request,
}

-- The requests that change the drive.
unfoldable pub is_write : Request → Bool
is_write (put_file _ _) = true
is_write (del_file _ _) = true
is_write (mkdir _) = true
is_write (rename_file _ _) = true
is_write _ = false

module _ {D : Type 0} (calls : DriveCalls D) (digits : ℕ → List ℕ) where
  -- A run of requests, each with its headers and the clock's reading.
  unfoldable pub requests : DriveState D → List (Headers × ℕ × Request) → DriveState D
  unfolding drive_request
  requests st [] = st
  requests st ((h, now, q) ∷ qs) = requests (drive_request calls st h now digits q).0 qs

  -- The lock table stays within the limit of its garbage collection.
  unfoldable pub StaySmall : DriveState D → List (Headers × ℕ × Request) → Type 0
  unfolding drive_request
  StaySmall st [] = length st.locks ≤ 4096
  StaySmall st ((h, now, q) ∷ qs) =
      (length st.locks ≤ 4096) × StaySmall (drive_request calls st h now digits q).0 qs

  locked_table :
      (resource owner : Text) (now ttl : ℕ) (m : LockTable)
      → (locked (acquire resource owner now ttl m) digits).0 ≡ (acquire resource owner now ttl m).0
  locked_table resource owner now ttl m = elim (Option-cases (acquire resource owner now ttl m).1) [
    | inl e ↦ ground (arith, e)
    | inr (t, e) ↦ ground (arith, e)
  ]

  granted_state :
      (st : DriveState D) (h : Headers) (resource owner : Text) (ttl_ms now token : ℕ)
      → (acquire resource owner now (ttl_ms * 1000000) st.locks).1 ≡ some token
      → ((serve calls st h now digits (lock_acquire resource owner ttl_ms)).0.locks
          ≡ (acquire resource owner now (ttl_ms * 1000000) st.locks).0)
        × ((serve calls st h now digits (lock_acquire resource owner ttl_ms)).1
            ≡ record { status = 200; body = digits token })
  unfolding serve
  granted_state st h resource owner ttl_ms now token g = (ground (arith, g), ground (arith, g))

  small_now :
      (st : DriveState D) (qs : List (Headers × ℕ × Request))
      → StaySmall st qs
      → length st.locks ≤ 4096
  unfolding StaySmall
  small_now st [] h = h
  small_now st ((x, now, q) ∷ qs) h = h.0

  token_serve :
      (st : DriveState D) (h : Headers) (now : ℕ) (q : Request) (r : Text)
      → length st.locks ≤ 4096
      → token_of r st.locks ≤ token_of r (serve calls st h now digits q).0.locks
  unfolding serve
  token_serve st h now (lock_acquire resource owner ttl) r small =
      let step : token_of r st.locks
          ≤ token_of r (acquire resource owner now (ttl * 1000000) st.locks).0 =
        unfold run_op in
        token_run_op (acquires resource owner now (ttl * 1000000)) r st.locks small in
      rw (locked_table resource owner now (ttl * 1000000) st.locks) step
  token_serve st h now (lock_release resource owner) r small =
      unfold run_op in token_run_op (releases resource owner) r st.locks small
  token_serve st h now health r small = omega arith
  token_serve st h now (get_file p) r small = omega arith
  token_serve st h now (stat_file p) r small = omega arith
  token_serve st h now (readdir p) r small = omega arith
  token_serve st h now (walk_files p) r small = omega arith
  token_serve st h now (put_file p body) r small = ground arith
  token_serve st h now (del_file p kind) r small = ground arith
  token_serve st h now (mkdir p) r small = ground arith
  token_serve st h now (rename_file from to) r small = ground arith

  token_request :
      (st : DriveState D) (h : Headers) (now : ℕ) (q : Request) (r : Text)
      → length st.locks ≤ 4096
      → token_of r st.locks ≤ token_of r (drive_request calls st h now digits q).0.locks
  unfolding drive_request
  token_request st h now q r small = ground (arith, token_serve st h now q r small)

  token_requests :
      (qs : List (Headers × ℕ × Request)) (st : DriveState D) (r : Text)
      → StaySmall st qs
      → token_of r st.locks ≤ token_of r (requests st qs).locks
  unfolding requests StaySmall
  token_requests [] st r small = omega arith
  token_requests ((h, now, q) ∷ qs) st r small = omega (
    arith,
    token_request st h now q r small.0,
    token_requests qs (drive_request calls st h now digits q).0 r small.1,
  )

  -- A write that is fenced out.
  refused_write :
      (st : DriveState D) (h : Headers) (now : ℕ) (q : Request) (resource : Text) (stale : ℕ)
      → h.fence_resource ≡ some resource
      → header_token h.fence_token ≡ some stale
      → fence_ok resource stale st.locks ≡ false
      → is_write q ≡ true
      → serve calls st h now digits q ≡ (st, bare 412)
  unfolding serve fenced_out is_write
  refused_write st h now (put_file p body) resource stale r t f w = rw (r, t, f) refl
  refused_write st h now (del_file p kind) resource stale r t f w = rw (r, t, f) refl
  refused_write st h now (mkdir p) resource stale r t f w = rw (r, t, f) refl
  refused_write st h now (rename_file from to) resource stale r t f w = rw (r, t, f) refl
  refused_write st h now health resource stale r t f w = absurd (cc)
  refused_write st h now (get_file p) resource stale r t f w = absurd (cc)
  refused_write st h now (stat_file p) resource stale r t f w = absurd (cc)
  refused_write st h now (readdir p) resource stale r t f w = absurd (cc)
  refused_write st h now (walk_files p) resource stale r t f w = absurd (cc)
  refused_write st h now (lock_acquire a b c) resource stale r t f w = absurd (cc)
  refused_write st h now (lock_release a b) resource stale r t f w = absurd (cc)

  -- Once a node has answered a request for a lock with a fresh grant, it answers 412 to every write
  -- that carries an older token of the resource and leaves the drive and the locks as they are,
  -- whatever requests it served in between. The grant is not the refresh of the owner's own live
  -- lease, and the lock table has at most 4096 slots from the grant to the write.
  pub stale_write_refused :
      (st : DriveState D) (h0 h : Headers) (resource owner : Text) (ttl_ms now then_on : ℕ)
      (qs : List (Headers × ℕ × Request)) (stale token : ℕ) (q : Request)
      → length st.locks ≤ 4096
      → stale ≤ token_of resource st.locks
      → (acquire resource owner now (ttl_ms * 1000000) st.locks).1 ≡ some token
      → (text_eq (slot_of resource now st.locks).owner owner
          && ltb now (slot_of resource now st.locks).expiry)
        ≡ false
      → StaySmall (serve calls st h0 now digits (lock_acquire resource owner ttl_ms)).0 qs
      → h.fence_resource ≡ some resource
      → header_token h.fence_token ≡ some stale
      → is_write q ≡ true
      → (serve calls st h0 now digits (lock_acquire resource owner ttl_ms)).1
          ≡ record { status = 200; body = digits token }
        × (let after =
              requests (serve calls st h0 now digits (lock_acquire resource owner ttl_ms)).0 qs in
            serve calls after h then_on digits q ≡ (after, bare 412))
  stale_write_refused st h0 h resource owner ttl_ms now then_on qs stale token q small old granted
        fresh stay r t w =
      let ttl = ttl_ms * 1000000 in
      let next = (serve calls st h0 now digits (lock_acquire resource owner ttl_ms)).0 in
      let after = requests next qs in
      let (locks, answer) = granted_state st h0 resource owner ttl_ms now token granted in
      let here : IsSmall [] (acquire resource owner now ttl st.locks).0 =
        unfold IsSmall in rw (← locks) (small_now next qs stay) in
      let (out, _) =
        stale_fenced resource owner now ttl st.locks stale token [] small old granted fresh here in
      let up = token_requests qs next resource stay in
      let behind : leb (token_of resource next.locks) stale ≡ false =
        sym (fence_ok_token resource stale next.locks) ∙ (rw locks (unfold run in out)) in
      let fenced : fence_ok resource stale after.locks ≡ false =
        fence_ok_token resource stale after.locks ∙ ground arith in
      (answer, refused_write after h then_on q resource stale r t fenced w)
