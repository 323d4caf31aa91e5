-- ===== src/Iam/Resolve.antt =====
-- What `resolve` answers after an operation on users.
use kerplace.Base.{
  Text, ◌≡◌, true, false, List, Option, none, some, text_eq, text_eq_refl, arith, ℤ, lookup, insert,
  lookup-insert, is_empty, starts_with,
}
use kerplace.Iam.Store.{
  IamStore, StoredUser, UsersCodec, DiskEvents, root_identity, user_identity, add_user, update_user,
  set_policy,
}
use kerplace.Iam.Sts.{StsCrypto, resolve, resolve_sts, open_blob, sts_secret_key, sts_prefix}
use kerplace.Iam.Users.{UserOp, adds, target, apply, apply_keeps, lookup-apply, persist_keeps}

module _ (crypto : StsCrypto) where
  -- A temporary credential depends on the root secret only.
  resolve_sts_secret :
      (now : ℤ) (s t : IamStore) (k : Text)
      → t.root_secret ≡ s.root_secret
      → resolve_sts crypto now t k ≡ resolve_sts crypto now s k
  unfolding resolve_sts open_blob sts_secret_key
  resolve_sts_secret now s t k e = rw e

  -- Two stores that agree on the root credential and on one entry resolve that key alike.
  resolve_local :
      (now : ℤ) (s t : IamStore) (k : Text)
      → t.root_key ≡ s.root_key
      → t.root_secret ≡ s.root_secret
      → lookup k t.users ≡ lookup k s.users
      → resolve crypto now t k ≡ resolve crypto now s k
  unfolding resolve root_identity
  resolve_local now s t k key secret entry = ground (arith, resolve_sts_secret now s t k secret)

  module _ (codec : UsersCodec) (now : ℤ) (io : DiskEvents) where
    -- An operation on users, whether it succeeds or fails and whatever the disk does, leaves every
    -- other access key resolved as before.
    pub resolve-apply_other :
        (op : UserOp) (s : IamStore) (k : Text)
        → text_eq (target op) k ≡ false
        → resolve crypto now (apply codec io op s).0 k ≡ resolve crypto now s k
    resolve-apply_other op s k h =
        let (key, secret, _) = apply_keeps codec io op s in
        resolve_local now s (apply codec io op s).0 k key secret (lookup-apply codec io op s k h)

    -- No operation on users, on whatever key, takes the root credential away or limits it.
    resolve-apply_root :
        (op : UserOp) (s : IamStore)
        → resolve crypto now (apply codec io op s).0 s.root_key ≡ some (root_identity s)
    unfolding resolve root_identity
    resolve-apply_root op s =
        let (key, secret, _) = apply_keeps codec io op s in
        rw (key, secret, text_eq_refl s.root_key)

    -- `resolve` of a stored user's key.
    resolve_stored :
        (s : IamStore) (k : Text) (u : StoredUser)
        → text_eq k s.root_key ≡ false
        → starts_with k sts_prefix ≡ false
        → lookup k s.users ≡ some u
        → resolve crypto now s k ≡ some (user_identity k u)
    unfolding resolve
    resolve_stored s k u h1 h2 h3 = rw (h1, h2, h3)

    -- The bucket scope that a key has before `add_user`.
    abbrev pub old_scope : IamStore → Text → Option (List Text)
    old_scope s k = elim (lookup k s.users) [ none ↦ none | some u ↦ u.buckets ]

    lookup-add_user :
        (k secret p : Text) (s : IamStore)
        → is_empty k ≡ false
        → is_empty secret ≡ false
        → text_eq k s.root_key ≡ false
        → lookup k (add_user codec io k secret p s).0.users
          ≡ some
              (record { secret_key = secret; policy = p; enabled = true; buckets = old_scope s k })
    unfolding add_user
    lookup-add_user k secret p s h1 h2 h3 = ground (
      arith,
      text_eq_refl k,
      persist_keeps codec io (record s {
        users =
            insert k
              (record { secret_key = secret; policy = p; enabled = true; buckets = old_scope s k })
              s.users;
      }),
      lookup-insert k k
          (record { secret_key = secret; policy = p; enabled = true; buckets = old_scope s k })
          s.users,
    )

    -- After `add_user` with keys that are not empty, for a key that is neither root's nor of the
    -- form of a temporary credential, the key is resolved to the new secret and policy, enabled,
    -- and to the bucket scope that it had before, whatever the disk does.
    resolve-add_user :
        (k secret p : Text) (s : IamStore)
        → is_empty k ≡ false
        → is_empty secret ≡ false
        → text_eq k s.root_key ≡ false
        → starts_with k sts_prefix ≡ false
        → resolve crypto now (add_user codec io k secret p s).0 k
          ≡ some (record {
            access_key = k;
            secret_key = secret;
            policy = p;
            enabled = true;
            buckets = old_scope s k;
          })
    unfolding user_identity apply
    resolve-add_user k secret p s h1 h2 h3 h4 =
        let (key, _, _) = apply_keeps codec io (adds k secret p) s in
        resolve_stored (add_user codec io k secret p s).0 k _ (rw key h3) h4
          (lookup-add_user k secret p s h1 h2 h3)

    -- A user added under a key that has the form of a temporary credential, other than the root
    -- key, is never resolved: the answer is that of the temporary credentials alone.
    pub resolve-add_user_shadowed :
        (k secret p : Text) (s : IamStore)
        → text_eq k s.root_key ≡ false
        → starts_with k sts_prefix ≡ true
        → resolve crypto now (add_user codec io k secret p s).0 k ≡ resolve_sts crypto now s k
    unfolding resolve apply
    resolve-add_user_shadowed k secret p s h1 h2 =
        let (key, root, _) = apply_keeps codec io (adds k secret p) s in
        rw (key, h1, h2) (resolve_sts_secret now s (add_user codec io k secret p s).0 k root)

    lookup-set_policy :
        (k p : Text) (s : IamStore) (u : StoredUser)
        → lookup k s.users ≡ some u
        → text_eq k s.root_key ≡ false
        → lookup k (set_policy codec io k p s).0.users ≡ some (record u { policy = p })
    unfolding set_policy update_user
    lookup-set_policy k p s u h1 h2 = ground (
      arith,
      text_eq_refl k,
      persist_keeps codec io (record s { users = insert k (record u { policy = p }) s.users }),
      lookup-insert k k (record u { policy = p }) s.users,
    )
