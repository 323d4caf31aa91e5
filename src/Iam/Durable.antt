-- ===== src/Iam/Durable.antt =====
-- Users on disk: what a successful operation leaves for the next start, what a refused one leaves
-- alone, and what the seed of `KP_USERS` may add.
use kerplace.Base.{Text, ◌≡◌, false, none, some, arith, is_empty}
use kerplace.Error.{ok, err, invalid_argument}
use kerplace.Iam.Store.{
  IamStore, UsersCodec, DiskEvents, persist, add_user, remove_user, update_user, set_status,
  set_policy, set_buckets, load,
}
use kerplace.Iam.Users.{UserOp, adds, apply, persist_keeps}

module _ (codec : UsersCodec) where
  persist_written :
      (io : DiskEvents) (s : IamStore)
      → is_empty s.path ≡ false
      → (persist codec io s).1 ≡ ok tt
      → (persist codec io s).0.disk ≡ some (codec.encode s.users)
  unfolding persist
  persist_written io s p h = ground arith

  persist_not_invalid :
      (io : DiskEvents) (s : IamStore) (m : Text)
      → ¬ ((persist codec io s).1 ≡ err (invalid_argument m))
  unfolding persist
  persist_not_invalid io s m h = ground arith

  apply_written :
      (io : DiskEvents) (op : UserOp) (s : IamStore)
      → is_empty s.path ≡ false
      → (apply codec io op s).1 ≡ ok tt
      → (apply codec io op s).0.disk ≡ some (codec.encode (apply codec io op s).0.users)
  unfolding apply add_user remove_user set_status set_policy set_buckets update_user
  apply_written io (adds k x p) s e h = grind (arith, persist_keeps, persist_written)
  apply_written io op s e h = grind (arith, persist_keeps, persist_written)

  -- After an operation on users that succeeds, of a store with a file, a start with no seed reads
  -- back exactly the users that the running store has.
  pub load-apply :
      (io : DiskEvents) (op : UserOp) (s : IamStore)
      → is_empty s.path ≡ false
      → (apply codec io op s).1 ≡ ok tt
      → (load codec s.path s.root_key s.root_secret none (apply codec io op s).0.disk).users
        ≡ (apply codec io op s).0.users
  unfolding load
  load-apply io op s e h =
      rw (apply_written io op s e h, codec.decode-encode (apply codec io op s).0.users)

  -- An operation that is refused as invalid has changed nothing, in memory or on disk.
  pub apply_refused :
      (io : DiskEvents) (op : UserOp) (s : IamStore) (m : Text)
      → (apply codec io op s).1 ≡ err (invalid_argument m)
      → (apply codec io op s).0 ≡ s
  unfolding apply add_user remove_user set_status set_policy set_buckets update_user
  apply_refused io (adds k x p) s m h = grind (arith, persist_not_invalid)
  apply_refused io op s m h = grind (arith, persist_not_invalid)
