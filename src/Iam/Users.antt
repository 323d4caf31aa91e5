-- ===== src/Iam/Users.antt =====
-- The operations on users of src/iam.rs: what each does to what is resolved, in memory and after
-- a restart.
use kerplace.Base.{
  Text, ◌≡◌, Bool, false, List, Option, text_eq, arith, lookup, lookup-insert, lookup-remove,
}
use kerplace.Error.{Result}
use kerplace.Iam.Store.{
  IamStore, UsersCodec, DiskEvents, persist, add_user, remove_user, update_user, set_status,
  set_policy, set_buckets,
}

-- One administrative operation.
pub data UserOp : Type 0 where
  adds : Text → Text → Text → UserOp
  removes : Text → UserOp
  enables : Text → Bool → UserOp
  attaches : Text → Text → UserOp
  scopes : Text → Option (List Text) → UserOp

abbrev pub target : UserOp → Text
target (adds k _ _) = k
target (removes k) = k
target (enables k _) = k
target (attaches k _) = k
target (scopes k _) = k

module _ (codec : UsersCodec) where
  unfoldable pub apply : DiskEvents → UserOp → IamStore → IamStore × Result (Unit {0})
  apply io (adds k secret p) s = add_user codec io k secret p s
  apply io (removes k) s = remove_user codec io k s
  apply io (enables k enabled) s = set_status codec io k enabled s
  apply io (attaches k p) s = set_policy codec io k p s
  apply io (scopes k buckets) s = set_buckets codec io k buckets s

  -- `persist` touches the disk only.
  pub persist_keeps :
      (io : DiskEvents) (s : IamStore)
      → ((persist codec io s).0.users ≡ s.users)
        × ((persist codec io s).0.root_key ≡ s.root_key)
        × ((persist codec io s).0.root_secret ≡ s.root_secret)
        × ((persist codec io s).0.path ≡ s.path)
  unfolding persist
  persist_keeps io s = ground arith

  pub apply_keeps :
      (io : DiskEvents) (op : UserOp) (s : IamStore)
      → ((apply io op s).0.root_key ≡ s.root_key)
        × ((apply io op s).0.root_secret ≡ s.root_secret)
        × ((apply io op s).0.path ≡ s.path)
  unfolding apply add_user remove_user set_status set_policy set_buckets update_user
  apply_keeps io (adds k x p) s = grind (arith, persist_keeps)
  apply_keeps io op s = grind (arith, persist_keeps)

  -- An operation changes the entry of its own key only.
  pub lookup-apply :
      (io : DiskEvents) (op : UserOp) (s : IamStore) (j : Text)
      → text_eq (target op) j ≡ false
      → lookup j (apply io op s).0.users ≡ lookup j s.users
  unfolding apply add_user remove_user set_status set_policy set_buckets update_user
  lookup-apply io (adds k x p) s j h = grind (arith, persist_keeps, lookup-insert, lookup-remove)
  lookup-apply io op s j h = grind (arith, persist_keeps, lookup-insert, lookup-remove)
