-- ===== src/Iam/Store.antt =====
-- The identity store of src/iam.rs: the root credential, the users in memory, and the users
-- document on disk. The JSON codec (serde) and the outcome of each disk operation are parameters.
use kerplace.Base.{
  ◌≡◌, Text, ℕ, Bool, true, not, ◌||◌, if◌then◌else◌, List, [], ◌∷◌, ◌++◌, Option, none, some, all,
  map, filter, codes, is_empty, split, trim, text_eq, ◌==◌, Dict, lookup, insert, or_insert, remove,
  get_elem?, unwrap_or, ltb, length, text_ltb, sort_by,
}
use kerplace.Error.{Result, ok, err, invalid_argument, internal}
use kerplace.Iam.{Identity, Policy, policy_name, parse_bucket_list}

pub record StoredUser : Type 0 where
  pub secret_key : Text
  pub policy : Text
  pub enabled : Bool
  pub buckets : Option (List Text)

abbrev pub default_policy : Text
default_policy = codes "readwrite"

pub record IamStore : Type 0 where
  pub root_key : Text
  pub root_secret : Text
  pub users : Dict StoredUser
  pub path : Text
  -- the bytes of the file at `path`, if it is there
  pub disk : Option (List ℕ)

-- serde_json for the users document: `decode` fills in the defaults of missing fields.
pub record UsersCodec : Type 0 where
  pub encode : Dict StoredUser → List ℕ
  pub decode : List ℕ → Option (Dict StoredUser)
  pub decode-encode : (users : Dict StoredUser) → decode (encode users) ≡ some users

-- What the disk does in one `persist`: the message of a failed `create_dir_all`, and of a failed
-- write with the file that it leaves (a write truncates first).
pub record DiskEvents : Type 0 where
  pub mkdir_error : Option Text
  pub write_error : Option (Text × Option (List ℕ))

-- `self.path.parent()` is there unless the path is empty or the root
unfoldable pub has_parent : Text → Bool
has_parent path = not (all (λ c. c == b'/') path)

abbrev write_file :
    Option (Text × Option (List ℕ)) → List ℕ → IamStore → IamStore × Result (Unit {0})
write_file none json s = (record s { disk = some json }, ok tt)
write_file (some (e, left)) json s =
    (record s { disk = left }, err (internal (codes "write users: " ++ e)))

-- the access key and the user of one entry of `KP_USERS`, cut at its colons
unfoldable pub entry_key : List Text → Text
entry_key parts = unwrap_or (get_elem? parts 0) []

unfoldable pub entry_user : List Text → StoredUser
entry_user parts = record {
  secret_key = unwrap_or (get_elem? parts 1) [];
  policy = unwrap_or (get_elem? parts 2) default_policy;
  enabled = true;
  buckets = elim (get_elem? parts 3) [ none ↦ none | some f ↦ parse_bucket_list f ];
}

-- the loop's body for one entry, after `trim`
unfoldable pub seed_entry : Text → Dict StoredUser → Text → Dict StoredUser
seed_entry root_key users entry =
    let parts = split b':' entry in
    if ltb (length parts) 2 || is_empty (entry_key parts) || is_empty (entry_user parts).secret_key
    then users
    else if text_eq (entry_key parts) root_key
    then users
    else or_insert (entry_key parts) (entry_user parts) users

unfoldable pub seed_all : Text → Dict StoredUser → List Text → Dict StoredUser
seed_all root_key users [] = users
seed_all root_key users (e ∷ es) = seed_all root_key (seed_entry root_key users e) es

-- the entries of the raw value
unfoldable pub seed_entries : Text → List Text
seed_entries seed = filter (λ s. not (is_empty s)) (map trim (split b',' seed))

module _ (codec : UsersCodec) where
  -- `create_dir_all` before the write
  abbrev after_mkdir : Option Text → DiskEvents → IamStore → IamStore × Result (Unit {0})
  after_mkdir none io s = write_file io.write_error (codec.encode s.users) s
  after_mkdir (some e) io s = (s, err (internal (codes "mkdir iam: " ++ e)))

  unfoldable pub persist : DiskEvents → IamStore → IamStore × Result (Unit {0})
  unfolding all has_parent
  persist io s =
      if is_empty s.path
      then (s, ok tt)
      else if has_parent s.path
      then after_mkdir io.mkdir_error io s
      else after_mkdir none io s

  abbrev persisted : Option (List ℕ) → Dict StoredUser
  persisted none = []
  persisted (some bytes) = unwrap_or (codec.decode bytes) []

  -- `IamStore::load`, with the file as it is found
  unfoldable pub load : Text → Text → Text → Option Text → Option (List ℕ) → IamStore
  load path root_key root_secret env_seed file = record {
    root_key = root_key;
    root_secret = root_secret;
    users = elim env_seed [
      | none ↦ persisted file
      | some seed ↦ seed_all root_key (persisted file) (seed_entries seed)
    ];
    path = path;
    disk = file;
  }

  unfoldable pub add_user :
      DiskEvents → Text → Text → Text → IamStore → IamStore × Result (Unit {0})
  add_user io access_key secret_key policy s =
      let scope : Option (List Text) = elim (lookup access_key s.users) [
        | none ↦ none
        | some u ↦ u.buckets
      ] in
      let user : StoredUser = record {
        secret_key = secret_key;
        policy = policy;
        enabled = true;
        buckets = scope;
      } in
      if is_empty access_key || is_empty secret_key
      then (s, err (invalid_argument (codes "empty access/secret key")))
      else if text_eq access_key s.root_key
      then (s, err (invalid_argument (codes "cannot redefine root user")))
      else persist io (record s { users = insert access_key user s.users })

  unfoldable pub remove_user : DiskEvents → Text → IamStore → IamStore × Result (Unit {0})
  remove_user io access_key s =
      if text_eq access_key s.root_key
      then (s, err (invalid_argument (codes "cannot remove root user")))
      else persist io (record s { users = remove access_key s.users })

  -- `match users.get_mut(access_key)`: the user is changed in place
  unfoldable pub update_user :
      DiskEvents → Text → (StoredUser → StoredUser) → IamStore → IamStore × Result (Unit {0})
  update_user io access_key change s = elim (lookup access_key s.users) [
    | none ↦ (s, err (invalid_argument (codes "no such user")))
    | some u ↦ persist io (record s { users = insert access_key (change u) s.users })
  ]

  unfoldable pub set_status : DiskEvents → Text → Bool → IamStore → IamStore × Result (Unit {0})
  set_status io access_key enabled s =
      update_user io access_key (λ u. record u { enabled = enabled }) s

  unfoldable pub set_policy : DiskEvents → Text → Text → IamStore → IamStore × Result (Unit {0})
  set_policy io access_key policy s =
      if text_eq access_key s.root_key
      then (s, err (invalid_argument (codes "cannot change root policy")))
      else update_user io access_key (λ u. record u { policy = policy }) s

  unfoldable pub set_buckets :
      DiskEvents → Text → Option (List Text) → IamStore → IamStore × Result (Unit {0})
  set_buckets io access_key buckets s =
      if text_eq access_key s.root_key
      then (s, err (invalid_argument (codes "cannot scope root user")))
      else update_user io access_key (λ u. record u { buckets = buckets }) s

-- The identity of the root credential, and of a stored user.
unfoldable pub root_identity : IamStore → Identity
unfolding policy_name
root_identity s = record {
  access_key = s.root_key;
  secret_key = s.root_secret;
  policy = policy_name Policy.admin;
  enabled = true;
  buckets = none;
}

unfoldable pub user_identity : Text → StoredUser → Identity
user_identity access_key u = record {
  access_key = access_key;
  secret_key = u.secret_key;
  policy = u.policy;
  enabled = u.enabled;
  buckets = u.buckets;
}

-- `keys.sort()`, with each key's user
unfoldable pub sort_users : Dict StoredUser → Dict StoredUser
sort_users = sort_by (λ e f. text_ltb e.0 f.0)

-- `IamStore::list`
unfoldable pub list : IamStore → List Identity
list s = root_identity s ∷ map (λ e. user_identity e.0 e.1) (sort_users s.users)
