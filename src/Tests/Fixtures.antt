-- ===== src/Tests/Fixtures.antt =====
-- Small functions that stand for the third-party code in the examples, with the laws it has.
use kerplace.Base.{
  Text, ℕ, zero, suc, ◌≡◌, refl, ap, Bool, true, false, if◌then◌else◌, List, [], ◌∷◌, ◌++◌, Option,
  none, some, codes, length, take, drop, replicate, take_append, drop_append, Dict,
  length-replicate, ◌+ℤ◌, pos, ◌==◌,
}
use kerplace.Iam.Store.{IamStore, StoredUser, UsersCodec, DiskEvents}
use kerplace.Iam.Sts.{StsCrypto}
use kerplace.Auth.SigV4.{SigLib, nanos}

-- A keyed hash that is always zero, and no encoding.
abbrev pub toy_crypto : StsCrypto
toy_crypto = record {
  hmac_sha256 = λ secret m. replicate 32 0;
  b64_encode = λ bytes. bytes;
  b64_decode = λ t. some t;
  length-hmac_sha256 = λ secret m. length-replicate {A = ℕ} 32 0;
  b64_decode-encode = λ bytes. refl;
}

pub some_inj {ℓ} : {A : Type ℓ} (a b : A) → some a ≡ some b → b ≡ a
some_inj a b h = cc

-- A signature that is always empty, and dates that are all the epoch.
abbrev pub toy_lib : SigLib
toy_lib = record {
  sha256 = λ m. [];
  hmac_sha256 = λ key m. [];
  hex_encode = λ bytes. bytes;
  percent_decode = λ t. t;
  percent_encode = λ t. t;
  parse_datetime = λ t. some (pos 0);
  plus_seconds = λ t n. some (t +ℤ nanos n);
  plus_seconds_exact = λ t n u h. some_inj (t +ℤ nanos n) u h;
}

-- A users document: each text after its length, each list after its number of elements.
abbrev put_text : Text → List ℕ → List ℕ
put_text t rest = length t ∷ (t ++ rest)

abbrev get_text : List ℕ → Text × List ℕ
get_text [] = ([], [])
get_text (n ∷ s) = (take n s, drop n s)

get_text-put_text : (t : Text) (rest : List ℕ) → get_text (put_text t rest) ≡ (t, rest)
get_text-put_text t rest = rw (take_append t rest, drop_append t rest)

unfoldable pub put_texts : List Text → List ℕ → List ℕ
put_texts [] rest = rest
put_texts (t ∷ ts) rest = put_text t (put_texts ts rest)

unfoldable pub get_texts : ℕ → List ℕ → List Text × List ℕ
get_texts zero s = ([], s)
get_texts (suc n) s =
    let (t, more) = get_text s in let rest = get_texts n more in (t ∷ rest.0, rest.1)

get_texts-put_texts :
    (ts : List Text) (rest : List ℕ) → get_texts (length ts) (put_texts ts rest) ≡ (ts, rest)
unfolding put_texts get_texts
get_texts-put_texts [] rest = refl
get_texts-put_texts (t ∷ ts) rest = rw (
  take_append t (put_texts ts rest),
  drop_append t (put_texts ts rest),
  get_texts-put_texts ts rest,
)

abbrev put_scope : Option (List Text) → List ℕ → List ℕ
put_scope none rest = 0 ∷ rest
put_scope (some ts) rest = 1 ∷ (length ts ∷ put_texts ts rest)

abbrev get_scope : List ℕ → Option (List Text) × List ℕ
get_scope (suc one ∷ (n ∷ s)) = let ts = get_texts n s in (some ts.0, ts.1)
get_scope (zero ∷ s) = (none, s)
get_scope _ = (none, [])

get_scope-put_scope :
    (o : Option (List Text)) (rest : List ℕ) → get_scope (put_scope o rest) ≡ (o, rest)
get_scope-put_scope none rest = refl
get_scope-put_scope (some ts) rest = rw (get_texts-put_texts ts rest)

abbrev put_flag : Bool → List ℕ → List ℕ
put_flag b rest = (if b then 1 else 0) ∷ rest

abbrev get_flag : List ℕ → Bool × List ℕ
get_flag [] = (false, [])
get_flag (n ∷ s) = (n == 1, s)

flag_back : (b : Bool) → ((if b then 1 else 0) == 1) ≡ b
flag_back true = refl
flag_back false = refl

unfoldable pub put_users : Dict StoredUser → List ℕ → List ℕ
put_users [] rest = rest
put_users ((k, u) ∷ m) rest = put_text k (
    put_text u.secret_key
      (put_text u.policy (put_flag u.enabled (put_scope u.buckets (put_users m rest)))))

unfoldable pub get_users : ℕ → List ℕ → Dict StoredUser
get_users zero s = []
get_users (suc n) s =
    let (k, s1) = get_text s in
    let (secret, s2) = get_text s1 in
    let (policy, s3) = get_text s2 in
    let (on, s4) = get_flag s3 in
    let scope = get_scope s4 in
    let rest = get_users n scope.1 in
    (k, record { secret_key = secret; policy = policy; enabled = on; buckets = scope.0 }) ∷ rest

pub get_users-put_users : (m : Dict StoredUser) → get_users (length m) (put_users m []) ≡ m
unfolding put_users get_users
get_users-put_users [] = refl
get_users-put_users ((k, u) ∷ m) =
    let rest = get_users-put_users m in
    simp (take_append, drop_append, flag_back, get_scope-put_scope, rest)

abbrev get_document : List ℕ → Dict StoredUser
get_document [] = []
get_document (n ∷ s) = get_users n s

abbrev pub toy_codec : UsersCodec
toy_codec = record {
  encode = λ users. length users ∷ put_users users [];
  decode = λ bytes. some (get_document bytes);
  decode-encode = λ users. ap some (get_users-put_users users);
}

abbrev pub quiet_disk : DiskEvents
quiet_disk = record { mkdir_error = none; write_error = none }

abbrev pub alice : StoredUser
alice = record {
  secret_key = codes "s3cret";
  policy = codes "readonly";
  enabled = true;
  buckets = some (codes "logs" ∷ []);
}

abbrev pub small_store : IamStore
small_store = record {
  root_key = codes "root";
  root_secret = codes "rootsecret";
  users = (codes "alice", alice) ∷ [];
  path = codes "users.json";
  disk = none;
}
