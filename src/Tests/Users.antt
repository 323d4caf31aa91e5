-- ===== src/Tests/Users.antt =====
-- Examples for users and temporary credentials.
use kerplace.Base.{
  Text, ℕ, ◌≡◌, refl, true, false, List, [], ◌∷◌, ◌++◌, none, some, codes, text_eq, starts_with,
  strip_prefix, lookup, insert, pos, ◌+ℤ◌, IsI64, arith, replicate, length, take, drop, ◌<ℤ◌, ◌+◌,
  from_be_bytes, from_be, all,
}
use kerplace.Error.{ok, err, invalid_argument}
use kerplace.Iam.{Identity, Policy, policy_name, read_only}
use kerplace.Iam.Store.{IamStore, load, add_user, remove_user, persist, has_parent}
use kerplace.Iam.Sts.{
  sts_prefix, sts_payload_len, sts_tag_len, sts_access_key, sts_secret_key, issue_temp, resolve,
  resolve_sts, open_blob, policy_to_id, policy_from_id, first,
}
use kerplace.Iam.Temporary.{resolve-issue_temp, resolve_sts_sound}
use kerplace.Iam.Users.{UserOp, adds, removes, apply}
use kerplace.Iam.Resolve.{resolve-apply_other}
use kerplace.Iam.Durable.{load-apply, apply_refused}
use kerplace.Tests.Fixtures.{toy_crypto, toy_codec, quiet_disk, small_store, alice}

abbrev nonce : List ℕ
nonce = 1 ∷ 2 ∷ 3 ∷ 4 ∷ 5 ∷ 6 ∷ 7 ∷ 8 ∷ []

-- a second gateway with the same root secret and no users
abbrev other_gateway : IamStore
other_gateway = record small_store { users = [] }

not_its_root :
    text_eq
      (issue_temp toy_crypto (pos 1000) nonce small_store read_only (pos 3600)).0
      other_gateway.root_key
    ≡ false
unfolding text_eq issue_temp sts_access_key
not_its_root = refl

in_time : pos 2000 <ℤ pos 1000 +ℤ pos 3600
unfolding ◌+ℤ◌
in_time = omega arith

in_range : IsI64 (pos 1000 +ℤ pos 3600)
unfolding ◌+ℤ◌
in_range = (omega arith, omega arith)

resolve-issue_temp_example :
    (id : Identity) × (resolve toy_crypto
        (pos 2000)
        other_gateway
        (issue_temp toy_crypto (pos 1000) nonce small_store read_only (pos 3600)).0
      ≡ some id)
    × (id.policy ≡ policy_name read_only)
    × (id.secret_key ≡ (issue_temp toy_crypto (pos 1000) nonce small_store read_only (pos 3600)).1)
    × (id.enabled ≡ true)
resolve-issue_temp_example =
    resolve-issue_temp toy_crypto (pos 1000) (pos 2000) (pos 3600) nonce small_store other_gateway
      read_only refl in_range in_time refl not_its_root

-- a payload for reading that expires at second 4600, and its tag
abbrev blob : List ℕ
blob = 3 ∷ 0 ∷ 0 ∷ 0 ∷ 0 ∷ 0 ∷ 0 ∷ 17 ∷ 248 ∷ 1 ∷ 2 ∷ 3 ∷ 4 ∷ 5 ∷ 6 ∷ 7 ∷ 8 ∷ replicate 16 0

abbrev guest : Identity
guest = record {
  access_key = sts_prefix ++ blob;
  secret_key = replicate 32 0;
  policy = codes "readonly";
  enabled = true;
  buckets = none;
}

guest_resolves : resolve_sts toy_crypto (pos 2000) small_store (sts_prefix ++ blob) ≡ some guest
unfolding resolve_sts strip_prefix open_blob policy_from_id from_be_bytes from_be text_eq
    sts_secret_key policy_name
guest_resolves = refl

resolve_sts_sound_example :
    (b64 : Text) × (bytes : List ℕ) × (p : Policy) × (sts_prefix ++ blob ≡ sts_prefix ++ b64)
    × (some b64 ≡ some bytes)
    × (length bytes ≡ sts_payload_len + sts_tag_len)
    × (take sts_tag_len (replicate 32 0) ≡ drop sts_payload_len bytes)
    × (pos 2000 <ℤ from_be_bytes (take 8 (drop 1 (take sts_payload_len bytes))))
    × (guest.policy ≡ policy_name p)
    × (first bytes ≡ some (policy_to_id p))
resolve_sts_sound_example =
    resolve_sts_sound toy_crypto (pos 2000) small_store (sts_prefix ++ blob) guest guest_resolves

abbrev add_bob : UserOp
add_bob = adds (codes "bob") (codes "hunter2") (codes "readwrite")

bob_not_alice : text_eq (codes "bob") (codes "alice") ≡ false
unfolding text_eq
bob_not_alice = refl

resolve-apply_other_example :
    resolve toy_crypto (pos 0) (apply toy_codec quiet_disk add_bob small_store).0 (codes "alice")
    ≡ resolve toy_crypto (pos 0) small_store (codes "alice")
resolve-apply_other_example =
    resolve-apply_other toy_crypto toy_codec (pos 0) quiet_disk add_bob small_store (codes "alice")
      bob_not_alice

alice_not_root : text_eq (codes "alice") (codes "root") ≡ false
unfolding text_eq
alice_not_root = refl

alice_not_temporary : starts_with (codes "alice") sts_prefix ≡ false
unfolding starts_with
alice_not_temporary = refl

alice_listed : lookup (codes "alice") small_store.users ≡ some alice
unfolding lookup text_eq
alice_listed = refl

temporary_not_root : text_eq (codes "KPSTSx") (codes "root") ≡ false
unfolding text_eq
temporary_not_root = refl

temporary_prefix : starts_with (codes "KPSTSx") sts_prefix ≡ true
unfolding starts_with
temporary_prefix = refl

bob_added : (apply toy_codec quiet_disk add_bob small_store).1 ≡ ok tt
unfolding apply add_user persist insert lookup text_eq has_parent all
bob_added = refl

load-apply_example :
    (load toy_codec
      (codes "users.json")
      (codes "root")
      (codes "rootsecret")
      none
      (apply toy_codec quiet_disk add_bob small_store).0.disk).users
    ≡ (apply toy_codec quiet_disk add_bob small_store).0.users
load-apply_example = load-apply toy_codec quiet_disk add_bob small_store refl bob_added

root_stays :
    (apply toy_codec quiet_disk (removes (codes "root")) small_store).1
    ≡ err (invalid_argument (codes "cannot remove root user"))
unfolding apply remove_user text_eq
root_stays = refl

apply_refused_example :
    (apply toy_codec quiet_disk (removes (codes "root")) small_store).0 ≡ small_store
apply_refused_example =
    apply_refused toy_codec quiet_disk (removes (codes "root")) small_store
      (codes "cannot remove root user") root_stays

abbrev document : List ℕ
document = toy_codec.encode small_store.users

-- The seed names a user of the file and the root key.
abbrev seed : Text
seed = codes "alice:other:readwrite,root:guess:readwrite"
