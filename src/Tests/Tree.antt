-- ===== src/Tests/Tree.antt =====
-- Examples for the store of one directory tree: a file system in which every directory is there, and
-- sidecars of objects without a version and without user metadata.
use kerplace.Base.{
  Text, ℕ, Bool, true, false, ◌≡◌, ◌≢◌, refl, sym, ap, ◌↔◌, ◌==◌, if◌then◌else◌, List, [], ◌∷◌,
  ◌++◌, Option, none, some, codes, length, take, drop, arith, text_eq_iff, Outcome, done, failed,
  Bool-cases, inl, inr, Dict, take_append_of, drop_append_of, text_eq, contains_char, any, split,
  contains, as_bytes, all, starts_with,
}
use mathlib.Core.List.{append-nil}
use kerplace.Error.{Result, ok}
use kerplace.Storage.{ObjectMeta}
use kerplace.Storage.Names.{validate_bucket_name, validate_key}
use kerplace.Storage.Names.{byte_at}
use kerplace.Crypto.{container_header}
use kerplace.Crypto.Sealing.{seal_chunks}
use kerplace.Crypto.Keys.{passphrase_provider}
use kerplace.Fs.Tree.{
  FilePath, settle, FileSystem, IsFileSystem, Stat, object_path, bucket_path, parent,
}
use kerplace.Fs.Files.{
  StoredMeta, FsStore, Json, IsJson, Fresh, stat_meta, stored_to_meta, head_bucket,
}
use kerplace.Fs.Store.{path_eq, put_object, get_object, set_object_tags}
use kerplace.Fs.Runs.{concat}
use kerplace.Fs.ReadBack.{whole_body, get_object-put_object}
use kerplace.Fs.Collisions.{tagged, get_object-set_object_tags}
use kerplace.Tests.Sealed.{aead, aead-IsAead, kek, faithful, random_bytes, base_nonce}

abbrev pub Disk : Type 0
Disk = FilePath → Option (List ℕ)

pub path_eq_iff : (p q : FilePath) → (path_eq p q ≡ true) ↔ (p ≡ q)
unfolding path_eq
path_eq_iff [] [] = (λ _. refl, λ _. refl)
path_eq_iff [] (b ∷ q) = (λ h. absurd (cc h), λ h. absurd (cc h))
path_eq_iff (a ∷ p) [] = (λ h. absurd (cc h), λ h. absurd (cc h))
path_eq_iff (a ∷ p) (b ∷ q) = ground (arith, text_eq_iff a b, path_eq_iff p q)

abbrev pub at : FilePath → Option (List ℕ) → Disk → Disk
at p b s q = if path_eq p q then b else s q

pub at_self : (p : FilePath) (b : Option (List ℕ)) (s : Disk) → at p b s p ≡ b
at_self p b s = rw ((path_eq_iff p p).1 refl) refl

pub at_other : (p q : FilePath) (b : Option (List ℕ)) (s : Disk) → q ≢ p → at p b s q ≡ s q
at_other p q b s apart = elim (Bool-cases (path_eq p q)) [
  | inl e ↦ absurd (apart (sym ((path_eq_iff p q).0 e)))
  | inr e ↦ rw e refl
]

abbrev pub stat_of : Option (List ℕ) → Stat
stat_of (some b) = record { is_file = true; is_dir = false; len = length b; modified = some 5 }
stat_of none = record { is_file = false; is_dir = true; len = 0; modified = none }

abbrev append_to : FilePath → List ℕ → Option (List ℕ) → Disk → Disk × Option Text
append_to p c (some b) s = (at p (some (b ++ c)) s, none)
append_to p c none s = (s, some (codes "not found"))

append_other :
    (p q : FilePath) (c : List ℕ) (b : Option (List ℕ)) (s : Disk)
    → q ≢ p
    → (append_to p c b s).0 q ≡ s q
append_other p q c (some b) s apart = at_other p q (some (b ++ c)) s apart
append_other p q c none s apart = refl

abbrev move_to : FilePath → FilePath → Option (List ℕ) → Disk → Disk × Option Text
move_to p q (some b) s = (at q (some b) (at p none s), none)
move_to p q none s = (s, some (codes "not found"))

-- What is left when the files of a directory are gone.
abbrev under : FilePath → Disk → Disk
under p s q = if path_eq (parent q) p then none else s q

abbrev pub disk : FileSystem Disk
disk = record {
  metadata = λ s p. some (stat_of (s p));
  read = λ s p. s p;
  create_dir_all = λ p s. (s, none);
  create = λ p s. (at p (some []) s, none);
  append = λ p c s. append_to p c (s p) s;
  write = λ p b s. (at p (some b) s, none);
  rename = λ p q s. move_to p q (s p) s;
  remove_file = λ p s. (at p none s, none);
  remove_dir = λ p s. (s, some (codes "not empty"));
  remove_dir_all = λ p s. (under p s, none);
  show_path = λ p. [];
}

pub disk-IsFileSystem : IsFileSystem disk
disk-IsFileSystem = record {
  metadata_read = λ s p b h. (stat_of (some b), rw h refl, refl, refl);
  read-create_dir_all = λ s p q b h. h;
  read-create = λ s p h. at_self p (some []) s;
  read-append = λ s p b c h fine. rw h (at_self p (some (b ++ c)) s);
  read-append_other = λ s p q b apart. append_other p q b (s p) s (λ e. apart (ap settle e));
  read-write = λ s p b h. at_self p (some b) s;
  read-write_other = λ s p q b apart. at_other p q (some b) s (λ e. apart (ap settle e));
  read-rename = λ s p q b h fine. rw h (at_self q (some b) (at p none s));
}

abbrev flag : Bool → ℕ
flag true = 1
flag false = 0

abbrev coded : StoredMeta → Dict Text → Option Text → Outcome Text (List ℕ)
coded m [] none =
    done (length m.etag ∷ m.etag ++ m.size ∷ m.last_modified ∷ flag m.encrypted ∷ m.content_type)
coded m _ _ = failed (codes "not kept")

abbrev pub parts : Text → List ℕ → Option StoredMeta
parts etag (size ∷ modified ∷ sealed ∷ kind) = some (record {
  etag = etag;
  size = size;
  content_type = kind;
  user_metadata = [];
  last_modified = modified;
  encrypted = sealed == 1;
  version_id = none;
})
parts etag _ = none

abbrev read_coded : List ℕ → Option StoredMeta
read_coded [] = none
read_coded (n ∷ bytes) = parts (take n bytes) (drop n bytes)

abbrev json : Json
json = record {
  encode_meta = λ m. coded m m.user_metadata m.version_id;
  decode_meta = read_coded;
  encode_history = λ h. failed (codes "not kept");
  decode_history = λ b. none;
  status_of = λ b. some (some b);
}

flag-eq_one : (b : Bool) → (flag b == 1) ≡ b
flag-eq_one true = refl
flag-eq_one false = refl

read_coded-coded :
    (m : StoredMeta) (d : Dict Text) (v : Option Text) (b : List ℕ)
    → m.user_metadata ≡ d
    → m.version_id ≡ v
    → coded m d v ≡ done b
    → read_coded b ≡ some m
read_coded-coded m [] none b bare single h =
    let rest = m.size ∷ m.last_modified ∷ flag m.encrypted ∷ m.content_type in
    let same : b ≡ length m.etag ∷ m.etag ++ rest = cc in
    rw same (
      rw
        (
          take_append_of (length m.etag) m.etag rest refl,
          drop_append_of (length m.etag) m.etag rest refl,
        )
        (ground (arith, flag-eq_one m.encrypted)))
read_coded-coded m [] (some v) b bare single h = absurd (cc)
read_coded-coded m (x ∷ d) v b bare single h = absurd (cc)

json-IsJson : IsJson json
json-IsJson = record {
  decode-encode = λ m b h. read_coded-coded m m.user_metadata m.version_id b refl refl h;
}

abbrev halves : List ℕ → List (List ℕ)
halves b = take 2 b ∷ drop 2 b ∷ []

concat-halves : (b : List ℕ) → concat (halves b) ≡ b
concat-halves [] = refl
concat-halves (x ∷ []) = refl
concat-halves (x ∷ y ∷ b) = ap (λ (l : List ℕ). x ∷ y ∷ l) (append-nil b)

abbrev pub store : FsStore
store = record {
  root = [];
  aead = aead;
  crypto = passphrase_provider aead kek;
  encrypt_all = false;
  json = json;
  md5_hex = λ b. codes "md5";
  pieces = halves;
}

abbrev pub fresh : Fresh
fresh = record {
  tmp_name = codes "t1";
  opaque_etag = codes "e1";
  version_id = codes "v1";
  dek_random = random_bytes;
  base_nonce = base_nonce;
  now = 7;
}

abbrev pub empty : Disk
empty p = none

abbrev pub bucket : Text
bucket = codes "photos"

abbrev key : Text
key = codes "a/b"

abbrev hello : List ℕ
hello = codes "hello"

put : Disk × Result ObjectMeta
put = put_object disk store bucket key (codes "text/plain") [] true fresh (whole_body hello) empty

abbrev answer : ObjectMeta
answer = record {
  key = key;
  size = 5;
  etag = codes "e1";
  last_modified = 7;
  content_type = codes "text/plain";
  user_metadata = [];
  encrypted = true;
  version_id = none;
  audit = none;
}

put_answer :
    put_object disk store bucket key (codes "text/plain") [] true fresh (whole_body hello) empty
    ≡ (put.0, ok answer)
unfolding put put_object path_eq contains_char any split passphrase_provider container_header
    seal_chunks
put_answer = refl

pub photos_named : validate_bucket_name bucket ≡ ok tt
unfolding validate_bucket_name as_bytes all split byte_at contains_char contains
photos_named = refl

get_object-put_object_example :
    (get_object disk store bucket key 9 put.0 ≡ (put.0, ok (answer, hello)))
    × (answer.size ≡ length hello)
get_object-put_object_example =
    get_object-put_object disk store disk-IsFileSystem json-IsJson aead-IsAead faithful
      concat-halves bucket key (codes "text/plain") [] true fresh hello 9 empty put.0 answer
      (omega arith) refl photos_named put_answer refl

abbrev pub public : Text
public = codes "public"

pub public_named : validate_bucket_name public ≡ ok tt
unfolding validate_bucket_name as_bytes all split byte_at contains_char contains
public_named = refl

key_valid : validate_key key ≡ ok tt
unfolding validate_key split any contains_char starts_with text_eq
key_valid = refl

at_public : bucket_path [] public ≡ public ∷ []
unfolding bucket_path split text_eq
at_public = refl

public_found : (s : Disk) → s (public ∷ []) ≡ none → head_bucket disk store public s ≡ (s, ok tt)
unfolding head_bucket
public_found s h = rw (at_public, h) refl

nothing_there : put.0 (public ∷ []) ≡ none
unfolding put put_object path_eq contains_char any split passphrase_provider container_header
    seal_chunks
nothing_there = refl

-- Two objects, `k` and `k.tags`, each with a file.
abbrev two_objects : Disk
two_objects =
    at (object_path [] bucket (codes "k")) (some hello)
      (at (object_path [] bucket (codes "k.tags")) (some (9 ∷ [])) empty)

tagging : Disk × Result (Unit {0})
tagging = set_object_tags disk store bucket (codes "k") 9 (done []) two_objects

tagging_answer :
    set_object_tags disk store bucket (codes "k") 9 (done []) two_objects ≡ (tagging.0, ok tt)
unfolding tagging set_object_tags path_eq split object_path
tagging_answer = refl

file_kept : tagging.0 (object_path [] bucket (tagged (codes "k"))) ≡ some (9 ∷ [])
unfolding tagging set_object_tags path_eq split object_path
file_kept = refl

get_object-set_object_tags_example :
    (m : Stat) × (some (stat_of (tagging.0 (object_path [] bucket (tagged (codes "k"))))) ≡ some m)
    × (get_object disk store bucket (tagged (codes "k")) 11 tagging.0
        ≡ (tagging.0, ok (stored_to_meta (tagged (codes "k")) (stat_meta m 11), 9 ∷ [])))
get_object-set_object_tags_example =
    get_object-set_object_tags disk store disk-IsFileSystem bucket (codes "k") 9 11 [] (9 ∷ [])
      two_objects tagging.0 tt refl tagging_answer file_kept
