-- ===== src/Storage/Buckets.antt =====
-- A validated bucket name is one plain directory name.
use kerplace.Base.{
  Text, ℕ, ◌≡◌, ◌≢◌, ◌≤◌, refl, true, false, starts_with, List, [], ◌∷◌, ◌++◌, all, codes, split,
  is_empty, as_bytes, utf8, length, arith, text_eq,
}
use kerplace.Error.{ok}
use kerplace.Storage.Names.{is_dots, is_alnum, is_name_byte, byte_at, validate_bucket_name}
use kerplace.Storage.Paths.{walk, walk_segment}

-- A character whose UTF-8 bytes are all name bytes is its own byte.
utf8_plain :
    (c : ℕ) (t : List ℕ)
    → all is_name_byte (utf8 c ++ t) ≡ true
    → (utf8 c ≡ c ∷ []) × (is_name_byte c ≡ true) × (all is_name_byte t ≡ true)
unfolding utf8 all is_name_byte is_alnum
utf8_plain c t h = (ground arith, ground arith, ground arith)

as_bytes_plain :
    (s : Text)
    → all is_name_byte (as_bytes s) ≡ true
    → (as_bytes s ≡ s) × (all is_name_byte s ≡ true)
unfolding as_bytes all
as_bytes_plain [] h = (refl, refl)
as_bytes_plain (c ∷ s) h =
    let (one, here, rest) = utf8_plain c (as_bytes s) h in
    let (same, there) = as_bytes_plain s rest in (rw (one, same), rw (here, there))

split_plain :
    (c : ℕ) (s : Text) → all is_name_byte (c ∷ s) ≡ true → split b'/' (c ∷ s) ≡ (c ∷ s) ∷ []
unfolding all is_name_byte is_alnum split
split_plain c [] h = ground arith
split_plain c (d ∷ s) h = ground (arith, split_plain d s)

-- What `validate_bucket_name` has tested.
bucket_facts :
    (b : Text)
    → validate_bucket_name b ≡ ok tt
    → (all is_name_byte (as_bytes b) ≡ true)
      × (3 ≤ length (as_bytes b))
      × (is_alnum (byte_at (as_bytes b) 0) ≡ true)
unfolding validate_bucket_name
bucket_facts b h = (ground arith, ground arith, ground arith)

-- A text of name bytes that is not empty and starts with a letter or a digit is one segment below
-- any directory.
plain_confined :
    (dir : List Text) (b : Text)
    → all is_name_byte b ≡ true
    → 3 ≤ length b
    → walk dir (split b'/' b) ≡ b ∷ dir
unfolding walk walk_segment text_eq
plain_confined dir [] p n = absurd (omega arith)
plain_confined dir (c ∷ []) p n = absurd (omega arith)
plain_confined dir (c ∷ d ∷ []) p n = absurd (omega arith)
plain_confined dir (c ∷ d ∷ e ∷ s) p n = rw (split_plain c (d ∷ e ∷ s) p) (ground arith)

starts_alnum : (b : Text) → is_alnum (byte_at b 0) ≡ true → b ≢ codes ".kerplace.sys"
unfolding is_alnum byte_at
starts_alnum [] h = ground arith
starts_alnum (c ∷ b) h = ground arith

-- A name that `validate_bucket_name` accepts leads from any directory to the one entry of that
-- name in it, and that entry is not the system directory of a drive.
pub validate_bucket_name-confined :
    (dir : List Text) (bucket : Text)
    → validate_bucket_name bucket ≡ ok tt
    → (walk dir (split b'/' bucket) ≡ bucket ∷ dir) × (bucket ≢ codes ".kerplace.sys")
validate_bucket_name-confined dir bucket h =
    let (plain, long, first) = bucket_facts bucket h in
    let (same, chars) = as_bytes_plain bucket plain in
    (plain_confined dir bucket chars (rw same at long), starts_alnum bucket (rw same at first))

-- Nor is it `.` or `..`, or of several segments.
plain_segment :
    (b : Text)
    → all is_name_byte b ≡ true
    → 3 ≤ length b
    → (split b'/' b ≡ b ∷ []) × (is_dots b ≡ false) × (is_empty b ≡ false)
unfolding is_dots text_eq
plain_segment [] p n = absurd (omega arith)
plain_segment (c ∷ []) p n = absurd (omega arith)
plain_segment (c ∷ d ∷ []) p n = absurd (omega arith)
plain_segment (c ∷ d ∷ e ∷ s) p n = (split_plain c (d ∷ e ∷ s) p, ground arith, refl)

pub validate_bucket_name-split :
    (bucket : Text)
    → validate_bucket_name bucket ≡ ok tt
    → (split b'/' bucket ≡ bucket ∷ []) × (is_dots bucket ≡ false) × (is_empty bucket ≡ false)
validate_bucket_name-split bucket h =
    let (plain, long, first) = bucket_facts bucket h in
    let (same, chars) = as_bytes_plain bucket plain in plain_segment bucket chars (rw same at long)

relative_of : (b : Text) → is_alnum (byte_at b 0) ≡ true → starts_with b (codes "/") ≡ false
unfolding is_alnum byte_at starts_with
relative_of [] h = refl
relative_of (c ∷ b) h = ground arith

-- An accepted bucket name is no absolute path.
pub validate_bucket_name-starts_with :
    (bucket : Text) → validate_bucket_name bucket ≡ ok tt → starts_with bucket (codes "/") ≡ false
validate_bucket_name-starts_with bucket h =
    let (plain, long, first) = bucket_facts bucket h in
    let (same, chars) = as_bytes_plain bucket plain in relative_of bucket (rw same at first)
