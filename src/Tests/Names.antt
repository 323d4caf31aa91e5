-- ===== src/Tests/Names.antt =====
-- Examples for names, keys and escaped text.
use kerplace.Base.{
  ◌≡◌, ◌≢◌, refl, [], ◌∷◌, ◌++◌, codes, split, filter, all, any, contains_char, contains,
  starts_with, text_eq, parse_unsigned, parse_digits, digit_value, after_sign, as_bytes, utf8,
}
use kerplace.Error.{ok}
use kerplace.Storage.Names.{
  validate_key, validate_bucket_name, is_dots, is_alnum, is_name_byte, is_u8, looks_like_ipv4,
  byte_at,
}
use kerplace.Storage.Paths.{walk, names}
use kerplace.Fs.Tree.{settle, join}
use kerplace.Fs.Places.{validate_key-confined}
use kerplace.Storage.Buckets.{validate_bucket_name-confined}
use mathlib.Core.List.{reverse}

nested_ok : validate_key (codes "a/b.txt") ≡ ok tt
unfolding validate_key contains_char starts_with split any is_dots text_eq
nested_ok = refl

doubled_ok : validate_key (codes "a//b.txt") ≡ ok tt
unfolding validate_key contains_char starts_with split any is_dots text_eq
doubled_ok = refl

bucket_ok : validate_bucket_name (codes "my-logs") ≡ ok tt
unfolding validate_bucket_name contains split all is_alnum is_name_byte is_u8 looks_like_ipv4
    byte_at as_bytes utf8 starts_with parse_unsigned parse_digits digit_value after_sign
bucket_ok = refl

same_names : names (split b'/' (codes "a/b.txt")) ≡ names (split b'/' (codes "a//b.txt"))
unfolding names split filter
same_names = refl

validate_key-confined_example :
    (join (codes "data" ∷ []) (codes "a/b.txt")
      ≡ reverse (names (split b'/' (codes "a/b.txt"))) ++ codes "data" ∷ [])
    × (settle (join (codes "data" ∷ []) (codes "a/b.txt"))
        ≡ reverse (names (split b'/' (codes "a/b.txt"))) ++ settle (codes "data" ∷ []))
validate_key-confined_example =
    validate_key-confined (codes "data" ∷ []) (codes "a/b.txt") nested_ok

validate_bucket_name-confined_example :
    (walk (codes "data" ∷ []) (split b'/' (codes "my-logs")) ≡ codes "my-logs" ∷ codes "data" ∷ [])
    × (codes "my-logs" ≢ codes ".kerplace.sys")
validate_bucket_name-confined_example =
    validate_bucket_name-confined (codes "data" ∷ []) (codes "my-logs") bucket_ok
