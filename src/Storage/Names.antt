-- ===== src/Storage/Names.antt =====
-- `validate_bucket_name` and `validate_key` of src/storage/mod.rs.
use kerplace.Base.{
  Text, ℕ, ◌-◌, Bool, not, ◌&&◌, ◌||◌, leb, ◌==◌, if◌then◌else◌, List, length, get_elem?, all, any,
  codes, is_empty, is_some, starts_with, contains_char, contains, split, as_bytes, text_eq,
  parse_unsigned, unwrap_or,
}
use kerplace.Error.{Result, ok, err, invalid_bucket_name, invalid_argument}

-- the closure `is_alnum`
unfoldable pub is_alnum : ℕ → Bool
is_alnum b = leb b'a' b && leb b b'z' || leb b'0' b && leb b b'9'

unfoldable pub is_name_byte : ℕ → Bool
unfolding is_alnum
is_name_byte b = is_alnum b || b == b'-' || b == b'.'

-- `p.parse::<u8>().is_ok()`
unfoldable pub is_u8 : Text → Bool
unfolding parse_unsigned
is_u8 p = is_some (parse_unsigned 10 255 p)

unfoldable pub looks_like_ipv4 : Text → Bool
unfolding is_u8
looks_like_ipv4 name = length (split b'.' name) == 4 && all is_u8 (split b'.' name)

-- a byte at an index below the length; the length test stands before every use
unfoldable pub byte_at : List ℕ → ℕ → ℕ
byte_at bytes i = unwrap_or (get_elem? bytes i) 0

unfoldable pub validate_bucket_name : Text → Result (Unit {0})
unfolding is_alnum is_name_byte byte_at looks_like_ipv4
validate_bucket_name name =
    let bytes = as_bytes name in
    let len = length bytes in
    if not (leb 3 len && leb len 63)
    then err invalid_bucket_name
    else if not (is_alnum (byte_at bytes 0)) || not (is_alnum (byte_at bytes (len - 1)))
    then err invalid_bucket_name
    else if not (all is_name_byte bytes)
    then err invalid_bucket_name
    else if contains name (codes "..")
    then err invalid_bucket_name
    else if looks_like_ipv4 name
    then err invalid_bucket_name
    else ok tt

-- the segments that `validate_key` refuses
unfoldable pub is_dots : Text → Bool
is_dots seg = text_eq seg (codes "..") || text_eq seg (codes ".")

unfoldable pub validate_key : Text → Result (Unit {0})
unfolding is_dots
validate_key key =
    if is_empty key
    then err (invalid_argument (codes "object key is empty"))
    else if starts_with key (codes "/") || contains_char b'\\' key
    then err (invalid_argument (codes "invalid object key"))
    else if any is_dots (split b'/' key)
    then err (invalid_argument (codes "invalid object key"))
    else ok tt
