-- ===== src/Base/Strings.antt =====
-- Rust strings as lists of Unicode scalar values, with the functions of `str` that the program
-- calls. `as_bytes` is the UTF-8 encoding, where the program looks at bytes.
use Prim.Native.Char.{code}
use Prim.Native.Nat.{ℕ, ◌+◌, ◌-◌, ◌*◌, ◌/◌, ◌%◌}
use Prim.Native.String.{String}
use mathlib.Core.Path.{◌≡◌, refl}
use mathlib.Core.Logic.{◌↔◌}
use mathlib.Core.Bool.{Bool, true, false, ◌&&◌, ◌||◌, not}
use mathlib.Core.List.{List, [], ◌∷◌, ◌++◌, map, reverse}
use mathlib.Core.Option.{Option, none, some}
use native.Mathlib.Omega.{arith}
use kerplace.Base.Tests.{ltb, leb, ◌==◌, if◌then◌else◌}

abbrev pub Text : Type 0
Text = List ℕ

abbrev pub codes : String → Text
codes String.[] = []
codes (String.◌∷◌ c s) = code c ∷ codes s

unfoldable pub text_eq : Text → Text → Bool
text_eq [] [] = true
text_eq [] (y ∷ ys) = false
text_eq (x ∷ xs) [] = false
text_eq (x ∷ xs) (y ∷ ys) = (x == y) && text_eq xs ys

pub text_eq_iff : (s t : Text) → (text_eq s t ≡ true) ↔ (s ≡ t)
unfolding text_eq
text_eq_iff [] [] = ground arith
text_eq_iff [] (y ∷ ys) = ground arith
text_eq_iff (x ∷ xs) [] = ground arith
text_eq_iff (x ∷ xs) (y ∷ ys) = ground (arith, text_eq_iff xs ys)

pub text_eq_refl : (s : Text) → text_eq s s ≡ true
text_eq_refl s = (text_eq_iff s s).1 refl

abbrev pub is_empty : Text → Bool
is_empty [] = true
is_empty (x ∷ xs) = false

-- `s.strip_prefix(p)`
unfoldable pub strip_prefix : Text → Text → Option Text
strip_prefix s [] = some s
strip_prefix [] (c ∷ p) = none
strip_prefix (x ∷ s) (c ∷ p) = let rest = strip_prefix s p in if x == c then rest else none

unfoldable pub starts_with : Text → Text → Bool
starts_with s [] = true
starts_with [] (c ∷ p) = false
starts_with (x ∷ s) (c ∷ p) = (x == c) && starts_with s p

-- `s.contains(c)`, `s.contains(t)`
unfoldable pub contains_char : ℕ → Text → Bool
contains_char c [] = false
contains_char c (x ∷ s) = (x == c) || contains_char c s

unfoldable pub contains : Text → Text → Bool
unfolding starts_with
contains [] t = starts_with [] t
contains (x ∷ s) t = starts_with (x ∷ s) t || contains s t

abbrev pub onto_first : ℕ → List Text → List Text
onto_first c [] = (c ∷ []) ∷ []
onto_first c (p ∷ ps) = (c ∷ p) ∷ ps

-- `s.split(c)`: one piece more than separators
unfoldable pub split : ℕ → Text → List Text
split c [] = [] ∷ []
split c (x ∷ s) = let rest = split c s in if x == c then [] ∷ rest else onto_first x rest

abbrev pub onto_left : ℕ → Option (Text × Text) → Option (Text × Text)
onto_left c none = none
onto_left c (some (a, b)) = some (c ∷ a, b)

unfoldable pub split_once : ℕ → Text → Option (Text × Text)
split_once c [] = none
split_once c (x ∷ s) =
    let rest = split_once c s in if x == c then some ([], s) else onto_left x rest

-- `pieces.join(sep)`
unfoldable pub join : Text → List Text → Text
join sep [] = []
join sep (p ∷ []) = p
join sep (p ∷ q ∷ ps) = p ++ (sep ++ join sep (q ∷ ps))

-- `char::is_whitespace`: the White_Space property of Unicode.
unfoldable pub is_whitespace : ℕ → Bool
is_whitespace c =
    leb 0x9 c && leb c 0xd
    || c == 0x20
    || c == 0x85
    || c == 0xa0
    || c == 0x1680
    || leb 0x2000 c && leb c 0x200a
    || c == 0x2028
    || c == 0x2029
    || c == 0x202f
    || c == 0x205f
    || c == 0x3000

-- `s.trim_start_matches(p)` and `s.trim_end_matches(p)` for a test `p` of one character
unfoldable pub trim_start_matches : (ℕ → Bool) → Text → Text
trim_start_matches p [] = []
trim_start_matches p (x ∷ s) = let rest = trim_start_matches p s in if p x then rest else x ∷ s

unfoldable pub trim_end_matches : (ℕ → Bool) → Text → Text
unfolding trim_start_matches
trim_end_matches p s = reverse (trim_start_matches p (reverse s))

unfoldable pub trim : Text → Text
unfolding is_whitespace trim_start_matches trim_end_matches
trim s = trim_end_matches is_whitespace (trim_start_matches is_whitespace s)

unfoldable pub to_ascii_lower : ℕ → ℕ
to_ascii_lower c = if leb b'A' c && leb c b'Z' then c + 32 else c

unfoldable pub to_ascii_lowercase : Text → Text
unfolding to_ascii_lower
to_ascii_lowercase = map to_ascii_lower

unfoldable pub eq_ignore_ascii_case : Text → Text → Bool
unfolding to_ascii_lowercase text_eq
eq_ignore_ascii_case s t = text_eq (to_ascii_lowercase s) (to_ascii_lowercase t)

-- The order of `str`: lexicographic, which UTF-8 keeps.
unfoldable pub text_ltb : Text → Text → Bool
text_ltb s [] = false
text_ltb [] (y ∷ ys) = true
text_ltb (x ∷ xs) (y ∷ ys) = ltb x y || x == y && text_ltb xs ys

-- UTF-8.
unfoldable pub utf8 : ℕ → List ℕ
utf8 c =
    if ltb c 0x80
    then c ∷ []
    else if ltb c 0x800
    then (0xc0 + c / 64) ∷ (0x80 + c % 64) ∷ []
    else if ltb c 0x10000
    then (0xe0 + c / 4096) ∷ (0x80 + c / 64 % 64) ∷ (0x80 + c % 64) ∷ []
    else (0xf0 + c / 262144) ∷ (0x80 + c / 4096 % 64) ∷ (0x80 + c / 64 % 64) ∷ (0x80 + c % 64) ∷ []

unfoldable pub as_bytes : Text → List ℕ
unfolding utf8
as_bytes [] = []
as_bytes (c ∷ s) = utf8 c ++ as_bytes s

-- `String::from_utf8`: the scalar values of well-formed UTF-8.
abbrev is_tail : ℕ → Bool
is_tail b = leb 0x80 b && leb b 0xbf

abbrev onto : ℕ → Option Text → Option Text
onto c none = none
onto c (some s) = some (c ∷ s)

unfoldable pub from_utf8 : List ℕ → Option Text
from_utf8 [] = some []
from_utf8 (a ∷ []) = if ltb a 0x80 then some (a ∷ []) else none
from_utf8 (a ∷ b ∷ []) =
    let rest = from_utf8 (b ∷ []) in
    if ltb a 0x80
    then onto a rest
    else if leb 0xc2 a && leb a 0xdf && is_tail b
    then some (((a - 0xc0) * 64 + (b - 0x80)) ∷ [])
    else none
from_utf8 (a ∷ b ∷ c ∷ []) =
    let rest = from_utf8 (b ∷ c ∷ []) in
    let rest2 = from_utf8 (c ∷ []) in
    if ltb a 0x80
    then onto a rest
    else if leb 0xc2 a && leb a 0xdf && is_tail b
    then onto ((a - 0xc0) * 64 + (b - 0x80)) rest2
    else if leb 0xe0 a
        && leb a 0xef
        && is_tail b
        && is_tail c
        && (ltb 0xe0 a || leb 0xa0 b)
        && (not (a == 0xed) || leb b 0x9f)
    then some (((a - 0xe0) * 4096 + (b - 0x80) * 64 + (c - 0x80)) ∷ [])
    else none
from_utf8 (a ∷ b ∷ c ∷ d ∷ s) =
    let rest = from_utf8 (b ∷ c ∷ d ∷ s) in
    let rest2 = from_utf8 (c ∷ d ∷ s) in
    let rest3 = from_utf8 (d ∷ s) in
    let rest4 = from_utf8 s in
    if ltb a 0x80
    then onto a rest
    else if leb 0xc2 a && leb a 0xdf && is_tail b
    then onto ((a - 0xc0) * 64 + (b - 0x80)) rest2
    else if leb 0xe0 a
        && leb a 0xef
        && is_tail b
        && is_tail c
        && (ltb 0xe0 a || leb 0xa0 b)
        && (not (a == 0xed) || leb b 0x9f)
    then onto ((a - 0xe0) * 4096 + (b - 0x80) * 64 + (c - 0x80)) rest3
    else if leb 0xf0 a
        && leb a 0xf4
        && is_tail b
        && is_tail c
        && is_tail d
        && (ltb 0xf0 a || leb 0x90 b)
        && (ltb a 0xf4 || leb b 0x8f)
    then onto ((a - 0xf0) * 262144 + (b - 0x80) * 4096 + (c - 0x80) * 64 + (d - 0x80)) rest4
    else none

-- `from_str_radix` of an unsigned type whose largest value is `top`: one optional `+`, at least
-- one digit, and no overflow.
unfoldable pub digit_value : ℕ → Option ℕ
digit_value c =
    if leb b'0' c && leb c b'9'
    then some (c - b'0')
    else if leb b'a' c && leb c b'z'
    then some (c - b'a' + 10)
    else if leb b'A' c && leb c b'Z'
    then some (c - b'A' + 10)
    else none

unfoldable pub parse_digits : ℕ → ℕ → ℕ → Text → Option ℕ
unfolding digit_value
parse_digits radix top n [] = some n
parse_digits radix top n (c ∷ s) = elim (digit_value c) [
  | none ↦ none
  | some d ↦
      let next = n * radix + d in
      let rest = parse_digits radix top next s in if ltb d radix && leb next top then rest else none
]

unfoldable pub after_sign : Text → Text
after_sign [] = []
after_sign (c ∷ s) = if c == b'+' then s else c ∷ s

unfoldable pub parse_unsigned : ℕ → ℕ → Text → Option ℕ
unfolding parse_digits after_sign
parse_unsigned radix top s =
    if is_empty (after_sign s) then none else parse_digits radix top 0 (after_sign s)

pub strip_prefix-append : (p s : Text) → strip_prefix (p ++ s) p ≡ some s
unfolding strip_prefix
strip_prefix-append [] s = refl
strip_prefix-append (c ∷ p) s = ground (arith, strip_prefix-append p s)

pub starts_with-append : (p s : Text) → starts_with (p ++ s) p ≡ true
unfolding starts_with
starts_with-append [] s = refl
starts_with-append (c ∷ p) s = ground (arith, starts_with-append p s)

-- What is stripped stood in front.
pub append-strip_prefix : (s p t : Text) → strip_prefix s p ≡ some t → s ≡ p ++ t
unfolding strip_prefix
append-strip_prefix s [] t h = ground arith
append-strip_prefix [] (c ∷ p) t h = cc
append-strip_prefix (x ∷ s) (c ∷ p) t h = ground (arith, append-strip_prefix s p t)
