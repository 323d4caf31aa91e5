-- ===== src/Error/Escape.antt =====
-- `xml_escape` of src/error.rs: five replacements, one after the other.
use kerplace.Base.{
  Text, ℕ, ◌≡◌, refl, ap, ◌++◌, codes, [], ◌∷◌, Bool, true, not, ◌||◌, ◌==◌, if◌then◌else◌, all,
  arith,
}

-- `s.replace(c, t)`
unfoldable pub replace : ℕ → Text → Text → Text
replace c t [] = []
replace c t (x ∷ s) = let rest = replace c t s in if x == c then t ++ rest else x ∷ rest

unfoldable pub xml_escape : Text → Text
unfolding replace
xml_escape s = replace b'\'' (codes "&apos;") (
    replace b'"' (codes "&quot;")
      (replace b'>' (codes "&gt;") (replace b'<' (codes "&lt;") (replace b'&' (codes "&amp;") s))))

-- The reference: one pass, each character by itself.
unfoldable pub escape_char : ℕ → Text
escape_char c =
    if c == b'&'
    then codes "&amp;"
    else if c == b'<'
    then codes "&lt;"
    else if c == b'>'
    then codes "&gt;"
    else if c == b'"'
    then codes "&quot;"
    else if c == b'\''
    then codes "&apos;"
    else c ∷ []

unfoldable pub escape_each : Text → Text
unfolding escape_char
escape_each [] = []
escape_each (c ∷ s) = escape_char c ++ escape_each s

xml_escape-cons : (c : ℕ) (s : Text) → xml_escape (c ∷ s) ≡ escape_char c ++ xml_escape s
unfolding xml_escape escape_char
xml_escape-cons c s = ground arith

escaped_each : (s : Text) → xml_escape s ≡ escape_each s
unfolding escape_each
escaped_each [] = unfold xml_escape in refl
escaped_each (c ∷ s) = rw (xml_escape-cons c s) (ap (λ t. escape_char c ++ t) (escaped_each s))

-- A character that would start or end markup or an attribute.
unfoldable pub is_markup : ℕ → Bool
is_markup c = c == b'<' || c == b'>' || c == b'"' || c == b'\''

all-escape_char :
    (c : ℕ) (t : Text)
    → all (λ x. not (is_markup x)) t ≡ true
    → all (λ x. not (is_markup x)) (escape_char c ++ t) ≡ true
unfolding all is_markup escape_char
all-escape_char c t h = ground arith

all-escape_each : (s : Text) → all (λ c. not (is_markup c)) (escape_each s) ≡ true
unfolding escape_each
all-escape_each [] = unfold all in refl
all-escape_each (c ∷ s) = all-escape_char c (escape_each s) (all-escape_each s)

-- The five replacements, which run over one another's output, escape each character of the text
-- exactly once, and no escaped text holds an angle bracket or a quote.
xml_escape-escape_each :
    (s : Text)
    → (xml_escape s ≡ escape_each s) × (all (λ c. not (is_markup c)) (xml_escape s) ≡ true)
xml_escape-escape_each s = (escaped_each s, rw (escaped_each s) (all-escape_each s))
