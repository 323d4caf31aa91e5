-- ===== src/Ranges.antt =====
-- Byte ranges of an object: the `Range` header in src/handlers/object.rs, its resolution there, and
-- `get_object_range` of src/erasure/store.rs, over the bytes that the store's stream gives.
use kerplace.Base.{
  Text, ℕ, zero, suc, ◌≡◌, refl, ◌∙◌, ◌+◌, ◌-◌, ◌^◌, ◌≤◌, min, ◌||◌, if◌then◌else◌, List, [], ◌∷◌,
  Option, none, some, codes, is_empty, contains_char, strip_prefix, split_once, parse_unsigned, ltb,
  ◌==◌, length, take, drop, arith, length-drop, length-take,
}

-- the two bounds of a range, either of which may be left out
abbrev pub Range : Type 0
Range = Option ℕ × Option ℕ

-- an empty bound is left out; `none` is a bound that is no number
abbrev bound : Text → Option (Option ℕ)
bound t =
    if is_empty t
    then some none
    else elim (parse_unsigned 10 (2 ^ 64 - 1) t) [ none ↦ none | some n ↦ some (some n) ]

abbrev both : Option (Option ℕ) → Option (Option ℕ) → Option Range
both none end = none
both (some start) none = none
both (some none) (some none) = none
both (some none) (some (some n)) = some (none, some n)
both (some (some s)) (some end) = some (some s, end)

abbrev bounds : Option (Text × Text) → Option Range
bounds none = none
bounds (some (start, end)) = both (bound start) (bound end)

unfoldable pub parse_range : Text → Option Range
unfolding strip_prefix contains_char split_once parse_unsigned
parse_range value = elim (strip_prefix value (codes "bytes=")) [
  | none ↦ none
  | some spec ↦ if contains_char b',' spec then none else bounds (split_once b'-' spec)
]

-- `get_object_dispatch`: the absolute range for an object of a size
unfoldable pub resolve_range : Range → ℕ → ℕ × ℕ
resolve_range (some s, some e) size = (min s size, min e (size - 1))
resolve_range (some s, none) size = (min s size, size - 1)
resolve_range (none, some n) size = (size - min n size, size - 1)
resolve_range (none, none) size = (0, size - 1)

abbrev pub end_within : Option ℕ → ℕ → ℕ
end_within none size = size - 1
end_within (some e) size = min e (size - 1)

unfoldable pub range_len : ℕ → ℕ → ℕ → ℕ
range_len size start last = if size == 0 || ltb last start then 0 else last - start + 1

-- `read_exact` of a number of bytes
abbrev read_exact : ℕ → List ℕ → Option (List ℕ)
read_exact len stream = if ltb (length stream) len then none else some (take len stream)

-- `get_object_range`: the length and the bytes; `none` is a stream that is too short
unfoldable pub get_object_range : ℕ → List ℕ → ℕ → Option ℕ → Option (ℕ × List ℕ)
unfolding range_len
get_object_range size stream start end =
    let from = min start size in
    let len = range_len size from (end_within end size) in
    elim (read_exact len (drop from stream)) [ none ↦ none | some bytes ↦ some (len, bytes) ]

-- What HTTP asks for: the bytes from `s` to `e`, those from `s` on, or the last `n`.
unfoldable pub requested : Range → List ℕ → List ℕ
requested (some s, some e) body = take (e + 1 - s) (drop s body)
requested (some s, none) body = drop s body
requested (none, some n) body = drop (length body - n) body
requested (none, none) body = body

pub same_front :
    (j k : ℕ) (xs : List ℕ) → min j (length xs) ≡ min k (length xs) → take j xs ≡ take k xs
same_front zero zero xs h = refl
same_front zero (suc k) [] h = refl
same_front zero (suc k) (x ∷ xs) h = absurd (omega arith)
same_front (suc j) zero [] h = refl
same_front (suc j) zero (x ∷ xs) h = absurd (omega arith)
same_front (suc j) (suc k) [] h = refl
same_front (suc j) (suc k) (x ∷ xs) h = rw (same_front j k xs (omega arith))

same_back : (j k : ℕ) (xs : List ℕ) → min j (length xs) ≡ min k (length xs) → drop j xs ≡ drop k xs
same_back zero zero xs h = refl
same_back zero (suc k) [] h = refl
same_back zero (suc k) (x ∷ xs) h = absurd (omega arith)
same_back (suc j) zero [] h = refl
same_back (suc j) zero (x ∷ xs) h = absurd (omega arith)
same_back (suc j) (suc k) [] h = refl
same_back (suc j) (suc k) (x ∷ xs) h = same_back j k xs (omega arith)

whole : (k : ℕ) (xs : List ℕ) → length xs ≤ k → take k xs ≡ xs
whole zero [] h = refl
whole zero (x ∷ xs) h = absurd (omega arith)
whole (suc k) [] h = refl
whole (suc k) (x ∷ xs) h = rw (whole k xs (omega arith))

abbrev len_of : List ℕ → ℕ → ℕ → ℕ
len_of body start last =
    range_len (length body) (min start (length body)) (min last (length body - 1))

len_fits :
    (body : List ℕ) (start last : ℕ)
    → len_of body start last ≤ length body - min start (length body)
unfolding range_len
len_fits body start last = ground arith

-- What is read, once it is known to be what is wanted.
cut_out :
    (body : List ℕ) (start last : ℕ) (want : List ℕ)
    → take (len_of body start last) (drop (min start (length body)) body) ≡ want
    → get_object_range (length body) body start (some last) ≡ some (length want, want)
unfolding get_object_range
cut_out body start last want same =
    let from = min start (length body) in
    let fits = len_fits body start last in
    let left = length-drop from body in
    let cut = length-take (len_of body start last) (drop from body) in
    ground (arith, fits, left, cut, same)

-- The bytes from the clamped bounds are those from other bounds that count the same bytes.
same_cut :
    (body : List ℕ) (start last from count : ℕ)
    → min (min start (length body)) (length body) ≡ min from (length body)
    → min (len_of body start last) (length body - from) ≡ min count (length body - from)
    → take (len_of body start last) (drop (min start (length body)) body)
      ≡ take count (drop from body)
same_cut body start last from count h g =
    rw (same_back (min start (length body)) from body h)
      (same_front (len_of body start last) count (drop from body) (rw (length-drop from body) g))

-- The same, where everything from a place on is wanted.
rest_cut :
    (body : List ℕ) (start from : ℕ)
    → min (min start (length body)) (length body) ≡ min from (length body)
    → take (len_of body start (length body - 1)) (drop (min start (length body)) body)
      ≡ drop from body
unfolding range_len
rest_cut body start from h =
    same_cut body start (length body - 1) from (length body) h (ground arith)
    ∙ whole (length body) (drop from body) (omega (arith, length-drop from body))

-- A range that a client may ask for, resolved against the size of an object and read from its
-- stream, never runs past the stream's end: the answer is the requested bytes, as many as there
-- are, with their number.
pub get_object_range-resolve_range :
    (r : Range) (body : List ℕ)
    → get_object_range
        (length body)
        body
        (resolve_range r (length body)).0
        (some (resolve_range r (length body)).1)
      ≡ some (length (requested r body), requested r body)
unfolding resolve_range requested
get_object_range-resolve_range (some s, some e) body =
    cut_out body (min s (length body)) (min e (length body - 1)) _ (
      same_cut body (min s (length body)) (min e (length body - 1)) s (e + 1 - s) (omega arith)
        (unfold range_len in ground arith))
get_object_range-resolve_range (some s, none) body =
    cut_out body (min s (length body)) (length body - 1) _
      (rest_cut body (min s (length body)) s (omega arith))
get_object_range-resolve_range (none, some n) body =
    cut_out body (length body - min n (length body)) (length body - 1) _
      (rest_cut body (length body - min n (length body)) (length body - n) (omega arith))
get_object_range-resolve_range (none, none) body =
    cut_out body 0 (length body - 1) _ (rest_cut body 0 0 (omega arith))
