-- ===== src/Storage/Paths.antt =====
-- Where a validated name leads to in the file system.
use kerplace.Base.{
  Text, ◌≡◌, refl, false, not, ◌||◌, if◌then◌else◌, List, [], ◌∷◌, ◌++◌, any, filter, codes,
  is_empty, split, text_eq, arith, Bool-cases, inl, inr,
}
use kerplace.Error.{ok}
use kerplace.Storage.Names.{validate_key, is_dots}
use mathlib.Core.List.{append_assoc, reverse, reverse-append}

-- A reading of the segments of a relative path below a directory by their names alone, for paths
-- without `..`, where it is the operating system's: an empty segment and `.` stay, `..` takes the last
-- name back. The directory is a stack of names, the last one on top.
unfoldable pub walk_segment : List Text → Text → List Text
walk_segment dir seg =
    if is_empty seg || text_eq seg (codes ".")
    then dir
    else if text_eq seg (codes "..")
    then elim dir [ [] ↦ [] | top ∷ up ↦ up ]
    else seg ∷ dir

unfoldable pub walk : List Text → List Text → List Text
unfolding walk_segment
walk dir [] = dir
walk dir (seg ∷ segs) = walk (walk_segment dir seg) segs

-- The names that a walk adds, first one first.
unfoldable pub names : List Text → List Text
names segs = filter (λ s. not (is_empty s)) segs

reverse_cons : (x : Text) (xs dir : List Text) → reverse (x ∷ xs) ++ dir ≡ reverse xs ++ x ∷ dir
reverse_cons x xs dir = rw (reverse-append (x ∷ []) xs, append_assoc)

walk_step :
    (dir : List Text) (seg : Text) (segs : List Text)
    → any is_dots (seg ∷ segs) ≡ false
    → (walk_segment dir seg ≡ (if is_empty seg then dir else seg ∷ dir))
      × (any is_dots segs ≡ false)
unfolding walk_segment any is_dots
walk_step dir seg segs h = (ground arith, ground arith)

-- Without `..` and `.` a walk only goes down, by the names of the path.
pub walk-names :
    (dir segs : List Text) → any is_dots segs ≡ false → walk dir segs ≡ reverse (names segs) ++ dir
unfolding walk names filter
walk-names dir [] h = refl
walk-names dir (seg ∷ segs) h =
    let (step, rest) = walk_step dir seg segs h in
    let ih = λ (d : List Text). walk-names d segs rest in
    elim (Bool-cases (is_empty seg)) [
      | inl e ↦ rw (step, e) (ih dir)
      | inr e ↦ rw (step, e, reverse_cons) (ih (seg ∷ dir))
    ]

-- The key of a validated request has no segment that goes up or stays.
pub validate_key-dots :
    (key : Text) → validate_key key ≡ ok tt → any is_dots (split b'/' key) ≡ false
unfolding validate_key
validate_key-dots key h = ground arith
