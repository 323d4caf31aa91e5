-- ===== src/Fs/Segments.antt =====
-- src/storage/fs.rs: the segments of a key, and where `join` leads to by them.
use kerplace.Base.{
  is_empty, Text, ℕ, Bool, true, false, ◌≡◌, ◌<◌, ◌≤◌, refl, sym, ap, ◌∙◌, ◌||◌, ◌==◌, List, [],
  ◌∷◌, ◌++◌, none, some, codes, split, starts_with, any, is_empty, length, length-append, arith,
  Bool-cases, Option-cases, inl, inr, text_eq, onto_first,
}
use kerplace.Error.{ok}
use kerplace.Storage.Names.{validate_key, is_dots}
use kerplace.Storage.Paths.{walk, walk_segment, validate_key-dots}
use kerplace.Fs.Tree.{FilePath, push, settle, join, strip_suffix, dir_marker}
use mathlib.Core.List.{append_assoc}

module _ {ℓ} {A : Type ℓ} where
  -- What stands on the same tail is the same.
  pub on_tail : (xs ys : List A) (b c : A) (r : List A) → xs ++ b ∷ r ≡ ys ++ c ∷ r → b ≡ c
  on_tail [] [] b c r h = cc
  on_tail [] (y ∷ ys) b c r h =
      let e : r ≡ ys ++ c ∷ r = cc in absurd (omega (arith, ap length e, length-append ys (c ∷ r)))
  on_tail (x ∷ xs) [] b c r h =
      let e : xs ++ b ∷ r ≡ r = cc in absurd (omega (arith, ap length e, length-append xs (b ∷ r)))
  on_tail (x ∷ xs) (y ∷ ys) b c r h = on_tail xs ys b c r (cc)

  any-append : (p : A → Bool) (xs ys : List A) → any p (xs ++ ys) ≡ (any p xs || any p ys)
  unfolding any
  any-append p [] ys = refl
  any-append p (x ∷ xs) ys = ground (arith, any-append p xs ys)

pub split_parts : (s : Text) → (p : Text) × (ps : List Text) × (split b'/' s ≡ p ∷ ps)
unfolding split
split_parts [] = ([], [], refl)
split_parts (x ∷ s) = elim (Bool-cases (x == b'/')) [
  | inl e ↦ ([], split b'/' s, rw e refl)
  | inr e ↦ let (p, ps, h) = split_parts s in (x ∷ p, ps, rw (e, h))
]

split_slash : (s : Text) → split b'/' (s ++ codes "/") ≡ split b'/' s ++ [] ∷ []
unfolding split
split_slash [] = refl
split_slash (x ∷ s) =
    let (p, ps, h) = split_parts s in
    elim (Bool-cases (x == b'/')) [
      | inl e ↦ rw e (ap (λ (l : List Text). [] ∷ l) (split_slash s))
      | inr e ↦ rw (e, split_slash s, h)
    ]

-- A text added to the last segment.
extend : Text → List Text → List Text
extend t [] = []
extend t (p ∷ []) = (p ++ t) ∷ []
extend t (p ∷ q ∷ ps) = p ∷ extend t (q ∷ ps)

onto_first-extend :
    (x : ℕ) (t p : Text) (ps : List Text)
    → onto_first x (extend t (p ∷ ps)) ≡ extend t ((x ∷ p) ∷ ps)
unfolding extend
onto_first-extend x t p [] = refl
onto_first-extend x t p (q ∷ ps) = refl

split-append : (s t : Text) → split b'/' t ≡ t ∷ [] → split b'/' (s ++ t) ≡ extend t (split b'/' s)
unfolding split extend
split-append [] t h = h
split-append (x ∷ s) t h =
    let (p, ps, e) = split_parts s in
    elim (Bool-cases (x == b'/')) [
      | inl on ↦ rw (on, split-append s t h, e) refl
      | inr off ↦ rw (off, split-append s t h, e) (onto_first-extend x t p ps)
    ]

short_dots : (q : Text) → is_dots q ≡ true → length q ≤ 2
unfolding is_dots text_eq
short_dots [] h = omega arith
short_dots (a ∷ []) h = omega arith
short_dots (a ∷ b ∷ []) h = omega arith
short_dots (a ∷ b ∷ c ∷ q) h = ground arith

-- What is longer than two characters is no `.` and no `..`.
long_segment : (p t : Text) → 2 < length t → is_dots (p ++ t) ≡ false
long_segment p t h = elim (Bool-cases (is_dots (p ++ t))) [
  | inr off ↦ off
  | inl on ↦ absurd (omega (arith, short_dots (p ++ t) on, length-append p t))
]

any-extend :
    (t : Text) (segs : List Text)
    → 2 < length t
    → any is_dots segs ≡ false
    → any is_dots (extend t segs) ≡ false
unfolding any extend
any-extend t [] n h = refl
any-extend t (p ∷ []) n h = rw (long_segment p t n) refl
any-extend t (p ∷ q ∷ ps) n h = ground (arith, any-extend t (q ∷ ps) n)

pub append-strip_suffix : (s d : Text) → strip_suffix b'/' s ≡ some d → s ≡ d ++ codes "/"
unfolding strip_suffix
append-strip_suffix [] d h = ground arith
append-strip_suffix (x ∷ []) d h = ground arith
append-strip_suffix (x ∷ y ∷ s) d h = elim (Option-cases (strip_suffix b'/' (y ∷ s))) [
  | inl off ↦ absurd (ground (arith, off))
  | inr (t, on) ↦ ground (arith, on, append-strip_suffix (y ∷ s) t on)
]

-- Without `.` and `..` the components of a path are what a walk along it adds.
pub push-walk :
    (dir : FilePath) (segs : List Text) → any is_dots segs ≡ false → push dir segs ≡ walk dir segs
unfolding push walk walk_segment any is_dots
push-walk dir [] h = refl
push-walk dir (seg ∷ segs) h = ground (arith, push-walk dir segs, push-walk (seg ∷ dir) segs)

-- A path that has no component `..`.
abbrev pub IsSettled : List Text → Type 0
IsSettled [] = Unit {0}
IsSettled (c ∷ cs) = (text_eq c (codes "..") ≡ false) × IsSettled cs

pub settle-append : (ns dir : List Text) → IsSettled ns → settle (ns ++ dir) ≡ ns ++ settle dir
unfolding settle
settle-append [] dir h = refl
settle-append (c ∷ ns) dir h = rw (h.0, settle-append ns dir h.1) refl

pub IsSettled-append : (xs ys : List Text) → IsSettled xs → IsSettled ys → IsSettled (xs ++ ys)
IsSettled-append [] ys h i = i
IsSettled-append (x ∷ xs) ys h i = (h.0, IsSettled-append xs ys h.1 i)

-- What a path without `.` and `..` adds.
push-IsSettled :
    (dir : FilePath) (segs : List Text)
    → any is_dots segs ≡ false
    → (ns : List Text) × (push dir segs ≡ ns ++ dir) × IsSettled ns
unfolding push any is_dots
push-IsSettled dir [] h = ([], refl, tt)
push-IsSettled dir (seg ∷ segs) h =
    let rest : any is_dots segs ≡ false = ground arith in
    elim (Bool-cases (is_empty seg || text_eq seg (codes "."))) [
      | inl e ↦ let (ns, below, plain) = push-IsSettled dir segs rest in (ns, rw e below, plain)
      | inr e ↦
          let (ns, below, plain) = push-IsSettled (seg ∷ dir) segs rest in
          (
            ns ++ seg ∷ [],
            rw e (below ∙ sym (append_assoc ns (seg ∷ []) dir)),
            IsSettled-append ns (seg ∷ []) plain (ground arith, tt),
          )
    ]

-- A relative path without `.` and `..` stays below its directory.
pub join_below :
    (dir : FilePath) (p : Text)
    → starts_with p (codes "/") ≡ false
    → any is_dots (split b'/' p) ≡ false
    → (ns : List Text) × (join dir p ≡ ns ++ dir) × IsSettled ns
unfolding join
join_below dir p relative plain =
    let (ns, below, settled) = push-IsSettled dir (split b'/' p) plain in
    (ns, rw relative below, settled)

pub join_marker : (dir : FilePath) → join dir dir_marker ≡ dir_marker ∷ dir
unfolding join push split text_eq starts_with
join_marker dir = refl

pub join_marker_json :
    (dir : FilePath) → join dir (dir_marker ++ codes ".json") ≡ (dir_marker ++ codes ".json") ∷ dir
unfolding join push split text_eq starts_with
join_marker_json dir = refl

-- What `validate_key` has tested.
pub key_facts :
    (key : Text)
    → validate_key key ≡ ok tt
    → (starts_with key (codes "/") ≡ false)
      × (any is_dots (split b'/' key) ≡ false)
      × (is_empty key ≡ false)
unfolding validate_key
key_facts key h = (ground arith, validate_key-dots key h, ground arith)

-- The directory of a key with a slash at its end.
pub marker_facts :
    (key d : Text)
    → starts_with key (codes "/") ≡ false
    → any is_dots (split b'/' key) ≡ false
    → strip_suffix b'/' key ≡ some d
    → (starts_with d (codes "/") ≡ false) × (any is_dots (split b'/' d) ≡ false)
unfolding starts_with
marker_facts key [] relative plain h = (refl, unfold any split is_dots text_eq in refl)
marker_facts key (c ∷ d) relative plain h =
    let e = append-strip_suffix key (c ∷ d) h in
    let start : starts_with ((c ∷ d) ++ codes "/") (codes "/") ≡ false =
      ap (λ (k : Text). starts_with k (codes "/")) (sym e) ∙ relative in
    let parts : any is_dots (split b'/' ((c ∷ d) ++ codes "/")) ≡ false =
      ap (λ (k : Text). any is_dots (split b'/' k)) (sym e) ∙ plain in
    let cut = any-append is_dots (split b'/' (c ∷ d)) ([] ∷ []) in
    (start, ground (arith, parts, split_slash (c ∷ d), cut))

pub json_facts :
    (key : Text)
    → starts_with key (codes "/") ≡ false
    → any is_dots (split b'/' key) ≡ false
    → is_empty key ≡ false
    → (starts_with (key ++ codes ".json") (codes "/") ≡ false)
      × (any is_dots (split b'/' (key ++ codes ".json")) ≡ false)
unfolding starts_with
json_facts [] relative plain some_key = cc
json_facts (c ∷ key) relative plain some_key = (
  relative,
  rw (split-append (c ∷ key) (codes ".json") (unfold split in refl))
      (any-extend (codes ".json") (split b'/' (c ∷ key)) (omega arith) plain),
)

pub strip_suffix-append :
    (p k : Text)
    → is_empty k ≡ false
    → strip_suffix b'/' (p ++ k)
      ≡ elim (strip_suffix b'/' k) [ none ↦ none | some d ↦ some (p ++ d) ]
unfolding strip_suffix
strip_suffix-append [] k h = ground arith
strip_suffix-append (x ∷ []) [] h = absurd (cc)
strip_suffix-append (x ∷ []) (c ∷ k) h = ground arith
strip_suffix-append (x ∷ y ∷ p) k h = ground (arith, strip_suffix-append (y ∷ p) k h)
