-- ===== src/Fs/Places.antt =====
-- src/storage/fs.rs: where the files of an object lie.
use kerplace.Base.{
  Text, refl, text_eq, filter, is_empty, Bool-cases, subst, any, starts_with, false, ◌≡◌, ◌≢◌, sym,
  ap, ◌∙◌, List, [], ◌∷◌, ◌++◌, none, some, codes, split, arith, Option-cases, inl, inr,
}
use kerplace.Error.{ok}
use kerplace.Storage.Names.{is_dots, validate_key, validate_bucket_name}
use kerplace.Storage.Buckets.{
  validate_bucket_name-confined, validate_bucket_name-starts_with, validate_bucket_name-split,
}
use kerplace.Fs.Tree.{
  FilePath, push, settle, join, strip_suffix, object_path, meta_path, bucket_path, sys_dir,
  dir_marker, meta_root,
}
use mathlib.Core.List.{append_assoc, reverse, reverse-append}
use kerplace.Storage.Paths.{names, walk-names}
use kerplace.Fs.Segments.{
  on_tail, push-walk, IsSettled, IsSettled-append, settle-append, join_below, join_marker,
  join_marker_json, key_facts, marker_facts, json_facts,
}

IsSettled-reverse : (xs : List Text) → IsSettled xs → IsSettled (reverse xs)
IsSettled-reverse [] h = tt
IsSettled-reverse (x ∷ xs) h =
    subst IsSettled (sym (reverse-append (x ∷ []) xs))
      (IsSettled-append (reverse xs) (x ∷ []) (IsSettled-reverse xs h.1) (h.0, tt))

keep_names : (segs : List Text) → any is_dots segs ≡ false → IsSettled (names segs)
unfolding names filter any is_dots
keep_names [] h = tt
keep_names (seg ∷ segs) h =
    let rest = keep_names segs (ground arith) in
    elim (Bool-cases (is_empty seg)) [ inl e ↦ rw e rest | inr e ↦ rw e (ground arith, rest) ]

IsSettled-names : (segs : List Text) → any is_dots segs ≡ false → IsSettled (reverse (names segs))
IsSettled-names segs h = IsSettled-reverse (names segs) (keep_names segs h)

join-names :
    (dir : FilePath) (p : Text)
    → starts_with p (codes "/") ≡ false
    → any is_dots (split b'/' p) ≡ false
    → join dir p ≡ reverse (names (split b'/' p)) ++ dir
unfolding join
join-names dir p relative plain =
    rw relative (push-walk dir (split b'/' p) plain ∙ walk-names dir (split b'/' p) plain)

-- From any directory `dir`, joining a key that `validate_key` accepts gives `dir` with the key's
-- non-empty segments added below it, and the place where the path leads, with every `..` followed, is
-- that of `dir` with those segments: the key neither replaces the directory, as a path from the root
-- does, nor leaves it.
pub validate_key-confined :
    (dir : FilePath) (key : Text)
    → validate_key key ≡ ok tt
    → (join dir key ≡ reverse (names (split b'/' key)) ++ dir)
      × (settle (join dir key) ≡ reverse (names (split b'/' key)) ++ settle dir)
validate_key-confined dir key h =
    let (relative, plain, some_key) = key_facts key h in
    let here = join-names dir key relative plain in
    let dots = IsSettled-names (split b'/' key) plain in
    (here, rw here (settle-append (reverse (names (split b'/' key))) dir dots))

-- Two keys lead to one place when they differ in empty segments only.
pub validate_key_aliases :
    (dir : FilePath) (k l : Text)
    → validate_key k ≡ ok tt
    → validate_key l ≡ ok tt
    → names (split b'/' k) ≡ names (split b'/' l)
    → join dir k ≡ join dir l
validate_key_aliases dir k l hk hl e =
    cc ((validate_key-confined dir k hk).0, (validate_key-confined dir l hl).0, e)

module _ (root : FilePath) (bucket : Text) (named : validate_bucket_name bucket ≡ ok tt) where
  pub join_bucket : (dir : FilePath) → join dir bucket ≡ bucket ∷ dir
  unfolding join push
  join_bucket dir =
      let (one, plain, some_name) = validate_bucket_name-split bucket named in
      rw (validate_bucket_name-starts_with bucket named, one) (unfold is_dots in ground arith)

  pub object_path_plain :
      (key : Text)
      → strip_suffix b'/' key ≡ none
      → object_path root bucket key ≡ join (bucket ∷ root) key
  unfolding object_path bucket_path
  object_path_plain key e = ground (arith, e, join_bucket root)

  pub object_path_marker :
      (key d : Text)
      → strip_suffix b'/' key ≡ some d
      → object_path root bucket key ≡ dir_marker ∷ join (bucket ∷ root) d
  unfolding object_path bucket_path
  object_path_marker key d e =
      ground (arith, e, join_bucket root, join_marker (join (bucket ∷ root) d))

  pub meta_path_plain :
      (key : Text)
      → strip_suffix b'/' key ≡ none
      → meta_path root bucket key ≡ join (bucket ∷ meta_root root) (key ++ codes ".json")
  unfolding meta_path
  meta_path_plain key e = ground (arith, e, join_bucket (meta_root root))

  pub meta_path_marker :
      (key d : Text)
      → strip_suffix b'/' key ≡ some d
      → meta_path root bucket key ≡ (dir_marker ++ codes ".json") ∷ join (bucket ∷ meta_root root) d
  unfolding meta_path
  meta_path_marker key d e =
      ground (
        arith,
        e,
        join_bucket (meta_root root),
        join_marker_json (join (bucket ∷ meta_root root) d),
      )

  -- The file of an object lies below its bucket's directory.
  object_path_below :
      (key : Text)
      → validate_key key ≡ ok tt
      → (ns : List Text) × (object_path root bucket key ≡ ns ++ bucket ∷ root) × IsSettled ns
  object_path_below key valid =
      let (relative, plain, some_key) = key_facts key valid in
      elim (Option-cases (strip_suffix b'/' key)) [
        | inl e ↦
            let (ns, below, settled) = join_below (bucket ∷ root) key relative plain in
            (ns, object_path_plain key e ∙ below, settled)
        | inr (d, e) ↦
            let (r, p) = marker_facts key d relative plain e in
            let (ns, below, settled) = join_below (bucket ∷ root) d r p in
            (
              dir_marker ∷ ns,
              object_path_marker key d e ∙ ap (λ (q : FilePath). dir_marker ∷ q) below,
              (unfold text_eq in refl, settled),
            )
      ]

  -- The metadata of an object lies below the system directory.
  meta_path_below :
      (key : Text)
      → validate_key key ≡ ok tt
      → (ns : List Text) × (meta_path root bucket key ≡ ns ++ bucket ∷ meta_root root)
        × IsSettled ns
  meta_path_below key valid =
      let (relative, plain, some_key) = key_facts key valid in
      elim (Option-cases (strip_suffix b'/' key)) [
        | inl e ↦
            let (r, p) = json_facts key relative plain some_key in
            let (ns, below, settled) =
              join_below (bucket ∷ meta_root root) (key ++ codes ".json") r p in
            (ns, meta_path_plain key e ∙ below, settled)
        | inr (d, e) ↦
            let (r, p) = marker_facts key d relative plain e in
            let (ns, below, settled) = join_below (bucket ∷ meta_root root) d r p in
            (
              (dir_marker ++ codes ".json") ∷ ns,
              meta_path_marker key d e
                  ∙ ap (λ (q : FilePath). (dir_marker ++ codes ".json") ∷ q) below,
              (unfold text_eq in refl, settled),
            )
      ]

  bucket_settled : (dir : FilePath) → settle (bucket ∷ dir) ≡ bucket ∷ settle dir
  unfolding settle
  bucket_settled dir =
      let (one, plain, some_name) = validate_bucket_name-split bucket named in
      let off : text_eq bucket (codes "..") ≡ false = unfold is_dots in ground arith in rw off refl

  meta_root-settle : settle (meta_root root) ≡ meta_root (settle root)
  unfolding settle text_eq
  meta_root-settle = refl

  -- No object's file is an object's metadata.
  pub object_path-ne-meta_path :
      (k l : Text)
      → validate_key k ≡ ok tt
      → validate_key l ≡ ok tt
      → settle (object_path root bucket k) ≢ settle (meta_path root bucket l)
  object_path-ne-meta_path k l hk hl same =
      let (ns, a, x) = object_path_below k hk in
      let (ms, b, y) = meta_path_below l hl in
      let file : settle (object_path root bucket k) ≡ ns ++ bucket ∷ settle root =
        ap settle a ∙ settle-append ns (bucket ∷ root) x ∙ ap (◌++◌ ns) (bucket_settled root) in
      let sidecar : settle (meta_path root bucket l) ≡ ms ++ bucket ∷ meta_root (settle root) =
        ap settle b
        ∙ settle-append ms (bucket ∷ meta_root root) y
        ∙ ap (◌++◌ ms) (
            bucket_settled (meta_root root) ∙ ap (λ (q : FilePath). bucket ∷ q) meta_root-settle) in
      (validate_bucket_name-confined root bucket named).1 (
        on_tail ns (ms ++ bucket ∷ codes "meta" ∷ []) bucket sys_dir (settle root) (
          sym file
          ∙ same
          ∙ sidecar
          ∙ sym (append_assoc ms (bucket ∷ codes "meta" ∷ []) (sys_dir ∷ settle root))))
