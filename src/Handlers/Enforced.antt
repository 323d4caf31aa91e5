-- ===== src/Handlers/Enforced.antt =====
-- What the object lock keeps from being deleted, and what it does not.
use kerplace.Base.{
  Text, ◌≡◌, refl, ap, ◌∙◌, ◌||◌, ◌⊎◌, inl, inr, arith, Bool-cases, eq_ignore_ascii_case, ◌<ℤ◌,
  Bool, true, false, if◌then◌else◌, List, [], ◌∷◌, Option, none, some, codes, lookup, contains_key,
  is_empty, ℤ, done, failed, Outcome, Option-cases, Dict,
}
use kerplace.Error.{Result, S3Error, ok, err, object_locked, error_code, message}
use kerplace.Storage.{DeleteOutcome}
use kerplace.Handlers.{
  ObjectStore, ObjectRetention, Web, Reply, refused, resource_of, reply, parse_query, xml_response,
  delete_result,
}
use kerplace.Handlers.Locked.{is_on, is_retained, check_object_lock, after_hold}
use kerplace.Handlers.Batch.{
  delete_each, deleted_of, errors_of, DeleteRow, row_of, post_bucket_inner,
}
use kerplace.Handlers.Objects.Described.{delete_response}
use kerplace.Handlers.Objects.{delete_object_dispatch, removed}

module _ {S : Type 0} (store : ObjectStore S) (web : Web) where
  -- An object's lock is read without changing the store.
  pub record LocksRead : Type 0 where
    pub hold_reads : (bucket key : Text) (s : S) → (store.get_object_legal_hold bucket key s).0 ≡ s
    pub retention_reads :
        (bucket key : Text) (s : S) → (store.get_object_retention bucket key s).0 ≡ s

  -- The legal hold is on, or the date of the retention lies after `now`.
  abbrev pub is_locked : ℤ → Text → Text → S → Bool
  unfolding is_on is_retained
  is_locked now bucket key s =
      is_on (store.get_object_legal_hold bucket key s).1
      || is_retained web now (store.get_object_retention bucket key s).1

  -- What a deletion does that no lock forbids: the version's, or the key's.
  abbrev pub deletion : Text → Text → Option Text → S → S × Reply
  unfolding refused delete_response
  deletion bucket key (some vid) s =
      reply (resource_of bucket key) (store.delete_object_version bucket key vid s)
        (delete_response web)
  deletion bucket key none s =
      reply (resource_of bucket key) (store.delete_object bucket key s) (delete_response web)

  after_hold-is_on :
      LocksRead
      → (now : ℤ) (bucket key : Text) (hold : Bool) (s' s : S) → s' ≡ s
      → after_hold store web hold now bucket key s' ≡ (
        s,
        (if hold || is_retained web now (store.get_object_retention bucket key s).1
            then err object_locked
            else ok tt),
      )
  unfolding is_retained
  after_hold-is_on reads now bucket key true s' s p = ap (λ x. (x, err object_locked)) p
  after_hold-is_on reads now bucket key false s' s p =
      ap (λ x. after_hold store web false now bucket key x) p
      ∙ ap
          (λ x. (
            x,
            (if is_retained web now (store.get_object_retention bucket key s).1
                then err object_locked
                else ok tt),
          ))
          (reads.retention_reads bucket key s)

  check_object_lock-is_locked :
      LocksRead
      → (now : ℤ) (bucket key : Text) (s : S)
      → check_object_lock store web now bucket key s
        ≡ (s, (if is_locked now bucket key s then err object_locked else ok tt))
  unfolding check_object_lock is_on is_retained
  check_object_lock-is_locked reads now bucket key s =
      after_hold-is_on reads now bucket key (is_on (store.get_object_legal_hold bucket key s).1)
        (store.get_object_legal_hold bucket key s).0 s (reads.hold_reads bucket key s)

  -- What deleting keys one after the other comes to: from a store, the keys that the store has
  -- deleted, those that it has not with the code and the message of its error, and the store after.
  pub data Deletes (bucket : Text)
      : S → List Text → List Text → List (Text × (Text × Text)) → S → Type 0 where
    no_key : {s : S} → Deletes bucket s [] [] [] s
    gone :
        {s t : S} {keys deleted : List Text} {errors : List (Text × (Text × Text))} (key : Text)
        (o : DeleteOutcome)
        → (store.delete_object bucket key s).1 ≡ ok o
        → Deletes bucket (store.delete_object bucket key s).0 keys deleted errors t
        → Deletes bucket s (key ∷ keys) (key ∷ deleted) errors t
    kept :
        {s t : S} {keys deleted : List Text} {errors : List (Text × (Text × Text))} (key : Text)
        (e : S3Error)
        → (store.delete_object bucket key s).1 ≡ err e
        → Deletes bucket (store.delete_object bucket key s).0 keys deleted errors t
        → Deletes bucket s (key ∷ keys) deleted ((key, (error_code e, message e)) ∷ errors) t

  one_row :
      (bucket : Text) (key : Text) (keys : List Text) (s t : S) (rows : List DeleteRow)
      (r : Result DeleteOutcome)
      → (store.delete_object bucket key s).1 ≡ r
      → Deletes bucket
          (store.delete_object bucket key s).0
          keys
          (deleted_of rows)
          (errors_of rows)
          t
      → Deletes bucket s
          (key ∷ keys)
          (deleted_of (row_of key r ∷ rows))
          (errors_of (row_of key r ∷ rows))
          t
  unfolding row_of deleted_of errors_of
  one_row bucket key keys s t rows (ok o) h rest = gone key o h rest
  one_row bucket key keys s t rows (err e) h rest = kept key e h rest

  delete_each-Deletes :
      (bucket : Text) (keys : List Text) (s : S)
      → let r = delete_each store web bucket keys s in
        Deletes bucket s keys (deleted_of r.1) (errors_of r.1) r.0
  unfolding delete_each deleted_of errors_of
  delete_each-Deletes bucket [] s = no_key
  delete_each-Deletes bucket (key ∷ keys) s =
      one_row bucket key keys s _ _ (store.delete_object bucket key s).1 refl
        (delete_each-Deletes bucket keys (store.delete_object bucket key s).0)

  removed-if :
      (b : Bool) (bucket key : Text) (version : Option Text) (s : S)
      → removed store web bucket key version (s, (if b then err object_locked else ok tt)) ≡ (
          if b
          then (s, refused object_locked (resource_of bucket key))
          else deletion bucket key version s)
  unfolding deletion
  removed-if true bucket key version s = refl
  removed-if false bucket key (some vid) s = refl
  removed-if false bucket key none s = refl

  -- The legal hold can be read and is `ON` in letters of any case.
  abbrev pub IsHeld : Text → Text → S → Type 0
  IsHeld bucket key s =
      (status : Text) × ((store.get_object_legal_hold bucket key s).1 ≡ ok (some status))
      × (eq_ignore_ascii_case status (codes "ON") ≡ true)

  -- The retention can be read and has a date, and that date lies after `now`.
  abbrev pub IsKept : ℤ → Text → Text → S → Type 0
  IsKept now bucket key s =
      (raw : Text) × (r : ObjectRetention) × (date : Text) × (until : ℤ)
      × ((store.get_object_retention bucket key s).1 ≡ ok (some raw))
      × (web.parse_retention raw ≡ done r)
      × (r.retain_until_date ≡ some date)
      × (web.parse_rfc3339 date ≡ some until)
      × (now <ℤ until)

  is_on-IsHeld :
      (bucket key : Text) (s : S) (hold : Result (Option Text))
      → (store.get_object_legal_hold bucket key s).1 ≡ hold
      → ((is_on hold ≡ true) × IsHeld bucket key s) ⊎ ((is_on hold ≡ false) × ¬ IsHeld bucket key s)
  unfolding is_on
  is_on-IsHeld bucket key s (ok (some status)) h =
      elim (Bool-cases (eq_ignore_ascii_case status (codes "ON"))) [
        | inl on ↦ inl (on, (status, h, on))
        | inr off ↦ inr (off, λ (other, read, on). absurd (ground (arith, h, off, read, on)))
      ]
  is_on-IsHeld bucket key s (ok none) h = inr (refl, λ (other, read, on). absurd (cc (h, read)))
  is_on-IsHeld bucket key s (err e) h = inr (refl, λ (other, read, on). absurd (cc (h, read)))

  lasting_retention :
      (now : ℤ) (bucket key raw : Text) (s : S) (r : ObjectRetention) (date : Option Text)
      → (store.get_object_retention bucket key s).1 ≡ ok (some raw)
      → web.parse_retention raw ≡ done r
      → r.retain_until_date ≡ date
      → is_retained web now (ok (some raw)) ≡ true
      → IsKept now bucket key s
  unfolding is_retained
  lasting_retention now bucket key raw s r none read parsed dated h =
      absurd (ground (arith, parsed, dated, h))
  lasting_retention now bucket key raw s r (some date) read parsed dated h =
      elim (Option-cases (web.parse_rfc3339 date)) [
        | inl bad ↦ absurd (ground (arith, parsed, dated, bad, h))
        | inr (until, good) ↦
            (raw, r, date, until, read, parsed, dated, good, ground (arith, parsed, dated, good, h))
      ]

  retained-IsKept :
      (now : ℤ) (bucket key raw : Text) (s : S) (o : Outcome Text ObjectRetention)
      → (store.get_object_retention bucket key s).1 ≡ ok (some raw)
      → web.parse_retention raw ≡ o
      → is_retained web now (ok (some raw)) ≡ true
      → IsKept now bucket key s
  retained-IsKept now bucket key raw s (done r) read parsed h =
      lasting_retention now bucket key raw s r r.retain_until_date read parsed refl h
  retained-IsKept now bucket key raw s (failed e) read parsed h =
      absurd (unfold is_retained in ground (arith, parsed, h))

  is_retained-IsKept :
      (now : ℤ) (bucket key : Text) (s : S) (retention : Result (Option Text))
      → (store.get_object_retention bucket key s).1 ≡ retention
      → is_retained web now retention ≡ true
      → IsKept now bucket key s
  is_retained-IsKept now bucket key s (err e) h r = absurd (unfold is_retained in cc r)
  is_retained-IsKept now bucket key s (ok none) h r = absurd (unfold is_retained in cc r)
  is_retained-IsKept now bucket key s (ok (some raw)) h r =
      retained-IsKept now bucket key raw s (web.parse_retention raw) h refl r

  IsKept-is_retained :
      (now : ℤ) (bucket key : Text) (s : S)
      → IsKept now bucket key s
      → is_retained web now (store.get_object_retention bucket key s).1 ≡ true
  unfolding is_retained
  IsKept-is_retained now bucket key s (raw, r, date, until, read, parsed, dated, good, ahead) =
      ground (arith, read, parsed, dated, good, ahead)

  -- Whether the code takes the object for locked is whether it is.
  is_locked-cases :
      (now : ℤ) (bucket key : Text) (s : S)
      → ((is_locked now bucket key s ≡ true) × (IsHeld bucket key s ⊎ IsKept now bucket key s))
        ⊎ ((is_locked now bucket key s ≡ false) × ¬ (IsHeld bucket key s ⊎ IsKept now bucket key s))
  unfolding is_locked
  is_locked-cases now bucket key s =
      let retention = (store.get_object_retention bucket key s).1 in
      elim (is_on-IsHeld bucket key s (store.get_object_legal_hold bucket key s).1 refl) [
        | inl (on, held) ↦ inl (rw on refl, inl held)
        | inr (off, unheld) ↦ elim (Bool-cases (is_retained web now retention)) [
          | inl on ↦
              inl (rw (off, on) refl, inr (is_retained-IsKept now bucket key s retention refl on))
          | inr free ↦ inr (
            rw (off, free) refl,
            λ lock. elim lock [
              | inl held ↦ unheld held
              | inr kept_ ↦ absurd (cc (free, IsKept-is_retained now bucket key s kept_))
            ],
          )
        ]
      ]

  dispatched :
      LocksRead
      → (now : ℤ) (bucket key : Text) (query : Option Text) (s : S) → is_empty key ≡ false
      → lookup (codes "uploadId") (parse_query web query) ≡ none
      → contains_key (codes "tagging") (parse_query web query) ≡ false
      → delete_object_dispatch store web now bucket key query s ≡ (
          if is_locked now bucket key s
          then (s, refused object_locked (resource_of bucket key))
          else deletion bucket key (lookup (codes "versionId") (parse_query web query)) s)
  unfolding delete_object_dispatch
  dispatched reads now bucket key query s some_key no_upload no_tags =
      rw (some_key, no_upload, no_tags, check_object_lock-is_locked reads now bucket key s)
        (removed-if (is_locked now bucket key s) bucket key
          (lookup (codes "versionId") (parse_query web query)) s)

  -- A DELETE of a key that is not empty or of one of its versions, neither of an upload nor of the
  -- tags, is refused as locked and changes nothing if the object's legal hold can be read and is on,
  -- or its retention can be read and lasts beyond `now`; if neither is so, and so also if a lock
  -- cannot be read, it is the store's deletion. The lock is read without changing the store.
  pub delete_object_dispatch-is_locked :
      LocksRead
      → (now : ℤ) (bucket key : Text) (query : Option Text) (s : S) → is_empty key ≡ false
      → lookup (codes "uploadId") (parse_query web query) ≡ none
      → contains_key (codes "tagging") (parse_query web query) ≡ false
      → ((IsHeld bucket key s ⊎ IsKept now bucket key s)
          × (delete_object_dispatch store web now bucket key query s
              ≡ (s, refused object_locked (resource_of bucket key))))
        ⊎ (¬ (IsHeld bucket key s ⊎ IsKept now bucket key s)
            × (delete_object_dispatch store web now bucket key query s
                ≡ deletion bucket key (lookup (codes "versionId") (parse_query web query)) s))
  delete_object_dispatch-is_locked reads now bucket key query s some_key no_upload no_tags =
      let same = dispatched reads now bucket key query s some_key no_upload no_tags in
      elim (is_locked-cases now bucket key s) [
        | inl (on, lock) ↦ inl (lock, same ∙ rw on refl)
        | inr (off, free) ↦ inr (free, same ∙ rw off refl)
      ]

  -- A batch deletion, whose body names keys, has the store delete each of them in order, locked or
  -- not and whatever became of those before, and does nothing else to it. Its answer lists the keys
  -- that the store has deleted, if the request is not quiet, and every other one with the code and
  -- the message of its error.
  pub post_bucket_inner_each :
      (bucket : Text) (params : Dict Text) (body : Text) (s : S) (quiet : Bool) (keys : List Text)
      → contains_key (codes "delete") params ≡ true
      → web.parse_delete body ≡ done (quiet, keys)
      → (deleted : List Text) × (errors : List (Text × (Text × Text))) × Deletes bucket s keys
          deleted errors
          (post_bucket_inner store web bucket params body s).0
        × ((post_bucket_inner store web bucket params body s).1
            ≡ xml_response 200 (delete_result (if quiet then [] else deleted) errors))
  unfolding post_bucket_inner
  post_bucket_inner_each bucket params body s quiet keys is_delete parsed =
      let rows = (delete_each store web bucket keys s).1 in
      (
        deleted_of rows,
        errors_of rows,
        rw (is_delete, parsed) (delete_each-Deletes bucket keys s),
        rw (is_delete, parsed) refl,
      )
