-- ===== src/Handlers/Locked.antt =====
-- src/handlers/object.rs: retention and legal hold of an object, and the check before a deletion.
use kerplace.Base.{
  Text, ℕ, ◌++◌, ◌^◌, Bool, true, false, if◌then◌else◌, List, Option, none, some, codes,
  eq_ignore_ascii_case, text_eq, not, ◌&&◌, unwrap_or, ℤ, ltb_ℤ, Outcome, done, failed,
}
use kerplace.Error.{Result, ok, err, object_locked, invalid_argument}
use kerplace.Handlers.{
  ObjectStore, ObjectRetention, Web, Reply, plain, xml_response, refused, invalid, body_text,
  resource_of, reply, retention, legal_hold,
}

-- `ObjectRetention::default()`
abbrev no_retention : ObjectRetention
no_retention = record { mode = none; retain_until_date = none }

unfoldable pub is_on : Result (Option Text) → Bool
unfolding eq_ignore_ascii_case
is_on (ok (some status)) = eq_ignore_ascii_case status (codes "ON")
is_on _ = false

module _ (web : Web) where
  -- Whether a date is one and lies after `now`.
  abbrev later : ℤ → Option Text → Bool
  later now none = false
  later now (some date) = elim (web.parse_rfc3339 date) [
    | none ↦ false
    | some until ↦ ltb_ℤ now until
  ]

  abbrev retained_by : ℤ → Outcome Text ObjectRetention → Bool
  retained_by now (failed e) = false
  retained_by now (done r) = later now r.retain_until_date

  unfoldable pub is_retained : ℤ → Result (Option Text) → Bool
  is_retained now (ok (some raw)) = retained_by now (web.parse_retention raw)
  is_retained now _ = false

  abbrev shown : Option Text → ObjectRetention
  shown none = no_retention
  shown (some raw) = elim (web.parse_retention raw) [ done r ↦ r | failed _ ↦ no_retention ]

module _ {S : Type 0} (store : ObjectStore S) (web : Web) where
  abbrev pub after_hold : Bool → ℤ → Text → Text → S → S × Result (Unit {0})
  after_hold true now bucket key s = (s, err object_locked)
  after_hold false now bucket key s =
      let (s', r) = store.get_object_retention bucket key s in
      (s', (if is_retained web now r then err object_locked else ok tt))

  unfoldable pub check_object_lock : ℤ → Text → Text → S → S × Result (Unit {0})
  unfolding is_on is_retained
  check_object_lock now bucket key s =
      let (s', hold) = store.get_object_legal_hold bucket key s in
      after_hold (is_on hold) now bucket key s'

  unfoldable pub get_object_retention : Text → Text → S → S × Reply
  unfolding xml_response refused
  get_object_retention bucket key s =
      reply (resource_of bucket key) (store.get_object_retention bucket key s)
        (λ raw. xml_response 200 (retention (shown web raw)))

  abbrev set_retention : Text → Text → Outcome Text ObjectRetention → S → S × Reply
  set_retention bucket key (failed e) s =
      (s, refused (invalid_argument (codes "bad Retention XML: " ++ e)) (resource_of bucket key))
  set_retention bucket key (done parsed) s =
      reply (resource_of bucket key)
        (store.set_object_retention bucket key (web.write_retention parsed) s) (λ _. plain 200)

  unfoldable pub put_object_retention : Text → Text → List ℕ → S → S × Reply
  unfolding refused
  put_object_retention bucket key body s = elim (body_text web (2 ^ 20) body) [
    | none ↦ (s, invalid "bad body" (resource_of bucket key))
    | some text ↦ set_retention bucket key (web.parse_retention text) s
  ]

  unfoldable pub get_object_legal_hold : Text → Text → S → S × Reply
  unfolding xml_response refused
  get_object_legal_hold bucket key s =
      reply (resource_of bucket key) (store.get_object_legal_hold bucket key s)
        (λ status. xml_response 200 (legal_hold (unwrap_or status (codes "OFF"))))

  abbrev set_hold : Text → Text → Text → S → S × Reply
  set_hold bucket key status s =
      if not (text_eq status (codes "ON")) && not (text_eq status (codes "OFF"))
      then (s, invalid "LegalHold Status must be ON or OFF" (resource_of bucket key))
      else reply (resource_of bucket key) (store.set_object_legal_hold bucket key status s)
          (λ _. plain 200)

  abbrev parsed_hold : Text → Text → Outcome Text Text → S → S × Reply
  parsed_hold bucket key (failed e) s =
      (s, refused (invalid_argument (codes "bad LegalHold XML: " ++ e)) (resource_of bucket key))
  parsed_hold bucket key (done status) s = set_hold bucket key (web.to_uppercase status) s

  unfoldable pub put_object_legal_hold : Text → Text → List ℕ → S → S × Reply
  unfolding refused text_eq
  put_object_legal_hold bucket key body s = elim (body_text web (2 ^ 20) body) [
    | none ↦ (s, invalid "bad body" (resource_of bucket key))
    | some text ↦ parsed_hold bucket key (web.parse_legal_hold text) s
  ]
