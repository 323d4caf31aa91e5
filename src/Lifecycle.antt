-- ===== src/Lifecycle.antt =====
-- src/lifecycle.rs: the worker that deletes expired objects. The store is a parameter: a record of
-- the operations that the worker calls, over the store's state. The XML and RFC 3339 parsers are
-- third-party code, a parameter too. Instants are nanoseconds; an object's time is in seconds.
pub mod Safety
pub mod Pass
use kerplace.Base.{
  Text, ℕ, zero, suc, ◌+◌, ◌-◌, ◌*◌, ◌/◌, ◌%◌, ◌^◌, Bool, true, false, not, if◌then◌else◌, List, [],
  ◌∷◌, Option, none, some, codes, eq_ignore_ascii_case, ℤ, pos, negsuc, ◌-ℤ◌, leb_ℤ, ltb_ℤ, ltb,
  leb,
}
use kerplace.Storage.{ObjectMeta, Listing, BucketInfo}

pub record LifecycleExpiration : Type 0 where
  pub days : Option ℕ
  pub date : Option Text

-- A rule: its filter's prefix, where it has both.
pub record LifecycleRule : Type 0 where
  pub status : Text
  pub prefix : Option Text
  pub expiration : Option LifecycleExpiration

pub record Parsers : Type 0 where
  -- `xml::from_xml::<LifecycleConfiguration>`: the rules
  pub parse_config : Text → Option (List LifecycleRule)
  -- `xml::from_xml::<ObjectRetention>`: the date, where it has one
  pub parse_retention : Text → Option (Option Text)
  pub parse_rfc3339 : Text → Option ℤ

-- What the worker calls of `ObjectStore`. `none` is an error, or a value that is not there.
pub record ObjectStore (S : Type 0) : Type 0 where
  pub list_buckets : S → Option (List BucketInfo)
  pub get_bucket_lifecycle : Text → S → Option Text
  pub list_objects_v2 :
      (bucket prefix : Text) → (token : Option Text) → (max_keys : ℕ) → S → Option Listing
  pub get_object_legal_hold : (bucket key : Text) → S → Option Text
  pub get_object_retention : (bucket key : Text) → S → Option Text
  pub delete_object : (bucket key : Text) → S → S

-- `Duration::whole_days`: towards zero
abbrev pub day_nanos : ℕ
day_nanos = 86400000000000

abbrev pub minus : ℕ → ℤ
minus zero = pos 0
minus (suc n) = negsuc n

unfoldable pub whole_days : ℤ → ℤ
whole_days (pos n) = pos (n / day_nanos)
whole_days (negsuc n) = minus ((n + 1) / day_nanos)

-- `days as i64`
unfoldable pub as_i64 : ℕ → ℤ
as_i64 n = if ltb n (2 ^ 63) then pos n else negsuc (2 ^ 64 - 1 - n)

abbrev pub instant : ℕ → ℤ
instant secs = pos (secs * 1000000000)

abbrev pub prefix_of : Option Text → Text
prefix_of none = []
prefix_of (some p) = p

module _ (parsers : Parsers) where
  open parsers use {parse_config, parse_retention, parse_rfc3339}

  abbrev date_expired : Option Text → ℤ → Bool
  date_expired none now = false
  date_expired (some d) now = elim (parse_rfc3339 d) [ none ↦ false | some at ↦ leb_ℤ at now ]

  unfoldable pub should_expire : LifecycleExpiration → ℤ → ℤ → Bool
  unfolding whole_days as_i64
  should_expire exp last_modified now = elim exp.days [
    | none ↦ date_expired exp.date now
    | some days ↦ leb_ℤ (as_i64 days) (whole_days (now -ℤ last_modified))
  ]

  abbrev held : Option Text → Bool
  held none = false
  held (some status) = eq_ignore_ascii_case status (codes "ON")

  abbrev still_ahead : Option Text → ℤ → Bool
  still_ahead none now = false
  still_ahead (some d) now = elim (parse_rfc3339 d) [ none ↦ false | some until ↦ ltb_ℤ now until ]

  abbrev retained : Option Text → ℤ → Bool
  retained none now = false
  retained (some raw) now = elim (parse_retention raw) [ none ↦ false | some d ↦ still_ahead d now ]

  abbrev pub rules_of : Option Text → List LifecycleRule
  rules_of none = []
  rules_of (some raw) = elim (parse_config raw) [ none ↦ [] | some rules ↦ rules ]

  module _ {S : Type 0} (store : ObjectStore S) where
    open store use {
      list_buckets, get_bucket_lifecycle, list_objects_v2, get_object_legal_hold,
      get_object_retention, delete_object,
    }

    unfoldable pub object_locked : Text → Text → ℤ → S → Bool
    unfolding eq_ignore_ascii_case
    object_locked bucket key now s =
        if held (get_object_legal_hold bucket key s)
        then true
        else retained (get_object_retention bucket key s) now

    unfoldable pub expire_object : Text → LifecycleExpiration → ℤ → ObjectMeta → S → S
    expire_object bucket exp now obj s =
        if should_expire exp (instant obj.last_modified) now
        then if object_locked bucket obj.key now s then s else delete_object bucket obj.key s
        else s

    unfoldable pub expire_page : Text → LifecycleExpiration → ℤ → List ObjectMeta → S → S
    expire_page bucket exp now [] s = s
    expire_page bucket exp now (obj ∷ objs) s =
        expire_page bucket exp now objs (expire_object bucket exp now obj s)

    -- `expire_objects`, on fuel: one unit for each page
    unfoldable pub expire_objects : ℕ → Text → Text → LifecycleExpiration → ℤ → Option Text → S → S
    expire_objects zero bucket prefix exp now token s = s
    expire_objects (suc fuel) bucket prefix exp now token s =
        elim (list_objects_v2 bucket prefix token 1000 s) [
          | none ↦ s
          | some l ↦
              let after = expire_page bucket exp now l.objects s in
              let rest =
                expire_objects fuel bucket prefix exp now l.next_continuation_token after in
              if l.is_truncated then rest else after
        ]

    unfoldable pub expire_rules : ℕ → Text → ℤ → List LifecycleRule → S → S
    unfolding eq_ignore_ascii_case
    expire_rules fuel bucket now [] s = s
    expire_rules fuel bucket now (r ∷ rs) s =
        let skipped = expire_rules fuel bucket now rs s in
        if not (eq_ignore_ascii_case r.status (codes "Enabled"))
        then skipped
        else elim r.expiration [
          | none ↦ skipped
          | some exp ↦
              expire_rules fuel bucket now rs
                (expire_objects fuel bucket (prefix_of r.prefix) exp now none s)
        ]

    unfoldable pub expire_bucket : ℕ → Text → ℤ → S → S
    expire_bucket fuel bucket now s =
        expire_rules fuel bucket now (rules_of (get_bucket_lifecycle bucket s)) s

    unfoldable pub expire_buckets : ℕ → ℤ → List BucketInfo → S → S
    expire_buckets fuel now [] s = s
    expire_buckets fuel now (b ∷ bs) s =
        expire_buckets fuel now bs (expire_bucket fuel b.name now s)

    -- `run_lifecycle_pass`; every bucket reads the clock anew, which is the same instant here
    unfoldable pub run_lifecycle_pass : ℕ → ℤ → S → S
    run_lifecycle_pass fuel now s = elim (list_buckets s) [
      | none ↦ s
      | some bs ↦ expire_buckets fuel now bs s
    ]
