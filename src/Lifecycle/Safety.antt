-- ===== src/Lifecycle/Safety.antt =====
-- What the lifecycle worker may delete.
use kerplace.Base.{
  Text, ℕ, zero, suc, ◌≡◌, ◌⊎◌, ◌+◌, ◌*◌, ◌^◌, ◌≤◌, ◌/◌, ◌∙◌, ap, Bool-cases, ltb, ◌+ℤ◌, ◌<ℤ◌, refl,
  Option-cases, inl, inr, codes, eq_ignore_ascii_case, true, false, List, [], ◌∷◌, Option, none,
  some, arith, ℤ, pos, negsuc, ◌-ℤ◌, leb_ℤ, ◌≤ℤ◌,
}
use kerplace.Storage.{ObjectMeta, Listing}
use kerplace.Lifecycle.{
  LifecycleExpiration, LifecycleRule, Parsers, ObjectStore, whole_days, as_i64, instant,
  should_expire, prefix_of, minus, object_locked,
}

sub_mono : (a b c : ℤ) → a ≤ℤ b → a -ℤ c ≤ℤ b -ℤ c
unfolding ◌-ℤ◌
sub_mono a b c h = ground arith

whole_days_mono : (a b : ℤ) → a ≤ℤ b → whole_days a ≤ℤ whole_days b
unfolding whole_days
whole_days_mono (pos m) (pos n) h = omega arith
whole_days_mono (pos m) (negsuc n) h = absurd (omega arith)
whole_days_mono (negsuc m) (pos n) h = ground arith
whole_days_mono (negsuc m) (negsuc n) h = ground arith

leb_trans : (a b c : ℤ) → leb_ℤ a b ≡ true → b ≤ℤ c → leb_ℤ a c ≡ true
leb_trans a b c h g = ground arith

abbrev pub Among : {A : Type 0} → A → List A → Type 0
Among a [] = ⊥
Among a (x ∷ xs) = (a ≡ x) ⊎ Among a xs

minus_lem : (d k : ℕ) → leb_ℤ (pos d) (minus k) ≡ true → (d ≡ 0) × (k ≡ 0)
minus_lem d zero h = (ground arith, refl)
minus_lem d (suc k) h = absurd (ground arith)

-- So many whole days are over.
whole_lem :
    (d : ℕ) (x : ℤ)
    → leb_ℤ (pos d) (whole_days x) ≡ true
    → (pos (d * 86400000000000) ≤ℤ x) ⊎ ((d ≡ 0) × (pos 0 <ℤ x +ℤ pos 86400000000000))
unfolding whole_days ◌+ℤ◌
whole_lem d (pos n) h = inl (ground arith)
whole_lem d (negsuc n) h =
    let (none_, short) = minus_lem d ((n + 1) / 86400000000000) h in
    inr (none_, ground (arith, short))

shift_le :
    (l d : ℕ) (now : ℤ)
    → pos (d * 86400000000000) ≤ℤ now -ℤ instant l
    → pos (l * 1000000000 + d * 86400000000000) ≤ℤ now
unfolding ◌-ℤ◌
shift_le l d (pos n) h = ground arith
shift_le l d (negsuc n) h = ground arith

shift_lt :
    (l : ℕ) (now : ℤ)
    → pos 0 <ℤ (now -ℤ instant l) +ℤ pos 86400000000000
    → pos (l * 1000000000) <ℤ now +ℤ pos 86400000000000
unfolding ◌-ℤ◌ ◌+ℤ◌
shift_lt l (pos n) h = ground arith
shift_lt l (negsuc n) h = ground arith

module _ (parsers : Parsers) where
  -- An object that a rule expires at one instant it expires at every later one, under a limit in
  -- days or a date.
  should_expire_later :
      (exp : LifecycleExpiration) (last_modified : ℕ) (now later : ℤ)
      → should_expire parsers exp (instant last_modified) now ≡ true
      → now ≤ℤ later
      → should_expire parsers exp (instant last_modified) later ≡ true
  unfolding should_expire
  should_expire_later exp last_modified now later h le = elim (Option-cases exp.days) [
    | inl e ↦ grind arith
    | inr (d, e) ↦
        let lm = instant last_modified in
        let longer = whole_days_mono (now -ℤ lm) (later -ℤ lm) (sub_mono now later lm le) in
        let over = leb_trans (as_i64 d) (whole_days (now -ℤ lm)) (whole_days (later -ℤ lm)) in
        ground (arith, longer, over)
  ]

  -- When an object that was last modified at a second has reached the limit of a rule: so many whole
  -- days are over; with a limit of zero days, unless its time lies a day or more ahead; the date has
  -- come, where there are no days. A number of days that no `i64` holds counts as negative.
  pub data HasExpired (exp : LifecycleExpiration) (last_modified : ℕ) (now : ℤ) : Type 0 where
    days_over :
        (d : ℕ)
        → exp.days ≡ some d
        → pos (last_modified * 1000000000 + d * 86400000000000) ≤ℤ now
        → HasExpired exp last_modified now
    zero_days :
        exp.days ≡ some 0
        → pos (last_modified * 1000000000) <ℤ now +ℤ pos 86400000000000
        → HasExpired exp last_modified now
    too_many_days : (d : ℕ) → exp.days ≡ some d → 2 ^ 63 ≤ d → HasExpired exp last_modified now
    date_reached :
        (date : Text) (at : ℤ)
        → exp.days ≡ none
        → exp.date ≡ some date
        → parsers.parse_rfc3339 date ≡ some at
        → at ≤ℤ now
        → HasExpired exp last_modified now

  days_over_lem :
      (d last_modified : ℕ) (now : ℤ)
      → leb_ℤ (pos d) (whole_days (now -ℤ instant last_modified)) ≡ true
      → (pos (last_modified * 1000000000 + d * 86400000000000) ≤ℤ now)
        ⊎ ((d ≡ 0) × (pos (last_modified * 1000000000) <ℤ now +ℤ pos 86400000000000))
  days_over_lem d last_modified now h = elim (whole_lem d (now -ℤ instant last_modified) h) [
    | inl over ↦ inl (shift_le last_modified d now over)
    | inr (none_, near) ↦ inr (none_, shift_lt last_modified now near)
  ]

  pub should_expire-HasExpired :
      (exp : LifecycleExpiration) (last_modified : ℕ) (now : ℤ)
      → should_expire parsers exp (instant last_modified) now ≡ true
      → HasExpired exp last_modified now
  unfolding should_expire as_i64
  should_expire-HasExpired exp last_modified now h = elim (Option-cases exp.days) [
    | inr (d, e) ↦ elim (Bool-cases (ltb d (2 ^ 63))) [
      | inr far ↦ too_many_days d e (ground (arith, far))
      | inl fits ↦ elim (days_over_lem d last_modified now (ground (arith, h, e, fits))) [
        | inl over ↦ days_over d e over
        | inr (none_, near) ↦ zero_days (e ∙ ap some none_) near
      ]
    ]
    | inl e ↦ elim (Option-cases exp.date) [
      | inl n ↦ absurd (ground (arith, h, e, n))
      | inr (date, dated) ↦ elim (Option-cases (parsers.parse_rfc3339 date)) [
        | inl n ↦ absurd (ground (arith, h, e, dated, n))
        | inr (at, parsed) ↦
            date_reached date at e dated parsed (ground (arith, h, e, dated, parsed))
      ]
    ]
  ]

  module _ {S : Type 0} (store : ObjectStore S) (now : ℤ) where
    open store use {get_object_legal_hold, get_object_retention, delete_object}

    -- Neither a legal hold that can be read nor the date of a retention that can be read protects the
    -- object.
    pub record IsFree (bucket key : Text) (s : S) : Type 0 where
      pub unheld :
          (status : Text)
          → get_object_legal_hold bucket key s ≡ some status
          → eq_ignore_ascii_case status (codes "ON") ≡ false
      pub unkept :
          (raw date : Text) (until : ℤ)
          → get_object_retention bucket key s ≡ some raw
          → parsers.parse_retention raw ≡ some (some date)
          → parsers.parse_rfc3339 date ≡ some until
          → until ≤ℤ now

    pub object_locked-IsFree :
        (bucket key : Text) (s : S)
        → object_locked parsers store bucket key now s ≡ false
        → IsFree bucket key s
    unfolding object_locked
    object_locked-IsFree bucket key s h = record {
      unheld = λ status read. ground (arith, h, read);
      unkept = λ raw date until read parsed good. ground (arith, h, read, parsed, good);
    }

    -- A rule that is enabled in the configuration that a bucket has in a store, with its limit.
    pub record IsRule (bucket : Text) (rule : LifecycleRule) (exp : LifecycleExpiration) (s : S)
        : Type 0 where
      pub raw : Text
      pub rules : List LifecycleRule
      pub configured : store.get_bucket_lifecycle bucket s ≡ some raw
      pub parsed : parsers.parse_config raw ≡ some rules
      pub among : Among rule rules
      pub is_enabled : eq_ignore_ascii_case rule.status (codes "Enabled") ≡ true
      pub limit : rule.expiration ≡ some exp

    -- The stores that a pass can come to from the one that it starts with: each deletion is of an
    -- object that a page of the bucket's objects under a rule's prefix has listed, by a rule of the
    -- bucket's configuration, after the object has reached the rule's limit, and while nothing
    -- protects it. The configuration, the page and the protection are each read from a store that
    -- the pass has come to.
    pub data Expires (start : S) : S → Type 0 where
      unchanged : Expires start start
      deletes :
          {then_on before s : S} (bucket : Text) (rule : LifecycleRule) (exp : LifecycleExpiration)
          (token : Option Text) (l : Listing) (obj : ObjectMeta)
          → Expires start then_on
          → IsRule bucket rule exp then_on
          → Expires start before
          → store.list_objects_v2 bucket (prefix_of rule.prefix) token 1000 before ≡ some l
          → Among obj l.objects
          → HasExpired exp obj.last_modified now
          → IsFree bucket obj.key s
          → Expires start s
          → Expires start (delete_object bucket obj.key s)
