-- ===== src/Lifecycle/Pass.antt =====
-- src/lifecycle.rs: every deletion of a pass of the worker is allowed.
use kerplace.Base.{Text, ℤ}
use kerplace.Lifecycle.{LifecycleRule, Parsers, ObjectStore, rules_of}
use kerplace.Lifecycle.Safety.{Among, Expires}

module _ (parsers : Parsers) {S : Type 0} (store : ObjectStore S) (now : ℤ) where
  open store use {get_bucket_lifecycle, list_objects_v2}

  -- The configuration that is read from a bucket, and that it has the rule.
  abbrev HasRule : Text → LifecycleRule → S → Type 0
  HasRule bucket rule s = Among rule (rules_of parsers (get_bucket_lifecycle bucket s))

  module _ (start : S) where
    abbrev Reached : S → Type 0
    Reached = Expires parsers store now start
