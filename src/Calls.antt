-- ===== src/Calls.antt =====
-- Calls that change a state and may fail with an `S3Error`, and how they follow one another.
use kerplace.Base.{Text, ℕ, List, Option, none, some, ◌++◌, Outcome, done, failed}
use kerplace.Error.{Result, ok, err, internal}

-- A call that changes the state and may fail.
abbrev pub Call : Type 0 → Type 0 → Type 0
Call S A = S → S × Result A

module _ {S : Type 0} where
  abbrev pub pure : {A : Type 0} → A → Call S A
  pure a s = (s, ok a)

  abbrev pub after : {A B : Type 0} → S × Result A → (A → Call S B) → S × Result B
  after (s, ok a) f = f a s
  after (s, err e) f = (s, err e)

  infixl 5 ◌>>=◌ ◌>>◌
  abbrev pub ◌>>=◌ : {A B : Type 0} → Call S A → (A → Call S B) → Call S B
  ◌>>=◌ m f s = after (m s) f

  abbrev pub ◌>>◌ : {B : Type 0} → Call S (Unit {0}) → Call S B → Call S B
  ◌>>◌ m k s = after (m s) (λ _. k)

  -- `.map_err(|e| S3Error::Internal(format!("{what}{e}")))`
  abbrev pub failing : Text → S × Option Text → S × Result (Unit {0})
  failing what (s, none) = (s, ok tt)
  failing what (s, some e) = (s, err (internal (what ++ e)))

  abbrev pub try : Text → (S → S × Option Text) → Call S (Unit {0})
  try what call s = failing what (call s)

  -- `let _ = …`
  abbrev pub ignoring : (S → S × Option Text) → Call S (Unit {0})
  ignoring call s = ((call s).0, ok tt)

  abbrev pub encoded : Text → Outcome Text (List ℕ) → Call S (List ℕ)
  encoded what (done b) s = (s, ok b)
  encoded what (failed e) s = (s, err (internal (what ++ e)))

  -- a call that only reads
  abbrev pub reading : {A : Type 0} → (S → Result A) → Call S A
  reading f s = (s, f s)
