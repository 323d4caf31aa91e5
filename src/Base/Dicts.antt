-- ===== src/Base/Dicts.antt =====
-- `HashMap` and `BTreeMap` with text keys, as association lists without repeated keys.
use Prim.Native.Nat.{◌≤◌}
use mathlib.Core.Path.{◌≡◌, refl}
use mathlib.Core.Bool.{Bool, false}
use mathlib.Core.List.{List, [], ◌∷◌}
use mathlib.Core.Option.{Option, none, some}
use native.Mathlib.Omega.{arith}
use kerplace.Base.Tests.{if◌then◌else◌, is_some}
use kerplace.Base.Strings.{Text, text_eq, text_eq_iff, text_eq_refl, text_ltb}
use kerplace.Base.Lists.{length}

abbrev pub Dict {ℓ} : Type ℓ → Type ℓ
Dict V = List (Text × V)

module _ {ℓ} {V : Type ℓ} where
  -- m.get(k)
  unfoldable pub lookup : Text → Dict V → Option V
  lookup k [] = none
  lookup k ((j, v) ∷ m) = if text_eq j k then some v else lookup k m

  -- m.insert(k, v)
  unfoldable pub insert : Text → V → Dict V → Dict V
  insert k v [] = (k, v) ∷ []
  insert k v ((j, w) ∷ m) =
      let rest = insert k v m in if text_eq j k then (k, v) ∷ m else (j, w) ∷ rest

  -- m.remove(k)
  unfoldable pub remove : Text → Dict V → Dict V
  remove k [] = []
  remove k ((j, w) ∷ m) = let rest = remove k m in if text_eq j k then rest else (j, w) ∷ rest

  -- m.contains_key(k)
  unfoldable pub contains_key : Text → Dict V → Bool
  unfolding lookup
  contains_key k m = is_some (lookup k m)

  pub lookup-insert :
      (k j : Text) (v : V) (m : Dict V)
      → lookup j (insert k v m) ≡ (if text_eq k j then some v else lookup j m)
  unfolding lookup insert
  lookup-insert k j v [] = refl
  lookup-insert k j v ((i, w) ∷ m) =
      ground (arith, text_eq_iff k j, text_eq_iff i k, text_eq_iff i j, lookup-insert k j v m)

  pub lookup-remove :
      (k j : Text) (m : Dict V) → lookup j (remove k m) ≡ (if text_eq k j then none else lookup j m)
  unfolding lookup remove
  lookup-remove k j [] = ground arith
  lookup-remove k j ((i, w) ∷ m) =
      ground (arith, text_eq_iff k j, text_eq_iff i k, text_eq_iff i j, lookup-remove k j m)

module _ {ℓ} {V : Type ℓ} where
  -- m.entry(k).or_insert(v)
  unfoldable pub or_insert : Text → V → Dict V → Dict V
  or_insert k v m = if is_some (lookup k m) then m else insert k v m

  -- What is there stays, and only the entry of the key may be new.
  pub lookup-or_insert-some :
      (k j : Text) (v w : V) (m : Dict V)
      → lookup j m ≡ some w
      → lookup j (or_insert k v m) ≡ some w
  unfolding or_insert
  lookup-or_insert-some k j v w m h = ground (arith, lookup-insert k j v m, text_eq_iff k j)

  pub lookup-or_insert_ne :
      (k j : Text) (v : V) (m : Dict V)
      → text_eq k j ≡ false
      → lookup j (or_insert k v m) ≡ lookup j m
  unfolding or_insert
  lookup-or_insert_ne k j v m h = ground (arith, lookup-insert k j v m)

  pub lookup-insert_self : (k : Text) (v : V) (m : Dict V) → lookup k (insert k v m) ≡ some v
  lookup-insert_self k v m = simp (lookup-insert, text_eq_refl)

  pub lookup-remove_self : (k : Text) (m : Dict V) → lookup k (remove k m) ≡ none
  lookup-remove_self k m = simp (lookup-remove, text_eq_refl)

  pub remove-insert :
      (k : Text) (v : V) (m : Dict V) → lookup k m ≡ none → remove k (insert k v m) ≡ m
  unfolding lookup remove insert
  remove-insert k v [] h = ground (arith, text_eq_refl k)
  remove-insert k v ((j, w) ∷ m) h = ground (arith, text_eq_refl k, remove-insert k v m)

  pub length-remove-le : (k : Text) (m : Dict V) → length (remove k m) ≤ length m
  unfolding remove
  length-remove-le k [] = omega arith
  length-remove-le k ((j, w) ∷ m) = ground (arith, length-remove-le k m)

pub ruleset dict_laws = (lookup-insert, lookup-remove, text_eq_refl)
