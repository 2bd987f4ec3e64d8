-- ===== src/Common/Dict.antt =====
-- A Go map with string keys, as an association list with one entry for each key.
use latlearn.Common.Tests.{Bytes, ◌==◌, ==_iff, if◌then◌else◌}
use mathlib.Core.Path.{◌≡◌, refl}
use mathlib.Core.Option.{Option, none, some}
use mathlib.Core.List.{List, [], ◌∷◌}
use native.Mathlib.Omega.{arith}

module _ {ℓ} {Value : Type ℓ} where
  -- `m[ key]`: the entry, if there is one.
  unfoldable pub lookup : Bytes → List (Bytes × Value) → Option Value
  lookup key [] = none
  lookup key (entry ∷ entries) =
      let later = lookup key entries in if entry.0 == key then some entry.1 else later

  -- `m[ key] = value`.
  unfoldable pub insert : Bytes → Value → List (Bytes × Value) → List (Bytes × Value)
  insert key value [] = (key, value) ∷ []
  insert key value (entry ∷ entries) =
      let later = insert key value entries in
      if entry.0 == key then (key, value) ∷ entries else entry ∷ later

  -- What a map holds for `other` after `key` has been set.
  pub lookup-insert :
      (key other : Bytes) (value : Value) (entries : List (Bytes × Value))
      → lookup other (insert key value entries)
        ≡ (if key == other then some value else lookup other entries)
  unfolding lookup insert
  lookup-insert key other value [] = refl
  lookup-insert key other value (entry ∷ entries) = ground (
    arith,
    lookup-insert key other value entries,
    ==_iff entry.0 key,
    ==_iff entry.0 other,
    ==_iff key other,
  )
