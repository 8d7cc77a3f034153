-- ===== src/Base/Dict.antt =====
-- Go maps with string keys, as association lists. A stored key keeps its place.
use opnsense_operator.Base.Equality.{◌==◌, string_eq, if◌then◌else◌}
use Prim.Native.String.{String}
use mathlib.Core.Option.{Option, none, some}
use mathlib.Core.List.{List, [], ◌∷◌}

abbrev pub Dict {ℓ} : Type ℓ → Type ℓ
Dict V = List (String × V)

module _ {ℓ} {V : Type ℓ} where
  -- `v, ok := m[k]`
  unfoldable pub lookup : String → Dict V → Option V
  lookup k [] = none
  lookup k ((j, v) ∷ m) = if j == k then some v else lookup k m

  -- `m[k] = v`
  unfoldable pub insert : String → V → Dict V → Dict V
  insert k v [] = (k, v) ∷ []
  insert k v ((j, w) ∷ m) = if j == k then (k, v) ∷ m else (j, w) ∷ insert k v m

  -- `m[k]`, which is the zero value where the key is missing.
  unfoldable pub get_or : V → String → Dict V → V
  get_or zero k m = elim (lookup k m) [ none ↦ zero | some v ↦ v ]
