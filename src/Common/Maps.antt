-- ===== src/Common/Maps.antt =====
-- Go maps with text keys, as association lists: the first entry of a key counts.
use Prim.Native.String.{String}
use mathlib.Core.Bool.{false, not}
use mathlib.Core.Option.{Option, none, some}
use mathlib.Core.List.{List, [], ◌∷◌}
use mathlib.Core.Logic.{inl, inr}
use mathlib.Core.Path.{◌≡◌, ◌∙◌, refl}
use native.Mathlib.Omega.{arith}
use text.Mathlib.Text.{◌==◌}
use text.Mathlib.TextEquality.{eq_iff}
use k8s_mtp.Common.Lists.{keep}
use k8s_mtp.Common.Tests.{if◌then◌else◌, Bool-cases}

module _ {ℓ} {Value : Type ℓ} where
  unfoldable pub lookup : String → List (String × Value) → Option Value
  lookup key [] = none
  lookup key (entry ∷ rest) = if entry.0 == key then some entry.1 else lookup key rest

  -- `m[key]`, with the zero value of the type for a key that the map lacks.
  unfoldable pub lookup_or : Value → String → List (String × Value) → Value
  lookup_or zero_value key [] = zero_value
  lookup_or zero_value key (entry ∷ rest) =
      if entry.0 == key then entry.1 else lookup_or zero_value key rest

  -- `delete(m, key)`.
  abbrev without_key : String → List (String × Value) → List (String × Value)
  without_key key = keep (λ entry. not (entry.0 == key))

  -- `m[key] = value`: the new entry stands in front, and no other has the key.
  unfoldable pub insert : String → Value → List (String × Value) → List (String × Value)
  insert key value entries = (key, value) ∷ without_key key entries

  lookup-without_key :
      (key other : String) (entries : List (String × Value))
      → (key == other) ≡ false
      → lookup other (without_key key entries) ≡ lookup other entries
  unfolding lookup
  lookup-without_key key other [] h = refl
  lookup-without_key key other (entry ∷ rest) h = elim (Bool-cases (entry.0 == key)) [
    | inl e ↦ rw e (
        lookup-without_key key other rest h
        ∙ ground (arith, h, e, eq_iff entry.0 key, eq_iff key other, eq_iff entry.0 other))
    | inr e ↦ rw e (ground (arith, lookup-without_key key other rest h))
  ]

  pub lookup-insert :
      (key other : String) (value : Value) (entries : List (String × Value))
      → lookup other (insert key value entries)
        ≡ (if key == other then some value else lookup other entries)
  unfolding lookup insert
  lookup-insert key other value entries = elim (Bool-cases (key == other)) [
    | inl e ↦ rw e refl
    | inr e ↦ rw e (lookup-without_key key other entries e)
  ]
