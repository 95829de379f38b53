-- ===== src/Base/Maps.antt =====
-- Go maps with string keys, as association lists: `m[k]`, `_, ok := m[k]` and `m[k] = v`.
use Prim.Native.String.{String}
use mathlib.Core.Path.{◌≡◌, refl}
use mathlib.Core.Bool.{Bool, false, ◌||◌}
use mathlib.Core.Option.{Option, none, some}
use mathlib.Core.List.{List, [], ◌∷◌}
use native.Mathlib.Omega.{arith}
use text.Mathlib.Text.{◌==◌}
use text.Mathlib.TextEquality.{eq_iff}
use text.Mathlib.TextPositions.{eq_refl}
use hohapiserver.Base.Cases.{if◌then◌else◌, Bool-cases}
use mathlib.Core.Logic.{inl, inr}

module _ {ℓ} {V : Type ℓ} where
  -- Of two entries with one key the first counts, and it is the one that is replaced.
  unfoldable pub lookup : String → List (String × V) → Option V
  lookup key [] = none
  lookup key (entry ∷ later) =
      let missed = lookup key later in if entry.0 == key then some entry.1 else missed

  unfoldable pub insert : String → V → List (String × V) → List (String × V)
  insert key value [] = (key, value) ∷ []
  insert key value (entry ∷ later) =
      let inserted = insert key value later in
      if entry.0 == key then (key, value) ∷ later else entry ∷ inserted

  pub lookup-insert :
      (written read : String) (value : V) (dict : List (String × V))
      → lookup read (insert written value dict)
        ≡ (if written == read then some value else lookup read dict)
  unfolding lookup insert
  lookup-insert written read value [] = refl
  lookup-insert written read value (entry ∷ later) = elim (Bool-cases (entry.0 == written)) [
    | inl same ↦ ground (arith, eq_iff written read, eq_iff entry.0 written, eq_iff entry.0 read)
    | inr differs ↦ ground (
      arith,
      lookup-insert written read value later,
      eq_iff written read,
      eq_iff entry.0 written,
      eq_iff entry.0 read,
    )
  ]

  pub lookup-insert_self :
      (written : String) (value : V) (dict : List (String × V))
      → lookup written (insert written value dict) ≡ some value
  lookup-insert_self written value dict =
      rw (lookup-insert written written value dict) (rw (eq_refl written))

unfoldable pub elem : String → List String → Bool
elem k [] = false
elem k (x ∷ xs) = k == x || elem k xs
