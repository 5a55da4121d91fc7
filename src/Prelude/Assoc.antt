-- ===== src/Prelude/Assoc.antt =====
-- A `HashMap` with text keys, as a list of entries with distinct keys. Its order is not specified.
use mathlib.Core.Path.{◌≡◌, refl}
use mathlib.Core.Option.{Option, none, some}
use mathlib.Core.List.{List, [], ◌∷◌}
use native.Mathlib.Omega.{arith}
use webylib.Prelude.Tests.{if◌then◌else◌}
use webylib.Prelude.Text.{Text, beq, beq_iff}

abbrev pub Assoc {ℓ} : Type ℓ → Type ℓ
Assoc V = List (Text × V)

module _ {ℓ} {V : Type ℓ} where
  unfoldable pub lookup : Text → Assoc V → Option V
  lookup k [] = none
  lookup k ((j, v) ∷ m) = if beq j k then some v else lookup k m

  unfoldable pub insert : Text → V → Assoc V → Assoc V
  insert k v [] = (k, v) ∷ []
  insert k v ((j, w) ∷ m) = if beq j k then (k, v) ∷ m else (j, w) ∷ insert k v m

  pub lookup-insert :
      (k j : Text) (v : V) (m : Assoc V)
      → lookup j (insert k v m) ≡ (if beq k j then some v else lookup j m)
  unfolding lookup insert
  lookup-insert k j v [] = refl
  lookup-insert k j v ((i, w) ∷ m) =
      ground (arith, beq_iff k j, beq_iff i k, beq_iff i j, lookup-insert k j v m)
