-- ===== src/Prelude/Text/Once.antt =====
-- `str::split_once` by a character.
use Prim.Native.Nat.{ℕ}
use mathlib.Core.Path.{◌≡◌, refl, ap}
use mathlib.Core.Logic.{inl, inr}
use mathlib.Core.Option.{Option, none, some}
use mathlib.Core.List.{[], ◌∷◌, ◌++◌}
use native.Mathlib.Omega.{arith}
use webylib.Prelude.Tests.{Bool-cases, ◌==◌, if◌then◌else◌}
use webylib.Prelude.Text.{Text}
use webylib.Prelude.Text.Split.{Lacks}

-- The text before the first separator and the text after it.
abbrev behind_char : ℕ → Option (Text × Text) → Option (Text × Text)
behind_char c none = none
behind_char c (some (front, rest)) = some (c ∷ front, rest)

unfoldable pub split_once : ℕ → Text → Option (Text × Text)
split_once sep [] = none
split_once sep (c ∷ s) =
    let later = behind_char c (split_once sep s) in if c == sep then some ([], s) else later

pub split_once-cons :
    (sep : ℕ) (s t : Text) → Lacks sep s → split_once sep (s ++ sep ∷ t) ≡ some (s, t)
unfolding split_once
split_once-cons sep [] t h = ground arith
split_once-cons sep (c ∷ s) t h = rw (split_once-cons sep s t h.1) (ground arith)

pub split_once-Lacks : (sep : ℕ) (s : Text) → Lacks sep s → split_once sep s ≡ none
unfolding split_once
split_once-Lacks sep [] h = refl
split_once-Lacks sep (c ∷ s) h = rw (split_once-Lacks sep s h.1) (ground arith)

-- A text with a separator is split.
pub split_once-some :
    (sep : ℕ) (s t : Text) → (p : Text × Text) × (split_once sep (s ++ sep ∷ t) ≡ some p)
unfolding split_once
split_once-some sep [] t = (([], t), ground arith)
split_once-some sep (c ∷ s) t =
    let (p, e) = split_once-some sep s t in
    elim (Bool-cases (c == sep)) [
      | inl at ↦ (([], s ++ sep ∷ t), rw at refl)
      | inr off ↦ ((c ∷ p.0, p.1), rw off (ap (behind_char c) e))
    ]
