-- ===== src/Prelude/Text/Split.antt =====
-- Texts that lack a separator, and what `split` and `contains_char` do on them.
use Prim.Native.Nat.{ℕ, ◌≤◌}
use mathlib.Core.Path.{◌≡◌, refl, ap, ◌∙◌}
use mathlib.Core.Logic.{◌≢◌, inl, inr}
use mathlib.Core.Bool.{Bool, false}
use mathlib.Core.List.{List, [], ◌∷◌, ◌++◌}
use native.Mathlib.Omega.{arith}
use webylib.Prelude.Tests.{Bool-cases, ◌==◌}
use webylib.Prelude.Lists.{All, length}
use webylib.Prelude.Text.{
  Text, split, split_by, contains_char, cons_head, join, trim, trim_start_by, trim_end_by,
  is_whitespace, len,
}

abbrev pub Lacks : ℕ → Text → Type 0
Lacks k = All (λ c. c ≢ k)

pub contains_char-false : (k : ℕ) (s : Text) → Lacks k s → contains_char k s ≡ false
unfolding contains_char
contains_char-false k [] h = refl
contains_char-false k (c ∷ s) h = ground (arith, contains_char-false k s h.1)

pub Lacks-contains_char : (k : ℕ) (s : Text) → contains_char k s ≡ false → Lacks k s
unfolding contains_char
Lacks-contains_char k [] e = tt
Lacks-contains_char k (c ∷ s) e = (ground arith, Lacks-contains_char k s (ground arith))

pub split-Lacks : (sep : ℕ) (s : Text) → Lacks sep s → split sep s ≡ s ∷ []
unfolding split_by
split-Lacks sep [] h = refl
split-Lacks sep (c ∷ s) h = ground (arith, split-Lacks sep s h.1)

-- A part that lacks the separator, the separator, and any rest.
pub split-cons : (sep : ℕ) (s t : Text) → Lacks sep s → split sep (s ++ sep ∷ t) ≡ s ∷ split sep t
unfolding split_by
split-cons sep [] t h = ground arith
split-cons sep (c ∷ s) t h = ground (arith, split-cons sep s t h.1)

-- A text of ASCII characters has as many bytes as characters.
pub len-length : (s : Text) → All (λ c. c ≤ 127) s → len s ≡ length s
unfolding len
len-length [] h = refl
len-length (c ∷ s) h = ground (arith, len-length s h.1)

pub All-map {ℓ κ} :
    {A : Type ℓ} {P Q : A → Type κ} (s : List A) → ((a : A) → P a → Q a) → All P s → All Q s
All-map [] f h = tt
All-map (c ∷ s) f h = (f c h.0, All-map s f h.1)

join-cons_head :
    (sep c : ℕ) (parts : List Text)
    → parts ≢ []
    → join (sep ∷ []) (cons_head c parts) ≡ c ∷ join (sep ∷ []) parts
unfolding join
join-cons_head sep c [] h = absurd (h refl)
join-cons_head sep c (p ∷ []) h = refl
join-cons_head sep c (p ∷ q ∷ parts) h = refl

split-ne-nil : (sep : ℕ) (s : Text) → split sep s ≢ []
unfolding split_by
split-ne-nil sep [] e = cc
split-ne-nil sep (c ∷ s) e = elim (Bool-cases (c == sep)) [
  | inl at ↦ ground arith
  | inr off ↦ head_ne (split sep s) (rw off at e)
]
  where
    head_ne : (parts : List Text) → cons_head c parts ≢ []
    head_ne [] e = cc
    head_ne (p ∷ parts) e = cc

-- Joining the parts by the separator gives the text back.
pub join-split : (sep : ℕ) (s : Text) → join (sep ∷ []) (split sep s) ≡ s
unfolding split_by
join-split sep [] = unfold join in refl
join-split sep (c ∷ s) = elim (Bool-cases (c == sep)) [
  | inl at ↦ rw at (behind (split sep s) (split-ne-nil sep s) (join-split sep s) ∙ ground arith)
  | inr off ↦
      rw off (
        join-cons_head sep c (split sep s) (split-ne-nil sep s)
        ∙ ap (λ t. c ∷ t) (join-split sep s))
]
  where
    behind :
        (parts : List Text)
        → parts ≢ []
        → join (sep ∷ []) parts ≡ s
        → join (sep ∷ []) ([] ∷ parts) ≡ sep ∷ s
    behind [] h e = absurd (h refl)
    behind (p ∷ parts) h e = unfold join in ap (λ t. sep ∷ t) e

pub trim_start_by-none :
    (p : ℕ → Bool) (c : ℕ) (s : Text) → p c ≡ false → trim_start_by p (c ∷ s) ≡ c ∷ s
unfolding trim_start_by
trim_start_by-none p c s h = rw h refl

pub trim_end_by-none : (p : ℕ → Bool) (s : Text) → All (λ c. p c ≡ false) s → trim_end_by p s ≡ s
unfolding trim_end_by
trim_end_by-none p [] h = refl
trim_end_by-none p (c ∷ []) h = rw h.0 refl
trim_end_by-none p (c ∷ d ∷ s) h = rw (trim_end_by-none p (d ∷ s) h.1) refl

-- A visible ASCII character.
abbrev pub IsVisible : ℕ → Type 0
IsVisible c = (33 ≤ c) × (c ≤ 126)

pub visible-not_whitespace : (c : ℕ) → IsVisible c → is_whitespace c ≡ false
unfolding is_whitespace
visible-not_whitespace c h = ground arith

pub trim-visible : (s : Text) → All IsVisible s → trim s ≡ s
unfolding trim
trim-visible [] h = unfold trim_start_by trim_end_by in refl
trim-visible (c ∷ s) h =
    ap (trim_end_by is_whitespace)
      (trim_start_by-none is_whitespace c s (visible-not_whitespace c h.0))
    ∙ trim_end_by-none is_whitespace (c ∷ s) (All-map (c ∷ s) visible-not_whitespace h)
