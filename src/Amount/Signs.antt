-- ===== src/Amount/Signs.antt =====
-- The sign of what `Amount::from_str` reads (src/amount.rs).
use webylib.Prelude.{
  ℕ, ◌≡◌, ◌∙◌, refl, sym, ◌<◌, ◌⊎◌, false, ◌||◌, List, [], ◌∷◌, ◌++◌, All, arith, ◌==◌,
}
use webylib.Prelude.Int.{ℤ, pos, ◌≤ℤ◌}
use webylib.Prelude.Text.{Text, codes, beq, split, split_by}
use webylib.Prelude.Text.Split.{Lacks, contains_char-false, split-Lacks, split-cons, All-map}
use webylib.Prelude.Decimal.{parse_i64}
use webylib.Prelude.Decimal.Laws.{IsDigit}
use webylib.Fault.{ok, ok_or, ◌>>=◌, >>=-eq-ok}
use webylib.Amount.{Amount}
use webylib.Amount.Float.{Float}
use webylib.Amount.Parse.{
  from_str, from_decimal, from_webcash, scientific_parts, parse_scientific_notation, parse_parts,
  is_empty, part0, part1, in_i32, scaled, parse_integer_part, parse_fraction, scale, scale_add,
  strip_symbol, not_negative,
}

not_negative-valid : (w : ℤ) {a : Amount} → not_negative w ≡ ok a → pos 0 ≤ℤ a.wats
not_negative-valid w h = ground arith

parse_parts-valid : (p q : Text) {a : Amount} → parse_parts p q ≡ ok a → pos 0 ≤ℤ a.wats
unfolding parse_parts
parse_parts-valid p [] h =
    let (i, _, h1) = >>=-eq-ok (parse_integer_part p) _ h in
    let (w, _, h2) = >>=-eq-ok (scale i) _ h1 in not_negative-valid w h2
parse_parts-valid [] (c ∷ q) h = cc
parse_parts-valid (d ∷ p) (c ∷ q) h =
    let (i, _, h1) = >>=-eq-ok (parse_integer_part (d ∷ p)) _ h in
    let (r, _, h2) = >>=-eq-ok (parse_fraction (c ∷ q)) _ h1 in
    let (w, _, h3) = >>=-eq-ok (scale_add i r) _ h2 in not_negative-valid w h3

from_decimal-valid : (s : Text) {a : Amount} → from_decimal s ≡ ok a → pos 0 ≤ℤ a.wats
unfolding from_decimal
from_decimal-valid s {a} h =
    let parts = split b'.' (strip_symbol s) in
    ground (arith, parse_parts-valid (part0 parts) (part1 parts) {a = a})

module _ (f : Float) where
  from_webcash-valid : (x : Float.F64 f) {a : Amount} → from_webcash f x ≡ ok a → pos 0 ≤ℤ a.wats
  unfolding from_webcash
  from_webcash-valid x h = ground arith

  scientific_parts-valid :
      (parts : List Text) {a : Amount} → scientific_parts f parts ≡ ok a → pos 0 ≤ℤ a.wats
  unfolding scientific_parts
  scientific_parts-valid (p ∷ q ∷ []) h =
      let (c, _, h1) = >>=-eq-ok (ok_or (Float.parse f p) _) _ h in
      let (e, _, h2) = >>=-eq-ok (ok_or (in_i32 (parse_i64 q)) _) _ h1 in
      from_webcash-valid (scaled f c e) h2
  scientific_parts-valid [] h = cc
  scientific_parts-valid (p ∷ []) h = cc
  scientific_parts-valid (p ∷ q ∷ r ∷ parts) h = cc

  -- No text is read as a negative amount, in decimal or in scientific notation.
  pub from_str-valid : (s : Text) {a : Amount} → from_str f s ≡ ok a → pos 0 ≤ℤ a.wats
  unfolding from_str parse_scientific_notation
  from_str-valid s {a} h = ground (
    arith,
    from_decimal-valid s {a = a},
    scientific_parts-valid (split_by (λ c. c == b'E' || c == b'e') s) {a = a},
  )

not_scientific :
    (f : Float) (c : ℕ) (s : Text)
    → Lacks b'E' (c ∷ s)
    → Lacks b'e' (c ∷ s)
    → from_str f (c ∷ s) ≡ from_decimal (c ∷ s)
unfolding from_str
not_scientific f c s upper lower =
    rw (contains_char-false b'E' (c ∷ s) upper) (rw (contains_char-false b'e' (c ∷ s) lower) refl)

digits_lack : (k : ℕ) (s : Text) → (k < b'0') ⊎ (b'9' < k) → All IsDigit s → Lacks k s
digits_lack k s other h = All-map s (λ c d. omega arith) h

-- Behind a whole part, signed or not, that is read as 0.
from_decimal-zero_whole :
    (whole : Text) (d : ℕ) (s : Text)
    → strip_symbol (whole ++ b'.' ∷ d ∷ s) ≡ whole ++ b'.' ∷ d ∷ s
    → beq (whole ++ b'.' ∷ d ∷ s) (codes "0") ≡ false
    → Lacks b'.' whole
    → is_empty whole ≡ false
    → parse_integer_part whole ≡ ok (pos 0)
    → All IsDigit (d ∷ s)
    → from_decimal (whole ++ b'.' ∷ d ∷ s)
      ≡ (do r ← parse_fraction (d ∷ s); wats ← scale_add (pos 0) r; not_negative wats)
unfolding from_decimal parse_parts
from_decimal-zero_whole whole d s plain other lacks full reads h = rw plain (
    rw other (
      rw (split-cons b'.' whole (d ∷ s) lacks) (
        rw (split-Lacks b'.' (d ∷ s) (digits_lack b'.' (d ∷ s) (omega arith) h))
          (rw full (rw reads refl)))))

-- A minus in front of a whole part of 0 has no effect: "-0.5" is read as 0.5.
pub from_str-minus_zero :
    (f : Float) (d : ℕ) (s : Text)
    → All IsDigit (d ∷ s)
    → from_str f (b'-' ∷ b'0' ∷ b'.' ∷ d ∷ s) ≡ from_str f (b'0' ∷ b'.' ∷ d ∷ s)
from_str-minus_zero f d s h =
    let upper : Lacks b'E' (d ∷ s) = digits_lack b'E' (d ∷ s) (omega arith) h in
    let lower : Lacks b'e' (d ∷ s) = digits_lack b'e' (d ∷ s) (omega arith) h in
    not_scientific f b'-' (b'0' ∷ b'.' ∷ d ∷ s) (omega arith, (omega arith, (omega arith, upper)))
      (omega arith, (omega arith, (omega arith, lower)))
    ∙ from_decimal-zero_whole (codes "-0") d s (unfold strip_symbol in refl) (unfold beq in refl)
        (omega arith) refl (unfold parse_integer_part parse_i64 in refl) h
    ∙ sym (
        from_decimal-zero_whole (codes "0") d s (unfold strip_symbol in refl) (unfold beq in refl)
          (omega arith) refl (unfold parse_integer_part parse_i64 in refl) h)
    ∙ sym (
        not_scientific f b'0' (b'.' ∷ d ∷ s) (omega arith, (omega arith, upper))
          (omega arith, (omega arith, lower)))
