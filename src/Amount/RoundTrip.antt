-- ===== src/Amount/RoundTrip.antt =====
-- What an amount prints is read back as the amount (src/amount.rs).
use webylib.Prelude.{
  ℕ, zero, suc, ◌+◌, ◌-◌, ◌*◌, ◌/◌, ◌%◌, ◌^◌, ◌≤◌, ◌<◌, ◌≡◌, ◌≢◌, inl, inr, refl, append-nil, subst,
  sym, ap, ◌∙◌, false, ◌++◌, ◌∷◌, [], List, some, arith, All, All-append, length, length-append,
  length-replicate, replicate, Bool-cases, ◌==◌, if◌then◌else◌,
}
use native.Mathlib.Nat.{pow-suc}
use webylib.Prelude.Int.{
  pos, max_i64, ◌*ℤ◌, pos-mul, pos-add, checked, checked-InI64, quot, rem_abs,
}
use webylib.Prelude.Text.{Text, codes, beq, beq_iff, trim_end_by, split, split_by}
use webylib.Prelude.Text.Split.{
  Lacks, All-map, contains_char-false, split-Lacks, split-cons, len-length,
}
use webylib.Prelude.Decimal.{value, format_ℕ, format_i64, format_padded, parse_i64}
use webylib.Prelude.Decimal.Laws.{
  IsDigit, digits-digits, digits_zeros, digits-cons, value-digits, length-digits, value-zeros,
  value-append_zeros, trim_zeros, All-prefix, parse_i64-digits, parse_i64-format_ℕ,
}
use webylib.Fault.{ok}
use webylib.Amount.{from_wats, unit, decimals}
use webylib.Amount.Print.{to_string_with_decimals, display, with_fraction, is_zero_digit}
use webylib.Amount.Float.{Float}
use webylib.Amount.Parse.{
  from_str, from_decimal, parse_parts, is_empty, many, part0, part1, parse_fraction,
  parse_integer_part, scale, scale_add, strip_symbol,
}

-- The characters of a printed amount.
abbrev pub IsDigitOrPoint : ℕ → Type 0
IsDigitOrPoint c = (c ≤ b'9') × (b'.' ≤ c)

lacks : (k : ℕ) (s : Text) → b'9' < k → All IsDigitOrPoint s → Lacks k s
lacks k s h = All-map s (λ c d. omega arith)

Lacks-point : (s : Text) → All IsDigit s → Lacks b'.' s
Lacks-point s = All-map s (λ c d. omega arith)

or_point : (s : Text) → All IsDigit s → All IsDigitOrPoint s
or_point s = All-map s (λ c d. omega arith)

-- A text of digits and points is not read as scientific, and has no symbol in front.
from_str-plain :
    (f : Float) (c : ℕ) (s : Text)
    → All IsDigitOrPoint (c ∷ s)
    → from_str f (c ∷ s) ≡ from_decimal (c ∷ s)
unfolding from_str
from_str-plain f c s h =
    rw (contains_char-false b'E' (c ∷ s) (lacks _ (c ∷ s) (omega arith) h))
      (rw (contains_char-false b'e' (c ∷ s) (lacks _ (c ∷ s) (omega arith) h)) refl)

strip_symbol-digit : (c : ℕ) (s : Text) → IsDigit c → strip_symbol (c ∷ s) ≡ c ∷ s
unfolding strip_symbol
strip_symbol-digit c s h = ground arith

-- The printed integer part, with its first digit.
module _ (i : ℕ) where
  format_digits : All IsDigit (format_ℕ i)
  unfolding format_ℕ
  format_digits = digits-digits (suc i) i

  value-format : value 0 (format_ℕ i) ≡ i
  unfolding format_ℕ
  value-format = value-digits (suc i) i (omega arith)

  format-cons : (c : ℕ) × (s : Text) × (format_ℕ i ≡ c ∷ s)
  unfolding format_ℕ
  format-cons = digits-cons i i

parse_integer_part-format : (i : ℕ) → i ≤ max_i64 → parse_integer_part (format_ℕ i) ≡ ok (pos i)
unfolding parse_integer_part
parse_integer_part-format i fits =
    let (c, s, e) = format-cons i in
    let p : parse_i64 (c ∷ s) ≡ some (pos i) = rw (← e) (parse_i64-format_ℕ i fits) in
    rw e (rw p refl)

scale-pos : (i : ℕ) → i * unit ≤ max_i64 → scale (pos i) ≡ ok (pos (i * unit))
unfolding scale
scale-pos i fits =
    rw (pos-mul i unit) (rw (checked-InI64 (pos (i * unit)) (fits, omega arith)) refl)

scale_add-pos :
    (i r : ℕ) → i * unit + r ≤ max_i64 → scale_add (pos i) (pos r) ≡ ok (pos (i * unit + r))
unfolding scale_add
scale_add-pos i r fits =
    rw (scale-pos i (omega arith))
      (rw (pos-add (i * unit) r) (rw (checked-InI64 (pos (i * unit + r)) (fits, omega arith)) refl))

from_decimal_lem :
    (t : Text) (p q : Text) (parts : List Text)
    → strip_symbol t ≡ t
    → t ≢ codes "0"
    → split b'.' t ≡ parts
    → many parts ≡ false
    → from_decimal t ≡ parse_parts (part0 parts) (part1 parts)
unfolding from_decimal
from_decimal_lem t p q parts plain other e few = elim (Bool-cases (beq t (codes "0"))) [
  | inl same ↦ absurd (other ((beq_iff t (codes "0")).0 same))
  | inr differs ↦ rw plain (rw differs (rw e (rw few refl)))
]

strip_symbol-format : (i : ℕ) (rest : Text) → strip_symbol (format_ℕ i ++ rest) ≡ format_ℕ i ++ rest
strip_symbol-format i rest =
    let (c, s, e) = format-cons i in
    let h : All IsDigit (c ∷ s) = subst (All IsDigit) e (format_digits i) in
    rw e (strip_symbol-digit c (s ++ rest) h.0)

format-ne-zero : (i : ℕ) → 0 < i → format_ℕ i ≢ codes "0"
format-ne-zero i positive e =
    let v : value 0 (format_ℕ i) ≡ 0 = rw e refl in omega (arith, v, value-format i)

parse_parts-whole :
    (i : ℕ) → i * unit ≤ max_i64 → parse_parts (format_ℕ i) [] ≡ ok (from_wats (pos (i * unit)))
unfolding parse_parts
parse_parts-whole i fits =
    rw (parse_integer_part-format i (omega arith)) (rw (scale-pos i fits) (ground arith))

-- The text of an amount of whole webcash is read back.
from_decimal-whole :
    (i : ℕ)
    → 0 < i
    → i * unit ≤ max_i64
    → from_decimal (format_ℕ i) ≡ ok (from_wats (pos (i * unit)))
from_decimal-whole i positive fits =
    from_decimal_lem (format_ℕ i) [] [] (format_ℕ i ∷ [])
      (rw append-nil at (strip_symbol-format i [])) (format-ne-zero i positive)
      (split-Lacks b'.' (format_ℕ i) (Lacks-point _ (format_digits i))) refl
    ∙ parse_parts-whole i fits

parse_i64-nonempty :
    (s : Text) → s ≢ [] → All IsDigit s → value 0 s ≤ max_i64 → parse_i64 s ≡ some (pos (value 0 s))
parse_i64-nonempty [] other h fits = absurd (other refl)
parse_i64-nonempty (c ∷ s) other h fits = parse_i64-digits c s h fits

pow-pos : (k : ℕ) → 0 < 10 ^ k
pow-pos zero = omega arith
pow-pos (suc k) = omega (arith, pow-suc 10 k, pow-pos k)

is_empty-format : (i : ℕ) → is_empty (format_ℕ i) ≡ false
is_empty-format i = let (c, s, e) = format-cons i in rw e refl

parse_parts-fraction :
    (i r d : ℕ) (s : Text)
    → parse_fraction (d ∷ s) ≡ ok (pos r)
    → i * unit + r ≤ max_i64
    → parse_parts (format_ℕ i) (d ∷ s) ≡ ok (from_wats (pos (i * unit + r)))
unfolding parse_parts
parse_parts-fraction i r d s fraction fits = rw (is_empty-format i) (
    rw (parse_integer_part-format i (omega arith))
      (rw fraction (rw (scale_add-pos i r fits) (ground arith))))

with_point-ne-zero : (t s : Text) → t ++ b'.' ∷ s ≢ codes "0"
with_point-ne-zero [] s e = ground arith
with_point-ne-zero (c ∷ []) s e = ground arith
with_point-ne-zero (c ∷ d ∷ t) s e = ground arith

-- The fraction, without the zeros at its end.
module _ (r : ℕ) (positive : 0 < r) (small : r < unit) where
  abbrev padded : Text
  padded = format_padded 8 r

  abbrev trimmed : Text
  trimmed = trim_end_by is_zero_digit padded

  padded_digits : All IsDigit padded
  unfolding format_padded
  padded_digits =
      All-append IsDigit (replicate _ b'0') (format_ℕ r) (digits_zeros _) (format_digits r)

  value-padded : value 0 padded ≡ r
  unfolding format_padded
  value-padded = value-zeros (8 - length (format_ℕ r)) (format_ℕ r) ∙ value-format r

  length-format_small : length (format_ℕ r) ≤ 8
  unfolding format_ℕ
  length-format_small = length-digits 7 (suc r) r small

  length-padded : length padded ≡ 8
  unfolding format_padded
  length-padded = rw (length-append (replicate (8 - length (format_ℕ r)) b'0') (format_ℕ r)) (
      rw (length-replicate {A = ℕ} (8 - length (format_ℕ r)) b'0')
        (omega (arith, length-format_small)))

  cut : (k : ℕ) × (trimmed ++ replicate k b'0' ≡ padded)
  cut = trim_zeros padded

  trimmed_digits : All IsDigit trimmed
  trimmed_digits = All-prefix IsDigit trimmed (replicate cut.0 b'0') (rw cut.1 padded_digits)

  length-trimmed : length trimmed + cut.0 ≡ 8
  length-trimmed =
      let e : length (trimmed ++ replicate cut.0 b'0') ≡ 8 = rw cut.1 length-padded in
      omega (
        arith,
        e,
        length-append trimmed (replicate cut.0 b'0'),
        length-replicate {A = ℕ} cut.0 b'0',
      )

  value-trimmed : value 0 trimmed * 10 ^ cut.0 ≡ r
  value-trimmed = sym (value-append_zeros trimmed cut.0) ∙ ap (value 0) cut.1 ∙ value-padded

  value_fits : value 0 trimmed ≤ max_i64
  value_fits = grind (arith, value-trimmed, pow-pos cut.0)

  trimmed-ne-nil : trimmed ≢ []
  trimmed-ne-nil e =
      let v : 0 * 10 ^ cut.0 ≡ r = subst (λ s. value 0 s * 10 ^ cut.0 ≡ r) e value-trimmed in
      omega (arith, v)

  parse_fraction-trimmed : parse_fraction trimmed ≡ ok (pos r)
  unfolding parse_fraction
  parse_fraction-trimmed =
      let e : decimals - length trimmed ≡ cut.0 = omega (arith, length-trimmed) in
      rw (len-length trimmed (All-map trimmed (λ c d. omega arith) trimmed_digits)) (
        rw (parse_i64-nonempty trimmed trimmed-ne-nil trimmed_digits value_fits) (
          rw (pos-mul (value 0 trimmed) (10 ^ (decimals - length trimmed)))
            (rw e (rw value-trimmed (ground (arith, length-trimmed))))))

  from_decimal-fraction :
      (i : ℕ)
      → i * unit + r ≤ max_i64
      → from_decimal (with_fraction (format_ℕ i) trimmed) ≡ ok (from_wats (pos (i * unit + r)))
  from_decimal-fraction i fits = with_some trimmed refl
    where
      with_some :
          (s : Text)
          → trimmed ≡ s
          → from_decimal (with_fraction (format_ℕ i) s) ≡ ok (from_wats (pos (i * unit + r)))
      with_some [] e = absurd (trimmed-ne-nil e)
      with_some (d ∷ s) e =
          let fraction : parse_fraction (d ∷ s) ≡ ok (pos r) =
            subst (λ u. parse_fraction u ≡ ok (pos r)) e parse_fraction-trimmed in
          let ds : All IsDigit (d ∷ s) = subst (All IsDigit) e trimmed_digits in
          from_decimal_lem (format_ℕ i ++ b'.' ∷ d ∷ s) [] [] (format_ℕ i ∷ (d ∷ s) ∷ [])
            (strip_symbol-format i (b'.' ∷ d ∷ s)) (with_point-ne-zero (format_ℕ i) (d ∷ s))
            (split-cons b'.' (format_ℕ i) (d ∷ s) (Lacks-point (format_ℕ i) (format_digits i))
              ∙ ap (λ parts. format_ℕ i ∷ parts)
                  (split-Lacks b'.' (d ∷ s) (Lacks-point (d ∷ s) ds)))
            refl
          ∙ parse_parts-fraction i r d s fraction fits

display-pos :
    (n : ℕ)
    → 0 < n
    → display (from_wats (pos n)) ≡ (
        if n % unit == 0
        then format_ℕ (n / unit)
        else with_fraction
            (format_ℕ (n / unit))
            (trim_end_by is_zero_digit (format_padded 8 (n % unit))))
unfolding to_string_with_decimals quot rem_abs format_i64
display-pos n positive = ground arith

from_decimal-display :
    (n : ℕ)
    → 0 < n
    → n ≤ max_i64
    → from_decimal (display (from_wats (pos n))) ≡ ok (from_wats (pos n))
from_decimal-display n positive fits =
    rw (display-pos n positive) (elim (Bool-cases (n % unit == 0)) [
      | inl whole ↦
          let e : n / unit * unit ≡ n = ground arith in
          rw whole (
            from_decimal-whole (n / unit) (ground arith) (omega arith)
            ∙ ap (λ m. ok (from_wats (pos m))) e)
      | inr part ↦
          let e : n / unit * unit + n % unit ≡ n = omega arith in
          rw part (
            from_decimal-fraction (n % unit) (ground arith) (omega arith) (n / unit) (omega arith)
            ∙ ap (λ m. ok (from_wats (pos m))) e)
    ])

with_fraction_plain :
    (i : ℕ) (s : Text) → All IsDigit s → All IsDigitOrPoint (with_fraction (format_ℕ i) s)
with_fraction_plain i [] h = or_point (format_ℕ i) (format_digits i)
with_fraction_plain i (d ∷ s) h =
    All-append IsDigitOrPoint (format_ℕ i) (b'.' ∷ d ∷ s) (or_point (format_ℕ i) (format_digits i))
      ((omega arith, omega arith), or_point (d ∷ s) h)

display_plain : (n : ℕ) → 0 < n → All IsDigitOrPoint (display (from_wats (pos n)))
display_plain n positive = rw (display-pos n positive) (elim (Bool-cases (n % unit == 0)) [
  | inl whole ↦ rw whole (or_point (format_ℕ (n / unit)) (format_digits (n / unit)))
  | inr part ↦
      rw part
        (with_fraction_plain (n / unit) _ (trimmed_digits (n % unit) (ground arith) (omega arith)))
])

from_str-nonempty :
    (f : Float) (t : Text) → t ≢ [] → All IsDigitOrPoint t → from_str f t ≡ from_decimal t
from_str-nonempty f [] other h = absurd (other refl)
from_str-nonempty f (c ∷ s) other h = from_str-plain f c s h

zero_reads : (f : Float) → from_str f (codes "0") ≡ ok (from_wats (pos 0))
zero_reads f =
    from_str-plain f b'0' [] ((omega arith, omega arith), tt)
    ∙ (unfold from_decimal strip_symbol beq in refl)

display-zero : display (from_wats (pos 0)) ≡ codes "0"
unfolding to_string_with_decimals
display-zero = refl

pub display_chars : (n : ℕ) → All IsDigitOrPoint (display (from_wats (pos n)))
display_chars zero = rw display-zero ((omega arith, omega arith), tt)
display_chars (suc n) = display_plain (suc n) (omega arith)

-- What is left of the text "₩" is read as 0.
empty_reads : from_decimal [] ≡ ok (from_wats (pos 0))
unfolding from_decimal strip_symbol split_by parse_parts parse_integer_part scale beq checked ◌*ℤ◌
empty_reads = refl

-- Every amount of 0 up to `i64::MAX` wats is read back from its display, with or without a
-- fraction, by the whole of `from_str`.
pub from_str-display :
    (f : Float) (n : ℕ)
    → n ≤ max_i64
    → from_str f (display (from_wats (pos n))) ≡ ok (from_wats (pos n))
from_str-display f zero fits = rw display-zero (zero_reads f)
from_str-display f (suc n) fits =
    let back = from_decimal-display (suc n) (omega arith) fits in
    from_str-nonempty f (display (from_wats (pos (suc n)))) (nonempty back)
      (display_plain (suc n) (omega arith))
    ∙ back
  where
    nonempty :
        from_decimal (display (from_wats (pos (suc n)))) ≡ ok (from_wats (pos (suc n)))
        → display (from_wats (pos (suc n))) ≢ []
    nonempty back e =
        let empty : from_decimal [] ≡ ok (from_wats (pos (suc n))) =
          subst (λ t. from_decimal t ≡ ok (from_wats (pos (suc n)))) e back in
        ground (arith, empty, empty_reads)
