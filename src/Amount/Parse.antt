-- ===== src/Amount/Parse.antt =====
-- Reading an amount (`FromStr`, `from_webcash`, `parse_scientific_notation`) in src/amount.rs.
use webylib.Prelude.{
  ◌-◌, ◌^◌, ◌≡◌, refl, Bool, true, false, ◌&&◌, ◌||◌, Option, none, some, List, [], ◌∷◌, ltb, ◌==◌,
  if◌then◌else◌,
}
use webylib.Prelude.Int.{ℤ, pos, negsuc, ◌+ℤ◌, ◌-ℤ◌, ◌*ℤ◌, ltb_ℤ, leb_ℤ, checked}
use webylib.Prelude.Text.{Text, codes, beq, split, split_by, contains_char, len}
use webylib.Prelude.Decimal.{parse_i64}
use webylib.Fault.{Error, Result, ok, err, ok_or, ◌>>=◌}
use webylib.Amount.{Amount, from_wats, zero_amount, unit, decimals}
use webylib.Amount.Float.{Float}

-- `parts[0]`, `parts[1]`: a split has at least one part.
abbrev pub part0 : List Text → Text
part0 [] = []
part0 (p ∷ ps) = p

abbrev pub part1 : List Text → Text
part1 [] = []
part1 (p ∷ []) = []
part1 (p ∷ q ∷ ps) = q

abbrev pub many : List Text → Bool
many (p ∷ q ∷ r ∷ ps) = true
many _ = false

abbrev pub is_empty : Text → Bool
is_empty [] = true
is_empty (c ∷ s) = false

-- The two prefixes; the first is not met here, since a text with an `e` is read as scientific.
unfoldable pub strip_symbol : Text → Text
strip_symbol [] = []
strip_symbol (c ∷ s) = if c == b'e' then s else if c == 0x20a9 then s else c ∷ s

-- `integer_part`, 0 where it is empty.
unfoldable pub parse_integer_part : Text → Result ℤ
parse_integer_part [] = ok (pos 0)
parse_integer_part (c ∷ s) = ok_or (parse_i64 (c ∷ s)) (Error.amount "invalid integer part")

-- `checked_mul(UNIT)`, and behind it `checked_add(fractional_sats)`.
unfoldable pub scale : ℤ → Result ℤ
scale integer = ok_or (checked (integer *ℤ pos unit)) (Error.amount "amount too large")

unfoldable pub scale_add : ℤ → ℤ → Result ℤ
scale_add integer fraction = do
  whole ← scale integer
  ok_or (checked (whole +ℤ fraction)) (Error.amount "amount too large")

abbrev pub not_negative : ℤ → Result Amount
not_negative wats =
    if ltb_ℤ wats (pos 0)
    then err (Error.amount "negative amounts not allowed")
    else ok (from_wats wats)

unfoldable pub parse_fraction : Text → Result ℤ
parse_fraction s = if ltb decimals (len s) then err (Error.amount "too many decimal places") else do
  frac_value ← ok_or (parse_i64 s) (Error.amount "invalid fractional part")
  ok (frac_value *ℤ pos (10 ^ (decimals - len s)))

unfoldable pub parse_parts : Text → Text → Result Amount
parse_parts integer [] = do
  whole ← parse_integer_part integer
  wats ← scale whole
  not_negative wats
parse_parts integer (c ∷ fraction) =
    if is_empty integer then err (Error.amount "missing integer part") else do
      whole ← parse_integer_part integer
      fractional_sats ← parse_fraction (c ∷ fraction)
      wats ← scale_add whole fractional_sats
      not_negative wats

-- The part of `from_str` behind the test for scientific notation.
unfoldable pub from_decimal : Text → Result Amount
from_decimal s =
    let s' = strip_symbol s in
    let parts = split b'.' s' in
    if beq s' (codes "0")
    then ok zero_amount
    else if many parts
    then err (Error.amount "too many decimal points")
    else parse_parts (part0 parts) (part1 parts)

-- `parse::<i32>`
abbrev pub in_i32 : Option ℤ → Option ℤ
in_i32 none = none
in_i32 (some n) =
    if leb_ℤ (negsuc (2 ^ 31 - 1)) n && leb_ℤ n (pos (2 ^ 31 - 1)) then some n else none

module _ (f : Float) where
  open f use {F64, is_negative, times, over, ten_powi, of_i64, round_i64}

  unfoldable pub from_webcash : F64 → Result Amount
  from_webcash webcash =
      if is_negative webcash
      then err (Error.amount "negative amounts not allowed")
      else (let wats = round_i64 (times webcash (of_i64 (pos unit))) in
          if ltb_ℤ wats (pos 0) then err (Error.amount "amount too large") else ok (from_wats wats))

  unfoldable pub to_webcash : Amount → F64
  to_webcash a = over (of_i64 a.wats) (of_i64 (pos unit))

  -- `coefficient * 10^exponent`, or divided by the power for a negative exponent.
  pub scaled : F64 → ℤ → F64
  scaled coefficient exponent =
      if leb_ℤ (pos 0) exponent
      then times coefficient (ten_powi exponent)
      else over coefficient (ten_powi (pos 0 -ℤ exponent))

  -- `s.split(&['E', 'e'])` has two parts exactly where one `E` or `e` stands.
  unfoldable pub scientific_parts : List Text → Result Amount
  unfolding scaled
  scientific_parts (p ∷ q ∷ []) = do
    coefficient ←
        ok_or (Float.parse f p) (Error.amount "invalid coefficient in scientific notation")
    exponent ← ok_or (in_i32 (parse_i64 q)) (Error.amount "invalid exponent in scientific notation")
    from_webcash (scaled coefficient exponent)
  scientific_parts _ = err (Error.amount "invalid scientific notation format")

  unfoldable pub parse_scientific_notation : Text → Result Amount
  parse_scientific_notation s = scientific_parts (split_by (λ c. c == b'E' || c == b'e') s)

  -- `Amount::from_str`
  unfoldable pub from_str : Text → Result Amount
  from_str s =
      if is_empty s
      then err (Error.amount "empty string")
      else if contains_char b'E' s || contains_char b'e' s
      then parse_scientific_notation s
      else from_decimal s

from_decimal_runs : from_decimal (codes "0.0001") ≡ ok (from_wats (pos 10000))
unfolding from_decimal strip_symbol split_by parse_parts parse_integer_part parse_fraction scale_add
    scale parse_i64 beq len checked ◌*ℤ◌ ◌+ℤ◌
from_decimal_runs = refl

from_decimal_symbol : from_decimal (codes "₩12") ≡ ok (from_wats (pos 1200000000))
unfolding from_decimal strip_symbol split_by parse_parts parse_integer_part scale parse_i64 beq
    checked ◌*ℤ◌
from_decimal_symbol = refl
