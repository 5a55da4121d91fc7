-- ===== src/Amount/Print.antt =====
-- The decimal text of an amount (`to_string_with_decimals`, `Display`) in src/amount.rs.
use webylib.Prelude.{ℕ, Bool, ◌^◌, ◌≡◌, refl, ◌++◌, ◌∷◌, [], ◌==◌, if◌then◌else◌}
use webylib.Prelude.Int.{pos, eqb_ℤ, quot, rem_abs}
use webylib.Prelude.Text.{Text, codes, trim_end_by}
use webylib.Prelude.Decimal.{format_i64, format_padded}
use webylib.Amount.{Amount, from_wats, decimals}

abbrev pub is_zero_digit : ℕ → Bool
is_zero_digit c = c == b'0'

-- "{integer_part}" or "{integer_part}.{trimmed}"
abbrev pub with_fraction : Text → Text → Text
with_fraction integer [] = integer
with_fraction integer (c ∷ trimmed) = integer ++ b'.' ∷ c ∷ trimmed

-- `10_i64.pow(decimals)` fits for at most 18 decimals; the library passes 8.
unfoldable pub to_string_with_decimals : Amount → ℕ → Text
to_string_with_decimals a n =
    if eqb_ℤ a.wats (pos 0)
    then codes "0"
    else (let divisor = 10 ^ n in
        let integer_part = quot a.wats divisor in
        let fractional_part = rem_abs a.wats divisor in
        if fractional_part == 0
        then format_i64 integer_part
        else with_fraction (format_i64 integer_part)
            (trim_end_by is_zero_digit (format_padded n fractional_part)))

abbrev pub to_decimal_string : Amount → Text
to_decimal_string a = to_string_with_decimals a decimals

-- The `Display` of an amount.
abbrev pub display : Amount → Text
display a = to_decimal_string a

abbrev pub to_wats_string : Amount → Text
to_wats_string a = format_i64 a.wats

display_runs : display (from_wats (pos 120050000)) ≡ codes "1.2005"
unfolding to_string_with_decimals quot rem_abs format_i64 format_padded trim_end_by
display_runs = refl
