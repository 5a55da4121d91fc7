-- ===== src/Prelude/Decimal.antt =====
-- Decimal numbers as the standard library prints and parses them.
pub mod Laws
use Prim.Native.Nat.{ℕ, zero, suc, ◌+◌, ◌-◌, ◌*◌, ◌/◌, ◌%◌, ◌^◌, ◌≤◌, ◌<◌}
use mathlib.Core.Path.{◌≡◌, refl}
use mathlib.Core.Bool.{Bool, true, false, ◌&&◌}
use mathlib.Core.Option.{Option, none, some}
use mathlib.Core.List.{List, [], ◌∷◌, ◌++◌}
use webylib.Prelude.Tests.{ltb, leb, ◌==◌, if◌then◌else◌}
use webylib.Prelude.Lists.{length, replicate}
use webylib.Prelude.Int.{ℤ, pos, negsuc, sub_ℕ, in_i64, checked}
use webylib.Prelude.Text.{Text, codes, is_ascii_digit}

-- The last digit is `n % 10`, behind the digits of `n / 10`; the fuel bounds the digits.
unfoldable pub digits : ℕ → ℕ → Text
digits zero n = []
digits (suc fuel) n =
    let front = digits fuel (n / 10) in
    if ltb n 10 then (b'0' + n) ∷ [] else front ++ (b'0' + n % 10) ∷ []

-- `format!("{}", n)`: a number has fewer digits than its successor counts.
unfoldable pub format_ℕ : ℕ → Text
unfolding digits
format_ℕ n = digits (suc n) n

-- `format!("{}", n)` for an `i64`.
unfoldable pub format_i64 : ℤ → Text
unfolding format_ℕ
format_i64 (pos n) = format_ℕ n
format_i64 (negsuc n) = b'-' ∷ format_ℕ (suc n)

-- `format!("{:0width$}", n)` for a number that is not negative.
unfoldable pub format_padded : ℕ → ℕ → Text
unfolding format_ℕ
format_padded width n = let s = format_ℕ n in replicate (width - length s) b'0' ++ s

abbrev pub all_digits : Text → Bool
all_digits [] = true
all_digits (c ∷ s) = is_ascii_digit c && all_digits s

-- The number that digits spell behind `n`.
abbrev pub value : ℕ → Text → ℕ
value n [] = n
value n (c ∷ s) = value (n * 10 + (c - b'0')) s

unfoldable pub parse_digits : Text → Option ℕ
parse_digits [] = none
parse_digits (c ∷ s) = if all_digits (c ∷ s) then some (value 0 (c ∷ s)) else none

abbrev negated : Option ℕ → Option ℤ
negated none = none
negated (some n) = checked (sub_ℕ 0 n)

abbrev plain : Option ℕ → Option ℤ
plain none = none
plain (some n) = checked (pos n)

-- `str::parse::<i64>`: an optional sign and at least one digit, in range.
unfoldable pub parse_i64 : Text → Option ℤ
unfolding parse_digits checked
parse_i64 [] = none
parse_i64 (c ∷ s) =
    if c == b'-'
    then negated (parse_digits s)
    else if c == b'+'
    then plain (parse_digits s)
    else plain (parse_digits (c ∷ s))

format_runs : format_i64 (negsuc 1233) ≡ codes "-1234"
unfolding format_i64
format_runs = refl

padded_runs : format_padded 8 4200 ≡ codes "00004200"
unfolding format_padded
padded_runs = refl

parse_runs : parse_i64 (codes "-9223372036854775808") ≡ some (negsuc 9223372036854775807)
unfolding parse_i64
parse_runs = refl

parse_overflows : parse_i64 (codes "9223372036854775808") ≡ none
unfolding parse_i64
parse_overflows = refl
