-- ===== src/Tests/Texts.antt =====
-- The theorems about amounts, webcash and key derivation (src/amount.rs, src/webcash.rs,
-- crates/hd/src/legacy_webcash.rs) at concrete inputs.
use webylib.Prelude.{ℕ, ◌≡◌, refl, List, [], arith, replicate}
use webylib.Prelude.Int.{pos, negsuc, ◌+ℤ◌, ◌-ℤ◌, ◌*ℤ◌, max_i64, ◌≤ℤ◌, checked}
use webylib.Prelude.Text.{Text, codes, beq, split_by, contains_char, len}
use webylib.Prelude.Decimal.{parse_i64}
use webylib.Fault.{ok}
use webylib.Amount.{from_wats, add, sub, mul, checked_add, checked_sub, checked_mul}
use webylib.Amount.Print.{display}
use webylib.Amount.Parse.{
  from_str, from_decimal, strip_symbol, parse_parts, parse_integer_part, parse_fraction, scale,
  scale_add,
}
use webylib.Amount.RoundTrip.{from_str-display}
use webylib.Amount.Signs.{from_str-valid, from_str-minus_zero}
use webylib.Amount.Arith.{add-checked, display-negative_fraction, Agrees}
use webylib.Crypto.{IsHexDigit, IsByte, pay}
use webylib.Crypto.Derive.{derive_preimage-injective}
use webylib.Webcash.{secret_to_string, public_to_string, parse_secret, parse_public}
use webylib.Webcash.RoundTrip.{parse_secret-to_string, parse_public-to_string}
use webylib.Tests.Hex.{plain_crypto, plain_crypto-laws, no_floats, All-replicate}

from_str-display_example :
    from_str no_floats (display (from_wats (pos 150))) ≡ ok (from_wats (pos 150))
from_str-display_example = from_str-display no_floats 150 (omega arith)

one_tenth : from_str no_floats (codes "0.1") ≡ ok (from_wats (pos 10000000))
unfolding from_str contains_char from_decimal strip_symbol split_by parse_parts parse_integer_part
    parse_fraction scale_add scale parse_i64 beq checked ◌*ℤ◌ ◌+ℤ◌ len
one_tenth = refl

from_str-valid_example : pos 0 ≤ℤ pos 10000000
from_str-valid_example = from_str-valid no_floats (codes "0.1") one_tenth

from_str-minus_zero_example : from_str no_floats (codes "-0.5") ≡ from_str no_floats (codes "0.5")
from_str-minus_zero_example = from_str-minus_zero no_floats b'5' [] ((omega arith, omega arith), tt)

add-checked_example :
    Agrees
      (pos 2 +ℤ pos 3)
      (add (from_wats (pos 2)) (from_wats (pos 3)))
      (checked_add (from_wats (pos 2)) (from_wats (pos 3)))
    × Agrees
        (pos 2 -ℤ pos 3)
        (sub (from_wats (pos 2)) (from_wats (pos 3)))
        (checked_sub (from_wats (pos 2)) (from_wats (pos 3)))
    × Agrees
        (pos 2 *ℤ negsuc max_i64)
        (mul (from_wats (pos 2)) (negsuc max_i64))
        (checked_mul (from_wats (pos 2)) (negsuc max_i64))
add-checked_example = add-checked (from_wats (pos 2)) (from_wats (pos 3)) (negsuc max_i64)

display-negative_fraction_example : display (from_wats (negsuc 49)) ≡ display (from_wats (pos 50))
display-negative_fraction_example = display-negative_fraction 49 (omega arith)

abbrev secret_digits : Text
secret_digits = replicate 64 b'a'

parse_secret-to_string_example :
    parse_secret plain_crypto no_floats
      (secret_to_string (record { secret = secret_digits; amount = from_wats (pos 7) }))
    ≡ ok (record { secret = secret_digits; amount = from_wats (pos 7) })
parse_secret-to_string_example =
    parse_secret-to_string plain_crypto no_floats 7 (omega arith) secret_digits (replicate 32 170)
      (All-replicate IsHexDigit 64 b'a' refl) refl refl

parse_public-to_string_example :
    parse_public plain_crypto no_floats
      (public_to_string plain_crypto (record { hash = replicate 32 9; amount = from_wats (pos 7) }))
    ≡ ok (record { hash = replicate 32 9; amount = from_wats (pos 7) })
parse_public-to_string_example =
    parse_public-to_string plain_crypto no_floats 7 (omega arith) plain_crypto-laws (replicate 32 9)
      (All-replicate IsByte 32 9 (omega arith)) refl

abbrev key : List ℕ
key = replicate 32 1

abbrev five : ℕ
five = 5

derive_preimage-injective_example : (key ≡ key) × (pay ≡ pay) × (five ≡ five)
derive_preimage-injective_example =
    derive_preimage-injective plain_crypto key key pay pay five five refl (omega arith)
      (omega arith) refl
