-- ===== src/Amount.antt =====
-- Amounts (src/amount.rs): a number of wats, 1e-8 webcash, in an `i64`. The constructors, the
-- arithmetic and the tests; printing and parsing are in the children `Print` and `Parse`.
pub mod Print
pub mod Parse
pub mod Float
pub mod RoundTrip
pub mod Signs
pub mod Arith
use webylib.Prelude.{
  ℕ, ◌+◌, ◌^◌, ◌≡◌, refl, Bool, true, false, not, ◌&&◌, Option, none, some, ◌==◌, if◌then◌else◌,
}
use webylib.Prelude.Int.{
  ℤ, pos, negsuc, pos_part, neg_part, ◌+ℤ◌, ◌-ℤ◌, ◌*ℤ◌, leb_ℤ, ltb_ℤ, eqb_ℤ, saturate, checked,
  quot, sub_ℕ,
}

pub record Amount : Type 0 where
  pub wats : ℤ

-- `Amount::DECIMALS` and `Amount::UNIT`
abbrev pub decimals : ℕ
decimals = 8

abbrev pub unit : ℕ
unit = 10 ^ decimals

abbrev pub zero_amount : Amount
zero_amount = record { wats = pos 0 }

abbrev pub from_wats : ℤ → Amount
from_wats w = record { wats = w }

-- `from_sats`, the deprecated name.
abbrev pub from_sats : ℤ → Amount
from_sats w = record { wats = w }

abbrev pub is_valid : Amount → Bool
is_valid a = leb_ℤ (pos 0) a.wats

abbrev pub is_zero : Amount → Bool
is_zero a = eqb_ℤ a.wats (pos 0)

abbrev pub is_positive : Amount → Bool
is_positive a = ltb_ℤ (pos 0) a.wats

abbrev pub is_negative : Amount → Bool
is_negative a = ltb_ℤ a.wats (pos 0)

-- `i64::abs`; at the least `i64` it would overflow, which a release build wraps to that value.
unfoldable pub abs : Amount → Amount
unfolding checked
abs a =
    from_wats
      (elim (checked (pos (pos_part a.wats + neg_part a.wats))) [ none ↦ a.wats | some w ↦ w ])

unfoldable pub saturating_add : Amount → Amount → Amount
unfolding saturate ◌+ℤ◌
saturating_add a b = from_wats (saturate (a.wats +ℤ b.wats))

unfoldable pub saturating_sub : Amount → Amount → Amount
unfolding saturate ◌-ℤ◌
saturating_sub a b = from_wats (saturate (a.wats -ℤ b.wats))

abbrev pub wrap : Option ℤ → Option Amount
wrap none = none
wrap (some w) = some (from_wats w)

unfoldable pub checked_add : Amount → Amount → Option Amount
unfolding checked ◌+ℤ◌
checked_add a b = wrap (checked (a.wats +ℤ b.wats))

unfoldable pub checked_sub : Amount → Amount → Option Amount
unfolding checked ◌-ℤ◌
checked_sub a b = wrap (checked (a.wats -ℤ b.wats))

unfoldable pub checked_mul : Amount → ℤ → Option Amount
unfolding checked ◌*ℤ◌
checked_mul a k = wrap (checked (a.wats *ℤ k))

-- The quotient of two integers, towards zero, by a divisor that is not 0.
unfoldable pub div_i64 : ℤ → ℤ → ℤ
unfolding quot ◌-ℤ◌
div_i64 a (pos d) = quot a d
div_i64 a (negsuc d) = pos 0 -ℤ quot a (d + 1)

-- `i64::checked_div` has no result at 0 and at the one quotient that overflows.
unfoldable pub checked_div : Amount → ℤ → Option Amount
unfolding checked div_i64
checked_div a d = if eqb_ℤ d (pos 0) then none else wrap (checked (div_i64 a.wats d))

-- The operators `+`, `-`, `*`, `+=` and `-=` saturate; `/` panics (`none`) where `checked_div` has
-- no result.
unfoldable pub add : Amount → Amount → Amount
unfolding saturate ◌+ℤ◌
add a b = from_wats (saturate (a.wats +ℤ b.wats))

unfoldable pub sub : Amount → Amount → Amount
unfolding saturate ◌-ℤ◌
sub a b = from_wats (saturate (a.wats -ℤ b.wats))

unfoldable pub mul : Amount → ℤ → Amount
unfolding saturate ◌*ℤ◌
mul a k = from_wats (saturate (a.wats *ℤ k))

unfoldable pub div : Amount → ℤ → Option Amount
unfolding checked div_i64
div a d = if eqb_ℤ d (pos 0) then none else wrap (checked (div_i64 a.wats d))

unfoldable pub add_assign : Amount → Amount → Amount
unfolding saturate ◌+ℤ◌
add_assign a b = record a { wats = saturate (a.wats +ℤ b.wats) }

unfoldable pub sub_assign : Amount → Amount → Amount
unfolding saturate ◌-ℤ◌
sub_assign a b = record a { wats = saturate (a.wats -ℤ b.wats) }
