-- ===== src/Amount/Arith.antt =====
-- The arithmetic of amounts (src/amount.rs), and the sign that a printed amount loses.
use webylib.Prelude.{ℕ, suc, ◌<◌, ◌≡◌, refl, ◌⊎◌, Option, none, some, arith}
use webylib.Prelude.Int.{
  ℤ, pos, negsuc, ◌+ℤ◌, ◌-ℤ◌, ◌*ℤ◌, ◌≤ℤ◌, InI64, saturate, checked, max_i64, eqb_ℤ, quot, rem_abs,
  saturate_in_range,
}
use webylib.Amount.{
  Amount, from_wats, unit, wrap, add, sub, mul, checked_add, checked_sub, checked_mul,
}
use webylib.Amount.Print.{display, to_string_with_decimals}

-- A saturating result and a checked one, of the same exact value: without a checked one the value is
-- out of range, and the saturating one is the end of the range that it is beyond.
abbrev pub Agrees : ℤ → Amount → Option Amount → Type 0
Agrees exact a none =
    ((pos (suc max_i64) ≤ℤ exact) × (a.wats ≡ pos max_i64))
    ⊎ ((exact ≤ℤ negsuc (suc max_i64)) × (a.wats ≡ negsuc max_i64))
Agrees exact a (some c) = InI64 exact × (a ≡ c) × (c.wats ≡ exact)

saturate-checked : (x : ℤ) → Agrees x (from_wats (saturate x)) (wrap (checked x))
unfolding saturate checked
saturate-checked x = ground arith

-- Where `checked_add`, `checked_sub` or `checked_mul` has a result, the exact value is in the range of
-- an `i64`, and the result and that of the operator are it; where there is none, the exact value is
-- above the range and the operator gives `i64::MAX`, or it is below and the operator gives `i64::MIN`.
pub add-checked :
    (a b : Amount) (n : ℤ)
    → Agrees (a.wats +ℤ b.wats) (add a b) (checked_add a b)
      × Agrees (a.wats -ℤ b.wats) (sub a b) (checked_sub a b)
      × Agrees (a.wats *ℤ n) (mul a n) (checked_mul a n)
unfolding add sub mul checked_add checked_sub checked_mul
add-checked a b n = (
  saturate-checked (a.wats +ℤ b.wats),
  saturate-checked (a.wats -ℤ b.wats),
  saturate-checked (a.wats *ℤ n),
)

pub add_exact : (a b : Amount) → InI64 (a.wats +ℤ b.wats) → add a b ≡ from_wats (a.wats +ℤ b.wats)
unfolding add
add_exact a b h = rw (saturate_in_range (a.wats +ℤ b.wats) h) refl

pub sub_exact : (a b : Amount) → InI64 (a.wats -ℤ b.wats) → sub a b ≡ from_wats (a.wats -ℤ b.wats)
unfolding sub
sub_exact a b h = rw (saturate_in_range (a.wats -ℤ b.wats) h) refl

-- A printed amount is read off its whole part and its fraction alone.
display-same :
    (a b : Amount)
    → eqb_ℤ a.wats (pos 0) ≡ eqb_ℤ b.wats (pos 0)
    → quot a.wats unit ≡ quot b.wats unit
    → rem_abs a.wats unit ≡ rem_abs b.wats unit
    → display a ≡ display b
unfolding to_string_with_decimals
display-same a b z q r = rw z (rw q (rw r refl))

-- A negative amount above -1 webcash prints as its absolute value: the sign stands only in the
-- whole part, which is 0.
pub display-negative_fraction :
    (n : ℕ) → suc n < unit → display (from_wats (negsuc n)) ≡ display (from_wats (pos (suc n)))
display-negative_fraction n small =
    display-same (from_wats (negsuc n)) (from_wats (pos (suc n))) (ground arith)
      (unfold quot in ground arith) (unfold rem_abs in ground arith)
