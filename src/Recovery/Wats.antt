-- ===== src/Recovery/Wats.antt =====
-- `parse_decimal_to_wats` (crates/webylib-core/src/ops/recover.rs): the amount of an output as the
-- server reports it.
use webylib.Prelude.{
  ◌-◌, Bool, true, false, not, Option, none, some, [], ◌∷◌, ◌++◌, ltb, replicate, length, ◌==◌,
  if◌then◌else◌,
}
use webylib.Prelude.Int.{ℤ, pos, ◌+ℤ◌, ◌-ℤ◌, ◌*ℤ◌, checked}
use webylib.Prelude.Text.{Text, trim}
use webylib.Prelude.Decimal.{all_digits, parse_i64}

abbrev pub recovery_scale : ℤ
recovery_scale = pos 100000000

-- `strip_prefix('-')`
abbrev pub strip_minus : Text → Bool × Text
strip_minus [] = (false, [])
strip_minus (c ∷ s) = if c == b'-' then (true, s) else (false, c ∷ s)

-- `split_once('.')`, with an empty fraction where there is no point.
unfoldable pub split_point : Text → Text × Text
split_point [] = ([], [])
split_point (c ∷ s) =
    let rest = split_point s in if c == b'.' then ([], s) else (c ∷ rest.0, rest.1)

abbrev pub negate_if : Bool → Option ℤ → Option ℤ
negate_if neg none = none
negate_if true (some total) = some (pos 0 -ℤ total)
negate_if false (some total) = some total

abbrev pub add_wats : Option ℤ → ℤ → Option ℤ
add_wats none frac = none
add_wats (some w) frac = checked (w +ℤ frac)

abbrev pub total_wats : Option ℤ → Option ℤ → Option ℤ
total_wats none _ = none
total_wats (some whole) none = none
total_wats (some whole) (some frac) = add_wats (checked (whole *ℤ recovery_scale)) frac

abbrev pub is_empty : Text → Bool
is_empty [] = true
is_empty (c ∷ s) = false

unfoldable pub parse_whole_and_fraction : Bool → Text → Text → Option ℤ
parse_whole_and_fraction neg whole_str frac_str =
    if is_empty whole_str
    then none
    else if not (all_digits whole_str)
    then none
    else if not (all_digits frac_str)
    then none
    else if ltb 8 (length frac_str)
    then none
    else negate_if neg (
        total_wats (parse_i64 whole_str)
          (parse_i64 (frac_str ++ replicate (8 - length frac_str) b'0')))

-- `none` stands for the error, whose text is a reason only.
unfoldable pub parse_decimal_to_wats : Text → Option ℤ
parse_decimal_to_wats text =
    let (neg, body) = strip_minus (trim text) in
    let (whole_str, frac_str) = split_point body in parse_whole_and_fraction neg whole_str frac_str
