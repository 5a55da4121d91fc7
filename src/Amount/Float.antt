-- ===== src/Amount/Float.antt =====
-- Floating-point numbers, which `from_webcash`, `to_webcash` and the scientific notation of
-- src/amount.rs use. `f64` is a parameter: a type with the operations that the code calls.
use webylib.Prelude.{Bool, Option}
use webylib.Prelude.Int.{ℤ}
use webylib.Prelude.Text.{Text}

-- `parse` is `str::parse::<f64>`, `powi` takes 10 to a power, `round_i64 x` is `x.round() as i64`,
-- and `of_i64 n` is `n as f64`.
pub record Float : Type 1 where
  pub F64 : Type 0
  pub parse : Text → Option F64
  pub is_negative : F64 → Bool
  pub times : F64 → F64 → F64
  pub over : F64 → F64 → F64
  pub ten_powi : ℤ → F64
  pub of_i64 : ℤ → F64
  pub round_i64 : F64 → ℤ
