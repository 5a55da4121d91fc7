-- ===== src/Prelude/Int.antt =====
-- Signed integers over the native numbers, and the 64-bit operations of Rust's `i64` on them: an
-- `i64` is an integer, and each operation says what it does out of range.
use Prim.Native.Nat.{ℕ, suc, ◌+◌, ◌-◌, ◌*◌, ◌/◌, ◌%◌, ◌^◌, ◌≤◌, ◌<◌}
use mathlib.Core.Path.{◌≡◌}
use mathlib.Core.Bool.{Bool, ◌&&◌}
use mathlib.Core.Option.{Option, none, some}
use native.Mathlib.Omega.{arith}
use webylib.Prelude.Tests.{ltb, leb, ◌==◌, if◌then◌else◌}

-- `negsuc n` is -(n + 1).
pub data ℤ : Type 0 where
  pos : ℕ → ℤ
  negsuc : ℕ → ℤ

abbrev pub pos_part : ℤ → ℕ
pos_part (pos n) = n
pos_part (negsuc n) = 0

abbrev pub neg_part : ℤ → ℕ
neg_part (pos n) = 0
neg_part (negsuc n) = suc n

-- a - b, as an integer.
abbrev pub sub_ℕ : ℕ → ℕ → ℤ
sub_ℕ a b = if leb b a then pos (a - b) else negsuc (b - a - 1)

infixl 65 ◌+ℤ◌ ◌-ℤ◌
infixl 70 ◌*ℤ◌
infix 50 ◌≤ℤ◌
unfoldable pub ◌+ℤ◌ : ℤ → ℤ → ℤ
a +ℤ b = sub_ℕ (pos_part a + pos_part b) (neg_part a + neg_part b)

unfoldable pub ◌-ℤ◌ : ℤ → ℤ → ℤ
a -ℤ b = sub_ℕ (pos_part a + neg_part b) (neg_part a + pos_part b)

unfoldable pub ◌*ℤ◌ : ℤ → ℤ → ℤ
a *ℤ b =
    sub_ℕ (pos_part a * pos_part b + neg_part a * neg_part b)
      (pos_part a * neg_part b + neg_part a * pos_part b)

abbrev pub ◌≤ℤ◌ : ℤ → ℤ → Type 0
a ≤ℤ b = pos_part a + neg_part b ≤ pos_part b + neg_part a

abbrev pub leb_ℤ : ℤ → ℤ → Bool
leb_ℤ a b = leb (pos_part a + neg_part b) (pos_part b + neg_part a)

abbrev pub ltb_ℤ : ℤ → ℤ → Bool
ltb_ℤ a b = ltb (pos_part a + neg_part b) (pos_part b + neg_part a)

abbrev pub eqb_ℤ : ℤ → ℤ → Bool
eqb_ℤ a b = pos_part a + neg_part b == pos_part b + neg_part a

pub +ℤ_parts :
    (a b : ℤ)
    → pos_part (a +ℤ b) + neg_part a + neg_part b ≡ neg_part (a +ℤ b) + pos_part a + pos_part b
unfolding ◌+ℤ◌
+ℤ_parts a b = ground arith

pub -ℤ_parts :
    (a b : ℤ)
    → pos_part (a -ℤ b) + neg_part a + pos_part b ≡ neg_part (a -ℤ b) + pos_part a + neg_part b
unfolding ◌-ℤ◌
-ℤ_parts a b = ground arith

pub eq_of_parts : (a b : ℤ) → pos_part a + neg_part b ≡ pos_part b + neg_part a → a ≡ b
eq_of_parts a b h = ground arith

pub ruleset int_laws = (arith, +ℤ_parts, -ℤ_parts, eq_of_parts)

abbrev pub max_i64 : ℕ
max_i64 = 2 ^ 63 - 1

-- The integer fits an `i64`.
abbrev pub InI64 : ℤ → Type 0
InI64 a = (pos_part a ≤ max_i64) × (neg_part a ≤ max_i64 + 1)

abbrev pub in_i64 : ℤ → Bool
in_i64 a = leb (pos_part a) max_i64 && leb (neg_part a) (max_i64 + 1)

-- `saturating_*`: the result is clamped to the range.
unfoldable pub saturate : ℤ → ℤ
saturate a =
    if ltb max_i64 (pos_part a)
    then pos max_i64
    else if ltb (max_i64 + 1) (neg_part a)
    then negsuc max_i64
    else a

-- `checked_*`: no result out of range.
unfoldable pub checked : ℤ → Option ℤ
checked a = if in_i64 a then some a else none

-- Rust's `/` and `%` on signed integers, by a positive divisor: both round towards zero.
unfoldable pub quot : ℤ → ℕ → ℤ
quot (pos n) d = pos (n / d)
quot (negsuc n) d = sub_ℕ 0 (suc n / d)

-- `(a % d).abs()`
unfoldable pub rem_abs : ℤ → ℕ → ℕ
rem_abs a d = (pos_part a + neg_part a) % d

pub saturate_in_range : (a : ℤ) → InI64 a → saturate a ≡ a
unfolding saturate
saturate_in_range a h = ground arith

pub saturate-InI64 : (a : ℤ) → InI64 (saturate a)
unfolding saturate
saturate-InI64 a = ground arith

pub checked-InI64 : (a : ℤ) → InI64 a → checked a ≡ some a
unfolding checked
checked-InI64 a h = ground arith

pub pos-mul : (a b : ℕ) → pos a *ℤ pos b ≡ pos (a * b)
unfolding ◌*ℤ◌
pos-mul a b = grind arith

pub pos-add : (a b : ℕ) → pos a +ℤ pos b ≡ pos (a + b)
unfolding ◌+ℤ◌
pos-add a b = ground arith

-- The `i64` that a release build's overflowing sum wraps to.
unfoldable pub wrap_i64 : ℤ → ℤ
wrap_i64 a =
    let m = (pos_part a + 2 ^ 64 - neg_part a % 2 ^ 64) % 2 ^ 64 in
    if leb m max_i64 then pos m else negsuc (2 ^ 64 - 1 - m)

pub wrap_i64_in_range : (a : ℤ) → InI64 a → wrap_i64 a ≡ a
unfolding wrap_i64
wrap_i64_in_range a h = ground arith

pub +ℤ_comm : (a b : ℤ) → a +ℤ b ≡ b +ℤ a
+ℤ_comm a b = omega int_laws

pub +ℤ_assoc : (a b c : ℤ) → a +ℤ b +ℤ c ≡ a +ℤ (b +ℤ c)
+ℤ_assoc a b c = omega int_laws

pub zero-+ℤ : (a : ℤ) → pos 0 +ℤ a ≡ a
zero-+ℤ a = omega int_laws

pub +ℤ-zero : (a : ℤ) → a +ℤ pos 0 ≡ a
+ℤ-zero a = omega int_laws

pub nonneg_in_range : (a : ℤ) → pos 0 ≤ℤ a → a ≤ℤ pos max_i64 → InI64 a
nonneg_in_range (pos n) h fits = (omega arith, omega arith)
nonneg_in_range (negsuc n) h fits = absurd (omega arith)

-- `d as i64` for a `u64`, and `z as u64` for an `i64`: the same 64 bits.
unfoldable pub as_i64 : ℕ → ℤ
unfolding wrap_i64
as_i64 d = wrap_i64 (pos d)

unfoldable pub as_u64_of : ℤ → ℕ
as_u64_of (pos n) = n
as_u64_of (negsuc n) = 2 ^ 64 - 1 - n

pub as_u64_of-as_i64 : (d : ℕ) → d < 2 ^ 64 → as_u64_of (as_i64 d) ≡ d
unfolding as_i64 as_u64_of
as_u64_of-as_i64 d h = ground arith
