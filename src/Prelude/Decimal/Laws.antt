-- ===== src/Prelude/Decimal/Laws.antt =====
-- What the digits of a printed number are, and what they read back as.
use Prim.Native.Nat.{ℕ, zero, suc, ◌+◌, ◌-◌, ◌*◌, ◌/◌, ◌%◌, ◌^◌, ◌≤◌, ◌<◌}
use native.Mathlib.Nat.{pow-suc}
use native.Mathlib.Omega.{arith}
use mathlib.Core.Path.{◌≡◌, refl, ap, ◌∙◌}
use mathlib.Core.Logic.{inl, inr}
use mathlib.Core.Bool.{Bool, true, false}
use mathlib.Core.Option.{some}
use mathlib.Core.List.{List, [], ◌∷◌, ◌++◌}
use webylib.Prelude.Tests.{ltb, ◌==◌, Bool-cases}
use webylib.Prelude.Lists.{length, length-append, replicate, All, All-append, length-replicate}
use webylib.Prelude.Int.{pos, checked, max_i64}
use webylib.Prelude.Text.{Text, trim_end_by, cons_unless}
use webylib.Prelude.Decimal.{digits, format_ℕ, all_digits, value, parse_digits, parse_i64}

abbrev pub IsDigit : ℕ → Type 0
IsDigit c = (b'0' ≤ c) × (c ≤ b'9')

pub all_digits-true : (s : Text) → All IsDigit s → all_digits s ≡ true
all_digits-true [] h = refl
all_digits-true (c ∷ s) h = ground (arith, all_digits-true s h.1)

pub value-append : (s t : Text) (n : ℕ) → value n (s ++ t) ≡ value (value n s) t
value-append [] t n = refl
value-append (c ∷ s) t n = value-append s t (n * 10 + (c - b'0'))

-- Digits in front weigh by the length of what follows.
pub value-acc : (s : Text) (n : ℕ) → value n s ≡ n * 10 ^ length s + value 0 s
value-acc [] n = omega arith
value-acc (c ∷ s) n =
    let p = 10 ^ length s in
    rw (value-acc s (n * 10 + (c - b'0')))
      (rw (value-acc s (0 * 10 + (c - b'0'))) (rw (pow-suc 10 (length s)) (grind arith)))

pub digits-digits : (fuel n : ℕ) → All IsDigit (digits fuel n)
unfolding digits
digits-digits zero n = tt
digits-digits (suc fuel) n = elim (Bool-cases (ltb n 10)) [
  | inl small ↦ rw small (ground arith)
  | inr big ↦
      rw big
        (All-append IsDigit (digits fuel (n / 10)) _ (digits-digits fuel (n / 10)) (omega arith))
]

-- With the fuel above the number, its digits spell it.
pub value-digits : (fuel n : ℕ) → n < fuel → value 0 (digits fuel n) ≡ n
unfolding digits
value-digits zero n h = absurd (omega arith)
value-digits (suc fuel) n h = elim (Bool-cases (ltb n 10)) [
  | inl small ↦ rw small (ground arith)
  | inr big ↦ rw big (
      rw (value-append (digits fuel (n / 10)) _ 0)
        (rw (value-digits fuel (n / 10) (ground arith)) (omega arith)))
]

pub length-digits : (k fuel n : ℕ) → n < 10 ^ suc k → length (digits fuel n) ≤ suc k
unfolding digits
length-digits k zero n h = omega arith
length-digits zero (suc fuel) n h = ground arith
length-digits (suc k) (suc fuel) n h = elim (Bool-cases (ltb n 10)) [
  | inl small ↦ rw small (omega arith)
  | inr big ↦ rw big (
      rw (length-append (digits fuel (n / 10)) _)
        (omega (arith, length-digits k fuel (n / 10) (below k n h))))
]
  where
    below : (k n : ℕ) → n < 10 ^ suc (suc k) → n / 10 < 10 ^ suc k
    below k n h = let e = pow-suc 10 (suc k) in omega (arith, e)

pub digits-cons : (fuel n : ℕ) → (c : ℕ) × (s : Text) × (digits (suc fuel) n ≡ c ∷ s)
unfolding digits
digits-cons fuel n = elim (Bool-cases (ltb n 10)) [
  | inl small ↦ (b'0' + n, [], rw small)
  | inr big ↦ rw big (in_front (digits fuel (n / 10)) (b'0' + n % 10))
]
  where
    in_front : (front : Text) (d : ℕ) → (c : ℕ) × (s : Text) × (front ++ d ∷ [] ≡ c ∷ s)
    in_front [] d = (d, [], refl)
    in_front (c ∷ s) d = (c, s ++ d ∷ [], refl)

pub value-zeros : (k : ℕ) (s : Text) → value 0 (replicate k b'0' ++ s) ≡ value 0 s
value-zeros zero s = refl
value-zeros (suc k) s = value-zeros k s

pub digits_zeros : (k : ℕ) → All IsDigit (replicate k b'0')
digits_zeros zero = tt
digits_zeros (suc k) = ((omega arith, omega arith), digits_zeros k)

pub value-append_zeros : (s : Text) (k : ℕ) → value 0 (s ++ replicate k b'0') ≡ value 0 s * 10 ^ k
value-append_zeros s k = rw (value-append s (replicate k b'0') 0) (
    rw (value-acc (replicate k b'0') (value 0 s))
      (rw (length-replicate {A = ℕ} k b'0') (rw (zeros k) (omega arith))))
  where
    zeros : (k : ℕ) → value 0 (replicate k b'0') ≡ 0
    zeros zero = refl
    zeros (suc k) = zeros k

-- Cutting the zeros at the end cuts some number of zeros.
pub trim_zeros : (s : Text) → (k : ℕ) × (trim_end_by (λ c. c == b'0') s ++ replicate k b'0' ≡ s)
unfolding trim_end_by
trim_zeros [] = (0, refl)
trim_zeros (c ∷ s) = cut (c == b'0') refl (trim_end_by (λ c. c == b'0') s) (trim_zeros s)
  where
    cut :
        (b : Bool)
        → (c == b'0') ≡ b
        → (t : Text) → (k : ℕ) × (t ++ replicate k b'0' ≡ s)
        → (k : ℕ) × (cons_unless b c t ++ replicate k b'0' ≡ c ∷ s)
    cut b e (d ∷ t) (k, h) = (k, ground arith)
    cut true e [] (k, h) = (suc k, ground arith)
    cut false e [] (k, h) = (k, ground arith)

pub All-prefix {ℓ κ} : {A : Type ℓ} (P : A → Type κ) (xs ys : List A) → All P (xs ++ ys) → All P xs
All-prefix P [] ys h = tt
All-prefix P (x ∷ xs) ys h = (h.0, All-prefix P xs ys h.1)

-- Digits with no sign are read as the number that they spell.
pub parse_i64-digits :
    (c : ℕ) (s : Text)
    → All IsDigit (c ∷ s)
    → value 0 (c ∷ s) ≤ max_i64
    → parse_i64 (c ∷ s) ≡ some (pos (value 0 (c ∷ s)))
unfolding parse_i64 parse_digits checked
parse_i64-digits c s h fits = ground (arith, all_digits-true (c ∷ s) h)

pub parse_i64-format_ℕ : (n : ℕ) → n ≤ max_i64 → parse_i64 (format_ℕ n) ≡ some (pos n)
unfolding format_ℕ
parse_i64-format_ℕ n fits =
    let (c, s, e) = digits-cons n n in
    let v : value 0 (c ∷ s) ≡ n = rw (← e) (value-digits (suc n) n (omega arith)) in
    rw e (
      parse_i64-digits c s (rw e at (digits-digits (suc n) n)) (omega (arith, v))
      ∙ ap (λ m. some (pos m)) v)
