-- ===== src/Miner/Bits.antt =====
-- What `leading_zero_bits` (src/miner.rs) says of a digest as a number.
use native.Mathlib.Nat.{
  zero-mul, zero-add, pow-suc, mul-le-mul, mul-le-mul_left, mul-le-mul_right,
  mul-lt-mul_of_pos_right, pow-le-pow_right, one-le-pow,
}
use webylib.Prelude.{
  ℕ, zero, suc, ◌+◌, ◌-◌, ◌*◌, ◌^◌, ◌≤◌, ◌<◌, ◌≡◌, ◌↔◌, ◌⊎◌, inl, inr, refl, ap, ◌∙◌, false, [],
  ◌∷◌, All, length, arith, Bool-cases, leb, ◌==◌,
}
use webylib.Crypto.{Bytes, IsByte}
use webylib.Miner.{leading_zeros, leading_zero_bits}

-- A digest as a number, the highest byte first.
abbrev pub be_value : Bytes → ℕ
be_value [] = 0
be_value (b ∷ bs) = b * 256 ^ length bs + be_value bs

be_value-small : (bs : Bytes) → All IsByte bs → be_value bs < 256 ^ length bs
be_value-small [] h = omega arith
be_value-small (b ∷ bs) h =
    let ih = be_value-small bs h.1 in
    let p = pow-suc 256 (length bs) in
    let m = mul-le-mul_right {m = suc b} {n = 256} (256 ^ length bs) (omega (arith, h.0)) in
    let e : suc b * 256 ^ length bs ≡ b * 256 ^ length bs + 256 ^ length bs = grind arith in
    omega (arith, ih, p, m, e)

-- The leading zeros of one byte, as a bound on the byte.
Bounded : ℕ → ℕ → Type 0
Bounded b d =
    ((d ≤ leading_zeros b) × (suc b * 2 ^ d ≤ 256)) ⊎ ((leading_zeros b < d) × (256 ≤ b * 2 ^ d))

large-Bounded : (b d : ℕ) → 1 ≤ b → 9 ≤ d → (leading_zeros b < d) × (256 ≤ b * 2 ^ d)
large-Bounded b d lo far =
    let p : 2 ^ 8 ≤ 2 ^ d = pow-le-pow_right {n = 2} (omega arith) {i = 8} {j = d} (omega arith) in
    let m : 1 * 2 ^ 8 ≤ b * 2 ^ d = mul-le-mul lo p in (ground arith, omega (arith, m))

pow-add_eight : (e : ℕ) → 2 ^ (8 + e) ≡ 2 ^ e * 256
pow-add_eight zero = refl
pow-add_eight (suc e) =
    let up : 8 + suc e ≡ suc (8 + e) = omega arith in
    let ih = pow-add_eight e in
    let p = pow-suc 2 (8 + e) in let q = pow-suc 2 e in ap (λ n. 2 ^ n) up ∙ omega (arith, ih, p, q)

byte-Bounded : (b d : ℕ) → 1 ≤ b → b < 256 → Bounded b d
unfolding Bounded
byte-Bounded b zero lo hi = inl (omega arith, omega arith)
byte-Bounded b (suc zero) lo hi = elim (Bool-cases (leb 128 b)) [
  | inl big ↦ inr (ground arith, ground arith)
  | inr small ↦ inl (ground arith, ground arith)
]
byte-Bounded b (suc (suc zero)) lo hi = elim (Bool-cases (leb 64 b)) [
  | inl big ↦ inr (ground arith, ground arith)
  | inr small ↦ inl (ground arith, ground arith)
]
byte-Bounded b (suc (suc (suc zero))) lo hi = elim (Bool-cases (leb 32 b)) [
  | inl big ↦ inr (ground arith, ground arith)
  | inr small ↦ inl (ground arith, ground arith)
]
byte-Bounded b (suc (suc (suc (suc zero)))) lo hi = elim (Bool-cases (leb 16 b)) [
  | inl big ↦ inr (ground arith, ground arith)
  | inr small ↦ inl (ground arith, ground arith)
]
byte-Bounded b (suc (suc (suc (suc (suc zero))))) lo hi = elim (Bool-cases (leb 8 b)) [
  | inl big ↦ inr (ground arith, ground arith)
  | inr small ↦ inl (ground arith, ground arith)
]
byte-Bounded b (suc (suc (suc (suc (suc (suc zero)))))) lo hi = elim (Bool-cases (leb 4 b)) [
  | inl big ↦ inr (ground arith, ground arith)
  | inr small ↦ inl (ground arith, ground arith)
]
byte-Bounded b (suc (suc (suc (suc (suc (suc (suc zero))))))) lo hi = elim (Bool-cases (leb 2 b)) [
  | inl big ↦ inr (ground arith, ground arith)
  | inr small ↦ inl (ground arith, ground arith)
]
byte-Bounded b (suc (suc (suc (suc (suc (suc (suc (suc zero)))))))) lo hi =
    elim (Bool-cases (leb 1 b)) [
      | inl big ↦ inr (ground arith, ground arith)
      | inr small ↦ inl (ground arith, ground arith)
    ]
byte-Bounded b (suc (suc (suc (suc (suc (suc (suc (suc (suc e))))))))) lo hi =
    inr (large-Bounded b (suc (suc (suc (suc (suc (suc (suc (suc (suc e))))))))) lo (omega arith))

-- The number of a byte that is not 0 and of the bytes behind it.
nonzero-bound :
    (b v power w : ℕ)
    → v < power
    → 1 ≤ w
    → ((suc b * w ≤ 256) → (b * power + v) * w < power * 256)
      × ((256 ≤ b * w) → power * 256 ≤ (b * power + v) * w)
nonzero-bound b v power w small pos =
    let q : suc b * power ≡ b * power + power = grind arith in
    let lt : b * power + v < suc b * power = omega (arith, q) in
    (
      (λ fits.
          let x = mul-lt-mul_of_pos_right lt pos in
          let y = mul-le-mul_right power fits in
          let z : suc b * power * w ≡ suc b * w * power = grind arith in omega (arith, x, y, z)),
      (λ passes.
          let y = mul-le-mul_right power passes in
          let z : (b * power + v) * w ≡ b * w * power + v * w = grind arith in omega (arith, y, z)),
    )

-- A byte of 0 in front: eight bits more, and the same number.
zero-bound :
    (d count v power : ℕ)
    → v < power
    → ((e : ℕ) → d ≡ 8 + e → (e ≤ count) ↔ (v * 2 ^ e < power))
    → (d ≤ 8 + count) ↔ (v * 2 ^ d < power * 256)
zero-bound d count v power small ih = elim (Bool-cases (leb d 8)) [
  | inl few ↦
      let p : 2 ^ d ≤ 2 ^ 8 =
        pow-le-pow_right {n = 2} (omega arith) {i = d} {j = 8} (ground arith) in
      let m = mul-le-mul_left v p in (λ e. omega (arith, m, small), λ e. ground arith)
  | inr many ↦
      let same : d ≡ 8 + (d - 8) = ground arith in
      let p : 2 ^ d ≡ 2 ^ (d - 8) * 256 = ap (λ n. 2 ^ n) same ∙ pow-add_eight (d - 8) in
      let q : v * 2 ^ d ≡ v * 2 ^ (d - 8) * 256 = ap (λ n. v * n) p ∙ grind arith in
      let (to, back) = ih (d - 8) same in
      (
        λ e. let x = to (omega (arith, same, e)) in omega (arith, x, q),
        λ e. let x = back (omega (arith, e, q)) in omega (arith, x, same),
      )
]

-- A digest has at least `d` leading zero bits just where, read as a number with the highest byte
-- first, it is below the `2 ^ d`-th part of its range; `d` is at most the number of its bits.
pub leading_zero_bits-be_value :
    (d : ℕ) (hash : Bytes)
    → All IsByte hash
    → d ≤ 8 * length hash
    → (d ≤ leading_zero_bits hash) ↔ (be_value hash * 2 ^ d < 256 ^ length hash)
unfolding leading_zero_bits
leading_zero_bits-be_value d [] h fits = (λ e. omega arith, λ e. fits)
leading_zero_bits-be_value d (zero ∷ bs) h fits = rw (zero-mul (256 ^ length bs)) (
    rw (zero-add (be_value bs)) (
      rw (pow-suc 256 (length bs)) (
        zero-bound d (leading_zero_bits bs) (be_value bs) (256 ^ length bs) (be_value-small bs h.1)
          (λ e same. leading_zero_bits-be_value e bs h.1 (omega (arith, same))))))
leading_zero_bits-be_value d (suc b ∷ bs) h fits =
    let w : 1 ≤ 2 ^ d = one-le-pow d 2 (omega arith) in
    let (low, high) =
      nonzero-bound (suc b) (be_value bs) (256 ^ length bs) (2 ^ d) (be_value-small bs h.1) w in
    let there : (suc b == 0) ≡ false = ground arith in
    rw there (
      rw (pow-suc 256 (length bs)) (
        unfold Bounded in
        elim (byte-Bounded (suc b) d (omega arith) h.0) [
          | inl (at, fits) ↦ (λ e. low fits, λ e. at)
          | inr (off, passes) ↦ (
            λ e. absurd (omega (arith, e, off)),
            λ e. let x = high passes in absurd (omega (arith, x, e)),
          )
        ]))
