-- ===== src/Crypto/Derive.antt =====
-- The messages that key derivation hashes (crates/hd/src/legacy_webcash.rs).
use native.Mathlib.Nat.{pow-suc}
use webylib.Prelude.{
  ℕ, zero, suc, ◌+◌, ◌*◌, ◌/◌, ◌%◌, ◌^◌, ◌<◌, ◌≡◌, refl, sym, ap, ◌∙◌, some, [], ◌∷◌, ◌++◌, arith,
  length, length-append,
}
use webylib.Crypto.{
  Bytes, Crypto, ChainCode, receive, as_u64, from_u64, be_bytes, to_be_bytes, derive_preimage,
}

-- The number of a byte string, the highest byte first.
from_be : ℕ → Bytes → ℕ
from_be n [] = n
from_be n (b ∷ bs) = from_be (n * 256 + b) bs

from_be-append : (n : ℕ) (bs cs : Bytes) → from_be n (bs ++ cs) ≡ from_be (from_be n bs) cs
unfolding from_be
from_be-append n [] cs = refl
from_be-append n (b ∷ bs) cs = from_be-append (n * 256 + b) bs cs

from_be-be_bytes : (n x : ℕ) → x < 256 ^ n → from_be 0 (be_bytes n x) ≡ x
unfolding be_bytes
from_be-be_bytes zero x h = unfold from_be in omega arith
from_be-be_bytes (suc n) x h =
    rw (from_be-append 0 (be_bytes n (x / 256)) (x % 256 ∷ []))
      (rw (from_be-be_bytes n (x / 256) (smaller h)) (unfold from_be in omega arith))
  where
    smaller : x < 256 ^ suc n → x / 256 < 256 ^ n
    smaller h = let e = pow-suc 256 n in omega (arith, e)

be_bytes-injective : (x y : ℕ) → x < 2 ^ 64 → y < 2 ^ 64 → to_be_bytes x ≡ to_be_bytes y → x ≡ y
be_bytes-injective x y hx hy e =
    sym (from_be-be_bytes 8 x hx) ∙ ap (from_be 0) e ∙ from_be-be_bytes 8 y hy

length-be_bytes : (n x : ℕ) → length (be_bytes n x) ≡ n
unfolding be_bytes
length-be_bytes zero x = refl
length-be_bytes (suc n) x =
    rw (length-append (be_bytes n (x / 256)) (x % 256 ∷ []))
      (omega (arith, length-be_bytes n (x / 256)))

append-injective :
    (xs xs' ys ys' : Bytes)
    → length xs ≡ length xs'
    → xs ++ ys ≡ xs' ++ ys'
    → (xs ≡ xs') × (ys ≡ ys')
append-injective [] [] ys ys' l e = (refl, e)
append-injective [] (x ∷ xs') ys ys' l e = absurd (omega arith)
append-injective (x ∷ xs) [] ys ys' l e = absurd (omega arith)
append-injective (x ∷ xs) (x' ∷ xs') ys ys' l e =
    let tails : xs ++ ys ≡ xs' ++ ys' = ground arith in
    let (p, q) = append-injective xs xs' ys ys' (omega arith) tails in (ground arith, q)

as_u64-injective : (a b : ChainCode) → as_u64 a ≡ as_u64 b → a ≡ b
unfolding as_u64
as_u64-injective a b e = ground arith

as_u64-small : (a : ChainCode) → as_u64 a < 2 ^ 64
unfolding as_u64
as_u64-small receive = omega arith
as_u64-small _ = omega arith

-- Two derivations hash the same message only if the master secret, the chain and the depth are the
-- same, for master secrets of one length and depths in a `u64`.
pub derive_preimage-injective :
    (c : Crypto) (m m' : Bytes) (chain chain' : ChainCode) (depth depth' : ℕ)
    → length m ≡ length m'
    → depth < 2 ^ 64
    → depth' < 2 ^ 64
    → derive_preimage c m chain depth ≡ derive_preimage c m' chain' depth'
    → (m ≡ m') × (chain ≡ chain') × (depth ≡ depth')
unfolding derive_preimage
derive_preimage-injective c m m' chain chain' depth depth' l hd hd' e =
    let (_, e1) = append-injective _ _ _ _ refl e in
    let (_, e2) = append-injective _ _ _ _ refl e1 in
    let (em, e3) = append-injective m m' _ _ l e2 in
    let (ec, ed) =
      append-injective (to_be_bytes (as_u64 chain)) (to_be_bytes (as_u64 chain')) _ _
        (length-be_bytes 8 (as_u64 chain) ∙ sym (length-be_bytes 8 (as_u64 chain'))) e3 in
    (
      em,
      as_u64-injective chain chain'
          (be_bytes-injective _ _ (as_u64-small chain) (as_u64-small chain') ec),
      be_bytes-injective depth depth' hd hd' ed,
    )

from_u64_sound : (n : ℕ) (a : ChainCode) → from_u64 n ≡ some a → as_u64 a ≡ n
unfolding from_u64 as_u64
from_u64_sound zero a e = ground arith
from_u64_sound (suc zero) a e = ground arith
from_u64_sound (suc (suc zero)) a e = ground arith
from_u64_sound (suc (suc (suc zero))) a e = ground arith
from_u64_sound (suc (suc (suc (suc n)))) a e = cc

from_u64_complete : (a : ChainCode) → from_u64 (as_u64 a) ≡ some a
unfolding from_u64 as_u64
from_u64_complete receive = refl
from_u64_complete _ = refl

-- `from_u64` reads every chain's code back, and each code that it reads is the code of the chain.
pub from_u64-as_u64 :
    (n : ℕ) (a : ChainCode) → (from_u64 n ≡ some a → as_u64 a ≡ n) × (from_u64 (as_u64 a) ≡ some a)
from_u64-as_u64 n a = (from_u64_sound n a, from_u64_complete a)
