-- ===== src/Tests/Hex.antt =====
-- A hexadecimal coding that keeps the laws that src/Crypto asks of the crate `hex`, and a digest of
-- 32 bytes, for the runs on concrete inputs. The digest is no hash function. And numbers in place
-- of `f64`, of which none is written in a text.
use webylib.Prelude.{
  ℕ, zero, suc, ◌+◌, ◌-◌, ◌*◌, ◌/◌, ◌%◌, ◌<◌, ◌≡◌, refl, ap, false, Option, none, some, [], ◌∷◌,
  All, arith, length, replicate, ltb, if◌then◌else◌,
}
use webylib.Prelude.Text.{Text}
use webylib.Amount.Float.{Float}
use webylib.Prelude.Int.{ℤ}
use webylib.Crypto.{Crypto, HexLaws, IsHexDigit, IsByte, Bytes}

abbrev hex_digit : ℕ → ℕ
hex_digit n = if ltb n 10 then n + b'0' else n + 87

abbrev digit_value : ℕ → ℕ
digit_value c = if ltb c 58 then c - b'0' else c - 87

abbrev encode : Bytes → Text
encode [] = []
encode (b ∷ bs) = hex_digit (b / 16) ∷ hex_digit (b % 16) ∷ encode bs

abbrev front : ℕ → Option Bytes → Option Bytes
front b none = none
front b (some bs) = some (b ∷ bs)

abbrev decode : Text → Option Bytes
decode [] = some []
decode (c ∷ []) = none
decode (c ∷ d ∷ s) = front (digit_value c * 16 + digit_value d) (decode s)

abbrev sum : Bytes → ℕ
sum [] = 0
sum (b ∷ bs) = b + sum bs

abbrev digest : Bytes → Bytes
digest bs = sum bs % 256 ∷ replicate 31 0

abbrev pub plain_crypto : Crypto
plain_crypto = record { sha256 = digest; hex_encode = encode; hex_decode = decode }

pub All-replicate : (P : ℕ → Type 0) (n a : ℕ) → P a → All P (replicate n a)
All-replicate P zero a h = tt
All-replicate P (suc n) a h = (h, All-replicate P n a h)

hex_digit-IsHexDigit : (n : ℕ) → n < 16 → IsHexDigit (hex_digit n)
hex_digit-IsHexDigit n h = ground arith

digit_value-hex_digit : (n : ℕ) → n < 16 → digit_value (hex_digit n) ≡ n
digit_value-hex_digit n h = ground arith

encode-IsHexDigit : (bs : Bytes) → All IsByte bs → All IsHexDigit (encode bs)
encode-IsHexDigit [] h = tt
encode-IsHexDigit (b ∷ bs) h =
    let small = h.0 in
    (
      hex_digit-IsHexDigit (b / 16) (omega arith),
      (hex_digit-IsHexDigit (b % 16) (omega arith), encode-IsHexDigit bs h.1),
    )

length-encode : (bs : Bytes) → length (encode bs) ≡ 2 * length bs
length-encode [] = refl
length-encode (b ∷ bs) = let ih = length-encode bs in omega arith

decode-encode : (bs : Bytes) → All IsByte bs → decode (encode bs) ≡ some bs
decode-encode [] h = refl
decode-encode (b ∷ bs) h =
    let small = h.0 in
    let high = digit_value-hex_digit (b / 16) (omega arith) in
    let low = digit_value-hex_digit (b % 16) (omega arith) in
    rw (decode-encode bs h.1) (rw high (rw low (ap (λ n. some (n ∷ bs)) (omega arith))))

pub plain_crypto-laws : HexLaws plain_crypto
plain_crypto-laws = record {
  encode_digits = encode-IsHexDigit;
  length-encode = length-encode;
  decode-encode = decode-encode;
}

abbrev pub no_floats : Float
no_floats = record {
  F64 = ℤ;
  parse = λ s. none;
  is_negative = λ x. false;
  times = λ x y. x;
  over = λ x y. x;
  ten_powi = λ n. n;
  of_i64 = λ n. n;
  round_i64 = λ x. x;
}

pub digest_bytes : (bs : Bytes) → All IsByte (Crypto.sha256 plain_crypto bs)
digest_bytes bs = (omega arith, All-replicate IsByte 31 0 (omega arith))
