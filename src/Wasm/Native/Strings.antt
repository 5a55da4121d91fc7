-- ===== src/Wasm/Native/Strings.antt =====
-- The texts of webcash and the derived secrets of the browser's wallet (crates/webylib-wasm/src/lib.rs)
-- are those of the native wallet (src/webcash.rs, src/amount.rs, src/hd.rs).
use webylib.Prelude.{
  ℕ, ◌≡◌, refl, sym, ap, subst, Bool, true, false, not, Option, none, some, List, [], ◌∷◌, ◌++◌,
  map, length, Bool-cases, inl, inr, if◌then◌else◌, ◌==◌,
}
use webylib.Prelude.Int.{ℤ}
use webylib.Prelude.Text.{Text, beq, codes}
use webylib.Fault.{Error, ok, ok_or, >>=-eq-ok}
use webylib.Amount.{from_wats}
use webylib.Amount.Print.{display, to_string_with_decimals}
use webylib.Crypto
use webylib.Crypto.{Bytes, Crypto, ChainCode, as_u64, derive_preimage}
use webylib.Webcash.{secret_to_string}
use webylib.Store.Laws.Outputs.{available}
use webylib.Store.Laws.Rows.{Row, Holds}
use webylib.Wallet.{Env, webcash_of_row, validate_master_secret, check_length}
use webylib.Wasm.{js_error, derive_from, derive_secret, format_amount_i64, format_webcash}
use webylib.Wasm.State.{Output}
use webylib.Wasm.Replace.{text_of, texts_of}
use webylib.Wasm.Replace.View.{viewed}
use webylib.Wasm.Replace.Sound.{self}
use webylib.Wasm.Replace.Balance.{ok_injective, unguarded}

pub format_amount_i64-display : (wats : ℤ) → format_amount_i64 wats ≡ display (from_wats wats)
unfolding format_amount_i64 to_string_with_decimals
format_amount_i64-display wats = refl

pub format_webcash-to_string :
    (secret : Text) (wats : ℤ)
    → format_webcash secret wats
      ≡ secret_to_string (record { secret = secret; amount = from_wats wats })
unfolding format_webcash secret_to_string
format_webcash-to_string secret wats =
    ap (λ s. b'e' ∷ (s ++ (codes ":secret:" ++ secret))) (format_amount_i64-display wats)

text_of-available :
    (secret : Text) (os : List Output) (amount : ℤ)
    → available secret (map (viewed self) os) ≡ some amount
    → text_of secret os ≡ some (format_webcash secret amount)
text_of-available secret [] amount h = cc
text_of-available secret (o ∷ os) amount h = elim (Bool-cases (beq o.secret secret)) [
  | inl same ↦ rw same (
      ap (λ a. some (format_webcash secret a))
        (found o.spent (
          subst
            (λ b.
              (if b
                then (if o.spent then none else some o.amount)
                else available secret (map (viewed self) os))
              ≡ some amount)
            same h)))
  | inr other ↦ rw other (
      text_of-available secret os amount (
        subst
          (λ b.
            (if b
              then (if o.spent then none else some o.amount)
              else available secret (map (viewed self) os))
            ≡ some amount)
          other h))
]
  where
    found : {a b : ℤ} (gone : Bool) → (if gone then none else some a) ≡ some b → a ≡ b
    found true e = cc
    found false e = cc

-- The texts of the inputs in the request.
pub texts_of-rows :
    (rows : List Row) (os : List Output)
    → Holds self (map (viewed self) os) rows
    → texts_of (map (λ (r : Row). r.0) rows) os ≡ map secret_to_string (map webcash_of_row rows)
texts_of-rows [] os held = refl
texts_of-rows (r ∷ rows) os held =
    rw (text_of-available r.0 os r.1 held.0)
      (λ i. format_webcash-to_string r.0 r.1 i ∷ texts_of-rows rows os held.1 i)

-- The master secret that both wallets derive from.
module _ (env : Env) (chain : ChainCode) (depth : ℕ) where
  derive_from-native :
      (bytes : Bytes) {secret : Text}
      → derive_from env.crypto (as_u64 chain) depth bytes ≡ ok secret
      → (check_length bytes ≡ ok bytes)
        × (secret ≡ Crypto.derive_secret env.crypto bytes chain depth)
  unfolding derive_from check_length derive_preimage Crypto.derive_secret
  derive_from-native bytes h =
      let (long, e) =
        unguarded (not (length bytes == 32))
          (js_error "master secret must be 32 bytes (64 hex chars)") _ h in
      (rw long refl, sym (ok_injective e))

  validate-decoded :
      (hex : Text) (bytes : Bytes)
      → Crypto.hex_decode env.crypto hex ≡ some bytes
      → check_length bytes ≡ ok bytes
      → validate_master_secret env hex ≡ ok bytes
  unfolding validate_master_secret
  validate-decoded hex bytes e long = rw (e, validate_master_secret) long

  pub derive_secret-native :
      (hex : Text) {secret : Text}
      → derive_secret env.crypto hex (as_u64 chain) depth ≡ ok secret
      → (bytes : Bytes) × (validate_master_secret env hex ≡ ok bytes)
        × (secret ≡ Crypto.derive_secret env.crypto bytes chain depth)
  unfolding derive_secret
  derive_secret-native hex h =
      let (bytes, decoded, e) =
        >>=-eq-ok (ok_or (Crypto.hex_decode env.crypto hex) (js_error "invalid master secret hex"))
          (derive_from env.crypto (as_u64 chain) depth) h in
      let (long, same) = derive_from-native bytes e in
      (
        bytes,
        validate-decoded hex bytes (there _ (Crypto.hex_decode env.crypto hex) decoded) long,
        same,
      )
    where
      there : {bytes : Bytes} (x : Error) (o : Option Bytes) → ok_or o x ≡ ok bytes → o ≡ some bytes
      there x none e = cc
      there x (some b) e = cc
