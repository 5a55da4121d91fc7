-- ===== src/Wasm.antt =====
-- The primitives of the browser's wallet (crates/webylib-wasm/src/lib.rs): key derivation, amounts
-- and webcash texts. A `JsError` is its message, kept as `Error.other`. Encryption is not modelled.
pub mod State
pub mod Replace
pub mod Mining
pub mod Recover
pub mod Snapshot
pub mod Reach
pub mod Native
use webylib.Prelude.{
  ℕ, ◌-◌, ◌^◌, ◌≡◌, refl, Bool, true, false, not, ◌||◌, Option, none, some, List, [], ◌∷◌, ◌++◌,
  length, ltb, ◌==◌, if◌then◌else◌, String,
}
use webylib.Prelude.Int.{ℤ, pos, ◌+ℤ◌, ◌*ℤ◌, ltb_ℤ, eqb_ℤ, quot, rem_abs, checked, wrap_i64}
use webylib.Prelude.Text.{Text, codes, beq, trim, trim_end_by, split, split_by, join, len, as_bytes}
use webylib.Prelude.Decimal.{format_i64, format_padded, parse_i64}
use webylib.Fault.{Error, Result, ok, err, ok_or, ◌>>=◌}
use webylib.Amount.Parse.{part0, part1, many, is_empty, strip_symbol}
use webylib.Amount.Print.{is_zero_digit, with_fraction}
use webylib.Crypto.{Crypto, Bytes, to_be_bytes, tag}

-- `JsError::new`
abbrev pub js_error : String → Error
js_error = Error.other

-- `DECIMALS` and `UNIT`
abbrev pub decimals : ℕ
decimals = 8

abbrev pub unit : ℕ
unit = 100000000

module _ (c : Crypto) where
  -- The message that `derive_secret` hashes; the chain is any `u32`.
  abbrev pub preimage : Bytes → ℕ → ℕ → Bytes
  preimage master_bytes chain_code depth =
      tag c ++ (tag c ++ (master_bytes ++ (to_be_bytes chain_code ++ to_be_bytes depth)))

  unfoldable pub derive_from : ℕ → ℕ → Bytes → Result Text
  derive_from chain_code depth master_bytes =
      if not (length master_bytes == 32)
      then err (js_error "master secret must be 32 bytes (64 hex chars)")
      else ok (Crypto.hex_encode c (Crypto.sha256 c (preimage master_bytes chain_code depth)))

  unfoldable pub derive_secret : Text → ℕ → ℕ → Result Text
  derive_secret master_secret_hex chain_code depth = do
    master_bytes ←
        ok_or (Crypto.hex_decode c master_secret_hex) (js_error "invalid master secret hex")
    derive_from chain_code depth master_bytes

  -- `sha256_hex`, which `secret_to_public` and `secret_hash` are too: the hash of the text.
  abbrev pub sha256_hex : Text → Text
  sha256_hex s = Crypto.hex_encode c (Crypto.sha256 c (as_bytes s))

unfoldable pub format_amount_i64 : ℤ → Text
format_amount_i64 wats =
    if eqb_ℤ wats (pos 0)
    then codes "0"
    else (let integer_part = quot wats unit in
        let fractional_part = rem_abs wats unit in
        if fractional_part == 0
        then format_i64 integer_part
        else with_fraction (format_i64 integer_part)
            (trim_end_by is_zero_digit (format_padded 8 fractional_part)))

unfoldable pub format_webcash : Text → ℤ → Text
format_webcash secret amount_wats =
    b'e' ∷ (format_amount_i64 amount_wats ++ (codes ":secret:" ++ secret))

unfoldable pub format_public_webcash : Text → ℤ → Text
format_public_webcash hash_hex amount_wats =
    b'e' ∷ (format_amount_i64 amount_wats ++ (codes ":public:" ++ hash_hex))

-- An empty integer part is 0.
unfoldable pub parse_integer_part : Text → Result ℤ
parse_integer_part [] = ok (pos 0)
parse_integer_part (x ∷ s) = ok_or (parse_i64 (x ∷ s)) (js_error "invalid integer part")

abbrev add_checked : Option ℤ → ℤ → Option ℤ
add_checked none b = none
add_checked (some a) b = checked (a +ℤ b)

-- The amount from its integer part and its fractional part. At most 8 digits, `frac_value *
-- multiplier` fits an `i64`.
unfoldable pub with_fractional_part : ℤ → Text → Result ℤ
with_fractional_part wats [] = ok_or (checked (wats *ℤ pos unit)) (js_error "amount overflow")
with_fractional_part wats (x ∷ s) =
    if ltb decimals (len (x ∷ s)) then err (js_error "too many decimal places (max 8)") else do
      frac_value ← ok_or (parse_i64 (x ∷ s)) (js_error "invalid fractional part")
      ok_or
          (add_checked (checked (wats *ℤ pos unit))
            (frac_value *ℤ pos (10 ^ (decimals - len (x ∷ s)))))
          (js_error "amount overflow")

abbrev pub not_negative : ℤ → Result ℤ
not_negative wats =
    if ltb_ℤ wats (pos 0) then err (js_error "negative amounts not allowed") else ok wats

unfoldable pub parse_stripped : Text → Result ℤ
parse_stripped s =
    let parts = split b'.' s in
    if beq s (codes "0")
    then ok (pos 0)
    else if many parts
    then err (js_error "too many decimal points")
    else do
      integer ← parse_integer_part (part0 parts)
      wats ← with_fractional_part integer (part1 parts)
      not_negative wats

unfoldable pub parse_amount_str : Text → Result ℤ
parse_amount_str s =
    let s' = trim s in
    if is_empty s' then err (js_error "empty amount") else parse_stripped (strip_symbol s')

module _ (c : Crypto) where
  unfoldable pub check_secret : Text → Result Text
  check_secret secret =
      if not (len secret == 64)
      then err (js_error "secret must be 64 hex chars")
      else do _ ← ok_or (Crypto.hex_decode c secret) (js_error "invalid hex"); ok secret

  -- The parts of `s[1..]` at the colons; the parts from the third on are joined again.
  unfoldable pub parse_webcash_parts : List Text → Result (Text × ℤ)
  parse_webcash_parts (amount_str ∷ kind ∷ third ∷ more) =
      if not (beq kind (codes "secret")) then err (js_error "invalid webcash format") else do
        wats ← parse_amount_str amount_str
        secret ← check_secret (join (codes ":") (third ∷ more))
        ok (secret, wats)
  parse_webcash_parts _ = err (js_error "invalid webcash format")

  abbrev pub parse_behind_e : Text → Result (Text × ℤ)
  parse_behind_e [] = err (js_error "webcash must start with 'e'")
  parse_behind_e (x ∷ s) =
      if not (x == b'e')
      then err (js_error "webcash must start with 'e'")
      else parse_webcash_parts (split b':' s)

  -- `parse_webcash_internal`
  unfoldable pub parse_webcash : Text → Result (Text × ℤ)
  parse_webcash s = parse_behind_e (trim s)

half_runs : parse_amount_str (codes ".5") ≡ ok (pos 50000000)
unfolding parse_amount_str parse_stripped parse_integer_part with_fractional_part trim split_by
    strip_symbol len ◌+ℤ◌ ◌*ℤ◌ checked parse_i64 beq
half_runs = refl
