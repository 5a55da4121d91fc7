-- ===== src/Webcash/RoundTrip.antt =====
-- What webcash prints is read back as the webcash (src/webcash.rs).
use webylib.Prelude.{
  ℕ, ◌≤◌, ◌≡◌, ◌≢◌, refl, ap, ◌∙◌, some, [], ◌∷◌, ◌++◌, All, All-append, arith, length,
}
use webylib.Prelude.Int.{pos, max_i64}
use webylib.Prelude.Text.{Text, codes, beq, split, join, len}
use webylib.Prelude.Text.Split.{
  Lacks, All-map, split-Lacks, split-cons, len-length, IsVisible, trim-visible,
}
use webylib.Fault.{ok}
use webylib.Amount.{Amount, from_wats}
use webylib.Amount.Print.{display}
use webylib.Amount.Float.{Float}
use webylib.Amount.RoundTrip.{display_chars, from_str-display}
use webylib.Crypto.{Crypto, Bytes, HexLaws, IsHexDigit, IsByte}
use webylib.Webcash.{
  SecretWebcash, PublicWebcash, secret_to_string, public_to_string, parse_secret,
  parse_secret_parts, parse_behind_e, check_secret, parse_public, parse_public_parts, check_hash,
  strip_prefix,
}

hexdigit_range : (c : ℕ) → IsHexDigit c → (48 ≤ c) × (c ≤ 102)
hexdigit_range c h = ground arith

hexdigit_ne_colon : (c : ℕ) → IsHexDigit c → c ≢ b':'
hexdigit_ne_colon c h = ground arith

amount-IsVisible : (n : ℕ) → All IsVisible (display (from_wats (pos n)))
amount-IsVisible n = All-map (display (from_wats (pos n))) (λ c d. omega arith) (display_chars n)

amount-Lacks_colon : (n : ℕ) → Lacks b':' (display (from_wats (pos n)))
amount-Lacks_colon n = All-map (display (from_wats (pos n))) (λ c d. omega arith) (display_chars n)

-- "e{amount}:{kind}:{rest}" has three parts behind its `e`.
three_parts :
    (n : ℕ) (kind rest : Text)
    → Lacks b':' kind
    → All IsHexDigit rest
    → split b':' (display (from_wats (pos n)) ++ (b':' ∷ (kind ++ (b':' ∷ rest))))
      ≡ display (from_wats (pos n)) ∷ kind ∷ rest ∷ []
three_parts n kind rest lacks hex =
    split-cons b':' (display (from_wats (pos n))) (kind ++ (b':' ∷ rest)) (amount-Lacks_colon n)
    ∙ ap (λ parts. display (from_wats (pos n)) ∷ parts)
        (split-cons b':' kind rest lacks
          ∙ ap (λ parts. kind ∷ parts) (split-Lacks b':' rest (All-map rest hexdigit_ne_colon hex)))

visible :
    (n : ℕ) (kind rest : Text)
    → All IsVisible kind
    → All IsHexDigit rest
    → All IsVisible (b'e' ∷ (display (from_wats (pos n)) ++ (b':' ∷ (kind ++ (b':' ∷ rest)))))
visible n kind rest h hex = (
  (omega arith, omega arith),
  All-append IsVisible (display (from_wats (pos n))) _ (amount-IsVisible n) (
    (omega arith, omega arith),
    All-append IsVisible kind (b':' ∷ rest) h (
      (omega arith, omega arith),
      All-map rest (λ c d. let r = hexdigit_range c d in omega arith) hex,
    ),
  ),
)

len-hex : (s : Text) → All IsHexDigit s → len s ≡ length s
len-hex s hex = len-length s (All-map s (λ c d. let r = hexdigit_range c d in omega arith) hex)

strip_prefix-e : (s : Text) → strip_prefix (b'e' ∷ s) ≡ s
unfolding strip_prefix
strip_prefix-e s = refl

module _ (c : Crypto) (f : Float) (n : ℕ) (fits : n ≤ max_i64) where
  abbrev amount : Amount
  amount = from_wats (pos n)

  check_secret_lem :
      (secret : Text) (bytes : Bytes)
      → All IsHexDigit secret
      → length secret ≡ 64
      → Crypto.hex_decode c secret ≡ some bytes
      → check_secret c f secret ≡ ok secret
  unfolding check_secret
  check_secret_lem secret bytes hex l d = rw (len-hex secret hex) (rw l (rw d refl))

  -- Secret webcash with 64 hexadecimal digits and an amount from 0 up to `i64::MAX` wats is read
  -- back from its text.
  pub parse_secret-to_string :
      (secret : Text) (bytes : Bytes)
      → All IsHexDigit secret
      → length secret ≡ 64
      → Crypto.hex_decode c secret ≡ some bytes
      → let wc : SecretWebcash = record { secret = secret; amount = amount } in
        parse_secret c f (secret_to_string wc) ≡ ok wc
  unfolding parse_secret secret_to_string
  parse_secret-to_string secret bytes hex l d =
      ap (parse_behind_e c f) (trim-visible _ (visible n (codes "secret") secret (omega arith) hex))
      ∙ ap (parse_secret_parts c f) (three_parts n (codes "secret") secret (omega arith) hex)
      ∙ (unfold parse_secret_parts join beq in
          rw (from_str-display f n fits) (rw (check_secret_lem secret bytes hex l d) refl))

  check_hash_lem :
      HexLaws c
      → (hash : Bytes) → All IsByte hash
      → length hash ≡ 32
      → check_hash c f (Crypto.hex_encode c hash) ≡ ok hash
  unfolding check_hash
  check_hash_lem laws hash bytes l =
      rw (len-hex (Crypto.hex_encode c hash) (laws.encode_digits hash bytes))
        (rw (laws.length-encode hash) (rw l (rw (laws.decode-encode hash bytes) refl)))

  -- Public webcash with a hash of 32 bytes and an amount from 0 up to `i64::MAX` wats is read back
  -- from its text, as the crate `hex` decodes what it encodes.
  pub parse_public-to_string :
      HexLaws c
      → (hash : Bytes) → All IsByte hash
      → length hash ≡ 32
      → let wc : PublicWebcash = record { hash = hash; amount = amount } in
        parse_public c f (public_to_string c wc) ≡ ok wc
  unfolding parse_public public_to_string
  parse_public-to_string laws hash bytes l =
      let hex = laws.encode_digits hash bytes in
      ap (λ s. parse_public_parts c f (split b':' (strip_prefix s)))
        (trim-visible _ (visible n (codes "public") (Crypto.hex_encode c hash) (omega arith) hex))
      ∙ ap (λ s. parse_public_parts c f (split b':' s)) (strip_prefix-e _)
      ∙ ap (parse_public_parts c f)
          (three_parts n (codes "public") (Crypto.hex_encode c hash) (omega arith) hex)
      ∙ (unfold parse_public_parts beq in
          rw (from_str-display f n fits) (rw (check_hash_lem laws hash bytes l) refl))
