-- ===== src/Webcash.antt =====
-- Secret and public webcash and their text (src/webcash.rs). A `SecureString` is made from a
-- `String` wherever the wallet makes one, so it is the text; that memory is wiped on drop is not
-- modelled.
pub mod RoundTrip
use webylib.Prelude.{
  ℕ, ◌≡◌, refl, Bool, true, false, Option, none, some, List, [], ◌∷◌, ◌++◌, String, ltb, ◌==◌,
  if◌then◌else◌, length, not,
}
use webylib.Prelude.Text.{Text, codes, beq, trim, split, split_by, join, len, as_bytes}
use webylib.Fault.{Error, Result, ok, err, ok_or, ◌>>=◌}
use webylib.Amount.{Amount}
use webylib.Amount.Print.{display}
use webylib.Amount.Float.{Float}
use webylib.Amount.Parse.{from_str, part0}
use webylib.Crypto.{Crypto, Bytes}

pub record SecretWebcash : Type 0 where
  pub secret : Text
  pub amount : Amount

pub record PublicWebcash : Type 0 where
  pub hash : Bytes
  pub amount : Amount

-- "e{amount}:secret:{secret}"
unfoldable pub secret_to_string : SecretWebcash → Text
secret_to_string wc = b'e' ∷ (display wc.amount ++ (codes ":secret:" ++ wc.secret))

module _ (c : Crypto) where
  -- The hash is of the secret's text, not of the bytes that its hexadecimal digits spell.
  unfoldable pub to_public : SecretWebcash → PublicWebcash
  to_public wc = record { hash = Crypto.sha256 c (as_bytes wc.secret); amount = wc.amount }

  -- "e{amount}:public:{hash}"
  unfoldable pub public_to_string : PublicWebcash → Text
  public_to_string wc =
      b'e' ∷ (display wc.amount ++ (codes ":public:" ++ Crypto.hex_encode c wc.hash))

-- The two prefixes that `PublicWebcash::parse` takes off.
unfoldable pub strip_prefix : Text → Text
strip_prefix [] = []
strip_prefix (x ∷ s) = if x == b'e' then s else if x == 0x20a9 then s else x ∷ s

module _ (c : Crypto) (f : Float) where
  -- `if secret.len() != 64` and `hex::decode(&secret)`
  unfoldable pub check_secret : Text → Result Text
  check_secret secret =
      if not (len secret == 64)
      then err (Error.parse "Secret must be 64 hex characters (32 bytes)")
      else do
        _ ← ok_or (Crypto.hex_decode c secret) (Error.parse "Secret must be valid hex")
        ok secret

  -- The parts of `s[1..]` at the colons; the parts from the third on are joined again.
  unfoldable pub parse_secret_parts : List Text → Result SecretWebcash
  parse_secret_parts (amount_str ∷ kind ∷ third ∷ more) =
      if not (beq kind (codes "secret")) then err (Error.parse "Expected 'secret' type") else do
        amount ← from_str f amount_str
        secret ← check_secret (join (codes ":") (third ∷ more))
        ok (record { secret = secret; amount = amount })
  parse_secret_parts _ = err (Error.parse "Invalid SecretWebcash format")

  abbrev pub parse_behind_e : Text → Result SecretWebcash
  parse_behind_e [] = err (Error.parse "SecretWebcash must start with 'e'")
  parse_behind_e (x ∷ s) =
      if not (x == b'e')
      then err (Error.parse "SecretWebcash must start with 'e'")
      else parse_secret_parts (split b':' s)

  -- `SecretWebcash::parse`
  unfoldable pub parse_secret : Text → Result SecretWebcash
  parse_secret s = parse_behind_e (trim s)

  unfoldable pub check_hash : Text → Result Bytes
  check_hash hash_str =
      if not (len hash_str == 64)
      then err (Error.parse "Hash must be 64 hex characters (32 bytes)")
      else ok_or (Crypto.hex_decode c hash_str) (Error.parse "Hash must be valid hex")

  -- `hash.copy_from_slice(&hash_bytes)` panics unless there are 32 bytes; of 64 hexadecimal digits
  -- there are.
  unfoldable pub parse_public_parts : List Text → Result PublicWebcash
  parse_public_parts (amount_str ∷ kind ∷ hash_str ∷ []) =
      if not (beq kind (codes "public")) then err (Error.parse "Expected 'public' type") else do
        amount ← from_str f amount_str
        hash ← check_hash hash_str
        ok (record { hash = hash; amount = amount })
  parse_public_parts _ = err (Error.parse "Invalid PublicWebcash format")

  -- `PublicWebcash::parse`
  unfoldable pub parse_public : Text → Result PublicWebcash
  parse_public s = parse_public_parts (split b':' (strip_prefix (trim s)))
