-- ===== src/Crypto.antt =====
-- The crates `sha2` and `hex`, and the key derivation over them (crates/hd/src/legacy_webcash.rs).
pub mod Derive
use webylib.Prelude.{
  ℕ, zero, suc, ◌+◌, ◌*◌, ◌/◌, ◌%◌, ◌^◌, ◌<◌, ◌≡◌, refl, Bool, true, false, Option, none, some,
  List, [], ◌∷◌, ◌++◌, All, arith, length, ◌==◌, if◌then◌else◌, String,
}
use webylib.Prelude.Text.{Text, codes, as_bytes, trim, is_ascii_hexdigit}
use webylib.Fault.{Result, ok, err}

abbrev pub Bytes : Type 0
Bytes = List ℕ

-- `Sha256::digest`, `hex::encode` and `hex::decode`, which are not under the repository.
pub record Crypto : Type 0 where
  pub sha256 : Bytes → Bytes
  pub hex_encode : Bytes → Text
  pub hex_decode : Text → Option Bytes

-- What the crate `hex` documents: lower-case digits, two for each byte, which decode to the bytes.
abbrev pub IsHexDigit : ℕ → Type 0
IsHexDigit c = is_ascii_hexdigit c ≡ true

abbrev pub IsByte : ℕ → Type 0
IsByte b = b < 256

pub record HexLaws (c : Crypto) : Type 0 where
  pub encode_digits : (bs : Bytes) → All IsByte bs → All IsHexDigit (Crypto.hex_encode c bs)
  pub length-encode : (bs : Bytes) → length (Crypto.hex_encode c bs) ≡ 2 * length bs
  pub decode-encode :
      (bs : Bytes) → All IsByte bs → Crypto.hex_decode c (Crypto.hex_encode c bs) ≡ some bs

pub data ChainCode : Type 0 where
  receive pay change mining : ChainCode

unfoldable pub as_u64 : ChainCode → ℕ
as_u64 receive = 0
as_u64 pay = 1
as_u64 change = 2
as_u64 mining = 3

unfoldable pub from_u64 : ℕ → Option ChainCode
from_u64 zero = some receive
from_u64 (suc zero) = some pay
from_u64 (suc (suc zero)) = some change
from_u64 (suc (suc (suc zero))) = some mining
from_u64 _ = none

unfoldable pub as_str : ChainCode → Text
as_str receive = codes "RECEIVE"
as_str pay = codes "PAY"
as_str change = codes "CHANGE"
as_str mining = codes "MINING"

-- `ChainCode::ALL`
abbrev pub all_chains : List ChainCode
all_chains = receive ∷ pay ∷ change ∷ mining ∷ []

-- `u64::to_be_bytes`: the `n` low bytes of a number, the highest first.
unfoldable pub be_bytes : ℕ → ℕ → Bytes
be_bytes zero x = []
be_bytes (suc n) x = be_bytes n (x / 256) ++ (x % 256) ∷ []

abbrev pub to_be_bytes : ℕ → Bytes
to_be_bytes x = be_bytes 8 x

module _ (c : Crypto) where
  open c use {sha256, hex_encode, hex_decode}

  abbrev pub tag : Bytes
  tag = sha256 (as_bytes (codes "webcashwalletv1"))

  -- The message that `derive_secret` hashes.
  unfoldable pub derive_preimage : Bytes → ChainCode → ℕ → Bytes
  derive_preimage master_secret chain depth =
      tag ++ (tag ++ (master_secret ++ (to_be_bytes (as_u64 chain) ++ to_be_bytes depth)))

  -- `HdWallet::derive_secret`
  unfoldable pub derive_secret : Bytes → ChainCode → ℕ → Text
  derive_secret master_secret chain depth =
      hex_encode (sha256 (derive_preimage master_secret chain depth))

  abbrev exactly_32 : Option Bytes → Option Bytes
  exactly_32 none = none
  exactly_32 (some bytes) = if length bytes == 32 then some bytes else none

  -- `HdWallet::from_hex`: the master secret, with space around it allowed; `none` for `InvalidHex`.
  unfoldable pub from_hex : Text → Option Bytes
  from_hex hex_str = exactly_32 (hex_decode (trim hex_str))

  unfoldable pub master_secret_hex : Bytes → Text
  master_secret_hex master_secret = hex_encode master_secret
