-- ===== src/Passkey/State.antt =====
-- The data of src/passkey.rs: its containers and parameters, an instance and what it runs on.
use webylib.Prelude.{ℕ, Bool, true, Option, none, some}
use webylib.Prelude.Text.{Text, codes}
use webylib.Crypto.{Bytes}

-- `getrandom` and the clock, which change and read a state `R`; Argon2, HKDF-SHA256 with 32 bytes of
-- output, AES-256-GCM and base64; `keyring`, with entries `E` and a state `K`. The salt is the first
-- argument of `hkdf`, and the second one of `argon2`.
pub record Platform (R E K : Type 0) : Type 0 where
  pub getrandom : ℕ → R → Option Bytes × R
  pub as_secs : R → Text
  pub argon2 : Bytes → Bytes → Option Bytes
  pub hkdf : Bytes → Bytes → Bytes → Option Bytes
  pub aes_encrypt : Bytes → Bytes → Bytes → Option Bytes
  pub aes_decrypt : Bytes → Bytes → Bytes → Option Bytes
  pub base64_encode : Bytes → Text
  pub base64_decode : Text → Option Bytes
  pub entry : Text → Text → Option E
  pub set_password : E → Text → K → Option (Unit {0}) × K
  pub get_password : E → K → Option Text × K

pub record EncryptionConfig : Type 0 where
  pub app_identifier : Text
  pub service_name : Text
  pub require_auth_every_use : Bool
  pub auth_timeout_seconds : ℕ
  pub allow_device_passcode_fallback : Bool

abbrev pub default_config : EncryptionConfig
default_config = record {
  app_identifier = codes "com.webycash.webylib";
  service_name = codes "WalletEncryption";
  require_auth_every_use = true;
  auth_timeout_seconds = 0;
  allow_device_passcode_fallback = true;
}

pub record KdfParams : Type 0 where
  pub info : Text
  pub iterations : ℕ
  pub memory_cost : ℕ
  pub parallelism : ℕ

abbrev pub passkey_kdf : KdfParams
passkey_kdf = record {
  info = codes "webycash-passkey-v1";
  iterations = 100000;
  memory_cost = 65536;
  parallelism = 4;
}

abbrev pub password_kdf : KdfParams
password_kdf = record {
  info = codes "webycash-password-v1";
  iterations = 0;
  memory_cost = 65536;
  parallelism = 4;
}

pub record EncryptionMetadata : Type 0 where
  pub encrypted_at : Text
  pub platform : Text
  pub version : Text
  pub passkey_type : Option Text

pub record EncryptedData : Type 0 where
  pub ciphertext : Bytes
  pub nonce : Bytes
  pub salt : Bytes
  pub algorithm : Text
  pub kdf_params : KdfParams
  pub metadata : EncryptionMetadata

-- `target_os`
pub data Target : Type 0 where
  ios android macos linux windows freebsd other_os : Target

unfoldable pub get_platform_name : Target → Text
get_platform_name ios = codes "ios"
get_platform_name android = codes "android"
get_platform_name macos = codes "macos"
get_platform_name linux = codes "linux"
get_platform_name windows = codes "windows"
get_platform_name _ = codes "other"

unfoldable pub get_available_passkey_type : Target → Option Text
get_available_passkey_type macos = some (codes "macOS Keychain (Touch ID / Apple Watch / Passcode)")
get_available_passkey_type ios = some (codes "iOS Keychain (Face ID / Touch ID)")
get_available_passkey_type linux = some (codes "Linux Secret Service (GNOME Keyring / KDE Wallet)")
get_available_passkey_type windows = some (codes "Windows Credential Manager")
get_available_passkey_type freebsd = some (codes "FreeBSD file-based keyring")
get_available_passkey_type _ = none

pub record PasskeyEncryption : Type 0 where
  pub config : EncryptionConfig
  pub cached_key : Option Bytes

-- `PasskeyEncryption::new`
abbrev pub new : EncryptionConfig → PasskeyEncryption
new config = record { config = config; cached_key = none }

-- What a method of `PasskeyEncryption` reads and changes: `self` and the platform's states.
pub record Session (R K : Type 0) : Type 0 where
  pub this : PasskeyEncryption
  pub rng : R
  pub keyring : K

abbrev pub password_algorithm : Text
password_algorithm = codes "AES-256-GCM-PASSWORD"

abbrev pub passkey_algorithm : Text
passkey_algorithm = codes "AES-256-GCM"
