-- ===== src/Passkey.antt =====
-- Encryption under a password or a key of the platform's key store (src/passkey.rs). The wiping of
-- keys is not modelled, nor a clock before 1970, where the code panics.
pub mod State
pub mod Database
pub mod Laws
pub mod KeyStore
pub mod RoundTrip
unfoldable pub use State.*
use webylib.Prelude.{
  ℕ, Bool, true, false, not, Option, none, some, List, [], ◌∷◌, length, ◌==◌, if◌then◌else◌, String,
}
use webylib.Prelude.Text.{Text, codes, as_bytes, beq}
use webylib.Fault.{Error, Result, ok, err, ok_or}
use webylib.Crypto.{Bytes}
use webylib.Store.Monad.{Action, pure, raise, lift, gets, modify, ◌>>=◌, ◌>>◌}

abbrev pub or_crypto {ℓ} : {A : Type ℓ} → String → Option A → Result A
or_crypto message value = ok_or value (Error.crypto message)

abbrev pub clear_cached_keys : PasskeyEncryption → PasskeyEncryption
clear_cached_keys this = record this { cached_key = none }

unfoldable pub key_of : Bytes → Result Bytes
key_of bytes =
    if length bytes == 32 then ok bytes else err (Error.crypto "Invalid key length: expected 32")

abbrev pub succeeds : {A : Type 0} → Result A → Bool
succeeds (ok a) = true
succeeds (err e) = false

module _ {R K : Type 0} where
  abbrev pub on_rng : {A : Type 0} → Action R A → Action (Session R K) A
  on_rng act s = let (r, rng') = act s.rng in (r, record s { rng = rng' })

  abbrev pub on_keyring : {A : Type 0} → String → (K → Option A × K) → Action (Session R K) A
  on_keyring message act s =
      let (r, keyring') = act s.keyring in (or_crypto message r, record s { keyring = keyring' })

  abbrev pub cache : Bytes → Action (Session R K) Bytes
  cache key s = (ok key, record s { this = record (s.this) { cached_key = some key } })

module _ {R E K : Type 0} (p : Platform R E K) where
  open p use {
    getrandom, as_secs, argon2, hkdf, aes_encrypt, aes_decrypt, base64_encode, base64_decode, entry,
    set_password, get_password,
  }

  -- `getrandom::getrandom`, with the error that the caller makes of a failure
  unfoldable pub random : ℕ → String → Action R Bytes
  random n message rng = let (bytes, rng') = getrandom n rng in (or_crypto message bytes, rng')

  unfoldable pub encrypt_with_password : Bytes → Text → Action R EncryptedData
  encrypt_with_password plaintext password = do
    salt ← random 32 "Failed to generate salt"
    key ← lift (or_crypto "Password key derivation failed" (argon2 (as_bytes password) salt))
    nonce ← random 12 "Failed to generate nonce"
    ciphertext ← lift (or_crypto "Password encryption failed" (aes_encrypt key nonce plaintext))
    gets (λ rng. record {
      ciphertext = ciphertext;
      nonce = nonce;
      salt = salt;
      algorithm = password_algorithm;
      kdf_params = password_kdf;
      metadata = record {
        encrypted_at = as_secs rng;
        platform = codes "password";
        version = codes "1.0";
        passkey_type = none;
      };
    })

  unfoldable pub decrypt_with_password : EncryptedData → Text → Result Bytes
  decrypt_with_password d password =
      if not (beq d.algorithm password_algorithm)
      then err (Error.crypto "Wrong decryption method for this data")
      else open_with
          (or_crypto "Password key derivation failed" (argon2 (as_bytes password) d.salt))
    where
      open_with : Result Bytes → Result Bytes
      open_with (err e) = err e
      open_with (ok key) =
          or_crypto "Password decryption failed" (aes_decrypt key d.nonce d.ciphertext)

  -- `keyring::Entry::new`
  abbrev pub entry_of : EncryptionConfig → Option E
  entry_of config = entry config.service_name config.app_identifier

  abbrev pub keyring_entry : Action (Session R K) E
  keyring_entry s = lift (or_crypto "Passkey keyring init failed" (entry_of s.this.config)) s

  unfoldable pub is_passkey_available : PasskeyEncryption → Result Bool
  is_passkey_available this = available (entry_of this.config)
    where
      available : Option E → Result Bool
      available (some e) = ok true
      available none = ok false

  unfoldable pub store_passkey_key : Bytes → Action (Session R K) Unit
  store_passkey_key key = do
    e ← keyring_entry
    on_keyring "Passkey store failed" (set_password e (base64_encode key))

  unfoldable pub retrieve_passkey_key : Action (Session R K) Bytes
  retrieve_passkey_key = do
    e ← keyring_entry
    text ← on_keyring "Passkey retrieve failed" (get_password e)
    bytes ← lift (or_crypto "Passkey decode failed" (base64_decode text))
    lift (key_of bytes)

  unfoldable pub verify_passkey_access : Action (Session R K) Bool
  verify_passkey_access s = let (r, s') = retrieve_passkey_key s in (ok (succeeds r), s')

  unfoldable pub create_passkey_key : Action (Session R K) Bytes
  create_passkey_key = do
    key ← on_rng (random 32 "Failed to generate master key")
    store_passkey_key key
    cache key

  unfoldable pub cache_or_create : Result Bytes → Action (Session R K) Bytes
  cache_or_create (ok key) = cache key
  cache_or_create (err e) = create_passkey_key

  unfoldable pub get_or_create : Option Bytes → Action (Session R K) Bytes
  get_or_create (some key) s = pure key s
  get_or_create none s = let (r, s') = retrieve_passkey_key s in cache_or_create r s'

  unfoldable pub get_or_create_passkey_key : Action (Session R K) Bytes
  get_or_create_passkey_key s = get_or_create s.this.cached_key s

  unfoldable pub authenticate : Option Bytes → Action (Session R K) Bytes
  authenticate none = retrieve_passkey_key >>= cache
  authenticate (some key) = do
    valid ← verify_passkey_access
    if valid
        then pure key
        else ((modify (λ s. record s { this = clear_cached_keys s.this }) >> retrieve_passkey_key)
            >>= cache)

  unfoldable pub authenticate_and_get_key : Action (Session R K) Bytes
  authenticate_and_get_key s = authenticate s.this.cached_key s

  unfoldable pub derive_encryption_key : Bytes → Bytes → Result Bytes
  derive_encryption_key master_key salt =
      or_crypto "Key derivation failed"
        (hkdf salt master_key (as_bytes (codes "webycash-passkey-v1")))

  unfoldable pub encrypt_with_passkey : Target → Bytes → Action (Session R K) EncryptedData
  encrypt_with_passkey target plaintext = do
    salt ← on_rng (random 32 "Failed to generate salt")
    master_key ← get_or_create_passkey_key
    key ← lift (derive_encryption_key master_key salt)
    nonce ← on_rng (random 12 "Failed to generate nonce")
    ciphertext ← lift (or_crypto "Encryption failed" (aes_encrypt key nonce plaintext))
    gets (λ s. record {
      ciphertext = ciphertext;
      nonce = nonce;
      salt = salt;
      algorithm = passkey_algorithm;
      kdf_params = passkey_kdf;
      metadata = record {
        encrypted_at = as_secs s.rng;
        platform = get_platform_name target;
        version = codes "1.0";
        passkey_type = get_available_passkey_type target;
      };
    })

  unfoldable pub decrypt_with_passkey : EncryptedData → Action (Session R K) Bytes
  decrypt_with_passkey d =
      if not (beq d.algorithm passkey_algorithm)
      then raise (Error.crypto "Unsupported encryption algorithm")
      else (do
        master_key ← authenticate_and_get_key
        key ← lift (derive_encryption_key master_key d.salt)
        lift (or_crypto "Decryption failed" (aes_decrypt key d.nonce d.ciphertext)))
