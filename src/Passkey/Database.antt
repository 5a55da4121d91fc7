-- ===== src/Passkey/Database.antt =====
-- The encryption of a wallet's database file (src/wallet/encryption.rs). A poisoned lock is not
-- modelled, nor the encryption of exported wallet data.
pub mod RoundTrip
use webylib.Prelude.{
  Bool, true, false, not, Option, none, some, List, ◌++◌, length, ltb, if◌then◌else◌, String,
}
use webylib.Prelude.Text.{Text, codes, as_bytes, starts_with}
use webylib.Fault.{Error, Result, ok, err, ok_or}
use webylib.Crypto.{Bytes}
use webylib.Store.Monad.{Action, pure, raise, lift, ◌>>=◌, ◌>>◌}
use webylib.Passkey.{
  Platform, EncryptionConfig, EncryptedData, PasskeyEncryption, Session, Target, default_config,
  new, encrypt_with_password, decrypt_with_password, encrypt_with_passkey, decrypt_with_passkey,
}

-- `std::fs` and `std::path` on a state `F` of the disk, and `serde_json` on `EncryptedData`.
pub record Files (F : Type 0) : Type 0 where
  pub exists : Text → F → Bool
  pub read : Text → F → Option Bytes
  pub write : Text → Bytes → F → Option (Unit {0}) × F
  pub remove_file : Text → F → F
  pub file_name : Text → Option Text
  pub with_extension : Text → Text → Text
  pub to_json : EncryptedData → Option Bytes
  pub from_json : Bytes → Option EncryptedData

-- The fields of a wallet that its encryption reads.
pub record WalletPaths : Type 0 where
  pub path : Text
  pub is_encrypted : Bool
  pub temp_db_path : Option Text

-- What the encryption changes: the files, the wallet's `passkey_encryption` and the platform's states.
pub record Drive (F R K : Type 0) : Type 0 where
  pub files : F
  pub passkey_encryption : Option PasskeyEncryption
  pub rng : R
  pub keyring : K

abbrev pub sqlite_magic : Bytes
sqlite_magic = as_bytes (codes "SQLite format 3\0")

abbrev pub or_wallet {ℓ} : {A : Type ℓ} → String → Option A → Result A
or_wallet message value = ok_or value (Error.wallet message)

unfoldable pub is_encrypted_bytes : Bytes → Bool
is_encrypted_bytes bytes =
    if ltb (length bytes) 16 then false else not (starts_with sqlite_magic bytes)

-- `map_err` with the error of another function: its text follows the new one.
abbrev pub map_wallet : {A : Type 0} → String → Result A → Result A
map_wallet message (ok a) = ok a
map_wallet message (err e) = err (Error.wallet message)

unfoldable pub decrypt_database : WalletPaths → Result (Unit {0})
decrypt_database w =
    if not w.is_encrypted
    then err (Error.wallet "Wallet is not encrypted")
    else opened w.temp_db_path
  where
    opened : Option Text → Result (Unit {0})
    opened (some temp_path) = ok tt
    opened none = err (Error.wallet "Database decryption must be done during wallet opening")

abbrev pub is_passkey_enabled : {F R K : Type 0} → Drive F R K → Bool
is_passkey_enabled d = is_some d.passkey_encryption
  where
    is_some : Option PasskeyEncryption → Bool
    is_some (some this) = true
    is_some none = false

module _ {F R E K : Type 0} (fs : Files F) (p : Platform R E K) where
  open fs use {exists, read, write, remove_file, file_name, with_extension, to_json, from_json}

  unfoldable pub is_database_encrypted : Text → F → Result Bool
  is_database_encrypted path files =
      if not (exists path files)
      then ok false
      else tested (or_wallet "Failed to read database file" (read path files))
    where
      tested : Result Bytes → Result Bool
      tested (ok bytes) = ok (is_encrypted_bytes bytes)
      tested (err e) = err e

  abbrev pub read_file : String → Text → Action (Drive F R K) Bytes
  read_file message path d = lift (or_wallet message (read path d.files)) d

  abbrev pub write_file : String → Text → Bytes → Action (Drive F R K) Unit
  write_file message path bytes d =
      let (r, files') = write path bytes d.files in
      (or_wallet message r, record d { files = files' })

  abbrev pub with_rng : {A : Type 0} → Action R A → Action (Drive F R K) A
  with_rng act d = let (r, rng') = act d.rng in (r, record d { rng = rng' })

  unfoldable pub encrypt_database_with_password : WalletPaths → Text → Action (Drive F R K) Unit
  encrypt_database_with_password w password = do
    db_bytes ← read_file "Failed to read database" w.path
    encrypted_data ← with_rng (encrypt_with_password p db_bytes password)
    encrypted_json ← lift (or_wallet "Failed to serialize encrypted data" (to_json encrypted_data))
    write_file "Failed to write encrypted database" w.path encrypted_json

  unfoldable pub decrypt_database_with_password : WalletPaths → Text → Action (Drive F R K) Unit
  decrypt_database_with_password w password = do
    encrypted_bytes ← read_file "Failed to read encrypted database" w.path
    encrypted_data ←
        lift (or_wallet "Invalid encrypted database format" (from_json encrypted_bytes))
    decrypted_bytes ←
        lift (
          map_wallet "Failed to decrypt database" (decrypt_with_password p encrypted_data password))
    write_file "Failed to write decrypted database" w.path decrypted_bytes

  -- A method of the wallet's `PasskeyEncryption`, under its lock.
  abbrev pub locked :
      {A : Type 0} → PasskeyEncryption → Action (Session R K) A → Action (Drive F R K) A
  locked this act d =
      let (r, s) = act (record { this = this; rng = d.rng; keyring = d.keyring }) in
      (r, record d { passkey_encryption = some s.this; rng = s.rng; keyring = s.keyring })

  -- A method of a `PasskeyEncryption` that the caller makes and drops.
  abbrev pub one_shot :
      {A : Type 0} → EncryptionConfig → Action (Session R K) A → Action (Drive F R K) A
  one_shot config act d =
      let (r, s) = act (record { this = new config; rng = d.rng; keyring = d.keyring }) in
      (r, record d { rng = s.rng; keyring = s.keyring })

  abbrev pub service_config : Text → EncryptionConfig
  service_config path = record default_config {
    service_name = codes "WalletEncryption_" ++ or_default (file_name path);
  }
    where
      or_default : Option Text → Text
      or_default none = codes "default"
      or_default (some name) = name

  unfoldable pub decrypt_database_for_runtime : Text → Action (Drive F R K) Text
  decrypt_database_for_runtime encrypted_path = do
    encrypted_bytes ← read_file "Failed to read encrypted database" encrypted_path
    encrypted_data ←
        lift (or_wallet "Invalid encrypted database format" (from_json encrypted_bytes))
    decrypted_bytes ← λ d.
        let (r, d') =
          one_shot (service_config encrypted_path) (decrypt_with_passkey p encrypted_data) d in
        (map_wallet "Failed to decrypt database" r, d')
    write_file "Failed to write decrypted database"
        (with_extension encrypted_path (codes "temp.db")) decrypted_bytes
    pure (with_extension encrypted_path (codes "temp.db"))

  unfoldable pub read_database : WalletPaths → Option Text → Action (Drive F R K) Bytes
  read_database w (some temp_path) = read_file "Failed to read temp database" temp_path
  read_database w none = read_file "Failed to read database" w.path

  unfoldable pub remove_temp : Option Text → Action (Drive F R K) Unit
  remove_temp none d = (ok tt, d)
  remove_temp (some temp_path) d = (ok tt, record d { files = remove_file temp_path d.files })

  unfoldable pub encrypt_held :
      Target → WalletPaths → Option PasskeyEncryption → Action (Drive F R K) Unit
  encrypt_held target w none = raise (Error.wallet "Passkey encryption not available")
  encrypt_held target w (some this) = do
    db_bytes ← read_database w w.temp_db_path
    encrypted_data ← locked this (encrypt_with_passkey p target db_bytes)
    encrypted_json ← lift (or_wallet "Failed to serialize encrypted data" (to_json encrypted_data))
    write_file "Failed to write encrypted database" w.path encrypted_json
    remove_temp w.temp_db_path

  unfoldable pub encrypt_database : Target → WalletPaths → Action (Drive F R K) Unit
  encrypt_database target w d =
      if not w.is_encrypted
      then raise (Error.wallet "Wallet is not configured for encryption") d
      else encrypt_held target w d.passkey_encryption d
