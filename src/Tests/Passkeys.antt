-- ===== src/Tests/Passkeys.antt =====
-- A small platform and disk for src/passkey.rs and src/wallet/encryption.rs, and the theorems there.
-- The cipher keeps the first byte of the key in front of the text, and a text's JSON is a list of
-- fields that each end at a 0.
use webylib.Prelude.{
  ℕ, zero, suc, ◌≡◌, refl, sym, ap, subst, drop, ◌⊎◌, inr, Bool, true, false, Option, none, some,
  [], ◌∷◌, ◌++◌, ◌==◌, All, length, length-replicate, replicate, arith, if◌then◌else◌,
}
use webylib.Prelude.Text.{Text, codes, as_bytes, beq}
use webylib.Fault.{Error, Result, ok, err}
use webylib.Crypto.{Bytes, IsByte}
use webylib.Passkey.{
  Platform, KdfParams, EncryptedData, Session, linux, default_config, new, random,
  encrypt_with_password, decrypt_with_password, encrypt_with_passkey, decrypt_with_passkey,
  get_or_create_passkey_key, get_or_create, retrieve_passkey_key, cache_or_create,
  create_passkey_key, store_passkey_key, derive_encryption_key, get_platform_name,
  get_available_passkey_type, passkey_algorithm, passkey_kdf,
}
use webylib.Passkey.Laws.{PlatformLaws}
use webylib.Passkey.KeyStore.{HasKey, IsRefused}
use webylib.Passkey.RoundTrip.{decrypt_with_passkey-encrypt_with_passkey}
use webylib.Passkey.Database.{
  Files, WalletPaths, Drive, is_database_encrypted, encrypt_database_with_password,
  decrypt_database_with_password,
}
use webylib.Passkey.Database.RoundTrip.{
  FilesLaws, decrypt_database_with_password-encrypt_database_with_password,
}

abbrev first : Bytes → ℕ
first [] = 0
first (b ∷ bs) = b

abbrev unseal : Bytes → Bytes → Bytes → Option Bytes
unseal key nonce [] = none
unseal key nonce (b ∷ bs) = if b == first key then some bs else none

abbrev platform : Platform ℕ Unit (Option Text)
platform = record {
  getrandom = λ n rng. (some (replicate n 7), suc rng);
  as_secs = λ rng. codes "1700000000";
  argon2 = λ password salt. some (length password ∷ salt);
  hkdf = λ salt key info. some (key ++ salt);
  aes_encrypt = λ key nonce plaintext. some (first key ∷ plaintext);
  aes_decrypt = unseal;
  base64_encode = λ bytes. bytes;
  base64_decode = λ text. some text;
  entry = λ service app. some tt;
  set_password = λ e text k. (some tt, some text);
  get_password = λ e k. (k, k);
}

replicate-IsByte : (n : ℕ) → All IsByte (replicate n 7)
replicate-IsByte zero = tt
replicate-IsByte (suc n) = (omega arith, replicate-IsByte n)

some-injective : {A : Type 0} {a b : A} → some a ≡ some b → a ≡ b
some-injective e = cc

drawn : (n : ℕ) {bytes : Bytes} → replicate n 7 ≡ bytes → (length bytes ≡ n) × All IsByte bytes
drawn n e =
    subst (λ bytes. (length bytes ≡ n) × All IsByte bytes) e
      (length-replicate n 7, replicate-IsByte n)

unseal-sealed :
    (key nonce plaintext : Bytes) {c : Bytes}
    → some (first key ∷ plaintext) ≡ some c
    → unseal key nonce c ≡ some plaintext
unseal-sealed key nonce plaintext e =
    subst (λ c. unseal key nonce c ≡ some plaintext) (some-injective e)
      (rw (==-self (first key)) refl)
  where
    ==-self : (n : ℕ) → (n == n) ≡ true
    ==-self n = ground arith

platform-laws : PlatformLaws platform
platform-laws = record {
  getrandom-length = λ n rng e. drawn n (some-injective e);
  decrypt-encrypt = unseal-sealed;
  decode-encode = λ bytes _. refl;
  get-set = λ e text k _. inr refl;
  get-get = λ e k h. inr h;
}

-- A field is a text with 1 added to each number, and a 0.
abbrev put : Text → Bytes → Bytes
put [] rest = 0 ∷ rest
put (c ∷ s) rest = suc c ∷ put s rest

abbrev get : Bytes → Text × Bytes
get [] = ([], [])
get (zero ∷ rest) = ([], rest)
get (suc c ∷ rest) = let (s, left) = get rest in (c ∷ s, left)

get-put : (s : Text) (rest : Bytes) → get (put s rest) ≡ (s, rest)
get-put [] rest = refl
get-put (c ∷ s) rest = rw (get-put s rest) refl

abbrev optional : Option Text → Text
optional none = []
optional (some s) = 1 ∷ s

abbrev from_optional : Text → Option Text
from_optional [] = none
from_optional (c ∷ s) = some s

from_optional-optional : (o : Option Text) → from_optional (optional o) ≡ o
from_optional-optional none = refl
from_optional-optional (some s) = refl

abbrev print : EncryptedData → Bytes
print d = put d.ciphertext (
    put d.nonce (
      put d.salt (
        put d.algorithm (
          put d.kdf_params.info (
            put (d.kdf_params.iterations ∷ d.kdf_params.memory_cost ∷ d.kdf_params.parallelism ∷ [])
              (put d.metadata.encrypted_at (
                put d.metadata.platform
                  (put d.metadata.version (put (optional d.metadata.passkey_type) [])))))))))

abbrev costs : Text → Text → KdfParams
costs info (i ∷ m ∷ n ∷ _) = record {
  info = info;
  iterations = i;
  memory_cost = m;
  parallelism = n;
}
costs info _ = record { info = info; iterations = 0; memory_cost = 0; parallelism = 0 }

abbrev read_back : Bytes → EncryptedData
read_back s0 =
    let (ciphertext, s1) = get s0 in
    let (nonce, s2) = get s1 in
    let (salt, s3) = get s2 in
    let (algorithm, s4) = get s3 in
    let (info, s5) = get s4 in
    let (numbers, s6) = get s5 in
    let (encrypted_at, s7) = get s6 in
    let (target, s8) = get s7 in
    let (version, s9) = get s8 in
    record {
      ciphertext = ciphertext;
      nonce = nonce;
      salt = salt;
      algorithm = algorithm;
      kdf_params = costs info numbers;
      metadata = record {
        encrypted_at = encrypted_at;
        platform = target;
        version = version;
        passkey_type = from_optional (get s9).0;
      };
    }

read_back-print : (d : EncryptedData) → read_back (print d) ≡ d
read_back-print d = simp (get-put, from_optional-optional)

-- A disk of one file.
abbrev files : Files (Option Bytes)
files = record {
  exists = λ path f. is_some f;
  read = λ path f. f;
  write = λ path bytes f. (some tt, some bytes);
  remove_file = λ path f. none;
  file_name = λ path. some path;
  with_extension = λ path extension. path ++ extension;
  to_json = λ d. some (b'{' ∷ (replicate 15 0 ++ print d));
  from_json = λ bytes. some (read_back (drop 16 bytes));
}
  where
    is_some : Option Bytes → Bool
    is_some (some bytes) = true
    is_some none = false

parsed :
    (d : EncryptedData) {json : Bytes}
    → some (b'{' ∷ (replicate 15 0 ++ print d)) ≡ some json
    → some (read_back (drop 16 json)) ≡ some d
parsed d e =
    subst (λ json. some (read_back (drop 16 json)) ≡ some d) (some-injective e)
      (ap some (read_back-print d))

files-laws : FilesLaws files
files-laws = record {
  read-write = λ path bytes f _. refl;
  exists-write = λ path bytes f _. refl;
  from_json-to_json = λ d e. parsed d e;
  to_json-object = λ d e. (replicate 15 0 ++ print d, sym (some-injective e), omega arith);
}

abbrev wallet : WalletPaths
wallet = record { path = codes "wallet.db"; is_encrypted = false; temp_db_path = none }

abbrev database : Bytes
database = as_bytes (codes "SQLite format 3")

abbrev drive : Drive (Option Bytes) ℕ (Option Text)
drive = record { files = some database; passkey_encryption = none; rng = 0; keyring = none }

abbrev hidden : Result (Unit {0}) × Drive (Option Bytes) ℕ (Option Text)
hidden = encrypt_database_with_password files platform wallet (codes "pw") drive

hidden_ok :
    encrypt_database_with_password files platform wallet (codes "pw") drive ≡ (ok tt, hidden.1)
unfolding encrypt_database_with_password encrypt_with_password random as_bytes
hidden_ok = refl

-- With another password the file is not decrypted.
other_password :
    (decrypt_database_with_password files platform wallet (codes "p") hidden.1).0
    ≡ err (Error.wallet "Failed to decrypt database")
unfolding encrypt_database_with_password encrypt_with_password random as_bytes
    decrypt_database_with_password decrypt_with_password beq
other_password = refl

decrypt_database_with_password-encrypt_database_with_password_example :
    (is_database_encrypted files platform wallet.path hidden.1.files ≡ ok true)
    × ((decrypt_database_with_password files platform wallet (codes "pw") hidden.1).0 ≡ ok tt)
    × (Files.read files wallet.path
          (decrypt_database_with_password files platform wallet (codes "pw") hidden.1).1.files
        ≡ some database)
decrypt_database_with_password-encrypt_database_with_password_example =
    decrypt_database_with_password-encrypt_database_with_password files platform files-laws
      platform-laws wallet (codes "pw") drive refl hidden_ok refl

abbrev session : Session ℕ (Option Text)
session = record { this = new default_config; rng = 0; keyring = none }

abbrev sealed : Result EncryptedData × Session ℕ (Option Text)
sealed = encrypt_with_passkey platform linux database session

abbrev container : EncryptedData
container = record {
  ciphertext = 7 ∷ database;
  nonce = replicate 12 7;
  salt = replicate 32 7;
  algorithm = passkey_algorithm;
  kdf_params = passkey_kdf;
  metadata = record {
    encrypted_at = codes "1700000000";
    platform = codes "linux";
    version = codes "1.0";
    passkey_type = some (codes "Linux Secret Service (GNOME Keyring / KDE Wallet)");
  };
}

sealed_ok : encrypt_with_passkey platform linux database session ≡ (ok container, sealed.1)
unfolding encrypt_with_passkey get_or_create_passkey_key get_or_create retrieve_passkey_key
    cache_or_create create_passkey_key store_passkey_key derive_encryption_key random as_bytes
    get_platform_name get_available_passkey_type
sealed_ok = refl

nothing_cached :
    (key : Bytes)
    → session.this.cached_key ≡ some key
    → HasKey platform session.this.config key session.keyring
nothing_cached key e = cc

decrypt_with_passkey-encrypt_with_passkey_example :
    IsRefused platform default_config sealed.1.keyring
    ⊎ ((decrypt_with_passkey platform container
          (record { this = new default_config; rng = 0; keyring = sealed.1.keyring })).0
        ≡ ok database)
decrypt_with_passkey-encrypt_with_passkey_example =
    decrypt_with_passkey-encrypt_with_passkey platform platform-laws linux database session
      nothing_cached sealed_ok 0
