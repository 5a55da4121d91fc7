-- ===== src/Passkey/Database/RoundTrip.antt =====
-- The database file under a password (src/wallet/encryption.rs): encrypted and decrypted again.
use webylib.Prelude.{
  ◌≡◌, refl, sym, ap, ◌∙◌, true, Option, none, some, ◌∷◌, length, ◌≤◌, arith, String,
}
use webylib.Prelude.Text.{Text, as_bytes, starts_with}
use webylib.Fault.{Result, ok}
use webylib.Crypto.{Bytes}
use webylib.Store.Monad.{lift, bind-ok}
use webylib.Passkey.{Platform, EncryptedData, encrypt_with_password, decrypt_with_password}
use webylib.Passkey.Laws.{PlatformLaws, result-ok, state-ok}
use webylib.Passkey.RoundTrip.{decrypt_with_password-encrypt_with_password}
use webylib.Passkey.Database.{
  Files, WalletPaths, Drive, or_wallet, read_file, with_rng, is_encrypted_bytes,
  is_database_encrypted, encrypt_database_with_password, decrypt_database_with_password,
}

-- What is written is read back; `serde_json` reads back what it wrote, which is an object of six
-- named fields.
pub record FilesLaws {F : Type 0} (fs : Files F) : Type 0 where
  pub read-write :
      (path : Text) (bytes : Bytes) (files : F)
      → (Files.write fs path bytes files).0 ≡ some tt
      → Files.read fs path (Files.write fs path bytes files).1 ≡ some bytes
  pub exists-write :
      (path : Text) (bytes : Bytes) (files : F)
      → (Files.write fs path bytes files).0 ≡ some tt
      → Files.exists fs path (Files.write fs path bytes files).1 ≡ true
  pub from_json-to_json :
      (d : EncryptedData) {json : Bytes}
      → Files.to_json fs d ≡ some json
      → Files.from_json fs json ≡ some d
  pub to_json-object :
      (d : EncryptedData) {json : Bytes}
      → Files.to_json fs d ≡ some json
      → (rest : Bytes) × (json ≡ b'{' ∷ rest) × (15 ≤ length rest)

or_wallet-ok :
    {A : Type 0} (message : String) (value : Option A) {a : A}
    → or_wallet message value ≡ ok a
    → value ≡ some a
or_wallet-ok message none e = cc
or_wallet-ok message (some b) e = cc

some-injective : {A : Type 0} {a b : A} → some a ≡ some b → a ≡ b
some-injective e = cc

object-is_encrypted : (rest : Bytes) → 15 ≤ length rest → is_encrypted_bytes (b'{' ∷ rest) ≡ true
unfolding is_encrypted_bytes as_bytes starts_with
object-is_encrypted rest h = ground arith

module _ {F R E K : Type 0} (fs : Files F) (p : Platform R E K) (fl : FilesLaws fs)
    (laws : PlatformLaws p) where
  -- What an encryption did: the container that it wrote over the database.
  encrypt_database_with_password-ok :
      (w : WalletPaths) (password : Text) (d : Drive F R K) {d' : Drive F R K} {db : Bytes}
      → Files.read fs w.path d.files ≡ some db
      → encrypt_database_with_password fs p w password d ≡ (ok tt, d')
      → (encrypted : EncryptedData) × (json : Bytes) × (decrypt_with_password p encrypted password
          ≡ ok db)
        × (Files.to_json fs encrypted ≡ some json)
        × (Files.read fs w.path d'.files ≡ some json)
        × (Files.exists fs w.path d'.files ≡ true)
  unfolding encrypt_database_with_password
  encrypt_database_with_password-ok w password d {d'} {db} there h =
      let (bytes, d1, e1, h1) = bind-ok (read_file fs p _ w.path) _ d h in
      let (encrypted, d2, e2, h2) =
        bind-ok (with_rng fs p (encrypt_with_password p bytes password)) _ d1 h1 in
      let (json, d3, e3, h3) = bind-ok (lift (or_wallet _ (Files.to_json fs encrypted))) _ d2 h2 in
      let read = or_wallet-ok _ (Files.read fs w.path d.files) (result-ok e1) in
      let same : db ≡ bytes = some-injective (sym there ∙ read) in
      let sealed : encrypt_with_password p bytes password d1.rng ≡ (ok encrypted, d2.rng) =
        ap (λ (r : Result EncryptedData × Drive F R K). (r.0, r.1.rng)) e2 in
      let printed = or_wallet-ok _ (Files.to_json fs encrypted) (result-ok e3) in
      let written = or_wallet-ok _ (Files.write fs w.path json d3.files).0 (result-ok h3) in
      let left : (Files.write fs w.path json d3.files).1 ≡ d'.files =
        ap (λ (t : Drive F R K). t.files) (state-ok h3) in
      (
        encrypted,
        json,
        decrypt_with_password-encrypt_with_password p laws bytes password d1.rng sealed
            ∙ ap ok (sym same),
        printed,
        ap (Files.read fs w.path) (sym left) ∙ FilesLaws.read-write fl w.path json d3.files written,
        ap (Files.exists fs w.path) (sym left)
            ∙ FilesLaws.exists-write fl w.path json d3.files written,
      )

  -- Where a wallet's database has been encrypted under a password, the file counts as encrypted; and
  -- where it can be written again, decryption under the password brings the database back.
  pub decrypt_database_with_password-encrypt_database_with_password :
      (w : WalletPaths) (password : Text) (d : Drive F R K) {d' : Drive F R K} {db : Bytes}
      → Files.read fs w.path d.files ≡ some db
      → encrypt_database_with_password fs p w password d ≡ (ok tt, d')
      → (Files.write fs w.path db d'.files).0 ≡ some tt
      → (is_database_encrypted fs p w.path d'.files ≡ ok true)
        × ((decrypt_database_with_password fs p w password d').0 ≡ ok tt)
        × (Files.read fs w.path (decrypt_database_with_password fs p w password d').1.files
            ≡ some db)
  unfolding is_database_encrypted decrypt_database_with_password
  decrypt_database_with_password-encrypt_database_with_password w password d {d'} {db} there h
        free =
      let (encrypted, json, opened, printed, read, exists) =
        encrypt_database_with_password-ok w password d there h in
      let (rest, shape, long) = FilesLaws.to_json-object fl encrypted printed in
      let parsed = FilesLaws.from_json-to_json fl encrypted printed in
      let counted : is_encrypted_bytes json ≡ true = rw shape (object-is_encrypted rest long) in
      (
        rw (exists, read, counted) refl,
        rw (read, parsed, opened, free) refl,
        rw (read, parsed, opened) (FilesLaws.read-write fl w.path db d'.files free),
      )
