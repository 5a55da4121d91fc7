-- ===== src/Passkey/RoundTrip.antt =====
-- Round trips of src/passkey.rs: under a password, and under a key of the key store.
use webylib.Prelude.{◌≡◌, refl, sym, ap, subst, ◌∙◌, ◌⊎◌, inl, inr, some}
use webylib.Prelude.Text.{Text, as_bytes, beq_self}
use webylib.Fault.{Result, ok}
use webylib.Crypto.{Bytes}
use webylib.Store.Monad.{lift, bind-ok}
use webylib.Passkey.{
  Platform, PasskeyEncryption, EncryptionConfig, EncryptedData, Session, Target, new, or_crypto,
  on_rng, random, retrieve_passkey_key, get_or_create_passkey_key, authenticate,
  authenticate_and_get_key, derive_encryption_key, passkey_algorithm, password_algorithm,
  encrypt_with_password, decrypt_with_password, encrypt_with_passkey, decrypt_with_passkey,
}
use webylib.Passkey.Laws.{PlatformLaws, result-ok, state-ok, lift-ok, on_rng-ok}
use webylib.Passkey.KeyStore.{
  HasKey, IsKept, IsRefused, get_or_create_passkey_key-ok, retrieve_passkey_key-HasKey,
}

ok-injective : {A : Type 0} {a b : A} → ok a ≡ ok b → a ≡ b
ok-injective e = cc

module _ {R E K : Type 0} (p : Platform R E K) (laws : PlatformLaws p) where
  -- What decryption reads in a container.
  abbrev IsOpened : EncryptedData → Bytes → Bytes → Type 0
  IsOpened d key plaintext = Platform.aes_decrypt p key d.nonce d.ciphertext ≡ some plaintext

  encrypt_with_password-ok :
      (plaintext : Bytes) (password : Text) (rng : R) {d : EncryptedData} {rng' : R}
      → encrypt_with_password p plaintext password rng ≡ (ok d, rng')
      → (key : Bytes) × (d.algorithm ≡ password_algorithm)
        × (Platform.argon2 p (as_bytes password) d.salt ≡ some key)
        × IsOpened d key plaintext
  unfolding encrypt_with_password
  encrypt_with_password-ok plaintext password rng {d} h =
      let (salt, r2, e1, h1) = bind-ok (random p 32 _) _ rng h in
      let (key, r3, e2, h2) =
        bind-ok (lift (or_crypto _ (Platform.argon2 p (as_bytes password) salt))) _ r2 h1 in
      let (nonce, r4, e3, h3) = bind-ok (random p 12 _) _ r3 h2 in
      let (c, r5, e4, h4) =
        bind-ok (lift (or_crypto _ (Platform.aes_encrypt p key nonce plaintext))) _ r4 h3 in
      let derived = (lift-ok _ (Platform.argon2 p (as_bytes password) salt) r2 e2).0 in
      let sealed = (lift-ok _ (Platform.aes_encrypt p key nonce plaintext) r4 e4).0 in
      subst
        (λ d.
          (key : Bytes) × (d.algorithm ≡ password_algorithm)
          × (Platform.argon2 p (as_bytes password) d.salt ≡ some key)
          × IsOpened d key plaintext)
        (ok-injective (result-ok h4))
        (key, refl, derived, PlatformLaws.decrypt-encrypt laws key nonce plaintext sealed)

  -- Where a text is encrypted under a password, decryption under the password gives the text.
  pub decrypt_with_password-encrypt_with_password :
      (plaintext : Bytes) (password : Text) (rng : R) {d : EncryptedData} {rng' : R}
      → encrypt_with_password p plaintext password rng ≡ (ok d, rng')
      → decrypt_with_password p d password ≡ ok plaintext
  unfolding decrypt_with_password
  decrypt_with_password-encrypt_with_password plaintext password rng h =
      let (key, named, derived, opened) = encrypt_with_password-ok plaintext password rng h in
      rw (named, beq_self password_algorithm, derived, opened) refl

  kept_key :
      (s s2 : Session R K) {master : Bytes} {s3 : Session R K}
      → IsKept p s
      → s.this ≡ s2.this
      → s.keyring ≡ s2.keyring
      → get_or_create_passkey_key p s2 ≡ (ok master, s3)
      → HasKey p s.this.config master s3.keyring
  kept_key s s2 {master} {s3} kept e1 e2 h =
      let kept2 : IsKept p s2 = λ key c.
        subst (HasKey p s2.this.config key) e2
          (subst (λ (t : PasskeyEncryption). HasKey p t.config key s.keyring) e1 (kept key cc)) in
      subst (λ (t : PasskeyEncryption). HasKey p t.config master s3.keyring) (sym e1)
        (get_or_create_passkey_key-ok p laws s2 kept2 h).0

  -- Behind the master key: the cipher's key, a nonce, and the container.
  sealed :
      (master key plaintext : Bytes) (config : EncryptionConfig) (d0 : EncryptedData)
      {s3 s4 s5 s6 s' : Session R K} {d : EncryptedData}
      → HasKey p config master s3.keyring
      → lift (derive_encryption_key p master d0.salt) s3 ≡ (ok key, s4)
      → s4.keyring ≡ s5.keyring
      → lift (or_crypto "Encryption failed" (Platform.aes_encrypt p key d0.nonce plaintext)) s5
        ≡ (ok d0.ciphertext, s6)
      → ◌≡◌ {A = Result EncryptedData × Session R K} (ok d0, s6) (ok d, s')
      → d0.algorithm ≡ passkey_algorithm
      → (master : Bytes) × (key : Bytes) × (d.algorithm ≡ passkey_algorithm)
        × (derive_encryption_key p master d.salt ≡ ok key)
        × IsOpened d key plaintext
        × HasKey p config master s'.keyring
  sealed master key plaintext config d0 {s3} {s4} {s5} {s6} {s'} has e3 e4 e5 h named =
      let (encrypted, e6) = lift-ok _ (Platform.aes_encrypt p key d0.nonce plaintext) s5 e5 in
      let k3 : s3.keyring ≡ s4.keyring = ap (λ (t : Session R K). t.keyring) (state-ok e3) in
      let k6 : s5.keyring ≡ s6.keyring = ap (λ (t : Session R K). t.keyring) e6 in
      let k : s6.keyring ≡ s'.keyring = ap (λ (t : Session R K). t.keyring) (state-ok h) in
      subst
        (λ d.
          (master : Bytes) × (key : Bytes) × (d.algorithm ≡ passkey_algorithm)
          × (derive_encryption_key p master d.salt ≡ ok key)
          × IsOpened d key plaintext
          × HasKey p config master s'.keyring)
        (ok-injective (result-ok h))
        (
          master,
          key,
          named,
          result-ok e3,
          PlatformLaws.decrypt-encrypt laws key d0.nonce plaintext encrypted,
          subst (HasKey p config master) (k3 ∙ e4 ∙ k6 ∙ k) has,
        )

  encrypt_with_passkey-ok :
      (target : Target) (plaintext : Bytes) (s : Session R K) {d : EncryptedData} {s' : Session R K}
      → IsKept p s
      → encrypt_with_passkey p target plaintext s ≡ (ok d, s')
      → (master : Bytes) × (key : Bytes) × (d.algorithm ≡ passkey_algorithm)
        × (derive_encryption_key p master d.salt ≡ ok key)
        × IsOpened d key plaintext
        × HasKey p s.this.config master s'.keyring
  unfolding encrypt_with_passkey
  encrypt_with_passkey-ok target plaintext s kept h =
      let (salt, s2, e1, h1) = bind-ok (on_rng (random p 32 _)) _ s h in
      let (master, s3, e2, h2) = bind-ok (get_or_create_passkey_key p) _ s2 h1 in
      let (key, s4, e3, h3) = bind-ok (lift (derive_encryption_key p master salt)) _ s3 h2 in
      let (nonce, s5, e4, h4) = bind-ok (on_rng (random p 12 _)) _ s4 h3 in
      let (c, s6, e5, h5) =
        bind-ok (lift (or_crypto _ (Platform.aes_encrypt p key nonce plaintext))) _ s5 h4 in
      let (_, this, keyring) = on_rng-ok (random p 32 _) s e1 in
      let (_, _, keyring') = on_rng-ok (random p 12 _) s4 e4 in
      sealed master key plaintext s.this.config _ (kept_key s s2 kept this keyring e2) e3 keyring'
        e5 h5 refl

  -- Where a session whose cached key is in the key store has encrypted a text, a new instance with
  -- the same configuration decrypts it later to the text, unless the key store, unchanged since,
  -- refuses to give out its entry.
  pub decrypt_with_passkey-encrypt_with_passkey :
      (target : Target) (plaintext : Bytes) (s : Session R K) {d : EncryptedData} {s' : Session R K}
      → IsKept p s
      → encrypt_with_passkey p target plaintext s ≡ (ok d, s')
      → (rng : R)
      → IsRefused p s.this.config s'.keyring
        ⊎ ((decrypt_with_passkey p d
              (record { this = new s.this.config; rng = rng; keyring = s'.keyring })).0
            ≡ ok plaintext)
  unfolding decrypt_with_passkey authenticate_and_get_key authenticate
  decrypt_with_passkey-encrypt_with_passkey target plaintext s {d} {s'} kept h rng =
      let (master, key, named, derived, opened, has) =
        encrypt_with_passkey-ok target plaintext s kept h in
      elim (retrieve_passkey_key-HasKey p fresh has) [
        | inl refused ↦ inl refused
        | inr read ↦ inr (opens master key named derived opened read)
      ]
    where
      fresh : Session R K
      fresh = record { this = new s.this.config; rng = rng; keyring = s'.keyring }

      opens :
          (master key : Bytes)
          → d.algorithm ≡ passkey_algorithm
          → derive_encryption_key p master d.salt ≡ ok key
          → IsOpened d key plaintext
          → (retrieve_passkey_key p fresh).0 ≡ ok master
          → (decrypt_with_passkey p d fresh).0 ≡ ok plaintext
      opens master key named derived opened read =
          rw (named, beq_self passkey_algorithm, read, derived, opened) refl
