-- ===== src/Passkey/KeyStore.antt =====
-- The master key of src/passkey.rs: where a method returned it, the platform's key store holds it.
use webylib.Prelude.{
  ◌≡◌, refl, sym, ap, subst, ◌∙◌, ◌⊎◌, inl, inr, Option, none, some, length, arith,
}
use webylib.Prelude.Text.{Text}
use webylib.Fault.{Result, ok, err}
use webylib.Crypto.{Bytes}
use webylib.Store.Monad.{Action, lift, continue, bind-ok, ◌>>=◌}
use webylib.Passkey.{
  Platform, PasskeyEncryption, EncryptionConfig, Session, or_crypto, on_rng, on_keyring, random,
  entry_of, keyring_entry, store_passkey_key, key_of, retrieve_passkey_key, cache,
  create_passkey_key, cache_or_create, get_or_create, get_or_create_passkey_key,
}
use webylib.Passkey.Laws.{
  PlatformLaws, MayRead, result-ok, state-ok, lift-ok, random-ok, on_rng-ok, on_keyring-ok,
}

key_of-ok :
    (bytes : Bytes) {key : Bytes} → key_of bytes ≡ ok key → (bytes ≡ key) × (length key ≡ 32)
unfolding key_of
key_of-ok bytes {key} h = ground arith

module _ {R E K : Type 0} (p : Platform R E K) where
  -- The entry of the configuration gives the text of the key, or refuses to.
  abbrev pub HasKey : EncryptionConfig → Bytes → K → Type 0
  HasKey config key k =
      (e : E) × (text : Text) × (entry_of p config ≡ some e)
      × (Platform.base64_decode p text ≡ some key)
      × (length key ≡ 32)
      × MayRead p e text k

  -- Where a key is cached, the key store has it.
  abbrev pub IsKept : Session R K → Type 0
  IsKept s = (key : Bytes) → s.this.cached_key ≡ some key → HasKey s.this.config key s.keyring

  -- A refused read is the only way in which a key that the key store has is not given out.
  abbrev pub IsRefused : EncryptionConfig → K → Type 0
  IsRefused config k =
      (e : E) × (entry_of p config ≡ some e) × ((Platform.get_password p e k).0 ≡ none)

  pub retrieve_passkey_key-HasKey :
      (s : Session R K) {key : Bytes}
      → HasKey s.this.config key s.keyring
      → IsRefused s.this.config s.keyring ⊎ ((retrieve_passkey_key p s).0 ≡ ok key)
  unfolding retrieve_passkey_key key_of
  retrieve_passkey_key-HasKey s (e, text, found, decoded, fits, inl refused) =
      inl (e, found, refused)
  retrieve_passkey_key-HasKey s (e, text, found, decoded, fits, inr read) =
      inr (rw (found, read, decoded, fits) refl)

  abbrev Keeps : {A : Type 0} → Action (Session R K) A → Type 0
  Keeps act = (s : Session R K) → (act s).1.this ≡ s.this

  >>=-Keeps :
      {A B : Type 0} (m : Action (Session R K) A) (f : A → Action (Session R K) B)
      → Keeps m
      → ((a : A) → Keeps (f a))
      → Keeps (m >>= f)
  >>=-Keeps {A} m f h k s = continued (m s).0
    where
      continued : (r : Result A) → (continue r f (m s).1).1.this ≡ s.this
      continued (ok a) = k a (m s).1 ∙ h s
      continued (err e) = h s

  retrieve_passkey_key-this : Keeps (retrieve_passkey_key p)
  unfolding retrieve_passkey_key
  retrieve_passkey_key-this =
      >>=-Keeps (keyring_entry p) _ (λ s. refl)
        (λ e.
          >>=-Keeps (on_keyring _ (Platform.get_password p e)) _ (λ s. refl)
            (λ text.
              >>=-Keeps (lift (or_crypto _ (Platform.base64_decode p text))) _ (λ s. refl)
                (λ bytes s. refl)))

  keyring_entry-ok :
      (s : Session R K) {e : E} {s1 : Session R K}
      → keyring_entry p s ≡ (ok e, s1)
      → (entry_of p s.this.config ≡ some e) × (s ≡ s1)
  keyring_entry-ok s h = lift-ok "Passkey keyring init failed" (entry_of p s.this.config) s h

  module _ (laws : PlatformLaws p) where
    retrieved :
        {s s2 s3 s4 s1 : Session R K} {e : E} {text : Text} {bytes key : Bytes}
        → (entry_of p s.this.config ≡ some e) × (s ≡ s2)
        → ((Platform.get_password p e s2.keyring).0 ≡ some text)
          × (s2.this ≡ s3.this)
          × ((Platform.get_password p e s2.keyring).1 ≡ s3.keyring)
        → (Platform.base64_decode p text ≡ some bytes) × (s3 ≡ s4)
        → lift {S = Session R K} (key_of bytes) s4 ≡ (ok key, s1)
        → HasKey s.this.config key s1.keyring × (s.this ≡ s1.this)
    retrieved {s} {s2} {s3} {s4} {s1} {e} {text} {bytes} {key} (found, e1) (read, this, keyring)
          (decoded, e3) h =
        let (same, fits) = key_of-ok bytes (result-ok h) in
        let e4 = state-ok h in
        let k : (Platform.get_password p e s2.keyring).1 ≡ s1.keyring = cc in
        let k' : s.this ≡ s1.this = cc in
        let b : Platform.base64_decode p text ≡ some key = cc in
        (
          (
            e,
            text,
            found,
            b,
            fits,
            subst (MayRead p e text) k (PlatformLaws.get-get laws e s2.keyring read),
          ),
          k',
        )

    pub retrieve_passkey_key-ok :
        (s : Session R K) {key : Bytes} {s1 : Session R K}
        → retrieve_passkey_key p s ≡ (ok key, s1)
        → HasKey s.this.config key s1.keyring × (s.this ≡ s1.this)
    unfolding retrieve_passkey_key
    retrieve_passkey_key-ok s h =
        let (e, s2, e1, r1) = bind-ok (keyring_entry p) _ s h in
        let (text, s3, e2, r2) = bind-ok (on_keyring _ (Platform.get_password p e)) _ s2 r1 in
        let (bytes, s4, e3, r3) =
          bind-ok (lift (or_crypto _ (Platform.base64_decode p text))) _ s3 r2 in
        retrieved (keyring_entry-ok s e1) (on_keyring-ok _ (Platform.get_password p e) s2 e2)
          (lift-ok _ (Platform.base64_decode p text) s3 e3) r3

    store_passkey_key-ok :
        (key : Bytes) (s : Session R K) {s1 : Session R K}
        → store_passkey_key p key s ≡ (ok tt, s1)
        → (e : E) × (entry_of p s.this.config ≡ some e)
          × MayRead p e (Platform.base64_encode p key) s1.keyring
          × (s.this ≡ s1.this)
    unfolding store_passkey_key
    store_passkey_key-ok key s h =
        let text = Platform.base64_encode p key in
        let (e, s2, e1, r1) = bind-ok (keyring_entry p) _ s h in
        let (found, same) = keyring_entry-ok s e1 in
        let (stored, this, keyring) = on_keyring-ok _ (Platform.set_password p e text) s2 r1 in
        (
          e,
          found,
          subst (MayRead p e text) keyring (PlatformLaws.get-set laws e text s2.keyring stored),
          cc,
        )

    create_passkey_key-ok :
        (s : Session R K) {key : Bytes} {s1 : Session R K}
        → create_passkey_key p s ≡ (ok key, s1)
        → HasKey s.this.config key s1.keyring × (s.this.config ≡ s1.this.config)
    unfolding create_passkey_key
    create_passkey_key-ok s h =
        let (bytes, s2, e1, r1) = bind-ok (on_rng (random p 32 _)) _ s h in
        let (_, s3, e2, r2) = bind-ok (store_passkey_key p bytes) _ s2 r1 in
        created bytes s (on_rng-ok (random p 32 _) s e1) (store_passkey_key-ok bytes s2 e2) r2
      where
        created :
            (bytes : Bytes) (s : Session R K) {s2 s3 s1 : Session R K} {key : Bytes}
            → (random p 32 "Failed to generate master key" s.rng ≡ (ok bytes, s2.rng))
              × (s.this ≡ s2.this)
              × (s.keyring ≡ s2.keyring)
            → (e : E) × (entry_of p s2.this.config ≡ some e)
              × MayRead p e (Platform.base64_encode p bytes) s3.keyring
              × (s2.this ≡ s3.this)
            → cache bytes s3 ≡ (ok key, s1)
            → HasKey s.this.config key s1.keyring × (s.this.config ≡ s1.this.config)
        created bytes s {s2} {s3} {s1} {key} (drawn, e1, _) (e, found, may, e2) h =
            let text = Platform.base64_encode p bytes in
            let (size, are_bytes) =
              PlatformLaws.getrandom-length laws 32 s.rng (random-ok p 32 _ s.rng drawn) in
            let same : ok bytes ≡ ok key = result-ok h in
            let k : s3.keyring ≡ s1.keyring = ap (λ (t : Session R K). t.keyring) (state-ok h) in
            let c : s3.this.config ≡ s1.this.config =
              ap (λ (t : Session R K). t.this.config) (state-ok h) in
            let decoded = PlatformLaws.decode-encode laws bytes are_bytes in
            ((e, text, cc, cc, cc, subst (MayRead p e text) k may), cc)

    cache_or_create-ok :
        (r : Result Bytes) (s : Session R K) {key : Bytes} {s1 : Session R K}
        → ((k : Bytes) → r ≡ ok k → HasKey s.this.config k s.keyring)
        → cache_or_create p r s ≡ (ok key, s1)
        → HasKey s.this.config key s1.keyring × (s.this.config ≡ s1.this.config)
    unfolding cache_or_create
    cache_or_create-ok (ok k) s {key} {s1} has h =
        let same : ok k ≡ ok key = result-ok h in
        let e : s.keyring ≡ s1.keyring = ap (λ (t : Session R K). t.keyring) (state-ok h) in
        (
          subst (HasKey s.this.config key) e (has key same),
          ap (λ (t : Session R K). t.this.config) (state-ok h),
        )
    cache_or_create-ok (err x) s has h = create_passkey_key-ok s h

    -- What a method returned, the key store has under the same configuration.
    pub get_or_create_passkey_key-ok :
        (s : Session R K) {key : Bytes} {s1 : Session R K}
        → IsKept s
        → get_or_create_passkey_key p s ≡ (ok key, s1)
        → HasKey s.this.config key s1.keyring × (s.this.config ≡ s1.this.config)
    unfolding get_or_create_passkey_key get_or_create
    get_or_create_passkey_key-ok s kept h = held s.this.cached_key refl h
      where
        held :
            (cached : Option Bytes) {key : Bytes} {s1 : Session R K}
            → s.this.cached_key ≡ cached
            → get_or_create p cached s ≡ (ok key, s1)
            → HasKey s.this.config key s1.keyring × (s.this.config ≡ s1.this.config)
        held (some k) {key} {s1} e h =
            let same : ok k ≡ ok key = result-ok h in
            (
              subst (λ (t : Session R K). HasKey s.this.config key t.keyring) (state-ok h)
                  (kept key cc),
              ap (λ (t : Session R K). t.this.config) (state-ok h),
            )
        held none {key} {s1} e h =
            let s2 = (retrieve_passkey_key p s).1 in
            let e2 = ap (λ (t : PasskeyEncryption). t.config) (retrieve_passkey_key-this s) in
            let (has, e3) =
              cache_or_create-ok (retrieve_passkey_key p s).0 s2
                (λ k e4.
                  subst (λ c. HasKey c k s2.keyring) (sym e2)
                    (retrieve_passkey_key-ok s (ap (λ r. (r, s2)) e4)).0)
                h in
            (subst (λ c. HasKey c key s1.keyring) e2 has, sym e2 ∙ e3)
