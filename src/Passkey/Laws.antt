-- ===== src/Passkey/Laws.antt =====
-- What src/passkey.rs relies on in the crates that it calls, and how its steps are undone when one
-- of them succeeds.
use webylib.Prelude.{ℕ, ◌≡◌, ap, ◌⊎◌, Option, none, some, All, length, String}
use webylib.Prelude.Text.{Text}
use webylib.Fault.{Result, ok}
use webylib.Crypto.{Bytes, IsByte}
use webylib.Store.Monad.{Action, lift}
use webylib.Passkey.{Platform, Session, or_crypto, on_rng, on_keyring, random}

-- A read of the entry is refused, or it gives the text.
abbrev pub MayRead : {R E K : Type 0} → Platform R E K → E → Text → K → Type 0
MayRead p e text k =
    ((Platform.get_password p e k).0 ≡ none) ⊎ ((Platform.get_password p e k).0 ≡ some text)

-- `getrandom` fills the bytes that were asked for, AES-GCM and base64 are undone, and an entry of
-- the key store gives the text that was stored or read last, unless it refuses to.
pub record PlatformLaws {R E K : Type 0} (p : Platform R E K) : Type 0 where
  pub getrandom-length :
      (n : ℕ) (rng : R) {bytes : Bytes}
      → (Platform.getrandom p n rng).0 ≡ some bytes
      → (length bytes ≡ n) × All IsByte bytes
  pub decrypt-encrypt :
      (key nonce plaintext : Bytes) {ciphertext : Bytes}
      → Platform.aes_encrypt p key nonce plaintext ≡ some ciphertext
      → Platform.aes_decrypt p key nonce ciphertext ≡ some plaintext
  pub decode-encode :
      (bytes : Bytes)
      → All IsByte bytes
      → Platform.base64_decode p (Platform.base64_encode p bytes) ≡ some bytes
  pub get-set :
      (e : E) (text : Text) (k : K)
      → (Platform.set_password p e text k).0 ≡ some tt
      → MayRead p e text (Platform.set_password p e text k).1
  pub get-get :
      (e : E) {text : Text} (k : K)
      → (Platform.get_password p e k).0 ≡ some text
      → MayRead p e text (Platform.get_password p e k).1

pub or_crypto-ok :
    {A : Type 0} (message : String) (value : Option A) {a : A}
    → or_crypto message value ≡ ok a
    → value ≡ some a
or_crypto-ok message none e = cc
or_crypto-ok message (some b) e = cc

module _ {S A : Type 0} where
  pub result-ok : {r r' : Result A} {s s' : S} → ◌≡◌ {A = Result A × S} (r, s) (r', s') → r ≡ r'
  result-ok h = ap (λ (q : Result A × S). q.0) h

  pub state-ok : {r r' : Result A} {s s' : S} → ◌≡◌ {A = Result A × S} (r, s) (r', s') → s ≡ s'
  state-ok h = ap (λ (q : Result A × S). q.1) h

  pub lift-ok :
      (message : String) (value : Option A) (s : S) {a : A} {s1 : S}
      → lift (or_crypto message value) s ≡ (ok a, s1)
      → (value ≡ some a) × (s ≡ s1)
  lift-ok message value s h = (or_crypto-ok message value (result-ok h), state-ok h)

module _ {R E K : Type 0} (p : Platform R E K) where
  pub random-ok :
      (n : ℕ) (message : String) (rng : R) {bytes : Bytes} {rng' : R}
      → random p n message rng ≡ (ok bytes, rng')
      → (Platform.getrandom p n rng).0 ≡ some bytes
  unfolding random
  random-ok n message rng h = or_crypto-ok message (Platform.getrandom p n rng).0 (result-ok h)

module _ {R K : Type 0} where
  -- A random number leaves the key store and the instance.
  pub on_rng-ok :
      {A : Type 0} (act : Action R A) (s : Session R K) {a : A} {s1 : Session R K}
      → on_rng act s ≡ (ok a, s1)
      → (act s.rng ≡ (ok a, s1.rng)) × (s.this ≡ s1.this) × (s.keyring ≡ s1.keyring)
  on_rng-ok act s h = (
    ap (λ (q : Result _ × Session R K). (q.0, q.1.rng)) h,
    ap (λ (t : Session R K). t.this) (state-ok h),
    ap (λ (t : Session R K). t.keyring) (state-ok h),
  )

  pub on_keyring-ok :
      {A : Type 0} (message : String) (act : K → Option A × K) (s : Session R K) {a : A}
      {s1 : Session R K}
      → on_keyring message act s ≡ (ok a, s1)
      → ((act s.keyring).0 ≡ some a) × (s.this ≡ s1.this) × ((act s.keyring).1 ≡ s1.keyring)
  on_keyring-ok message act s h = (
    or_crypto-ok message (act s.keyring).0 (result-ok h),
    ap (λ (t : Session R K). t.this) (state-ok h),
    ap (λ (t : Session R K). t.keyring) (state-ok h),
  )
