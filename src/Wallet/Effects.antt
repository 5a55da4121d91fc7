-- ===== src/Wallet/Effects.antt =====
-- What the steps of the wallet's operations (src/wallet/operations.rs) do to the outputs of a store
-- that keeps the laws of its interface.
use webylib.Prelude.{
  ◌≡◌, refl, subst, length, arith, sym, ap, ◌∙◌, Bool, true, false, ◌⊎◌, inl, inr, Option, none,
  some, if◌then◌else◌,
}
use webylib.Prelude.Text.{Text}
use webylib.Fault.{Error, Result, ok, err}
use webylib.Crypto.{Bytes, Crypto}
use webylib.Store.{Ops, Store}
use webylib.Store.Monad.{Action, bind-ok, raise, lift, pure}
use webylib.Store.State
use webylib.Store.State.{MemState}
use webylib.Store.Laws.{OpsLaws, StoreLaws}
use webylib.Wallet.{
  World, Env, on_disk, on_server, get_or_generate_master_secret, or_generate, generate, hd_wallet,
  validate_master_secret, check_length, master_secret_key,
}

module _ {S W A : Type 0} where
  -- A step on the store that succeeds, and one on the server.
  pub on_disk-ok :
      (m : Action S A) (w : World S W) {a : A} {w' : World S W}
      → on_disk m w ≡ (ok a, w')
      → (m w.disk ≡ (ok a, w'.disk)) × (w'.server ≡ w.server)
  on_disk-ok m w e =
      let disk = ap (λ (p : Result A × World S W). p.1.disk) e in
      let value = ap (λ (p : Result A × World S W). p.0) e in
      ((λ i. (value i, disk i)), ap (λ (p : Result A × World S W). p.1.server) (sym e))

  pub on_server-ok :
      (m : Action W A) (w : World S W) {a : A} {w' : World S W}
      → on_server m w ≡ (ok a, w')
      → (m w.server ≡ (ok a, w'.server)) × (w'.disk ≡ w.disk)
  on_server-ok m w e =
      let server = ap (λ (p : Result A × World S W). p.1.server) e in
      let value = ap (λ (p : Result A × World S W). p.0) e in
      ((λ i. (value i, server i)), ap (λ (p : Result A × World S W). p.1.disk) (sym e))

  pub pure-ok : (a : A) (w : World S W) {b : A} {w' : World S W} → pure a w ≡ (ok b, w') → w' ≡ w
  pure-ok a w e = ap (λ (p : Result A × World S W). p.1) (sym e)

  pub lift-ok :
      (r : Result A) (w : World S W) {b : A} {w' : World S W}
      → lift r w ≡ (ok b, w')
      → (r ≡ ok b) × (w' ≡ w)
  lift-ok r w e =
      (ap (λ (p : Result A × World S W). p.0) e, ap (λ (p : Result A × World S W). p.1) (sym e))

  pub raise-ok :
      {B : Type 0} (x : Error) (w : World S W) {b : A} {w' : World S W} → raise x w ≡ (ok b, w') → B
  raise-ok x w e = absurd (clash (ap (λ (p : Result A × World S W). p.0) e))
    where
      clash : {b : A} → err x ≡ ok b → ⊥
      clash e = cc

  -- A step behind a guard that raises.
  pub guarded-ok :
      (b : Bool) (x : Error) (m : Action (World S W) A) (w : World S W) {a : A} {w' : World S W}
      → (if b then raise x else m) w ≡ (ok a, w')
      → m w ≡ (ok a, w')
  guarded-ok true x m w e = raise-ok x w e
  guarded-ok false x m w e = e

  pub choice-ok :
      (b : Bool) (m k : Action (World S W) A) (w : World S W) {a : A} {w' : World S W}
      → (if b then m else k) w ≡ (ok a, w')
      → (m w ≡ (ok a, w')) ⊎ (k w ≡ (ok a, w'))
  choice-ok true m k w e = inl e
  choice-ok false m k w e = inr e

ok-injective : {A : Type 0} {a b : A} → ok a ≡ ok b → a ≡ b
ok-injective e = cc

check_length-ok :
    (bytes : Bytes) {master : Bytes}
    → check_length bytes ≡ ok master
    → (bytes ≡ master) × (length master ≡ 32)
unfolding check_length
check_length-ok bytes h = ground arith

module _ (env : Env) where
  -- The master secret of a wallet: 32 bytes in hexadecimal digits, which the store holds, or else the
  -- next output of the random generator.
  abbrev pub IsMaster : MemState → Bytes → Type 0
  IsMaster s master =
      (hex : Text) × ((State.get_meta master_secret_key s ≡ some hex)
        ⊎ ((State.get_meta master_secret_key s ≡ none)
            × (bytes : Bytes) × (env.generated ≡ ok bytes)
            × (hex ≡ Crypto.hex_encode env.crypto bytes)))
      × (Crypto.hex_decode env.crypto hex ≡ some master)
      × (length master ≡ 32)

  abbrev IsFrom : Option Text → Text → Type 0
  IsFrom found hex =
      (found ≡ some hex)
      ⊎ ((found ≡ none)
          × (bytes : Bytes) × (env.generated ≡ ok bytes)
          × (hex ≡ Crypto.hex_encode env.crypto bytes))

  validate-ok :
      (hex : Text) {master : Bytes}
      → validate_master_secret env hex ≡ ok master
      → (Crypto.hex_decode env.crypto hex ≡ some master) × (length master ≡ 32)
  unfolding validate_master_secret
  validate-ok hex {master} e = decoded (Crypto.hex_decode env.crypto hex) e
    where
      decoded :
          (o : Option Bytes)
          → elim o [
            | none ↦ err (Error.wallet "Invalid master secret format")
            | some bytes ↦ check_length bytes
          ]
            ≡ ok master
          → (o ≡ some master) × (length master ≡ 32)
      decoded none h = cc
      decoded (some bytes) h = let (same, size) = check_length-ok bytes h in (ap some same, size)

module _ {W : Type 0} {st : Store MemState} (laws : StoreLaws st) (env : Env) where
  -- Nothing but the metadata changes.
  abbrev Keeps : World MemState W → World MemState W → Type 0
  Keeps w w' = (w'.disk.outputs ≡ w.disk.outputs) × (w'.disk.depths ≡ w.disk.depths)

  same : (w : World MemState W) {w' : World MemState W} → w' ≡ w → Keeps w w'
  same w e = (
    ap (λ (v : World MemState W). v.disk.outputs) e,
    ap (λ (v : World MemState W). v.disk.depths) e,
  )

  same_disk : (w w' : World MemState W) → w'.disk ≡ w.disk → Keeps w w'
  same_disk w w' e = (ap (λ (s : MemState). s.outputs) e, ap (λ (s : MemState). s.depths) e)

  trans : (u v w : World MemState W) → Keeps u v → Keeps v w → Keeps u w
  trans u v w a b = (b.0 ∙ a.0, b.1 ∙ a.1)

  generate-Keeps :
      (r : Result Bytes) (w : World MemState W) {hex : Text} {w' : World MemState W}
      → generate st env r w ≡ (ok hex, w')
      → Keeps w w'
  unfolding generate
  generate-Keeps (err x) w e = raise-ok _ w e
  generate-Keeps (ok bytes) w {w' = w'} e =
      let m =
        on_disk (Ops.set_meta st.ops master_secret_key (Crypto.hex_encode env.crypto bytes)) in
      let (_, w1, e1, e2) = bind-ok m (λ _. pure (Crypto.hex_encode env.crypto bytes)) w e in
      let d =
        (on_disk-ok (Ops.set_meta st.ops master_secret_key (Crypto.hex_encode env.crypto bytes)) w
          e1).0 in
      let (outputs, depths, _) = OpsLaws.set_meta laws.outer_laws _ _ w.disk d in
      trans w w1 w' (outputs, depths) (same w1 (pure-ok (Crypto.hex_encode env.crypto bytes) w1 e2))

  or_generate-Keeps :
      (found : Option Text) (w : World MemState W) {hex : Text} {w' : World MemState W}
      → or_generate st env found w ≡ (ok hex, w')
      → Keeps w w'
  unfolding or_generate
  or_generate-Keeps (some secret) w e = same w (pure-ok secret w e)
  or_generate-Keeps none w e = generate-Keeps env.generated w e

  get_or_generate-Keeps :
      (w : World MemState W) {hex : Text} {w' : World MemState W}
      → get_or_generate_master_secret st env w ≡ (ok hex, w')
      → Keeps w w'
  unfolding get_or_generate_master_secret
  get_or_generate-Keeps w {w' = w'} e =
      let m = Ops.get_meta st.ops master_secret_key in
      let (found, w1, e1, e2) = bind-ok (on_disk m) (or_generate st env) w e in
      trans w w1 w'
        (same_disk w w1
          (OpsLaws.get_meta laws.outer_laws master_secret_key w.disk (on_disk-ok m w e1).0).1)
        (or_generate-Keeps found w1 e2)

  -- Reading the master secret, or making one, changes no output and no depth.
  pub hd_wallet-Keeps :
      (w : World MemState W) {master : Bytes} {w' : World MemState W}
      → hd_wallet st env w ≡ (ok master, w')
      → (w'.disk.outputs ≡ w.disk.outputs) × (w'.disk.depths ≡ w.disk.depths)
  unfolding hd_wallet
  hd_wallet-Keeps w {w' = w'} e =
      let (hex, w1, e1, e2) =
        bind-ok (get_or_generate_master_secret st env) (λ h. lift (validate_master_secret env h)) w
          e in
      trans w w1 w' (get_or_generate-Keeps w e1)
        (same w1 (lift-ok (validate_master_secret env hex) w1 e2).1)

  generate-IsFrom :
      (r : Result Bytes) (w : World MemState W) {hex : Text} {w' : World MemState W}
      → env.generated ≡ r
      → generate st env r w ≡ (ok hex, w')
      → IsFrom env none hex
  unfolding generate
  generate-IsFrom (err x) w g e = raise-ok _ w e
  generate-IsFrom (ok bytes) w g e =
      let hex' = Crypto.hex_encode env.crypto bytes in
      let m = on_disk (Ops.set_meta st.ops master_secret_key hex') in
      let (_, w1, e1, e2) = bind-ok m (λ _. pure hex') w e in
      inr (refl, bytes, g, sym (ok-injective (ap (λ (p : Result Text × World MemState W). p.0) e2)))

  or_generate-IsFrom :
      (found : Option Text) (w : World MemState W) {hex : Text} {w' : World MemState W}
      → or_generate st env found w ≡ (ok hex, w')
      → IsFrom env found hex
  unfolding or_generate
  or_generate-IsFrom (some secret) w e =
      inl (ap some (ok-injective (ap (λ (p : Result Text × World MemState W). p.0) e)))
  or_generate-IsFrom none w e = generate-IsFrom env.generated w refl e

  -- What the wallet derives from is its master secret.
  pub hd_wallet-IsMaster :
      (w : World MemState W) {master : Bytes} {w' : World MemState W}
      → hd_wallet st env w ≡ (ok master, w')
      → IsMaster env w.disk master
  unfolding hd_wallet get_or_generate_master_secret
  hd_wallet-IsMaster w e =
      let (hex, w1, e1, e2) =
        bind-ok (get_or_generate_master_secret st env) (λ h. lift (validate_master_secret env h)) w
          e in
      let m = Ops.get_meta st.ops master_secret_key in
      let (found, w2, e3, e4) = bind-ok (on_disk m) (or_generate st env) w e1 in
      let read =
        (OpsLaws.get_meta laws.outer_laws master_secret_key w.disk (on_disk-ok m w e3).0).0 in
      let (decoded, size) =
        validate-ok env hex (lift-ok (validate_master_secret env hex) w1 e2).0 in
      (hex, subst (λ o. IsFrom env o hex) read (or_generate-IsFrom found w2 e4), decoded, size)
