-- ===== src/Wallet/Open/Master.antt =====
-- The master secret that a wallet has, or generates (src/wallet/operations.rs), on a store that keeps the
-- laws of its interface.
use webylib.Prelude.{
  ◌≡◌, ◌≢◌, refl, sym, ap, subst, ◌∙◌, Bool, true, false, not, Bool-cases, inl, inr, some, none,
  List, [], ◌∷◌, Option, length, ltb, arith, if◌then◌else◌, ◌↔◌, String,
}
use webylib.Prelude.Text.{Text, beq_self}
use webylib.Prelude.Assoc.{lookup-insert}
use webylib.Fault.{Result, ok, err}
use webylib.Crypto.{Crypto, Bytes}
use webylib.Store.{Ops, Store}
use webylib.Store.Monad.{pure, bind-ok}
use webylib.Store.State
use webylib.Store.State.{MemState, MemOutput, sum_amounts, unspent}
use webylib.Store.Sqlite.{read}
use webylib.Store.Laws.{OpsLaws, StoreLaws}
use webylib.Wallet.Effects.{on_disk-ok, pure-ok, raise-ok}
use webylib.Wallet.{
  World, Env, on_disk, get_or_generate_master_secret, or_generate, generate, store_master_secret,
  master_secret_key,
}
use webylib.Wallet.Open.Reads.{ok-injective}

module _ {W : Type 0} {st : Store MemState} (laws : StoreLaws st) (env : Env) where
  abbrev pub Holds : Text → World MemState W → World MemState W → Type 0
  Holds hex w w' =
      (State.get_meta master_secret_key w'.disk ≡ some hex) × (w'.disk.outputs ≡ w.disk.outputs)

  pub store_master_secret-Holds :
      (hex : Text) (w : World MemState W) {w' : World MemState W}
      → store_master_secret st env hex w ≡ (ok tt, w')
      → Holds hex w w'
  unfolding store_master_secret
  store_master_secret-Holds hex w e =
      let (outputs, _, meta) =
        OpsLaws.set_meta laws.outer_laws master_secret_key hex w.disk
          (on_disk-ok (Ops.set_meta st.ops master_secret_key hex) w e).0 in
      (
        ap (webylib.Prelude.Assoc.lookup master_secret_key) meta
            ∙ lookup-insert master_secret_key master_secret_key hex w.disk.meta
            ∙ rw (beq_self master_secret_key) refl,
        outputs,
      )

  generate-Holds :
      (r : Result Bytes) (w : World MemState W) {hex : Text} {w' : World MemState W}
      → generate st env r w ≡ (ok hex, w')
      → Holds hex w w'
  unfolding generate store_master_secret
  generate-Holds (err x) w e = raise-ok _ w e
  generate-Holds (ok bytes) w {hex} {w'} e =
      let key = Crypto.hex_encode env.crypto bytes in
      let (_, w1, e1, e2) = bind-ok (store_master_secret st env key) (λ _. pure key) w e in
      let same : key ≡ hex = ok-injective (ap (λ (p : Result Text × World MemState W). p.0) e2) in
      subst (λ v. Holds hex w v) (sym (pure-ok key w1 e2))
        (subst (λ k. Holds k w w1) same (store_master_secret-Holds key w e1))

  or_generate-Holds :
      (found : Option Text) (w : World MemState W) {hex : Text} {w' : World MemState W}
      → State.get_meta master_secret_key w.disk ≡ found
      → or_generate st env found w ≡ (ok hex, w')
      → Holds hex w w'
  unfolding or_generate
  or_generate-Holds none w held e = generate-Holds env.generated w e
  or_generate-Holds (some secret) w {hex} held e =
      subst (λ v. Holds hex w v) (sym (pure-ok secret w e))
        (held ∙ ap some (ok-injective (ap (λ (p : Result Text × World MemState W). p.0) e)), refl)

  pub get_or_generate-Holds :
      (w : World MemState W) {hex : Text} {w' : World MemState W}
      → get_or_generate_master_secret st env w ≡ (ok hex, w')
      → Holds hex w w'
  unfolding get_or_generate_master_secret
  get_or_generate-Holds w {hex} {w'} e =
      let m = Ops.get_meta st.ops master_secret_key in
      let (found, w1, e1, e2) = bind-ok (on_disk m) (or_generate st env) w e in
      let (read, same) =
        OpsLaws.get_meta laws.outer_laws master_secret_key w.disk (on_disk-ok m w e1).0 in
      let (held, outputs) =
        or_generate-Holds found w1 (ap (State.get_meta master_secret_key) same ∙ sym read) e2 in
      (held, outputs ∙ ap (λ (s : MemState). s.outputs) same)
