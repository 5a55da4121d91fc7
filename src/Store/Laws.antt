-- ===== src/Store/Laws.antt =====
-- What every backend of src/wallet/store.rs promises the wallet, as laws of the interface, and the
-- proofs that the backends keep them: a method that succeeds has had its effect on the outputs.
pub mod Outputs
pub mod Backends
pub mod Rows
use webylib.Prelude.{ℕ, ◌≡◌, ◌≢◌, Option, some, List, [], ◌∷◌, ◌++◌, All, false}
use webylib.Prelude.Int.{ℤ}
use webylib.Prelude.Text.{Text}
use webylib.Fault.{ok, err}
use webylib.Crypto.{Bytes}
use webylib.Store.{Ops, Store}
use webylib.Store.Monad.{Action}
use webylib.Store.State
use webylib.Store.State.{MemState, MemOutput, mark_first, reprice_first}

-- No two outputs are stored under one hash.
abbrev pub Distinct : List MemOutput → Type 0
Distinct [] = Unit
Distinct (o ∷ os) = All (λ (p : MemOutput). p.secret_hash ≢ o.secret_hash) os × Distinct os

-- The output is the one that `insert_output` was asked to add.
abbrev pub IsFresh : Bytes → Text → ℤ → MemOutput → Type 0
IsFresh h secret amount o =
    (o.secret_hash ≡ h) × (o.secret ≡ secret) × (o.amount ≡ amount) × (o.spent ≡ false)

pub record OpsLaws (ops : Ops MemState) : Type 0 where
  pub get_unspent :
      (s : MemState) {rows : List (Text × ℤ)} {s' : MemState}
      → Ops.get_unspent ops s ≡ (ok rows, s')
      → (rows ≡ State.get_unspent s) × (s' ≡ s)
  pub mark_spent :
      (h : Bytes) (s : MemState) {s' : MemState}
      → Distinct s.outputs
      → Ops.mark_spent ops h s ≡ (ok tt, s')
      → s'.outputs ≡ mark_first h s.outputs
  pub insert_spent_hash :
      (h : Bytes) (s : MemState) {s' : MemState}
      → Ops.insert_spent_hash ops h s ≡ (ok tt, s')
      → s'.outputs ≡ s.outputs
  pub insert_output :
      (h : Bytes) (secret : Text) (amount : ℤ) (s : MemState) {s' : MemState}
      → Ops.insert_output ops h secret amount s ≡ (ok tt, s')
      → (o : MemOutput) × IsFresh h secret amount o × (s'.outputs ≡ s.outputs ++ o ∷ [])
  pub get_depth :
      (chain : Text) (s : MemState) {n : ℕ} {s' : MemState}
      → Ops.get_depth ops chain s ≡ (ok n, s')
      → (n ≡ State.get_depth chain s) × (s' ≡ s)
  pub set_depth :
      (chain : Text) (n : ℕ) (s : MemState) {s' : MemState}
      → Ops.set_depth ops chain n s ≡ (ok tt, s')
      → (s'.outputs ≡ s.outputs) × (s'.depths ≡ (State.set_depth chain n s).depths)
  pub get_meta :
      (key : Text) (s : MemState) {v : Option Text} {s' : MemState}
      → Ops.get_meta ops key s ≡ (ok v, s')
      → (v ≡ State.get_meta key s) × (s' ≡ s)
  pub set_meta :
      (key value : Text) (s : MemState) {s' : MemState}
      → Ops.set_meta ops key value s ≡ (ok tt, s')
      → (s'.outputs ≡ s.outputs)
        × (s'.depths ≡ s.depths)
        × (s'.meta ≡ (State.set_meta key value s).meta)
  pub clear_all :
      (s : MemState) {s' : MemState} → Ops.clear_all ops s ≡ (ok tt, s') → s'.outputs ≡ []

-- `inner` are the methods that `atomic` hands to its body.
pub record StoreLaws (st : Store MemState) : Type 0 where
  pub outer_laws : OpsLaws st.ops
  pub inner : Ops MemState
  pub inner_laws : OpsLaws inner
  pub atomic_ok :
      (body : Ops MemState → Action MemState Unit) (s : MemState) {s' : MemState}
      → st.atomic body s ≡ (ok tt, s')
      → body inner s ≡ (ok tt, s')
