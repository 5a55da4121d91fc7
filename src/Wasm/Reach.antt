-- ===== src/Wasm/Reach.antt =====
-- The states that the exported functions of the browser's wallet can reach
-- (crates/webylib-wasm/src/wallet.rs), as a step relation. JavaScript keeps the effects: one may be
-- applied to another state than the one that it was prepared from, late, twice or never.
pub mod Consistent
pub mod Steps
pub mod Backup
use webylib.Prelude.{ℕ, ◌≡◌, Bool, Option, some}
use webylib.Prelude.Int.{ℤ}
use webylib.Prelude.Text.{Text}
use webylib.Prelude.Assoc.{Assoc}
use webylib.Fault.{ok}
use webylib.Wallet.{Env}
use webylib.Wasm.State.{WalletState, WalletResult, Effect, wallet_create}
use webylib.Wasm.Replace.{
  wallet_prepare_insert, wallet_prepare_pay, wallet_prepare_merge, wallet_apply_replace,
}
use webylib.Wasm.Mining.{wallet_store_mined}
use webylib.Wasm.Recover.{RecoverBatch, RecoverResult, HealthEntry, wallet_apply_recover}
use webylib.Wasm.Snapshot.{Snapshot, wallet_import_snapshot}

module _ (env : Env) where
  -- An effect that was prepared from some state.
  pub data Offered (e : Effect) : Type 0 where
    insert :
        (s : WalletState) (webcash timestamp : Text) (r : WalletResult)
        → wallet_prepare_insert env s webcash timestamp ≡ ok r
        → r.effect ≡ some e
        → Offered e
    pay :
        (s : WalletState) (amount : ℤ) (timestamp : Text) (r : WalletResult)
        → wallet_prepare_pay env s amount timestamp ≡ ok r
        → r.effect ≡ some e
        → Offered e
    merge :
        (s : WalletState) (max_outputs : ℕ) (timestamp : Text) (r : WalletResult)
        → wallet_prepare_merge env s max_outputs timestamp ≡ ok r
        → r.effect ≡ some e
        → Offered e

  pub data Step (s u : WalletState) : Type 0 where
    replaced :
        (e : Effect) (success : Bool)
        → Offered e
        → u ≡ WalletResult.state (wallet_apply_replace env s e success)
        → Step s u
    mined :
        (secret : Text) (amount : ℤ) (timestamp : Text)
        → u ≡ WalletResult.state (wallet_store_mined env s secret amount timestamp)
        → Step s u
    recovered :
        (batch : RecoverBatch) (results : Assoc HealthEntry) (timestamp : Text)
        → u ≡ RecoverResult.state (wallet_apply_recover env s batch results timestamp)
        → Step s u

  pub data Reach : WalletState → Type 0 where
    created :
        {u : WalletState} (master : Option Text) (r : WalletResult)
        → wallet_create env master ≡ ok r
        → u ≡ r.state
        → Reach u
    imported :
        {u : WalletState} (snapshot : Snapshot)
        → u ≡ WalletResult.state (wallet_import_snapshot env snapshot)
        → Reach u
    next : {u : WalletState} (s : WalletState) → Reach s → Step s u → Reach u
