-- ===== src/Wasm/Reach/Backup.antt =====
-- The round trip of a snapshot of the browser's wallet (crates/webylib-wasm/src/wallet.rs).
use webylib.Prelude.{
  ◌≡◌, refl, sym, ap, ◌∙◌, Bool, true, false, not, List, [], ◌∷◌, map, All, if◌then◌else◌,
}
use webylib.Prelude.Text.{Text}
use webylib.Wallet.{Env}
use webylib.Wasm.State.{Output, WalletState, WalletResult, unspent, secret_hash}
use webylib.Wasm.Snapshot.{
  SnapshotSpent, output_snapshot, spent_snapshot, wallet_export_snapshot, restored_output,
  wallet_import_snapshot,
}
use webylib.Wasm.Reach.{Reach}
use webylib.Wasm.Reach.Consistent.{IsKnown}
use webylib.Wasm.Reach.Steps.{Reach-IsConsistent}

hashes_restored :
    (hs : List Text) → map (λ (e : SnapshotSpent). e.hash) (map spent_snapshot hs) ≡ hs
hashes_restored [] = refl
hashes_restored (h ∷ hs) = ap (λ gs. h ∷ gs) (hashes_restored hs)

module _ (env : Env) where
  abbrev again : Output → Output
  again o = restored_output env (output_snapshot o)

  again-same :
      (o : Output) → o.public_hash ≡ secret_hash env o.secret → o.spent ≡ false → again o ≡ o
  again-same o h k = λ i. record o { public_hash = sym h i; spent = sym k i }

  cons_if :
      (o : Output) (b : Bool) (os : List Output)
      → (b ≡ true → again o ≡ o)
      → map (restored_output env) (map output_snapshot (if b then o ∷ os else os)) ≡ (
          if b
          then o ∷ map (restored_output env) (map output_snapshot os)
          else map (restored_output env) (map output_snapshot os))
  cons_if o true os h = ap (λ p. p ∷ map (restored_output env) (map output_snapshot os)) (h refl)
  cons_if o false os h = refl

  outputs_restored :
      (hs : List Text) (os : List Output)
      → All (IsKnown env hs) os
      → map (restored_output env) (map output_snapshot (unspent os)) ≡ unspent os
  unfolding unspent
  outputs_restored hs [] k = refl
  outputs_restored hs (o ∷ os) k =
      cons_if o (not o.spent) (unspent os) (λ there. again-same o k.0.hashed (unset o.spent there))
      ∙ ap (λ ps. if not o.spent then o ∷ ps else ps) (outputs_restored hs os k.1)
    where
      unset : (b : Bool) → not b ≡ true → b ≡ false
      unset true h = sym h
      unset false h = refl

  -- A snapshot of a state that the exported functions reach is imported as that state without its
  -- spent outputs: the same master secret, unspent outputs with their times, spent hashes and depths.
  pub wallet_import_snapshot-export :
      (s : WalletState)
      → Reach env s
      → WalletResult.state (wallet_import_snapshot env (wallet_export_snapshot s))
        ≡ record s { outputs = unspent s.outputs }
  unfolding wallet_import_snapshot wallet_export_snapshot
  wallet_import_snapshot-export s r i = record s {
    outputs = outputs_restored s.spent_hashes s.outputs (Reach-IsConsistent env s r) i;
    spent_hashes = hashes_restored s.spent_hashes i;
  }
