-- ===== src/Wasm/Snapshot.antt =====
-- Snapshots of the browser's wallet (`wallet_export_snapshot` and `wallet_import_snapshot`,
-- crates/webylib-wasm/src/wallet.rs), as the records that `serde` reads and writes.
use webylib.Prelude.{ℕ, none, some, List, [], map}
use webylib.Prelude.Int.{ℤ}
use webylib.Prelude.Text.{Text, codes}
use webylib.Prelude.Assoc.{Assoc}
use webylib.Wallet.{Env}
use webylib.Wasm.State.{Output, WalletState, WalletResult, unspent}
use webylib.Wasm.Replace.{new_output}

pub record SnapshotOutput : Type 0 where
  pub secret : Text
  pub amount : ℤ
  pub created_at : Text

pub record SnapshotSpent : Type 0 where
  pub hash : Text
  pub spent_at : Text

pub record Snapshot : Type 0 where
  pub master_secret : Text
  pub unspent_outputs : List SnapshotOutput
  pub spent_hashes : List SnapshotSpent
  pub depths : Assoc ℕ

abbrev pub output_snapshot : Output → SnapshotOutput
output_snapshot o = record { secret = o.secret; amount = o.amount; created_at = o.created_at }

abbrev pub spent_snapshot : Text → SnapshotSpent
spent_snapshot h = record { hash = h; spent_at = [] }

unfoldable pub wallet_export_snapshot : WalletState → Snapshot
wallet_export_snapshot s = record {
  master_secret = s.master_secret;
  unspent_outputs = map output_snapshot (unspent s.outputs);
  spent_hashes = map spent_snapshot s.spent_hashes;
  depths = s.depths;
}

module _ (env : Env) where
  abbrev pub restored_output : SnapshotOutput → Output
  restored_output o = new_output env o.secret o.amount o.created_at

  abbrev pub restored : Snapshot → WalletState
  restored snapshot = record {
    master_secret = snapshot.master_secret;
    outputs = map restored_output snapshot.unspent_outputs;
    spent_hashes = map (λ e. e.hash) snapshot.spent_hashes;
    depths = snapshot.depths;
  }

  unfoldable pub wallet_import_snapshot : Snapshot → WalletResult
  wallet_import_snapshot snapshot = record {
    state = restored snapshot;
    effect = none;
    message = some (codes "Snapshot imported");
    error = none;
  }
