-- ===== src/Tests/Snapshots.antt =====
-- A snapshot and a backup (src/wallet/snapshot.rs) of a small wallet, what a recovery of it stores
-- (`Wallet::recover`, src/wallet/operations.rs), and the theorems about them there.
use webylib.Prelude.{ℕ, ◌≡◌, refl, some, [], ◌∷◌, ◌<◌, arith}
use webylib.Prelude.Int.{pos, saturate, ◌+ℤ◌}
use webylib.Prelude.Text.{Text, codes, beq, as_bytes, contains}
use webylib.Prelude.Assoc.{lookup, insert}
use webylib.Fault.{Result, ok, err}
use webylib.Amount.{add_assign}
use webylib.Crypto.{Bytes, receive, as_str}
use webylib.Store.State
use webylib.Store.State.{
  MemState, mark_first, unspent, sort_desc, insert_sorted, knows_spent, sum_amounts,
}
use webylib.Store.Mem.{mem_store, insert_output}
use webylib.Store.Laws.Backends.{mem_store-laws}
use webylib.Wallet.{World, master_secret_key, store_directly}
use webylib.Wallet.Sound.{IsSound}
use webylib.Wallet.Snapshot.{
  WalletSnapshot, WalletExport, or_empty, export_snapshot, import_snapshot, import_wallet_data,
}
use webylib.Wallet.Snapshot.RoundTrip.{DistinctKeys, import_snapshot-export_snapshot}
use webylib.Prelude.{String}
use webylib.Store.{Store}
use webylib.Store.Sqlite.{sqlite_store}
use webylib.Recovery.{RecoveryReport}
use webylib.Wallet.Recover.{
  RecoveryResult, last_used, is_duplicate, store_recovered, advance_depths, persist,
}
use webylib.Wallet.Recover.Depths.{persist-depths}
use webylib.Tests.Hex.{plain_crypto-laws}
use webylib.Tests.Wallets.{env, start, start-IsSound}

-- The small wallet, with a hash that is known as spent and a depth.
abbrev held : World MemState (Unit {0})
held = record start {
  disk = record (start.disk) {
    spent_hashes = (1 ∷ 2 ∷ [], []) ∷ [];
    depths = (codes "RECEIVE", 7) ∷ (codes "PAY", 0) ∷ [];
  };
}

abbrev taken : Result WalletSnapshot × World MemState (Unit {0})
taken = export_snapshot mem_store env held

abbrev snapshot_of : Result WalletSnapshot → WalletSnapshot
snapshot_of (ok s) = s
snapshot_of (err e) = record {
  master_secret = [];
  unspent_outputs = [];
  spent_hashes = [];
  depths = [];
}

taken_ok : export_snapshot mem_store env held ≡ (ok (snapshot_of taken.0), taken.1)
unfolding export_snapshot lookup
taken_ok = refl

keys : DistinctKeys held.disk.depths
unfolding lookup beq
keys = (refl, (refl, tt))

import_snapshot-export_snapshot_example :
    (v' : World MemState (Unit {0})) × (import_snapshot mem_store env (snapshot_of taken.0) start
      ≡ (ok tt, v'))
    × (State.get_unspent v'.disk ≡ State.get_unspent held.disk)
    × ((h : Bytes) → knows_spent h v'.disk.spent_hashes ≡ knows_spent h held.disk.spent_hashes)
    × ((chain : Text) (d : ℕ)
        → lookup chain held.disk.depths ≡ some d
        → State.get_depth chain v'.disk ≡ d)
    × (State.get_meta master_secret_key v'.disk
        ≡ some (or_empty (State.get_meta master_secret_key held.disk)))
import_snapshot-export_snapshot_example =
    import_snapshot-export_snapshot env held start plain_crypto-laws
      (IsSound.distinct start-IsSound) (IsSound.hashed start-IsSound)
      ((omega arith, (omega arith, tt)), tt) keys (omega arith, (omega arith, tt))
      (snapshot_of taken.0) taken_ok

-- A backup in which the only output is spent.
abbrev backup : WalletExport
backup = record {
  version = codes "1.0";
  metadata = [];
  outputs = (codes "a", pos 5, [], 1) ∷ [];
  spent_hashes = [];
  exported_at = [];
}

abbrev carries_out : String → MemState → Result (Unit {0})
carries_out sql s = ok tt

abbrev database : Store MemState
database = sqlite_store carries_out (codes "2025")

abbrev imported : Result (Unit {0}) × World MemState (Unit {0})
imported = import_wallet_data database env backup start

-- A report of one output that the wallet has and one that it has not.
abbrev report : RecoveryReport
report = record {
  recovered =
      record {
        secret_hex = codes "a";
        hash = [];
        amount_wats = some (pos 5);
        chain = receive;
        depth = 3;
      }
      ∷ record {
        secret_hex = codes "z";
        hash = [];
        amount_wats = some (pos 9);
        chain = receive;
        depth = 4;
      }
      ∷ [];
  last_used_depth = (receive, 4) ∷ [];
}

abbrev persisted : Result RecoveryResult × World MemState (Unit {0})
persisted = persist mem_store env report start

abbrev result_of : Result RecoveryResult → RecoveryResult
result_of (ok r) = r
result_of (err e) = record { recovered_count = 0; total_amount = record { wats = pos 0 } }

persisted_ok : persist mem_store env report start ≡ (ok (result_of persisted.0), persisted.1)
unfolding persist store_recovered advance_depths last_used is_duplicate store_directly insert_output
    as_bytes beq add_assign saturate ◌+ℤ◌ lookup insert as_str contains
persisted_ok = refl

count_runs : RecoveryResult.recovered_count (result_of persisted.0) ≡ 1
unfolding persist store_recovered advance_depths last_used is_duplicate store_directly insert_output
    as_bytes beq add_assign saturate ◌+ℤ◌ lookup insert as_str contains
count_runs = refl

last_known : last_used receive report.last_used_depth ≡ some 4
unfolding last_used
last_known = refl

persist-depths_example : 4 < State.get_depth (as_str receive) persisted.1.disk
persist-depths_example =
    persist-depths mem_store-laws env report start persisted.1 persisted_ok receive 4 last_known
      (omega arith)
