-- ===== src/Store/Sqlite.antt =====
-- `SqliteStore` (src/wallet/store.rs) over the tables of src/wallet/schema.rs: the same data as in
-- `MemState`, with the rows in the order of their ids. Each method is what its SQL statement asks
-- for. `engine` is the database engine: whether it carries out a statement, named by its beginning,
-- on these tables at all; `now` is the text of CURRENT_TIMESTAMP. Rows of one amount come in the
-- order of their ids, which the ORDER BY of `get_unspent` leaves to the engine.
use webylib.Prelude.{
  true, false, not, ◌&&◌, List, [], ◌∷◌, ◌++◌, map, length, String, if◌then◌else◌,
}
use webylib.Prelude.Int.{ℤ, in_i64}
use webylib.Prelude.Text.{Text, beq}
use webylib.Fault.{Error, Result, ok, err, with_context}
use webylib.Crypto.{Bytes}
use webylib.Store.{Ops, Store}
use webylib.Store.Monad.{Action, gets, modify, raise, lift, ◌>>◌}
use webylib.Store.State
use webylib.Store.State.{MemState, MemOutput, has_hash, knows_spent, unspent, sum_amounts}

-- "UPDATE unspent_outputs SET spent = 1 WHERE secret_hash = ?1": every row with the hash.
unfoldable pub set_spent : Bytes → List MemOutput → List MemOutput
set_spent h = map (λ o. if beq o.secret_hash h then record o { spent = true } else o)

-- "UPDATE unspent_outputs SET amount = ?1 WHERE secret_hash = ?2 AND spent = 0"
unfoldable pub set_amount : Bytes → ℤ → List MemOutput → List MemOutput
set_amount h amount =
    map (λ o. if beq o.secret_hash h && not o.spent then record o { amount = amount } else o)

module _ (engine : String → MemState → Result (Unit {0})) (now : Text) where
  -- A statement that reads, and one that writes and may break no constraint.
  abbrev pub read : {A : Type 0} → String → (MemState → A) → Action MemState A
  read sql f s = (do lift (engine sql s); gets f) s

  abbrev pub write : String → (MemState → MemState) → Action MemState Unit
  write sql f s = (do lift (engine sql s); modify f) s

  -- The column `secret_hash` is UNIQUE.
  unfoldable pub insert_row : Bytes → Text → ℤ → Action MemState Unit
  insert_row h secret amount s =
      if has_hash h s.outputs
      then raise (Error.database "UNIQUE constraint failed: unspent_outputs.secret_hash") s
      else write "INSERT INTO unspent_outputs"
          (λ t. record t {
            outputs =
                t.outputs
                ++ record {
                  secret_hash = h;
                  secret = secret;
                  amount = amount;
                  created_at = now;
                  spent = false;
                }
                  ∷ [];
          })
          s

  -- SQLite's SUM fails where an integer sum overflows.
  unfoldable pub sum_rows : Action MemState ℤ
  sum_rows s =
      let total = sum_amounts (unspent s.outputs) in
      if in_i64 total
      then read "SELECT COALESCE(SUM(amount), 0)" (λ _. total) s
      else raise (Error.database "integer overflow") s

  -- Three statements: where one is refused, what the others before it did is kept.
  unfoldable pub delete_all : Action MemState Unit
  delete_all = do
    write "DELETE FROM wallet_metadata" (λ s. record s { meta = [] })
    write "DELETE FROM unspent_outputs" (λ s. record s { outputs = [] })
    write "DELETE FROM spent_hashes" (λ s. record s { spent_hashes = [] })

  abbrev pub sqlite_ops : Ops MemState
  sqlite_ops = record {
    get_meta = λ key. read "SELECT value FROM wallet_metadata" (State.get_meta key);
    set_meta =
        λ key value. write "INSERT OR REPLACE INTO wallet_metadata" (State.set_meta key value);
    insert_output = insert_row;
    mark_spent = λ h.
        write "UPDATE unspent_outputs SET spent = 1"
          (λ s. record s { outputs = set_spent h s.outputs });
    insert_spent_hash = λ h. write "INSERT OR IGNORE INTO spent_hashes" (λ s.
        if knows_spent h s.spent_hashes
        then s
        else record s { spent_hashes = s.spent_hashes ++ (h, now) ∷ [] });
    get_unspent = read "SELECT secret, amount FROM unspent_outputs" State.get_unspent;
    get_all_outputs =
        read "SELECT secret, amount, created_at, spent FROM unspent_outputs" State.get_all_outputs;
    count_outputs = read "SELECT COUNT(*) FROM unspent_outputs" (λ s. length s.outputs);
    count_unspent =
        read "SELECT COUNT(*) FROM unspent_outputs WHERE spent = 0"
          (λ s. length (unspent s.outputs));
    count_spent_hashes = read "SELECT COUNT(*) FROM spent_hashes" (λ s. length s.spent_hashes);
    sum_unspent = sum_rows;
    update_output_amount = λ h amount.
        write "UPDATE unspent_outputs SET amount"
          (λ s. record s { outputs = set_amount h amount s.outputs });
    get_depth = λ chain. read "SELECT depth FROM walletdepths" (State.get_depth chain);
    set_depth = λ chain depth. write "INSERT INTO walletdepths" (State.set_depth chain depth);
    get_all_depths = read "SELECT chain_code, depth FROM walletdepths" (λ s. s.depths);
    get_all_meta = read "SELECT key, value FROM wallet_metadata" (λ s. s.meta);
    get_spent_hashes_with_time =
        read "SELECT hash, spent_at FROM spent_hashes" (λ s. s.spent_hashes);
    get_unspent_full =
        read "SELECT secret, amount, created_at FROM unspent_outputs" State.get_unspent_full;
    clear_all = delete_all;
  }

  -- `SqliteTxStore` has the same statements, run inside the transaction.
  abbrev pub tx_ops : Ops MemState
  tx_ops = sqlite_ops

  -- A transaction that is dropped without its commit is rolled back, and an error of the rollback is
  -- ignored: then the changes of the body stay, in the transaction that is still open.
  abbrev pub dropped : MemState → MemState → Result (Unit {0}) → MemState
  dropped s s' (ok _) = s
  dropped s s' (err e) = s'

  abbrev pub committed : MemState → MemState → Result (Unit {0}) → Result (Unit {0}) × MemState
  committed s s' (ok _) = (ok tt, s')
  committed s s' (err e) =
      (err (with_context "commit transaction" e), dropped s s' (engine "ROLLBACK" s'))

  abbrev pub finish : MemState → Result (Unit {0}) × MemState → Result (Unit {0}) × MemState
  finish s (err e, s') = (err e, dropped s s' (engine "ROLLBACK" s'))
  finish s (ok _, s') = committed s s' (engine "COMMIT" s')

  abbrev pub begun :
      (Ops MemState → Action MemState Unit)
      → MemState
      → Result (Unit {0})
      → Result (Unit {0}) × MemState
  begun f s (ok _) = finish s (f tx_ops s)
  begun f s (err e) = (err (with_context "begin transaction" e), s)

  unfoldable pub sqlite_atomic : (Ops MemState → Action MemState Unit) → Action MemState Unit
  sqlite_atomic f s = begun f s (engine "BEGIN" s)

  abbrev pub sqlite_store : Store MemState
  sqlite_store = record { ops = sqlite_ops; atomic = sqlite_atomic }
