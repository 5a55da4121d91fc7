-- ===== src/Storage/Sqlite.antt =====
-- `SqliteStore` (crates/storage/src/sqlite.rs). `engine` is the database engine: the error with
-- which it refuses a statement at a stage ("execute", "prepare", "query", "collect"), if it does;
-- `now` is the text of CURRENT_TIMESTAMP. The rows are in the order of their ids. A poisoned lock is
-- not modelled.
use webylib.Prelude.{
  false, Option, none, some, List, [], ◌∷◌, ◌++◌, String, map, length, if◌then◌else◌,
}
use webylib.Prelude.Int.{ℤ, in_i64, as_i64, as_u64_of}
use webylib.Prelude.Text.{Text, codes, contains}
use webylib.Prelude.Assoc.{lookup, insert}
use webylib.Crypto.{Bytes}
use webylib.Storage.{
  StoreError, constraint, sql_err, Reply, fine, failed, Act, MemState, SpentHashEntry, Ops, Store,
}
use webylib.Storage.Mem.{
  has_entry, mark_entries, reprice_entries, unspent_entries, sum_entries, knows_hash, get_unspent,
}
use webylib.Store.State.{or_zero}

-- The tables, and what a rollback goes back to while a transaction is open.
pub record Database : Type 0 where
  pub tables : MemState
  pub saved : Option MemState

-- A UNIQUE violation is told from the other errors of an INSERT by its message.
abbrev pub insert_err : String → StoreError
insert_err e =
    if contains (codes "UNIQUE") (codes e) then constraint e else sql_err "insert_output" e

module _ (engine : String → String → Database → Option String) (now : Text) where
  abbrev pub stage :
      {A : Type 0} → Option String → (String → StoreError) → Act Database A → Act Database A
  stage (some e) wrap m db = (failed (wrap e), db)
  stage none wrap m db = m db

  -- `conn.execute` of a statement that changes the tables, with the method's `map_err`.
  abbrev pub execute : String → (String → StoreError) → (MemState → MemState) → Act Database Unit
  execute sql wrap f db =
      stage (engine "execute" sql db) wrap (λ d. (fine tt, record d { tables = f d.tables })) db

  -- `query_row`
  abbrev pub query_row : {A : Type 0} → String → String → (MemState → A) → Act Database A
  query_row sql prefix f db =
      stage (engine "query" sql db) (sql_err prefix) (λ d. (fine (f d.tables), d)) db

  -- `prepare`, `query_map` and `collect`
  abbrev pub query_map : {A : Type 0} → String → (MemState → A) → Act Database A
  query_map sql f db =
      stage (engine "prepare" sql db) (sql_err "prepare")
        (stage (engine "query" sql db) (sql_err "query")
          (stage (engine "collect" sql db) (sql_err "collect") (λ d. (fine (f d.tables), d))))
        db

  abbrev pub append_row : Bytes → Text → ℤ → MemState → MemState
  append_row h secret amount t = record t {
    unspent =
        t.unspent
        ++ record {
          secret_hash = h;
          secret = secret;
          amount = amount;
          created_at = now;
          spent = false;
        }
          ∷ [];
  }

  -- The column `secret_hash` is UNIQUE.
  unfoldable pub insert_output : Bytes → Text → ℤ → Act Database Unit
  insert_output h secret amount db =
      if has_entry h db.tables.unspent
      then (failed (insert_err "UNIQUE constraint failed: unspent_outputs.secret_hash"), db)
      else execute "INSERT INTO unspent_outputs" insert_err (append_row h secret amount) db

  -- INSERT OR IGNORE
  unfoldable pub add_spent_hash : Bytes → List SpentHashEntry → List SpentHashEntry
  add_spent_hash h known =
      if knows_hash h known then known else known ++ record { hash = h; spent_at = now } ∷ []

  -- SQLite's SUM fails where an integer sum overflows.
  unfoldable pub sum_unspent : Act Database ℤ
  sum_unspent db =
      let total = sum_entries (unspent_entries db.tables.unspent) in
      if in_i64 total
      then query_row "SELECT SUM(amount) FROM unspent_outputs" "sum_unspent" (λ _. total) db
      else (failed (sql_err "sum_unspent" "integer overflow"), db)

  abbrev pub and_then :
      Reply (Unit {0}) × Database → Act Database Unit → Reply (Unit {0}) × Database
  and_then (fine _, db) m = m db
  and_then (failed e, db) m = (failed e, db)

  -- Four statements: where one is refused, what the others before it did is kept.
  unfoldable pub clear_all : Act Database Unit
  clear_all db =
      and_then
        (and_then
          (and_then
            (execute "DELETE FROM wallet_metadata" (sql_err "clear_all")
              (λ t. record t { meta = [] }) db)
            (execute "DELETE FROM unspent_outputs" (sql_err "clear_all")
              (λ t. record t { unspent = [] })))
          (execute "DELETE FROM spent_hashes" (sql_err "clear_all")
            (λ t. record t { spent_hashes = [] })))
        (execute "DELETE FROM walletdepths" (sql_err "clear_all") (λ t. record t { depths = [] }))

  abbrev pub sqlite_ops : Ops Database
  sqlite_ops = record {
    get_meta =
        λ key. query_row "SELECT value FROM wallet_metadata" "get_meta" (λ t. lookup key t.meta);
    set_meta = λ key value.
        execute "INSERT OR REPLACE INTO wallet_metadata" (sql_err "set_meta")
          (λ t. record t { meta = insert key value t.meta });
    get_all_meta = query_map "SELECT key, value FROM wallet_metadata" (λ t. t.meta);
    insert_output = insert_output;
    mark_spent = λ h.
        execute "UPDATE unspent_outputs SET spent = 1" (sql_err "mark_spent")
          (λ t. record t { unspent = mark_entries h t.unspent });
    insert_spent_hash = λ h.
        execute "INSERT OR IGNORE INTO spent_hashes" (sql_err "insert_spent_hash")
          (λ t. record t { spent_hashes = add_spent_hash h t.spent_hashes });
    update_output_amount = λ h amount.
        execute "UPDATE unspent_outputs SET amount" (sql_err "update_output_amount")
          (λ t. record t { unspent = reprice_entries h amount t.unspent });
    get_unspent = query_map "SELECT secret, amount FROM unspent_outputs" get_unspent;
    get_unspent_full =
        query_map "SELECT secret, amount, created_at FROM unspent_outputs"
          (λ t. map (λ e. (e.secret, e.amount, e.created_at)) (unspent_entries t.unspent));
    get_all_outputs =
        query_map "SELECT secret, amount, created_at, spent FROM unspent_outputs"
          (λ t. map (λ e. (e.secret, e.amount, e.created_at, if e.spent then 1 else 0)) t.unspent);
    get_spent_hashes_with_time =
        query_map "SELECT hash, spent_at FROM spent_hashes"
          (λ t. map (λ e. (e.hash, e.spent_at)) t.spent_hashes);
    count_outputs =
        query_row "SELECT COUNT(*) FROM unspent_outputs" "count_outputs" (λ t. length t.unspent);
    count_unspent =
        query_row "SELECT COUNT(*) FROM unspent_outputs WHERE spent = 0" "count_unspent"
          (λ t. length (unspent_entries t.unspent));
    count_spent_hashes =
        query_row "SELECT COUNT(*) FROM spent_hashes" "count_spent_hashes"
          (λ t. length t.spent_hashes);
    sum_unspent = sum_unspent;
    get_depth = λ chain.
        query_row "SELECT depth FROM walletdepths" "get_depth"
          (λ t. or_zero (lookup chain t.depths));
    set_depth = λ chain depth.
        execute "INSERT INTO walletdepths" (sql_err "set_depth")
          (λ t. record t { depths = insert chain (as_u64_of (as_i64 depth)) t.depths });
    get_all_depths = query_map "SELECT chain_code, depth FROM walletdepths" (λ t. t.depths);
    clear_all = clear_all;
  }

  -- A transaction in a transaction is refused.
  abbrev pub open_transaction : Option MemState → Act Database Unit
  open_transaction none db = (fine tt, record db { saved = some db.tables })
  open_transaction (some t) db =
      (failed (sql_err "begin" "cannot start a transaction within a transaction"), db)

  unfoldable pub run_begin : Act Database Unit
  run_begin db =
      stage (engine "execute" "BEGIN" db) (sql_err "begin") (open_transaction db.saved) db

  unfoldable pub run_commit : Act Database Unit
  run_commit db =
      stage (engine "execute" "COMMIT" db) (sql_err "commit")
        (λ d. (fine tt, record d { saved = none })) db

  abbrev pub or_else_tables : Option MemState → MemState → MemState
  or_else_tables none t = t
  or_else_tables (some s) t = s

  unfoldable pub run_rollback : Act Database Unit
  run_rollback db =
      stage (engine "execute" "ROLLBACK" db) (sql_err "rollback")
        (λ d. (fine tt, record { tables = or_else_tables d.saved d.tables; saved = none })) db

  abbrev pub then_result :
      Reply (Unit {0}) → Reply (Unit {0}) × Database → Reply (Unit {0}) × Database
  then_result r (fine _, db) = (r, db)
  then_result r (failed e, db) = (failed e, db)

  -- COMMIT or ROLLBACK, by the body's result; their own error comes first.
  abbrev pub end_transaction : Reply (Unit {0}) × Database → Reply (Unit {0}) × Database
  end_transaction (fine _, db) = then_result (fine tt) (run_commit db)
  end_transaction (failed e, db) = then_result (failed e) (run_rollback db)

  abbrev pub begun :
      (Ops Database → Act Database Unit) → Reply (Unit {0}) × Database → Reply (Unit {0}) × Database
  begun f (failed e, db) = (failed e, db)
  begun f (fine _, db) = end_transaction (f sqlite_ops db)

  unfoldable pub sqlite_atomic : (Ops Database → Act Database Unit) → Act Database Unit
  sqlite_atomic f db = begun f (run_begin db)

  abbrev pub sqlite_store : Store Database
  sqlite_store = record { ops = sqlite_ops; atomic = sqlite_atomic }
