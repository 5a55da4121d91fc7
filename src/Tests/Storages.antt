-- ===== src/Tests/Storages.antt =====
-- Runs of the storage crate's backends (crates/storage/src), and the theorems about them there.
use webylib.Prelude.{
  ◌≡◌, refl, false, Option, none, some, List, [], ◌∷◌, String, arith, if◌then◌else◌,
}
use webylib.Prelude.Int.{pos}
use webylib.Prelude.Text.{codes, beq}
use webylib.Prelude.Assoc.{insert}
use webylib.Storage.{StoreError, backend, sql_err, Reply, fine, failed}
use webylib.Storage.Mem.{default_state, mem_ops}
use webylib.Storage.Sqlite
use webylib.Storage.Sqlite.{Database, sqlite_ops, sqlite_atomic, run_commit}
use webylib.Storage.Calls
use webylib.Storage.Calls.{Call, run_calls}
use webylib.Storage.Atomic.{idle, run_steps, run_calls-KeepsTransaction, sqlite_atomic-stuck}
use webylib.Storage.Legacy.{legacy_of, legacy_calls, Agree}
use webylib.Storage.Legacy.Agreement.{run_calls-legacy}
use webylib.Storage.Legacy.Clearing.{Alike, run_calls-clearing}
use webylib.Storage.Legacy.Tables.{willing, run_calls-tables}

-- An insert, and a second one of the same hash.
abbrev twice : List Call
twice =
    Calls.insert_output (1 ∷ []) (codes "a") (pos 5)
    ∷ Calls.mark_spent (1 ∷ [])
    ∷ Calls.insert_output (1 ∷ []) (codes "b") (pos 6)
    ∷ []

abbrev once : List Call
once = Calls.insert_output (1 ∷ []) (codes "a") (pos 5) ∷ Calls.set_depth (codes "PAY") 3 ∷ []

-- An engine that refuses every COMMIT.
abbrev busy : String → String → Database → Option String
busy stage sql db = if beq (codes sql) (codes "COMMIT") then some "database is locked" else none

abbrev undone : Reply (Unit {0}) × Database
undone = sqlite_atomic willing [] (run_calls twice) (idle willing [] default_state)

abbrev error_of : Reply (Unit {0}) → StoreError
error_of (failed e) = e
error_of (fine a) = backend "no error"

-- A COMMIT that is refused leaves the transaction open, with the changes.
abbrev begun_state : Database
begun_state = record { tables = default_state; saved = some default_state }

abbrev left_open : Reply (Unit {0}) × Database
left_open = run_calls once (sqlite_ops busy []) begun_state

body_runs : run_calls once (sqlite_ops busy []) begun_state ≡ (fine tt, left_open.1)
unfolding run_calls Sqlite.insert_output beq insert
body_runs = refl

begins : busy "execute" "BEGIN" (idle busy [] default_state) ≡ none
unfolding beq
begins = refl

commit_refused : busy "execute" "COMMIT" left_open.1 ≡ some "database is locked"
unfolding beq
commit_refused = refl

sqlite_atomic-stuck_example :
    (sqlite_atomic busy [] (run_calls once) (idle busy [] default_state)
      ≡ (failed (sql_err "commit" "database is locked"), left_open.1))
    × (run_steps busy [] (run_calls twice ∷ run_calls once ∷ []) left_open.1
        ≡ (false ∷ false ∷ [], left_open.1))
sqlite_atomic-stuck_example =
    sqlite_atomic-stuck busy [] (run_calls once) default_state left_open.1
      (run_calls-KeepsTransaction busy [] once) begins body_runs commit_refused
      (run_calls twice ∷ run_calls once ∷ [])

run_calls-legacy_example :
    Agree (run_calls twice mem_ops default_state) (legacy_calls twice (legacy_of default_state))
run_calls-legacy_example = run_calls-legacy twice default_state (tt, (tt, (tt, tt))) tt

-- A depth, everything cleared, and an insert.
abbrev cleared : List Call
cleared =
    Calls.set_depth (codes "PAY") 3
    ∷ Calls.clear_all
    ∷ Calls.insert_output (1 ∷ []) (codes "a") (pos 5)
    ∷ []

run_calls-clearing_example :
    Alike (run_calls cleared mem_ops default_state) (legacy_calls cleared (legacy_of default_state))
run_calls-clearing_example =
    run_calls-clearing cleared default_state (legacy_of default_state) tt refl

-- The two stores differ in the depths afterwards.
abbrev depth_cleared : List Call
depth_cleared = Calls.set_depth (codes "PAY") 3 ∷ Calls.clear_all ∷ []

depths_differ :
    ((run_calls depth_cleared mem_ops default_state).1.depths ≡ [])
    × ((legacy_calls depth_cleared (legacy_of default_state)).1.depths ≡ (codes "PAY", 3) ∷ [])
unfolding run_calls legacy_calls insert
depths_differ = (refl, refl)

run_calls-tables_example :
    let (r, db) = run_calls once (sqlite_ops willing []) (idle willing [] default_state) in
    Agree (r, db.tables) (legacy_calls once (legacy_of default_state))
run_calls-tables_example =
    run_calls-tables [] once (idle willing [] default_state) (tt, (tt, tt)) (omega arith, tt) tt
