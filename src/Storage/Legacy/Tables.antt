-- ===== src/Storage/Legacy/Tables.antt =====
-- A sequence of changes to `SqliteStore` (crates/storage/src/sqlite.rs), on an engine that refuses no
-- statement, beside the same changes to the wallet's in-memory store (src/wallet/store.rs).
use webylib.Prelude.{
  ℕ, ◌≡◌, refl, ap, subst, Option, none, List, [], ◌∷◌, All, Bool-cases, inl, inr,
}
use webylib.Prelude.Int.{ℤ}
use webylib.Prelude.Text.{Text}
use webylib.Crypto.{Bytes}
use webylib.Fault.{Result, ok, err}
use webylib.Store.State
use webylib.Store.State.{
  MemOutput, mark_first, reprice_first, has_hash, knows_spent, push_output, fresh,
}
use webylib.Store.Monad.{Action}
use webylib.Store.Mem
use webylib.Storage.{Reply, fine, failed, Act, MemState}
use webylib.Storage.Mem.{has_entry, mark_entries, reprice_entries, knows_hash}
use webylib.Storage.Calls
use webylib.Storage.Calls.{Call, KeepsDepths, run_call, run_calls, proceed}
use webylib.Storage.Legacy.{legacy_spent, legacy_of, legacy_calls, legacy_proceed, IsKeyed, Agree}
use webylib.Storage.Legacy.Rows.{has-legacy, knows-legacy, map-append}
use webylib.Prelude.{◌^◌, ◌<◌, String}
use webylib.Prelude.Int.{as_i64, as_u64_of, as_u64_of-as_i64}
use webylib.Prelude.Assoc.{insert}
use webylib.Storage.Sqlite
use webylib.Storage.Sqlite.{Database, sqlite_ops, execute, append_row, insert_err}
use webylib.Storage.Legacy.Agreement.{push-Agree, mark-Agree, reprice-Agree}

abbrev pub willing : String → String → Database → Option String
willing stage sql db = none

-- A depth is a `u64`.
abbrev pub DepthsFit : List Call → Type 0
DepthsFit [] = Unit
DepthsFit (Calls.set_depth chain depth ∷ cs) = (depth < 2 ^ 64) × DepthsFit cs
DepthsFit (c ∷ cs) = DepthsFit cs

module _ (now : Text) where
  -- `Agree`, of the tables.
  abbrev TablesAgree : Reply (Unit {0}) × Database → Result (Unit {0}) × State.MemState → Type 0
  TablesAgree p q = Agree (p.0, p.1.tables) q

  insert-tables :
      (h : Bytes) (secret : Text) (amount : ℤ) (db : Database)
      → IsKeyed db.tables
      → TablesAgree
          (Sqlite.insert_output willing now h secret amount db)
          (Mem.insert_output h secret amount (legacy_of db.tables))
  unfolding Sqlite.insert_output Mem.insert_output
  insert-tables h secret amount db d = elim (Bool-cases (has_entry h db.tables.unspent)) [
    | inl there ↦ rw there (rw (has-legacy h db.tables.unspent) (rw there (refl, refl, d)))
    | inr new ↦ rw new (
        rw (has-legacy h db.tables.unspent)
          (rw new (let p = push-Agree now h secret amount db.tables d new in (refl, p.0, p.1))))
  ]

  spent-tables :
      (h : Bytes) (s : MemState)
      → legacy_of (record s { spent_hashes = Sqlite.add_spent_hash willing now h s.spent_hashes })
        ≡ State.insert_spent_hash h (legacy_of s)
  unfolding Sqlite.add_spent_hash
  spent-tables h s = elim (Bool-cases (knows_hash h s.spent_hashes)) [
    | inl there ↦ rw there (rw (knows-legacy h s.spent_hashes) (rw there refl))
    | inr new ↦ rw new (
        rw (knows-legacy h s.spent_hashes) (
          rw new (
            ap (λ (es : List (Bytes × Text)). record (legacy_of s) { spent_hashes = es })
              (map-append legacy_spent s.spent_hashes (record { hash = h; spent_at = now } ∷ [])))))
  ]

  proceed-tables :
      (p : Reply (Unit {0}) × Database) (q : Result (Unit {0}) × State.MemState)
      (m : Act Database Unit) (n : Action State.MemState Unit)
      → TablesAgree p q
      → ((db : Database) → IsKeyed db.tables → TablesAgree (m db) (n (legacy_of db.tables)))
      → TablesAgree (proceed p m) (legacy_proceed q n)
  proceed-tables (fine _, db) (ok _, t) m n a h =
      subst (λ (u : State.MemState). TablesAgree (m db) (n u)) a.1 (h db a.2)
  proceed-tables (failed x, s) (err y, t) m n a h = a
  proceed-tables (fine _, s) (err y, t) m n a h = cc a.0
  proceed-tables (failed x, s) (ok _, t) m n a h = cc a.0

  later :
      (cs : List Call) (db : Database) {t : State.MemState}
      → legacy_of db.tables ≡ t
      → TablesAgree
          (run_calls cs (sqlite_ops willing now) db)
          (legacy_calls cs (legacy_of db.tables))
      → TablesAgree (run_calls cs (sqlite_ops willing now) db) (legacy_calls cs t)
  later cs db e h =
      subst
        (λ (t : State.MemState).
          TablesAgree (run_calls cs (sqlite_ops willing now) db) (legacy_calls cs t))
        e h

  -- One sequence of changes without `clear_all`, made to the SQLite store of the storage crate, whose engine refuses no
  -- statement, and to the in-memory store of the wallet from the same contents, where no two outputs
  -- have one hash and the depths fit 64 bits, succeeds in both or fails in both, and leaves the same
  -- metadata, outputs, spent hashes and depths but for the times, and no two outputs with one hash.
  pub run_calls-tables :
      (cs : List Call) (db : Database)
      → All KeepsDepths cs
      → DepthsFit cs
      → IsKeyed db.tables
      → Agree
          (
            (run_calls cs (sqlite_ops willing now) db).0,
            (run_calls cs (sqlite_ops willing now) db).1.tables,
          )
          (legacy_calls cs (legacy_of db.tables))
  unfolding run_calls legacy_calls
  run_calls-tables [] db ks fit d = (refl, refl, d)
  run_calls-tables (Calls.set_meta key value ∷ cs) db (_, ks) fit d =
      run_calls-tables cs
        (record db { tables = record (db.tables) { meta = insert key value db.tables.meta } }) ks
        fit d
  run_calls-tables (Calls.insert_output h secret amount ∷ cs) db (_, ks) fit d =
      proceed-tables (Sqlite.insert_output willing now h secret amount db)
        (Mem.insert_output h secret amount (legacy_of db.tables))
        (run_calls cs (sqlite_ops willing now)) (legacy_calls cs)
        (insert-tables h secret amount db d) (λ e k. run_calls-tables cs e ks fit k)
  run_calls-tables (Calls.mark_spent h ∷ cs) db (_, ks) fit d =
      let p = mark-Agree h db.tables d in
      later cs
        (record db { tables = record (db.tables) { unspent = mark_entries h db.tables.unspent } })
        p.0
        (run_calls-tables cs
          (record db { tables = record (db.tables) { unspent = mark_entries h db.tables.unspent } })
          ks fit p.1)
  run_calls-tables (Calls.insert_spent_hash h ∷ cs) db (_, ks) fit d =
      later cs
        (record db {
          tables = record (db.tables) {
            spent_hashes = Sqlite.add_spent_hash willing now h db.tables.spent_hashes;
          };
        })
        (spent-tables h db.tables)
        (run_calls-tables cs
          (record db {
            tables = record (db.tables) {
              spent_hashes = Sqlite.add_spent_hash willing now h db.tables.spent_hashes;
            };
          })
          ks fit d)
  run_calls-tables (Calls.update_output_amount h amount ∷ cs) db (_, ks) fit d =
      let p = reprice-Agree h amount db.tables d in
      later cs
        (record db {
          tables = record (db.tables) { unspent = reprice_entries h amount db.tables.unspent };
        })
        p.0
        (run_calls-tables cs
          (record db {
            tables = record (db.tables) { unspent = reprice_entries h amount db.tables.unspent };
          })
          ks fit p.1)
  run_calls-tables (Calls.set_depth chain depth ∷ cs) db (_, ks) fit d =
      later cs
        (record db {
          tables = record (db.tables) {
            depths = insert chain (as_u64_of (as_i64 depth)) db.tables.depths;
          };
        })
        (ap (λ (n : ℕ). State.set_depth chain n (legacy_of db.tables))
          (as_u64_of-as_i64 depth fit.0))
        (run_calls-tables cs
          (record db {
            tables = record (db.tables) {
              depths = insert chain (as_u64_of (as_i64 depth)) db.tables.depths;
            };
          })
          ks fit.1 d)
  run_calls-tables (Calls.clear_all ∷ cs) db (k, ks) fit d = absurd k
