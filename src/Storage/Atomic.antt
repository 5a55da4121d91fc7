-- ===== src/Storage/Atomic.antt =====
-- What an atomic step of a backend of the storage crate leaves behind where it fails.
use webylib.Prelude.{
  ◌≡◌, refl, sym, ap, ◌∙◌, Option, none, some, List, [], ◌∷◌, String, ◌⊎◌, if◌then◌else◌, true,
  false, Bool, replicate, length,
}
use webylib.Prelude.Text.{Text}
use webylib.Storage.{StoreError, sql_err, Reply, fine, failed, Act, MemState, Ops, is_fine}
use webylib.Storage.Mem.{has_entry}
use webylib.Storage.Sqlite.{
  Database, stage, execute, append_row, insert_err, insert_output, clear_all, and_then, sqlite_ops,
  sqlite_atomic, begun, run_begin, run_commit, open_transaction,
}
use webylib.Storage.Calls
use webylib.Storage.Calls.{Call, run_call, run_calls, proceed}

abbrev Ran : Type 0 → Type 0
Ran S = Reply (Unit {0}) × S

module _ (engine : String → String → Database → Option String) (now : Text) where
  -- A body that neither opens nor ends a transaction of its own.
  abbrev pub KeepsTransaction : (Ops Database → Act Database Unit) → Type 0
  KeepsTransaction f = (d : Database) → (f (sqlite_ops engine now) d).1.saved ≡ d.saved

  stage-saved :
      (r : Option String) (wrap : String → StoreError) (g : MemState → MemState) (d : Database)
      → (stage engine now r wrap (λ b. (fine tt, record b { tables = g b.tables })) d).1.saved
        ≡ d.saved
  stage-saved (some e) wrap g d = refl
  stage-saved none wrap g d = refl

  and_then-saved :
      (p : Ran Database) (m : Act Database Unit)
      → ((d : Database) → (m d).1.saved ≡ d.saved)
      → (and_then engine now p m).1.saved ≡ p.1.saved
  and_then-saved (fine _, d) m h = h d
  and_then-saved (failed e, d) m h = refl

  call-saved : (c : Call) (d : Database) → (run_call (sqlite_ops engine now) c d).1.saved ≡ d.saved
  unfolding insert_output clear_all
  call-saved (Calls.set_meta key value) d = stage-saved _ _ _ d
  call-saved (Calls.insert_output h secret amount) d =
      elim (has_entry h d.tables.unspent)
        as (λ b.
          (if b
            then (failed (insert_err "UNIQUE constraint failed: unspent_outputs.secret_hash"), d)
            else execute engine now "INSERT INTO unspent_outputs" insert_err
                (append_row engine now h secret amount) d).1.saved
          ≡ d.saved) [ true ↦ refl | false ↦ stage-saved _ _ _ d ]
  call-saved (Calls.mark_spent h) d = stage-saved _ _ _ d
  call-saved (Calls.insert_spent_hash h) d = stage-saved _ _ _ d
  call-saved (Calls.update_output_amount h amount) d = stage-saved _ _ _ d
  call-saved (Calls.set_depth chain depth) d = stage-saved _ _ _ d
  call-saved Calls.clear_all d =
      let delete = λ (sql : String) (g : MemState → MemState).
        execute engine now sql (sql_err "clear_all") g in
      let first = delete "DELETE FROM wallet_metadata" (λ t. record t { meta = [] }) d in
      let rows = delete "DELETE FROM unspent_outputs" (λ t. record t { unspent = [] }) in
      let hashes = delete "DELETE FROM spent_hashes" (λ t. record t { spent_hashes = [] }) in
      let depths = delete "DELETE FROM walletdepths" (λ t. record t { depths = [] }) in
      let two = and_then engine now first rows in
      and_then-saved (and_then engine now two hashes) depths (λ c. stage-saved _ _ _ c)
      ∙ and_then-saved two hashes (λ c. stage-saved _ _ _ c)
      ∙ and_then-saved first rows (λ c. stage-saved _ _ _ c)
      ∙ stage-saved _ _ _ d

  proceed-saved :
      (p : Ran Database) (m : Act Database Unit)
      → ((d : Database) → (m d).1.saved ≡ d.saved)
      → (proceed p m).1.saved ≡ p.1.saved
  proceed-saved (fine _, d) m h = h d
  proceed-saved (failed e, d) m h = refl

  pub run_calls-KeepsTransaction : (cs : List Call) → KeepsTransaction (run_calls cs)
  unfolding run_calls
  run_calls-KeepsTransaction [] d = refl
  run_calls-KeepsTransaction (c ∷ cs) d =
      proceed-saved (run_call (sqlite_ops engine now) c d) (run_calls cs (sqlite_ops engine now))
        (run_calls-KeepsTransaction cs)
      ∙ call-saved c d

  -- Without a transaction.
  abbrev pub idle : MemState → Database
  idle t = record { tables = t; saved = none }

  abbrev Outcome : MemState → Database → Type 0
  Outcome t db' = (db' ≡ idle t) ⊎ (db'.saved ≡ some t)

  -- While a transaction is open, every atomic step fails, whatever its body, and changes nothing:
  -- the body is not run.
  sqlite_atomic_open :
      (f : Ops Database → Act Database Unit) (db : Database) {t : MemState}
      → db.saved ≡ some t
      → (x : StoreError) × (sqlite_atomic engine now f db ≡ (failed x, db))
  unfolding sqlite_atomic run_begin
  sqlite_atomic_open f db {t} k = refused (engine "execute" "BEGIN" db) db.saved k
    where
      refused :
          (r : Option String) (o : Option MemState)
          → o ≡ some t
          → (x : StoreError) × (begun engine now f
                (stage engine now r (sql_err "begin") (open_transaction engine now o) db)
              ≡ (failed x, db))
      refused (some y) o k = (sql_err "begin" y, refl)
      refused none (some u) k =
          (sql_err "begin" "cannot start a transaction within a transaction", refl)
      refused none none k = cc

  -- Atomic steps one after the other, and whether each succeeded.
  abbrev pub run_steps : List (Ops Database → Act Database Unit) → Database → List Bool × Database
  run_steps [] db = ([], db)
  run_steps (g ∷ gs) db =
      let (r, db1) = sqlite_atomic engine now g db in
      let (rs, db2) = run_steps gs db1 in (is_fine r ∷ rs, db2)

  run_steps_open :
      (gs : List (Ops Database → Act Database Unit)) (db : Database) {t : MemState}
      → db.saved ≡ some t
      → run_steps gs db ≡ (replicate (length gs) false, db)
  run_steps_open [] db k = refl
  run_steps_open (g ∷ gs) db k =
      let (x, e) = sqlite_atomic_open g db k in rw (e, run_steps_open gs db k) refl

  -- Where an atomic step was begun outside a transaction, its body succeeded, neither opening nor
  -- ending a transaction of its own, and the engine refused the COMMIT, the step fails and leaves what
  -- the body made of the tables; from then on every atomic step of any sequence fails, and nothing
  -- changes any more.
  pub sqlite_atomic-stuck :
      (f : Ops Database → Act Database Unit) (t : MemState) (d : Database) {y : String}
      → KeepsTransaction f
      → engine "execute" "BEGIN" (idle t) ≡ none
      → f (sqlite_ops engine now) (record { tables = t; saved = some t }) ≡ (fine tt, d)
      → engine "execute" "COMMIT" d ≡ some y
      → (gs : List (Ops Database → Act Database Unit))
      → (sqlite_atomic engine now f (idle t) ≡ (failed (sql_err "commit" y), d))
        × (run_steps gs d ≡ (replicate (length gs) false, d))
  unfolding sqlite_atomic run_begin run_commit
  sqlite_atomic-stuck f t d keeps began ran refused gs =
      let left = ap (λ (p : Ran Database). p.1.saved) (sym ran) in
      (
        rw (began, ran, refused) refl,
        run_steps_open gs d (left ∙ keeps (record { tables = t; saved = some t })),
      )
