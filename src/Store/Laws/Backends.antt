-- ===== src/Store/Laws/Backends.antt =====
-- The three backends of src/wallet/store.rs keep the laws of the interface.
use webylib.Prelude.{
  String, ◌≡◌, refl, sym, ap, ◌∙◌, Bool, true, false, [], ◌∷◌, ◌++◌, arith, if◌then◌else◌,
}
use webylib.Prelude.Int.{ℤ}
use webylib.Prelude.Text.{Text}
use webylib.Fault.{Error, Result, ok, err}
use webylib.Crypto.{Bytes}
use webylib.Store.{Ops}
use webylib.Store.Monad.{Action, continue, modify, gets, bind-ok, ◌>>◌}
use webylib.Store.State
use webylib.Store.State.{MemState, MemOutput, mark_first, knows_spent, has_hash}
use webylib.Store.Mem
use webylib.Store.Mem.{mem_ops, mem_store}
use webylib.Store.Json.{batch_ops, json_ops, json_store, json_atomic, commit, mutate}
use webylib.Store.Sqlite.{
  sqlite_ops, sqlite_store, delete_all, write, sqlite_atomic, insert_row, set_spent, finish, begun,
  committed,
}
use webylib.Store.Laws.{OpsLaws, StoreLaws, IsFresh}
use webylib.Store.Laws.Outputs.{set_spent-Distinct}

-- What a returned pair says of the two parts.
result-eq {ℓ κ} :
    {A : Type ℓ} {S : Type κ} {r r' : Result A} {s s' : S}
    → ◌≡◌ {A = Result A × S} (r, s) (r', s')
    → r ≡ r'
result-eq {A = A} {S = S} e = ap (λ (p : Result A × S). p.0) e

state-eq {ℓ κ} :
    {A : Type ℓ} {S : Type κ} {r r' : Result A} {s s' : S}
    → ◌≡◌ {A = Result A × S} (r, s) (r', s')
    → s ≡ s'
state-eq {A = A} {S = S} e = ap (λ (p : Result A × S). p.1) e

ok-injective {ℓ} : {A : Type ℓ} {a b : A} → ok a ≡ ok b → a ≡ b
ok-injective e = cc

spent_hash-outputs : (h : Bytes) (s : MemState) → (State.insert_spent_hash h s).outputs ≡ s.outputs
spent_hash-outputs h s = ground arith

mem-insert :
    (h : Bytes) (secret : Text) (amount : ℤ) (s : MemState) {s' : MemState}
    → Mem.insert_output h secret amount s ≡ (ok tt, s')
    → (o : MemOutput) × IsFresh h secret amount o × (s'.outputs ≡ s.outputs ++ o ∷ [])
unfolding Mem.insert_output
mem-insert h secret amount s e =
    (State.fresh h secret amount, (refl, refl, refl, refl), ground arith)

-- A method that reads, and one that changes the state.
reads :
    {A : Type 0} (f : MemState → A) (s : MemState) {a : A} {s' : MemState}
    → gets f s ≡ (ok a, s')
    → (a ≡ f s) × (s' ≡ s)
reads f s e = (sym (ok-injective (result-eq e)), sym (state-eq e))

writes :
    {r : Result (Unit {0})} (g : MemState → MemState) (s : MemState) {s' : MemState}
    → ◌≡◌ {A = Result Unit × MemState} (r, g s) (ok tt, s')
    → (s'.outputs ≡ (g s).outputs) × (s'.depths ≡ (g s).depths)
writes g s e = (
  ap (λ (t : MemState). t.outputs) (sym (state-eq e)),
  ap (λ (t : MemState). t.depths) (sym (state-eq e)),
)

sets :
    {r : Result (Unit {0})} (g : MemState → MemState) (s : MemState) {s' : MemState}
    → ◌≡◌ {A = Result Unit × MemState} (r, g s) (ok tt, s')
    → (s'.outputs ≡ (g s).outputs) × (s'.depths ≡ (g s).depths) × (s'.meta ≡ (g s).meta)
sets g s e =
    let (outputs, depths) = writes g s e in
    (outputs, depths, ap (λ (t : MemState). t.meta) (sym (state-eq e)))

pub mem_ops-laws : OpsLaws mem_ops
mem_ops-laws = record {
  get_unspent = λ s e. reads State.get_unspent s e;
  mark_spent = λ h s d e. (writes (State.mark_spent h) s e).0;
  insert_spent_hash = λ h s e. (writes (State.insert_spent_hash h) s e).0 ∙ spent_hash-outputs h s;
  insert_output = mem-insert;
  get_depth = λ chain s e. reads (State.get_depth chain) s e;
  set_depth = λ chain n s e. writes (State.set_depth chain n) s e;
  get_meta = λ key s e. reads (State.get_meta key) s e;
  set_meta = λ key value s e. sets (State.set_meta key value) s e;
  clear_all = λ s e. (writes State.clear_all s e).0;
}

-- The in-memory store keeps the laws of the interface.
pub mem_store-laws : StoreLaws mem_store
mem_store-laws = record {
  outer_laws = mem_ops-laws;
  inner = mem_ops;
  inner_laws = mem_ops-laws;
  atomic_ok = λ body s e. e;
}

push :
    (h : Bytes) (secret : Text) (amount : ℤ) (s : MemState) {s' : MemState} {r : Result (Unit {0})}
    → ◌≡◌ {A = Result Unit × MemState}
        (r, State.push_output (State.fresh h secret amount) s)
        (ok tt, s')
    → (o : MemOutput) × IsFresh h secret amount o × (s'.outputs ≡ s.outputs ++ o ∷ [])
push h secret amount s e = (
  State.fresh h secret amount,
  (refl, refl, refl, refl),
  (writes (State.push_output (State.fresh h secret amount)) s e).0,
)

pub batch_ops-laws : OpsLaws batch_ops
batch_ops-laws = record {
  get_unspent = λ s e. reads State.get_unspent s e;
  mark_spent = λ h s d e. (writes (State.mark_spent h) s e).0;
  insert_spent_hash = λ h s e. (writes (State.insert_spent_hash h) s e).0 ∙ spent_hash-outputs h s;
  insert_output = λ h secret amount s e. push h secret amount s e;
  get_depth = λ chain s e. reads (State.get_depth chain) s e;
  set_depth = λ chain n s e. writes (State.set_depth chain n) s e;
  get_meta = λ key s e. reads (State.get_meta key) s e;
  set_meta = λ key value s e. sets (State.set_meta key value) s e;
  clear_all = λ s e. (writes State.clear_all s e).0;
}

module _ (flush : MemState → Result (Unit {0})) where
  pub json_ops-laws : OpsLaws (json_ops flush)
  unfolding mutate
  json_ops-laws = record {
    get_unspent = λ s e. reads State.get_unspent s e;
    mark_spent = λ h s d e. (writes (State.mark_spent h) s e).0;
    insert_spent_hash =
        λ h s e. (writes (State.insert_spent_hash h) s e).0 ∙ spent_hash-outputs h s;
    insert_output = λ h secret amount s e. push h secret amount s e;
    get_depth = λ chain s e. reads (State.get_depth chain) s e;
    set_depth = λ chain n s e. writes (State.set_depth chain n) s e;
    get_meta = λ key s e. reads (State.get_meta key) s e;
    set_meta = λ key value s e. sets (State.set_meta key value) s e;
    clear_all = λ s e. (writes State.clear_all s e).0;
  }

  json_atomic-ok :
      (body : Ops MemState → Action MemState Unit) (s : MemState) {s' : MemState}
      → json_atomic flush body s ≡ (ok tt, s')
      → body batch_ops s ≡ (ok tt, s')
  unfolding json_atomic
  json_atomic-ok body s e = committed (body batch_ops s).0 (body batch_ops s).1 e
    where
      committed :
          (r : Result (Unit {0})) (t : MemState) {s' : MemState}
          → commit flush s (r, t) ≡ (ok tt, s')
          → ◌≡◌ {A = Result Unit × MemState} (r, t) (ok tt, s')
      committed (ok tt) t e = ap (λ (u : MemState). (ok tt, u)) (state-eq e)
      committed (err x) t e = cc (result-eq e)

  -- The JSON store keeps the laws of the interface, whether or not its file can be written; its
  -- atomic step runs on the methods of `BatchStore`, which keep them too.
  pub json_store-laws : StoreLaws (json_store flush)
  json_store-laws = record {
    outer_laws = json_ops-laws;
    inner = batch_ops;
    inner_laws = batch_ops-laws;
    atomic_ok = json_atomic-ok;
  }

-- A statement that the engine carried out.
ran-read :
    {A : Type 0} (r : Result (Unit {0})) (f : MemState → A) (s : MemState) {a : A} {s' : MemState}
    → continue r (λ _. gets f) s ≡ (ok a, s')
    → (a ≡ f s) × (s' ≡ s)
ran-read (ok _) f s e = reads f s e
ran-read (err x) f s e = cc (result-eq e)

ran-write :
    (r : Result (Unit {0})) (g : MemState → MemState) (s : MemState) {s' : MemState}
    → continue r (λ _. modify g) s ≡ (ok tt, s')
    → (s'.outputs ≡ (g s).outputs) × (s'.depths ≡ (g s).depths)
ran-write (ok _) g s e = writes g s e
ran-write (err x) g s e = cc (result-eq e)

ran-sets :
    (r : Result (Unit {0})) (g : MemState → MemState) (s : MemState) {s' : MemState}
    → continue r (λ _. modify g) s ≡ (ok tt, s')
    → (s'.outputs ≡ (g s).outputs) × (s'.depths ≡ (g s).depths) × (s'.meta ≡ (g s).meta)
ran-sets (ok _) g s e = sets g s e
ran-sets (err x) g s e = cc (result-eq e)

module _ (engine : String → MemState → Result (Unit {0})) (now : Text) where
  sqlite-insert :
      (h : Bytes) (secret : Text) (amount : ℤ) (s : MemState) {s' : MemState}
      → insert_row engine now h secret amount s ≡ (ok tt, s')
      → (o : MemOutput) × IsFresh h secret amount o × (s'.outputs ≡ s.outputs ++ o ∷ [])
  unfolding insert_row
  sqlite-insert h secret amount s {s'} e =
      let o : MemOutput = record {
        secret_hash = h;
        secret = secret;
        amount = amount;
        created_at = now;
        spent = false;
      } in
      (o, (refl, refl, refl, refl), inserted (has_hash h s.outputs) e)
    where
      row : MemOutput
      row = record {
        secret_hash = h;
        secret = secret;
        amount = amount;
        created_at = now;
        spent = false;
      }

      inserted :
          (b : Bool)
          → (if b
              then (err (Error.database "UNIQUE constraint failed: unspent_outputs.secret_hash"), s)
              else continue
                  (engine "INSERT INTO unspent_outputs" s)
                  (λ _. modify (λ (t : MemState). record t { outputs = t.outputs ++ row ∷ [] }))
                  s)
            ≡ (ok tt, s')
          → s'.outputs ≡ s.outputs ++ row ∷ []
      inserted true e = cc (result-eq e)
      inserted false e =
          (ran-write _ (λ (t : MemState). record t { outputs = t.outputs ++ row ∷ [] }) s e).0

  spent_row-outputs :
      (h : Bytes) (s : MemState)
      → (if knows_spent h s.spent_hashes
          then s
          else record s { spent_hashes = s.spent_hashes ++ (h, now) ∷ [] }).outputs
        ≡ s.outputs
  spent_row-outputs h s = ground arith

  delete_all-outputs :
      (s : MemState) {s' : MemState} → delete_all engine now s ≡ (ok tt, s') → s'.outputs ≡ []
  unfolding delete_all
  delete_all-outputs s e =
      let no_meta = λ (t : MemState). record t { meta = [] } in
      let no_rows = λ (t : MemState). record t { outputs = [] } in
      let no_hashes = λ (t : MemState). record t { spent_hashes = [] } in
      let second = write engine now "DELETE FROM unspent_outputs" no_rows in
      let third = write engine now "DELETE FROM spent_hashes" no_hashes in
      let (_, s1, e1, r1) =
        bind-ok (write engine now "DELETE FROM wallet_metadata" no_meta) (λ _. second >> third) s
          e in
      let (_, s2, e2, e3) = bind-ok second (λ _. third) s1 r1 in
      (ran-write _ no_hashes s2 e3).0 ∙ (ran-write _ no_rows s1 e2).0

  pub sqlite_ops-laws : OpsLaws (sqlite_ops engine now)
  sqlite_ops-laws = record {
    get_unspent = λ s e. ran-read _ State.get_unspent s e;
    mark_spent = λ h s d e.
        (ran-write _ (λ (t : MemState). record t { outputs = set_spent h t.outputs }) s e).0
        ∙ set_spent-Distinct h s.outputs d;
    insert_spent_hash = λ h s e.
        (ran-write _
          (λ (t : MemState).
            if knows_spent h t.spent_hashes
            then t
            else record t { spent_hashes = t.spent_hashes ++ (h, now) ∷ [] })
          s e).0
        ∙ spent_row-outputs h s;
    insert_output = sqlite-insert;
    get_depth = λ chain s e. ran-read _ (State.get_depth chain) s e;
    set_depth = λ chain n s e. ran-write _ (State.set_depth chain n) s e;
    get_meta = λ key s e. ran-read _ (State.get_meta key) s e;
    set_meta = λ key value s e. ran-sets _ (State.set_meta key value) s e;
    clear_all = delete_all-outputs;
  }

  commits :
      (r : Result (Unit {0})) (s t : MemState) {s' : MemState}
      → committed engine now s t r ≡ (ok tt, s')
      → t ≡ s'
  commits (ok _) s t e = state-eq e
  commits (err x) s t e = cc (result-eq e)

  finished :
      (r : Result (Unit {0})) (s t : MemState) {s' : MemState}
      → finish engine now s (r, t) ≡ (ok tt, s')
      → ◌≡◌ {A = Result Unit × MemState} (r, t) (ok tt, s')
  finished (err x) s t e = cc (result-eq e)
  finished (ok tt) s t e = ap (λ (u : MemState). (ok tt, u)) (commits (engine "COMMIT" t) s t e)

  sqlite_atomic-ok :
      (body : Ops MemState → Action MemState Unit) (s : MemState) {s' : MemState}
      → sqlite_atomic engine now body s ≡ (ok tt, s')
      → body (sqlite_ops engine now) s ≡ (ok tt, s')
  unfolding sqlite_atomic
  sqlite_atomic-ok body s e = ran (engine "BEGIN" s) e
    where
      ran :
          (r : Result (Unit {0})) {s' : MemState}
          → begun engine now body s r ≡ (ok tt, s')
          → body (sqlite_ops engine now) s ≡ (ok tt, s')
      ran (ok _) e =
          finished (body (sqlite_ops engine now) s).0 s (body (sqlite_ops engine now) s).1 e
      ran (err x) e = cc (result-eq e)

  -- The SQLite store keeps the laws of the interface, whether or not the engine carries out a
  -- statement, where no two outputs have one hash.
  pub sqlite_store-laws : StoreLaws (sqlite_store engine now)
  sqlite_store-laws = record {
    outer_laws = sqlite_ops-laws;
    inner = sqlite_ops engine now;
    inner_laws = sqlite_ops-laws;
    atomic_ok = sqlite_atomic-ok;
  }
