-- ===== src/Store/Json.antt =====
-- `JsonStore`: the in-memory state with a JSON file behind it (src/wallet/store.rs). `flush` is the
-- serialisation and the write of the file, which may fail; without a path it succeeds. A poisoned
-- lock is not modelled.
use webylib.Prelude.{length}
use webylib.Fault.{Result, ok, err}
use webylib.Store.{Ops, Store}
use webylib.Store.Monad.{Action, gets, modify}
use webylib.Store.State
use webylib.Store.State.{MemState, fresh, push_output, unspent}

-- `BatchStore`, on which `atomic` runs its body: the state alone, with no file.
abbrev pub batch_ops : Ops MemState
batch_ops = record {
  get_meta = λ key. gets (State.get_meta key);
  set_meta = λ key value. modify (State.set_meta key value);
  insert_output = λ h secret amount. modify (push_output (fresh h secret amount));
  mark_spent = λ h. modify (State.mark_spent h);
  insert_spent_hash = λ h. modify (State.insert_spent_hash h);
  get_unspent = gets State.get_unspent;
  get_all_outputs = gets State.get_all_outputs;
  count_outputs = gets (λ s. length s.outputs);
  count_unspent = gets (λ s. length (unspent s.outputs));
  count_spent_hashes = gets (λ s. length s.spent_hashes);
  sum_unspent = gets State.sum_unspent;
  update_output_amount = λ h amount. modify (State.update_output_amount h amount);
  get_depth = λ chain. gets (State.get_depth chain);
  set_depth = λ chain depth. modify (State.set_depth chain depth);
  get_all_depths = gets (λ s. s.depths);
  get_all_meta = gets (λ s. s.meta);
  get_spent_hashes_with_time = gets (λ s. s.spent_hashes);
  get_unspent_full = gets State.get_unspent_full;
  clear_all = modify State.clear_all;
}

module _ (flush : MemState → Result (Unit {0})) where
  -- `mutate`: the state is changed, and then written to the file.
  unfoldable pub mutate : (MemState → MemState) → Action MemState Unit
  mutate f s = let s' = f s in (flush s', s')

  abbrev pub json_ops : Ops MemState
  json_ops = record {
    get_meta = λ key. gets (State.get_meta key);
    set_meta = λ key value. mutate (State.set_meta key value);
    insert_output = λ h secret amount. mutate (push_output (fresh h secret amount));
    mark_spent = λ h. mutate (State.mark_spent h);
    insert_spent_hash = λ h. mutate (State.insert_spent_hash h);
    get_unspent = gets State.get_unspent;
    get_all_outputs = gets State.get_all_outputs;
    count_outputs = gets (λ s. length s.outputs);
    count_unspent = gets (λ s. length (unspent s.outputs));
    count_spent_hashes = gets (λ s. length s.spent_hashes);
    sum_unspent = gets State.sum_unspent;
    update_output_amount = λ h amount. mutate (State.update_output_amount h amount);
    get_depth = λ chain. gets (State.get_depth chain);
    set_depth = λ chain depth. mutate (State.set_depth chain depth);
    get_all_depths = gets (λ s. s.depths);
    get_all_meta = gets (λ s. s.meta);
    get_spent_hashes_with_time = gets (λ s. s.spent_hashes);
    get_unspent_full = gets State.get_unspent_full;
    clear_all = mutate State.clear_all;
  }

  -- The body runs on a copy; only where it succeeds does the copy replace the state, which is
  -- then written once.
  abbrev pub commit : MemState → Result (Unit {0}) × MemState → Result (Unit {0}) × MemState
  commit s (ok _, s') = (flush s', s')
  commit s (err e, s') = (err e, s)

  unfoldable pub json_atomic : (Ops MemState → Action MemState Unit) → Action MemState Unit
  json_atomic f s = commit s (f batch_ops s)

  abbrev pub json_store : Store MemState
  json_store = record { ops = json_ops; atomic = json_atomic }
